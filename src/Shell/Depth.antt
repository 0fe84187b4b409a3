-- ===== src/Shell/Depth.antt =====
-- The fuel that parsing a line of the grammar of sh.c needs, and that its text is long enough.
use mutex.Common.{ℕ, ◌+◌, ◌*◌, ◌≤◌, List, ◌∷◌, length, arith}
use mutex.Shell.Grammar.{
  Simple, words, block, Chain, alone, into, Line, last, next, redirections_text, arguments_text,
  ands, simple_text, chain_text, line_text,
}
use mutex.Shell.Words.{length-redirections_text, length-arguments_text}
use mutex.Shell.Texts.{length-ands}

-- The fuel that each needs.
unfoldable mutual
  pub depth_simple : Simple → ℕ
  depth_simple (words rs xs) = 1
  depth_simple (block l rs) = 2 + depth_line l

  pub depth_chain : Chain → ℕ
  depth_chain (alone s) = 1 + depth_simple s
  depth_chain (into s c) = 1 + depth_simple s + depth_chain c

  pub depth_line : Line → ℕ
  depth_line (last c n) = 1 + depth_chain c
  depth_line (next c n l) = 1 + depth_chain c + depth_line l

mutual
  unfolding depth_simple simple_text

  depth-simple_text :
      (s : Simple) (t : List ℕ) → depth_simple s + 4 * length t ≤ 4 * length (simple_text s t) + 2
  depth-simple_text (words rs xs) t =
      omega (arith, length-redirections_text rs (arguments_text xs t), length-arguments_text xs t)
  depth-simple_text (block l rs) t =
      let u = redirections_text rs t in
      omega (arith, depth-line_text l (b')' ∷ u), length-redirections_text rs t)

  depth-chain_text :
      (c : Chain) (t : List ℕ) → depth_chain c + 4 * length t ≤ 4 * length (chain_text c t) + 3
  depth-chain_text (alone s) t = omega (arith, depth-simple_text s t)
  depth-chain_text (into s c) t =
      omega (arith, depth-simple_text s (b'|' ∷ chain_text c t), depth-chain_text c t)

  pub depth-line_text :
      (l : Line) (t : List ℕ) → depth_line l + 4 * length t ≤ 4 * length (line_text l t) + 4
  depth-line_text (last c k) t = omega (arith, depth-chain_text c (ands k t), length-ands k t)
  depth-line_text (next c k l) t =
      let u = b';' ∷ line_text l t in
      omega (arith, depth-chain_text c (ands k u), length-ands k u, depth-line_text l t)
