-- ===== src/Shell/Texts.antt =====
-- The texts of the grammar of sh.c begin with no white space; the loop of parseline over `&`.
use mutex.Common.{
  ◌≤◌, ◌+◌, ℕ, zero, suc, ◌<◌, true, false, ◌&&◌, List, [], ◌∷◌, ◌≡◌, refl, length, ltb, arith,
}
use mutex.Shell.{Cmd, backcmd, parsed}
use mutex.Shell.Lexer.{strchr, gettoken, starts}
use mutex.Shell.Parser.{maxargs, background}
use mutex.Shell.Grammar.{
  Simple, words, block, Chain, alone, into, Line, last, next, redirections_text, arguments_text,
  ands, simple_text, chain_text, line_text, behind, good_redirections, good_arguments, good_simple,
  good_chain, good_line,
}
use mutex.Shell.Tokens.{
  IsSolid, and-left, and-right, not_space-IsSolid, gettoken-single, peek-sees, peek-misses, ends,
  stops, chain_stops, line_stops, ends-IsSolid, chain-ends, line-ends,
}
use mutex.Shell.Words.{redirections_text-IsSolid, arguments_text-IsSolid}

ends-stop : (c : ℕ) (t : List ℕ) → strchr chain_stops c ≡ true → ends chain_stops (c ∷ t) ≡ true
ends-stop c t h = h

pub ands-ends :
    (n : ℕ) (t : List ℕ) → ends chain_stops t ≡ true → ends chain_stops (ands n t) ≡ true
unfolding ands strchr
ands-ends zero t h = h
ands-ends (suc n) t h = refl

pub semicolon_ends : (t : List ℕ) → ends chain_stops (b';' ∷ t) ≡ true
unfolding strchr
semicolon_ends t = refl

pub pipe_ends : (t : List ℕ) → ends stops (b'|' ∷ t) ≡ true
unfolding strchr
pipe_ends t = refl

pub paren_ends : (t : List ℕ) → ends line_stops (b')' ∷ t) ≡ true
unfolding strchr
paren_ends t = refl

pub paren-IsSolid : (t : List ℕ) → IsSolid (b'(' ∷ t)
unfolding strchr
paren-IsSolid t = not_space-IsSolid b'(' t refl

mutual
  unfolding simple_text chain_text good_simple good_chain

  simple_text-IsSolid :
      (s : Simple) (t : List ℕ)
      → good_simple s ≡ true
      → ends stops t ≡ true
      → IsSolid (simple_text s t)
  simple_text-IsSolid (words rs xs) t g e = redirections_text-IsSolid rs (arguments_text xs t) (
      arguments_text-IsSolid xs t
        (and-left (good_arguments xs) (ltb (length xs) maxargs)
          (and-right (good_redirections rs) (good_arguments xs && ltb (length xs) maxargs) g))
        e)
  simple_text-IsSolid (block l rs) t g e =
      paren-IsSolid (line_text l (b')' ∷ redirections_text rs t))

pub chain_text-IsSolid :
    (c : Chain) (t : List ℕ)
    → good_chain c ≡ true
    → ends chain_stops t ≡ true
    → IsSolid (chain_text c t)
unfolding chain_text good_chain
chain_text-IsSolid (alone s) t g e = simple_text-IsSolid s t g (chain-ends t e)
chain_text-IsSolid (into s c) t g e =
    simple_text-IsSolid s (b'|' ∷ chain_text c t) (and-left (good_simple s) (good_chain c) g)
      (pipe_ends (chain_text c t))

pub line_text-IsSolid :
    (l : Line) (t : List ℕ)
    → good_line l ≡ true
    → ends line_stops t ≡ true
    → IsSolid (line_text l t)
unfolding line_text good_line
line_text-IsSolid (last c n) t g e =
    chain_text-IsSolid c (ands n t) g (ands-ends n t (line-ends t e))
line_text-IsSolid (next c n l) t g e =
    chain_text-IsSolid c (ands n (b';' ∷ line_text l t)) (and-left (good_chain c) (good_line l) g)
      (ands-ends n (b';' ∷ line_text l t) (semicolon_ends (line_text l t)))

-- The loop over `&`.
and_starts : (t : List ℕ) → starts (b'&' ∷ []) (b'&' ∷ t) ≡ true
unfolding starts strchr
and_starts t = refl

gettoken-and :
    (t : List ℕ)
    → IsSolid t
    → gettoken (b'&' ∷ t) ≡ record { ret = b'&'; word = b'&' ∷ []; rest = t }
unfolding strchr
gettoken-and t h = gettoken-single b'&' t refl refl h

pub background_lem :
    (k n : ℕ) (c : Cmd) (t : List ℕ)
    → ends chain_stops t ≡ true
    → starts (b'&' ∷ []) t ≡ false
    → k < n
    → background n c (ands k t) ≡ parsed (behind k c) t
unfolding background ands behind
background_lem k zero c t e h short = absurd (omega arith)
background_lem zero (suc n) c t e h short =
    rw (peek-misses t (b'&' ∷ []) (ends-IsSolid t (chain-ends t e)) h, background) refl
background_lem (suc k) (suc n) c t e h short =
    let u = ands k t in
    let stop = chain-ends u (ands-ends k t e) in
    let here = chain-ends (b'&' ∷ u) (ands-ends (suc k) t e) in
    rw
      (
        peek-sees (b'&' ∷ u) (b'&' ∷ []) (ends-IsSolid (b'&' ∷ u) here) (and_starts u),
        background,
        gettoken-and u (ends-IsSolid u stop),
      )
      (background_lem k n (backcmd c) t e h (omega arith))

pub length-ands : (k : ℕ) (t : List ℕ) → k + length t ≤ length (ands k t)
unfolding ands
length-ands zero t = omega arith
length-ands (suc k) t = omega (arith, length-ands k t)
