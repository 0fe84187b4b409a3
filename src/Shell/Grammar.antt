-- ===== src/Shell/Grammar.antt =====
-- The grammar that the parser of sh.c is for, apart from how it parses: lines, their text and the
-- tree that each means.
use mutex.Common.{ℕ, zero, suc, Bool, true, false, ◌&&◌, List, [], ◌∷◌, ◌++◌, ltb, length}
use mutex.Shell.{Cmd, execcmd, redircmd, pipecmd, listcmd, backcmd}
use mutex.Shell.Lexer.{is_plain}
use mutex.Shell.Parser.{maxargs, rdonly, wronly_create, add_arg}

-- `< file`, `> file` and `>> file`
pub data Way : Type 0 where
  input output append : Way

pub record Redirection : Type 0 where
  pub way : Way
  pub file : List ℕ

-- A word, and the redirections behind it.
pub record Argument : Type 0 where
  pub word : List ℕ
  pub redirections : List Redirection

mutual
  pub data Simple : Type 0 where
    words : List Redirection → List Argument → Simple
    block : Line → List Redirection → Simple

  pub data Chain : Type 0 where
    alone : Simple → Chain
    into : Simple → Chain → Chain

  -- A line has a chain of pipes, the number of `&` behind it, and what follows a `;`.
  pub data Line : Type 0 where
    last : Chain → ℕ → Line
    next : Chain → ℕ → Line → Line

-- The text of each in front of a rest.
abbrev pub sign : Way → List ℕ → List ℕ
sign input t = b'<' ∷ t
sign output t = b'>' ∷ t
sign append t = b'>' ∷ b'>' ∷ t

-- A word is printed with a space behind it.
unfoldable pub word_text : List ℕ → List ℕ → List ℕ
word_text w t = w ++ b' ' ∷ t

unfoldable pub redirections_text : List Redirection → List ℕ → List ℕ
redirections_text [] t = t
redirections_text (r ∷ rs) t = sign r.way (word_text r.file (redirections_text rs t))

unfoldable pub arguments_text : List Argument → List ℕ → List ℕ
arguments_text [] t = t
arguments_text (a ∷ xs) t =
    word_text a.word (redirections_text a.redirections (arguments_text xs t))

unfoldable pub ands : ℕ → List ℕ → List ℕ
ands zero t = t
ands (suc n) t = b'&' ∷ ands n t

unfoldable mutual
  pub simple_text : Simple → List ℕ → List ℕ
  simple_text (words rs xs) t = redirections_text rs (arguments_text xs t)
  simple_text (block l rs) t = b'(' ∷ line_text l (b')' ∷ redirections_text rs t)

  pub chain_text : Chain → List ℕ → List ℕ
  chain_text (alone s) t = simple_text s t
  chain_text (into s c) t = simple_text s (b'|' ∷ chain_text c t)

  pub line_text : Line → List ℕ → List ℕ
  line_text (last c n) t = chain_text c (ands n t)
  line_text (next c n l) t = chain_text c (ands n (b';' ∷ line_text l t))

-- Every later redirection stands outside the earlier ones.
abbrev pub way_tree : Cmd → Way → List ℕ → Cmd
way_tree c input f = redircmd c f rdonly 0
way_tree c output f = redircmd c f wronly_create 1
way_tree c append f = redircmd c f wronly_create 1

unfoldable pub redirections_tree : Cmd → List Redirection → Cmd
redirections_tree c [] = c
redirections_tree c (r ∷ rs) = redirections_tree (way_tree c r.way r.file) rs

unfoldable pub arguments_tree : Cmd → List Argument → Cmd
arguments_tree c [] = c
arguments_tree c (a ∷ xs) = arguments_tree (redirections_tree (add_arg c a.word) a.redirections) xs

unfoldable pub behind : ℕ → Cmd → Cmd
behind zero c = c
behind (suc n) c = behind n (backcmd c)

unfoldable mutual
  pub simple_tree : Simple → Cmd
  simple_tree (words rs xs) = arguments_tree (redirections_tree (execcmd []) rs) xs
  simple_tree (block l rs) = redirections_tree (line_tree l) rs

  pub chain_tree : Chain → Cmd
  chain_tree (alone s) = simple_tree s
  chain_tree (into s c) = pipecmd (simple_tree s) (chain_tree c)

  pub line_tree : Line → Cmd
  line_tree (last c n) = behind n (chain_tree c)
  line_tree (next c n l) = listcmd (behind n (chain_tree c)) (line_tree l)

-- Words are not empty and have no white space and no symbol.
unfoldable pub all_plain : List ℕ → Bool
all_plain [] = true
all_plain (c ∷ cs) = is_plain c && all_plain cs

abbrev pub is_word : List ℕ → Bool
is_word [] = false
is_word (c ∷ cs) = is_plain c && all_plain cs

unfoldable pub good_redirections : List Redirection → Bool
good_redirections [] = true
good_redirections (r ∷ rs) = is_word r.file && good_redirections rs

unfoldable pub good_arguments : List Argument → Bool
good_arguments [] = true
good_arguments (a ∷ xs) = is_word a.word && (good_redirections a.redirections && good_arguments xs)

-- A simple command has fewer than `MAXARGS` words.
unfoldable mutual
  pub good_simple : Simple → Bool
  good_simple (words rs xs) = good_redirections rs && (good_arguments xs && ltb (length xs) maxargs)
  good_simple (block l rs) = good_line l && good_redirections rs

  pub good_chain : Chain → Bool
  good_chain (alone s) = good_simple s
  good_chain (into s c) = good_simple s && good_chain c

  pub good_line : Line → Bool
  good_line (last c n) = good_chain c
  good_line (next c n l) = good_chain c && good_line l
