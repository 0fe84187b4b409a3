-- ===== src/Grep.antt =====
-- The regular-expression matcher of grep.c. A string is the list of its characters before the NUL;
-- a read of the NUL is the empty list.
pub mod Meaning
use mutex.Common.{
  ℕ, zero, suc, Bool, true, false, not, ◌&&◌, ◌||◌, List, [], ◌∷◌, ◌==◌, if◌then◌else◌,
}

-- '*', '$', '.' and '^'.
abbrev pub star_char : ℕ
star_char = 42

abbrev pub dollar : ℕ
dollar = 36

abbrev pub dot : ℕ
dot = 46

abbrev pub caret : ℕ
caret = 94

-- `matchstar(c, re, text)`, with `matchhere re` for its calls of `matchhere`.
unfoldable pub matchstar : (List ℕ → Bool) → ℕ → List ℕ → Bool
matchstar here c [] = here []
matchstar here c (x ∷ text) =
    let rest = matchstar here c text in here (x ∷ text) || (x == c || c == dot) && rest

unfoldable pub matchhere : List ℕ → List ℕ → Bool
unfolding matchstar
matchhere [] text = true
matchhere (c ∷ []) [] = c == dollar
matchhere (c ∷ []) (x ∷ text) = if c == dollar then false else c == dot || c == x
matchhere (c ∷ d ∷ re) [] = if d == star_char then matchstar (matchhere re) c [] else false
matchhere (c ∷ d ∷ re) (x ∷ text) =
    let rest = matchhere (d ∷ re) text in
    if d == star_char then matchstar (matchhere re) c (x ∷ text) else (c == dot || c == x) && rest

-- The loop of `match` over the ends of the text, the empty one included.
unfoldable pub match_anywhere : List ℕ → List ℕ → Bool
unfolding matchhere
match_anywhere re [] = matchhere re []
match_anywhere re (x ∷ text) = let rest = match_anywhere re text in matchhere re (x ∷ text) || rest

unfoldable pub match_re : List ℕ → List ℕ → Bool
unfolding match_anywhere
match_re [] text = match_anywhere [] text
match_re (c ∷ re) text = if c == caret then matchhere re text else match_anywhere (c ∷ re) text
