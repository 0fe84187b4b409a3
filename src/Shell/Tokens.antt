-- ===== src/Shell/Tokens.antt =====
-- What gettoken and peek of sh.c give at a text that begins with a known token.
use mutex.Common.{
  ℕ, Bool, true, false, not, ◌&&◌, List, [], ◌∷◌, ◌++◌, ◌==◌, ◌≡◌, inl, inr, refl, ap, ◌∙◌, arith,
  Bool-cases,
}
use mutex.Shell.Lexer.{
  strchr, whitespace, symbols, singles, is_plain, skip_space, plain_part, after_plain, token,
  token_at, gettoken, starts, peek, sees, misses,
}
use mutex.Shell.Grammar.{all_plain, is_word, word_text, Way, input, output, append, sign}

-- A text that does not begin with white space.
unfoldable pub IsSolid : List ℕ → Type 0
IsSolid s = skip_space s ≡ s

pub skip_space-IsSolid : (s : List ℕ) → IsSolid (skip_space s)
unfolding IsSolid skip_space
skip_space-IsSolid [] = refl
skip_space-IsSolid (c ∷ cs) = elim (Bool-cases (strchr whitespace c)) [
  | inl y ↦ rw y (skip_space-IsSolid cs)
  | inr n ↦ rw (n, n) refl
]

pub and-left : (a b : Bool) → (a && b) ≡ true → a ≡ true
and-left true b h = refl
and-left false b h = h

pub and-right : (a b : Bool) → (a && b) ≡ true → b ≡ true
and-right true b h = h
and-right false b h = absurd (ground arith)

not-true : (a : Bool) → not a ≡ true → a ≡ false
not-true true h = ground arith
not-true false h = refl

-- Every character of a word is no white space and no symbol.
plain-not_space : (c : ℕ) → is_plain c ≡ true → strchr whitespace c ≡ false
plain-not_space c h =
    not-true (strchr whitespace c) (and-left (not (strchr whitespace c)) (not (strchr symbols c)) h)

pub plain-not_symbol : (c : ℕ) → is_plain c ≡ true → strchr symbols c ≡ false
plain-not_symbol c h =
    not-true (strchr symbols c) (and-right (not (strchr whitespace c)) (not (strchr symbols c)) h)

not_symbol-not_single : (c : ℕ) → strchr symbols c ≡ false → strchr singles c ≡ false
unfolding strchr
not_symbol-not_single c h = ground arith

not_symbol-not_greater : (c : ℕ) → strchr symbols c ≡ false → (c == b'>') ≡ false
unfolding strchr
not_symbol-not_greater c h = ground arith

pub not_space-IsSolid : (c : ℕ) (cs : List ℕ) → strchr whitespace c ≡ false → IsSolid (c ∷ cs)
unfolding IsSolid skip_space
not_space-IsSolid c cs n = rw n refl

space_stops : is_plain b' ' ≡ false
unfolding strchr
space_stops = refl

plain_part-word : (w t : List ℕ) → all_plain w ≡ true → plain_part (w ++ b' ' ∷ t) ≡ w
unfolding plain_part all_plain
plain_part-word [] t h = rw space_stops refl
plain_part-word (c ∷ cs) t h =
    rw (and-left (is_plain c) (all_plain cs) h)
      (ap (λ x. c ∷ x) (plain_part-word cs t (and-right (is_plain c) (all_plain cs) h)))

after_plain-word : (w t : List ℕ) → all_plain w ≡ true → after_plain (w ++ b' ' ∷ t) ≡ b' ' ∷ t
unfolding after_plain all_plain
after_plain-word [] t h = rw space_stops refl
after_plain-word (c ∷ cs) t h =
    rw (and-left (is_plain c) (all_plain cs) h)
      (after_plain-word cs t (and-right (is_plain c) (all_plain cs) h))

pub word_text-IsSolid : (w t : List ℕ) → is_word w ≡ true → IsSolid (word_text w t)
unfolding word_text
word_text-IsSolid [] t h = absurd (ground arith)
word_text-IsSolid (c ∷ cs) t h =
    not_space-IsSolid c (cs ++ b' ' ∷ t)
      (plain-not_space c (and-left (is_plain c) (all_plain cs) h))

word-all_plain : (w : List ℕ) → is_word w ≡ true → all_plain w ≡ true
unfolding all_plain
word-all_plain [] h = refl
word-all_plain (c ∷ cs) h = h

skip_space-space : (t : List ℕ) → skip_space (b' ' ∷ t) ≡ skip_space t
unfolding skip_space strchr
skip_space-space t = refl

gettoken-solid : (s : List ℕ) → IsSolid s → gettoken s ≡ token_at s
unfolding gettoken IsSolid
gettoken-solid s h = ap token_at h

token_at-word :
    (c : ℕ) (cs : List ℕ)
    → strchr symbols c ≡ false
    → token_at (c ∷ cs) ≡ token b'a' (plain_part (c ∷ cs)) (after_plain (c ∷ cs))
unfolding token_at
token_at-word c cs h = rw (not_symbol-not_single c h, not_symbol-not_greater c h) refl

token-space :
    (w t : List ℕ) → IsSolid t → token b'a' w (b' ' ∷ t) ≡ record { ret = b'a'; word = w; rest = t }
unfolding IsSolid skip_space strchr
token-space w t h = rw h refl

token_at-word_text :
    (c : ℕ) (cs t : List ℕ)
    → strchr symbols c ≡ false
    → all_plain (c ∷ cs) ≡ true
    → token_at (word_text (c ∷ cs) t) ≡ token b'a' (c ∷ cs) (b' ' ∷ t)
unfolding word_text
token_at-word_text c cs t symbol all =
    token_at-word c (cs ++ b' ' ∷ t) symbol
    ∙ rw (plain_part-word (c ∷ cs) t all, after_plain-word (c ∷ cs) t all) refl

-- A word with its space and a rest that is no white space is one token.
pub gettoken-word_text :
    (w t : List ℕ)
    → is_word w ≡ true
    → IsSolid t
    → gettoken (word_text w t) ≡ record { ret = b'a'; word = w; rest = t }
gettoken-word_text [] t h solid = absurd (ground arith)
gettoken-word_text (c ∷ cs) t h solid =
    let w = c ∷ cs in
    let symbol = plain-not_symbol c (and-left (is_plain c) (all_plain cs) h) in
    let all = word-all_plain w h in
    gettoken-solid (word_text w t) (word_text-IsSolid w t h)
    ∙ token_at-word_text c cs t symbol all
    ∙ token-space w t solid

token_at-single :
    (c : ℕ) (t : List ℕ)
    → strchr singles c ≡ true
    → IsSolid t
    → token_at (c ∷ t) ≡ record { ret = c; word = c ∷ []; rest = t }
unfolding token_at IsSolid
token_at-single c t h solid = rw (h, solid) refl

-- A symbol of one character.
pub gettoken-single :
    (c : ℕ) (t : List ℕ)
    → strchr whitespace c ≡ false
    → strchr singles c ≡ true
    → IsSolid t
    → gettoken (c ∷ t) ≡ record { ret = c; word = c ∷ []; rest = t }
gettoken-single c t n h solid =
    gettoken-solid (c ∷ t) (not_space-IsSolid c t n) ∙ token_at-single c t h solid

pub peek-sees : (s toks : List ℕ) → IsSolid s → starts toks s ≡ true → peek s toks ≡ sees s
unfolding peek IsSolid
peek-sees s toks h e = rw (h, e) refl

pub peek-misses : (s toks : List ℕ) → IsSolid s → starts toks s ≡ false → peek s toks ≡ misses s
unfolding peek IsSolid
peek-misses s toks h e = rw (h, e) refl

-- The text is empty or begins with one of `toks`.
abbrev pub ends : List ℕ → List ℕ → Bool
ends toks [] = true
ends toks (c ∷ cs) = strchr toks c

abbrev pub stops : List ℕ
stops = b'|' ∷ b')' ∷ b'&' ∷ b';' ∷ []

abbrev pub chain_stops : List ℕ
chain_stops = b')' ∷ b'&' ∷ b';' ∷ []

abbrev pub line_stops : List ℕ
line_stops = b')' ∷ []

stop-not_space : (c : ℕ) → strchr stops c ≡ true → strchr whitespace c ≡ false
unfolding strchr
stop-not_space c h = ground arith

pub ends-IsSolid : (t : List ℕ) → ends stops t ≡ true → IsSolid t
unfolding IsSolid skip_space
ends-IsSolid [] h = refl
ends-IsSolid (c ∷ cs) h = not_space-IsSolid c cs (stop-not_space c h)

pub chain-ends : (t : List ℕ) → ends chain_stops t ≡ true → ends stops t ≡ true
unfolding strchr
chain-ends [] h = refl
chain-ends (c ∷ cs) h = ground arith

pub line-ends : (t : List ℕ) → ends line_stops t ≡ true → ends chain_stops t ≡ true
unfolding strchr
line-ends [] h = refl
line-ends (c ∷ cs) h = ground arith

pub ends-no_redirection : (t : List ℕ) → ends stops t ≡ true → starts (b'<' ∷ b'>' ∷ []) t ≡ false
unfolding strchr starts
ends-no_redirection [] h = refl
ends-no_redirection (c ∷ cs) h = ground arith

pub chain-no_pipe : (t : List ℕ) → ends chain_stops t ≡ true → starts (b'|' ∷ []) t ≡ false
unfolding strchr starts
chain-no_pipe [] h = refl
chain-no_pipe (c ∷ cs) h = ground arith

-- The token of a redirection.
abbrev pub way_code : Way → ℕ
way_code input = b'<'
way_code output = b'>'
way_code append = b'+'

pub sign-IsSolid : (y : Way) (t : List ℕ) → IsSolid (sign y t)
unfolding IsSolid skip_space strchr
sign-IsSolid input t = refl
sign-IsSolid output t = refl
sign-IsSolid append t = refl

sign_at :
    (y : Way) (c : ℕ) (cs : List ℕ)
    → strchr symbols c ≡ false
    → IsSolid (c ∷ cs)
    → (token_at (sign y (c ∷ cs))).ret ≡ way_code y × (token_at (sign y (c ∷ cs))).rest ≡ c ∷ cs
unfolding token_at strchr IsSolid
sign_at input c cs h solid = (refl, solid)
sign_at output c cs h solid = rw (not_symbol-not_greater c h) (refl, solid)
sign_at append c cs h solid = (refl, solid)

pub gettoken-sign :
    (y : Way) (w t : List ℕ)
    → is_word w ≡ true
    → (gettoken (sign y (word_text w t))).ret ≡ way_code y
      × (gettoken (sign y (word_text w t))).rest ≡ word_text w t
unfolding word_text
gettoken-sign y [] t h = absurd (ground arith)
gettoken-sign y (c ∷ cs) t h =
    let first = and-left (is_plain c) (all_plain cs) h in
    rw (gettoken-solid (sign y (c ∷ (cs ++ b' ' ∷ t))) (sign-IsSolid y (c ∷ (cs ++ b' ' ∷ t)))) (
      sign_at y c (cs ++ b' ' ∷ t) (plain-not_symbol c first)
        (not_space-IsSolid c (cs ++ b' ' ∷ t) (plain-not_space c first)))

pub sign-starts : (y : Way) (t : List ℕ) → starts (b'<' ∷ b'>' ∷ []) (sign y t) ≡ true
unfolding starts strchr
sign-starts input t = refl
sign-starts output t = refl
sign-starts append t = refl
