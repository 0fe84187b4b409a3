-- ===== src/Shell/Lexer.antt =====
-- gettoken and peek of sh.c, and strchr of ulib.c.
use mutex.Common.{ℕ, Bool, true, false, ◌&&◌, not, List, [], ◌∷◌, ◌==◌, if◌then◌else◌}

-- Whether `strchr` finds the character: its loop stops at the NUL, which it never finds.
unfoldable pub strchr : List ℕ → ℕ → Bool
strchr [] c = false
strchr (x ∷ xs) c = let rest = strchr xs c in if x == c then true else rest

-- `" \t\r\n\v"` and `"<|>&;()"`
abbrev pub whitespace : List ℕ
whitespace = b' ' ∷ b'\t' ∷ b'\r' ∷ b'\n' ∷ 11 ∷ []

abbrev pub symbols : List ℕ
symbols = b'<' ∷ b'|' ∷ b'>' ∷ b'&' ∷ b';' ∷ b'(' ∷ b')' ∷ []

-- The cases of the switch that pass one character.
abbrev pub singles : List ℕ
singles = b'|' ∷ b'(' ∷ b')' ∷ b';' ∷ b'&' ∷ b'<' ∷ []

-- `while(s < es && strchr(whitespace, *s)) s++;`
unfoldable pub skip_space : List ℕ → List ℕ
skip_space [] = []
skip_space (c ∷ cs) = let rest = skip_space cs in if strchr whitespace c then rest else c ∷ cs

abbrev pub is_plain : ℕ → Bool
is_plain c = not (strchr whitespace c) && not (strchr symbols c)

-- `while(s < es && !strchr(whitespace, *s) && !strchr(symbols, *s)) s++;`: what it passes, and
-- what it leaves.
unfoldable pub plain_part : List ℕ → List ℕ
plain_part [] = []
plain_part (c ∷ cs) = let rest = plain_part cs in if is_plain c then c ∷ rest else []

unfoldable pub after_plain : List ℕ → List ℕ
after_plain [] = []
after_plain (c ∷ cs) = let rest = after_plain cs in if is_plain c then rest else c ∷ cs

-- The value of `gettoken`, the characters from `*q` to `*eq`, and the new `*ps`.
pub record Token : Type 0 where
  pub ret : ℕ
  pub word : List ℕ
  pub rest : List ℕ

abbrev pub token : ℕ → List ℕ → List ℕ → Token
token ret word s = record { ret = ret; word = word; rest = skip_space s }

-- `case '>'`, with the text behind it.
abbrev pub greater : List ℕ → Token
greater [] = token b'>' (b'>' ∷ []) []
greater (c ∷ cs) =
    if c == b'>' then token b'+' (b'>' ∷ b'>' ∷ []) cs else token b'>' (b'>' ∷ []) (c ∷ cs)

-- The switch of `gettoken`, from the first character that is no white space.
unfoldable pub token_at : List ℕ → Token
token_at [] = token 0 [] []
token_at (c ∷ cs) =
    if strchr singles c
    then token c (c ∷ []) cs
    else if c == b'>'
    then greater cs
    else token b'a' (plain_part (c ∷ cs)) (after_plain (c ∷ cs))

unfoldable pub gettoken : List ℕ → Token
gettoken s = token_at (skip_space s)

unfoldable pub starts : List ℕ → List ℕ → Bool
starts toks [] = false
starts toks (c ∷ cs) = strchr toks c

-- Whether `peek` finds one of the characters, and the new `*ps`.
pub data Peek : Type 0 where
  sees misses : List ℕ → Peek

unfoldable pub peek : List ℕ → List ℕ → Peek
peek s toks = if starts toks (skip_space s) then sees (skip_space s) else misses (skip_space s)

abbrev pub rest_of : Peek → List ℕ
rest_of (sees s) = s
rest_of (misses s) = s
