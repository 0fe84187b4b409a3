-- ===== src/Shell/Shorter.antt =====
-- The tokens of sh.c shorten the text.
use mutex.Common.{
  ℕ, suc, ◌≤◌, ◌<◌, true, false, List, [], ◌∷◌, ◌==◌, ◌≡◌, ◌⊎◌, inl, inr, refl, length, arith,
  Bool-cases,
}
use mutex.Shell.Lexer.{
  strchr, whitespace, singles, is_plain, skip_space, after_plain, token_at, gettoken, starts, peek,
  sees, misses, greater,
}
use mutex.Shell.Tokens.{IsSolid, skip_space-IsSolid}

length-skip_space : (s : List ℕ) → length (skip_space s) ≤ length s
unfolding skip_space
length-skip_space [] = omega arith
length-skip_space (c ∷ cs) = elim (Bool-cases (strchr whitespace c)) [
  | inl y ↦ rw y (omega (arith, length-skip_space cs))
  | inr n ↦ rw n (omega arith)
]

length-after_plain : (s : List ℕ) → length (after_plain s) ≤ length s
unfolding after_plain
length-after_plain [] = omega arith
length-after_plain (c ∷ cs) = elim (Bool-cases (is_plain c)) [
  | inl y ↦ rw y (omega (arith, length-after_plain cs))
  | inr n ↦ rw n (omega arith)
]

-- A text that begins with no white space begins with another character.
solid-not_space : (c : ℕ) (cs : List ℕ) → IsSolid (c ∷ cs) → strchr whitespace c ≡ false
unfolding IsSolid skip_space
solid-not_space c cs h = elim (Bool-cases (strchr whitespace c)) [
  | inl y ↦
      let same : skip_space cs ≡ c ∷ cs = ground arith in
      let long : length (skip_space cs) ≡ suc (length cs) = rw same refl in
      absurd (omega (arith, length-skip_space cs))
  | inr n ↦ n
]

plain_of :
    (c : ℕ)
    → strchr whitespace c ≡ false
    → strchr singles c ≡ false
    → (c == b'>') ≡ false
    → is_plain c ≡ true
unfolding strchr
plain_of c space single greater = ground arith

length-greater : (cs : List ℕ) → length (greater cs).rest ≤ length cs
unfolding skip_space
length-greater [] = omega arith
length-greater (c ∷ cs) = elim (Bool-cases (c == b'>')) [
  | inl y ↦ rw y (omega (arith, length-skip_space cs))
  | inr n ↦ rw n (length-skip_space (c ∷ cs))
]

length-token_at :
    (c : ℕ) (cs : List ℕ)
    → strchr whitespace c ≡ false
    → length (token_at (c ∷ cs)).rest ≤ length cs
unfolding token_at after_plain
length-token_at c cs space = elim (Bool-cases (strchr singles c)) [
  | inl y ↦ rw y (length-skip_space cs)
  | inr n ↦ elim (Bool-cases (c == b'>')) [
    | inl g ↦ rw (n, g) (length-greater cs)
    | inr l ↦
        rw (n, l, plain_of c space n l)
          (omega (arith, length-skip_space (after_plain cs), length-after_plain cs))
  ]
]

length-gettoken_lt : (s : List ℕ) → 0 < length s → IsSolid s → length (gettoken s).rest < length s
unfolding gettoken IsSolid
length-gettoken_lt [] pos solid = absurd (omega arith)
length-gettoken_lt (c ∷ cs) pos solid =
    rw solid (omega (arith, length-token_at c cs (solid-not_space c cs solid)))

token_at_empty : (n : ℕ) → length (token_at []).rest ≤ n
unfolding token_at skip_space
token_at_empty n = omega arith

pub length-gettoken : (s : List ℕ) → length (gettoken s).rest ≤ length s
unfolding gettoken
length-gettoken s = go (skip_space s) (skip_space-IsSolid s) (length-skip_space s)
  where
    go : (u : List ℕ) → IsSolid u → length u ≤ length s → length (token_at u).rest ≤ length s
    go [] solid h = token_at_empty (length s)
    go (c ∷ cs) solid h = omega (arith, length-token_at c cs (solid-not_space c cs solid))

starts-long : (s toks : List ℕ) → starts toks s ≡ true → 0 < length s
unfolding starts
starts-long [] toks h = absurd (ground arith)
starts-long (c ∷ cs) toks h = omega arith

-- What `peek` leaves is no longer, and `gettoken` shortens it when `peek` finds something.
pub peek-cases :
    (s toks : List ℕ)
    → ((u : List ℕ) × (peek s toks ≡ sees u)
        × (length u ≤ length s)
        × (length (gettoken u).rest < length u))
      ⊎ ((u : List ℕ) × (peek s toks ≡ misses u) × (length u ≤ length s))
unfolding peek
peek-cases s toks = elim (Bool-cases (starts toks (skip_space s))) [
  | inl y ↦ inl (
    skip_space s,
    rw y refl,
    length-skip_space s,
    length-gettoken_lt (skip_space s) (starts-long (skip_space s) toks y) (skip_space-IsSolid s),
  )
  | inr n ↦ inr (skip_space s, rw n refl, length-skip_space s)
]

empty_token : (token_at []).ret ≡ 0
unfolding token_at
empty_token = refl

-- A token that is not the end of the text shortens it.
pub gettoken-cases : (s : List ℕ) → ((gettoken s).ret ≡ 0) ⊎ (length (gettoken s).rest < length s)
unfolding gettoken
gettoken-cases s = go (skip_space s) (skip_space-IsSolid s) (length-skip_space s)
  where
    go :
        (u : List ℕ)
        → IsSolid u
        → length u ≤ length s
        → ((token_at u).ret ≡ 0) ⊎ (length (token_at u).rest < length s)
    go [] solid h = inl empty_token
    go (c ∷ cs) solid h = inr (omega (arith, length-token_at c cs (solid-not_space c cs solid)))
