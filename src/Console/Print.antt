-- ===== src/Console/Print.antt =====
-- printint and cprintf of console.c: the characters that they hand to consputc.
use mutex.Common.{
  ℕ, zero, suc, ◌+◌, ◌-◌, ◌/◌, ◌%◌, ◌&&◌, not, Bool, true, false, List, [], ◌∷◌, ◌++◌, reverse, ltb,
  leb, ◌==◌, if◌then◌else◌,
}

-- `digits[d]`
unfoldable pub digit : ℕ → ℕ
digit d = if ltb d 10 then b'0' + d else b'a' + (d - 10)

-- The loop that fills `buf`, the last digit first. A `uint` has at most 32 digits.
unfoldable pub digits_of : ℕ → ℕ → ℕ → List ℕ
unfolding digit
digits_of zero base x = []
digits_of (suc n) base x =
    digit (x % base) ∷ elim (x / base == 0) [ true ↦ [] | false ↦ digits_of n base (x / base) ]

abbrev pub is_minus : ℕ → ℕ → Bool
is_minus xx sign = not (sign == 0) && leb 0x8000_0000 xx

abbrev pub magnitude : ℕ → ℕ → ℕ
magnitude xx sign = if is_minus xx sign then (0x1_0000_0000 - xx) % 0x1_0000_0000 else xx

-- What is in `buf` when it is printed.
unfoldable pub print_buf : ℕ → ℕ → ℕ → List ℕ
unfolding digits_of
print_buf xx base sign =
    digits_of 32 base (magnitude xx sign) ++ (if is_minus xx sign then b'-' ∷ [] else [])

unfoldable pub printint : ℕ → ℕ → ℕ → List ℕ
unfolding print_buf
printint xx base sign = reverse (print_buf xx base sign)

-- `"(null)"`
abbrev null_text : List ℕ
null_text = b'(' ∷ b'n' ∷ b'u' ∷ b'l' ∷ b'l' ∷ b')' ∷ []

-- `cprintf` of a format that is not null: `args` are the words after it, `i` the first one that is
-- left, and `string` what stands at an address.
unfoldable pub cprintf : (string : ℕ → List ℕ) → (args : ℕ → ℕ) → ℕ → List ℕ → List ℕ
unfolding printint
cprintf string args i [] = []
cprintf string args i (c ∷ []) = if c == b'%' then [] else c ∷ []
cprintf string args i (c ∷ d ∷ fmt) =
    let plain = cprintf string args i (d ∷ fmt) in
    let same = cprintf string args i fmt in
    let next = cprintf string args (i + 1) fmt in
    if not (c == b'%')
    then c ∷ plain
    else if d == b'd'
    then printint (args i) 10 1 ++ next
    else if not (not (d == b'x') && not (d == b'p'))
    then printint (args i) 16 0 ++ next
    else if d == b's'
    then (if args i == 0 then null_text else string (args i)) ++ next
    else if d == b'%'
    then b'%' ∷ same
    else b'%' ∷ d ∷ same
