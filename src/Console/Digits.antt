-- ===== src/Console/Digits.antt =====
-- The numbers that printint of console.c prints, read by atoi of ulib.c.
use mathlib.Core.List.{reverse-cons, reverse-append, append-nil}
use mutex.Common.{
  ℕ, zero, suc, ◌+◌, ◌-◌, ◌*◌, ◌/◌, ◌%◌, ◌≤◌, ◌<◌, ◌≡◌, refl, ap, ◌∙◌, inl, inr, Bool, true, false,
  ◌&&◌, List, [], ◌∷◌, ◌++◌, reverse, leb, ◌==◌, if◌then◌else◌, length, length-append, leb→le,
  arith, Bool-cases,
}
use mutex.Console.Print.{digit, digits_of, is_minus, magnitude, print_buf, printint}
use mutex.Ulib.{is_digit, atoi_from, atoi}

power_of_ten : ℕ → ℕ
power_of_ten zero = 1
power_of_ten (suc k) = 10 * power_of_ten k

-- The value of digits with the last one first.
value : List ℕ → ℕ
value [] = 0
value (c ∷ cs) = (c - b'0') + 10 * value cs

all_digits : List ℕ → Bool
all_digits [] = true
all_digits (c ∷ cs) = is_digit c && all_digits cs

digit-is_digit : (d : ℕ) → d < 10 → is_digit (digit d) ≡ true
unfolding digit
digit-is_digit d h = ground arith

digit_value : (d : ℕ) → d < 10 → digit d - b'0' ≡ d
unfolding digit
digit_value d h = ground arith

one_digit : (n x : ℕ) → x < 10 → digits_of (suc n) 10 x ≡ digit (x % 10) ∷ []
unfolding digits_of
one_digit n x h = let end : (x / 10 == 0) ≡ true = ground arith in rw end refl

more_digits :
    (n x : ℕ)
    → (x / 10 == 0) ≡ false
    → digits_of (suc n) 10 x ≡ digit (x % 10) ∷ digits_of n 10 (x / 10)
unfolding digits_of
more_digits n x h = rw h refl

no_digits : (x : ℕ) → digits_of 0 10 x ≡ []
unfolding digits_of
no_digits x = refl

length-digits_of : (k n x : ℕ) → x < power_of_ten (suc k) → length (digits_of n 10 x) ≤ suc k
unfolding power_of_ten
length-digits_of k zero x h = rw (no_digits x) (omega arith)
length-digits_of zero (suc n) x h = rw (one_digit n x (omega arith)) (omega arith)
length-digits_of (suc k) (suc n) x h = elim (Bool-cases (x / 10 == 0)) [
  | inl end ↦ rw (one_digit n x (ground arith)) (omega arith)
  | inr more ↦
      rw (more_digits n x more) (omega (arith, length-digits_of k n (x / 10) (omega arith)))
]

no_bad : all_digits [] ≡ true
unfolding all_digits
no_bad = refl

first_digit : (x : ℕ) (cs : List ℕ) → value (digit (x % 10) ∷ cs) ≡ x % 10 + 10 * value cs
unfolding value
first_digit x cs = ap (λ d. d + 10 * value cs) (digit_value (x % 10) (omega arith))

no_more : (x : ℕ) → x < 10 → x % 10 + 10 * value [] ≡ x
unfolding value
no_more x h = omega arith

first-is_digit :
    (x : ℕ) (cs : List ℕ) → all_digits cs ≡ true → all_digits (digit (x % 10) ∷ cs) ≡ true
unfolding all_digits
first-is_digit x cs h = rw (digit-is_digit (x % 10) (omega arith)) h

digits_of-value :
    (k n x : ℕ)
    → x < power_of_ten (suc k)
    → k < n
    → (value (digits_of n 10 x) ≡ x) × (all_digits (digits_of n 10 x) ≡ true)
unfolding power_of_ten
digits_of-value k zero x h le = absurd (omega arith)
digits_of-value zero (suc n) x h le =
    rw (one_digit n x (omega arith))
      (first_digit x [] ∙ no_more x (omega arith), first-is_digit x [] no_bad)
digits_of-value (suc k) (suc n) x h le = elim (Bool-cases (x / 10 == 0)) [
  | inl end ↦
      rw (one_digit n x (ground arith))
        (first_digit x [] ∙ no_more x (ground arith), first-is_digit x [] no_bad)
  | inr more ↦
      let (ih, digits) = digits_of-value k n (x / 10) (omega arith) (omega arith) in
      rw (more_digits n x more) (
        first_digit x (digits_of n 10 (x / 10)) ∙ omega (arith, ih),
        first-is_digit x (digits_of n 10 (x / 10)) digits,
      )
]

-- `atoi` reads the digits from the first one on.
atoi_from-snoc :
    (n c : ℕ) (cs : List ℕ)
    → all_digits cs ≡ true
    → is_digit c ≡ true
    → atoi_from n (cs ++ c ∷ []) ≡ (atoi_from n cs * 10 + c - b'0') % 0x1_0000_0000
unfolding atoi_from all_digits
atoi_from-snoc n c [] h d = rw d refl
atoi_from-snoc n c (x ∷ cs) h d = elim (Bool-cases (is_digit x)) [
  | inl y ↦ rw y (atoi_from-snoc ((n * 10 + x - b'0') % 0x1_0000_0000) c cs (ground arith) d)
  | inr z ↦ absurd (ground arith)
]

all_digits-snoc :
    (cs : List ℕ) (c : ℕ)
    → all_digits cs ≡ true
    → is_digit c ≡ true
    → all_digits (cs ++ c ∷ []) ≡ true
unfolding all_digits
all_digits-snoc [] c h d = rw d refl
all_digits-snoc (x ∷ cs) c h d = elim (Bool-cases (is_digit x)) [
  | inl y ↦ rw y (all_digits-snoc cs c (ground arith) d)
  | inr z ↦ absurd (ground arith)
]

all_digits-cons :
    (c : ℕ) (cs : List ℕ)
    → all_digits (c ∷ cs) ≡ true
    → (is_digit c ≡ true) × (all_digits cs ≡ true)
unfolding all_digits
all_digits-cons c cs h = (ground arith, ground arith)

all_digits-reverse : (cs : List ℕ) → all_digits cs ≡ true → all_digits (reverse cs) ≡ true
all_digits-reverse [] h = h
all_digits-reverse (c ∷ cs) h =
    let (d, ds) = all_digits-cons c cs h in
    rw (reverse-cons c cs) (all_digits-snoc (reverse cs) c (all_digits-reverse cs ds) d)

atoi_from_end : atoi_from 0 [] ≡ 0
unfolding atoi_from
atoi_from_end = refl

atoi_from-reverse :
    (cs : List ℕ) → all_digits cs ≡ true → atoi_from 0 (reverse cs) ≡ value cs % 0x1_0000_0000
unfolding value
atoi_from-reverse [] h = atoi_from_end
atoi_from-reverse (c ∷ cs) h =
    let (d, ds) = all_digits-cons c cs h in
    let ih = atoi_from-reverse cs ds in
    let low : 48 ≤ c = ground arith in
    rw (reverse-cons c cs)
      (atoi_from-snoc 0 c (reverse cs) (all_digits-reverse cs ds) d ∙ rw ih (omega (arith, low)))

ten_digits : (m : ℕ) → m < 0x1_0000_0000 → m < power_of_ten 10
unfolding power_of_ten
ten_digits m h = omega arith

-- The digits of a `uint`.
uint_digits :
    (m : ℕ)
    → m < 0x1_0000_0000
    → (ds : List ℕ) × (digits_of 32 10 m ≡ ds) × (length ds ≤ 10) × (atoi (reverse ds) ≡ m)
unfolding atoi
uint_digits m h =
    let small = ten_digits m h in
    let (sum, digits) = digits_of-value 9 32 m small (omega arith) in
    (
      digits_of 32 10 m,
      refl,
      length-digits_of 9 32 m small,
      atoi_from-reverse (digits_of 32 10 m) digits ∙ omega (arith, sum),
    )

print_buf_lem :
    (x : ℕ) (ds : List ℕ)
    → digits_of 32 10 (magnitude x 1) ≡ ds
    → print_buf x 10 1 ≡ ds ++ (if is_minus x 1 then b'-' ∷ [] else [])
unfolding print_buf
print_buf_lem x ds e = ap (λ q. q ++ (if is_minus x 1 then b'-' ∷ [] else [])) e

with_minus :
    (b : Bool) (ds : List ℕ) → b ≡ true → ds ++ (if b then b'-' ∷ [] else []) ≡ ds ++ b'-' ∷ []
with_minus b ds e = rw e refl

without_minus : (b : Bool) (ds : List ℕ) → b ≡ false → ds ++ (if b then b'-' ∷ [] else []) ≡ ds
without_minus b ds e = rw e (append-nil ds)

printint-buf : (x : ℕ) (ds : List ℕ) → print_buf x 10 1 ≡ ds → printint x 10 1 ≡ reverse ds
unfolding printint
printint-buf x ds e = ap (λ q. reverse q) e

-- `printint` of a signed number in base 10 fits into its buffer of 16 characters, and what it prints
-- for a number that is not negative, `atoi` reads as this number; for a negative one it prints a
-- minus and then what `atoi` reads as its magnitude.
pub printint_lem :
    (x : ℕ)
    → x < 0x1_0000_0000
    → (length (print_buf x 10 1) ≤ 16)
      × (text : List ℕ) × (printint x 10 1 ≡ (if leb 0x8000_0000 x then b'-' ∷ text else text))
      × (atoi text ≡ (if leb 0x8000_0000 x then 0x1_0000_0000 - x else x))
printint_lem x lt =
    let m = magnitude x 1 in
    elim (Bool-cases (leb 0x8000_0000 x)) [
      | inl negative ↦
          let size : magnitude x 1 ≡ 0x1_0000_0000 - x =
            rw negative (omega (arith, leb→le 0x8000_0000 x negative)) in
          let (ds, e, short, read) =
            uint_digits (magnitude x 1) (omega (arith, size, leb→le 0x8000_0000 x negative)) in
          let all : print_buf x 10 1 ≡ ds ++ b'-' ∷ [] =
            print_buf_lem x ds e ∙ with_minus (is_minus x 1) ds negative in
          (
            omega (arith, length-append ds (b'-' ∷ []), short, ap (λ q. length q) all),
            reverse ds,
            rw negative (printint-buf x (ds ++ b'-' ∷ []) all ∙ reverse-append ds (b'-' ∷ [])),
            rw negative (read ∙ size),
          )
      | inr natural ↦
          let size : magnitude x 1 ≡ x = rw natural refl in
          let (ds, e, short, read) = uint_digits (magnitude x 1) (omega (arith, size)) in
          let all : print_buf x 10 1 ≡ ds =
            print_buf_lem x ds e ∙ without_minus (is_minus x 1) ds natural in
          (
            omega (arith, short, ap (λ q. length q) all),
            reverse ds,
            rw natural (printint-buf x ds all),
            rw natural (read ∙ size),
          )
    ]
