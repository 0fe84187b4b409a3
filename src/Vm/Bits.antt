-- ===== src/Vm/Bits.antt =====
-- The operator `|` on 32-bit words.
use mutex.Common.{
  ℕ, zero, suc, ◌+◌, ◌*◌, ◌/◌, ◌%◌, ◌<◌, ◌≡◌, refl, sym, ◌∙◌, ap, ◌||◌, ◌==◌, if◌then◌else◌, arith,
}
use mutex.Fs.Bytes.{mask}

unfoldable pub or_bits : ℕ → ℕ → ℕ → ℕ
or_bits zero a b = 0
or_bits (suc n) a b = (if a % 2 == 1 || b % 2 == 1 then 1 else 0) + 2 * or_bits n (a / 2) (b / 2)

unfoldable pub or_word : ℕ → ℕ → ℕ
unfolding or_bits
or_word a b = or_bits 32 a b

-- `c << k`
unfoldable pub shifted : ℕ → ℕ → ℕ
shifted zero c = c
shifted (suc k) c = 2 * shifted k c

or_bits-zero : (n a : ℕ) → a < mask n → or_bits n a 0 ≡ a
unfolding or_bits mask
or_bits-zero zero a lt = omega arith
or_bits-zero (suc n) a lt = ground (arith, or_bits-zero n (a / 2) (omega arith))

-- A word whose low `k` bits are clear, with `k` bits.
pub or_bits-shifted :
    (n k c b : ℕ)
    → shifted k c < mask n
    → b < mask k
    → b < mask n
    → or_bits n (shifted k c) b ≡ shifted k c + b
unfolding or_bits mask shifted
or_bits-shifted zero k c b lt small small' = omega arith
or_bits-shifted (suc n) zero c b lt small small' =
    let none : b ≡ 0 = omega arith in
    let sum : c + 0 ≡ c = omega arith in rw (none, sum) (or_bits-zero (suc n) c lt)
or_bits-shifted (suc n) (suc k) c b lt small small' =
    let half : 2 * shifted k c / 2 ≡ shifted k c = omega arith in
    rw half
      (ground (arith, or_bits-shifted n k c (b / 2) (omega arith) (omega arith) (omega arith)))

masks : (mask 32 ≡ 0x1_0000_0000) × (mask 12 ≡ 4096)
unfolding mask
masks = (refl, refl)

shifted_12 : (c : ℕ) → shifted 12 c ≡ 4096 * c
unfolding shifted
shifted_12 c = omega arith

-- A page address with flags.
pub or_word-page : (a b : ℕ) → a % 4096 ≡ 0 → a < 0x1_0000_0000 → b < 4096 → or_word a b ≡ a + b
unfolding or_word
or_word-page a b whole lt small =
    let page : shifted 12 (a / 4096) ≡ a = shifted_12 (a / 4096) ∙ omega arith in
    let (all, low) = masks in
    ap (λ w. or_bits 32 w b) (sym page)
    ∙ or_bits-shifted 32 12 (a / 4096) b (rw (page, all) lt) (rw low small) (rw all (omega arith))
    ∙ ap (λ w. w + b) page

mask_31 : mask 31 ≡ 0x8000_0000
unfolding mask
mask_31 = refl

pub or_word-one : (a : ℕ) → a < 0x1_0000_0000 → or_word a 1 ≡ a / 2 * 2 + 1
unfolding or_word or_bits
or_word-one a lt =
    let half : or_bits 31 (a / 2) 0 ≡ a / 2 = or_bits-zero 31 (a / 2) (rw mask_31 (omega arith)) in
    ap (λ h. (if a % 2 == 1 || 1 % 2 == 1 then 1 else 0) + 2 * h) half ∙ ground arith
