-- ===== src/Fs/Bytes.antt =====
-- The bytes and bits of a block, whose 128 words are little-endian.
use mutex.Common.{
  ℕ, zero, suc, ◌+◌, ◌-◌, ◌*◌, ◌/◌, ◌%◌, ◌≤◌, ◌<◌, ◌≡◌, refl, Bool, true, false, ◌==◌,
  if◌then◌else◌, arith, update, ℕ_discrete, ◌∙◌,
}
use mutex.Log.{Block}

-- Byte `r` of a word, and the word with that byte replaced.
unfoldable pub byte_of : ℕ → ℕ → ℕ
byte_of w r =
    if r == 0
    then w % 256
    else if r == 1
    then w / 256 % 256
    else if r == 2
    then w / 65536 % 256
    else w / 16777216 % 256

unfoldable pub with_byte : ℕ → ℕ → ℕ → ℕ
with_byte w r v =
    if r == 0
    then w / 256 * 256 + v % 256
    else if r == 1
    then w / 65536 * 65536 + v % 256 * 256 + w % 256
    else if r == 2
    then w / 16777216 * 16777216 + v % 256 * 65536 + w % 65536
    else w / 4294967296 * 4294967296 + v % 256 * 16777216 + w % 16777216

unfoldable pub get_byte : Block → ℕ → ℕ
get_byte b i = byte_of (b (i / 4)) (i % 4)

unfoldable pub set_byte : Block → ℕ → ℕ → Block
set_byte b i v = update b (i / 4) (with_byte (b (i / 4)) (i % 4) v)

byte_of-with_byte :
    (w r v s : ℕ)
    → r < 4
    → s < 4
    → byte_of (with_byte w r v) s ≡ (if r == s then v % 256 else byte_of w s)
unfolding byte_of with_byte
byte_of-with_byte w r v s a b = ground arith

pub get_byte-set_byte :
    (b : Block) (i v j : ℕ)
    → get_byte (set_byte b i v) j ≡ (if i == j then v % 256 else get_byte b j)
unfolding get_byte set_byte
get_byte-set_byte b i v j = elim (ℕ_discrete (i / 4) (j / 4)) [
  | yes same ↦ same_word same
  | no other ↦ ground arith
]
  where
    same_word :
        i / 4 ≡ j / 4
        → byte_of (update b (i / 4) (with_byte (b (i / 4)) (i % 4) v) (j / 4)) (j % 4)
          ≡ (if i == j then v % 256 else byte_of (b (j / 4)) (j % 4))
    same_word e =
        let at : (i == j) ≡ (i % 4 == j % 4) = ground arith in
        rw (← e) (rw at (ground (arith, byte_of-with_byte (b (i / 4)) (i % 4) v (j % 4))))

pub get_byte-lt : (b : Block) (i : ℕ) → get_byte b i < 256
unfolding get_byte byte_of
get_byte-lt b i = ground arith

-- `1 << k`
unfoldable pub mask : ℕ → ℕ
mask zero = 1
mask (suc k) = 2 * mask k

-- `(v >> k) & 1`
unfoldable pub bit_of : ℕ → ℕ → ℕ
bit_of v zero = v % 2
bit_of v (suc k) = bit_of (v / 2) k

pub bit_of-lt : (v k : ℕ) → bit_of v k < 2
unfolding bit_of
bit_of-lt v zero = omega arith
bit_of-lt v (suc k) = bit_of-lt (v / 2) k

pub mask-le : (v k : ℕ) → bit_of v k ≡ 1 → mask k ≤ v
unfolding bit_of mask
mask-le v zero e = omega arith
mask-le v (suc k) e = omega (arith, mask-le (v / 2) k e)

-- `v | m` where the bit is clear, and `v & ~m` where it is set.
pub bit_of-add_mask :
    (v k j : ℕ) → bit_of v k ≡ 0 → bit_of (v + mask k) j ≡ (if k == j then 1 else bit_of v j)
unfolding bit_of mask
bit_of-add_mask v zero zero e = omega arith
bit_of-add_mask v zero (suc j) e =
    let same : (v + 1) / 2 ≡ v / 2 = omega arith in rw same (ground arith)
bit_of-add_mask v (suc k) zero e = ground arith
bit_of-add_mask v (suc k) (suc j) e =
    let half : (v + 2 * mask k) / 2 ≡ v / 2 + mask k = omega arith in
    rw half (ground (arith, bit_of-add_mask (v / 2) k j e))

pub bit_of-sub_mask :
    (v k j : ℕ) → bit_of v k ≡ 1 → bit_of (v - mask k) j ≡ (if k == j then 0 else bit_of v j)
unfolding bit_of mask
bit_of-sub_mask v zero zero e = omega arith
bit_of-sub_mask v zero (suc j) e =
    let same : (v - 1) / 2 ≡ v / 2 = omega arith in rw same (ground arith)
bit_of-sub_mask v (suc k) zero e = ground (arith, mask-le (v / 2) k e)
bit_of-sub_mask v (suc k) (suc j) e =
    let half : (v - 2 * mask k) / 2 ≡ v / 2 - mask k = omega arith in
    rw half (ground (arith, bit_of-sub_mask (v / 2) k j e))

-- A bit more leaves a number of `n` bits one of `n` bits.
pub add_mask-lt : (v k n : ℕ) → bit_of v k ≡ 0 → k < n → v < mask n → v + mask k < mask n
unfolding bit_of mask
add_mask-lt v k zero e lt h = absurd (omega arith)
add_mask-lt v zero (suc n) e lt h = omega arith
add_mask-lt v (suc k) (suc n) e lt h =
    omega (arith, add_mask-lt (v / 2) k n e (omega arith) (omega arith))

-- Bit `i` of a block, as bitmaps use it, and the block with that bit set or cleared.
unfoldable pub test_bit : Block → ℕ → Bool
test_bit b i = bit_of (get_byte b (i / 8)) (i % 8) == 1

unfoldable pub set_bit : Block → ℕ → Block
set_bit b i = set_byte b (i / 8) (get_byte b (i / 8) + mask (i % 8))

unfoldable pub clear_bit : Block → ℕ → Block
clear_bit b i = set_byte b (i / 8) (get_byte b (i / 8) - mask (i % 8))

mask_8 : mask 8 ≡ 256
unfolding mask
mask_8 = refl

test_bit-set_byte :
    (b : Block) (i v j : ℕ)
    → v < 256
    → test_bit (set_byte b i v) j ≡ (if i == j / 8 then bit_of v (j % 8) == 1 else test_bit b j)
unfolding test_bit
test_bit-set_byte b i v j lt =
    let whole : v % 256 ≡ v = omega arith in
    rw (get_byte-set_byte b i v (j / 8), whole) (ground arith)

module _ (b : Block) (i j : ℕ) where
  abbrev old_byte : ℕ
  old_byte = get_byte b (i / 8)

  pub test_bit-set_bit :
      test_bit b i ≡ false → test_bit (set_bit b i) j ≡ (if i == j then true else test_bit b j)
  unfolding test_bit set_bit
  test_bit-set_bit clear =
      let zero_bit : bit_of old_byte (i % 8) ≡ 0 = ground (arith, bit_of-lt old_byte (i % 8)) in
      let fits : old_byte + mask (i % 8) < 256 =
        omega (arith, add_mask-lt old_byte (i % 8) 8 zero_bit, get_byte-lt b (i / 8), mask_8) in
      test_bit-set_byte b (i / 8) (old_byte + mask (i % 8)) j fits
      ∙ rw (bit_of-add_mask old_byte (i % 8) (j % 8) zero_bit) (ground arith)

  pub test_bit-clear_bit :
      test_bit b i ≡ true → test_bit (clear_bit b i) j ≡ (if i == j then false else test_bit b j)
  unfolding test_bit clear_bit
  test_bit-clear_bit on =
      let one : bit_of old_byte (i % 8) ≡ 1 = ground arith in
      let fits : old_byte - mask (i % 8) < 256 = omega (arith, get_byte-lt b (i / 8)) in
      test_bit-set_byte b (i / 8) (old_byte - mask (i % 8)) j fits
      ∙ rw (bit_of-sub_mask old_byte (i % 8) (j % 8) one) (ground arith)
