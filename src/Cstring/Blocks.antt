-- ===== src/Cstring/Blocks.antt =====
-- memset, memmove and memcmp against what they promise.
use mutex.Common.{
  ℕ, zero, suc, ◌+◌, ◌-◌, ◌*◌, ◌/◌, ◌%◌, ◌≤◌, ◌<◌, ◌≡◌, ◌↔◌, ◌⊎◌, refl, ◌∙◌, ap, inl, inr, Bool,
  ◌&&◌, ltb, leb, ◌==◌, if◌then◌else◌, arith, update, Bool-cases, dec_lt, ℕ_discrete, sym,
}
use mutex.Cstring.{Memory, stosb, stosl, store_word, memset, copy_down, copy_up, memmove, memcmp}

abbrev pub inside : ℕ → ℕ → ℕ → Bool
inside a start n = leb start a && ltb a (start + n)

stosb_lem :
    (n : ℕ) (m : Memory) (dst c a : ℕ)
    → stosb m dst c n a ≡ (if inside a dst n then c % 256 else m a)
unfolding stosb
stosb_lem zero m dst c a = ground arith
stosb_lem (suc n) m dst c a = ground (arith, stosb_lem n (update m dst (c % 256)) (dst + 1) c a)

stosl_lem :
    (n : ℕ) (m : Memory) (dst b a : ℕ)
    → b < 256
    → stosl m dst (b * 16777216 + b * 65536 + b * 256 + b) n a
      ≡ (if inside a dst (4 * n) then b else m a)
unfolding stosl
stosl_lem zero m dst b a lt = ground arith
stosl_lem (suc n) m dst b a lt = ground (
  arith,
  stosl_lem n (store_word m dst (b * 16777216 + b * 65536 + b * 256 + b)) (dst + 4) b a lt,
)

-- `memset` sets exactly the `n` bytes from `dst` on, to the low byte of `c`, on both of its paths.
memset_lem :
    (m : Memory) (dst c n a : ℕ) → memset m dst c n a ≡ (if inside a dst n then c % 256 else m a)
unfolding memset
memset_lem m dst c n a = elim (Bool-cases (dst % 4 == 0 && n % 4 == 0)) [
  | inl words ↦
      let whole : 4 * (n / 4) ≡ n = ground arith in
      rw words (
        stosl_lem (n / 4) m dst (c % 256) a (omega arith)
        ∙ ap (λ k. if inside a dst k then c % 256 else m a) whole)
  | inr bytes ↦ rw bytes (stosb_lem n m dst c a)
]

copy_up_lem :
    (n : ℕ) (m : Memory) (d s a : ℕ)
    → (d ≤ s) ⊎ (s + n ≤ d)
    → copy_up m d s n a ≡ (if inside a d n then m (s + (a - d)) else m a)
unfolding copy_up
copy_up_lem zero m d s a h = ground arith
copy_up_lem (suc n) m d s a h =
    copy_up_lem n (update m d (m s)) (d + 1) (s + 1) a (ground arith) ∙ step (dec_lt d a)
  where
    step :
        Dec (d < a)
        → (if inside a (d + 1) n
            then update m d (m s) (s + 1 + (a - (d + 1)))
            else update m d (m s) a)
          ≡ (if inside a d (suc n) then m (s + (a - d)) else m a)
    step (yes later) =
        let e : s + 1 + (a - (d + 1)) ≡ s + (a - d) = omega arith in rw e (ground arith)
    step (no now) = ground (arith, ap (λ k. m (s + k)) (zero_sub now))
      where
        zero_sub : ¬ (d < a) → a - d ≡ 0
        zero_sub h = omega arith

copy_down_lem :
    (n : ℕ) (m : Memory) (d s a : ℕ)
    → s ≤ d
    → copy_down m (d + n) (s + n) n a ≡ (if inside a d n then m (s + (a - d)) else m a)
unfolding copy_down
copy_down_lem zero m d s a h = ground arith
copy_down_lem (suc n) m d s a h =
    let last : d + suc n - 1 ≡ d + n = omega arith in
    let from : s + suc n - 1 ≡ s + n = omega arith in
    rw (last, from)
      (copy_down_lem n (update m (d + n) (m (s + n))) d s a h ∙ step (ℕ_discrete (d + n) a))
  where
    step :
        Dec (d + n ≡ a)
        → (if inside a d n
            then update m (d + n) (m (s + n)) (s + (a - d))
            else update m (d + n) (m (s + n)) a)
          ≡ (if inside a d (suc n) then m (s + (a - d)) else m a)
    step (yes here) = let back : a - d ≡ n = omega arith in rw back (ground arith)
    step (no other) = ground arith

-- `memmove` copies as if through a third place: afterwards each of the `n` bytes from `dst` on is
-- what the byte at the same distance from `src` was before, also where the two ranges overlap, and
-- every other byte is as it was.
memmove_lem :
    (m : Memory) (dst src n a : ℕ)
    → memmove m dst src n a ≡ (if inside a dst n then m (src + (a - dst)) else m a)
unfolding memmove
memmove_lem m dst src n a = elim (Bool-cases (ltb src dst && ltb dst (src + n))) [
  | inl down ↦ rw down (copy_down_lem n m dst src a (ground arith))
  | inr up ↦ rw up (copy_up_lem n m dst src a (ground arith))
]

-- The memory holds bytes.
abbrev pub AreBytes : Memory → Type 0
AreBytes m = (a : ℕ) → m a < 256

-- `memcmp` answers 0 exactly when the two ranges of `n` bytes agree.
memcmp_lem :
    (n : ℕ) (m : Memory) (v1 v2 : ℕ)
    → AreBytes m
    → (memcmp m v1 v2 n ≡ 0) ↔ ((i : ℕ) → i < n → m (v1 + i) ≡ m (v2 + i))
unfolding memcmp
memcmp_lem zero m v1 v2 bytes = (λ e i lt. absurd (omega arith), λ h. refl)
memcmp_lem (suc n) m v1 v2 bytes =
    let (to, from) = memcmp_lem n m (v1 + 1) (v2 + 1) bytes in
    (
      λ e i lt. first_byte e to i lt,
      λ h. ground (arith, h 0, at_zero v1, at_zero v2, from (λ i lt. shifted h i lt)),
    )
  where
    at_zero : (v : ℕ) → m (v + 0) ≡ m v
    at_zero v = let e : v + 0 ≡ v = omega arith in rw e refl

    shift : (v i : ℕ) → m (v + 1 + i) ≡ m (v + suc i)
    shift v i = let e : v + 1 + i ≡ v + suc i = omega arith in rw e refl

    shifted :
        ((i : ℕ) → i < suc n → m (v1 + i) ≡ m (v2 + i))
        → (i : ℕ) → i < n
        → m (v1 + 1 + i) ≡ m (v2 + 1 + i)
    shifted h i lt = shift v1 i ∙ h (suc i) (omega arith) ∙ sym (shift v2 i)

    first_byte :
        memcmp m v1 v2 (suc n) ≡ 0
        → (memcmp m (v1 + 1) (v2 + 1) n ≡ 0 → (i : ℕ) → i < n → m (v1 + 1 + i) ≡ m (v2 + 1 + i))
        → (i : ℕ) → i < suc n
        → m (v1 + i) ≡ m (v2 + i)
    first_byte e to zero lt = at_zero v1 ∙ ground (arith, bytes v1, bytes v2) ∙ sym (at_zero v2)
    first_byte e to (suc i) lt =
        sym (shift v1 i) ∙ to (ground (arith, bytes v1, bytes v2)) i (omega arith) ∙ shift v2 i
