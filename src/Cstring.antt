-- ===== src/Cstring.antt =====
-- string.c, over a memory of bytes. A pointer is an address, and no range here wraps round the end
-- of the address space. A result `int` is its 32-bit pattern.
pub mod Blocks
use mutex.Common.{
  ℕ, zero, suc, ◌+◌, ◌-◌, ◌*◌, ◌/◌, ◌%◌, ◌^◌, Bool, true, false, not, ◌&&◌, ltb, leb, ◌==◌,
  if◌then◌else◌, update,
}

abbrev pub Memory : Type 0
Memory = ℕ → ℕ

-- `stosb`: `n` bytes from `dst` on.
unfoldable pub stosb : Memory → ℕ → ℕ → ℕ → Memory
stosb m dst c zero = m
stosb m dst c (suc n) = stosb (update m dst (c % 256)) (dst + 1) c n

-- A little-endian word.
abbrev pub store_word : Memory → ℕ → ℕ → Memory
store_word m a w =
    update
      (update (update (update m a (w % 256)) (a + 1) (w / 256 % 256)) (a + 2) (w / 65536 % 256))
      (a + 3) (w / 16777216 % 256)

-- `stosl`: `n` words from `dst` on.
unfoldable pub stosl : Memory → ℕ → ℕ → ℕ → Memory
stosl m dst w zero = m
stosl m dst w (suc n) = stosl (store_word m dst w) (dst + 4) w n

unfoldable pub memset : Memory → ℕ → ℕ → ℕ → Memory
unfolding stosb stosl
memset m dst c n =
    if dst % 4 == 0 && n % 4 == 0
    then (let b = c % 256 in stosl m dst (b * 16777216 + b * 65536 + b * 256 + b) (n / 4))
    else stosb m dst c n

-- `while(n-- > 0) *--d = *--s;`
unfoldable pub copy_down : Memory → ℕ → ℕ → ℕ → Memory
copy_down m d s zero = m
copy_down m d s (suc n) = copy_down (update m (d - 1) (m (s - 1))) (d - 1) (s - 1) n

-- `while(n-- > 0) *d++ = *s++;`
unfoldable pub copy_up : Memory → ℕ → ℕ → ℕ → Memory
copy_up m d s zero = m
copy_up m d s (suc n) = copy_up (update m d (m s)) (d + 1) (s + 1) n

unfoldable pub memmove : Memory → ℕ → ℕ → ℕ → Memory
unfolding copy_down copy_up
memmove m dst src n =
    if ltb src dst && ltb dst (src + n)
    then copy_down m (dst + n) (src + n) n
    else copy_up m dst src n

abbrev pub difference : ℕ → ℕ → ℕ
difference a b = (a + 0x1_0000_0000 - b) % 0x1_0000_0000

unfoldable pub memcmp : Memory → ℕ → ℕ → ℕ → ℕ
memcmp m v1 v2 zero = 0
memcmp m v1 v2 (suc n) =
    let rest = memcmp m (v1 + 1) (v2 + 1) n in
    if not (m v1 == m v2) then difference (m v1) (m v2) else rest

unfoldable pub strncmp : Memory → ℕ → ℕ → ℕ → ℕ
strncmp m p q zero = 0
strncmp m p q (suc n) =
    let rest = strncmp m (p + 1) (q + 1) n in
    if not (m p == 0) && m p == m q then rest else difference (m p) (m q)

-- The second loop of `strncpy`.
unfoldable pub zero_fill : Memory → ℕ → ℕ → Memory
zero_fill m s zero = m
zero_fill m s (suc n) = zero_fill (update m s 0) (s + 1) n

unfoldable pub strncpy : Memory → ℕ → ℕ → ℕ → Memory
unfolding zero_fill
strncpy m s t zero = m
strncpy m s t (suc n) =
    let m' = update m s (m t) in
    let rest = strncpy m' (s + 1) (t + 1) n in if m t == 0 then zero_fill m' (s + 1) n else rest

-- The loop of `safestrcpy`, which may still write `n` bytes before the terminator.
unfoldable pub safe_copy : Memory → ℕ → ℕ → ℕ → Memory
safe_copy m s t zero = update m s 0
safe_copy m s t (suc n) =
    let m' = update m s (m t) in
    let rest = safe_copy m' (s + 1) (t + 1) n in if m t == 0 then update m' (s + 1) 0 else rest

unfoldable pub safestrcpy : Memory → ℕ → ℕ → ℕ → Memory
unfolding safe_copy
safestrcpy m s t zero = m
safestrcpy m s t (suc n) = safe_copy m s t n
