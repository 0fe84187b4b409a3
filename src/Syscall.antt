-- ===== src/Syscall.antt =====
-- syscall.c: fetching the arguments of a system call from the memory of the calling process `p`, where
-- `m` is the byte at each address, and the dispatch. `none` is the answer -1.
pub mod Laws
use mutex.Common.{
  ℕ, ◌+◌, ◌-◌, ◌*◌, ◌%◌, Bool, true, false, not, ◌&&◌, ◌||◌, Option, none, some, ltb, leb, ◌==◌,
  if◌then◌else◌, first, minus_one, is_positive,
}
use mutex.Cstring.{Memory}
use mutex.Proc.{Proc}

-- `*(int*)addr`
abbrev pub word_at : Memory → ℕ → ℕ
word_at m a = m a + m (a + 1) * 256 + m (a + 2) * 65536 + m (a + 3) * 16777216

unfoldable pub fetchint : Memory → Proc → ℕ → Option ℕ
fetchint m p addr =
    if leb p.sz addr || ltb p.sz ((addr + 4) % 0x1_0000_0000) then none else some (word_at m addr)

-- The length of the string.
unfoldable pub fetchstr : Memory → Proc → ℕ → Option ℕ
unfolding first
fetchstr m p addr = if leb p.sz addr then none else first (λ k. m (addr + k) == 0) (p.sz - addr)

unfoldable pub argint : Memory → Proc → ℕ → Option ℕ
unfolding fetchint
argint m p n = fetchint m p ((p.tf.esp + 4 + 4 * n) % 0x1_0000_0000)

-- The pointer.
unfoldable pub argptr : Memory → Proc → ℕ → ℕ → Option ℕ
unfolding argint
argptr m p n size = elim (argint m p n) [
  | none ↦ none
  | some i ↦ if leb p.sz i || ltb p.sz ((i + size) % 0x1_0000_0000) then none else some i
]

-- The pointer and the length of the string.
unfoldable pub argstr : Memory → Proc → ℕ → Option (ℕ × ℕ)
unfolding argint fetchstr
argstr m p n = elim (argint m p n) [
  | none ↦ none
  | some addr ↦ elim (fetchstr m p addr) [ none ↦ none | some len ↦ some (addr, len) ]
]

-- `syscall` for the number in `eax`: the new `eax`, and what the call leaves. `calls` is the table
-- `syscalls`, of `nelem` entries.
unfoldable pub syscall {ℓ} : {K : Type ℓ} → (ℕ → Option (K → ℕ × K)) → ℕ → ℕ → K → ℕ × K
syscall calls nelem num k =
    if is_positive num && ltb num nelem
    then elim (calls num) [ none ↦ (minus_one, k) | some call ↦ call k ]
    else (minus_one, k)
