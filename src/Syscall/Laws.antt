-- ===== src/Syscall/Laws.antt =====
-- What a system call's arguments may point to.
use mutex.Common.{
  ℕ, ◌+◌, ◌-◌, ◌%◌, ◌<◌, ◌≤◌, ◌≡◌, ◌≢◌, ◌⊎◌, inl, inr, refl, ap, ◌||◌, none, some, ltb, leb, ◌==◌,
  arith, first, first-IsFirst, first-none, Bool-cases, Option-cases,
}
use mutex.Cstring.{Memory}
use mutex.Proc.{Proc}
use mutex.Syscall.{fetchstr, argint, argptr, argstr}

not_nul :
    (m : Memory) (p : Proc) (addr a : ℕ)
    → first (λ k. m (addr + k) == 0) (p.sz - addr) ≡ none
    → addr ≤ a
    → a < p.sz
    → m a ≢ 0
not_nul m p addr a miss lo hi =
    let at : addr + (a - addr) ≡ a = omega arith in
    let fails = first-none (λ k. m (addr + k) == 0) (p.sz - addr) miss (a - addr) (omega arith) in
    ground (arith, fails, ap m at)

-- `argptr` with a size that is not negative, for a process of at most KERNBASE bytes: the pointer that it
-- lets through is the argument, and the whole block lies in the process's memory; and it lets an argument
-- through if the block does and has a byte.
argptr_lem :
    (m : Memory) (p : Proc) (n size i : ℕ)
    → p.sz ≤ 0x8000_0000
    → size < 0x8000_0000
    → argint m p n ≡ some i
    → i < 0x1_0000_0000
    → ((argptr m p n size ≡ some i) × (i < p.sz) × (i + size ≤ p.sz))
      ⊎ ((argptr m p n size ≡ none) × ((p.sz ≤ i) ⊎ (p.sz < i + size)))
unfolding argptr
argptr_lem m p n size i le small e lt =
    elim (Bool-cases (leb p.sz i || ltb p.sz ((i + size) % 0x1_0000_0000))) [
      | inl out ↦ inr (rw (e, argptr) (rw out refl), ground arith)
      | inr within ↦ inl (rw (e, argptr) (rw within refl), ground arith, ground arith)
    ]

-- `argstr`: a string that it lets through ends, with a NUL, inside the process's memory, and the length is
-- that of the characters before the first NUL; an argument is refused only if it cannot be fetched, or
-- there is no NUL from its address to the end of that memory.
pub argstr_lem :
    (m : Memory) (p : Proc) (n : ℕ)
    → ((addr len : ℕ) × (argstr m p n ≡ some (addr, len))
        × (argint m p n ≡ some addr)
        × (addr + len < p.sz)
        × (m (addr + len) ≡ 0)
        × ((j : ℕ) → j < len → m (addr + j) ≢ 0))
      ⊎ ((argstr m p n ≡ none)
          × ((argint m p n ≡ none)
              ⊎ ((addr : ℕ) × (argint m p n ≡ some addr)
                  × ((a : ℕ) → addr ≤ a → a < p.sz → m a ≢ 0))))
unfolding argstr fetchstr
argstr_lem m p n = elim (Option-cases (argint m p n)) [
  | inl e ↦ inr (rw (e, argstr) refl, inl e)
  | inr (addr, e) ↦ elim (Bool-cases (leb p.sz addr)) [
    | inl out ↦ inr (rw (e, argstr) (rw out refl), inr (addr, e, λ a lo hi. absurd (ground arith)))
    | inr within ↦ elim (Option-cases (first (λ k. m (addr + k) == 0) (p.sz - addr))) [
      | inl miss ↦ inr (
        rw (e, argstr) (rw within (rw miss refl)),
        inr (addr, e, λ a lo hi. not_nul m p addr a miss lo hi),
      )
      | inr (len, hit) ↦
          let f = first-IsFirst (λ k. m (addr + k) == 0) (p.sz - addr) len hit in
          inl (
            addr,
            len,
            rw (e, argstr) (rw within (rw hit refl)),
            e,
            omega (arith, f.below),
            ground (arith, f.passes),
            λ j lt. ground (arith, f.earlier_fail j lt),
          )
    ]
  ]
]
