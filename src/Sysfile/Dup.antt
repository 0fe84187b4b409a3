-- ===== src/Sysfile/Dup.antt =====
-- Descriptors of sysfile.c: which one a file gets, and what closing it undoes.
use mutex.Common.{
  ℕ, ◌+◌, ◌-◌, ◌%◌, ◌<◌, ◌≡◌, ◌≢◌, ◌⊎◌, inl, inr, refl, ap, Bool, false, not, ◌&&◌, ◌||◌, none,
  some, ltb, ◌==◌, update, first, IsFirst, first-IsFirst, first-none, Option-cases, arith,
}
use mutex.Cstring.{Memory}
use mutex.Proc.{Proc, nofile}
use mutex.File.{Ftable, filedup, set_ref}
use mutex.Syscall.{argint}
use mutex.Sysfile.Run.{done}
use mutex.Sysfile.Descriptors.{Ptable, set_fd, argfd, fdalloc, sys_dup}

abbrev pub is_free_fd : Proc → ℕ → Bool
is_free_fd p fd = p.ofile fd == 0

pub fdalloc_lem :
    (p : Proc) (f : ℕ)
    → ((fd : ℕ) × IsFirst (is_free_fd p) nofile fd × (fdalloc p f ≡ some (fd, set_fd p fd (f + 1))))
      ⊎ (((fd : ℕ) → fd < nofile → p.ofile fd ≢ 0) × (fdalloc p f ≡ none))
unfolding fdalloc
fdalloc_lem p f = elim (Option-cases (first (is_free_fd p) nofile)) [
  | inl e ↦
      inr (λ fd lt. ground (arith, first-none (is_free_fd p) nofile e fd lt), rw (e, fdalloc) refl)
  | inr (fd, e) ↦ inl (fd, first-IsFirst (is_free_fd p) nofile fd e, rw (e, fdalloc) refl)
]

-- The argument `n` of the call is a descriptor of the file `f`.
abbrev pub Names : Memory → Proc → ℕ → ℕ → ℕ → Type 0
Names m p n fd f = (argint m p n ≡ some fd) × (fd < nofile) × (p.ofile fd ≡ f + 1)

argfd_lem : (m : Memory) (p : Proc) (n fd f : ℕ) → Names m p n fd f → argfd m p n ≡ some (fd, f)
unfolding argfd
argfd_lem m p n fd f (e, lt, file) =
    let valid : (not (ltb fd nofile) || p.ofile fd == 0) ≡ false = ground arith in
    let index : p.ofile fd - 1 ≡ f = omega arith in
    rw (e, argfd, valid) (ap (λ g. some (fd, g)) index)

-- `sys_dup` of a descriptor of the file `f`. Either every descriptor is in use, and the call fails
-- and changes nothing; or it answers the first one that is free, which then stands for `f`, whose
-- count is one more, and the other descriptors and files are as before.
pub sys_dup_lem :
    (m : Memory) (t : Ptable) (me : ℕ) (ft : Ftable) (old f : ℕ)
    → Names m (t me) 0 old f
    → 0 < (ft f).ref
    → (ft f).ref < 0x7fff_ffff
    → (((fd : ℕ) → fd < nofile → (t me).ofile fd ≢ 0) × (sys_dup m t me ft ≡ done (none, t, ft)))
      ⊎ ((fd : ℕ) × (t' : Ptable) × (ft' : Ftable) × (sys_dup m t me ft ≡ done (some fd, t', ft'))
          × IsFirst (is_free_fd (t me)) nofile fd
          × ((t' me).ofile fd ≡ f + 1)
          × ((i : ℕ) → i ≢ fd → (t' me).ofile i ≡ (t me).ofile i)
          × ((ft' f).ref ≡ (ft f).ref + 1)
          × ((g : ℕ) → g ≢ f → ft' g ≡ ft g))
unfolding sys_dup filedup
sys_dup_lem m t me ft old f names pos small = elim (fdalloc_lem (t me) f) [
  | inl (fd, free, e) ↦
      let used : not (ltb 0 (ft f).ref && ltb (ft f).ref 0x8000_0000) ≡ false = ground arith in
      inr (
        fd,
        update t me (set_fd (t me) fd (f + 1)),
        set_ref ft f (((ft f).ref + 1) % 0x1_0000_0000),
        rw (argfd_lem m (t me) 0 old f names, sys_dup, e, used) refl,
        free,
        ground arith,
        λ i ne. ground arith,
        ground arith,
        λ g ne. ground arith,
      )
  | inr (full, e) ↦ inl (full, rw (argfd_lem m (t me) 0 old f names, sys_dup, e) refl)
]
