-- ===== src/Sysfile/Exec.antt =====
-- The argument vector of sys_exec in sysfile.c.
use mutex.Common.{
  ℕ, zero, suc, ◌+◌, ◌*◌, ◌%◌, ◌<◌, ◌≡◌, ◌≢◌, ◌↔◌, ◌⊎◌, inl, inr, refl, ap, ◌∙◌, false, Option,
  none, some, List, [], ◌∷◌, ◌==◌, length, arith, Bool-cases, Option-cases,
}
use mutex.Cstring.{Memory}
use mutex.Proc.{Proc}
use mutex.Syscall.{fetchint, fetchstr}
use mutex.Sysfile.Open.{exec_args, maxarg}

abbrev word_of : Memory → Proc → ℕ → ℕ → Option ℕ
word_of m p uargv i = fetchint m p ((uargv + 4 * i) % 0x1_0000_0000)

-- From word `i` of the vector on there are the addresses `us`, each of a string in the memory of the
-- process, and then a null pointer.
abbrev pub IsVector : Memory → Proc → ℕ → ℕ → List ℕ → Type 0
IsVector m p uargv i [] = word_of m p uargv i ≡ some 0
IsVector m p uargv i (u ∷ us) =
    (word_of m p uargv i ≡ some u)
    × (u ≢ 0)
    × ((len : ℕ) × (fetchstr m p u ≡ some len))
    × IsVector m p uargv (i + 1) us

module _ (m : Memory) (p : Proc) (uargv : ℕ) where
  exec_args-some :
      (n i : ℕ) (us : List ℕ)
      → length us < n
      → IsVector m p uargv i us
      → exec_args m p uargv n i ≡ some us
  unfolding exec_args
  exec_args-some zero i us lt v = absurd (omega arith)
  exec_args-some (suc n) i [] lt v = rw (v, exec_args) refl
  exec_args-some (suc n) i (u ∷ us) lt (e, ne, (len, s), v) =
      let other : (u == 0) ≡ false = ground arith in
      rw (e, exec_args, other, s, exec_args-some n (i + 1) us (omega arith) v) refl

  exec_args-cases :
      (n i : ℕ)
      → (exec_args m p uargv n i ≡ none)
        ⊎ ((us : List ℕ) × (exec_args m p uargv n i ≡ some us)
            × (length us < n)
            × IsVector m p uargv i us)
  unfolding exec_args
  exec_args-cases zero i = inl refl
  exec_args-cases (suc n) i = elim (Option-cases (word_of m p uargv i)) [
    | inl bad ↦ inl (rw (bad, exec_args) refl)
    | inr (u, e) ↦ elim (Bool-cases (u == 0)) [
      | inl end ↦
          let last : u ≡ 0 = ground arith in
          inr ([], rw (e, exec_args, end) refl, omega arith, e ∙ ap (λ w. some w) last)
      | inr more ↦ elim (Option-cases (fetchstr m p u)) [
        | inl bad ↦ inl (rw (e, exec_args, more, bad) refl)
        | inr (len, s) ↦ elim (exec_args-cases n (i + 1)) [
          | inl bad ↦ inl (rw (e, exec_args, more, s, bad) refl)
          | inr (us, r, lt, v) ↦
              let other : u ≢ 0 = ground arith in
              inr (u ∷ us, rw (e, exec_args, more, s, r) refl, omega arith, (e, other, (len, s), v))
        ]
      ]
    ]
  ]

  -- The loop of `sys_exec` gives the arguments `us` exactly if the vector at `uargv` has them, each
  -- a string in the memory of the process, before its first null pointer, and they are fewer than 32;
  -- so it fails on a longer vector, on a pointer out of range and on a string without an end.
  pub exec_args_lem :
      (us : List ℕ)
      → (exec_args m p uargv maxarg 0 ≡ some us) ↔ ((length us < maxarg) × IsVector m p uargv 0 us)
  exec_args_lem us = (
    λ e. elim (exec_args-cases maxarg 0) [
      | inl bad ↦ absurd (cc)
      | inr (vs, r, lt, v) ↦ let same : vs ≡ us = cc in rw (← same) (lt, v)
    ],
    λ (lt, v). exec_args-some maxarg 0 us lt v,
  )
