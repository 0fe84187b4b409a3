-- ===== src/Sysfile/Fresh.antt =====
-- The new file of sys_open in sysfile.c, and its descriptor.
use mutex.Common.{
  ℕ, ◌+◌, ◌<◌, ◌≡◌, ◌≢◌, ◌⊎◌, inl, inr, refl, ◌∙◌, ap, sym, Bool, true, none, some, ◌==◌, update,
  first, IsFirst, first-IsFirst, first-none, Option-cases, Bool-cases, arith, fun_ext,
}
use mutex.Proc.{Proc, nofile}
use mutex.File.{File, Ftable, fd_none, nfile, filealloc, fileclose, set_ref}
use mutex.Sysfile.Run.{done}
use mutex.Sysfile.Descriptors.{set_fd, close_new}
use mutex.Sysfile.Dup.{is_free_fd, fdalloc_lem}
use mutex.Sysfile.Open.{new_file}

-- A file without references has no type: `fileclose` sees to that.
abbrev AllClean : Ftable → Type 0
AllClean ft = (g : ℕ) → (ft g).ref ≡ 0 → (ft g).type ≡ fd_none

abbrev is_unused : Ftable → ℕ → Bool
is_unused ft g = (ft g).ref == 0

abbrev blank : File → File
blank f = record f { ref = 0; type = fd_none }

close_new_lem :
    (ft : Ftable) (f : ℕ)
    → (ft f).ref ≡ 1
    → (ft f).type ≡ fd_none
    → close_new ft f ≡ done (update ft f (blank (ft f)))
unfolding fileclose
close_new_lem ft f one kind = rw (close_new, fileclose, one) (rw kind refl)

blank_lem : (f : File) → f.ref ≡ 0 → f.type ≡ fd_none → blank f ≡ f
blank_lem f none_left kind =
    ap (λ r. record f { ref = r; type = fd_none }) (sym none_left)
    ∙ ap (λ k. record f { type = k }) (sym kind)

set_ref-ref : (ft : Ftable) (f n : ℕ) → (set_ref ft f n f).ref ≡ n
set_ref-ref ft f n = ground arith

set_ref-type : (ft : Ftable) (f n : ℕ) → (set_ref ft f n f).type ≡ (ft f).type
set_ref-type ft f n = ground arith

-- What `filealloc` took, `close_new` gives back.
taken_back :
    (ft : Ftable) (f : ℕ)
    → (ft f).ref ≡ 0
    → (ft f).type ≡ fd_none
    → close_new (set_ref ft f 1) f ≡ done ft
taken_back ft f unused kind =
    close_new_lem (set_ref ft f 1) f (set_ref-ref ft f 1) (set_ref-type ft f 1 ∙ kind)
    ∙ ap (λ t. done t) (fun_ext λ g. back g)
  where
    back : (g : ℕ) → update (set_ref ft f 1) f (blank (set_ref ft f 1 f)) g ≡ ft g
    back g = elim (Bool-cases (f == g)) [
      | inl same ↦
          let here : g ≡ f = ground arith in
          let self : (f == f) ≡ true = ground arith in
          rw (here, self) (blank_lem (ft f) unused kind)
      | inr other ↦ rw other refl
    ]

filealloc-cases :
    (ft : Ftable)
    → ((g : ℕ) × IsFirst (is_unused ft) nfile g × (filealloc ft ≡ (some g, set_ref ft g 1)))
      ⊎ (((g : ℕ) → g < nfile → (ft g).ref ≢ 0) × (filealloc ft ≡ (none, ft)))
unfolding filealloc
filealloc-cases ft = elim (Option-cases (first (is_unused ft) nfile)) [
  | inl e ↦
      inr (λ g lt. ground (arith, first-none (is_unused ft) nfile e g lt), rw (e, filealloc) refl)
  | inr (g, e) ↦ inl (g, first-IsFirst (is_unused ft) nfile g e, rw (e, filealloc) refl)
]

no_ref : (ft : Ftable) (g : ℕ) → IsFirst (is_unused ft) nfile g → (ft g).ref ≡ 0
no_ref ft g h = ground (arith, h.passes)

-- `new_file` with a table in which files without references have no type. Either it takes the first
-- unused file, with one reference, and the first free descriptor for it; or there is no such file or
-- no such descriptor, and the table of files is as it was.
pub new_file_lem :
    (p : Proc) (ft : Ftable)
    → AllClean ft
    → ((g fd : ℕ) × IsFirst (is_unused ft) nfile g
        × IsFirst (is_free_fd p) nofile fd
        × (new_file p ft ≡ done (some (g, fd, set_fd p fd (g + 1)), set_ref ft g 1)))
      ⊎ ((((g : ℕ) → g < nfile → (ft g).ref ≢ 0) ⊎ ((fd : ℕ) → fd < nofile → p.ofile fd ≢ 0))
          × (new_file p ft ≡ done (none, ft)))
unfolding new_file
new_file_lem p ft clean = elim (filealloc-cases ft) [
  | inr (full, e) ↦ inr (inl full, rw (e, new_file, e) refl)
  | inl (g, unused, e) ↦ elim (fdalloc_lem p g) [
    | inl (fd, free, e2) ↦ inl (g, fd, unused, free, rw (e, new_file, e2, e) refl)
    | inr (full, e2) ↦
        let gone = no_ref ft g unused in
        inr (inr full, rw (e, new_file, e2, e, taken_back ft g gone (clean g gone)) refl)
  ]
]
