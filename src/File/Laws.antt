-- ===== src/File/Laws.antt =====
-- Reference counts, and writing in chunks.
use mutex.Common.{
  ℕ, zero, suc, ◌+◌, ◌-◌, ◌%◌, ◌≤◌, ◌<◌, ◌≡◌, ◌≢◌, ◌⊎◌, refl, ◌∙◌, ap, inl, inr, false, not, ◌&&◌,
  none, some, ltb, ◌==◌, if◌then◌else◌, arith, update, first, IsFirst, first-IsFirst, first-none,
  Option-cases, Bool-cases,
}
use mutex.File.{
  fd_none, File, Ftable, nfile, set_ref, filealloc, filedup, closed, panics, last_close, fileclose,
  wrote, chunk, write_chunks, filewrite_inode,
}

-- `filealloc` takes the first file of the table without references and leaves it with one, and no
-- other file changes; or every file of the table has a reference, and nothing changes.
pub filealloc_lem :
    (t : Ftable)
    → ((f : ℕ) × (t' : Ftable) × IsFirst (λ g. (t g).ref == 0) nfile f
        × (filealloc t ≡ (some f, t'))
        × ((t' f).ref ≡ 1)
        × ((g : ℕ) → g ≢ f → t' g ≡ t g))
      ⊎ (((g : ℕ) → g < nfile → (t g).ref ≢ 0) × (filealloc t ≡ (none, t)))
unfolding filealloc
filealloc_lem t = elim (Option-cases (first (λ f. (t f).ref == 0) nfile)) [
  | inl e ↦ inr (
    λ g lt. ground (arith, first-none (λ f. (t f).ref == 0) nfile e g lt),
    rw (e, filealloc) refl,
  )
  | inr (f, e) ↦ inl (
    f,
    set_ref t f 1,
    first-IsFirst (λ f. (t f).ref == 0) nfile f e,
    rw (e, filealloc) refl,
    ground arith,
    λ g ne. ground arith,
  )
]

-- A file with a reference, and room to count one more: `fileclose` after `filedup` leaves the table
-- as it was, whatever its second argument, and closes neither a pipe nor an inode.
fileclose-filedup :
    (t : Ftable) (f really : ℕ)
    → 0 < (t f).ref
    → (t f).ref < 0x7fff_ffff
    → (t' t'' : Ftable) × (filedup t f ≡ some t')
      × ((t' f).ref ≡ (t f).ref + 1)
      × (fileclose t' f really ≡ closed t'')
      × ((g : ℕ) → t'' g ≡ t g)
unfolding filedup fileclose
fileclose-filedup t f really pos small = (
  set_ref t f (((t f).ref + 1) % 0x1_0000_0000),
  set_ref (set_ref t f (((t f).ref + 1) % 0x1_0000_0000)) f
      ((set_ref t f (((t f).ref + 1) % 0x1_0000_0000) f).ref - 1),
  ground arith,
  ground arith,
  ground arith,
  λ g. restored g,
)
  where
    back : ((t f).ref + 1) % 0x1_0000_0000 - 1 ≡ (t f).ref
    back = omega arith

    restored :
        (g : ℕ)
        → set_ref
            (set_ref t f (((t f).ref + 1) % 0x1_0000_0000))
            f
            ((set_ref t f (((t f).ref + 1) % 0x1_0000_0000) f).ref - 1)
            g
          ≡ t g
    restored g = ground (arith, back)

-- The last reference: the file is free again, and what is left to do is to close what it stood for.
-- Of a file without references the call changes nothing if its second argument is set, and panics
-- else.
fileclose_lem :
    (t : Ftable) (f really : ℕ)
    → ((t f).ref ≡ 1
        → (t' : Ftable) × (fileclose t f really ≡ last_close (t f) t')
          × ((t' f).ref ≡ 0)
          × ((t' f).type ≡ fd_none)
          × ((g : ℕ) → g ≢ f → t' g ≡ t g))
      × ((t f).ref ≡ 0 → fileclose t f really ≡ (if really == 0 then panics else closed t))
unfolding fileclose
fileclose_lem t f really = (
  λ one. (
    update t f (record (t f) { ref = 0; type = fd_none }),
    rw (one, fileclose) (last really),
    ground arith,
    ground arith,
    λ g ne. ground arith,
  ),
  λ zero_refs. ground arith,
)
  where
    last :
        (r : ℕ)
        → (if not (r == 0) && false
            then closed t
            else last_close (t f) (update t f (record (t f) { ref = 0; type = fd_none })))
          ≡ last_close (t f) (update t f (record (t f) { ref = 0; type = fd_none }))
    last r = ground arith

module _ {I : Type 0} (writei : I → ℕ → ℕ → ℕ → ℕ × I)
    (complete : (st : I) (i off n : ℕ) → (writei st i off n).0 ≡ n) where
  write_chunks_lem :
      (fuel n i off : ℕ) (st : I)
      → i ≤ n
      → n - i ≤ fuel
      → n < 0x8000_0000
      → off < 0x1_0000_0000
      → (st' : I) × (write_chunks writei fuel n i off st
          ≡ wrote n ((off + (n - i)) % 0x1_0000_0000) st')
  unfolding write_chunks
  write_chunks_lem zero n i off st a b c d = (st, ground arith)
  write_chunks_lem (suc fuel) n i off st a b c d = elim (Bool-cases (ltb i n)) [
    | inl more ↦
        let r = (writei st i off (chunk writei n i)).0 in
        let whole : r ≡ chunk writei n i = complete st i off (chunk writei n i) in
        let (st', e) =
          write_chunks_lem fuel n (i + r) ((off + r) % 0x1_0000_0000)
            (writei st i off (chunk writei n i)).1 (ground arith) (ground arith) c (omega arith) in
        (st', ground (arith, e))
    | inr done ↦ (st, ground arith)
  ]

-- `filewrite` to an inode, when every call of `writei` writes all that it is given, ends within its
-- fuel: it answers `n`, and the offset is `n` further on.
filewrite_lem :
    {I : Type 0} (writei : I → ℕ → ℕ → ℕ → ℕ × I) (f : File) (n : ℕ) (st : I)
    → ((s : I) (i off m : ℕ) → (writei s i off m).0 ≡ m)
    → n < 0x8000_0000
    → f.off < 0x1_0000_0000
    → (st' : I) × (filewrite_inode writei f n st ≡ wrote n ((f.off + n) % 0x1_0000_0000) st')
unfolding filewrite_inode
filewrite_lem writei f n st complete small lt =
    let (st', e) =
      write_chunks_lem writei complete n n 0 f.off st (omega arith) (omega arith) small lt in
    let all : n - 0 ≡ n = omega arith in
    (st', e ∙ ap (λ m. wrote n ((f.off + m) % 0x1_0000_0000) st') all)
