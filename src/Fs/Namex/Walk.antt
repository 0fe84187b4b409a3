-- ===== src/Fs/Namex/Walk.antt =====
-- namex walks the elements of the path.
use mutex.Common.{
  ℕ, zero, suc, ◌<◌, ◌≡◌, inl, inr, refl, ◌∙◌, ap, Bool, Option, none, some, List, [], ◌∷◌,
  if◌then◌else◌, length, arith, fun_ext, Bool-cases,
}
use mutex.Fs.Disk.{Disk}
use mutex.Fs.Inode.{Inode, Icache, iget, idup}
use mutex.Fs.Content.{Reading}
use mutex.Fs.Path.{is_end}
use mutex.Fs.Path.Elements.{names, skipelem_lem}
use mutex.Fs.Namex.{Arrival, stops, last, next, is_absolute, visit, at_end, namex_from, namex}

module _ (devsw : ℕ → Option (Disk → Inode → ℕ → Reading)) (parent : Bool) where
  -- The rounds of `namex` for a list of names.
  unfoldable pub walk : Disk → Icache → ℕ → List (List ℕ) → List ℕ → Arrival
  unfolding visit at_end
  walk d c i [] name = at_end devsw parent d c i name
  walk d c i (n ∷ ns) name = elim (visit devsw parent d c i n (is_end ns)) [
    | last o ↦ o
    | next j d' c' ↦ walk d' c' j ns n
  ]

  namex_from_lem :
      (k : ℕ) (d : Disk) (c : Icache) (i : ℕ) (path name : List ℕ)
      → length path < k
      → namex_from devsw parent k d c i path name ≡ walk d c i (names path) name
  unfolding namex_from walk
  namex_from_lem zero d c i path name lt = absurd (omega arith)
  namex_from_lem (suc k) d c i path name lt = elim (skipelem_lem path) [
    | inl (e, no_names) ↦ rw (e, no_names, namex_from) refl
    | inr (n, rest, e, some_names, same_end, shorter) ↦
        rw (e, some_names, namex_from)
          (ap
              (λ (no_more : Bool). elim (visit devsw parent d c i n no_more) [
                | last o ↦ o
                | next j d' c' ↦ namex_from devsw parent k d' c' j rest n
              ])
              same_end
            ∙ ap
                (λ (f : ℕ → Disk → Icache → Arrival).
                  elim (visit devsw parent d c i n (is_end (names rest))) [
                    | last o ↦ o
                    | next j d' c' ↦ f j d' c'
                  ])
                (fun_ext
                  λ j. fun_ext λ d'. fun_ext λ c'. namex_from_lem k d' c' j rest n (omega arith)))
  ]

  -- `namex` takes the elements of the path one by one, from the root for a path that starts with a
  -- slash and from the current directory for another, and does not stop before an element's visit
  -- ends it or none is left.
  pub namex_lem :
      (d : Disk) (c : Icache) (cwd : ℕ) (path name : List ℕ)
      → namex devsw parent d c cwd path name ≡ (
          if is_absolute path
          then elim (iget c 1 1) [ none ↦ stops | some (i, c') ↦ walk d c' i (names path) name ]
          else walk d (idup c cwd) cwd (names path) name)
  unfolding namex
  namex_lem d c cwd path name = elim (Bool-cases (is_absolute path)) [
    | inl root ↦ rw root (
        ap
          (λ (f : ℕ → Icache → Arrival). elim (iget c 1 1) [ none ↦ stops | some (i, c') ↦ f i c' ])
          (fun_ext
            λ i. fun_ext λ c'. namex_from_lem (suc (length path)) d c' i path name (omega arith)))
    | inr here ↦
        rw here (namex_from_lem (suc (length path)) d (idup c cwd) cwd path name (omega arith))
  ]
