-- ===== src/Sysfile/Paths.antt =====
-- sys_link, isdirempty, sys_unlink and create of sysfile.c. `cwd` is the entry of `proc->cwd`, and the
-- paths are what `argstr` gives, `none` when it fails; an answer -1 is `none`.
use mutex.Common.{
  ℕ, zero, suc, ◌+◌, ◌*◌, ◌%◌, Bool, true, false, not, ◌&&◌, ◌||◌, Option, none, some, List, [],
  ◌∷◌, ltb, leb, ◌==◌, if◌then◌else◌, update, length,
}
use mutex.Cstring.{Memory}
use mutex.Fs.Disk.{Disk}
use mutex.Fs.Inode.{Inode, ialloc}
use mutex.Fs.Content.{Reading, Writing, readi, writei}
use mutex.Fs.Dir.{t_dir, dirent_size, entry_inum, namecmp, dirlookup, dirlink}
use mutex.Fs.Namex.{name_of, namei, nameiparent}
use mutex.Sysfile.Run.{
  Run, done, dead, ◌>>=◌, checked, Fs, fs, entry, with_entry, begin_tx, end_tx, lock_inode,
  unlock_inode, put_inode, unlock_put, update_inode, arrived,
}

abbrev pub t_file : ℕ
t_file = 2

-- `"."` and `".."`
abbrev pub dot : List ℕ
dot = b'.' ∷ []

abbrev dotdot : List ℕ
dotdot = b'.' ∷ b'.' ∷ []

-- A `short` one more and one less.
abbrev one_link_more : Inode → Inode
one_link_more ip = record ip { nlink = (ip.nlink + 1) % 65536 }

abbrev one_link_less : Inode → Inode
one_link_less ip = record ip { nlink = (ip.nlink + 65535) % 65536 }

-- `end_op(); return -1;` and the like.
abbrev pub answer {ℓ} : {A : Type ℓ} → A → Fs → Run (A × Fs)
answer a s = end_tx s >>= λ s'. done (a, s')

module _ (devsw : ℕ → Option (Disk → Inode → ℕ → Reading)) where
  -- The loop of `isdirempty` from `off` on, on fuel; `none` is the panic.
  unfoldable pub unused_from : ℕ → Disk → Inode → ℕ → Option (Bool × Disk × Inode)
  unfolding readi
  unused_from zero d dp off = if ltb off dp.size then none else some (true, d, dp)
  unused_from (suc k) d dp off =
      if not (ltb off dp.size)
      then some (true, d, dp)
      else elim (readi devsw d dp off dirent_size) [
        | none ↦ none
        | some (none, d₁, dp₁) ↦ none
        | some (some de, d₁, dp₁) ↦
            let rest = unused_from k d₁ dp₁ (off + dirent_size) in
            if not (length de == dirent_size)
            then none
            else if not (entry_inum de == 0)
            then some (false, d₁, dp₁)
            else rest
      ]

  -- `isdirempty`, with a round for every byte of the directory.
  unfoldable pub isdirempty : Disk → Inode → Option (Bool × Disk × Inode)
  unfolding unused_from
  isdirempty d dp = unused_from dp.size d dp (2 * dirent_size)

module _ (devsw : ℕ → Option (Disk → Inode → ℕ → Reading))
    (dev_write : ℕ → Option (Disk → Inode → Memory → ℕ → Writing)) where
  -- `dirlink` in the directory of entry `i`.
  abbrev link_in : Fs → ℕ → List ℕ → ℕ → Run (Option ℕ × Fs)
  link_in s i name inum =
      checked (dirlink devsw dev_write s.disk s.icache i (name_of name) inum) >>= λ (r, d, c).
      done (r, fs d c)

  abbrev look_in : Fs → ℕ → List ℕ → Run (Option (ℕ × ℕ) × Fs)
  look_in s i name =
      checked (dirlookup devsw s.disk s.icache i (name_of name)) >>= λ (r, d, c). done (r, fs d c)

  -- `bad:` of `sys_link`.
  unfoldable undo_link : Fs → ℕ → Run (Option ℕ × Fs)
  undo_link s i = do
    s₁ ← lock_inode s i
    s₂ ← update_inode (with_entry s₁ i (one_link_less (entry s₁ i))) i
    s₃ ← unlock_put s₂ i
    answer none s₃

  -- From the lock on the directory of the new name.
  unfoldable link_to : Fs → ℕ → ℕ → List ℕ → Run (Option ℕ × Fs)
  unfolding undo_link
  link_to s i dp name = do
    s₁ ← lock_inode s dp
    if not ((entry s₁ dp).dev == (entry s₁ i).dev)
        then (unlock_put s₁ dp >>= λ s₂. undo_link s₂ i)
        else (link_in s₁ dp name (entry s₁ i).inum >>= λ (r, s₂). elim r [
          | none ↦ unlock_put s₂ dp >>= λ s₃. undo_link s₃ i
          | some n ↦ unlock_put s₂ dp >>= λ s₃. put_inode s₃ i >>= λ s₄. answer (some 0) s₄
        ])

  -- `sys_link`.
  unfoldable sys_link : ℕ → Option (List ℕ) → Option (List ℕ) → Fs → Run (Option ℕ × Fs)
  unfolding namei nameiparent link_to undo_link
  sys_link cwd none new s₀ = done (none, s₀)
  sys_link cwd (some old) none s₀ = done (none, s₀)
  sys_link cwd (some old) (some new) s₀ = do
    s₁ ← begin_tx s₀
    (found, name, s₂) ← arrived (namei devsw s₁.disk s₁.icache cwd old)
    elim found [
      | none ↦ answer none s₂
      | some i ↦ (do
        s₃ ← lock_inode s₂ i
        if (entry s₃ i).type == t_dir then (unlock_put s₃ i >>= λ s₄. answer none s₄) else (do
          s₄ ← update_inode (with_entry s₃ i (one_link_more (entry s₃ i))) i
          s₅ ← unlock_inode s₄ i
          (parent, name', s₆) ← arrived (nameiparent devsw s₅.disk s₅.icache cwd new [])
          elim parent [ none ↦ undo_link s₆ i | some dp ↦ link_to s₆ i dp name' ]))
    ]

  -- `bad:` of `sys_unlink`.
  abbrev unlink_fails : Fs → ℕ → Run (Option ℕ × Fs)
  unlink_fails s dp = unlock_put s dp >>= λ s₁. answer none s₁

  -- The removal of the entry at `off` of the directory `dp` for the inode of `i`.
  unfoldable remove_entry : Fs → ℕ → ℕ → ℕ → Run (Option ℕ × Fs)
  unfolding writei
  remove_entry s dp i off = do
    (n, d, dir) ← checked (writei dev_write s.disk (entry s dp) (λ b. 0) off dirent_size)
    let s₁ = fs d (update s.icache dp dir)
    elim n [
      | none ↦ dead
      | some len ↦ if not (len == dirent_size) then dead else (do
        s₂ ←
            if (entry s₁ i).type == t_dir
            then update_inode (with_entry s₁ dp (one_link_less (entry s₁ dp))) dp
            else done s₁
        s₃ ← unlock_put s₂ dp
        s₄ ← update_inode (with_entry s₃ i (one_link_less (entry s₃ i))) i
        s₅ ← unlock_put s₄ i
        answer (some 0) s₅)
    ]

  -- Whether the inode of `i` is a directory that is not empty.
  abbrev holds_names : Fs → ℕ → Run (Bool × Fs)
  holds_names s i =
      if (entry s i).type == t_dir
      then (checked (isdirempty devsw s.disk (entry s i)) >>= λ (empty, d, dp).
          done (not empty, fs d (update s.icache i dp)))
      else done (false, s)

  -- From the look for the name on.
  unfoldable unlink_in : Fs → ℕ → List ℕ → Run (Option ℕ × Fs)
  unfolding isdirempty remove_entry
  unlink_in s dp name = do
    (found, s₁) ← look_in s dp name
    elim found [
      | none ↦ unlink_fails s₁ dp
      | some (off, i) ↦ (do
        s₂ ← lock_inode s₁ i
        if not (leb 1 (entry s₂ i).nlink && ltb (entry s₂ i).nlink 0x8000) then dead else (do
          (full, s₃) ← holds_names s₂ i
          if full
              then (unlock_put s₃ i >>= λ s₄. unlink_fails s₄ dp)
              else remove_entry s₃ dp i off))
    ]

  unfoldable sys_unlink : ℕ → Option (List ℕ) → Fs → Run (Option ℕ × Fs)
  unfolding nameiparent namecmp unlink_in
  sys_unlink cwd none s₀ = done (none, s₀)
  sys_unlink cwd (some path) s₀ = do
    s₁ ← begin_tx s₀
    (parent, name, s₂) ← arrived (nameiparent devsw s₁.disk s₁.icache cwd path [])
    elim parent [
      | none ↦ answer none s₂
      | some dp ↦ (do
        s₃ ← lock_inode s₂ dp
        if namecmp (name_of name) (name_of dot) == 0 || namecmp (name_of name) (name_of dotdot) == 0
            then unlink_fails s₃ dp
            else unlink_in s₃ dp name)
    ]

  -- The new inode of `create`, from `ilock` on: `i` in the directory `dp`.
  unfoldable fill_new : Fs → ℕ → ℕ → List ℕ → ℕ → ℕ → ℕ → Run (Option ℕ × Fs)
  fill_new s dp i name type major minor = do
    s₁ ← lock_inode s i
    s₂ ←
        update_inode
          (with_entry s₁ i (record (entry s₁ i) { major = major; minor = minor; nlink = 1 })) i
    s₃ ←
        if type == t_dir
        then (do
          s₄ ← update_inode (with_entry s₂ dp (one_link_more (entry s₂ dp))) dp
          (one, s₅) ← link_in s₄ i dot (entry s₄ i).inum
          elim one [
            | none ↦ dead
            | some n ↦ (do
              (two, s₆) ← link_in s₅ i dotdot (entry s₅ dp).inum
              elim two [ none ↦ dead | some n' ↦ done s₆ ])
          ])
        else done s₂
    (linked, s₇) ← link_in s₃ dp name (entry s₃ i).inum
    elim linked [ none ↦ dead | some n ↦ unlock_put s₇ dp >>= λ s₈. done (some i, s₈) ]

  -- `create`: the entry of the inode, locked, or `none` for 0.
  unfoldable pub create : ℕ → List ℕ → ℕ → ℕ → ℕ → Fs → Run (Option ℕ × Fs)
  unfolding nameiparent dirlookup fill_new ialloc
  create cwd path type major minor s₀ = do
    (parent, name, s₁) ← arrived (nameiparent devsw s₀.disk s₀.icache cwd path [])
    elim parent [
      | none ↦ done (none, s₁)
      | some dp ↦ (do
        s₂ ← lock_inode s₁ dp
        (found, s₃) ← look_in s₂ dp name
        elim found [
          | some (off, i) ↦ (do
            s₄ ← unlock_put s₃ dp
            s₅ ← lock_inode s₄ i
            if type == t_file && (entry s₅ i).type == t_file
                then done (some i, s₅)
                else (unlock_put s₅ i >>= λ s₆. done (none, s₆)))
          | none ↦ (do
            (i, d, c) ← checked (ialloc s₃.disk s₃.icache (entry s₃ dp).dev type)
            fill_new (fs d c) dp i name type major minor)
        ])
    ]
