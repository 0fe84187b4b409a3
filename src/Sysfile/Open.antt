-- ===== src/Sysfile/Open.antt =====
-- sys_open, sys_mkdir, sys_mknod, sys_chdir, sys_fstat and the arguments of sys_exec, of sysfile.c.
-- Arguments that are fetched from the memory of the caller are `none` when that fails.
use mutex.Common.{
  ℕ, zero, suc, ◌+◌, ◌*◌, ◌/◌, ◌%◌, Bool, not, ◌&&◌, ◌||◌, Option, none, some, List, [], ◌∷◌, ◌==◌,
  if◌then◌else◌, update,
}
use mutex.Cstring.{Memory}
use mutex.Proc.{Proc}
use mutex.File.{fd_inode, File, Ftable, filealloc, fileclose}
use mutex.Fs.Disk.{Disk}
use mutex.Fs.Inode.{Inode}
use mutex.Fs.Content.{Reading, Writing, Stat, stati, t_dev}
use mutex.Fs.Dir.{t_dir}
use mutex.Fs.Namex.{namei}
use mutex.Syscall.{fetchint, fetchstr, argint, argptr, argstr}
use mutex.Sysfile.Run.{
  Run, done, ◌>>=◌, Fs, entry, begin_tx, end_tx, lock_inode, unlock_inode, put_inode, unlock_put,
  arrived,
}
use mutex.Sysfile.Descriptors.{argfd, fdalloc, close_new}
use mutex.Sysfile.Paths.{t_file, answer, create}

-- `filestat` of file.c: `none` is -1.
unfoldable filestat : File → Fs → Run (Option Stat × Fs)
unfolding stati
filestat f s = elim f.type [
  | fd_inode ↦ (do
    s₁ ← lock_inode s f.ip
    s₂ ← unlock_inode s₁ f.ip
    done (some (stati (entry s₁ f.ip)), s₂))
  | _ ↦ done (none, s)
]

-- `sizeof(struct stat)`
abbrev stat_size : ℕ
stat_size = 20

-- The status, with the address that it goes to.
unfoldable sys_fstat : Memory → Proc → Ftable → Fs → Run (Option (ℕ × Stat) × Fs)
unfolding argfd argptr filestat
sys_fstat m p ft s = elim (argfd m p 0) [
  | none ↦ done (none, s)
  | some (fd, f) ↦ elim (argptr m p 1 stat_size) [
    | none ↦ done (none, s)
    | some a ↦ filestat (ft f) s >>= λ (st, s'). elim st [
      | none ↦ done (none, s')
      | some x ↦ done (some (a, x), s')
    ]
  ]
]

-- The flags of fcntl.h.
abbrev o_rdonly : ℕ
o_rdonly = 0

abbrev wants_write : ℕ → Bool
wants_write omode = not (omode % 2 == 0)

abbrev wants_both : ℕ → Bool
wants_both omode = not (omode / 2 % 2 == 0)

abbrev wants_create : ℕ → Bool
wants_create omode = not (omode / 512 % 2 == 0)

abbrev pub flag : Bool → ℕ
flag b = if b then 1 else 0

-- The assignments at the end of `sys_open`.
abbrev opened_file : File → ℕ → ℕ → File
opened_file f i omode = record f {
  type = fd_inode;
  ip = i;
  off = 0;
  readable = flag (not (wants_write omode));
  writable = flag (wants_write omode || wants_both omode);
}

-- What a call leaves of the process, the open files and the file system.
pub record Io : Type 0 where
  pub proc : Proc
  pub files : Ftable
  pub fs : Fs

abbrev io : Proc → Ftable → Fs → Io
io p ft s = record { proc = p; files = ft; fs = s }

-- The file and the descriptor, if there are both. A file without a descriptor is closed again.
unfoldable pub new_file : Proc → Ftable → Run (Option (ℕ × ℕ × Proc) × Ftable)
unfolding filealloc fdalloc fileclose
new_file p ft =
    let (f, ft₁) = filealloc ft in
    elim f [
      | none ↦ done (none, ft₁)
      | some g ↦ elim (fdalloc p g) [
        | none ↦ close_new ft₁ g >>= λ ft₂. done (none, ft₂)
        | some (fd, p') ↦ done (some (g, fd, p'), ft₁)
      ]
    ]

-- `sys_open` from the locked inode of entry `i` on.
unfoldable open_inode : Proc → Ftable → ℕ → ℕ → Fs → Run (Option ℕ × Io)
unfolding new_file
open_inode p ft omode i s = do
  (new, ft') ← new_file p ft
  elim new [
    | none ↦ (do s₁ ← unlock_put s i; s₂ ← end_tx s₁; done (none, io p ft' s₂))
    | some (g, fd, p') ↦ (do
      s₁ ← unlock_inode s i
      s₂ ← end_tx s₁
      done (some fd, io p' (update ft' g (opened_file (ft' g) i omode)) s₂))
  ]

module _ (devsw : ℕ → Option (Disk → Inode → ℕ → Reading))
    (dev_write : ℕ → Option (Disk → Inode → Memory → ℕ → Writing)) where
  -- The inode to open, locked, unless the call fails.
  unfoldable find_inode : ℕ → List ℕ → ℕ → Fs → Run (Option ℕ × Fs)
  unfolding create namei
  find_inode cwd path omode s =
      if wants_create omode then create devsw dev_write cwd path t_file 0 0 s else (do
        (found, name, s₁) ← arrived (namei devsw s.disk s.icache cwd path)
        elim found [
          | none ↦ done (none, s₁)
          | some i ↦ (do
            s₂ ← lock_inode s₁ i
            if (entry s₂ i).type == t_dir && not (omode == o_rdonly)
                then (unlock_put s₂ i >>= λ s₃. done (none, s₃))
                else done (some i, s₂))
        ])

  unfoldable pub sys_open : Option (List ℕ) → Option ℕ → Proc → Ftable → Fs → Run (Option ℕ × Io)
  unfolding find_inode open_inode
  sys_open none omode p ft s = done (none, io p ft s)
  sys_open (some path) none p ft s = done (none, io p ft s)
  sys_open (some path) (some omode) p ft s = do
    s₁ ← begin_tx s
    (found, s₂) ← find_inode p.cwd path omode s₁
    elim found [
      | none ↦ end_tx s₂ >>= λ s₃. done (none, io p ft s₃)
      | some i ↦ open_inode p ft omode i s₂
    ]

  -- `if((ip = create(...)) == 0)` and what follows, of `sys_mkdir` and `sys_mknod`.
  unfoldable make_node : ℕ → List ℕ → ℕ → ℕ → ℕ → Fs → Run (Option ℕ × Fs)
  unfolding create
  make_node cwd path type major minor s = do
    (made, s₁) ← create devsw dev_write cwd path type major minor s
    elim made [ none ↦ answer none s₁ | some i ↦ unlock_put s₁ i >>= λ s₂. answer (some 0) s₂ ]

  unfoldable sys_mkdir : ℕ → Option (List ℕ) → Fs → Run (Option ℕ × Fs)
  unfolding make_node
  sys_mkdir cwd path s = do
    s₁ ← begin_tx s
    elim path [ none ↦ answer none s₁ | some q ↦ make_node cwd q t_dir 0 0 s₁ ]

  -- The device numbers are taken as a `short`.
  unfoldable sys_mknod : ℕ → Option (List ℕ) → Option ℕ → Option ℕ → Fs → Run (Option ℕ × Fs)
  unfolding make_node
  sys_mknod cwd path major minor s = do
    s₁ ← begin_tx s
    elim path [
      | none ↦ answer none s₁
      | some q ↦ elim major [
        | none ↦ answer none s₁
        | some a ↦ elim minor [
          | none ↦ answer none s₁
          | some b ↦ make_node cwd q t_dev (a % 65536) (b % 65536) s₁
        ]
      ]
    ]

  -- The answer, and the process.
  unfoldable sys_chdir : Option (List ℕ) → Proc → Fs → Run (Option ℕ × Proc × Fs)
  unfolding namei
  sys_chdir path p s = do
    s₁ ← begin_tx s
    elim path [
      | none ↦ end_tx s₁ >>= λ s₂. done (none, p, s₂)
      | some q ↦ (do
        (found, name, s₂) ← arrived (namei devsw s₁.disk s₁.icache p.cwd q)
        elim found [
          | none ↦ end_tx s₂ >>= λ s₃. done (none, p, s₃)
          | some i ↦ (do
            s₃ ← lock_inode s₂ i
            if not ((entry s₃ i).type == t_dir)
                then (unlock_put s₃ i >>= λ s₄. end_tx s₄ >>= λ s₅. done (none, p, s₅))
                else (do
                  s₄ ← unlock_inode s₃ i
                  s₅ ← put_inode s₄ p.cwd
                  s₆ ← end_tx s₅
                  done (some 0, record p { cwd = i }, s₆)))
        ])
    ]

abbrev pub maxarg : ℕ
maxarg = 32

-- The loop of `sys_exec` over the words from `uargv + 4*i` on, `n` rounds before `i` is `NELEM(argv)`:
-- the addresses of the arguments, or `none` for -1.
unfoldable pub exec_args : Memory → Proc → ℕ → ℕ → ℕ → Option (List ℕ)
unfolding fetchint fetchstr
exec_args m p uargv zero i = none
exec_args m p uargv (suc n) i =
    let rest = exec_args m p uargv n (i + 1) in
    elim (fetchint m p ((uargv + 4 * i) % 0x1_0000_0000)) [
      | none ↦ none
      | some uarg ↦ if uarg == 0 then some [] else elim (fetchstr m p uarg) [
        | none ↦ none
        | some len ↦ elim rest [ none ↦ none | some us ↦ some (uarg ∷ us) ]
      ]
    ]

-- `sys_exec`, where `exec` has the address of the path and those of the arguments; `none` is -1.
unfoldable pub sys_exec {ℓ} : {A : Type ℓ} → (ℕ → List ℕ → A) → Memory → Proc → Option A
unfolding argstr argint exec_args
sys_exec exec m p = elim (argstr m p 0) [
  | none ↦ none
  | some (path, len) ↦ elim (argint m p 1) [
    | none ↦ none
    | some uargv ↦ elim (exec_args m p uargv maxarg 0) [
      | none ↦ none
      | some us ↦ some (exec path us)
    ]
  ]
]
