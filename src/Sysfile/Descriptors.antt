-- ===== src/Sysfile/Descriptors.antt =====
-- argfd, fdalloc and the calls of sysfile.c on open files. A pointer to the file of index `f` is
-- `f + 1`, so that 0 is the null pointer; `m` is the memory of the calling process `me`.
use mutex.Common.{
  ℕ, ◌+◌, ◌-◌, not, ◌||◌, Option, none, some, ltb, ◌==◌, if◌then◌else◌, update, first, minus_one,
}
use mutex.Cstring.{Memory}
use mutex.Kalloc.{Kmem, kalloc}
use mutex.Proc.{Proc, nofile}
use mutex.File.{
  fd_pipe, File, Ftable, filealloc, filedup, Close, closed, fileclose, fileread, Written, filewrite,
}
use mutex.Syscall.{argint, argptr}
use mutex.Sysfile.Run.{Run, done, dead, ◌>>=◌}

abbrev pub Ptable : Type 0
Ptable = ℕ → Proc

abbrev pub set_fd : Proc → ℕ → ℕ → Proc
set_fd p fd f = record p { ofile = update p.ofile fd f }

-- The descriptor and the index of its file.
unfoldable pub argfd : Memory → Proc → ℕ → Option (ℕ × ℕ)
unfolding argint
argfd m p n = elim (argint m p n) [
  | none ↦ none
  | some fd ↦ if not (ltb fd nofile) || p.ofile fd == 0 then none else some (fd, p.ofile fd - 1)
]

unfoldable pub fdalloc : Proc → ℕ → Option (ℕ × Proc)
unfolding first
fdalloc p f = elim (first (λ fd. p.ofile fd == 0) nofile) [
  | none ↦ none
  | some fd ↦ some (fd, set_fd p fd (f + 1))
]

-- The answer is a descriptor, or `none` for -1.
unfoldable pub sys_dup : Memory → Ptable → ℕ → Ftable → Run (Option ℕ × Ptable × Ftable)
unfolding argfd fdalloc filedup
sys_dup m t me ft = elim (argfd m (t me) 0) [
  | none ↦ done (none, t, ft)
  | some (old, f) ↦ elim (fdalloc (t me) f) [
    | none ↦ done (none, t, ft)
    | some (fd, p) ↦ elim (filedup ft f) [
      | none ↦ dead
      | some ft' ↦ done (some fd, update t me p, ft')
    ]
  ]
]

-- The answers of `sys_read` and `sys_write` are words. `piperead` and `readi` take the address too.
unfoldable sys_read :
    (piperead : ℕ → ℕ → ℕ → ℕ) (readi : ℕ → ℕ → ℕ → ℕ → ℕ)
    → Memory
    → Proc
    → Ftable
    → Run (ℕ × Ftable)
unfolding argfd argint argptr fileread
sys_read piperead readi m p ft = elim (argfd m p 0) [
  | none ↦ done (minus_one, ft)
  | some (fd, f) ↦ elim (argint m p 2) [
    | none ↦ done (minus_one, ft)
    | some n ↦ elim (argptr m p 1 n) [
      | none ↦ done (minus_one, ft)
      | some a ↦ elim (fileread (piperead a) (readi a) (ft f) n) [
        | none ↦ dead
        | some (r, file) ↦ done (r, update ft f file)
      ]
    ]
  ]
]

-- What `filewrite` does is in its result.
unfoldable sys_write :
    {I : Type 0} (pipewrite : ℕ → ℕ → ℕ → ℕ) (writei : ℕ → I → ℕ → ℕ → ℕ → ℕ × I)
    → Memory
    → Proc
    → Ftable
    → I
    → Option (ℕ × Written I)
unfolding argfd argint argptr filewrite
sys_write pipewrite writei m p ft st = elim (argfd m p 0) [
  | none ↦ none
  | some (fd, f) ↦ elim (argint m p 2) [
    | none ↦ none
    | some n ↦ elim (argptr m p 1 n) [
      | none ↦ none
      | some a ↦ some (f, filewrite (writei a) (pipewrite a) (ft f) n st)
    ]
  ]
]

-- `if(proc->type == 1) proc->parent->ofile[fd] = 0;`, where a null parent is a page fault.
abbrev clear_parent : Ptable → ℕ → ℕ → Run Ptable
clear_parent t me fd =
    if (t me).type == 1
    then elim (t me).parent [ none ↦ dead | some pa ↦ done (update t pa (set_fd (t pa) fd 0)) ]
    else done t

-- What is left to do is in the result of `fileclose`; without one the answer is -1.
unfoldable sys_close : Memory → Ptable → ℕ → Ftable → Run (Ptable × Option Close)
unfolding argfd fileclose
sys_close m t me ft = elim (argfd m (t me) 0) [
  | none ↦ done (t, none)
  | some (fd, f) ↦ clear_parent (update t me (set_fd (t me) fd 0)) me fd >>= λ t'.
      done (t', some (fileclose ft f 0))
]

-- `pipealloc` of pipe.c: the two files, or nothing, when `fileclose` gives back what was taken.
abbrev end_of_pipe : File → ℕ → ℕ → ℕ → File
end_of_pipe f readable writable page = record f {
  type = fd_pipe;
  readable = readable;
  writable = writable;
  pipe = page;
}

-- `if(*f0) fileclose(*f0, 0); if(*f1) fileclose(*f1, 0);`, of files of no type.
abbrev pub close_new : Ftable → ℕ → Run Ftable
close_new ft f = elim (fileclose ft f 0) [ closed ft' ↦ done ft' | _ ↦ dead ]

unfoldable pub pipealloc : Ftable → Kmem → Run (Option (ℕ × ℕ) × Ftable × Kmem)
unfolding filealloc fileclose kalloc
pipealloc ft km =
    let (r, ft₁) = filealloc ft in
    elim r [
      | none ↦ done (none, ft₁, km)
      | some rf ↦
          let (w, ft₂) = filealloc ft₁ in
          elim w [
            | none ↦ close_new ft₂ rf >>= λ ft₃. done (none, ft₃, km)
            | some wf ↦
                let (page, km') = kalloc km in
                if page == 0
                then (close_new ft₂ rf >>= λ ft₃. close_new ft₃ wf >>= λ ft₄. done (none, ft₄, km'))
                else (let ft₃ = update ft₂ rf (end_of_pipe (ft₂ rf) 1 0 page) in
                    done (some (rf, wf), update ft₃ wf (end_of_pipe (ft₃ wf) 0 1 page), km'))
          ]
    ]

-- How `sys_pipe` ends: with -1, having closed the files of `closing` one after the other; or with the
-- two descriptors, which go to the address.
pub data Piped : Type 0 where
  refused : Ptable → Ftable → Kmem → Piped
  abandoned : ℕ → ℕ → Ptable → Ftable → Kmem → Piped
  opened : ℕ → ℕ → ℕ → Ptable → Ftable → Kmem → Piped

unfoldable sys_pipe : Memory → Ptable → ℕ → Ftable → Kmem → Run Piped
unfolding argptr pipealloc fdalloc
sys_pipe m t me ft km = elim (argptr m (t me) 0 8) [
  | none ↦ done (refused t ft km)
  | some a ↦ pipealloc ft km >>= λ (ends, ft', km'). elim ends [
    | none ↦ done (refused t ft' km')
    | some (rf, wf) ↦ elim (fdalloc (t me) rf) [
      | none ↦ done (abandoned rf wf t ft' km')
      | some (fd0, p) ↦ elim (fdalloc p wf) [
        | none ↦ done (abandoned rf wf (update t me (set_fd p fd0 0)) ft' km')
        | some (fd1, p') ↦ done (opened a fd0 fd1 (update t me p') ft' km')
      ]
    ]
  ]
]
