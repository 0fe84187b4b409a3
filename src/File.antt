-- ===== src/File.antt =====
-- file.c: the table of open files and their reference counts, and the dispatch of reads and writes.
-- A pointer to a file is its index in `ftable.file`, and a count `n` is not negative.
-- What pipes and inodes do is a parameter.
pub mod Laws
use mutex.Common.{
  ℕ, zero, suc, ◌+◌, ◌-◌, ◌*◌, ◌/◌, ◌%◌, Bool, true, false, not, ◌&&◌, ◌||◌, Option, none, some,
  ltb, ◌==◌, if◌then◌else◌, update, first, minus_one, is_positive,
}

abbrev pub nfile : ℕ
nfile = 100

pub data FileType : Type 0 where
  fd_none fd_pipe fd_inode : FileType

pub record File : Type 0 where
  pub type : FileType
  pub ref : ℕ
  pub readable : ℕ
  pub writable : ℕ
  pub pipe : ℕ
  pub ip : ℕ
  pub off : ℕ

abbrev pub Ftable : Type 0
Ftable = ℕ → File

abbrev pub set_ref : Ftable → ℕ → ℕ → Ftable
set_ref t f n = update t f (record (t f) { ref = n })

unfoldable pub filealloc : Ftable → Option ℕ × Ftable
unfolding first
filealloc t = elim (first (λ f. (t f).ref == 0) nfile) [
  | none ↦ (none, t)
  | some f ↦ (some f, set_ref t f 1)
]

-- `none` is the panic.
unfoldable pub filedup : Ftable → ℕ → Option Ftable
filedup t f =
    if not (is_positive (t f).ref)
    then none
    else some (set_ref t f (((t f).ref + 1) % 0x1_0000_0000))

-- What is left to do for `fileclose`: nothing; to close an end of a pipe; to give up an inode; and
-- the panic.
pub data Close : Type 0 where
  closed : Ftable → Close
  closes_pipe : ℕ → ℕ → Ftable → Close
  puts_inode : ℕ → Ftable → Close
  panics : Close

abbrev pub last_close : File → Ftable → Close
last_close ff t = elim ff.type [
  | fd_none ↦ closed t
  | fd_pipe ↦ closes_pipe ff.pipe ff.writable t
  | fd_inode ↦ puts_inode ff.ip t
]

-- `really` is the argument `true`.
unfoldable pub fileclose : Ftable → ℕ → ℕ → Close
fileclose t f really =
    if not (really == 0) && (t f).ref == 0
    then closed t
    else if not (is_positive (t f).ref)
    then panics
    else if ltb 1 (t f).ref
    then closed (set_ref t f ((t f).ref - 1))
    else last_close (t f) (update t f (record (t f) { ref = 0; type = fd_none }))

-- `readi ip off n` is the count that `readi` answers, `piperead pipe n` what `piperead` does.
unfoldable pub fileread :
    (piperead : ℕ → ℕ → ℕ) (readi : ℕ → ℕ → ℕ → ℕ) → File → ℕ → Option (ℕ × File)
fileread piperead readi f n = if f.readable == 0 then some (minus_one, f) else elim f.type [
  | fd_none ↦ none
  | fd_pipe ↦ some (piperead f.pipe n, f)
  | fd_inode ↦
      let r = readi f.ip f.off n in
      some (r, if is_positive r then record f { off = (f.off + r) % 0x1_0000_0000 } else f)
]

-- `((LOGSIZE-1-1-2) / 2) * 512`
abbrev pub max_write : ℕ
max_write = 6656

-- How a call of `filewrite` ends: an answer, the new offset and what the inodes are; a panic; or the
-- fuel was too little.
pub data Written (I : Type 0) : Type 0 where
  wrote : ℕ → ℕ → I → Written I
  short : Written I
  unfinished : Written I

-- `writei st i off n1` is one transaction, from `begin_op` to `end_op`: `writei` of `n1` bytes from
-- `addr + i` at offset `off`.
module _ {I : Type 0} (writei : I → ℕ → ℕ → ℕ → ℕ × I) where
  abbrev pub chunk : ℕ → ℕ → ℕ
  chunk n i = if ltb max_write (n - i) then max_write else n - i

  unfoldable pub write_chunks : ℕ → ℕ → ℕ → ℕ → I → Written I
  write_chunks zero n i off st =
      if ltb i n then unfinished else wrote (if i == n then n else minus_one) off st
  write_chunks (suc fuel) n i off st =
      let (r, st') = writei st i off (chunk n i) in
      let off' = if is_positive r then (off + r) % 0x1_0000_0000 else off in
      let rest = write_chunks fuel n (i + r) off' st' in
      if ltb i n
      then if not (ltb r 0x8000_0000)
        then wrote (if i == n then n else minus_one) off' st'
        else if not (r == chunk n i)
        then short
        else rest
      else wrote (if i == n then n else minus_one) off st

  -- The part of `filewrite` for an inode. Each round writes at least one byte.
  unfoldable pub filewrite_inode : File → ℕ → I → Written I
  unfolding write_chunks
  filewrite_inode f n st = write_chunks n n 0 f.off st

  unfoldable pub filewrite : (pipewrite : ℕ → ℕ → ℕ) → File → ℕ → I → Written I
  unfolding filewrite_inode
  filewrite pipewrite f n st = if f.writable == 0 then wrote minus_one f.off st else elim f.type [
    | fd_none ↦ short
    | fd_pipe ↦ wrote (pipewrite f.pipe n) f.off st
    | fd_inode ↦ filewrite_inode f n st
  ]
