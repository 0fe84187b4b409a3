-- ===== src/Sysfile/Run.antt =====
-- How the calls of sysfile.c use the file system: one transaction over the disk and the inode cache,
-- in which a call may come to wait for the log or for an inode that another process has locked.
use mutex.Common.{ℕ, Option, none, some, true, false, List, update}
use mutex.Log.{begin_op, end_op, end_commit, commit}
use mutex.Fs.Disk.{Disk}
use mutex.Fs.Inode.{
  Inode, Icache, ilock, sleeps, locked, panics, iunlock, iput, iunlockput, iupdate,
}
use mutex.Fs.Namex.{Arrival, ends, stops, waits}

-- A call came to its end, it panicked, or it waits.
pub data Run {ℓ} (A : Type ℓ) : Type ℓ where
  done : A → Run A
  dead : Run A
  asleep : Run A

infixl 5 ◌>>=◌
abbrev pub ◌>>=◌ {ℓ κ} : {A : Type ℓ} {B : Type κ} → Run A → (A → Run B) → Run B
done a >>= f = f a
dead >>= f = dead
asleep >>= f = asleep

-- Where `none` is a panic.
abbrev pub checked {ℓ} : {A : Type ℓ} → Option A → Run A
checked none = dead
checked (some a) = done a

pub record Fs : Type 0 where
  pub disk : Disk
  pub icache : Icache

abbrev pub fs : Disk → Icache → Fs
fs d c = record { disk = d; icache = c }

abbrev pub entry : Fs → ℕ → Inode
entry s i = s.icache i

-- The inode of entry `i`, changed by the process that has it locked.
abbrev pub with_entry : Fs → ℕ → Inode → Fs
with_entry s i ip = fs s.disk (update s.icache i ip)

abbrev pub begin_tx : Fs → Run Fs
begin_tx s = elim (begin_op s.disk.log) [
  | none ↦ asleep
  | some lg ↦ done (fs (record s.disk { log = lg }) s.icache)
]

-- `end_op`, with the commit of the last call in the transaction.
abbrev pub end_tx : Fs → Run Fs
end_tx s = elim (end_op s.disk.log) [
  | none ↦ dead
  | some (false, lg) ↦ done (fs (record s.disk { log = lg }) s.icache)
  | some (true, lg) ↦
      let (lg', st) = commit lg s.disk.store in
      done (fs (record { log = end_commit lg'; store = st }) s.icache)
]

abbrev pub lock_inode : Fs → ℕ → Run Fs
lock_inode s i = elim (ilock s.disk s.icache i) [
  | panics ↦ dead
  | sleeps ↦ asleep
  | locked c ↦ done (fs s.disk c)
]

abbrev pub unlock_inode : Fs → ℕ → Run Fs
unlock_inode s i = elim (iunlock s.icache i) [ none ↦ dead | some c ↦ done (fs s.disk c) ]

abbrev pub put_inode : Fs → ℕ → Run Fs
put_inode s i = elim (iput s.disk s.icache i) [ none ↦ dead | some (d, c) ↦ done (fs d c) ]

abbrev pub unlock_put : Fs → ℕ → Run Fs
unlock_put s i = elim (iunlockput s.disk s.icache i) [ none ↦ dead | some (d, c) ↦ done (fs d c) ]

abbrev pub update_inode : Fs → ℕ → Run Fs
update_inode s i = elim (iupdate s.disk (s.icache i)) [
  | none ↦ dead
  | some d ↦ done (fs d s.icache)
]

-- The end of a walk along a path: the entry of the inode, if there is one, and `name`.
abbrev pub arrived : Arrival → Run (Option ℕ × List ℕ × Fs)
arrived (ends i name d c) = done (i, name, fs d c)
arrived stops = dead
arrived waits = asleep
