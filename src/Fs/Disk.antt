-- ===== src/Fs/Disk.antt =====
-- What fs.c does with blocks: `bread` of the buffer cache, and a change of the data that `log_write`
-- records. The device is always the one that the log is on.
use mutex.Common.{
  ℕ, suc, ◌+◌, ◌≤◌, ◌<◌, ◌≡◌, refl, Option, none, some, ◌==◌, if◌then◌else◌, arith, update,
}
use mutex.Log.{Block, Store, Log, logsize, bread, log_write}
use mutex.Log.Space.{log_write-found}

pub record Disk : Type 0 where
  pub log : Log
  pub store : Store

unfoldable pub read : Disk → ℕ → Block
read d b = bread d.store b

-- The data of block `b` becomes `x`; `none` is a panic.
unfoldable pub write : Disk → ℕ → Block → Option Disk
write d b x = elim (log_write d.log d.store b x) [
  | none ↦ none
  | some (lg, st) ↦ some (record { log = lg; store = st })
]

-- In a transaction with room for `n` more blocks.
pub record HasRoom (d : Disk) (n : ℕ) : Type 0 where
  pub in_header : d.log.n + n ≤ logsize
  pub on_disk : d.log.n + n < d.log.size
  pub started : 0 < d.log.outstanding

pub HasRoom-weaken : (d : Disk) (m n : ℕ) → m ≤ n → HasRoom d n → HasRoom d m
HasRoom-weaken d m n le h = record {
  in_header = omega arith;
  on_disk = omega arith;
  started = h.started;
}

-- With room a write succeeds, and reads see it.
pub write_lem :
    (d : Disk) (n b : ℕ) (x : Block)
    → HasRoom d (suc n)
    → (d' : Disk) × (write d b x ≡ some d')
      × HasRoom d' n
      × ((c : ℕ) → read d' c ≡ (if b == c then x else read d c))
unfolding write read bread
write_lem d n b x h =
    let (i, lg, below, named, small, same, size, kept, e) =
      log_write-found d.log d.store b x (omega arith) (omega arith) (omega arith) in
    (
      record { log = lg; store = record d.store { dirty = update d.store.dirty b (some x) } },
      rw (e, write) refl,
      record { in_header = omega arith; on_disk = omega arith; started = omega arith },
      λ c. ground arith,
    )
