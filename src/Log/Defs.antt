-- ===== src/Log/Defs.antt =====
-- The log over a disk and a buffer cache. A block is its 128 words. A buffer that is not dirty holds
-- what the disk holds and is left out. `power` is the number of block writes that still reach the
-- disk: with 0 left every further write is lost, which is a crash.
use mutex.Common.{
  ℕ, zero, suc, ◌+◌, ◌-◌, ◌*◌, ◌%◌, Bool, true, false, not, ◌||◌, Option, none, some, ltb, leb,
  ◌==◌, if◌then◌else◌, update, first,
}

abbrev pub maxopblocks : ℕ
maxopblocks = 10

abbrev pub logsize : ℕ
logsize = 30

abbrev pub Block : Type 0
Block = ℕ → ℕ

pub record Store : Type 0 where
  pub disk : ℕ → Block
  pub dirty : ℕ → Option Block
  pub power : ℕ

-- `struct log`; `n` and `sector` are its header `lh`.
pub record Log : Type 0 where
  pub start : ℕ
  pub size : ℕ
  pub outstanding : ℕ
  pub committing : ℕ
  pub n : ℕ
  pub sector : ℕ → ℕ

-- The data of the buffer that `bread` returns.
unfoldable pub bread : Store → ℕ → Block
bread st s = elim (st.dirty s) [ none ↦ st.disk s | some b ↦ b ]

-- What `bwrite` does behind its check that the buffer is busy, with the data `b`: the buffer is clean
-- after it. Each caller has the buffer from `bread` and not yet released it, so the check passes; it
-- is in `bwrite` of Bio, which has the flags of the buffers.
unfoldable pub bwrite : Store → ℕ → Block → Store
bwrite st s b = record st {
  disk = if st.power == 0 then st.disk else update st.disk s b;
  dirty = update st.dirty s none;
  power = st.power - 1;
}

-- `rounds` rounds from `tail` on of: read block `src tail`, copy it to block `dst tail`, write that.
unfoldable pub copy_blocks : (ℕ → ℕ) → (ℕ → ℕ) → ℕ → ℕ → Store → Store
copy_blocks dst src zero tail st = st
copy_blocks dst src (suc rounds) tail st =
    copy_blocks dst src rounds (tail + 1) (bwrite st (dst tail) (bread st (src tail)))

abbrev pub log_block : Log → ℕ → ℕ
log_block lg tail = lg.start + tail + 1

unfoldable pub write_log : Log → Store → Store
write_log lg st = copy_blocks (log_block lg) lg.sector lg.n 0 st

unfoldable pub install_trans : Log → Store → Store
install_trans lg st = copy_blocks lg.sector (log_block lg) lg.n 0 st

-- The header block: word 0 is `n`, the words behind it the sectors; the rest stays.
abbrev pub head_block : Log → Block → Block
head_block lg b w = if w == 0 then lg.n else if leb w lg.n then lg.sector (w - 1) else b w

unfoldable pub write_head : Log → Store → Store
write_head lg st = bwrite st lg.start (head_block lg (bread st lg.start))

unfoldable pub read_head : Log → Store → Log
read_head lg st = record lg {
  n = bread st lg.start 0;
  sector = λ i. if ltb i (bread st lg.start 0) then bread st lg.start (i + 1) else lg.sector i;
}

unfoldable pub recover_from_log : Log → Store → Log × Store
recover_from_log lg st =
    let lg' = read_head lg st in
    let cleared = record lg' { n = 0 } in (cleared, write_head cleared (install_trans lg' st))

-- `initlog`, with the superblock's `size` and `nlog`.
unfoldable pub initlog : ℕ → ℕ → Log → Store → Log × Store
unfolding recover_from_log
initlog size nlog lg st = recover_from_log (record lg { start = size - nlog; size = nlog }) st

unfoldable pub commit : Log → Store → Log × Store
commit lg st =
    if lg.n == 0
    then (lg, st)
    else let cleared = record lg { n = 0 } in
      (cleared, write_head cleared (install_trans lg (write_head lg (write_log lg st))))

-- `begin_op`: the call goes on, or sleeps and tries again.
unfoldable pub begin_op : Log → Option Log
begin_op lg =
    if not (lg.committing == 0)
    then none
    else if ltb logsize (lg.n + (lg.outstanding + 1) * maxopblocks)
    then none
    else some (record lg { outstanding = lg.outstanding + 1 })

-- `end_op` up to `commit`: whether this call commits, and the log; `none` is the panic.
unfoldable pub end_op : Log → Option (Bool × Log)
end_op lg =
    if not (lg.committing == 0)
    then none
    else if (lg.outstanding + 0xffff_ffff) % 0x1_0000_0000 == 0
    then some (true, record lg { outstanding = 0; committing = 1 })
    else some (false, record lg { outstanding = (lg.outstanding + 0xffff_ffff) % 0x1_0000_0000 })

-- `end_op` behind `commit`.
unfoldable pub end_commit : Log → Log
end_commit lg = record lg { committing = 0 }

-- `log_write` of the buffer of `sector` with the data `b`; `none` is a panic.
unfoldable pub log_write : Log → Store → ℕ → Block → Option (Log × Store)
unfolding first
log_write lg st sector b =
    if leb logsize lg.n || leb (lg.size - 1) lg.n
    then none
    else if ltb lg.outstanding 1
    then none
    else let st' = record st { dirty = update st.dirty sector (some b) } in
      elim (first (λ i. lg.sector i == sector) lg.n) [
        | some i ↦ some (record lg { sector = update lg.sector i sector }, st')
        | none ↦ some (record lg { sector = update lg.sector lg.n sector; n = lg.n + 1 }, st')
      ]
