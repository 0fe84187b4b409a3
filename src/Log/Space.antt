-- ===== src/Log/Space.antt =====
-- The space that `begin_op` reserves is enough for `log_write`, if the log has a block to spare.
use mutex.Common.{
  ℕ, suc, ◌+◌, ◌*◌, ◌≤◌, ◌<◌, ◌≡◌, ◌≢◌, refl, inl, inr, none, some, ◌==◌, if◌then◌else◌, arith,
  update, first, first-IsFirst, Option-cases,
}
use mutex.Log.Defs.{Block, Store, Log, logsize, maxopblocks, bread, begin_op, log_write}

-- The calls in progress may still write `left` blocks, at most 10 each, and there is room for them.
pub record IsReserved (lg : Log) (left : ℕ) : Type 0 where
  pub room : lg.n + left ≤ logsize
  pub share : left ≤ lg.outstanding * maxopblocks

-- When `begin_op` lets a call go on, the space for 10 more blocks is reserved.
pub begin_op-IsReserved :
    (lg lg' : Log) (left : ℕ)
    → IsReserved lg left
    → begin_op lg ≡ some lg'
    → IsReserved lg' (left + maxopblocks)
unfolding begin_op
begin_op-IsReserved lg lg' left v e = ground arith

pub log_write-found :
    (lg : Log) (st : Store) (sector : ℕ) (b : Block)
    → lg.n < logsize
    → lg.n + 1 < lg.size
    → 0 < lg.outstanding
    → (i : ℕ) × (lg' : Log) × (i < lg'.n)
      × (lg'.sector i ≡ sector)
      × (lg'.n ≤ lg.n + 1)
      × (lg'.outstanding ≡ lg.outstanding)
      × (lg'.size ≡ lg.size)
      × ((j : ℕ) → j < lg.n → lg'.sector j ≡ lg.sector j)
      × (log_write lg st sector b
          ≡ some (lg', record st { dirty = update st.dirty sector (some b) }))
unfolding log_write
log_write-found lg st sector b small fits busy =
    elim (Option-cases (first (λ i. lg.sector i == sector) lg.n)) [
      | inl e ↦ (
        lg.n,
        record lg { sector = update lg.sector lg.n sector; n = lg.n + 1 },
        omega arith,
        ground arith,
        omega arith,
        refl,
        refl,
        λ j lt. ground arith,
        ground arith,
      )
      | inr (i, e) ↦
          let f = first-IsFirst (λ i. lg.sector i == sector) lg.n i e in
          (
            i,
            record lg { sector = update lg.sector i sector },
            f.below,
            ground arith,
            omega arith,
            refl,
            refl,
            λ j lt. ground (arith, f.passes),
            ground arith,
          )
    ]

-- `log_write` by a call that has reserved space. If the log has a block more than its header and the
-- blocks recorded, it does not panic: it leaves the reservation of the other blocks, records the
-- sector, keeps the sectors recorded before, and pins the data in the cache: the block's buffer is
-- dirty and holds it, the buffers of other blocks are as before, dirty or not, and nothing goes to
-- the disk; so only the block's own data changes for `bread`. If the log has no such block, it panics, although the space was reserved.
pub log_write_lem :
    (lg : Log) (st : Store) (left sector : ℕ) (b : Block)
    → IsReserved lg (suc left)
    → (lg.n + 1 < lg.size
        → (i : ℕ) × (lg' : Log) × (st' : Store) × (log_write lg st sector b ≡ some (lg', st'))
          × IsReserved lg' left
          × (i < lg'.n)
          × (lg'.sector i ≡ sector)
          × ((j : ℕ) → j < lg.n → lg'.sector j ≡ lg.sector j)
          × (st'.dirty sector ≡ some b)
          × ((s : ℕ) → s ≢ sector → st'.dirty s ≡ st.dirty s)
          × (st'.disk ≡ st.disk)
          × (st'.power ≡ st.power)
          × ((s : ℕ) → bread st' s ≡ (if sector == s then b else bread st s)))
      × (lg.size ≤ lg.n + 1 → log_write lg st sector b ≡ none)
unfolding log_write bread
log_write_lem lg st left sector b v = (
  λ fits.
      let (i, lg', below, named, small, same, size, kept, e) =
        log_write-found lg st sector b (omega arith) fits (omega arith) in
      (
        i,
        lg',
        record st { dirty = update st.dirty sector (some b) },
        e,
        record { room = omega arith; share = omega arith },
        below,
        named,
        kept,
        ground arith,
        λ s ne. ground arith,
        refl,
        refl,
        λ s. ground arith,
      ),
  λ tight. ground arith,
)
