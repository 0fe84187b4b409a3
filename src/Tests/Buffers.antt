-- ===== src/Tests/Buffers.antt =====
-- Buffers.
use mutex.Common.{ℕ, ◌∷◌, ◌<◌, ◌≡◌, ◌⊎◌, inl, refl, true, false, some, update, arith}
use mutex.Bio.{
  Buf, Bcache, binit, last_in, unlink, gets, sleeps_on, no_buffers, holds_sector, is_spare, bget,
  brelse,
}
use mutex.Bio.Laws.{IsCache, Got, bget_lem, binit-IsCache, update-IsCache}
use mutex.Bio.Release.{bget-brelse}

bget_example :
    ((i : ℕ) × (bc' : Bcache) × (bget binit 1 5 ≡ gets i bc') × Got binit 1 5 i bc' × IsCache bc')
    ⊎ ((i : ℕ) × (bget binit 1 5 ≡ sleeps_on i)
        × (i < 30)
        × (holds_sector binit 1 5 i ≡ true)
        × ((binit.buf i).busy ≡ true))
    ⊎ ((bget binit 1 5 ≡ no_buffers)
        × ((i : ℕ) → i < 30 → (holds_sector binit 1 5 i ≡ false) × (is_spare binit i ≡ false)))
bget_example = bget_lem binit 1 5 binit-IsCache (omega arith)

abbrev sector_5 : Buf
sector_5 = record { dev = 1; sector = 5; busy = true; valid = true; dirty = false }

-- Buffer 3 is in use for sector 5.
abbrev some_cache : Bcache
some_cache = record binit { buf = update binit.buf 3 sector_5 }

some_cache-IsCache : IsCache some_cache
unfolding binit
some_cache-IsCache = update-IsCache binit 3 sector_5 binit-IsCache (λ j lj ne. inl (omega arith))

bget-brelse_example :
    (bc' : Bcache) × (brelse some_cache 3 ≡ some bc')
    × IsCache bc'
    × (bc'.order ≡ 3 ∷ unlink 3 some_cache.order)
    × (bget bc' 1 5
        ≡ gets 3 (record bc' { buf = update bc'.buf 3 (record (bc'.buf 3) { busy = true }) }))
    × ((k : ℕ)
        → last_in (is_spare bc') (unlink 3 some_cache.order) ≡ some k
        → last_in (is_spare bc') bc'.order ≡ some k)
bget-brelse_example = bget-brelse some_cache 3 some_cache-IsCache (omega arith) refl (omega arith)
