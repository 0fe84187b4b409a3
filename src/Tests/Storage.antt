-- ===== src/Tests/Storage.antt =====
-- Pipes, the log, and memory.
use mutex.Common.{
  ℕ, ◌≡◌, ◌≢◌, ◌⊎◌, ◌<◌, refl, inl, none, some, ◌==◌, ltb, if◌then◌else◌, List, [], ◌∷◌, update,
  arith,
}
use mutex.Proc.{of_object}
use mutex.Proc.Sched.{wakeup, sleep_begin}
use mutex.Pipe.{Pipe, pipewrite, read, killed, waits, piperead}
use mutex.Pipe.Fifo.{Holds, Wrote, Ends, pipewrite_lem, piperead_lem}
use mutex.Log.{Store, Log, bread, recover_from_log, commit, log_write}
use mutex.Log.Recover.{IsReady, rebooted}
use mutex.Log.Atomic.{AllOrNothing, commit-recover}
use mutex.Log.Space.{IsReserved, log_write_lem}
use mutex.Cstring.{Memory}
use mutex.Cstring.Blocks.{AreBytes}
use mutex.Tests.Data.{kernel}

abbrev some_pipe : Pipe
some_pipe = record { bytes = λ i. i; nread = 3; nwrite = 5; readopen = 1; writeopen = 1 }

some_pipe-Holds : Holds some_pipe (3 ∷ 4 ∷ [])
some_pipe-Holds = record {
  counter = omega arith;
  fits = omega arith;
  counted = refl;
  stored = (refl, (refl, tt));
}

pipewrite_example :
    (done rest : List ℕ) × (p' : Pipe) × Wrote some_pipe (3 ∷ 4 ∷ []) (8 ∷ 9 ∷ []) done rest p'
    × Ends
        (of_object 1)
        (of_object 2)
        kernel
        1
        rest
        p'
        (pipewrite (of_object 1) (of_object 2) some_pipe kernel 1 (8 ∷ 9 ∷ []))
pipewrite_example =
    pipewrite_lem (of_object 1) (of_object 2) kernel 1 some_pipe (3 ∷ 4 ∷ []) (8 ∷ 9 ∷ [])
      some_pipe-Holds

piperead_example :
    ((◌≡◌ {A = List ℕ} (3 ∷ 4 ∷ []) [])
      × (some_pipe.writeopen ≢ 0)
      × (piperead (of_object 1) (of_object 2) some_pipe kernel 1 1 ≡ (
          if (kernel.table 1).killed == 0
          then waits (sleep_begin (of_object 1) kernel 1)
          else killed)))
    ⊎ ((¬ (◌≡◌ {A = List ℕ} (3 ∷ 4 ∷ []) []) ⊎ (some_pipe.writeopen ≡ 0))
        × (p' : Pipe) × Holds p' (4 ∷ [])
        × (piperead (of_object 1) (of_object 2) some_pipe kernel 1 1
            ≡ read (3 ∷ []) p' (wakeup (of_object 2) kernel)))
piperead_example =
    piperead_lem (of_object 1) (of_object 2) some_pipe kernel 1 1 (3 ∷ 4 ∷ []) some_pipe-Holds

-- A log of 30 blocks from block 1000 on, with blocks 20 and 30 recorded.
abbrev some_log : Log
some_log = record {
  start = 1000;
  size = 30;
  outstanding = 1;
  committing = 0;
  n = 2;
  sector = λ i. if i == 0 then 20 else 30;
}

-- The power fails after three block writes: the header is on the disk.
abbrev some_store : Store
some_store = record {
  disk = λ _ _. 0;
  dirty = update (update (λ _. none) 20 (some (λ _. 5))) 30 (some (λ _. 6));
  power = 3;
}

some_log-IsReady : IsReady some_log some_store
some_log-IsReady = record {
  room = omega arith;
  distinct = λ i j a b e. ground arith;
  home = λ i a. inl (ground arith);
  clean = λ s h. ground (arith, h 0, h 1);
  empty = refl;
}

long_store-IsReady : IsReady some_log (record some_store { power = 100 })
long_store-IsReady = record {
  room = omega arith;
  distinct = λ i j a b e. ground arith;
  home = λ i a. inl (ground arith);
  clean = λ s h. ground (arith, h 0, h 1);
  empty = refl;
}

commit-recover_example :
    AllOrNothing some_log some_store
      (recover_from_log some_log (rebooted (commit some_log some_store).1.disk 10)).1.disk
commit-recover_example =
    commit-recover some_log some_store some_log 10 some_log-IsReady refl (omega arith)

some_log-IsReserved : IsReserved some_log 10
some_log-IsReserved = record { room = omega arith; share = omega arith }

log_write_example :
    (i : ℕ) × (lg' : Log) × (st' : Store) × (log_write some_log some_store 40 (λ _. 9)
      ≡ some (lg', st'))
    × IsReserved lg' 9
    × (i < lg'.n)
    × (lg'.sector i ≡ 40)
    × ((j : ℕ) → j < 2 → lg'.sector j ≡ some_log.sector j)
    × (st'.dirty 40 ≡ some (λ _. 9))
    × ((s : ℕ) → s ≢ 40 → st'.dirty s ≡ some_store.dirty s)
    × (st'.disk ≡ some_store.disk)
    × (st'.power ≡ some_store.power)
    × ((s : ℕ) → bread st' s ≡ (if 40 == s then (λ _. 9) else bread some_store s))
log_write_example =
    (log_write_lem some_log some_store 9 40 (λ _. 9) some_log-IsReserved).0 (omega arith)

abbrev some_memory : Memory
some_memory a = if ltb a 256 then a else 0

some_memory-AreBytes : AreBytes some_memory
some_memory-AreBytes a = ground arith
