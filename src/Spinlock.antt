-- ===== src/Spinlock.antt =====
-- spinlock.c and struct spinlock, struct cpu: the per-CPU interrupt nesting and the test-and-set
-- lock. A panic is `none` or the outcome `panic`. `memory` is the machine's word memory, which the
-- call-stack walk reads.
pub mod Laws
pub mod Race
use mutex.Common.{
  ℕ, zero, suc, ◌+◌, ◌-◌, ◌%◌, ◌≡◌, Bool, true, false, not, ◌&&◌, ◌||◌, Option, none, some, List,
  [], ◌∷◌, ltb, ◌==◌, if◌then◌else◌, replicate, set,
}

-- `struct spinlock`; `cpu` is the index of the holding CPU, `none` for the null pointer.
pub record Spinlock : Type 0 where
  pub locked : ℕ
  pub name : ℕ
  pub cpu : Option ℕ
  pub pcs : List ℕ
  pub id : ℕ

-- The fields of `struct cpu` that spinlock.c uses, with the interrupt flag of its `eflags`.
pub record Cpu : Type 0 where
  pub index : ℕ
  pub ncli : ℕ
  pub intena : Bool
  pub interrupts : Bool

abbrev pub kernbase : ℕ
kernbase = 0x8000_0000

unfoldable pub initlock : Spinlock → ℕ → Spinlock
initlock lk name = record lk { name = name; locked = 0; cpu = none }

unfoldable pub pushcli : Cpu → Cpu
pushcli c = record c {
  interrupts = false;
  ncli = c.ncli + 1;
  intena = if c.ncli == 0 then c.interrupts else c.intena;
}

unfoldable pub popcli : Cpu → Option Cpu
popcli c =
    if c.interrupts
    then none
    else if c.ncli == 0
    then none
    else some (record c { ncli = c.ncli - 1; interrupts = c.ncli - 1 == 0 && c.intena })

abbrev pub same_cpu : Option ℕ → ℕ → Bool
same_cpu none i = false
same_cpu (some j) i = j == i

unfoldable pub holding : Spinlock → Cpu → Bool
holding lk c = not (lk.locked == 0) && same_cpu lk.cpu c.index

-- `rounds` entries of `pcs[]`, from the frame at `ebp` on.
unfoldable pub call_stack : (ℕ → ℕ) → ℕ → ℕ → List ℕ
call_stack memory zero ebp = []
call_stack memory (suc rounds) ebp =
    if ebp == 0 || ltb ebp kernbase || ebp == 0xffff_ffff
    then replicate (suc rounds) 0
    else memory ((ebp + 4) % 0x1_0000_0000) ∷ call_stack memory rounds (memory ebp)

unfoldable pub getcallerpcs : (ℕ → ℕ) → ℕ → List ℕ
unfolding call_stack
getcallerpcs memory v = call_stack memory 10 ((v + 0x1_0000_0000 - 8) % 0x1_0000_0000)

-- One pass of `acquire`: the lock is taken, or another round of the `xchg` loop is due.
pub data Acquire : Type 0 where
  taken : Cpu → Spinlock → Acquire
  spins : Cpu → Spinlock → Acquire
  panic : Acquire

-- `xchg(&lk->locked, 1)`, and what `acquire` records once the old value is 0.
unfoldable pub test_and_set : (ℕ → ℕ) → ℕ → Cpu → Spinlock → Acquire
test_and_set memory frame c lk =
    if lk.locked == 0
    then taken c (record lk { locked = 1; cpu = some c.index; pcs = getcallerpcs memory frame })
    else spins c (record lk { locked = 1 })

unfoldable pub acquire : (ℕ → ℕ) → ℕ → Cpu → Spinlock → Acquire
unfolding test_and_set pushcli holding
acquire memory frame c lk =
    let c' = pushcli c in if holding lk c' then panic else test_and_set memory frame c' lk

unfoldable pub release : Cpu → Spinlock → Option (Cpu × Spinlock)
unfolding popcli holding
release c lk =
    if holding lk c
    then elim (popcli c) [
      | none ↦ none
      | some c' ↦ some (c', record lk { pcs = set lk.pcs 0 0; cpu = none; locked = 0 })
    ]
    else none
