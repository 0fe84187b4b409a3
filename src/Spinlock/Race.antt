-- ===== src/Spinlock/Race.antt =====
-- Several CPUs contend for one spinlock: every interleaving of `acquire`, the rounds of its `xchg`
-- loop, and `release`.
use mutex.Common.{ℕ, ◌≡◌, ◌≢◌, false, none, some, arith, update, ℕ_discrete}
use mutex.Spinlock.{
  Spinlock, Cpu, pushcli, popcli, holding, taken, spins, panic, test_and_set, acquire, release,
  getcallerpcs,
}

pub data Phase : Type 0 where
  outside spinning inside : Phase

pub record Machine : Type 0 where
  pub lock : Spinlock
  pub cpus : ℕ → Cpu
  pub phase : ℕ → Phase

-- CPU `i` goes to `p`, in the state `c`, and leaves the lock as `lk`.
abbrev pub moved : Machine → ℕ → Phase → Cpu → Spinlock → Machine
moved s i p c lk = record { lock = lk; cpus = update s.cpus i c; phase = update s.phase i p }

-- CPU `i` makes one atomic step of `acquire` or `release`; a call that panics is no step.
pub data Step (memory : ℕ → ℕ) (s t : Machine) : Type 0 where
  enters :
      (i frame : ℕ) (c : Cpu) (lk : Spinlock)
      → s.phase i ≡ outside
      → acquire memory frame (s.cpus i) s.lock ≡ taken c lk
      → t ≡ moved s i inside c lk
      → Step memory s t
  waits :
      (i frame : ℕ) (c : Cpu) (lk : Spinlock)
      → s.phase i ≡ outside
      → acquire memory frame (s.cpus i) s.lock ≡ spins c lk
      → t ≡ moved s i spinning c lk
      → Step memory s t
  retries :
      (i frame : ℕ) (c : Cpu) (lk : Spinlock)
      → s.phase i ≡ spinning
      → test_and_set memory frame (s.cpus i) s.lock ≡ taken c lk
      → t ≡ moved s i inside c lk
      → Step memory s t
  rounds :
      (i frame : ℕ) (c : Cpu) (lk : Spinlock)
      → s.phase i ≡ spinning
      → test_and_set memory frame (s.cpus i) s.lock ≡ spins c lk
      → t ≡ moved s i spinning c lk
      → Step memory s t
  leaves :
      (i : ℕ) (c : Cpu) (lk : Spinlock)
      → s.phase i ≡ inside
      → release (s.cpus i) s.lock ≡ some (c, lk)
      → t ≡ moved s i outside c lk
      → Step memory s t

pub data Reach (memory : ℕ → ℕ) (s : Machine) : Machine → Type 0 where
  start : Reach memory s s
  later : {t u : Machine} → Reach memory s t → Step memory t u → Reach memory s u

-- The CPUs know their own index, nobody is in `acquire`, and the lock is free.
pub record IsInitial (s : Machine) : Type 0 where
  pub numbered : (i : ℕ) → (s.cpus i).index ≡ i
  pub free : s.lock.locked ≡ 0
  pub all_outside : (i : ℕ) → s.phase i ≡ outside

pub record Inv (s : Machine) : Type 0 where
  pub numbered : (i : ℕ) → (s.cpus i).index ≡ i
  pub owner : (i : ℕ) → s.phase i ≡ inside → (s.lock.locked ≡ 1) × (s.lock.cpu ≡ some i)
  pub held : s.lock.locked ≢ 0 → (i : ℕ) × (s.phase i ≡ inside) × (s.lock.cpu ≡ some i)
  pub quiet : (i : ℕ) → s.phase i ≢ outside → (s.cpus i).interrupts ≡ false
  pub nested : (i : ℕ) → s.phase i ≢ outside → (s.cpus i).ncli ≢ 0

pub IsInitial-Inv : {s : Machine} → IsInitial s → Inv s
IsInitial-Inv h = record {
  numbered = h.numbered;
  owner = λ i e. cc (h.all_outside i);
  held = λ e. absurd (e h.free);
  quiet = λ i e. absurd (e (h.all_outside i));
  nested = λ i e. absurd (e (h.all_outside i));
}

module _ (memory : ℕ → ℕ) (s : Machine) (v : Inv s) (i frame : ℕ) (c : Cpu) (lk : Spinlock) where
  enters-Inv :
      s.phase i ≡ outside
      → acquire memory frame (s.cpus i) s.lock ≡ taken c lk
      → Inv (moved s i inside c lk)
  unfolding acquire test_and_set holding pushcli
  enters-Inv p e = record {
    numbered = λ j. ground (arith, v.numbered j, v.numbered i);
    owner = λ j h. ground (arith, v.numbered i, v.owner j);
    held = λ h. (i, ground arith, ground (arith, v.numbered i));
    quiet = λ j h. ground (arith, v.quiet j);
    nested = λ j h. ground (arith, v.nested j);
  }

  waits-Inv :
      s.phase i ≡ outside
      → acquire memory frame (s.cpus i) s.lock ≡ spins c lk
      → Inv (moved s i spinning c lk)
  unfolding acquire test_and_set holding pushcli
  waits-Inv p e = record {
    numbered = λ j. ground (arith, v.numbered j, v.numbered i);
    owner = λ j h. ground (arith, v.owner j);
    held = λ h. let (k, a, b) = v.held (ground arith) in (k, ground arith, ground arith);
    quiet = λ j h. ground (arith, v.quiet j);
    nested = λ j h. ground (arith, v.nested j);
  }

  retries-Inv :
      s.phase i ≡ spinning
      → test_and_set memory frame (s.cpus i) s.lock ≡ taken c lk
      → Inv (moved s i inside c lk)
  unfolding test_and_set
  retries-Inv p e = record {
    numbered = λ j. ground (arith, v.numbered j, v.numbered i);
    owner = λ j h. ground (arith, v.numbered i, v.owner j);
    held = λ h. (i, ground arith, ground (arith, v.numbered i));
    quiet = λ j h. ground (arith, v.quiet j, v.quiet i);
    nested = λ j h. ground (arith, v.nested j, v.nested i);
  }

  rounds-Inv :
      s.phase i ≡ spinning
      → test_and_set memory frame (s.cpus i) s.lock ≡ spins c lk
      → Inv (moved s i spinning c lk)
  unfolding test_and_set
  rounds-Inv p e = record {
    numbered = λ j. ground (arith, v.numbered j, v.numbered i);
    owner = λ j h. ground (arith, v.owner j);
    held = λ h. let (k, a, b) = v.held (ground arith) in (k, ground arith, ground arith);
    quiet = λ j h. ground (arith, v.quiet j, v.quiet i);
    nested = λ j h. ground (arith, v.nested j, v.nested i);
  }

  leaves-Inv :
      s.phase i ≡ inside → release (s.cpus i) s.lock ≡ some (c, lk) → Inv (moved s i outside c lk)
  unfolding release holding popcli
  leaves-Inv p e = record {
    numbered = λ j. ground (arith, v.numbered j, v.numbered i);
    owner = λ j h. ground (arith, v.owner j, v.owner i);
    held = λ h. absurd (ground arith);
    quiet = λ j h. ground (arith, v.quiet j);
    nested = λ j h. ground (arith, v.nested j);
  }

pub Step-Inv : {memory : ℕ → ℕ} {s t : Machine} → Step memory s t → Inv s → Inv t
Step-Inv {memory} {s} (enters i frame c lk p e q) v = rw q (enters-Inv memory s v i frame c lk p e)
Step-Inv {memory} {s} (waits i frame c lk p e q) v = rw q (waits-Inv memory s v i frame c lk p e)
Step-Inv {memory} {s} (retries i frame c lk p e q) v =
    rw q (retries-Inv memory s v i frame c lk p e)
Step-Inv {memory} {s} (rounds i frame c lk p e q) v = rw q (rounds-Inv memory s v i frame c lk p e)
Step-Inv {memory} {s} (leaves i c lk p e q) v = rw q (leaves-Inv memory s v i 0 c lk p e)

pub Reach-Inv : {memory : ℕ → ℕ} {s t : Machine} → IsInitial s → Reach memory s t → Inv t
Reach-Inv h start = IsInitial-Inv h
Reach-Inv h (later r st) = Step-Inv st (Reach-Inv h r)

-- From a free lock, no interleaving of `acquire` and `release` calls brings two CPUs inside at
-- once; and a CPU that is inside has its interrupts off.
pub mutual_exclusion :
    {memory : ℕ → ℕ} {s t : Machine}
    → IsInitial s
    → Reach memory s t
    → (i j : ℕ) → t.phase i ≡ inside
    → t.phase j ≡ inside
    → (i ≡ j) × ((t.cpus i).interrupts ≡ false)
mutual_exclusion h r i j a b =
    let v = Reach-Inv h r in (ground (arith, v.owner i, v.owner j), v.quiet i (cc))

-- From a free lock, in every reachable state: the CPU inside can release without a panic, a CPU
-- that is outside can call `acquire` without a panic, and a spinning CPU gets the lock in its next
-- round if nobody is inside.
pub no_panic :
    {memory : ℕ → ℕ} {s t : Machine}
    → IsInitial s
    → Reach memory s t
    → (i frame : ℕ)
    → (t.phase i ≡ inside → release (t.cpus i) t.lock ≢ none)
      × (t.phase i ≡ outside → acquire memory frame (t.cpus i) t.lock ≢ panic)
      × (t.phase i ≡ spinning
          → ((j : ℕ) → t.phase j ≢ inside)
          → (c : Cpu) × (lk : Spinlock) × (test_and_set memory frame (t.cpus i) t.lock
              ≡ taken c lk))
unfolding release acquire test_and_set holding popcli pushcli
no_panic {memory} {t = t} h r i frame = (
  λ a e. ground (arith, v.owner i, v.quiet i, v.nested i, v.numbered i),
  λ a e. contradiction a (ground (arith, v.numbered i)),
  λ a nobody. (
    t.cpus i,
    record t.lock { locked = 1; cpu = some (t.cpus i).index; pcs = getcallerpcs memory frame },
    elim (ℕ_discrete t.lock.locked 0) [
      | yes free ↦ ground arith
      | no taken' ↦ absurd (nobody (v.held taken').0 (v.held taken').1)
    ],
  ),
)
  where
    v : Inv t
    v = Reach-Inv h r

    contradiction : t.phase i ≡ outside → (t.lock.locked ≢ 0) × (t.lock.cpu ≡ some i) → ⊥
    contradiction a (busy, mine) =
        let (k, b, c) = v.held busy in let same : k ≡ i = ground arith in cc
