-- ===== src/Condvar/Broadcast.antt =====
-- What `condvar_broadcast` does, slot after slot.
use mutex.Common.{
  ℕ, zero, suc, ◌+◌, ◌-◌, ◌≤◌, ◌<◌, ◌≡◌, ◌≢◌, ◌⊎◌, ◌∙◌, ap, inl, inr, Bool, true, some, ◌==◌, ◌&&◌,
  ltb, leb, if◌then◌else◌, arith, Bool-cases, le→leb, lt→ltb,
}
use mutex.Proc.{sleeping, runnable, Kernel, nproc, maxthrds, ncondvar, returns}
use mutex.Condvar.Defs.{slots_of, wake_slot, is_used, broadcast_from, condvar_broadcast}
use mutex.Condvar.Store.{SleepsOn, slots_of-wake_slot, state-wake_slot}

module _ (q c : ℕ) where
  -- One round of the loop of `condvar_broadcast`.
  abbrev round : Kernel → ℕ → Kernel
  round k i = if is_used k q c i then wake_slot k q c i else k

  slots_of-round :
      (k : Kernel) (i j : ℕ)
      → slots_of (round k i) q c j ≡ (if i == j && is_used k q c j then 0 else slots_of k q c j)
  slots_of-round k i j = elim (Bool-cases (i == j)) [
    | inl same ↦ let e : i ≡ j = ground arith in rw e (ground (arith, slots_of-wake_slot k q c j j))
    | inr other ↦ ground (arith, slots_of-wake_slot k q c i j)
  ]

  slots_of-broadcast_from :
      (n i : ℕ) (k : Kernel) (j : ℕ)
      → slots_of (broadcast_from q c n i k) q c j
        ≡ (if leb i j && ltb j (i + n) && is_used k q c j then 0 else slots_of k q c j)
  unfolding broadcast_from
  slots_of-broadcast_from zero i k j = ground arith
  slots_of-broadcast_from (suc n) i k j =
      slots_of-broadcast_from n (i + 1) (round k i) j ∙ rw (slots_of-round k i j) (ground arith)

  round-awake :
      (k : Kernel) (i p : ℕ)
      → p < nproc
      → (k.table p).state ≢ sleeping
      → ((round k i).table p).state ≡ (k.table p).state
  round-awake k i p lt h = ground (arith, state-wake_slot k q c i p lt)

  broadcast_from-awake :
      (n i : ℕ) (k : Kernel) (p : ℕ)
      → p < nproc
      → (k.table p).state ≡ runnable
      → ((broadcast_from q c n i k).table p).state ≡ runnable
  unfolding broadcast_from
  broadcast_from-awake zero i k p lt h = h
  broadcast_from-awake (suc n) i k p lt h =
      broadcast_from-awake n (i + 1) (round k i) p lt (round-awake k i p lt (λ e. cc) ∙ h)

  -- A sleeper whose number stands in slot `j` sleeps on after round `i`, or is woken by it.
  round-sleeper :
      (k : Kernel) (i j p : ℕ)
      → p < nproc
      → is_used k q c j ≡ true
      → SleepsOn (k.table p) (slots_of k q c j)
      → (((round k i).table p).state ≡ runnable)
        ⊎ ((i ≢ j) × SleepsOn ((round k i).table p) (slots_of k q c j))
  round-sleeper k i j p lt u h = elim (Bool-cases (slots_of k q c i == slots_of k q c j)) [
    | inl same ↦ inl (ground (arith, state-wake_slot k q c i p lt))
    | inr other ↦ inr (
      λ (e : i ≡ j). absurd (ground (arith, ap (slots_of k q c) e)),
      (ground (arith, state-wake_slot k q c i p lt), ground (arith, state-wake_slot k q c i p lt)),
    )
  ]

  broadcast_from-wakes :
      (n i : ℕ) (k : Kernel) (j p : ℕ)
      → i ≤ j
      → j < i + n
      → p < nproc
      → is_used k q c j ≡ true
      → SleepsOn (k.table p) (slots_of k q c j)
      → ((broadcast_from q c n i k).table p).state ≡ runnable
  unfolding broadcast_from
  broadcast_from-wakes zero i k j p a b lt u h = absurd (omega arith)
  broadcast_from-wakes (suc n) i k j p a b lt u h = elim (round-sleeper k i j p lt u h) [
    | inl woken ↦ broadcast_from-awake n (i + 1) (round k i) p lt woken
    | inr (ne, still) ↦
        let s : slots_of (round k i) q c j ≡ slots_of k q c j =
          ground (arith, slots_of-round k i j) in
        broadcast_from-wakes n (i + 1) (round k i) j p (ground arith) (omega arith) lt (rw s u)
          (rw s still)
  ]

-- `condvar_broadcast` by a thread of `q`, on a number in range, answers 0 and leaves a state in
-- which no slot of the variable is in use, the slots that were not in use are as they were, and
-- every process that slept on the number in a used slot is runnable.
pub condvar_broadcast_lem :
    (k : Kernel) (me q condvar : ℕ)
    → (k.table me).type ≢ 0
    → (k.table me).parent ≡ some q
    → 0 < condvar
    → condvar ≤ ncondvar
    → let c = condvar - 1 in
      (k' : Kernel) × (condvar_broadcast k me condvar ≡ returns 0 k')
      × ((j : ℕ)
          → j < maxthrds
          → slots_of k' q c j ≡ (if is_used k q c j then 0 else slots_of k q c j))
      × ((j p : ℕ)
          → j < maxthrds
          → p < nproc
          → is_used k q c j ≡ true
          → SleepsOn (k.table p) (slots_of k q c j)
          → (k'.table p).state ≡ runnable)
unfolding condvar_broadcast
condvar_broadcast_lem k me q condvar th par cp cl = (
  broadcast_from q (condvar - 1) maxthrds 0 k,
  ground arith,
  λ j lt.
      slots_of-broadcast_from q (condvar - 1) maxthrds 0 k j
      ∙ in_range j lt (is_used k q (condvar - 1) j),
  λ j p lt lt' u h.
      broadcast_from-wakes q (condvar - 1) maxthrds 0 k j p (omega arith) (omega arith) lt' u h,
)
  where
    in_range :
        (j : ℕ)
        → j < maxthrds
        → (u : Bool)
        → (if leb 0 j && ltb j (0 + maxthrds) && u then 0 else slots_of k q (condvar - 1) j)
          ≡ (if u then 0 else slots_of k q (condvar - 1) j)
    in_range j lt u = rw (le→leb 0 j (omega arith), lt→ltb j (0 + maxthrds) (omega arith))
