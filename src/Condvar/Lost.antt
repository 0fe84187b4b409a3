-- ===== src/Condvar/Lost.antt =====
-- The wakeup that is lost between the two parts of `condvar_wait`.
use mutex.Common.{
  ℕ, zero, suc, ◌+◌, ◌-◌, ◌≤◌, ◌<◌, ◌≡◌, ◌≢◌, refl, sym, ◌∙◌, inl, inr, false, some, ◌==◌,
  if◌then◌else◌, arith,
}
use mutex.Proc.{of_pid, Kernel, maxthrds, ncondvar, returns}
use mutex.Proc.Sched.{modified_sleep_begin, sleep_begin}
use mutex.Condvar.Defs.{
  slots_of, register, is_used, condvar_signal, broadcast_from, condvar_broadcast,
}
use mutex.Condvar.Store.{SleepsOn, slots_of-set_slot, slots_of-modified_sleep}
use mutex.Condvar.Laws.{condvar_signal_lem}

-- Nobody waits: no slot of the variable is in use.
abbrev pub IsIdle : Kernel → ℕ → ℕ → Type 0
IsIdle k q c = (j : ℕ) → j < maxthrds → is_used k q c j ≡ false

broadcast_from-IsIdle :
    (q c n i : ℕ) (k : Kernel) → i + n ≤ maxthrds → IsIdle k q c → broadcast_from q c n i k ≡ k
unfolding broadcast_from
broadcast_from-IsIdle q c zero i k h idle = refl
broadcast_from-IsIdle q c (suc n) i k h idle =
    rw (idle i (omega arith)) (broadcast_from-IsIdle q c n (i + 1) k (omega arith) idle)

module _ (k : Kernel) (me q condvar : ℕ) (th : (k.table me).type ≢ 0)
    (par : (k.table me).parent ≡ some q) (cp : 0 < condvar) (cl : condvar ≤ ncondvar)
    (idle : IsIdle k q (condvar - 1)) where
  condvar_signal-IsIdle : condvar_signal k me condvar ≡ returns 0 k
  condvar_signal-IsIdle = elim (condvar_signal_lem k me q condvar th par cp cl) [
    | inl (i, k', found, e, slots, states) ↦
        absurd (ground (arith, found.passes, idle i found.below))
    | inr (none_used, e) ↦ e
  ]

  condvar_broadcast-IsIdle : condvar_broadcast k me condvar ≡ returns 0 k
  unfolding condvar_broadcast
  condvar_broadcast-IsIdle =
      ground (arith, broadcast_from-IsIdle q (condvar - 1) maxthrds 0 k (omega arith) idle)

-- A signal while one thread has registered leaves no slot in use.
signalled-IsIdle :
    (k k₁ : Kernel) (me signaller q condvar i : ℕ)
    → 0 < condvar
    → condvar ≤ ncondvar
    → IsIdle k q (condvar - 1)
    → ((register k me q (condvar - 1) i).table signaller).type ≢ 0
    → ((register k me q (condvar - 1) i).table signaller).parent ≡ some q
    → condvar_signal (register k me q (condvar - 1) i) signaller condvar ≡ returns 0 k₁
    → IsIdle k₁ q (condvar - 1)
signalled-IsIdle k k₁ me signaller q condvar i cp cl idle th par e j lt =
    elim (condvar_signal_lem (register k me q c i) signaller q condvar th par cp cl) [
      | inl (f, k', found, r, slots, rest) ↦
          let same : returns 0 k₁ ≡ returns 0 k' = sym e ∙ r in
          let ker : k₁ ≡ k' = cc in
          let at_f = registered f in
          rw (ker, slots j)
            (ground
              (arith, registered f, registered j, idle f found.below, idle j lt, found.passes))
      | inr (none_used, r) ↦
          let same : returns 0 k₁ ≡ returns 0 (register k me q c i) = sym e ∙ r in
          let ker : k₁ ≡ register k me q c i = cc in rw ker (none_used j lt)
    ]
  where
    c : ℕ
    c = condvar - 1

    registered :
        (j : ℕ)
        → slots_of (register k me q c i) q c j
          ≡ (if i == j then (k.table me).pid else slots_of k q c j)
    registered j = unfold register in slots_of-set_slot k q c i (k.table me).pid j

-- Any number of signals and broadcasts on the variable, one after the other, by threads of `q`.
pub data Calls (q condvar : ℕ) : Kernel → Kernel → Type 0 where
  no_more : {k : Kernel} → Calls q condvar k k
  signals :
      {k k' k'' : Kernel} (other answer : ℕ)
      → (k.table other).type ≢ 0
      → (k.table other).parent ≡ some q
      → condvar_signal k other condvar ≡ returns answer k'
      → Calls q condvar k' k''
      → Calls q condvar k k''
  broadcasts :
      {k k' k'' : Kernel} (other answer : ℕ)
      → (k.table other).type ≢ 0
      → (k.table other).parent ≡ some q
      → condvar_broadcast k other condvar ≡ returns answer k'
      → Calls q condvar k' k''
      → Calls q condvar k k''

-- While nobody waits, none of them has an effect.
Calls-IsIdle :
    (q condvar : ℕ) {k k' : Kernel}
    → 0 < condvar
    → condvar ≤ ncondvar
    → IsIdle k q (condvar - 1)
    → Calls q condvar k k'
    → k' ≡ k
Calls-IsIdle q condvar cp cl idle no_more = refl
Calls-IsIdle q condvar {k = k} cp cl idle (signals {k' = k'} other answer th par e rest) =
    let same : returns answer k' ≡ returns 0 k =
      sym e ∙ condvar_signal-IsIdle k other q condvar th par cp cl idle in
    let ker : k' ≡ k = cc in Calls-IsIdle q condvar cp cl (rw ker idle) rest ∙ ker
Calls-IsIdle q condvar {k = k} cp cl idle (broadcasts {k' = k'} other answer th par e rest) =
    let same : returns answer k' ≡ returns 0 k =
      sym e ∙ condvar_broadcast-IsIdle k other q condvar th par cp cl idle in
    let ker : k' ≡ k = cc in Calls-IsIdle q condvar cp cl (rw ker idle) rest ∙ ker

-- The lost wakeup. A thread `me` of `q` has put its number in a slot of the variable, where no
-- other slot is in use, and has not yet gone to sleep; a thread of `q` signals; then `me` goes to
-- sleep. It sleeps on its number, and no slot of the variable is in use. From there a signal or a
-- broadcast on the variable by a thread of `q` answers 0, and any number of them, with no other call
-- between them, leave everything as it was: none of them wakes `me`.
pub lost_wakeup :
    (k k₁ : Kernel) (me signaller q condvar m i : ℕ)
    → 0 < condvar
    → condvar ≤ ncondvar
    → i < maxthrds
    → IsIdle k q (condvar - 1)
    → ((register k me q (condvar - 1) i).table signaller).type ≢ 0
    → ((register k me q (condvar - 1) i).table signaller).parent ≡ some q
    → condvar_signal (register k me q (condvar - 1) i) signaller condvar ≡ returns 0 k₁
    → let asleep = modified_sleep_begin (of_pid (k.table me).pid) k₁ me q m in
      SleepsOn (asleep.table me) (k.table me).pid
      × IsIdle asleep q (condvar - 1)
      × ((other : ℕ)
          → (asleep.table other).type ≢ 0
          → (asleep.table other).parent ≡ some q
          → (condvar_signal asleep other condvar ≡ returns 0 asleep)
            × (condvar_broadcast asleep other condvar ≡ returns 0 asleep))
      × ((later : Kernel) → Calls q condvar asleep later → later ≡ asleep)
unfolding modified_sleep_begin sleep_begin
lost_wakeup k k₁ me signaller q condvar m i cp cl lt none_used th par e = (
  (ground arith, ground arith),
  idle,
  λ other th' par'. (
    condvar_signal-IsIdle asleep other q condvar th' par' cp cl idle,
    condvar_broadcast-IsIdle asleep other q condvar th' par' cp cl idle,
  ),
  λ later calls. Calls-IsIdle q condvar cp cl idle calls,
)
  where
    asleep : Kernel
    asleep = modified_sleep_begin (of_pid (k.table me).pid) k₁ me q m

    idle : IsIdle asleep q (condvar - 1)
    idle j lt' =
        rw (slots_of-modified_sleep (of_pid (k.table me).pid) k₁ me q m (condvar - 1) j)
          (signalled-IsIdle k k₁ me signaller q condvar i cp cl none_used th par e j lt')
