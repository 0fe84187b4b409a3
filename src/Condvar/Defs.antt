-- ===== src/Condvar/Defs.antt =====
-- The five calls. Each part between `acquire` and `release` of `ptable.lock` is one step, and
-- `condvar_signal` does its two parts at once.
use mutex.Common.{
  ℕ, zero, suc, ◌+◌, ◌-◌, Bool, not, ◌&&◌, ◌||◌, Option, none, some, leb, ltb, ◌==◌, if◌then◌else◌,
  update, each, first, minus_one, is_positive,
}
use mutex.Proc.{
  of_pid, Condvar, Kernel, maxthrds, nmutx, ncondvar, set_proc, Outcome, returns, fault,
}
use mutex.Proc.Sched.{wakeup, modified_sleep_begin}

abbrev pub condvar_of : Kernel → ℕ → ℕ → Condvar
condvar_of k q c = (k.table q).condvarlist c

abbrev pub slots_of : Kernel → ℕ → ℕ → ℕ → ℕ
slots_of k q c = (condvar_of k q c).waitingthreadlist

unfoldable pub set_condvar : Kernel → ℕ → ℕ → Condvar → Kernel
set_condvar k q c v =
    set_proc k q (record (k.table q) { condvarlist = update (k.table q).condvarlist c v })

abbrev pub set_slot : Kernel → ℕ → ℕ → ℕ → ℕ → Kernel
set_slot k q c i v =
    set_condvar k q c
      (record (condvar_of k q c) { waitingthreadlist = update (slots_of k q c) i v })

unfoldable pub condvar_init : Kernel → ℕ → Outcome
unfolding first
condvar_init k me = elim (first (λ i. (condvar_of k me i).id == minus_one) ncondvar) [
  | none ↦ returns minus_one k
  | some i ↦ returns (i + 1) (
      set_condvar k me i
        (record { id = i + 1; waitingthreadlist = each maxthrds (λ _. 0) (slots_of k me i) }))
]

unfoldable pub condvar_destroy : Kernel → ℕ → ℕ → Outcome
condvar_destroy k me condvar =
    if is_positive condvar && leb condvar ncondvar && (condvar_of k me (condvar - 1)).id == condvar
    then returns condvar (
        set_condvar k me (condvar - 1) (record {
          id = minus_one;
          waitingthreadlist = each maxthrds (λ _. minus_one) (slots_of k me (condvar - 1));
        }))
    else returns minus_one k

-- A slot is free while it holds 0.
unfoldable pub free_slot : Kernel → ℕ → ℕ → Option ℕ
unfolding first
free_slot k q c = first (λ i. slots_of k q c i == 0) maxthrds

-- The first part of `condvar_wait`: the caller's number goes into slot `i` of its parent `q`.
unfoldable pub register : Kernel → ℕ → ℕ → ℕ → ℕ → Kernel
register k me q c i = set_slot k q c i (k.table me).pid

-- `condvar_wait` up to the switch in `modified_sleep`; 0 is what it answers once it is woken and
-- has the mutex again. A mutex number past the array is handed on unchecked.
unfoldable pub condvar_wait_begin : Kernel → ℕ → ℕ → ℕ → Outcome
unfolding free_slot register
condvar_wait_begin k me condvar mutex =
    if is_positive condvar && leb condvar nmutx && is_positive mutex && leb condvar ncondvar
    then elim (k.table me).parent [
      | none ↦ fault
      | some q ↦ elim (free_slot k q (condvar - 1)) [
        | none ↦ returns minus_one k
        | some i ↦
            if leb mutex nmutx
            then returns 0 (
                modified_sleep_begin (of_pid (k.table me).pid) (register k me q (condvar - 1) i) me
                  q (mutex - 1))
            else fault
      ]
    ]
    else returns minus_one k

-- The process whose condition variables the caller uses.
abbrev pub at_owner : Kernel → ℕ → (ℕ → Outcome) → Outcome
at_owner k me f =
    if (k.table me).type == 0
    then f me
    else elim (k.table me).parent [ none ↦ fault | some q ↦ f q ]

-- The body of the loops of `condvar_signal` and `condvar_broadcast` at slot `i`, if it is used.
unfoldable pub wake_slot : Kernel → ℕ → ℕ → ℕ → Kernel
wake_slot k q c i = set_slot (wakeup (of_pid (slots_of k q c i)) k) q c i 0

abbrev pub is_used : Kernel → ℕ → ℕ → ℕ → Bool
is_used k q c i = is_positive (slots_of k q c i)

unfoldable pub condvar_signal : Kernel → ℕ → ℕ → Outcome
unfolding first wake_slot
condvar_signal k me condvar =
    if not (is_positive condvar) || ltb ncondvar condvar
    then returns minus_one k
    else at_owner k me λ q. elim (first (is_used k q (condvar - 1)) maxthrds) [
      | none ↦ returns 0 k
      | some i ↦ returns 0 (wake_slot k q (condvar - 1) i)
    ]

-- The loop of `condvar_broadcast`, `n` slots from `i` on.
unfoldable pub broadcast_from : ℕ → ℕ → ℕ → ℕ → Kernel → Kernel
unfolding wake_slot
broadcast_from q c zero i k = k
broadcast_from q c (suc n) i k =
    broadcast_from q c n (i + 1) (if is_used k q c i then wake_slot k q c i else k)

unfoldable pub condvar_broadcast : Kernel → ℕ → ℕ → Outcome
condvar_broadcast k me condvar =
    if not (is_positive condvar) || ltb ncondvar condvar
    then returns minus_one k
    else at_owner k me λ q. returns 0 (broadcast_from q (condvar - 1) maxthrds 0 k)
