-- ===== src/Spinlock/Laws.antt =====
-- The sequential behaviour of spinlock.c on one CPU.
use mutex.Common.{
  ℕ, zero, suc, ◌+◌, ◌-◌, ◌%◌, ◌≡◌, refl, inl, inr, ◌≢◌, true, false, ◌&&◌, Option, none, some,
  ◌==◌, arith, length, length-replicate, Option-cases, set,
}
use mutex.Spinlock.{
  Spinlock, Cpu, pushcli, popcli, holding, call_stack, getcallerpcs, taken, test_and_set, acquire,
  release,
}

-- Interrupts are off while any `pushcli` is not yet matched.
pub record IsNested (c : Cpu) : Type 0 where
  pub masked : c.ncli ≢ 0 → c.interrupts ≡ false

pub pushcli-IsNested : (c : Cpu) → IsNested (pushcli c)
unfolding pushcli
pushcli-IsNested c = record { masked = λ _. refl }

pub popcli-IsNested : (c : Cpu) {c' : Cpu} → popcli c ≡ some c' → IsNested c'
unfolding popcli
popcli-IsNested c {c'} e = record { masked = λ h. ground arith }

abbrev pub pushes : ℕ → Cpu → Cpu
pushes zero c = c
pushes (suc n) c = pushes n (pushcli c)

abbrev pub pops : ℕ → Cpu → Option Cpu
pops zero c = some c
pops (suc n) c = elim (popcli c) [ none ↦ none | some c' ↦ pops n c' ]

-- The pushes of a nest, seen from inside: the count, and the flag that the outermost one saved.
pub pushes-nested :
    (n : ℕ) (c : Cpu)
    → c.ncli ≢ 0
    → c.interrupts ≡ false
    → pushes n c ≡ record c { ncli = c.ncli + n }
unfolding pushcli
pushes-nested zero c h f = ground arith
pushes-nested (suc n) c h f = ground (arith, pushes-nested n (pushcli c))

pops-suc : (n : ℕ) (c c' : Cpu) → popcli c ≡ some c' → pops (suc n) c ≡ pops n c'
pops-suc n c c' e = rw (e, pops)

-- `n` pops undo `n` pushes inside a nest.
pub pops-nested :
    (n : ℕ) (c : Cpu)
    → c.ncli ≢ 0
    → c.interrupts ≡ false
    → pops n (record c { ncli = c.ncli + n }) ≡ some c
unfolding popcli
pops-nested zero c h f = ground arith
pops-nested (suc n) c h f = ground (
  arith,
  pops-suc n (record c { ncli = c.ncli + suc n }) (record c { ncli = c.ncli + n }),
  pops-nested n c,
)

pops-last :
    (n : ℕ) (c : Cpu) → pops (suc n) c ≡ (elim (pops n c) [ none ↦ none | some c' ↦ popcli c' ])
pops-last zero c = ground arith
pops-last (suc n) c = elim (Option-cases (popcli c)) [
  | inl stuck ↦ rw (stuck, pops)
  | inr (c', e) ↦ rw (pops-suc (suc n) c c' e, pops-suc n c c' e) (pops-last n c')
]

pops-pushcli :
    (c : Cpu) → IsNested c → popcli (pushcli c) ≡ some (record c { intena = (pushcli c).intena })
unfolding popcli pushcli
pops-pushcli c v = ground (arith, v.masked)

-- On a CPU whose interrupts are off while it is nested, any number of `pushcli` calls, at least
-- one, is undone by as many `popcli` calls: none of them panics, and the nesting depth and the
-- interrupt flag are what they were. Only the saved flag may differ, when the nest was outermost.
pops-pushes :
    (n : ℕ) (c : Cpu)
    → IsNested c
    → pops (suc n) (pushes (suc n) c) ≡ some (record c { intena = (pushcli c).intena })
pops-pushes n c v =
    rw
      (
        pushes-nested n (pushcli c) (inside c) (masked c),
        pops-last n _,
        pops-nested n (pushcli c) (inside c) (masked c),
      )
      (pops-pushcli c v)
  where
    inside : (d : Cpu) → (pushcli d).ncli ≢ 0
    inside d = unfold pushcli in omega arith

    masked : (d : Cpu) → (pushcli d).interrupts ≡ false
    masked d = unfold pushcli in refl

-- `acquire` leaves the lock held by this CPU, with interrupts off.
pub acquire-taken :
    (memory : ℕ → ℕ) (frame : ℕ) (c c' : Cpu) (lk lk' : Spinlock)
    → acquire memory frame c lk ≡ taken c' lk'
    → (lk.locked ≡ 0) × (holding lk' c' ≡ true) × (c'.interrupts ≡ false) × (c'.ncli ≡ c.ncli + 1)
unfolding acquire holding pushcli test_and_set
acquire-taken memory frame c c' lk lk' e = ground arith

length-call_stack : (memory : ℕ → ℕ) (n ebp : ℕ) → length (call_stack memory n ebp) ≡ n
unfolding call_stack
length-call_stack memory zero ebp = refl
length-call_stack memory (suc n) ebp =
    ground (arith, length-call_stack memory n (memory ebp), length-replicate n zero)

-- `pcs[]` gets exactly its 10 entries, wherever the frames lead.
pub length-getcallerpcs : (memory : ℕ → ℕ) (v : ℕ) → length (getcallerpcs memory v) ≡ 10
unfolding getcallerpcs
length-getcallerpcs memory v = length-call_stack memory 10 ((v + 0x1_0000_0000 - 8) % 0x1_0000_0000)

-- `release` after `acquire` gives back the lock, free, and the CPU as it was before.
release-acquire :
    (memory : ℕ → ℕ) (frame : ℕ) (c c' : Cpu) (lk lk' : Spinlock)
    → IsNested c
    → acquire memory frame c lk ≡ taken c' lk'
    → (lk'' : Spinlock) × (c'' : Cpu) × (release c' lk' ≡ some (c'', lk''))
      × (lk''.locked ≡ 0)
      × (holding lk'' c'' ≡ false)
      × (c''.ncli ≡ c.ncli)
      × (c''.interrupts ≡ c.interrupts)
unfolding acquire release holding pushcli popcli test_and_set
release-acquire memory frame c c' lk lk' v e = (
  record lk' { pcs = set lk'.pcs 0 0; cpu = none; locked = 0 },
  record c' { ncli = c'.ncli - 1; interrupts = c'.ncli - 1 == 0 && c'.intena },
  ground (arith, v.masked),
  refl,
  refl,
  ground arith,
  ground (arith, v.masked),
)
