-- ===== src/Proc/Life/Wait.antt =====
-- What `wait` answers, and when a process that is ending lets go.
use mutex.Common.{
  ℕ, zero, suc, ◌+◌, ◌≤◌, ◌<◌, ◌≡◌, ◌≢◌, ◌⊎◌, refl, ◌∙◌, inl, inr, Bool, true, false, not, ◌&&◌,
  ◌||◌, Option, none, some, ◌==◌, if◌then◌else◌, arith, update, IsFirst, IsFirst-first, Bool-cases,
  minus_one, ℕ_discrete,
}
use mutex.Kalloc.{Kmem, kfree}
use mutex.Proc.Defs.{unused, is_zombie, of_proc, Kernel, nproc, returns}
use mutex.Proc.Sched.{yield_begin, sleep_begin}
use mutex.Proc.Life.Defs.{
  reset, one_thread_less, getthreadretval, release_thread, waits_for, Scan, found, finished, scan,
  answers, yields, sleeps, reap, wait,
}

&&-left : (a b : Bool) → (a && b) ≡ true → a ≡ true
&&-left a b h = ground arith

&&-right : (a b : Bool) → (a && b) ≡ true → b ≡ true
&&-right a b h = ground arith

&&-miss : (a b : Bool) → (a && b) ≡ false → a ≡ true → b ≡ false
&&-miss a b h t = ground arith

Scan-cases : (s : Scan) → ((i : ℕ) × (s ≡ found i)) ⊎ ((b : Bool) × (s ≡ finished b))
Scan-cases (found i) = inl (i, refl)
Scan-cases (finished b) = inr (b, refl)

module _ (k : Kernel) (me tid : ℕ) where
  -- A zombie in the range, that the caller waits for.
  abbrev Hit : ℕ → ℕ → ℕ → Type 0
  Hit n i j =
      (i ≤ j) × (j < i + n) × (waits_for k me tid j ≡ true) × (is_zombie (k.table j).state ≡ true)

  -- In the range nothing to reap; `b` says whether there was anything to wait for.
  record Miss (n i : ℕ) (havekids b : Bool) : Type 0 where
    no_zombie :
        (j : ℕ)
        → i ≤ j
        → j < i + n
        → waits_for k me tid j ≡ true
        → is_zombie (k.table j).state ≡ false
    no_kids :
        b ≡ false
        → (havekids ≡ false) × ((j : ℕ) → i ≤ j → j < i + n → waits_for k me tid j ≡ false)
    kids :
        b ≡ true
        → (havekids ≡ true) ⊎ ((j : ℕ) × (i ≤ j) × (j < i + n) × (waits_for k me tid j ≡ true))

  scan-found : (n i j : ℕ) (h : Bool) → scan k me tid n i h ≡ found j → Hit n i j
  unfolding scan
  scan-found zero i j h e = cc
  scan-found (suc n) i j h e =
      elim (Bool-cases (waits_for k me tid i && is_zombie (k.table i).state)) [
        | inl hit ↦
            let here : found i ≡ found j = rw hit at e in
            let same : i ≡ j = cc in
            rw (← same) (omega arith, omega arith, &&-left _ _ hit, &&-right _ _ hit)
        | inr miss ↦
            let later : scan k me tid n (i + 1) (h || waits_for k me tid i) ≡ found j =
              rw miss at e in
            let (a, b, c, d) = scan-found n (i + 1) j (h || waits_for k me tid i) later in
            (omega arith, omega arith, c, d)
      ]

  scan-finished : (n i : ℕ) (h b : Bool) → scan k me tid n i h ≡ finished b → Miss n i h b
  unfolding scan
  scan-finished zero i h b e = record {
    no_zombie = λ j l r w. absurd (omega arith);
    no_kids = λ f. (ground arith, λ j l r. absurd (omega arith));
    kids = λ t. inl (ground arith);
  }
  scan-finished (suc n) i h b e =
      elim (Bool-cases (waits_for k me tid i && is_zombie (k.table i).state)) [
        | inl hit ↦ let no : found i ≡ finished b = rw hit at e in cc
        | inr miss ↦
            let later : scan k me tid n (i + 1) (h || waits_for k me tid i) ≡ finished b =
              rw miss at e in
            widen miss (scan-finished n (i + 1) (h || waits_for k me tid i) b later)
      ]
    where
      widen :
          (waits_for k me tid i && is_zombie (k.table i).state) ≡ false
          → Miss n (i + 1) (h || waits_for k me tid i) b
          → Miss (suc n) i h b
      widen miss m = record {
        no_zombie = λ j l r w. elim (Bool-cases (i == j)) [
          | inl same ↦
              let e : i ≡ j = ground arith in
              rw (← e) (&&-miss (waits_for k me tid i) (is_zombie (k.table i).state) miss (rw e w))
          | inr other ↦ m.no_zombie j (ground arith) (omega arith) w
        ];
        no_kids = λ f.
            let (a, all) = m.no_kids f in
            (
              ground arith,
              λ j l r. elim (Bool-cases (i == j)) [
                | inl same ↦ let e : i ≡ j = ground arith in rw (← e) (ground arith)
                | inr other ↦ all j (ground arith) (omega arith)
              ],
            );
        kids = λ t. elim (m.kids t) [
          | inl some_kid ↦ elim (Bool-cases h) [
            | inl y ↦ inl y
            | inr n' ↦ inr (i, omega arith, omega arith, ground arith)
          ]
          | inr (j, l, r, w) ↦ inr (j, omega arith, omega arith, w)
        ];
      }

-- One round of `wait` has three outcomes. Some zombie that the caller waits for is reaped. Or there
-- is no such zombie, and the answer is -1 with nothing changed, because the caller has nothing to
-- wait for or was killed. Or there is something to wait for, no zombie yet, and the caller was not
-- killed: then it sleeps on itself, or yields if it asked for one thread.
pub wait_lem :
    (kernel_end : ℕ) (freevm : Kmem → ℕ → Option Kmem) (k : Kernel) (me tid : ℕ)
    → ((i : ℕ) × (i < nproc)
        × (waits_for k me tid i ≡ true)
        × (is_zombie (k.table i).state ≡ true)
        × (wait kernel_end freevm k me tid ≡ reap kernel_end freevm k i))
      ⊎ (((j : ℕ) → j < nproc → waits_for k me tid j ≡ true → is_zombie (k.table j).state ≡ false)
          × (((j : ℕ) → j < nproc → waits_for k me tid j ≡ false) ⊎ ((k.table me).killed ≢ 0))
          × (wait kernel_end freevm k me tid ≡ answers minus_one k))
      ⊎ (((j : ℕ) → j < nproc → waits_for k me tid j ≡ true → is_zombie (k.table j).state ≡ false)
          × ((j : ℕ) × (j < nproc) × (waits_for k me tid j ≡ true))
          × ((k.table me).killed ≡ 0)
          × (wait kernel_end freevm k me tid ≡ (
              if tid == 0
              then sleeps (sleep_begin (of_proc me) k me)
              else yields (yield_begin k me))))
unfolding wait
wait_lem kernel_end freevm k me tid = elim (Scan-cases (scan k me tid nproc 0 false)) [
  | inl (i, e) ↦
      let (a, b, c, d) = scan-found k me tid nproc 0 i false e in
      inl (i, omega arith, c, d, rw (e, wait))
  | inr (true, e) ↦
      let m = scan-finished k me tid nproc 0 false true e in
      let (j, l, r, w) = some_kid (m.kids refl) in
      elim (ℕ_discrete (k.table me).killed 0) [
        | yes alive ↦ inr (inr (no_zombie m, (j, omega arith, w), alive, rw (e, alive, wait)))
        | no killed ↦ inr (inl (no_zombie m, inr killed, rw (e, wait) (ground arith)))
      ]
  | inr (false, e) ↦
      let m = scan-finished k me tid nproc 0 false false e in
      inr (
        inl (
          no_zombie m,
          inl (λ j lt. (m.no_kids refl).1 j (omega arith) (omega arith)),
          rw (e, wait),
        ))
]
  where
    no_zombie :
        {h b : Bool}
        → Miss k me tid nproc 0 h b
        → (j : ℕ) → j < nproc
        → waits_for k me tid j ≡ true
        → is_zombie (k.table j).state ≡ false
    no_zombie m j lt w = m.no_zombie j (omega arith) (omega arith) w

    some_kid : {K : Type 0} → (false ≡ true) ⊎ K → K
    some_kid (inl e) = cc
    some_kid (inr kid) = kid

-- Reaping a zombie process whose memory and kernel stack can be given back answers its number: the
-- slot is unused, with no number, no parent and no threads, its memory and stack are given back, and
-- no other slot changes.
reap_lem :
    (kernel_end : ℕ) (freevm : Kmem → ℕ → Option Kmem) (k : Kernel) (i : ℕ) (m m' : Kmem)
    → freevm k.kmem (k.table i).pgdir ≡ some m
    → kfree kernel_end m (k.table i).kstack ≡ some m'
    → (k.table i).type ≡ 0
    → (k' : Kernel) × (reap kernel_end freevm k i ≡ answers (k.table i).pid k')
      × ((k'.table i).state ≡ unused)
      × ((k'.table i).pid ≡ 0)
      × ((k'.table i).parent ≡ none)
      × ((k'.table i).tcount ≡ 0)
      × (k'.kmem ≡ m')
      × ((j : ℕ) → j ≢ i → k'.table j ≡ k.table j)
unfolding reap reset
reap_lem kernel_end freevm k i m m' e f t = (
  record k {
    table = update k.table i (record (reset (k.table i)) { pgdir = 0; tcount = 0 });
    kmem = m';
  },
  rw (t, e, f, reap),
  ground arith,
  ground arith,
  ground arith,
  ground arith,
  refl,
  λ j ne. ground arith,
)

getthreadretval-first :
    (kernel_end : ℕ) (k : Kernel) (i q tid : ℕ)
    → IsFirst (λ j. not ((k.table j).type == 0) && (k.table j).pid == tid) nproc i
    → (k.table i).threadattr ≡ 0
    → (k.table i).parent ≡ some q
    → getthreadretval kernel_end k tid ≡ release_thread kernel_end k i q
unfolding getthreadretval
getthreadretval-first kernel_end k i q tid f attr par =
    rw
      (
        IsFirst-first (λ j. not ((k.table j).type == 0) && (k.table j).pid == tid) nproc i f,
        getthreadretval,
      )
      (rw (attr, par))

-- After `wait` has answered the number of a zombie thread, which it leaves in place,
-- `getthreadretval` of that number answers the thread's return value. For a thread created without
-- attributes it also makes the slot unused, gives back its kernel stack, takes one from the
-- parent's thread count, and changes no third slot.
pub getthreadretval_lem :
    (kernel_end : ℕ) (freevm : Kmem → ℕ → Option Kmem) (k : Kernel) (i q : ℕ) (m : Kmem)
    → IsFirst (λ j. not ((k.table j).type == 0) && (k.table j).pid == (k.table i).pid) nproc i
    → (k.table i).threadattr ≡ 0
    → (k.table i).parent ≡ some q
    → q ≢ i
    → 0 < (k.table q).tcount
    → (k.table q).tcount < 0x1_0000_0000
    → kfree kernel_end k.kmem (k.table i).kstack ≡ some m
    → (reap kernel_end freevm k i ≡ answers (k.table i).pid k)
      × (k' : Kernel) × (getthreadretval kernel_end k (k.table i).pid
          ≡ returns (k.table i).threadretval k')
      × ((k'.table i).state ≡ unused)
      × ((k'.table i).pid ≡ 0)
      × (k'.kmem ≡ m)
      × ((k'.table q).tcount + 1 ≡ (k.table q).tcount)
      × ((j : ℕ) → j ≢ i → j ≢ q → k'.table j ≡ k.table j)
unfolding getthreadretval release_thread reap reset
getthreadretval_lem kernel_end freevm k i q m f attr par ne pos small free = (
  rw thread refl,
  record lighter {
    table = update lighter.table i (record (reset (lighter.table i)) { pgdir = 0 });
    kmem = m;
  },
  released ∙ rw (freed, release_thread),
  ground arith,
  ground arith,
  refl,
  ground arith,
  λ j a b. ground arith,
)
  where
    lighter : Kernel
    lighter = one_thread_less k q

    released : getthreadretval kernel_end k (k.table i).pid ≡ release_thread kernel_end k i q
    released = getthreadretval-first kernel_end k i q (k.table i).pid f attr par

    freed : kfree kernel_end k.kmem (lighter.table i).kstack ≡ some m
    freed = let same : (lighter.table i).kstack ≡ (k.table i).kstack = ground arith in rw same free

    thread : ((k.table i).type == 0) ≡ false
    thread = ground (arith, f.passes)
