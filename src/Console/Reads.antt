-- ===== src/Console/Reads.antt =====
-- consoleread of console.c on the list of ready characters.
use mutex.Common.{
  ℕ, zero, suc, ◌+◌, ◌-◌, ◌%◌, ◌<◌, ◌≡◌, inl, inr, Bool, true, false, not, ◌&&◌, List, [], ◌∷◌,
  ◌++◌, ltb, ◌==◌, if◌then◌else◌, refl, ap, sym, ◌∙◌, arith, length, Bool-cases,
}
use mutex.Console.Input.{
  Input, ctrl_d, advance, back, Stop, finished, starved, copied, copy_line, Readout, gives, fails,
  rests, returned, consoleread,
}
use mutex.Console.Ring.{Holds}
use mutex.Proc.{Chan, Kernel}
use mutex.Proc.Sched.{sleep_begin}

-- What ends the characters that a call copies: a newline, which it copies too; their number; a
-- control-D; or the end of what is ready.
pub data Ending : Type 0 where
  newline counted end_mark nothing : Ending

-- What is ready from the ending on, if `rest` is behind it.
abbrev pub tail : Ending → List ℕ → List ℕ
tail newline rest = b'\n' ∷ rest
tail counted rest = rest
tail end_mark rest = ctrl_d ∷ rest
tail nothing rest = []

-- The number of characters before it, for a call for `n`.
abbrev pub comes : Ending → ℕ → ℕ → Bool
comes newline len n = ltb len n
comes counted len n = len == n
comes end_mark len n = ltb len n
comes nothing len n = ltb len n

unfoldable pub ordinary : List ℕ → Bool
ordinary [] = true
ordinary (c ∷ cs) = not (c == ctrl_d) && (not (c == b'\n') && ordinary cs)

abbrev pub taken : Ending → List ℕ → List ℕ
taken newline bs = bs ++ b'\n' ∷ []
taken counted bs = bs
taken end_mark bs = bs
taken nothing bs = bs

abbrev stop_of : Ending → Stop
stop_of newline = finished
stop_of counted = finished
stop_of end_mark = finished
stop_of nothing = starved

-- A control-D stays for the next call when something was copied.
abbrev pub stays : Bool → Ending → List ℕ → List ℕ
stays some_copied newline rest = rest
stays some_copied counted rest = rest
stays some_copied end_mark rest = if some_copied then ctrl_d ∷ rest else rest
stays some_copied nothing rest = []

Holds-advance :
    (i : Input) (c : ℕ) (ready line : List ℕ)
    → Holds i (c ∷ ready) line
    → Holds (advance i) ready line
Holds-advance i c ready line h = record {
  counter = omega arith;
  fits = omega (arith, h.fits);
  written = omega (arith, h.written, h.counter);
  edited = omega (arith, h.edited, h.counter);
  stored = h.stored.1;
  typed = h.typed;
}

back-advance : (i : Input) → i.r < 0x1_0000_0000 → back (advance i) ≡ i
back-advance i h =
    let same : ((i.r + 1) % 0x1_0000_0000 + 0xffff_ffff) % 0x1_0000_0000 ≡ i.r = omega arith in
    ap (λ x. record i { r = x }) same

taken-cons : (c : ℕ) (e : Ending) (bs : List ℕ) → taken e (c ∷ bs) ≡ c ∷ taken e bs
taken-cons c newline bs = refl
taken-cons c counted bs = refl
taken-cons c end_mark bs = refl
taken-cons c nothing bs = refl

comes-suc : (e : Ending) (len m : ℕ) → comes e len m ≡ true → comes e (suc len) (suc m) ≡ true
comes-suc newline len m h = ground arith
comes-suc counted len m h = ground arith
comes-suc end_mark len m h = ground arith
comes-suc nothing len m h = ground arith

module _ (target : ℕ) (line : List ℕ) where
  -- How the loop ends that has `m` characters to go.
  abbrev Ends : ℕ → Input → List ℕ → Type 0
  Ends m i ready =
      (e : Ending) × (bs rest : List ℕ) × (i' : Input) × (ready ≡ bs ++ tail e rest)
      × (ordinary bs ≡ true)
      × (comes e (length bs) m ≡ true)
      × Holds i' (stays (ltb (m - length bs) target) e rest) line
      × (copy_line target m i ≡ copied (stop_of e) (taken e bs) i')

  not_empty : (i : Input) (c : ℕ) (ready : List ℕ) → Holds i (c ∷ ready) line → (i.r == i.w) ≡ false
  not_empty i c ready h = ground (arith, h.written, h.counter, h.fits)

  end_mark-Ends :
      (m : ℕ) (i : Input) (ready : List ℕ)
      → Holds i (ctrl_d ∷ ready) line
      → Ends (suc m) i (ctrl_d ∷ ready)
  unfolding copy_line ordinary
  end_mark-Ends m i ready h =
      let full = not_empty i ctrl_d ready h in
      elim (Bool-cases (ltb (suc m) target)) [
        | inl y ↦
            let whole : ltb (suc m - 0) target ≡ true = ground arith in
            (
              end_mark,
              [],
              ready,
              i,
              refl,
              refl,
              ground arith,
              rw whole h,
              rw (full, h.stored.0, y, back-advance i h.counter) refl,
            )
        | inr n ↦
            let whole : ltb (suc m - 0) target ≡ false = ground arith in
            (
              end_mark,
              [],
              ready,
              advance i,
              refl,
              refl,
              ground arith,
              rw whole (Holds-advance i ctrl_d ready line h),
              rw (full, h.stored.0, n) refl,
            )
      ]

  newline-Ends :
      (m : ℕ) (i : Input) (ready : List ℕ)
      → Holds i (b'\n' ∷ ready) line
      → Ends (suc m) i (b'\n' ∷ ready)
  unfolding copy_line ordinary
  newline-Ends m i ready h = (
    newline,
    [],
    ready,
    advance i,
    refl,
    refl,
    ground arith,
    Holds-advance i b'\n' ready line h,
    rw (not_empty i b'\n' ready h, h.stored.0) refl,
  )

  more-Ends :
      (m : ℕ) (i : Input) (c : ℕ) (ready : List ℕ)
      → (c == ctrl_d) ≡ false
      → (c == b'\n') ≡ false
      → Holds i (c ∷ ready) line
      → Ends m (advance i) ready
      → Ends (suc m) i (c ∷ ready)
  unfolding copy_line ordinary
  more-Ends m i c ready not_end other h later =
      let (e, bs, rest, i', split, plain, there, ring, result) = later in
      let same : suc m - suc (length bs) ≡ m - length bs = omega arith in
      (
        e,
        c ∷ bs,
        rest,
        i',
        ap (λ q. c ∷ q) split,
        rw (not_end, other) plain,
        comes-suc e (length bs) m there,
        rw same ring,
        rw (not_empty i c ready h, h.stored.0, not_end, other, result)
            (ap (λ q. copied (stop_of e) q i') (sym (taken-cons c e bs))),
      )

  copy_line_lem : (m : ℕ) (i : Input) (ready : List ℕ) → Holds i ready line → Ends m i ready
  unfolding copy_line ordinary
  copy_line_lem zero i ready h = (counted, [], ready, i, refl, refl, refl, h, refl)
  copy_line_lem (suc m) i [] h =
      let empty : (i.r == i.w) ≡ true = ground (arith, h.written, h.counter) in
      (nothing, [], [], i, refl, refl, ground arith, h, rw empty refl)
  copy_line_lem (suc m) i (c ∷ ready) h = elim (Bool-cases (c == ctrl_d)) [
    | inl d ↦
        let same : ctrl_d ≡ c = ground arith in rw (← same) (end_mark-Ends m i ready (rw same h))
    | inr not_end ↦ elim (Bool-cases (c == b'\n')) [
      | inl nl ↦
          let same : b'\n' ≡ c = ground arith in rw (← same) (newline-Ends m i ready (rw same h))
      | inr other ↦
          more-Ends m i c ready not_end other h
            (copy_line_lem m (advance i) ready (Holds-advance i c ready line h))
    ]
  ]

stays-copied :
    (e : Ending) (n len : ℕ) (rest : List ℕ)
    → comes e len n ≡ true
    → stays (ltb (n - len) n) e rest ≡ stays (ltb 0 len) e rest
stays-copied newline n len rest h = refl
stays-copied counted n len rest h = refl
stays-copied end_mark n len rest h =
    let same : ltb (n - len) n ≡ ltb 0 len = ground arith in rw same refl
stays-copied nothing n len rest h = refl

-- What a call gives that copies `bs` up to the ending.
abbrev pub readout : Chan → Kernel → ℕ → Ending → List ℕ → Input → Readout
readout input_r k me newline bs i = gives (bs ++ b'\n' ∷ []) i
readout input_r k me counted bs i = gives bs i
readout input_r k me end_mark bs i = gives bs i
readout input_r k me nothing bs i =
    if (k.table me).killed == 0 then rests bs i (sleep_begin input_r k me) else fails i

returned-readout :
    (input_r : Chan) (k : Kernel) (me : ℕ) (e : Ending) (bs : List ℕ) (i : Input)
    → returned input_r k me (copied (stop_of e) (taken e bs) i) ≡ readout input_r k me e bs i
returned-readout input_r k me newline bs i = refl
returned-readout input_r k me counted bs i = refl
returned-readout input_r k me end_mark bs i = refl
returned-readout input_r k me nothing bs i = refl

-- `consoleread` of `n` bytes from a ring that holds the ready characters and the edited line: some
-- first part `bs` of what is ready, with no newline and no control-D, is followed by its ending,
-- which comes before the `n`th character or is their number. A newline is read with it; a
-- control-D is taken only if nothing stands before it, so that the next call reads no byte; and if
-- there is no ending, the process sleeps, or the call fails when the process was killed. The ring
-- holds the rest and the same line.
pub consoleread_lem :
    (input_r : Chan) (k : Kernel) (me : ℕ) (i : Input) (n : ℕ) (ready line : List ℕ)
    → Holds i ready line
    → (e : Ending) × (bs rest : List ℕ) × (i' : Input) × (ready ≡ bs ++ tail e rest)
      × (ordinary bs ≡ true)
      × (comes e (length bs) n ≡ true)
      × Holds i' (stays (ltb 0 (length bs)) e rest) line
      × (consoleread input_r k me i n ≡ readout input_r k me e bs i')
unfolding consoleread
consoleread_lem input_r k me i n ready line h =
    let (e, bs, rest, i', split, plain, there, ring, result) = copy_line_lem n line n i ready h in
    (
      e,
      bs,
      rest,
      i',
      split,
      plain,
      there,
      rw (stays-copied e n (length bs) rest there) at ring,
      ap (returned input_r k me) result ∙ returned-readout input_r k me e bs i',
    )
