-- ===== src/Console/Ring.antt =====
-- The ring `input` of console.c as two lists: what is ready for a reader, and the line that is
-- being edited, its newest character first.
use mutex.Common.{
  ℕ, zero, suc, ◌+◌, ◌%◌, ◌≤◌, ◌<◌, ◌≡◌, List, [], ◌∷◌, ◌++◌, reverse, update, refl, ap, ◌∙◌, arith,
  length, length-append,
}
use mathlib.Core.List.{append-nil, append_assoc, reverse-cons}
use mutex.Console.Input.{Input, input_buf}

-- The characters from the counter `r` on, and those before the counter `e`.
abbrev pub Stored : (ℕ → ℕ) → ℕ → List ℕ → Type 0
Stored buf r [] = Unit {0}
Stored buf r (x ∷ xs) = (buf (r % input_buf) ≡ x) × Stored buf ((r + 1) % 0x1_0000_0000) xs

abbrev pub before : ℕ → ℕ
before e = (e + 0xffff_ffff) % 0x1_0000_0000

abbrev Typed : (ℕ → ℕ) → ℕ → List ℕ → Type 0
Typed buf e [] = Unit {0}
Typed buf e (x ∷ xs) = (buf (before e % input_buf) ≡ x) × Typed buf (before e) xs

pub Stored-update :
    (buf : ℕ → ℕ) (e b r n : ℕ) (xs : List ℕ)
    → r < 0x1_0000_0000
    → e ≡ (r + n) % 0x1_0000_0000
    → length xs ≤ n
    → n < input_buf
    → Stored buf r xs
    → Stored (update buf (e % input_buf) b) r xs
Stored-update buf e b r n [] lt h le small s = tt
Stored-update buf e b r zero (x ∷ xs) lt h le small s = absurd (omega arith)
Stored-update buf e b r (suc n) (x ∷ xs) lt h le small s = (
  ground arith,
  Stored-update buf e b ((r + 1) % 0x1_0000_0000) n xs (omega arith) (omega arith) (omega arith)
      (omega arith) s.1,
)

Typed-update :
    (buf : ℕ → ℕ) (e b i n : ℕ) (xs : List ℕ)
    → i < 0x1_0000_0000
    → e ≡ (i + n) % 0x1_0000_0000
    → length xs + n < input_buf
    → Typed buf i xs
    → Typed (update buf (e % input_buf) b) i xs
Typed-update buf e b i n [] lt h small s = tt
Typed-update buf e b i n (x ∷ xs) lt h small s = (
  ground arith,
  Typed-update buf e b (before i) (suc n) xs (omega arith) (omega arith) (omega arith) s.1,
)

Stored-snoc :
    (buf : ℕ → ℕ) (r i c : ℕ) (xs : List ℕ)
    → r < 0x1_0000_0000
    → i ≡ (r + length xs) % 0x1_0000_0000
    → Stored buf r xs
    → buf (i % input_buf) ≡ c
    → Stored buf r (xs ++ c ∷ [])
Stored-snoc buf r i c [] lt at s h =
    let same : r % input_buf ≡ i % input_buf = omega arith in (ap buf same ∙ h, tt)
Stored-snoc buf r i c (x ∷ xs) lt at s h =
    (s.0, Stored-snoc buf ((r + 1) % 0x1_0000_0000) i c xs (omega arith) (omega arith) s.1 h)

length-reverse : (xs : List ℕ) → length (reverse xs) ≡ length xs
length-reverse [] = refl
length-reverse (x ∷ xs) =
    ap (λ ys. length ys) (reverse-cons x xs)
    ∙ omega (arith, length-append (reverse xs) (x ∷ []), length-reverse xs)

-- What was typed comes after what is ready.
Stored-reverse :
    (buf : ℕ → ℕ) (r e : ℕ) (xs cs : List ℕ)
    → r < 0x1_0000_0000
    → e ≡ (r + (length xs + length cs)) % 0x1_0000_0000
    → Stored buf r xs
    → Typed buf e cs
    → Stored buf r (xs ++ reverse cs)
Stored-reverse buf r e xs [] lt at s t = rw append-nil s
Stored-reverse buf r e xs (c ∷ cs) lt at s t =
    let ih = Stored-reverse buf r (before e) xs cs lt (omega arith) s t.1 in
    let counted : length (xs ++ reverse cs) ≡ length xs + length cs =
      length-append xs (reverse cs) ∙ ap (λ n. length xs + n) (length-reverse cs) in
    rw (reverse-cons c cs, ← append_assoc xs (reverse cs) (c ∷ []))
      (Stored-snoc buf r (before e) c (xs ++ reverse cs) lt (omega arith) ih t.0)

-- The ring holds the ready characters and the line.
pub record Holds (i : Input) (ready line : List ℕ) : Type 0 where
  pub counter : i.r < 0x1_0000_0000
  pub fits : length ready + length line ≤ input_buf
  pub written : i.w ≡ (i.r + length ready) % 0x1_0000_0000
  pub edited : i.e ≡ (i.r + (length ready + length line)) % 0x1_0000_0000
  pub stored : Stored i.buf i.r ready
  pub typed : Typed i.buf i.e line

pub Holds-erase :
    (i : Input) (x : ℕ) (ready xs : List ℕ)
    → Holds i ready (x ∷ xs)
    → Holds (record i { e = before i.e }) ready xs
Holds-erase i x ready xs h = record {
  counter = h.counter;
  fits = omega (arith, h.fits);
  written = h.written;
  edited = omega (arith, h.edited, h.counter);
  stored = h.stored;
  typed = h.typed.1;
}

pub Holds-enter :
    (i : Input) (c : ℕ) (ready line : List ℕ)
    → Holds i ready line
    → length ready + length line < input_buf
    → Holds
        (record i { buf = update i.buf (i.e % input_buf) c; e = (i.e + 1) % 0x1_0000_0000 })
        ready
        (c ∷ line)
Holds-enter i c ready line h room =
    let n = length ready + length line in
    let behind : i.e ≡ before ((i.e + 1) % 0x1_0000_0000) = omega (arith, h.edited) in
    record {
      counter = h.counter;
      fits = omega (arith, room);
      written = h.written;
      edited = omega (arith, h.edited);
      stored = Stored-update i.buf i.e c i.r n ready h.counter h.edited (omega arith) room h.stored;
      typed = rw (← behind) (
        ground arith,
        Typed-update i.buf i.e c i.e 0 line (omega (arith, h.edited)) (omega (arith, h.edited))
            (omega arith) h.typed,
      );
    }

pub Holds-commit_line :
    (i : Input) (ready line : List ℕ)
    → Holds i ready line
    → Holds (record i { w = i.e }) (ready ++ reverse line) []
Holds-commit_line i ready line h =
    let counted : length (ready ++ reverse line) ≡ length ready + length line =
      length-append ready (reverse line) ∙ ap (λ n. length ready + n) (length-reverse line) in
    record {
      counter = h.counter;
      fits = omega (arith, h.fits, counted);
      written = omega (arith, h.edited, counted);
      edited = omega (arith, h.edited, counted);
      stored = Stored-reverse i.buf i.r i.e ready line h.counter h.edited h.stored h.typed;
      typed = tt;
    }
