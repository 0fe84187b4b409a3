-- ===== src/Pipe/Fifo.antt =====
-- A pipe is a queue of at most 512 bytes.
use mutex.Common.{
  ℕ, zero, suc, ◌+◌, ◌%◌, ◌≤◌, ◌<◌, ◌≡◌, ◌≢◌, ◌⊎◌, refl, ap, inl, inr, true, false, not, ◌&&◌, ◌||◌,
  List, [], ◌∷◌, ◌++◌, ◌==◌, if◌then◌else◌, arith, update, length, length-append, take, drop,
  Bool-cases,
}
use mathlib.Core.List.{append-nil, append_assoc}
use mutex.Proc.{Chan, Kernel}
use mutex.Proc.Sched.{wakeup, sleep_begin}
use mutex.Pipe.Defs.{
  Pipe, pipesize, new_pipe, is_full, is_empty, put, Write, wrote, refused, sleeps, pipewrite, get,
  read, killed, waits, piperead,
}

-- The bytes that the counter `r` and its successors point at.
abbrev pub Stored : (ℕ → ℕ) → ℕ → List ℕ → Type 0
Stored bytes r [] = Unit {0}
Stored bytes r (x ∷ xs) = (bytes (r % pipesize) ≡ x) × Stored bytes ((r + 1) % 0x1_0000_0000) xs

-- The pipe holds the bytes `xs`, the next to be read first.
pub record Holds (p : Pipe) (xs : List ℕ) : Type 0 where
  pub counter : p.nread < 0x1_0000_0000
  pub fits : length xs ≤ pipesize
  pub counted : p.nwrite ≡ (p.nread + length xs) % 0x1_0000_0000
  pub stored : Stored p.bytes p.nread xs

pub new_pipe-Holds : (bytes : ℕ → ℕ) → Holds (new_pipe bytes) []
unfolding new_pipe
new_pipe-Holds bytes = record {
  counter = omega arith;
  fits = omega arith;
  counted = refl;
  stored = tt;
}

-- A byte behind the window leaves the window.
Stored-update :
    (bytes : ℕ → ℕ) (w b r : ℕ) (xs : List ℕ)
    → r < 0x1_0000_0000
    → w ≡ (r + length xs) % 0x1_0000_0000
    → length xs < pipesize
    → Stored bytes r xs
    → Stored (update bytes (w % pipesize) b) r (xs ++ b ∷ [])
Stored-update bytes w b r [] lt e fits s = (ground arith, tt)
Stored-update bytes w b r (x ∷ xs) lt e fits s = (
  ground arith,
  Stored-update bytes w b ((r + 1) % 0x1_0000_0000) xs (omega arith) (omega arith) (omega arith)
      s.1,
)

put-Holds :
    (p : Pipe) (b : ℕ) (xs : List ℕ)
    → Holds p xs
    → is_full p ≡ false
    → Holds (put p b) (xs ++ b ∷ [])
unfolding put
put-Holds p b xs h room =
    let small : length xs < pipesize = ground (arith, h.counted, h.fits, h.counter) in
    record {
      counter = h.counter;
      fits = omega (arith, length-append {0} xs (b ∷ []));
      counted = omega (arith, length-append {0} xs (b ∷ []), h.counted);
      stored = Stored-update p.bytes p.nwrite b p.nread xs h.counter h.counted small h.stored;
    }

-- The bytes that a call of `pipewrite` has written, those that are left, and the pipe after it.
abbrev pub Wrote : Pipe → List ℕ → List ℕ → List ℕ → List ℕ → Pipe → Type 0
Wrote p xs bs done rest p' = (bs ≡ done ++ rest) × Holds p' (xs ++ done)

module _ (readers writers : Chan) (k : Kernel) (me : ℕ) where
  -- How a call of `pipewrite` that leaves `rest` and the pipe `p'` comes out.
  abbrev pub Ends : List ℕ → Pipe → Write → Type 0
  Ends rest p' out =
      ((rest ≡ []) × (out ≡ wrote p' (wakeup readers k)))
      ⊎ ((is_full p' ≡ true)
          × (rest ≢ [])
          × ((p'.readopen ≡ 0) ⊎ ((k.table me).killed ≢ 0))
          × (out ≡ refused p' k))
      ⊎ ((is_full p' ≡ true)
          × (rest ≢ [])
          × (p'.readopen ≢ 0)
          × ((k.table me).killed ≡ 0)
          × (out ≡ sleeps rest p' (sleep_begin writers (wakeup readers k) me)))

  pipewrite-full :
      (p : Pipe) (b : ℕ) (bs : List ℕ)
      → is_full p ≡ true
      → Ends (b ∷ bs) p (pipewrite readers writers p k me (b ∷ bs))
  unfolding pipewrite
  pipewrite-full p b bs full =
      elim (Bool-cases (p.readopen == 0 || not ((k.table me).killed == 0))) [
        | inl gone ↦ inr (inl (full, λ e. cc, ground arith, rw (full, gone)))
        | inr alive ↦ inr (inr (full, λ e. cc, ground arith, ground arith, rw (full, alive)))
      ]

  pipewrite-room :
      (p : Pipe) (b : ℕ) (bs : List ℕ)
      → is_full p ≡ false
      → pipewrite readers writers p k me (b ∷ bs) ≡ pipewrite readers writers (put p b) k me bs
  unfolding pipewrite
  pipewrite-room p b bs room = rw room

  -- `pipewrite` of the bytes `bs` to a pipe that holds `xs`, run until it ends or sleeps, appends
  -- some first part of `bs`. It is done exactly if that is all of `bs`, and then the readers are
  -- woken. Else the pipe is full: the call has failed because no reader is left or the writer was
  -- killed, or neither is so, and it sleeps with the rest, having woken the readers.
  pub pipewrite_lem :
      (p : Pipe) (xs bs : List ℕ)
      → Holds p xs
      → (done rest : List ℕ) × (p' : Pipe) × Wrote p xs bs done rest p'
        × Ends rest p' (pipewrite readers writers p k me bs)
  unfolding pipewrite
  pipewrite_lem p xs [] h = ([], [], p, (refl, rw append-nil h), inl (refl, refl))
  pipewrite_lem p xs (b ∷ bs) h = elim (Bool-cases (is_full p)) [
    | inl full ↦ ([], b ∷ bs, p, (refl, rw append-nil h), pipewrite-full p b bs full)
    | inr room ↦
        let (done, rest, p', w, out) =
          pipewrite_lem (put p b) (xs ++ b ∷ []) bs (put-Holds p b xs h room) in
        (
          b ∷ done,
          rest,
          p',
          (ap (◌∷◌ b) w.0, rw (append_assoc xs (b ∷ []) done) at w.1),
          rw (pipewrite-room p b bs room) out,
        )
  ]

get_lem :
    (n : ℕ) (p : Pipe) (xs : List ℕ)
    → Holds p xs
    → ((get n p).0 ≡ take n xs) × Holds (get n p).1 (drop n xs)
unfolding get
get_lem zero p xs h = (refl, h)
get_lem (suc n) p [] h =
    let empty : is_empty p ≡ true = ground (arith, h.counted, h.counter) in rw empty (refl, h)
get_lem (suc n) p (x ∷ xs) h =
    let left : is_empty p ≡ false = ground (arith, h.counted, h.counter, h.fits) in
    let (a, b) = get_lem n (record p { nread = (p.nread + 1) % 0x1_0000_0000 }) xs rest in
    rw left (rw (a, h.stored.0) refl, b)
  where
    rest : Holds (record p { nread = (p.nread + 1) % 0x1_0000_0000 }) xs
    rest = record {
      counter = omega arith;
      fits = omega (arith, h.fits);
      counted = omega (arith, h.counted, h.counter);
      stored = h.stored.1;
    }

-- `piperead` of at most `n` bytes from a pipe that holds `xs`. If `xs` is empty and the pipe may
-- still be written, it sleeps, or fails if the reader was killed, and the pipe is as before. Else
-- it delivers the first `n` bytes of `xs`, all of them if there are fewer, in order; the pipe holds
-- the others, and the writers are woken.
pub piperead_lem :
    (readers writers : Chan) (p : Pipe) (k : Kernel) (me n : ℕ) (xs : List ℕ)
    → Holds p xs
    → ((xs ≡ [])
        × (p.writeopen ≢ 0)
        × (piperead readers writers p k me n
            ≡ (if (k.table me).killed == 0 then waits (sleep_begin readers k me) else killed)))
      ⊎ (((xs ≢ []) ⊎ (p.writeopen ≡ 0))
          × (p' : Pipe) × Holds p' (drop n xs)
          × (piperead readers writers p k me n ≡ read (take n xs) p' (wakeup writers k)))
unfolding piperead
piperead_lem readers writers p k me n xs h =
    elim (Bool-cases (is_empty p && not (p.writeopen == 0))) [
      | inl wait ↦ inl (nothing xs h wait, ground arith, rw wait)
      | inr go ↦
          let (a, b) = get_lem n p xs h in inr (something xs h go, (get n p).1, b, rw (go, a))
    ]
  where
    nothing : (xs : List ℕ) → Holds p xs → (is_empty p && not (p.writeopen == 0)) ≡ true → xs ≡ []
    nothing [] h w = refl
    nothing (x ∷ xs) h w = absurd (ground (arith, h.counted, h.counter, h.fits))

    something :
        (xs : List ℕ)
        → Holds p xs
        → (is_empty p && not (p.writeopen == 0)) ≡ false
        → (xs ≢ []) ⊎ (p.writeopen ≡ 0)
    something [] h w = inr (ground (arith, h.counted, h.counter))
    something (x ∷ xs) h w = inl (λ e. cc)
