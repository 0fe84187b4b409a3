-- ===== src/Pipe/Defs.antt =====
-- pipewrite, piperead and pipeclose, each as far as it runs without sleeping. `readers` and
-- `writers` are the channels `&p->nread` and `&p->nwrite`; the pipe's lock is held throughout.
use mutex.Common.{
  ℕ, zero, suc, ◌+◌, ◌%◌, Bool, not, ◌&&◌, ◌||◌, Option, none, some, List, [], ◌∷◌, ◌==◌,
  if◌then◌else◌, update,
}
use mutex.Kalloc.{kfree}
use mutex.Proc.{Chan, Kernel}
use mutex.Proc.Sched.{wakeup, sleep_begin}

abbrev pub pipesize : ℕ
pipesize = 512

pub record Pipe : Type 0 where
  pub bytes : ℕ → ℕ
  pub nread : ℕ
  pub nwrite : ℕ
  pub readopen : ℕ
  pub writeopen : ℕ

-- What `pipealloc` puts into the page of a new pipe.
unfoldable pub new_pipe : (ℕ → ℕ) → Pipe
new_pipe bytes = record { bytes = bytes; nread = 0; nwrite = 0; readopen = 1; writeopen = 1 }

abbrev pub is_full : Pipe → Bool
is_full p = p.nwrite == (p.nread + pipesize) % 0x1_0000_0000

abbrev pub is_empty : Pipe → Bool
is_empty p = p.nread == p.nwrite

-- `p->data[p->nwrite++ % PIPESIZE] = b`
unfoldable pub put : Pipe → ℕ → Pipe
put p b = record p {
  bytes = update p.bytes (p.nwrite % pipesize) b;
  nwrite = (p.nwrite + 1) % 0x1_0000_0000;
}

-- `pipewrite` is done; it failed; or it sleeps, and goes on with the bytes that are left.
pub data Write : Type 0 where
  wrote : Pipe → Kernel → Write
  refused : Pipe → Kernel → Write
  sleeps : List ℕ → Pipe → Kernel → Write

module _ (readers writers : Chan) where
  unfoldable pub pipewrite : Pipe → Kernel → ℕ → List ℕ → Write
  unfolding put
  pipewrite p k me [] = wrote p (wakeup readers k)
  pipewrite p k me (b ∷ bs) =
      let rest = pipewrite (put p b) k me bs in
      if is_full p
      then (if p.readopen == 0 || not ((k.table me).killed == 0)
          then refused p k
          else sleeps (b ∷ bs) p (sleep_begin writers (wakeup readers k) me))
      else rest

-- The copying loop of `piperead`: at most `n` bytes.
unfoldable pub get : ℕ → Pipe → List ℕ × Pipe
get zero p = ([], p)
get (suc n) p =
    let (bs, p') = get n (record p { nread = (p.nread + 1) % 0x1_0000_0000 }) in
    if is_empty p then ([], p) else (p.bytes (p.nread % pipesize) ∷ bs, p')

pub data Read : Type 0 where
  read : List ℕ → Pipe → Kernel → Read
  killed : Read
  waits : Kernel → Read

module _ (readers writers : Chan) where
  unfoldable pub piperead : Pipe → Kernel → ℕ → ℕ → Read
  piperead p k me n =
      if is_empty p && not (p.writeopen == 0)
      then (if (k.table me).killed == 0 then waits (sleep_begin readers k me) else killed)
      else (let (bs, p') = get n p in read bs p' (wakeup writers k))

  -- The last end to be closed gives the page at `page` back; `none` is a panic.
  unfoldable pub pipeclose : ℕ → ℕ → Pipe → Kernel → ℕ → Option (Pipe × Kernel)
  pipeclose kernel_end page p k writable =
      let p' = if writable == 0 then record p { readopen = 0 } else record p { writeopen = 0 } in
      let k' = if writable == 0 then wakeup writers k else wakeup readers k in
      if p'.readopen == 0 && p'.writeopen == 0
      then elim (kfree kernel_end k'.kmem page) [
        | none ↦ none
        | some kmem' ↦ some (p', record k' { kmem = kmem' })
      ]
      else some (p', k')
