-- ===== src/Bio.antt =====
-- The list of buffers of bio.c: binit, bget, brelse, and bwrite as far as the flags go. A buffer is its
-- index in `bcache.buf`; `order` is the list through `prev` and `next`, the most recently used one first.
-- The data of buffers, and what bread and bwrite do with them, are those of Log. The `wakeup` of brelse changes no buffer and is left out.
pub mod Lists
pub mod Laws
pub mod Release
use mutex.Common.{
  ℕ, zero, suc, ◌+◌, ◌-◌, Bool, true, false, not, ◌&&◌, ◌||◌, Option, none, some, List, [], ◌∷◌,
  ◌==◌, if◌then◌else◌, update, minus_one,
}

abbrev pub nbuf : ℕ
nbuf = 30

pub record Buf : Type 0 where
  pub dev : ℕ
  pub sector : ℕ
  pub busy : Bool
  pub valid : Bool
  pub dirty : Bool

pub record Bcache : Type 0 where
  pub buf : ℕ → Buf
  pub order : List ℕ

-- The first one of the list that passes the test, and the last one.
unfoldable pub first_in : (ℕ → Bool) → List ℕ → Option ℕ
first_in test [] = none
first_in test (i ∷ is) = let rest = first_in test is in if test i then some i else rest

unfoldable pub last_in : (ℕ → Bool) → List ℕ → Option ℕ
last_in test [] = none
last_in test (i ∷ is) = elim (last_in test is) [
  | some j ↦ some j
  | none ↦ if test i then some i else none
]

-- `b->next->prev = b->prev; b->prev->next = b->next;`
unfoldable pub unlink : ℕ → List ℕ → List ℕ
unlink i [] = []
unlink i (j ∷ js) = let rest = unlink i js in if i == j then rest else j ∷ rest

-- The loop of `binit`, over the buffers from `i` on, `n` of them, with the list so far.
unfoldable pub link_from : ℕ → ℕ → List ℕ → List ℕ
link_from zero i is = is
link_from (suc n) i is = link_from n (i + 1) (i ∷ is)

unfoldable pub binit : Bcache
unfolding link_from
binit = record {
  buf = λ i. record { dev = minus_one; sector = 0; busy = false; valid = false; dirty = false };
  order = link_from nbuf 0 [];
}

-- `bget`: a busy buffer; or the one that the process sleeps on before it looks again; or a panic.
pub data Get : Type 0 where
  gets : ℕ → Bcache → Get
  sleeps_on : ℕ → Get
  no_buffers : Get

abbrev pub holds_sector : Bcache → ℕ → ℕ → ℕ → Bool
holds_sector bc dev sector i = (bc.buf i).dev == dev && (bc.buf i).sector == sector

abbrev pub is_spare : Bcache → ℕ → Bool
is_spare bc i = not (bc.buf i).busy && not (bc.buf i).dirty

unfoldable pub bget : Bcache → ℕ → ℕ → Get
unfolding first_in last_in
bget bc dev sector = elim (first_in (holds_sector bc dev sector) bc.order) [
  | some i ↦
      if not (bc.buf i).busy
      then gets i (record bc { buf = update bc.buf i (record (bc.buf i) { busy = true }) })
      else sleeps_on i
  | none ↦ elim (last_in (is_spare bc) bc.order) [
    | none ↦ no_buffers
    | some i ↦ gets i (record bc {
      buf =
          update bc.buf i
            (record { dev = dev; sector = sector; busy = true; valid = false; dirty = false });
    })
  ]
]

-- `bwrite`, of the flags; `none` is a panic. When `iderw` returns, the buffer is valid and not dirty.
unfoldable pub bwrite : Bcache → ℕ → Option Bcache
bwrite bc i =
    if not (bc.buf i).busy
    then none
    else some
        (record bc { buf = update bc.buf i (record (bc.buf i) { valid = true; dirty = false }) })

-- `brelse`; `none` is a panic.
unfoldable pub brelse : Bcache → ℕ → Option Bcache
unfolding unlink
brelse bc i =
    if not (bc.buf i).busy
    then none
    else some (record {
      buf = update bc.buf i (record (bc.buf i) { busy = false });
      order = i ∷ unlink i bc.order;
    })
