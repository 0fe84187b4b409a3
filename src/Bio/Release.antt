-- ===== src/Bio/Release.antt =====
-- A released buffer is found again, and is the last one to be recycled.
use mutex.Common.{
  ℕ, ◌<◌, ◌≡◌, ◌≢◌, refl, ◌∙◌, ap, Bool, true, false, none, some, List, [], ◌∷◌, ◌==◌,
  if◌then◌else◌, update, minus_one, arith, ltb,
}
use mutex.Bio.{
  nbuf, Buf, Bcache, first_in, last_in, unlink, gets, holds_sector, is_spare, bget, bwrite, brelse,
}
use mutex.Bio.Lists.{is_in}
use mutex.Bio.Laws.{IsCache, Got, update-IsCache, hit-apart}

is_in-unlink :
    (i j : ℕ) (is : List ℕ) → is_in j (unlink i is) ≡ (if i == j then false else is_in j is)
unfolding unlink
is_in-unlink i j [] = ground arith
is_in-unlink i j (x ∷ is) = ground (arith, is_in-unlink i j is)

last_in-cons :
    (test : ℕ → Bool) (i k : ℕ) (is : List ℕ)
    → last_in test is ≡ some k
    → last_in test (i ∷ is) ≡ some k
unfolding last_in
last_in-cons test i k is e = rw e refl

-- The first buffer of the list, if it holds the sector and is not busy.
front-bget :
    (bc : Bcache) (dev sector i : ℕ) (is : List ℕ)
    → bc.order ≡ i ∷ is
    → holds_sector bc dev sector i ≡ true
    → (bc.buf i).busy ≡ false
    → bget bc dev sector
      ≡ gets i (record bc { buf = update bc.buf i (record (bc.buf i) { busy = true }) })
unfolding bget first_in
front-bget bc dev sector i is e holds idle =
    let found : first_in (holds_sector bc dev sector) bc.order ≡ some i =
      ap (first_in (holds_sector bc dev sector)) e ∙ rw (holds, first_in) refl in
    rw (found, bget) (rw idle refl)

all_in :
    (bc : Bcache) (i j : ℕ)
    → is_in j bc.order ≡ ltb j nbuf
    → i < nbuf
    → is_in j (i ∷ unlink i bc.order) ≡ ltb j nbuf
all_in bc i j all low = ground (arith, is_in-unlink i j bc.order, all)

-- A buffer that `bget` has given can be written, and still be released: neither panics.
brelse-bwrite-bget :
    (bc bc' : Bcache) (dev sector i : ℕ)
    → Got bc dev sector i bc'
    → (bc'' : Bcache) × (bwrite bc' i ≡ some bc'')
      × ((bc''.buf i).dirty ≡ false)
      × ((bc''.buf i).valid ≡ true)
      × (brelse bc'' i ≢ none)
unfolding bwrite brelse
brelse-bwrite-bget bc bc' dev sector i got = (
  record bc' { buf = update bc'.buf i (record (bc'.buf i) { valid = true; dirty = false }) },
  ground (arith, got.is_busy),
  ground arith,
  ground arith,
  λ e. ground (arith, got.is_busy),
)

-- `brelse` of a busy buffer of a real device, in a cache that has each sector once, keeps it so and puts
-- the buffer first. Then `bget` of its sector takes it again; and as long as the rest of the list has a
-- spare buffer, the last spare one of the list is in that rest.
pub bget-brelse :
    (bc : Bcache) (i : ℕ)
    → IsCache bc
    → i < nbuf
    → (bc.buf i).busy ≡ true
    → (bc.buf i).dev ≢ minus_one
    → (bc' : Bcache) × (brelse bc i ≡ some bc')
      × IsCache bc'
      × (bc'.order ≡ i ∷ unlink i bc.order)
      × (bget bc' (bc.buf i).dev (bc.buf i).sector
          ≡ gets i (record bc' { buf = update bc'.buf i (record (bc'.buf i) { busy = true }) }))
      × ((k : ℕ)
          → last_in (is_spare bc') (unlink i bc.order) ≡ some k
          → last_in (is_spare bc') bc'.order ≡ some k)
unfolding brelse
bget-brelse bc i v low busy real =
    let idle : Buf = record (bc.buf i) { busy = false } in
    let kept = update-IsCache bc i idle v (λ j lj ne. hit-apart bc i j v low real lj ne) in
    let bc' : Bcache = record { buf = update bc.buf i idle; order = i ∷ unlink i bc.order } in
    (
      bc',
      rw busy refl,
      record { all = λ j. all_in bc i j (v.all j) low; once = kept.once },
      refl,
      front-bget bc' (bc.buf i).dev (bc.buf i).sector i (unlink i bc.order) refl (ground arith)
          (ground arith),
      λ k e. last_in-cons (is_spare bc') i k (unlink i bc.order) e,
    )
