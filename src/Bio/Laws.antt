-- ===== src/Bio/Laws.antt =====
-- The buffer cache has each sector once.
use mutex.Common.{
  ℕ, ◌<◌, ◌≡◌, ◌≢◌, ◌⊎◌, inl, inr, refl, sym, ◌∙◌, true, false, [], update, minus_one, arith,
  Bool-cases, Option-cases, ltb, ℕ_discrete,
}
use mutex.Bio.{
  nbuf, Buf, Bcache, first_in, last_in, gets, sleeps_on, no_buffers, holds_sector, is_spare, bget,
  binit,
}
use mutex.Bio.Lists.{
  is_in, first_in-some, first_in-none, last_in-some, last_in-none, is_in-link_from,
}

-- The list has every buffer, and no two buffers hold the same sector.
pub record IsCache (bc : Bcache) : Type 0 where
  pub all : (i : ℕ) → is_in i bc.order ≡ ltb i nbuf
  pub once :
      (i j : ℕ)
      → i < nbuf
      → j < nbuf
      → (bc.buf i).dev ≢ minus_one
      → (bc.buf i).dev ≡ (bc.buf j).dev
      → (bc.buf i).sector ≡ (bc.buf j).sector
      → i ≡ j

-- What `bget` answers with buffer `i`: it was not busy and now is, and holds the sector; it is the buffer
-- that held it, or a clean one, now not valid; and no other buffer and no place in the list changes.
pub record Got (bc : Bcache) (dev sector i : ℕ) (bc' : Bcache) : Type 0 where
  pub below : i < nbuf
  pub was_free : (bc.buf i).busy ≡ false
  pub is_busy : (bc'.buf i).busy ≡ true
  pub its_dev : (bc'.buf i).dev ≡ dev
  pub its_sector : (bc'.buf i).sector ≡ sector
  pub state :
      (holds_sector bc dev sector i ≡ true
        × ((bc'.buf i).valid ≡ (bc.buf i).valid)
        × ((bc'.buf i).dirty ≡ (bc.buf i).dirty))
      ⊎ (((bc.buf i).dirty ≡ false) × ((bc'.buf i).valid ≡ false) × ((bc'.buf i).dirty ≡ false))
  pub others : (j : ℕ) → j ≢ i → bc'.buf j ≡ bc.buf j
  pub same_order : bc'.order ≡ bc.order

-- A buffer replaced by one whose sector no other buffer holds.
pub update-IsCache :
    (bc : Bcache) (i : ℕ) (b : Buf)
    → IsCache bc
    → ((j : ℕ) → j < nbuf → j ≢ i → ((bc.buf j).dev ≢ b.dev) ⊎ ((bc.buf j).sector ≢ b.sector))
    → IsCache (record bc { buf = update bc.buf i b })
update-IsCache bc i b v apart = record {
  all = v.all;
  once = λ j k lj lk real e e'. ground (arith, v.once j k lj lk, apart j lj, apart k lk);
}

module _ (bc : Bcache) (dev sector i : ℕ) (low : i < nbuf) where
  hit-Got :
      (holds_sector bc dev sector i ≡ true)
      → (bc.buf i).busy ≡ false
      → Got bc dev sector i
          (record bc { buf = update bc.buf i (record (bc.buf i) { busy = true }) })
  hit-Got holds idle = record {
    below = low;
    was_free = idle;
    is_busy = ground arith;
    its_dev = ground (arith, holds);
    its_sector = ground (arith, holds);
    state = inl (holds, ground arith, ground arith);
    others = λ j ne. ground arith;
    same_order = refl;
  }

  abbrev recycled_cache : Bcache
  recycled_cache = record bc {
    buf =
        update bc.buf i
          (record { dev = dev; sector = sector; busy = true; valid = false; dirty = false });
  }

  recycled-Got : is_spare bc i ≡ true → Got bc dev sector i recycled_cache
  recycled-Got spare = record {
    below = low;
    was_free = ground (arith, spare);
    is_busy = ground arith;
    its_dev = ground arith;
    its_sector = ground arith;
    state = inr (ground (arith, spare), ground arith, ground arith);
    others = λ j ne. ground arith;
    same_order = refl;
  }

its_dev :
    (bc : Bcache) (dev sector i : ℕ) → holds_sector bc dev sector i ≡ true → (bc.buf i).dev ≡ dev
its_dev bc dev sector i holds = ground (arith, holds)

not_held :
    (bc : Bcache) (dev sector j : ℕ)
    → holds_sector bc dev sector j ≡ false
    → ((bc.buf j).dev ≢ dev) ⊎ ((bc.buf j).sector ≢ sector)
not_held bc dev sector j e = ground (arith, e)

-- Another buffer does not hold the sector of `i`.
pub hit-apart :
    (bc : Bcache) (i j : ℕ)
    → IsCache bc
    → i < nbuf
    → (bc.buf i).dev ≢ minus_one
    → j < nbuf
    → j ≢ i
    → ((bc.buf j).dev ≢ (bc.buf i).dev) ⊎ ((bc.buf j).sector ≢ (bc.buf i).sector)
hit-apart bc i j v low real lj other = elim (ℕ_discrete (bc.buf j).dev (bc.buf i).dev) [
  | no apart ↦ inl apart
  | yes same ↦ inr (λ e. other (v.once j i lj low (λ n. real (sym same ∙ n)) same e))
]

-- `bget` of a sector of a device other than -1, in a cache that has each sector once: it takes a buffer for it, and the cache
-- still has each sector once; or it sleeps, and the buffer that holds the sector is busy; or it panics,
-- and no buffer holds the sector and each is busy or dirty.
pub bget_lem :
    (bc : Bcache) (dev sector : ℕ)
    → IsCache bc
    → dev ≢ minus_one
    → ((i : ℕ) × (bc' : Bcache) × (bget bc dev sector ≡ gets i bc')
        × Got bc dev sector i bc'
        × IsCache bc')
      ⊎ ((i : ℕ) × (bget bc dev sector ≡ sleeps_on i)
          × (i < nbuf)
          × (holds_sector bc dev sector i ≡ true)
          × ((bc.buf i).busy ≡ true))
      ⊎ ((bget bc dev sector ≡ no_buffers)
          × ((i : ℕ) → i < nbuf → (holds_sector bc dev sector i ≡ false) × (is_spare bc i ≡ false)))
unfolding bget
bget_lem bc dev sector v real =
    elim (Option-cases (first_in (holds_sector bc dev sector) bc.order)) [
      | inr (i, e) ↦
          let (holds, within) = first_in-some (holds_sector bc dev sector) bc.order i e in
          let low : i < nbuf = ground (arith, sym (v.all i) ∙ within) in
          elim (Bool-cases (bc.buf i).busy) [
            | inl busy ↦ inr (inl (i, rw (e, bget) (rw busy refl), low, holds, busy))
            | inr idle ↦ inl (
              i,
              record bc { buf = update bc.buf i (record (bc.buf i) { busy = true }) },
              rw (e, bget) (rw idle refl),
              hit-Got bc dev sector i low holds idle,
              update-IsCache bc i (record (bc.buf i) { busy = true }) v
                  (λ j lj ne.
                    hit-apart bc i j v low (λ e'. real (sym (its_dev bc dev sector i holds) ∙ e'))
                      lj ne),
            )
          ]
      | inl miss ↦
          let absent = first_in-none (holds_sector bc dev sector) bc.order miss in
          elim (Option-cases (last_in (is_spare bc) bc.order)) [
            | inr (i, e) ↦
                let (spare, within) = last_in-some (is_spare bc) bc.order i e in
                let low : i < nbuf = ground (arith, sym (v.all i) ∙ within) in
                inl (
                  i,
                  record bc {
                    buf = update bc.buf i (record {
                      dev = dev;
                      sector = sector;
                      busy = true;
                      valid = false;
                      dirty = false;
                    });
                  },
                  rw (miss, bget) (rw e refl),
                  recycled-Got bc dev sector i low spare,
                  update-IsCache bc i
                      (record {
                        dev = dev;
                        sector = sector;
                        busy = true;
                        valid = false;
                        dirty = false;
                      })
                      v (λ j lj ne. not_held bc dev sector j (absent j (v.all j ∙ ground arith))),
                )
            | inl full ↦ inr (
                inr (
                  rw (miss, bget) (rw full refl),
                  λ i lt.
                      let within : is_in i bc.order ≡ true = v.all i ∙ ground arith in
                      (absent i within, last_in-none (is_spare bc) bc.order full i within),
                ))
          ]
    ]

-- `binit` gives such a cache.
pub binit-IsCache : IsCache binit
unfolding binit
binit-IsCache = record {
  all = λ i. is_in-link_from nbuf 0 [] i ∙ ground arith;
  once = λ i j li lj real. absurd (real refl);
}
