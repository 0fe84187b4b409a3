-- ===== src/Fs/Balloc/Laws.antt =====
-- What balloc does to the bitmap and to the blocks.
use mutex.Common.{
  ℕ, zero, suc, ◌+◌, ◌-◌, ◌*◌, ◌/◌, ◌%◌, ◌≤◌, ◌<◌, ◌≡◌, ◌≢◌, refl, sym, ◌∙◌, ap, inl, inr, Bool,
  true, false, not, none, some, ltb, dec_lt, ◌==◌, if◌then◌else◌, min, arith, first, IsFirst,
  IsFirst-first, first-IsFirst, Option-cases, lt→ltb, ℕ_discrete,
}
use mutex.Log.{Block}
use mutex.Fs.Bytes.{test_bit, set_bit, test_bit-set_bit}
use mutex.Fs.Disk.{Disk, read, HasRoom, write_lem}
use mutex.Fs.Balloc.{bpb, readsb, bblock, zeros, bzero, take_block, balloc_from, balloc}

-- Block `b` is in use, by the bitmap.
abbrev pub is_taken : Disk → ℕ → Bool
is_taken d b = test_bit (read d (bblock b (readsb d).ninodes)) (b % bpb)

-- A block that does not hold the bit of a block of the disk and is not the superblock.
pub record IsPlain (d : Disk) (b : ℕ) : Type 0 where
  pub not_super : b ≢ 1
  pub not_bitmap : (c : ℕ) → c < (readsb d).size → b ≢ bblock c (readsb d).ninodes

-- The bitmap does not stand in the superblock.
pub bblock_apart : (b ninodes : ℕ) → bblock b ninodes ≢ 1
bblock_apart b ninodes e = omega arith

-- The blocks that are free may be handed out: they hold neither the superblock nor the bitmap.
pub record IsLaidOut (d : Disk) : Type 0 where
  pub free_plain : (b : ℕ) → b < (readsb d).size → is_taken d b ≡ false → IsPlain d b

-- What `balloc` leaves when it has taken block `r`.
pub record Taken (d : Disk) (r : ℕ) (d' : Disk) : Type 0 where
  pub same_super : read d' 1 ≡ read d 1
  pub marked :
      (b : ℕ) → b < (readsb d).size → is_taken d' b ≡ (if r == b then true else is_taken d b)
  pub zeroed : read d' r ≡ zeros
  pub rest : (b : ℕ) → b ≢ r → b ≢ bblock r (readsb d).ninodes → read d' b ≡ read d b

-- Only the bitmap block of `r` has changed, where `x` stands now.
module _ (d d' : Disk) (r : ℕ) (x : Block) (v : Bool) (super : read d' 1 ≡ read d 1)
    (bit : (i : ℕ)
      → test_bit x i
        ≡ (if r % bpb == i then v else test_bit (read d (bblock r (readsb d).ninodes)) i)) where
  pub is_taken-reads :
      (b : ℕ)
      → (read d' (bblock b (readsb d).ninodes) ≡ (
          if bblock r (readsb d).ninodes == bblock b (readsb d).ninodes
          then x
          else read d (bblock b (readsb d).ninodes)))
      → is_taken d' b ≡ (if r == b then v else is_taken d b)
  is_taken-reads b reads =
      ap (λ (s : Block). test_bit (read d' (bblock b (s 2))) (b % bpb)) super
      ∙ ap (λ (c : Block). test_bit c (b % bpb)) reads
      ∙ by_group (ℕ_discrete (r / bpb) (b / bpb))
    where
      by_group :
          Dec (r / bpb ≡ b / bpb)
          → test_bit
              (if bblock r (readsb d).ninodes == bblock b (readsb d).ninodes
                then x
                else read d (bblock b (readsb d).ninodes))
              (b % bpb)
            ≡ (if r == b then v else is_taken d b)
      by_group (yes same) =
          let here : (bblock r (readsb d).ninodes == bblock b (readsb d).ninodes) ≡ true =
            ground arith in
          let at : bblock r (readsb d).ninodes ≡ bblock b (readsb d).ninodes = omega arith in
          rw here (bit (b % bpb) ∙ ground (arith, ap (λ (c : ℕ). test_bit (read d c) (b % bpb)) at))
      by_group (no other) =
          let there : (bblock r (readsb d).ninodes == bblock b (readsb d).ninodes) ≡ false =
            ground arith in
          let apart : (r == b) ≡ false = ground arith in rw (there, apart) refl

module _ (d : Disk) (b bi n : ℕ) (room : HasRoom d (suc (suc n))) (small : bi < bpb)
    (whole : b % bpb ≡ 0) (free : is_taken d (b + bi) ≡ false) (ok : IsLaidOut d)
    (plain : IsPlain d (b + bi)) where
  take_block_lem :
      (d' : Disk) × (take_block d (readsb d) b bi ≡ some (b + bi, d'))
      × HasRoom d' n
      × Taken d (b + bi) d'
  unfolding take_block bzero
  take_block_lem =
      let at : ℕ = bblock b (readsb d).ninodes in
      let x : Block = set_bit (read d at) bi in
      let (d₁, w₁, room₁, reads₁) = write_lem d (suc n) at x room in
      let (d₂, w₂, room₂, reads₂) = write_lem d₁ n (b + bi) zeros room₁ in
      (d₂, rw (w₁, take_block) (rw (w₂, take_block) refl), room₂, taken d₁ d₂ reads₁ reads₂)
    where
      taken :
          (d₁ d₂ : Disk)
          → ((c : ℕ)
              → read d₁ c ≡ (
                  if bblock b (readsb d).ninodes == c
                  then set_bit (read d (bblock b (readsb d).ninodes)) bi
                  else read d c))
          → ((c : ℕ) → read d₂ c ≡ (if b + bi == c then zeros else read d₁ c))
          → Taken d (b + bi) d₂
      taken d₁ d₂ reads₁ reads₂ =
          let same : bblock (b + bi) (readsb d).ninodes ≡ bblock b (readsb d).ninodes =
            omega arith in
          let place : (b + bi) % bpb ≡ bi = omega arith in
          let clear : test_bit (read d (bblock b (readsb d).ninodes)) bi ≡ false =
            rw (same, place) at free in
          let super : read d₂ 1 ≡ read d 1 =
            reads₂ 1
            ∙ ground (arith, plain.not_super, bblock_apart b (readsb d).ninodes, reads₁ 1) in
          record {
            same_super = super;
            marked = λ c lt.
                is_taken-reads d d₂ (b + bi) (set_bit (read d (bblock b (readsb d).ninodes)) bi)
                  true super
                  (λ i.
                    rw (same, place)
                      (test_bit-set_bit (read d (bblock b (readsb d).ninodes)) bi i clear))
                  c
                  (ground (
                    arith,
                    plain.not_bitmap c lt,
                    same,
                    reads₁ (bblock c (readsb d).ninodes),
                    reads₂ (bblock c (readsb d).ninodes),
                  ));
            zeroed = ground (arith, reads₂ (b + bi));
            rest = λ c ne ne'. ground (arith, same, reads₁ c, reads₂ c);
          }

-- The bits of one group.
is_taken-group :
    (d : Disk) (b bi : ℕ)
    → b % bpb ≡ 0
    → bi < bpb
    → is_taken d (b + bi) ≡ test_bit (read d (bblock b (readsb d).ninodes)) bi
is_taken-group d b bi whole small =
    let same : bblock (b + bi) (readsb d).ninodes ≡ bblock b (readsb d).ninodes = omega arith in
    let place : (b + bi) % bpb ≡ bi = omega arith in rw (same, place) refl

abbrev is_free_in : Disk → ℕ → ℕ → Bool
is_free_in d b bi = not (test_bit (read d (bblock b (readsb d).ninodes)) bi)

module _ (d : Disk) (n : ℕ) (room : HasRoom d (suc (suc n))) (ok : IsLaidOut d) (r : ℕ)
    (f : IsFirst (λ c. not (is_taken d c)) (readsb d).size r) where
  group-IsFirst :
      (b : ℕ)
      → b % bpb ≡ 0
      → b ≤ r
      → r < b + bpb
      → IsFirst (is_free_in d b) (min bpb ((readsb d).size - b)) (r - b)
  group-IsFirst b whole lo hi = record {
    below = omega (arith, f.below);
    passes =
        let back : b + (r - b) ≡ r = omega arith in
        ap not (sym (is_taken-group d b (r - b) whole (omega arith)))
        ∙ ap (λ c. not (is_taken d c)) back
        ∙ f.passes;
    earlier_fail = λ j lt.
        ap not (sym (is_taken-group d b j whole (omega arith)))
        ∙ f.earlier_fail (b + j) (omega arith);
  }

  group_full :
      (b : ℕ)
      → b % bpb ≡ 0
      → b + bpb ≤ r
      → first (is_free_in d b) (min bpb ((readsb d).size - b)) ≡ none
  group_full b whole hi =
      elim (Option-cases (first (is_free_in d b) (min bpb ((readsb d).size - b)))) [
        | inl e ↦ e
        | inr (bi, e) ↦
            let g = first-IsFirst (is_free_in d b) (min bpb ((readsb d).size - b)) bi e in
            let small : bi < bpb = omega (arith, g.below) in
            absurd (
              cc (
                ap not (is_taken-group d b bi whole small),
                g.passes,
                f.earlier_fail (b + bi) (omega arith),
              ))
      ]

  -- The first free block at or behind `b`, in the groups that are left.
  balloc_from_lem :
      (groups b : ℕ)
      → b % bpb ≡ 0
      → b ≤ r
      → r < b + groups * bpb
      → (d' : Disk) × (balloc_from d (readsb d) groups b ≡ some (r, d'))
        × HasRoom d' n
        × Taken d r d'
  unfolding balloc_from
  balloc_from_lem zero b whole lo hi = absurd (omega arith)
  balloc_from_lem (suc groups) b whole lo hi =
      let inside : ltb b (readsb d).size ≡ true =
        lt→ltb b (readsb d).size (omega (arith, f.below)) in
      elim (dec_lt r (b + bpb)) [
        | no later ↦
            rw (inside, group_full b whole (omega arith), balloc_from)
              (balloc_from_lem groups (b + bpb) (omega arith) (omega arith) (omega arith))
        | yes here ↦ at_last b whole lo here
      ]
    where
      at_last :
          (b : ℕ)
          → b % bpb ≡ 0
          → b ≤ r
          → r < b + bpb
          → (d' : Disk) × (balloc_from d (readsb d) (suc groups) b ≡ some (r, d'))
            × HasRoom d' n
            × Taken d r d'
      at_last b whole lo here =
          let inside : ltb b (readsb d).size ≡ true =
            lt→ltb b (readsb d).size (omega (arith, f.below)) in
          let found =
            IsFirst-first (is_free_in d b) (min bpb ((readsb d).size - b)) (r - b)
              (group-IsFirst b whole lo here) in
          let back : b + (r - b) ≡ r = omega arith in
          let unused : is_taken d r ≡ false = ground (arith, f.passes) in
          let plain = ok.free_plain r f.below unused in
          let (d', e, left, taken) =
            take_block_lem d b (r - b) n room (omega arith) whole (rw back unused) ok
              (rw back plain) in
          (
            d',
            rw (inside, found, balloc_from) (e ∙ ap (λ c. some (c, d')) back),
            left,
            rw back at taken,
          )

-- `balloc` in a transaction with room for two blocks, on a disk whose superblock and bitmap are
-- not free, while some block is free: it answers the first free block `r` and does not panic. Then
-- that block is in use and zeroed, no other bit of a block of the disk has changed, and of the other blocks only
-- the one with the bit of `r` is changed.
pub balloc_lem :
    (d : Disk) (n r : ℕ)
    → HasRoom d (suc (suc n))
    → IsLaidOut d
    → IsFirst (λ c. not (is_taken d c)) (readsb d).size r
    → (d' : Disk) × (balloc d ≡ some (r, d')) × HasRoom d' n × Taken d r d'
unfolding balloc
balloc_lem d n r room ok f =
    balloc_from_lem d n room ok r f ((readsb d).size / bpb + 1) 0 (omega arith) (omega arith)
      (omega (arith, f.below))
