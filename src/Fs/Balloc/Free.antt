-- ===== src/Fs/Balloc/Free.antt =====
-- What bfree does to the bitmap, and that it undoes balloc.
use mutex.Common.{
  ℕ, suc, ◌%◌, ◌<◌, ◌≡◌, ◌≢◌, refl, ◌∙◌, ap, true, false, not, none, some, ◌==◌, if◌then◌else◌,
  arith, IsFirst,
}
use mutex.Log.{Block}
use mutex.Fs.Bytes.{clear_bit, test_bit-clear_bit}
use mutex.Fs.Disk.{Disk, read, HasRoom, write_lem}
use mutex.Fs.Balloc.{bpb, readsb, bblock, balloc, bfree}
use mutex.Fs.Balloc.Laws.{is_taken, IsLaidOut, Taken, bblock_apart, is_taken-reads, balloc_lem}

-- `bfree` of a block in use clears its bit and leaves every other block's; of a free block it
-- panics.
bfree_lem :
    (d : Disk) (n b : ℕ)
    → HasRoom d (suc n)
    → IsLaidOut d
    → (is_taken d b ≡ true
        → (d' : Disk) × (bfree d b ≡ some d')
          × HasRoom d' n
          × (read d' 1 ≡ read d 1)
          × ((c : ℕ) → is_taken d' c ≡ (if b == c then false else is_taken d c))
          × ((c : ℕ) → c ≢ bblock b (readsb d).ninodes → read d' c ≡ read d c))
      × (is_taken d b ≡ false → bfree d b ≡ none)
unfolding bfree
bfree_lem d n b room ok = (freed, λ clear. rw (clear, bfree) refl)
  where
    at : ℕ
    at = bblock b (readsb d).ninodes

    freed :
        is_taken d b ≡ true
        → (d' : Disk) × (bfree d b ≡ some d')
          × HasRoom d' n
          × (read d' 1 ≡ read d 1)
          × ((c : ℕ) → is_taken d' c ≡ (if b == c then false else is_taken d c))
          × ((c : ℕ) → c ≢ bblock b (readsb d).ninodes → read d' c ≡ read d c)
    freed on =
        let x : Block = clear_bit (read d (bblock b (readsb d).ninodes)) (b % bpb) in
        let (d', w, room', reads) = write_lem d n (bblock b (readsb d).ninodes) x room in
        let super : read d' 1 ≡ read d 1 =
          ground (arith, bblock_apart b (readsb d).ninodes, reads 1) in
        (
          d',
          rw (on, bfree) w,
          room',
          super,
          λ c.
              is_taken-reads d d' b x false super
                (λ i. test_bit-clear_bit (read d (bblock b (readsb d).ninodes)) (b % bpb) i on) c
                (reads (bblock c (readsb d).ninodes)),
          λ c ne. ground (arith, reads c),
        )

-- Taking a block keeps the layout.
Taken-IsLaidOut : (d d' : Disk) (r : ℕ) → IsLaidOut d → Taken d r d' → IsLaidOut d'
Taken-IsLaidOut d d' r ok t = record {
  free_plain = λ b lt free.
      let size : (readsb d').size ≡ (readsb d).size = ap (λ (s : Block). s 0) t.same_super in
      let old = ok.free_plain b (rw size at lt) (ground (arith, t.marked b (rw size at lt))) in
      record {
        not_super = old.not_super;
        not_bitmap = λ c lc e.
            old.not_bitmap c (rw size at lc) (e ∙ ap (λ (s : Block). bblock c (s 2)) t.same_super);
      };
}

-- A block that `balloc` has handed out can be given back by `bfree`, in a transaction with room for
-- one block more, and then the bit of every block of the disk is as it was before.
bfree-balloc :
    (d : Disk) (n r : ℕ)
    → HasRoom d (suc (suc (suc n)))
    → IsLaidOut d
    → IsFirst (λ c. not (is_taken d c)) (readsb d).size r
    → (d' d'' : Disk) × (balloc d ≡ some (r, d'))
      × (bfree d' r ≡ some d'')
      × HasRoom d'' n
      × ((c : ℕ) → c < (readsb d).size → is_taken d'' c ≡ is_taken d c)
bfree-balloc d n r room ok f =
    let (d', e, room', t) = balloc_lem d (suc n) r room ok f in
    let on : is_taken d' r ≡ true = ground (arith, t.marked r f.below) in
    let (d'', e', room'', super, bits, rest) =
      (bfree_lem d' n r room' (Taken-IsLaidOut d d' r ok t)).0 on in
    (d', d'', e, e', room'', λ c lt. ground (arith, bits c, t.marked c lt, f.passes))
