-- ===== src/Tests/FileSystem.antt =====
-- The file system.
use mutex.Common.{
  ℕ, zero, suc, ◌+◌, ◌-◌, ◌*◌, ◌%◌, ◌≡◌, ◌≢◌, ◌⊎◌, ◌<◌, ◌≤◌, refl, none, some, ◌==◌, ltb, not, ◌||◌,
  true, false, Bool, ◌↔◌, if◌then◌else◌, List, [], ◌∷◌, update, arith, IsFirst, first, min, ap,
  dec_lt, ◌>>=◌,
}
use mutex.Log.{Block, bread}
use mutex.Fs.Bytes.{test_bit, get_byte, byte_of, bit_of}
use mutex.Fs.Disk.{Disk, read, HasRoom}
use mutex.Fs.Balloc.{bblock, balloc, readsb}
use mutex.Fs.Balloc.Laws.{IsLaidOut, Taken, is_taken, balloc_lem}
use mutex.Cstring.{Memory, strncmp}
use mutex.Fs.Inode.{Inode, Icache, iget, recycled, iupdate, ilock, locked}
use mutex.Fs.Inode.Cache.{IsUnique, iget-IsUnique}
use mutex.Fs.Inode.Layout.{SameOnDisk, ilock-iupdate}
use mutex.Fs.Content.{bytes_from, readi, writei}
use mutex.Fs.Content.Reads.{IsMapped, content, readi_lem}
use mutex.Fs.Content.Writes.{IsSeparate, grown}
use mutex.Fs.Content.RoundTrip.{Stored, readi-writei}
use mutex.Fs.Path.Elements.{names}
use mutex.Fs.Dir.{namecmp, dirlookup, dirlink}
use mutex.Fs.Dir.Link.{IsSlot, dirlink_lem}
use mutex.Fs.Dir.Lookup.{is_match, inum_at, dirlookup_lem}
use mutex.Sysfile.Paths.{isdirempty}
use mutex.Sysfile.Empty.{isdirempty_lem}
use mutex.Fs.Namex.{namex, stops}
use mutex.Fs.Namex.Walk.{walk, namex_lem}

-- A disk with the superblock in block 1, the bitmap in block 4, and a directory in block 5. Of its 7
-- blocks the last is free.
abbrev some_blocks : ℕ → Block
some_blocks b w =
    if b == 1
    then if w == 0 then 7 else if w == 2 then 8 else 0
    else if b == 4
    then if w == 0 then 63 else 0
    else if b == 5
    then if w == 0 then 1 + 46 * 65536 else if w == 4 then 7 + 97 * 65536 else 0
    else 0

abbrev some_disk : Disk
some_disk = record {
  log = record { start = 1000; size = 30; outstanding = 1; committing = 0; n = 0; sector = λ i. 0 };
  store = record { disk = some_blocks; dirty = λ b. none; power = 100 };
}

some_disk-HasRoom : (n : ℕ) → n ≤ 29 → HasRoom some_disk n
some_disk-HasRoom n le = record {
  in_header = omega arith;
  on_disk = omega arith;
  started = omega arith;
}

six_taken : (b : ℕ) → b < 6 → is_taken some_disk b ≡ true
unfolding test_bit get_byte byte_of bit_of read bread
six_taken zero lt = refl
six_taken (suc zero) lt = refl
six_taken (suc (suc zero)) lt = refl
six_taken (suc (suc (suc zero))) lt = refl
six_taken (suc (suc (suc (suc zero)))) lt = refl
six_taken (suc (suc (suc (suc (suc zero))))) lt = refl
six_taken (suc (suc (suc (suc (suc (suc b)))))) lt = absurd (omega arith)

block_6 : is_taken some_disk 6 ≡ false
unfolding test_bit get_byte byte_of bit_of read bread
block_6 = refl

super : readsb some_disk ≡ record { size = 7; nblocks = 0; ninodes = 8; nlog = 0 }
unfolding read bread
super = refl

-- A block of this disk that is free.
last_free : (b : ℕ) → b < (readsb some_disk).size → is_taken some_disk b ≡ false → b ≡ 6
unfolding read bread
last_free b lt e = elim (dec_lt b 6) [
  | yes low ↦ absurd (ground (arith, six_taken b low, e))
  | no high ↦ omega arith
]

-- The bits of the blocks stand in block 4.
apart : (b c : ℕ) → b ≡ 6 → c < (readsb some_disk).size → b ≢ bblock c (readsb some_disk).ninodes
unfolding read bread
apart b c last lt e = omega arith

some_disk-IsLaidOut : IsLaidOut some_disk
some_disk-IsLaidOut = record {
  free_plain = λ b lt e.
      let last : b ≡ 6 = last_free b lt e in
      record { not_super = omega arith; not_bitmap = λ c lc. apart b c last lc };
}

some_disk-IsFirst : IsFirst (λ c. not (is_taken some_disk c)) (readsb some_disk).size 6
unfolding read bread
some_disk-IsFirst = record {
  below = omega arith;
  passes = ap not block_6;
  earlier_fail = λ j lt. ap not (six_taken j lt);
}

balloc_example :
    (d' : Disk) × (balloc some_disk ≡ some (6, d')) × HasRoom d' 3 × Taken some_disk 6 d'
balloc_example =
    balloc_lem some_disk 3 6 (some_disk-HasRoom 5 (omega arith)) some_disk-IsLaidOut
      some_disk-IsFirst

-- The directory of block 5, with the entries `.` for inode 1 and `a` for inode 7.
abbrev some_dir : Inode
some_dir = record {
  dev = 1;
  inum = 1;
  ref = 1;
  busy = false;
  valid = true;
  type = 1;
  major = 0;
  minor = 0;
  nlink = 1;
  size = 32;
  addrs = λ k. if k == 0 then 5 else 0;
}

abbrev no_inode : Inode
no_inode = record some_dir { dev = 0; inum = 0; ref = 0; valid = false }

abbrev some_cache : Icache
some_cache i = if i == 0 then some_dir else no_inode

some_dir-IsMapped : (end : ℕ) → end ≤ 512 → IsMapped some_disk some_dir end
some_dir-IsMapped end le = record {
  in_range = omega arith;
  present = λ k lt. ground arith;
  indirect = λ lt. absurd (omega arith);
}

some_dir-IsSeparate : IsSeparate some_disk some_dir 512
some_dir-IsSeparate = record {
  different = λ j k lj lk e. omega arith;
  not_indirect = λ k lt. ground arith;
  not_inode = λ k lt. ground arith;
  indirect_not_inode = λ e. ground arith;
}

some_cache-IsUnique : IsUnique some_cache
some_cache-IsUnique = record {
  once = λ i j li lj ri rj ed ei. ground arith;
  small = λ i lt. ground arith;
}

readi_example : readi (λ k. none) some_disk some_dir 10 50 ≡ (
    if ltb 32 10 || ltb 0xffff_ffff (10 + 50)
    then some (none, some_disk, some_dir)
    else some
        (some (bytes_from (content some_disk some_dir) 10 (min 50 (32 - 10))), some_disk, some_dir))
readi_example =
    readi_lem (λ k. none) some_disk some_dir 10 50 (some_dir-IsMapped 32 (omega arith))
      (ground arith) (omega arith) (omega arith)

readi-writei_example :
    (d' : Disk) × (ip' : Inode) × (writei (λ k. none) some_disk some_dir (λ i. i) 30 10
      ≡ some (some 10, d', ip'))
    × (readi (λ k. none) d' ip' 30 10 ≡ some (some (bytes_from (λ i. i % 256) 0 10), d', ip'))
    × (ip' ≡ grown some_dir 40)
    × Stored some_disk some_dir 512 (λ i. i) 30 10 d' ip'
readi-writei_example =
    readi-writei (λ k. none) (λ k. none) some_disk some_dir 512 (λ i. i) 30 10 3 (ground arith)
      (some_dir-IsMapped 512 (omega arith)) some_dir-IsSeparate (omega arith) (omega arith)
      (omega arith) (some_disk-HasRoom 5 (omega arith))

abbrev the_name : Memory
the_name i = if i == 0 then 97 else 0

dirlookup_example :
    ((first (is_match some_disk some_dir the_name) 2 ≡ none)
      × (dirlookup (λ k. none) some_disk some_cache 0 the_name
          ≡ some (none, some_disk, some_cache)))
    ⊎ ((k : ℕ) × (first (is_match some_disk some_dir the_name) 2 ≡ some k)
        × (dirlookup (λ k. none) some_disk some_cache 0 the_name ≡ (
            iget some_cache 1 (inum_at some_disk some_dir k) >>= λ (j, c').
            some (some (16 * k, j), some_disk, c'))))
dirlookup_example =
    dirlookup_lem (λ k. none) some_disk some_cache 0 2 the_name (some_dir-IsMapped 32 (omega arith))
      refl refl

-- The path `/a//bc`.
abbrev some_path : List ℕ
some_path = 47 ∷ 97 ∷ 47 ∷ 47 ∷ 98 ∷ 99 ∷ []

namex_example :
    namex (λ k. none) false some_disk some_cache 0 some_path [] ≡ (elim (iget some_cache 1 1) [
      | none ↦ stops
      | some (i, c') ↦ walk (λ k. none) false some_disk c' i (names some_path) []
    ])
namex_example = namex_lem (λ k. none) false some_disk some_cache 0 some_path []

abbrev cache_with_7 : Icache
cache_with_7 = update some_cache 1 (recycled no_inode 1 7)

iget-IsUnique_example : IsUnique cache_with_7
unfolding iget
iget-IsUnique_example =
    iget-IsUnique some_cache cache_with_7 1 7 1 some_cache-IsUnique refl (omega arith)

ilock-iupdate_example :
    (d' : Disk) × (c' : Icache) × (iupdate some_disk (record some_dir { size = 48 }) ≡ some d')
    × HasRoom d' 3
    × (ilock d' (update some_cache 0 (record some_dir { valid = false })) 0 ≡ locked c')
    × SameOnDisk (c' 0) (record some_dir { size = 48 })
    × ((c' 0).busy ≡ true)
    × ((c' 0).valid ≡ true)
    × ((j : ℕ) → j ≢ 0 → c' j ≡ update some_cache 0 (record some_dir { valid = false }) j)
ilock-iupdate_example =
    ilock-iupdate some_disk 3 (record some_dir { size = 48 })
      (update some_cache 0 (record some_dir { valid = false })) 0
      (some_disk-HasRoom 4 (omega arith))
      (record { type = omega arith; major = omega arith; minor = omega arith; nlink = omega arith })
      (ground arith) refl (omega arith) (omega arith) refl refl

abbrev new_name : Memory
new_name i = if i == 0 then 98 else 0

no_match : first (is_match some_disk some_dir new_name) 2 ≡ none
unfolding first namecmp strncmp get_byte byte_of read bread
no_match = refl

dirlink_example :
    (d' : Disk) × (dp' : Inode) × (n' k : ℕ) × (dirlink
        (λ k. none)
        (λ k. none)
        some_disk
        some_cache
        0
        new_name
        9
      ≡ some (some 0, d', update some_cache 0 dp'))
    × HasRoom d' 3
    × IsSlot some_disk some_dir 2 k n'
    × (dp'.size ≡ 16 * n')
    × (first (is_match d' dp' new_name) n' ≡ some k)
    × (inum_at d' dp' k ≡ 9)
    × ((j x : ℕ)
        → j < 2
        → j ≢ k
        → x < 16
        → content d' dp' (16 * j + x) ≡ content some_disk some_dir (16 * j + x))
    × ((j : ℕ)
        → j < 2
        → inum_at some_disk some_dir j ≢ 0
        → inum_at d' dp' j ≡ inum_at some_disk some_dir j)
dirlink_example =
    dirlink_lem (λ k. none) (λ k. none) some_disk some_cache 0 2 512 3 new_name 9
      (some_dir-IsMapped 512 (omega arith)) some_dir-IsSeparate refl refl (omega arith) no_match
      (λ a. ground arith) (omega arith) (omega arith) (some_disk-HasRoom 5 (omega arith))

-- The same directory with a third entry, which is not in use.
abbrev longer_dir : Inode
longer_dir = record some_dir { size = 48 }

longer_dir-IsMapped : IsMapped some_disk longer_dir 48
longer_dir-IsMapped = record {
  in_range = omega arith;
  present = λ k lt. ground arith;
  indirect = λ lt. absurd (omega arith);
}

isdirempty_example :
    (b : Bool) × (isdirempty (λ k. none) some_disk longer_dir ≡ some (b, some_disk, longer_dir))
    × ((b ≡ true) ↔ ((j : ℕ) → 2 ≤ j → j < 2 + 1 → inum_at some_disk longer_dir j ≡ 0))
isdirempty_example = isdirempty_lem (λ k. none) some_disk longer_dir longer_dir-IsMapped refl 1 refl
