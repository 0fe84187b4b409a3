-- ===== src/Fs/Balloc.antt =====
-- The block bitmap of fs.c: readsb, bzero, balloc and bfree. `none` is a panic.
pub mod Laws
pub mod Free
use mutex.Common.{
  ℕ, zero, suc, ◌+◌, ◌-◌, ◌*◌, ◌/◌, ◌%◌, Bool, true, false, not, Option, none, some, ltb, ◌==◌,
  if◌then◌else◌, min, first,
}
use mutex.Log.{Block}
use mutex.Fs.Bytes.{test_bit, set_bit, clear_bit}
use mutex.Fs.Disk.{Disk, read, write}

-- Inodes in a block, and bits in one.
abbrev pub ipb : ℕ
ipb = 8

abbrev pub bpb : ℕ
bpb = 4096

-- `struct superblock`
pub record Superblock : Type 0 where
  pub size : ℕ
  pub nblocks : ℕ
  pub ninodes : ℕ
  pub nlog : ℕ

abbrev pub readsb : Disk → Superblock
readsb d = record {
  size = read d 1 0;
  nblocks = read d 1 1;
  ninodes = read d 1 2;
  nlog = read d 1 3;
}

-- `BBLOCK(b, ninodes)`
abbrev pub bblock : ℕ → ℕ → ℕ
bblock b ninodes = b / bpb + ninodes / ipb + 3

abbrev pub zeros : Block
zeros _ = 0

unfoldable pub bzero : Disk → ℕ → Option Disk
bzero d bno = write d bno zeros

-- The found bit `bi` of the group from `b` on.
unfoldable pub take_block : Disk → Superblock → ℕ → ℕ → Option (ℕ × Disk)
unfolding bzero
take_block d sb b bi =
    let at = bblock b sb.ninodes in
    elim (write d at (set_bit (read d at) bi)) [
      | none ↦ none
      | some d' ↦ elim (bzero d' (b + bi)) [ none ↦ none | some d'' ↦ some (b + bi, d'') ]
    ]

-- The loops of `balloc`, `groups` rounds of the outer one from block `b` on.
unfoldable pub balloc_from : Disk → Superblock → ℕ → ℕ → Option (ℕ × Disk)
unfolding take_block
balloc_from d sb zero b = none
balloc_from d sb (suc groups) b =
    let rest = balloc_from d sb groups (b + bpb) in
    if ltb b sb.size
    then elim (first (λ bi. not (test_bit (read d (bblock b sb.ninodes)) bi))
        (min bpb (sb.size - b))) [ none ↦ rest | some bi ↦ take_block d sb b bi ]
    else none

-- The blocks make `size / BPB` groups, and one that is not whole.
unfoldable pub balloc : Disk → Option (ℕ × Disk)
unfolding balloc_from
balloc d = balloc_from d (readsb d) ((readsb d).size / bpb + 1) 0

unfoldable pub bfree : Disk → ℕ → Option Disk
bfree d b =
    let at = bblock b (readsb d).ninodes in
    if not (test_bit (read d at) (b % bpb))
    then none
    else write d at (clear_bit (read d at) (b % bpb))
