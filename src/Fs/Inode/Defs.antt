-- ===== src/Fs/Inode/Defs.antt =====
-- The operations. What changes an inode that its caller has locked is a function of the disk and that
-- inode. `none` is a panic.
use mutex.Common.{
  ℕ, zero, suc, ◌+◌, ◌-◌, ◌*◌, ◌/◌, ◌%◌, Bool, true, false, not, ◌&&◌, ◌||◌, Option, none, some,
  ltb, ◌==◌, if◌then◌else◌, first, update, is_positive, ◌>>=◌,
}
use mutex.Log.{Block}
use mutex.Fs.Disk.{Disk, read, write}
use mutex.Fs.Balloc.{ipb, readsb, balloc, bfree}

abbrev pub ninode : ℕ
ninode = 50

abbrev pub ndirect : ℕ
ndirect = 12

abbrev pub nindirect : ℕ
nindirect = 128

pub record Inode : Type 0 where
  pub dev : ℕ
  pub inum : ℕ
  pub ref : ℕ
  pub busy : Bool
  pub valid : Bool
  pub type : ℕ
  pub major : ℕ
  pub minor : ℕ
  pub nlink : ℕ
  pub size : ℕ
  pub addrs : ℕ → ℕ

abbrev pub Icache : Type 0
Icache = ℕ → Inode

-- `ip->ref > 0 && ip->dev == dev && ip->inum == inum`
abbrev pub is_cached : Icache → ℕ → ℕ → ℕ → Bool
is_cached c dev inum i = is_positive (c i).ref && (c i).dev == dev && (c i).inum == inum

abbrev pub one_ref_more : Inode → Inode
one_ref_more ip = record ip { ref = (ip.ref + 1) % 0x1_0000_0000 }

abbrev pub recycled : Inode → ℕ → ℕ → Inode
recycled ip dev inum = record ip { dev = dev; inum = inum; ref = 1; busy = false; valid = false }

-- The loop looks for the inode, and for the first empty entry in case it is not cached.
unfoldable pub iget : Icache → ℕ → ℕ → Option (ℕ × Icache)
unfolding first
iget c dev inum = elim (first (is_cached c dev inum) ninode) [
  | some i ↦ some (i, update c i (one_ref_more (c i)))
  | none ↦ elim (first (λ i. (c i).ref == 0) ninode) [
    | none ↦ none
    | some i ↦ some (i, update c i (recycled (c i) dev inum))
  ]
]

unfoldable pub idup : Icache → ℕ → Icache
idup c i = update c i (one_ref_more (c i))

abbrev pub iblock : ℕ → ℕ
iblock inum = inum / ipb + 2

-- The fields of `struct dinode` number `inum` of its block, in words.
abbrev pub dinode_word : Block → ℕ → ℕ → ℕ
dinode_word b inum k = b (inum % ipb * 16 + k)

-- `memmove(ip->addrs, dip->addrs, sizeof(ip->addrs))` and the assignments before it.
unfoldable pub load_dinode : Block → Inode → Inode
load_dinode b ip = record ip {
  type = dinode_word b ip.inum 0 % 65536;
  major = dinode_word b ip.inum 0 / 65536 % 65536;
  minor = dinode_word b ip.inum 1 % 65536;
  nlink = dinode_word b ip.inum 1 / 65536 % 65536;
  size = dinode_word b ip.inum 2;
  addrs = λ i. if ltb ndirect i then ip.addrs i else dinode_word b ip.inum (3 + i);
}

unfoldable pub store_dinode : Block → Inode → Block
store_dinode b ip w =
    if w / 16 == ip.inum % ipb
    then if w % 16 == 0
      then ip.type % 65536 + ip.major % 65536 * 65536
      else if w % 16 == 1
      then ip.minor % 65536 + ip.nlink % 65536 * 65536
      else if w % 16 == 2
      then ip.size
      else ip.addrs (w % 16 - 3)
    else b w

unfoldable pub iupdate : Disk → Inode → Option Disk
unfolding store_dinode
iupdate d ip = write d (iblock ip.inum) (store_dinode (read d (iblock ip.inum)) ip)

-- `ilock` of an entry: another process has it and the call sleeps; it has it; or a panic.
pub data Lock : Type 0 where
  sleeps : Lock
  locked : Icache → Lock
  panics : Lock

unfoldable pub ilock : Disk → Icache → ℕ → Lock
unfolding load_dinode
ilock d c i =
    if not (is_positive (c i).ref)
    then panics
    else if (c i).busy
    then sleeps
    else if (c i).valid
    then locked (update c i (record (c i) { busy = true }))
    else let ip = load_dinode (read d (iblock (c i).inum)) (c i) in
      if ip.type == 0 then panics else locked (update c i (record ip { busy = true; valid = true }))

unfoldable pub iunlock : Icache → ℕ → Option Icache
iunlock c i =
    if not (c i).busy || not (is_positive (c i).ref)
    then none
    else some (update c i (record (c i) { busy = false }))

-- The first loop of `itrunc`, `n` rounds from `i` on.
unfoldable pub free_direct : ℕ → ℕ → Disk → Inode → Option (Disk × Inode)
free_direct zero i d ip = some (d, ip)
free_direct (suc n) i d ip =
    let rest = free_direct n (i + 1) d ip in
    if ip.addrs i == 0 then rest else elim (bfree d (ip.addrs i)) [
      | none ↦ none
      | some d' ↦ free_direct n (i + 1) d' (record ip { addrs = update ip.addrs i 0 })
    ]

-- The second one, over the words of the indirect block.
unfoldable pub free_indirect : ℕ → ℕ → Block → Disk → Option Disk
free_indirect zero j a d = some d
free_indirect (suc n) j a d =
    let rest = free_indirect n (j + 1) a d in
    if a j == 0
    then rest
    else elim (bfree d (a j)) [ none ↦ none | some d' ↦ free_indirect n (j + 1) a d' ]

unfoldable pub itrunc : Disk → Inode → Option (Disk × Inode)
unfolding free_direct free_indirect iupdate
itrunc d ip = do
  (d₁, ip₁) ← free_direct ndirect 0 d ip
  (d₂, ip₂) ← if ip₁.addrs ndirect == 0 then some (d₁, ip₁) else (do
    d₃ ← free_indirect nindirect 0 (read d₁ (ip₁.addrs ndirect)) d₁
    d₄ ← bfree d₃ (ip₁.addrs ndirect)
    some (d₄, record ip₁ { addrs = update ip₁.addrs ndirect 0 }))
  let ip₃ = record ip₂ { size = 0 }
  d₅ ← iupdate d₂ ip₃
  some (d₅, ip₃)

abbrev pub one_ref_less : Inode → Inode
one_ref_less ip = record ip { ref = (ip.ref + 0xffff_ffff) % 0x1_0000_0000 }

unfoldable pub iput : Disk → Icache → ℕ → Option (Disk × Icache)
unfolding itrunc iupdate
iput d c i =
    if (c i).ref == 1 && (c i).valid && (c i).nlink == 0
    then if (c i).busy then none else (do
      (d₁, ip) ← itrunc d (record (c i) { busy = true })
      d₂ ← iupdate d₁ (record ip { type = 0 })
      some (d₂, update c i (one_ref_less (record ip { type = 0; busy = false; valid = false }))))
    else some (d, update c i (one_ref_less (c i)))

unfoldable pub iunlockput : Disk → Icache → ℕ → Option (Disk × Icache)
unfolding iunlock iput
iunlockput d c i = do c' ← iunlock c i; iput d c' i

-- `ialloc`: the loop from `inum` on, `n` rounds.
unfoldable pub ialloc_from : Disk → ℕ → ℕ → ℕ → Option (ℕ × Disk)
ialloc_from d type zero inum = none
ialloc_from d type (suc n) inum =
    let rest = ialloc_from d type n (inum + 1) in
    let b = read d (iblock inum) in
    if dinode_word b inum 0 % 65536 == 0
    then elim (write d (iblock inum)
        (λ w. if w / 16 == inum % ipb then (if w % 16 == 0 then type % 65536 else 0) else b w)) [
          | none ↦ none
          | some d' ↦ some (inum, d')
        ]
    else rest

unfoldable pub ialloc : Disk → Icache → ℕ → ℕ → Option (ℕ × Disk × Icache)
unfolding ialloc_from iget
ialloc d c dev type = do
  (inum, d') ← ialloc_from d type ((readsb d).ninodes - 1) 1
  (i, c') ← iget c dev inum
  some (i, d', c')

-- `if((addr = ip->addrs[k]) == 0) ip->addrs[k] = addr = balloc(ip->dev);`
unfoldable pub own_block : Disk → Inode → ℕ → Option (ℕ × Disk × Inode)
unfolding balloc
own_block d ip k =
    if ip.addrs k == 0
    then elim (balloc d) [
      | none ↦ none
      | some (addr, d') ↦ some (addr, d', record ip { addrs = update ip.addrs k addr })
    ]
    else some (ip.addrs k, d, ip)

-- The same for entry `j` of the indirect block `at`.
unfoldable pub entry_block : Disk → Inode → ℕ → ℕ → Option (ℕ × Disk × Inode)
unfolding balloc
entry_block d ip at j =
    if read d at j == 0
    then (do
      (addr, d') ← balloc d
      d'' ← write d' at (update (read d' at) j addr)
      some (addr, d'', ip))
    else some (read d at j, d, ip)

-- `bmap`: the block of the file's block `bn`.
unfoldable pub bmap : Disk → Inode → ℕ → Option (ℕ × Disk × Inode)
unfolding own_block entry_block
bmap d ip bn =
    if ltb bn ndirect
    then own_block d ip bn
    else if ltb (bn - ndirect) nindirect
    then (do (at, d', ip') ← own_block d ip ndirect; entry_block d' ip' at (bn - ndirect))
    else none
