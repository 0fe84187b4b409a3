-- ===== src/Fs/Inode/Layout.antt =====
-- Inodes on the disk: what iupdate writes, ilock reads.
use mutex.Common.{
  ℕ, suc, ◌+◌, ◌-◌, ◌*◌, ◌/◌, ◌%◌, ◌≤◌, ◌<◌, ◌≡◌, ◌≢◌, refl, sym, ◌∙◌, ap, true, false, some, ◌==◌,
  if◌then◌else◌, arith, update, is_positive,
}
use mutex.Log.{Block}
use mutex.Fs.Disk.{Disk, read, HasRoom, write_lem}
use mutex.Fs.Inode.Defs.{
  Inode, Icache, ndirect, ilock, locked, load_dinode, store_dinode, iupdate, iblock, dinode_word,
}

-- The fields that are on the disk, and fit there.
pub record IsShort (ip : Inode) : Type 0 where
  pub type : ip.type < 65536
  pub major : ip.major < 65536
  pub minor : ip.minor < 65536
  pub nlink : ip.nlink < 65536

-- The inodes agree in all that the disk keeps.
pub record SameOnDisk (ip jp : Inode) : Type 0 where
  pub type : ip.type ≡ jp.type
  pub major : ip.major ≡ jp.major
  pub minor : ip.minor ≡ jp.minor
  pub nlink : ip.nlink ≡ jp.nlink
  pub size : ip.size ≡ jp.size
  pub addrs : (k : ℕ) → k ≤ ndirect → ip.addrs k ≡ jp.addrs k

module _ (b : Block) (ip jp : Inode) (same : jp.inum ≡ ip.inum) (s : IsShort ip) where
  word :
      (k : ℕ)
      → k < 16
      → dinode_word (store_dinode b ip) jp.inum k ≡ (
          if k == 0
          then ip.type + ip.major * 65536
          else if k == 1
          then ip.minor + ip.nlink * 65536
          else if k == 2
          then ip.size
          else ip.addrs (k - 3))
  unfolding store_dinode
  word k lt =
      let quot : (jp.inum % 8 * 16 + k) / 16 ≡ ip.inum % 8 = omega arith in
      let rem : (jp.inum % 8 * 16 + k) % 16 ≡ k = omega arith in rw (quot, rem) (ground arith)

  load-store : SameOnDisk (load_dinode (store_dinode b ip) jp) ip
  unfolding load_dinode
  load-store = record {
    type = ground (arith, word 0 (omega arith));
    major = ground (arith, word 0 (omega arith));
    minor = ground (arith, word 1 (omega arith));
    nlink = ground (arith, word 1 (omega arith));
    size = ground (arith, word 2 (omega arith));
    addrs = λ k le.
        let back : 3 + k - 3 ≡ k = omega arith in
        ground (arith, word (3 + k) (omega arith), ap ip.addrs back);
  }

ilock_fresh :
    (d : Disk) (c : Icache) (i : ℕ) (x : Block)
    → read d (iblock (c i).inum) ≡ x
    → 0 < (c i).ref
    → (c i).ref < 0x8000_0000
    → (c i).busy ≡ false
    → (c i).valid ≡ false
    → (load_dinode x (c i)).type ≢ 0
    → ilock d c i ≡ locked (update c i (record (load_dinode x (c i)) { busy = true; valid = true }))
unfolding ilock
ilock_fresh d c i x there pos small idle fresh real =
    let some_ref : is_positive (c i).ref ≡ true = ground arith in
    let some_type : (load_dinode x (c i)).type == 0 ≡ false = ground arith in
    rw (some_ref, idle, fresh, there) (rw some_type refl)

-- An inode that `iupdate` has written is read back by `ilock`: in a transaction with room for a
-- block, `iupdate` does not panic, and then `ilock` of a cache entry for that inode, which is in use,
-- not busy and not valid, takes it with the fields that were written, if its type is not 0.
pub ilock-iupdate :
    (d : Disk) (n : ℕ) (ip : Inode) (c : Icache) (i : ℕ)
    → HasRoom d (suc n)
    → IsShort ip
    → ip.type ≢ 0
    → (c i).inum ≡ ip.inum
    → 0 < (c i).ref
    → (c i).ref < 0x8000_0000
    → (c i).busy ≡ false
    → (c i).valid ≡ false
    → (d' : Disk) × (c' : Icache) × (iupdate d ip ≡ some d')
      × HasRoom d' n
      × (ilock d' c i ≡ locked c')
      × SameOnDisk (c' i) ip
      × ((c' i).busy ≡ true)
      × ((c' i).valid ≡ true)
      × ((j : ℕ) → j ≢ i → c' j ≡ c j)
unfolding iupdate
ilock-iupdate d n ip c i room short real same pos small idle fresh =
    let x : Block = store_dinode (read d (iblock ip.inum)) ip in
    let (d', w, room', reads) = write_lem d n (iblock ip.inum) x room in
    let got : SameOnDisk (load_dinode x (c i)) ip =
      load-store (read d (iblock ip.inum)) ip (c i) same short in
    let there : read d' (iblock (c i).inum) ≡ x = rw same (reads (iblock ip.inum) ∙ ground arith) in
    (
      d',
      update c i (record (load_dinode x (c i)) { busy = true; valid = true }),
      w,
      room',
      ilock_fresh d' c i x there pos small idle fresh (λ e. real (sym got.type ∙ e)),
      record {
        type = ground (arith, got.type);
        major = ground (arith, got.major);
        minor = ground (arith, got.minor);
        nlink = ground (arith, got.nlink);
        size = ground (arith, got.size);
        addrs = λ k le. ground (arith, got.addrs k le);
      },
      ground arith,
      ground arith,
      λ j ne. ground arith,
    )
