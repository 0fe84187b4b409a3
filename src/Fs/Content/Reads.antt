-- ===== src/Fs/Content/Reads.antt =====
-- What readi reads: the bytes of the file.
use mutex.Common.{
  ℕ, zero, suc, ◌+◌, ◌-◌, ◌*◌, ◌/◌, ◌%◌, ◌≤◌, ◌<◌, ◌≡◌, ◌≢◌, inl, inr, refl, ◌∙◌, ap, sym, true,
  false, ◌||◌, Option, none, some, ◌∷◌, ◌++◌, ltb, ◌==◌, if◌then◌else◌, min, arith, Bool-cases,
}
use mutex.Fs.Bytes.{get_byte}
use mutex.Fs.Disk.{Disk, read}
use mutex.Fs.Inode.{Inode, ndirect, nindirect, own_block, entry_block, bmap}
use mutex.Fs.Content.{bsize, t_dev, bytes_from, Reading, in_block, read_from, is_outside, readi}

-- The block of the file's block `k`, where there is one.
abbrev pub block_of : Disk → Inode → ℕ → ℕ
block_of d ip k = if ltb k ndirect then ip.addrs k else read d (ip.addrs ndirect) (k - ndirect)

-- Byte `j` of the file.
abbrev pub content : Disk → Inode → ℕ → ℕ
content d ip j = get_byte (read d (block_of d ip (j / bsize))) (j % bsize)

-- The inode has a block for each of the first `end` bytes.
pub record IsMapped (d : Disk) (ip : Inode) (end : ℕ) : Type 0 where
  pub in_range : end ≤ (ndirect + nindirect) * bsize
  pub present : (k : ℕ) → k * bsize < end → block_of d ip k ≢ 0
  pub indirect : ndirect * bsize < end → ip.addrs ndirect ≢ 0

module _ (d : Disk) (ip : Inode) (end : ℕ) (v : IsMapped d ip end) where
  pub bmap_lem : (k : ℕ) → k * bsize < end → bmap d ip k ≡ some (block_of d ip k, d, ip)
  unfolding bmap own_block entry_block
  bmap_lem k lt = elim (Bool-cases (ltb k ndirect)) [
    | inl low ↦
        let used : ip.addrs k == 0 ≡ false = ground (arith, v.present k lt) in
        rw (low, bmap) (rw (used, own_block) refl)
    | inr high ↦
        let inside : ltb (k - ndirect) nindirect ≡ true = ground (arith, v.in_range) in
        let used : ip.addrs ndirect == 0 ≡ false = ground (arith, v.indirect) in
        let entry : read d (ip.addrs ndirect) (k - ndirect) == 0 ≡ false =
          ground (arith, v.present k lt) in
        rw (high, bmap) (rw (inside, own_block) (rw (used, entry_block) (rw entry refl)))
  ]

pub bytes_from-append :
    (f : ℕ → ℕ) (at m k : ℕ)
    → bytes_from f at (m + k) ≡ bytes_from f at m ++ bytes_from f (at + m) k
unfolding bytes_from
bytes_from-append f at zero k =
    let total : 0 + k ≡ k = omega arith in
    let here : at ≡ at + 0 = omega arith in
    ap (bytes_from f at) total ∙ ap (λ i. bytes_from f i k) here
bytes_from-append f at (suc m) k =
    let total : suc m + k ≡ suc (m + k) = omega arith in
    let next : at + 1 + m ≡ at + suc m = omega arith in
    ap (bytes_from f at) total
    ∙ ap (λ rest. f at ∷ rest)
        (bytes_from-append f (at + 1) m k
          ∙ ap (λ i. bytes_from f (at + 1) m ++ bytes_from f i k) next)

pub bytes_from-ext :
    (f g : ℕ → ℕ) (at off m : ℕ)
    → ((i : ℕ) → i < m → f (at + i) ≡ g (off + i))
    → bytes_from f at m ≡ bytes_from g off m
unfolding bytes_from
bytes_from-ext f g at off zero same = refl
bytes_from-ext f g at off (suc m) same =
    let here : f at ≡ g off = ap f (omega arith) ∙ same 0 (omega arith) ∙ ap g (omega arith) in
    rw here (
      ap (λ rest. g off ∷ rest)
        (bytes_from-ext f g (at + 1) (off + 1) m
          (λ i lt. ap f (omega arith) ∙ same (1 + i) (omega arith) ∙ ap g (omega arith))))

module _ (d : Disk) (ip : Inode) (end : ℕ) (v : IsMapped d ip end) where
  -- One round reads the file's bytes up to the end of the block.
  in_block-content :
      (off m : ℕ)
      → off % bsize + m ≤ bsize
      → bytes_from (get_byte (read d (block_of d ip (off / bsize)))) (off % bsize) m
        ≡ bytes_from (content d ip) off m
  in_block-content off m le = bytes_from-ext _ (content d ip) (off % bsize) off m (λ i lt.
      let here : (off + i) / bsize ≡ off / bsize = omega arith in
      let at : (off + i) % bsize ≡ off % bsize + i = omega arith in rw (here, at) refl)

  read_from_lem :
      (k off n : ℕ)
      → n ≤ k
      → off + n ≤ end
      → read_from k d ip off n ≡ some (bytes_from (content d ip) off n, d, ip)
  unfolding read_from bytes_from
  read_from_lem k off zero le inside = refl
  read_from_lem zero off (suc n) le inside = absurd (omega arith)
  read_from_lem (suc k) off (suc n) le inside =
      let m : ℕ = in_block off (suc n) in
      let split : m + (suc n - m) ≡ suc n = omega arith in
      let first_block = bmap_lem d ip end v (off / bsize) (omega arith) in
      let rest = read_from_lem k (off + m) (suc n - m) (omega arith) (omega arith) in
      rw (first_block, read_from)
        (rw (rest, bytes_from)
          (ap (λ got. some (got, d, ip))
            (ap (λ got. got ++ bytes_from (content d ip) (off + m) (suc n - m))
                (in_block-content off m (omega arith))
              ∙ sym (bytes_from-append (content d ip) off m (suc n - m))
              ∙ ap (bytes_from (content d ip) off) split)))

-- `readi` of a file that has a block for each byte: with `off` beyond the end, or `off + n` beyond
-- 32 bits, it answers -1; otherwise it ends and gives the bytes of the file from `off` on, `n` of
-- them or those up to the end of the file. It changes neither the disk nor the inode.
pub readi_lem :
    (devsw : ℕ → Option (Disk → Inode → ℕ → Reading)) (d : Disk) (ip : Inode) (off n : ℕ)
    → IsMapped d ip ip.size
    → ip.type ≢ t_dev
    → off < 0x1_0000_0000
    → n < 0x1_0000_0000
    → readi devsw d ip off n ≡ (
        if ltb ip.size off || ltb 0xffff_ffff (off + n)
        then some (none, d, ip)
        else some (some (bytes_from (content d ip) off (min n (ip.size - off))), d, ip))
unfolding readi
readi_lem devsw d ip off n v file lo ln =
    let no_dev : ip.type == t_dev ≡ false = ground arith in
    elim (Bool-cases (ltb ip.size off || ltb 0xffff_ffff (off + n))) [
      | inl out ↦
          let outside : is_outside ip off n ≡ true = ground (arith, v.in_range) in
          rw (no_dev, out) (rw (outside, readi) refl)
      | inr in_file ↦
          let outside : is_outside ip off n ≡ false = ground arith in
          let count : (if ltb ip.size ((off + n) % 0x1_0000_0000) then ip.size - off else n)
              ≡ min n (ip.size - off) =
            ground arith in
          rw (no_dev, in_file)
            (rw (outside, readi)
              (rw count (
                rw
                  (read_from_lem d ip ip.size v (min n (ip.size - off)) off (min n (ip.size - off))
                    (omega arith) (ground arith))
                  refl)))
    ]
