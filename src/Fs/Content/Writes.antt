-- ===== src/Fs/Content/Writes.antt =====
-- What writei writes, and that readi reads it.
use mutex.Common.{
  ℕ, zero, suc, ◌+◌, ◌-◌, ◌*◌, ◌/◌, ◌%◌, ◌≤◌, ◌<◌, ◌≡◌, ◌≢◌, inl, inr, refl, ◌∙◌, ap, sym, false,
  ◌&&◌, some, ltb, leb, ◌==◌, if◌then◌else◌, arith, Bool-cases, ℕ_discrete,
}
use mutex.Log.{Block}
use mutex.Fs.Bytes.{get_byte, get_byte-set_byte}
use mutex.Fs.Disk.{Disk, read, HasRoom, HasRoom-weaken, write_lem}
use mutex.Fs.Inode.{Inode, ndirect, iblock}
use mutex.Fs.Content.{bsize, copy_in, in_block, write_from}
use mutex.Fs.Content.Reads.{block_of, content, IsMapped, bmap_lem}

get_byte-copy_in :
    (b : Block) (at : ℕ) (src : ℕ → ℕ) (m j : ℕ)
    → get_byte (copy_in b at src m) j
      ≡ (if leb at j && ltb j (at + m) then src (j - at) % 256 else get_byte b j)
unfolding copy_in
get_byte-copy_in b at src zero j = ground arith
get_byte-copy_in b at src (suc m) j =
    get_byte-set_byte (copy_in b at src m) (at + m) (src m) j ∙ elim (ℕ_discrete (at + m) j) [
      | yes here ↦ let back : j - at ≡ m = omega arith in ground (arith, ap src back)
      | no there ↦ ground (arith, get_byte-copy_in b at src m j)
    ]

-- The blocks of the first `end` bytes are different ones, and none is the indirect block or the one
-- with the inode.
pub record IsSeparate (d : Disk) (ip : Inode) (end : ℕ) : Type 0 where
  pub different :
      (j k : ℕ) → j * bsize < end → k * bsize < end → block_of d ip j ≡ block_of d ip k → j ≡ k
  pub not_indirect : (k : ℕ) → k * bsize < end → block_of d ip k ≢ ip.addrs ndirect
  pub not_inode : (k : ℕ) → k * bsize < end → block_of d ip k ≢ iblock ip.inum
  pub indirect_not_inode : ip.addrs ndirect ≢ iblock ip.inum

-- The bytes of `src` stand in the file from `off` on, `n` of them, and nothing else has changed.
pub record Overwritten (d : Disk) (ip : Inode) (end : ℕ) (src : ℕ → ℕ) (off n : ℕ) (d' : Disk)
    : Type 0 where
  pub blocks : (k : ℕ) → k * bsize < end → block_of d' ip k ≡ block_of d ip k
  pub holds :
      (j : ℕ)
      → j < end
      → content d' ip j
        ≡ (if leb off j && ltb j (off + n) then src (j - off) % 256 else content d ip j)
  pub rest : (c : ℕ) → ((k : ℕ) → k * bsize < end → block_of d ip k ≢ c) → read d' c ≡ read d c

module _ (d : Disk) (ip : Inode) (end : ℕ) (src : ℕ → ℕ) (off n : ℕ) (d' : Disk)
    (w : Overwritten d ip end src off n d') where
  pub Overwritten-IsMapped : IsMapped d ip end → IsMapped d' ip end
  Overwritten-IsMapped v = record {
    in_range = v.in_range;
    present = λ k lt e. v.present k lt (sym (w.blocks k lt) ∙ e);
    indirect = v.indirect;
  }

  pub Overwritten-IsSeparate : IsSeparate d ip end → IsSeparate d' ip end
  Overwritten-IsSeparate s = record {
    different = λ j k lj lk e. s.different j k lj lk (sym (w.blocks j lj) ∙ e ∙ w.blocks k lk);
    not_indirect = λ k lt e. s.not_indirect k lt (sym (w.blocks k lt) ∙ e);
    not_inode = λ k lt e. s.not_inode k lt (sym (w.blocks k lt) ∙ e);
    indirect_not_inode = s.indirect_not_inode;
  }

  Overwritten-append :
      (k total : ℕ) (d'' : Disk)
      → n + k ≡ total
      → Overwritten d' ip end (λ i. src (n + i)) (off + n) k d''
      → Overwritten d ip end src off total d''
  Overwritten-append k total d'' sum w' = record {
    blocks = λ b lt. w'.blocks b lt ∙ w.blocks b lt;
    holds = λ j lt.
        let e = w'.holds j lt in
        let e' = w.holds j lt in
        elim (Bool-cases (leb (off + n) j)) [
          | inl high ↦
              let back : n + (j - (off + n)) ≡ j - off = ground arith in ground (arith, ap src back)
          | inr low ↦ ground arith
        ];
    rest = λ c apart. w'.rest c (λ b lt e. apart b lt (sym (w.blocks b lt) ∙ e)) ∙ w.rest c apart;
  }

-- One round of the loop.
module _ (d : Disk) (ip : Inode) (end : ℕ) (s : IsSeparate d ip end) (src : ℕ → ℕ) (off m : ℕ)
    (pos : 0 < m) (fits : off % bsize + m ≤ bsize) (inside : off + m ≤ end) where
  round_lem :
      (d' : Disk)
      → ((c : ℕ)
          → read d' c ≡ (
              if block_of d ip (off / bsize) == c
              then copy_in (read d (block_of d ip (off / bsize))) (off % bsize) src m
              else read d c))
      → Overwritten d ip end src off m d'
  round_lem d' reads = record {
    blocks = blocks_same;
    holds = λ j lt. in_file j lt (ℕ_discrete (off / bsize) (j / bsize));
    rest = λ c apart. reads c ∙ ground (arith, apart (off / bsize) (omega arith));
  }
    where
      blocks_same : (k : ℕ) → k * bsize < end → block_of d' ip k ≡ block_of d ip k
      blocks_same k lt =
          ground (arith, s.not_indirect (off / bsize) (omega arith), reads (ip.addrs ndirect))

      in_file :
          (j : ℕ)
          → j < end
          → Dec (off / bsize ≡ j / bsize)
          → content d' ip j
            ≡ (if leb off j && ltb j (off + m) then src (j - off) % 256 else content d ip j)
      in_file j lt (yes same) =
          let at : j % bsize - off % bsize ≡ j - off = omega arith in
          let range : (leb (off % bsize) (j % bsize) && ltb (j % bsize) (off % bsize + m))
              ≡ (leb off j && ltb j (off + m)) =
            ground arith in
          let e : read d' (block_of d ip (j / bsize))
              ≡ copy_in (read d (block_of d ip (off / bsize))) (off % bsize) src m =
            reads (block_of d ip (j / bsize)) ∙ ground (arith, ap (block_of d ip) same) in
          rw (blocks_same (j / bsize) (omega arith), e)
            (get_byte-copy_in (read d (block_of d ip (off / bsize))) (off % bsize) src m (j % bsize)
              ∙ rw (range, at, same) refl)
      in_file j lt (no other) =
          let range : (leb off j && ltb j (off + m)) ≡ false = ground arith in
          let apart : block_of d ip (off / bsize) ≢ block_of d ip (j / bsize) =
            λ e. other (s.different (off / bsize) (j / bsize) (omega arith) (omega arith) e) in
          let e : read d' (block_of d ip (j / bsize)) ≡ read d (block_of d ip (j / bsize)) =
            reads (block_of d ip (j / bsize)) ∙ ground (arith, apart) in
          rw (blocks_same (j / bsize) (omega arith), e, range) refl

-- The blocks that the bytes from `off` on, `n` of them, stand in, at most.
abbrev pub spans : ℕ → ℕ → ℕ
spans off n = if n == 0 then 0 else (off % bsize + n + 511) / bsize

-- The loop ends, with a fuel of `n`, and writes the bytes.
pub write_from_lem :
    (k : ℕ) (d : Disk) (ip : Inode) (end : ℕ) (src : ℕ → ℕ) (off n room : ℕ)
    → n ≤ k
    → off + n ≤ end
    → IsMapped d ip end
    → IsSeparate d ip end
    → HasRoom d (room + spans off n)
    → (d' : Disk) × (write_from k d ip src off n ≡ some (d', ip))
      × HasRoom d' room
      × Overwritten d ip end src off n d'
unfolding write_from
write_from_lem k d ip end src off zero room le inside v s h = (
  d,
  refl,
  HasRoom-weaken d room (room + spans off 0) (omega arith) h,
  record { blocks = λ k lt. refl; holds = λ j lt. ground arith; rest = λ c e. refl },
)
write_from_lem zero d ip end src off (suc n) room le inside v s h = absurd (omega arith)
write_from_lem (suc k) d ip end src off (suc n) room le inside v s h =
    let m : ℕ = in_block off (suc n) in
    let b : ℕ = block_of d ip (off / bsize) in
    let left : ℕ = spans (off + m) (suc n - m) in
    let x : Block = copy_in (read d b) (off % bsize) src m in
    let count : m + (suc n - m) ≡ suc n = omega arith in
    let (d₁, e₁, h₁, reads) =
      write_lem d (room + left) b x
        (HasRoom-weaken d (suc (room + left)) (room + spans off (suc n)) (ground arith) h) in
    let w₁ = round_lem d ip end s src off m (omega arith) (omega arith) (omega arith) d₁ reads in
    let (d₂, e₂, h₂, w₂) =
      write_from_lem k d₁ ip end (λ i. src (m + i)) (off + m) (suc n - m) room (omega arith)
        (omega arith) (Overwritten-IsMapped d ip end src off m d₁ w₁ v)
        (Overwritten-IsSeparate d ip end src off m d₁ w₁ s) h₁ in
    (
      d₂,
      rw (bmap_lem d ip end v (off / bsize) (omega arith), write_from) (rw (e₁, write_from) e₂),
      h₂,
      Overwritten-append d ip end src off m d₁ w₁ (suc n - m) (suc n) d₂ count w₂,
    )

-- The inode after a write up to `end`.
abbrev pub grown : Inode → ℕ → Inode
grown ip end = if ltb ip.size end then record ip { size = end } else ip
