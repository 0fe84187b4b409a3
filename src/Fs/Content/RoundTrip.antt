-- ===== src/Fs/Content/RoundTrip.antt =====
-- What writei leaves behind, and that readi reads it back.
use mutex.Common.{
  ℕ, suc, ◌+◌, ◌-◌, ◌*◌, ◌/◌, ◌%◌, ◌≤◌, ◌<◌, ◌≡◌, ◌≢◌, inl, inr, refl, ◌∙◌, ap, sym, true, false,
  ◌&&◌, ◌||◌, Option, some, ltb, leb, ◌==◌, if◌then◌else◌, min, arith, Bool-cases, is_positive,
}
use mutex.Log.{Block}
use mutex.Fs.Bytes.{get_byte}
use mutex.Fs.Disk.{Disk, read, HasRoom, HasRoom-weaken, write_lem}
use mutex.Fs.Inode.{Inode, ndirect, iblock, iupdate, store_dinode}
use mutex.Fs.Content.{
  bsize, t_dev, bytes_from, maxfile_bytes, Reading, Writing, is_outside, readi, writei,
}
use mutex.Fs.Content.Reads.{block_of, content, IsMapped, bytes_from-ext, readi_lem}
use mutex.Fs.Content.Writes.{
  IsSeparate, grown, Overwritten, Overwritten-IsMapped, Overwritten-IsSeparate, spans,
  write_from_lem,
}

-- What `writei` leaves: the bytes of `src` in the file from `off` on, `n` of them, the file's other
-- bytes as before, and every block as before that is not the file's or, for a file that has grown, the
-- inode's.
pub record Stored (d : Disk) (ip : Inode) (end : ℕ) (src : ℕ → ℕ) (off n : ℕ) (d' : Disk)
    (ip' : Inode) : Type 0 where
  pub holds :
      (j : ℕ)
      → j < end
      → content d' ip' j
        ≡ (if leb off j && ltb j (off + n) then src (j - off) % 256 else content d ip j)
  pub rest :
      (c : ℕ)
      → ((k : ℕ) → k * bsize < end → block_of d ip k ≢ c)
      → (ip'.size ≢ ip.size → c ≢ iblock ip.inum)
      → read d' c ≡ read d c
  pub mapped : IsMapped d' ip' end
  pub separate : IsSeparate d' ip' end

module _ (d : Disk) (ip : Inode) (end : ℕ) (src : ℕ → ℕ) (off n : ℕ) (d' : Disk)
    (w : Overwritten d ip end src off n d') (v : IsMapped d ip end) (s : IsSeparate d ip end) where
  Overwritten-Stored : Stored d ip end src off n d' ip
  Overwritten-Stored = record {
    holds = w.holds;
    rest = λ c apart e. w.rest c apart;
    mapped = Overwritten-IsMapped d ip end src off n d' w v;
    separate = Overwritten-IsSeparate d ip end src off n d' w s;
  }

  -- Then the inode is written, with a new size.
  inode_written :
      (d'' : Disk) (x : Block) (size : ℕ)
      → size ≢ ip.size
      → ((c : ℕ) → read d'' c ≡ (if iblock ip.inum == c then x else read d' c))
      → Stored d ip end src off n d'' (record ip { size = size })
  inode_written d'' x size more reads =
      let v' = Overwritten-IsMapped d ip end src off n d' w v in
      let s' = Overwritten-IsSeparate d ip end src off n d' w s in
      let table : read d'' (ip.addrs ndirect) ≡ read d' (ip.addrs ndirect) =
        reads (ip.addrs ndirect) ∙ ground (arith, s.indirect_not_inode) in
      let same : (k : ℕ) → block_of d'' ip k ≡ block_of d' ip k = λ k. rw table refl in
      record {
        holds = λ j lt.
            let there : read d'' (block_of d' ip (j / bsize))
                ≡ read d' (block_of d' ip (j / bsize)) =
              reads (block_of d' ip (j / bsize))
              ∙ ground (arith, s'.not_inode (j / bsize) (omega arith)) in
            ap (λ c. get_byte (read d'' c) (j % bsize)) (same (j / bsize))
            ∙ ap (λ (c : Block). get_byte c (j % bsize)) there
            ∙ w.holds j lt;
        rest = λ c apart e. reads c ∙ ground (arith, w.rest c apart, e more);
        mapped = record {
          in_range = v'.in_range;
          present = λ k lt e. v'.present k lt (sym (same k) ∙ e);
          indirect = v'.indirect;
        };
        separate = record {
          different = λ j k lj lk e. s'.different j k lj lk (sym (same j) ∙ e ∙ same k);
          not_indirect = λ k lt e. s'.not_indirect k lt (sym (same k) ∙ e);
          not_inode = λ k lt e. s'.not_inode k lt (sym (same k) ∙ e);
          indirect_not_inode = s'.indirect_not_inode;
        };
      }

-- `writei` into a file that has a block for each byte up to `off + n`, with `off` not beyond its end,
-- in a transaction with room for the blocks of those bytes and one more: it ends, panics nowhere and
-- answers `n`; the bytes stand in the file from `off` on and every other byte is as before; the size
-- grows to `off + n` if it was smaller, and the inode is as before otherwise; and no block changes
-- but the file's and, where the size grows, the inode's.
pub writei_lem :
    (devsw : ℕ → Option (Disk → Inode → (ℕ → ℕ) → ℕ → Writing)) (d : Disk) (ip : Inode) (end : ℕ)
    (src : ℕ → ℕ) (off n room : ℕ)
    → ip.type ≢ t_dev
    → IsMapped d ip end
    → IsSeparate d ip end
    → off ≤ ip.size
    → ip.size ≤ end
    → off + n ≤ end
    → HasRoom d (suc room + spans off n)
    → (d' : Disk) × (writei devsw d ip src off n ≡ some (some n, d', grown ip (off + n)))
      × HasRoom d' room
      × Stored d ip end src off n d' (grown ip (off + n))
unfolding writei
writei_lem devsw d ip end src off n room file v s lo size hi h =
    let no_dev : ip.type == t_dev ≡ false = ground arith in
    let outside : is_outside ip off n ≡ false = ground (arith, v.in_range) in
    let short : ltb maxfile_bytes ((off + n) % 0x1_0000_0000) ≡ false =
      ground (arith, v.in_range) in
    let (d₁, e, h₁, w) = write_from_lem n d ip end src off n (suc room) (omega arith) hi v s h in
    elim (Bool-cases (ltb ip.size (off + n))) [
      | inl more ↦
          let some_bytes : is_positive n ≡ true = ground arith in
          let ip' : Inode = record ip { size = off + n } in
          let x : Block = store_dinode (read d₁ (iblock ip.inum)) ip' in
          let (d₂, e₂, h₂, reads) = write_lem d₁ room (iblock ip.inum) x h₁ in
          (
            d₂,
            rw (no_dev, outside, short, more)
                (rw e (rw (more, some_bytes) (rw (e₂, iupdate) refl))),
            h₂,
            rw more (inode_written d ip end src off n d₁ w v s d₂ x (off + n) (ground arith) reads),
          )
      | inr no_more ↦
          let same : (is_positive n && ltb ip.size (off + n)) ≡ false = ground arith in
          (
            d₁,
            rw (no_dev, outside, short) (rw e (rw (same, no_more) refl)),
            HasRoom-weaken d₁ room (suc room) (omega arith) h₁,
            rw no_more (Overwritten-Stored d ip end src off n d₁ w v s),
          )
    ]

pub IsMapped-shorten : (d : Disk) (ip : Inode) (m n : ℕ) → m ≤ n → IsMapped d ip n → IsMapped d ip m
IsMapped-shorten d ip m n le v = record {
  in_range = omega (arith, v.in_range);
  present = λ k lt. v.present k (omega arith);
  indirect = λ lt. v.indirect (omega arith);
}

-- For a file that is no device and has a block already for each byte up to `end`, all of them
-- different and apart from the inode's and the indirect one, a write of `n` bytes at an `off` not
-- beyond the file's end, with `off + n` up to `end`, in a transaction with room for the blocks of those
-- bytes and one more: `writei` ends, panics nowhere and answers `n`; `readi` at `off` then reads the `n`
-- bytes written, each cut to 8 bits, and changes nothing; every other byte of the file up to `end` is
-- as before; the size grows to `off + n` if it was smaller, and the inode is as before otherwise; and
-- no block changes but the file's and, where the size grows, the inode's. Writes for which bmap has to
-- allocate a block are not covered.
pub readi-writei :
    (dev_write : ℕ → Option (Disk → Inode → (ℕ → ℕ) → ℕ → Writing))
    (dev_read : ℕ → Option (Disk → Inode → ℕ → Reading)) (d : Disk) (ip : Inode) (end : ℕ)
    (src : ℕ → ℕ) (off n room : ℕ)
    → ip.type ≢ t_dev
    → IsMapped d ip end
    → IsSeparate d ip end
    → off ≤ ip.size
    → ip.size ≤ end
    → off + n ≤ end
    → HasRoom d (suc room + spans off n)
    → (d' : Disk) × (ip' : Inode) × (writei dev_write d ip src off n ≡ some (some n, d', ip'))
      × (readi dev_read d' ip' off n ≡ some (some (bytes_from (λ i. src i % 256) 0 n), d', ip'))
      × (ip' ≡ grown ip (off + n))
      × Stored d ip end src off n d' ip'
readi-writei dev_write dev_read d ip end src off n room file v s lo size hi h =
    let (d', e, h', st) = writei_lem dev_write d ip end src off n room file v s lo size hi h in
    let ip' : Inode = grown ip (off + n) in
    let kind : ip'.type ≢ t_dev = ground arith in
    let short : ip'.size ≤ end = ground arith in
    let inside : (ltb ip'.size off || ltb 0xffff_ffff (off + n)) ≡ false =
      ground (arith, v.in_range) in
    let all : min n (ip'.size - off) ≡ n = ground arith in
    let same : bytes_from (content d' ip') off n ≡ bytes_from (λ i. src i % 256) 0 n =
      bytes_from-ext (content d' ip') (λ i. src i % 256) off 0 n
        (λ i lt.
          let back : off + i - off ≡ i = omega arith in
          ground (arith, st.holds (off + i) (omega arith), ap src back)) in
    (
      d',
      ip',
      e,
      readi_lem dev_read d' ip' off n (IsMapped-shorten d' ip' ip'.size end short st.mapped) kind
            (omega (arith, v.in_range)) (omega (arith, v.in_range))
          ∙ rw (inside, all, same) refl,
      refl,
      st,
    )
