-- ===== src/Fs/Dir/Link.antt =====
-- What dirlink adds, dirlookup finds.
use mutex.Common.{
  ℕ, zero, suc, ◌+◌, ◌-◌, ◌*◌, ◌%◌, ◌≤◌, ◌<◌, ◌≡◌, ◌≢◌, ◌⊎◌, IsFirst, inl, inr, refl, sym, ◌∙◌, ap,
  Bool, true, false, ◌&&◌, Option, none, some, ltb, leb, ◌==◌, if◌then◌else◌, arith, first,
  first_from, IsFirst-first, first-IsFirst, first-none, Option-cases, update,
}
use mutex.Cstring.{Memory}
use mutex.Fs.Bytes.{get_byte-lt}
use mutex.Fs.Disk.{Disk, HasRoom, HasRoom-weaken}
use mutex.Fs.Inode.{Inode, Icache}
use mutex.Fs.Content.{Reading, Writing, t_dev}
use mutex.Fs.Content.Reads.{content, IsMapped}
use mutex.Fs.Content.Writes.{IsSeparate, grown, spans}
use mutex.Fs.Content.RoundTrip.{Stored, writei_lem, IsMapped-shorten}
use mutex.Fs.Dir.{t_dir, dirent_size, namecmp, dirlookup, empty_from, new_entry, dirlink}
use mutex.Fs.Dir.Entry.{new_entry-name, new_entry-inum}
use mutex.Fs.Dir.Lookup.{
  inum_at, name_at, is_match, read_entry, length-bytes_from, entry_inum-bytes_from, dirlookup_lem,
  namecmp-ext,
}

-- The first empty entry of those from `k` on, `n` of them, or the end.
abbrev slot : Disk → Inode → ℕ → ℕ → ℕ
slot d dp n k = elim (first_from (λ j. inum_at d dp j == 0) n k) [ none ↦ k + n | some j ↦ j ]

module _ (devsw : ℕ → Option (Disk → Inode → ℕ → Reading)) (d : Disk) (dp : Inode)
    (v : IsMapped d dp dp.size) (dir : dp.type ≡ t_dir) where
  found_slot :
      (others : Option ℕ) (k n : ℕ) (free : Bool)
      → let at : Option ℕ → ℕ = λ o. elim o [ none ↦ k + suc n | some j ↦ j ] in
        let at' : Option ℕ → ℕ = λ o. elim o [ none ↦ k + 1 + n | some j ↦ j ] in
        ◌≡◌ {A = Option (ℕ × Disk × Inode)}
          (if free then some (16 * k, d, dp) else some (16 * at' others, d, dp))
          (some (16 * at (if free then some k else others), d, dp))
  found_slot others k n true = refl
  found_slot none k n false =
      let total : 16 * (k + 1 + n) ≡ 16 * (k + suc n) = omega arith in
      ap (λ m. some (m, d, dp)) total
  found_slot (some j) k n false = refl

  empty_from_lem :
      (fuel n k : ℕ)
      → n ≤ fuel
      → dp.size ≡ 16 * (k + n)
      → empty_from devsw fuel d dp (16 * k) ≡ some (16 * slot d dp n k, d, dp)
  unfolding empty_from first_from
  empty_from_lem zero zero k le size =
      let end : ltb (16 * k) dp.size ≡ false = ground arith in
      let here : 16 * k ≡ 16 * (k + 0) = omega arith in rw end (ap (λ m. some (m, d, dp)) here)
  empty_from_lem (suc fuel) zero k le size =
      let end : ltb (16 * k) dp.size ≡ false = ground arith in
      let here : 16 * k ≡ 16 * (k + 0) = omega arith in rw end (ap (λ m. some (m, d, dp)) here)
  empty_from_lem zero (suc n) k le size = absurd (omega arith)
  empty_from_lem (suc fuel) (suc n) k le size =
      let more : ltb (16 * k) dp.size ≡ true = ground arith in
      let next : 16 * k + dirent_size ≡ 16 * (k + 1) = omega arith in
      let rest = empty_from_lem fuel n (k + 1) (omega arith) (omega arith) in
      rw (more, read_entry devsw d dp v dir (λ a. 0) k (omega arith))
        (rw
          (
            length-bytes_from (content d dp) (16 * k) dirent_size,
            entry_inum-bytes_from (content d dp) (16 * k),
            next,
            rest,
          )
          (found_slot (first_from (λ j. inum_at d dp j == 0) n (k + 1)) k n (inum_at d dp k == 0)))

-- What the write of entry `k` leaves of the directory.
module _ (d d' : Disk) (dp dp' : Inode) (end k : ℕ) (name : Memory) (inum : ℕ)
    (st : Stored d dp end (new_entry name inum) (16 * k) 16 d' dp')
    (inside : 16 * k + 16 ≤ end) where
  other_byte :
      (j x : ℕ)
      → j ≢ k
      → x < 16
      → 16 * j + x < end
      → content d' dp' (16 * j + x) ≡ content d dp (16 * j + x)
  other_byte j x other lt le =
      let outside : (leb (16 * k) (16 * j + x) && ltb (16 * j + x) (16 * k + 16)) ≡ false =
        ground arith in
      st.holds (16 * j + x) le ∙ rw outside refl

  own_byte : (x : ℕ) → x < 16 → content d' dp' (16 * k + x) ≡ new_entry name inum x % 256
  own_byte x lt =
      let within : (leb (16 * k) (16 * k + x) && ltb (16 * k + x) (16 * k + 16)) ≡ true =
        ground arith in
      let at : 16 * k + x - 16 * k ≡ x = omega arith in
      st.holds (16 * k + x) (omega arith) ∙ rw (within, at) refl

  inum_at-other : (j : ℕ) → j ≢ k → 16 * j + 16 ≤ end → inum_at d' dp' j ≡ inum_at d dp j
  inum_at-other j other le =
      let at : 16 * j ≡ 16 * j + 0 = omega arith in
      ap (λ b. b + content d' dp' (16 * j + 1) * 256)
        (ap (content d' dp') at
          ∙ other_byte j 0 other (omega arith) (omega arith)
          ∙ ap (content d dp) (sym at))
      ∙ ap (λ b. content d dp (16 * j) + b * 256) (other_byte j 1 other (omega arith) (omega arith))

  inum_at-own : ((a : ℕ) → name a < 256) → inum < 65536 → inum_at d' dp' k ≡ inum
  inum_at-own small lt =
      let at : 16 * k ≡ 16 * k + 0 = omega arith in
      ap (λ b. b + content d' dp' (16 * k + 1) * 256)
        (ap (content d' dp') at ∙ own_byte 0 (omega arith))
      ∙ ap (λ b. new_entry name inum 0 % 256 + b * 256) (own_byte 1 (omega arith))
      ∙ new_entry-inum name inum small lt

  is_match-other :
      (j : ℕ) → j ≢ k → 16 * j + 16 ≤ end → is_match d' dp' name j ≡ is_match d dp name j
  is_match-other j other le =
      let same : namecmp name (name_at d' dp' j) ≡ namecmp name (name_at d dp j) =
        namecmp-ext name (name_at d' dp' j) (name_at d dp j)
          (λ i lt. other_byte j (2 + i) other (omega arith) (omega arith)) in
      rw (inum_at-other j other le, same) refl

  is_match-own : ((a : ℕ) → name a < 256) → inum < 65536 → inum ≢ 0 → is_match d' dp' name k ≡ true
  is_match-own small lt used =
      let named : namecmp name (name_at d' dp' k) ≡ 0 =
        new_entry-name name inum small (name_at d' dp' k) (λ i lt. own_byte (2 + i) (omega arith))
          (λ a. get_byte-lt _ _) in
      rw (inum_at-own small lt, named) (ground arith)

-- Where the new entry goes in a directory of `n` entries, and how many it has then: the first empty
-- entry, or the end if none is empty.
abbrev pub IsSlot : Disk → Inode → ℕ → ℕ → ℕ → Type 0
IsSlot d dp n k n' =
    (IsFirst (λ j. inum_at d dp j == 0) n k × (n' ≡ n))
    ⊎ (((j : ℕ) → j < n → inum_at d dp j ≢ 0) × (k ≡ n) × (n' ≡ n + 1))

abbrev entries_with : ℕ → ℕ → ℕ
entries_with n k = if k == n then n + 1 else n

-- The slot is no entry in use.
slot_lem :
    (d : Disk) (dp : Inode) (n : ℕ)
    → (slot d dp n 0 ≤ n)
      × ((j : ℕ) → j < n → inum_at d dp j ≢ 0 → j ≢ slot d dp n 0)
      × IsSlot d dp n (slot d dp n 0) (entries_with n (slot d dp n 0))
unfolding first
slot_lem d dp n = elim (Option-cases (first (λ j. inum_at d dp j == 0) n)) [
  | inl miss ↦
      rw (miss, slot)
        (
          omega arith,
          λ j lt used. omega arith,
          inr (
            λ j lt. ground (arith, first-none (λ j. inum_at d dp j == 0) n miss j lt),
            omega arith,
            ground arith,
          ),
        )
  | inr (k, e) ↦
      let f = first-IsFirst (λ j. inum_at d dp j == 0) n k e in
      let low : k ≤ n = omega (arith, f.below) in
      let free : inum_at d dp k ≡ 0 = ground (arith, f.passes) in
      rw (e, slot)
        (
          low,
          λ j lt used same. used (ap (inum_at d dp) same ∙ free),
          inl (f, ground (arith, f.below)),
        )
]

-- Where `k` is the slot.
module _ (devsw : ℕ → Option (Disk → Inode → ℕ → Reading))
    (dev_write : ℕ → Option (Disk → Inode → Memory → ℕ → Writing)) (d : Disk) (c : Icache)
    (i n end room : ℕ) (name : Memory) (inum : ℕ) (v : IsMapped d (c i) end)
    (s : IsSeparate d (c i) end) (dir : (c i).type ≡ t_dir) (size : (c i).size ≡ 16 * n)
    (le : 16 * n + 16 ≤ end) (new : first (is_match d (c i) name) n ≡ none)
    (small : (a : ℕ) → name a < 256) (used : inum ≢ 0) (lt : inum < 65536)
    (h : HasRoom d (2 + room)) where
  abbrev Linked : Disk → Inode → ℕ → ℕ → Type 0
  Linked d' dp' n' k =
      (dirlink devsw dev_write d c i name inum ≡ some (some 0, d', update c i dp'))
      × HasRoom d' room
      × (n' ≡ entries_with n k)
      × (dp'.size ≡ 16 * n')
      × (first (is_match d' dp' name) n' ≡ some k)
      × (inum_at d' dp' k ≡ inum)
      × ((j x : ℕ)
          → j < n
          → j ≢ k
          → x < 16
          → content d' dp' (16 * j + x) ≡ content d (c i) (16 * j + x))
      × ((j : ℕ) → j < n → inum_at d (c i) j ≢ 0 → inum_at d' dp' j ≡ inum_at d (c i) j)

  not_found : dirlookup devsw d c i name ≡ some (none, d, c)
  not_found =
      elim (dirlookup_lem devsw d c i n name
        (IsMapped-shorten d (c i) (c i).size end (omega arith) v) dir size) [
          | inl (miss, e) ↦ e
          | inr (k, hit, e) ↦ absurd (ground (arith, hit, new))
        ]

  link_at :
      (k : ℕ)
      → k ≤ n
      → ((j : ℕ) → j < n → inum_at d (c i) j ≢ 0 → j ≢ k)
      → empty_from devsw (c i).size d (c i) 0 ≡ some (16 * k, d, c i)
      → (d' : Disk) × (dp' : Inode) × (n' : ℕ) × Linked d' dp' n' k
  unfolding dirlink
  link_at k low free scan =
      let file : (c i).type ≢ t_dev = ground arith in
      let blocks : HasRoom d (suc room + spans (16 * k) 16) =
        HasRoom-weaken d (suc room + spans (16 * k) 16) (2 + room) (ground arith) h in
      let (d', e, h', st) =
        writei_lem dev_write d (c i) end (new_entry name inum) (16 * k) 16 room file v s
          (omega arith) (omega arith) (omega arith) blocks in
      let dp' : Inode = grown (c i) (16 * k + 16) in
      let n' : ℕ = entries_with n k in
      let inside : 16 * k + 16 ≤ end = omega arith in
      (
        d',
        dp',
        n',
        (
          rw (not_found, dirlink) (rw (scan, dirlink) (rw e refl)),
          h',
          refl,
          ground arith,
          IsFirst-first (is_match d' dp' name) n' k (record {
            below = ground arith;
            passes = is_match-own d d' (c i) dp' end k name inum st inside small lt used;
            earlier_fail = λ j lj.
                is_match-other d d' (c i) dp' end k name inum st inside j (omega arith)
                  (omega arith)
                ∙ first-none (is_match d (c i) name) n new j (omega arith);
          }),
          inum_at-own d d' (c i) dp' end k name inum st inside small lt,
          λ j x lj other lx.
              other_byte d d' (c i) dp' end k name inum st inside j x other lx (omega arith),
          λ j lj in_use.
              inum_at-other d d' (c i) dp' end k name inum st inside j (free j lj in_use)
                (omega arith),
        ),
      )

-- `dirlink` of a name of bytes that no entry in use has, for an inode from 1 to 65535, in a directory
-- of `n` whole entries that has a block already for each byte of `n + 1` entries, all of them different
-- and apart from the inode's and the indirect one, in a transaction with room for two blocks: it ends,
-- does not panic and answers 0. Additions for which bmap has to allocate a block are not covered. The new entry stands where the first empty one was, and the
-- directory has as many entries as before; or, if none was empty, it is one more at the end. It holds
-- the inode's number and is the first entry in use with the name, and every other entry is as before,
-- byte for byte, so that those in use have their numbers.
pub dirlink_lem :
    (devsw : ℕ → Option (Disk → Inode → ℕ → Reading))
    (dev_write : ℕ → Option (Disk → Inode → Memory → ℕ → Writing)) (d : Disk) (c : Icache)
    (i n end room : ℕ) (name : Memory) (inum : ℕ)
    → IsMapped d (c i) end
    → IsSeparate d (c i) end
    → (c i).type ≡ t_dir
    → (c i).size ≡ 16 * n
    → 16 * n + 16 ≤ end
    → first (is_match d (c i) name) n ≡ none
    → ((a : ℕ) → name a < 256)
    → inum ≢ 0
    → inum < 65536
    → HasRoom d (2 + room)
    → (d' : Disk) × (dp' : Inode) × (n' k : ℕ) × (dirlink devsw dev_write d c i name inum
        ≡ some (some 0, d', update c i dp'))
      × HasRoom d' room
      × IsSlot d (c i) n k n'
      × (dp'.size ≡ 16 * n')
      × (first (is_match d' dp' name) n' ≡ some k)
      × (inum_at d' dp' k ≡ inum)
      × ((j x : ℕ)
          → j < n
          → j ≢ k
          → x < 16
          → content d' dp' (16 * j + x) ≡ content d (c i) (16 * j + x))
      × ((j : ℕ) → j < n → inum_at d (c i) j ≢ 0 → inum_at d' dp' j ≡ inum_at d (c i) j)
dirlink_lem devsw dev_write d c i n end room name inum v s dir size le new small used lt h =
    let k : ℕ = slot d (c i) n 0 in
    let (low, free, place) = slot_lem d (c i) n in
    let short : IsMapped d (c i) (c i).size =
      IsMapped-shorten d (c i) (c i).size end (omega arith) v in
    let scan = empty_from_lem devsw d (c i) short dir (c i).size n 0 (omega arith) (omega arith) in
    let (d', dp', n', done) =
      link_at devsw dev_write d c i n end room name inum v s dir size le new small used lt h k low
        free scan in
    let (run, left, count, whole_entries, hit, number, bytes, others) = done in
    (d', dp', n', k, run, left, rw count place, whole_entries, hit, number, bytes, others)
