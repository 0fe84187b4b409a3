-- ===== src/Fs/Dir/Lookup.antt =====
-- What dirlookup finds.
use mutex.Common.{
  ℕ, zero, suc, ◌+◌, ◌-◌, ◌*◌, ◌≤◌, ◌<◌, ◌≡◌, ◌≢◌, ◌⊎◌, inl, inr, refl, ◌∙◌, ap, Bool, true, false,
  not, ◌&&◌, ◌||◌, Option, none, some, ltb, ◌==◌, if◌then◌else◌, length, get_or, arith, first,
  first_from, min, Option-cases, ◌>>=◌, fun_ext, update,
}
use mutex.Cstring.{Memory, strncmp, difference}
use mutex.Fs.Disk.{Disk}
use mutex.Fs.Inode.{Inode, Icache, iget}
use mutex.Fs.Content.{Reading, readi, bytes_from, t_dev}
use mutex.Fs.Content.Reads.{content, IsMapped, readi_lem}
use mutex.Fs.Path.{dirsiz}
use mutex.Fs.Dir.{
  t_dir, dirent_size, entry_inum, entry_name, both_names, namecmp, Found, lookup_from, dirlookup,
}

strncmp-ext :
    (m m' : Memory) (p q n : ℕ)
    → ((i : ℕ) → i < n → m (p + i) ≡ m' (p + i))
    → ((i : ℕ) → i < n → m (q + i) ≡ m' (q + i))
    → strncmp m p q n ≡ strncmp m' p q n
unfolding strncmp
strncmp-ext m m' p q zero same same' = refl
strncmp-ext m m' p q (suc n) same same' =
    let here : m p ≡ m' p = ap m (omega arith) ∙ same 0 (omega arith) ∙ ap m' (omega arith) in
    let here' : m q ≡ m' q = ap m (omega arith) ∙ same' 0 (omega arith) ∙ ap m' (omega arith) in
    rw (here, here')
      (ap (λ rest. if not (m' p == 0) && m' p == m' q then rest else difference (m' p) (m' q))
        (strncmp-ext m m' (p + 1) (q + 1) n
          (λ i lt. ap m (omega arith) ∙ same (1 + i) (omega arith) ∙ ap m' (omega arith))
          (λ i lt. ap m (omega arith) ∙ same' (1 + i) (omega arith) ∙ ap m' (omega arith))))

get_or-bytes_from : (f : ℕ → ℕ) (at n i : ℕ) → i < n → get_or (bytes_from f at n) i 0 ≡ f (at + i)
unfolding bytes_from
get_or-bytes_from f at zero i lt = absurd (omega arith)
get_or-bytes_from f at (suc n) zero lt = ap f (omega arith)
get_or-bytes_from f at (suc n) (suc i) lt =
    get_or-bytes_from f (at + 1) n i (omega arith) ∙ ap f (omega arith)

pub length-bytes_from : (f : ℕ → ℕ) (at n : ℕ) → length (bytes_from f at n) ≡ n
unfolding bytes_from
length-bytes_from f at zero = refl
length-bytes_from f at (suc n) = ap suc (length-bytes_from f (at + 1) n)

-- The number and the name in entry `k` of a directory.
abbrev pub inum_at : Disk → Inode → ℕ → ℕ
inum_at d dp k = content d dp (16 * k) + content d dp (16 * k + 1) * 256

abbrev pub name_at : Disk → Inode → ℕ → Memory
name_at d dp k i = content d dp (16 * k + (2 + i))

-- Entry `k` is in use and has the name.
abbrev pub is_match : Disk → Inode → Memory → ℕ → Bool
is_match d dp name k = not (inum_at d dp k == 0) && namecmp name (name_at d dp k) == 0

pub namecmp-ext :
    (name s t : Memory) → ((i : ℕ) → i < dirsiz → s i ≡ t i) → namecmp name s ≡ namecmp name t
unfolding namecmp
namecmp-ext name s t same =
    strncmp-ext (both_names name s) (both_names name t) 0 16 dirsiz (λ i lt. ground arith)
      (λ i lt.
        let back : 16 + i - 16 ≡ i = omega arith in ground (arith, same i lt, ap s back, ap t back))

namecmp-entry_name :
    (f : ℕ → ℕ) (at : ℕ) (name : Memory)
    → namecmp name (entry_name (bytes_from f at dirent_size)) ≡ namecmp name (λ i. f (at + (2 + i)))
namecmp-entry_name f at name =
    namecmp-ext name (entry_name (bytes_from f at dirent_size)) (λ i. f (at + (2 + i)))
      (λ i lt. get_or-bytes_from f at dirent_size (2 + i) (omega arith))

pub entry_inum-bytes_from :
    (f : ℕ → ℕ) (at : ℕ) → entry_inum (bytes_from f at dirent_size) ≡ f at + f (at + 1) * 256
unfolding bytes_from
entry_inum-bytes_from f at = refl

-- What `lookup_from` answers for an index found.
abbrev found : Disk → Inode → Option ℕ → Option (ℕ × ℕ)
found d dp none = none
found d dp (some k) = some (16 * k, inum_at d dp k)

module _ (devsw : ℕ → Option (Disk → Inode → ℕ → Reading)) (d : Disk) (dp : Inode)
    (v : IsMapped d dp dp.size) (dir : dp.type ≡ t_dir) (name : Memory) where
  pub read_entry :
      (k : ℕ)
      → 16 * k + 16 ≤ dp.size
      → readi devsw d dp (16 * k) dirent_size
        ≡ some (some (bytes_from (content d dp) (16 * k) dirent_size), d, dp)
  read_entry k lt =
      let file : dp.type ≢ t_dev = ground arith in
      let inside : (ltb dp.size (16 * k) || ltb 0xffff_ffff (16 * k + dirent_size)) ≡ false =
        ground (arith, v.in_range) in
      let all : min dirent_size (dp.size - 16 * k) ≡ dirent_size = omega arith in
      readi_lem devsw d dp (16 * k) dirent_size v file (omega (arith, v.in_range)) (omega arith)
      ∙ rw (inside, all) refl

  which :
      (others : Option ℕ) (k : ℕ) (free same : Bool)
      → let all : Found = some (found d dp others, d, dp) in
        let here : Found = some (some (16 * k, inum_at d dp k), d, dp) in
        (if free then all else if same then here else all)
        ≡ some (found d dp (if not free && same then some k else others), d, dp)
  which others k true same = refl
  which others k false true = refl
  which others k false false = refl

  lookup_from_lem :
      (fuel n k : ℕ)
      → n ≤ fuel
      → dp.size ≡ 16 * (k + n)
      → lookup_from devsw fuel d dp name (16 * k)
        ≡ some (found d dp (first_from (is_match d dp name) n k), d, dp)
  unfolding lookup_from first_from
  lookup_from_lem zero zero k le size =
      let end : ltb (16 * k) dp.size ≡ false = ground arith in rw end refl
  lookup_from_lem (suc fuel) zero k le size =
      let end : ltb (16 * k) dp.size ≡ false = ground arith in rw end refl
  lookup_from_lem zero (suc n) k le size = absurd (omega arith)
  lookup_from_lem (suc fuel) (suc n) k le size =
      let more : ltb (16 * k) dp.size ≡ true = ground arith in
      let next : 16 * k + dirent_size ≡ 16 * (k + 1) = omega arith in
      let rest = lookup_from_lem fuel n (k + 1) (omega arith) (omega arith) in
      rw (more, read_entry k (omega arith))
        (rw
          (
            length-bytes_from (content d dp) (16 * k) dirent_size,
            entry_inum-bytes_from (content d dp) (16 * k),
            namecmp-entry_name (content d dp) (16 * k) name,
            next,
            rest,
          )
          (which (first_from (is_match d dp name) n (k + 1)) k (inum_at d dp k == 0)
            (namecmp name (name_at d dp k) == 0)))

-- `dirlookup` in a directory of whole entries, each with its block: it ends without a panic of its
-- own. With no entry in use that has the name it finds none and changes nothing. Otherwise it takes the
-- first one that has it, and answers its offset and what `iget` answers for the inode it names.
pub dirlookup_lem :
    (devsw : ℕ → Option (Disk → Inode → ℕ → Reading)) (d : Disk) (c : Icache) (i n : ℕ)
    (name : Memory)
    → IsMapped d (c i) (c i).size
    → (c i).type ≡ t_dir
    → (c i).size ≡ 16 * n
    → ((first (is_match d (c i) name) n ≡ none) × (dirlookup devsw d c i name ≡ some (none, d, c)))
      ⊎ ((k : ℕ) × (first (is_match d (c i) name) n ≡ some k)
          × (dirlookup devsw d c i name ≡ (
              iget c (c i).dev (inum_at d (c i) k) >>= λ (j, c'). some (some (16 * k, j), d, c'))))
unfolding dirlookup first
dirlookup_lem devsw d c i n name v dir size =
    let scan =
      lookup_from_lem devsw d (c i) v dir name (c i).size n 0 (omega arith) (omega arith) in
    let same : update c i (c i) ≡ c = fun_ext (λ j. ground arith) in
    let dir? : (c i).type == t_dir ≡ true = ground arith in
    elim (Option-cases (first (is_match d (c i) name) n)) [
      | inl miss ↦
          inl (miss, rw (dir?, scan) (rw miss (ap (λ (t : Icache). some (none, d, t)) same)))
      | inr (k, hit) ↦ inr (
        k,
        hit,
        rw (dir?, scan)
            (rw hit (
              ap
                (λ (t : Icache).
                  ◌>>=◌ {B = Option (ℕ × ℕ) × Disk × Icache} (iget t (c i).dev (inum_at d (c i) k))
                    (λ (j, c'). some (some (16 * k, j), d, c')))
                same)),
      )
    ]
