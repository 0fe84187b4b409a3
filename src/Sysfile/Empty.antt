-- ===== src/Sysfile/Empty.antt =====
-- isdirempty of sysfile.c on the entries of a directory.
use mutex.Common.{
  ℕ, zero, suc, ◌+◌, ◌*◌, ◌≤◌, ◌<◌, ◌≡◌, ◌↔◌, inl, inr, refl, Bool, true, false, not, Option, some,
  ltb, ◌==◌, if◌then◌else◌, arith, Bool-cases,
}
use mutex.Fs.Disk.{Disk}
use mutex.Fs.Inode.{Inode}
use mutex.Fs.Content.{Reading}
use mutex.Fs.Content.Reads.{content, IsMapped}
use mutex.Fs.Dir.{t_dir, dirent_size}
use mutex.Fs.Dir.Lookup.{read_entry, length-bytes_from, entry_inum-bytes_from, inum_at}
use mutex.Sysfile.Paths.{unused_from, isdirempty}

module _ (devsw : ℕ → Option (Disk → Inode → ℕ → Reading)) (d : Disk) (dp : Inode)
    (v : IsMapped d dp dp.size) (dir : dp.type ≡ t_dir) where
  -- No entry from `k` on, of `n`, is in use.
  abbrev all_unused : ℕ → ℕ → Bool
  all_unused zero k = true
  all_unused (suc n) k =
      let rest = all_unused n (k + 1) in if not (inum_at d dp k == 0) then false else rest

  all_unused_lem :
      (n k : ℕ) → (all_unused n k ≡ true) ↔ ((j : ℕ) → k ≤ j → j < k + n → inum_at d dp j ≡ 0)
  all_unused_lem zero k = (λ e j a b. absurd (omega arith), λ h. refl)
  all_unused_lem (suc n) k = elim (Bool-cases (inum_at d dp k == 0)) [
    | inl free ↦ rw free (
      (λ e j a b. elim (Bool-cases (k == j)) [
        | inl here ↦
            let same : k ≡ j = ground arith in
            let zero_here : inum_at d dp k ≡ 0 = ground arith in rw (← same) zero_here
        | inr later ↦ (all_unused_lem n (k + 1)).0 e j (ground arith) (omega arith)
      ]),
      (λ h. (all_unused_lem n (k + 1)).1 (λ j a b. h j (omega arith) (omega arith))),
    )
    | inr used ↦ rw used (
      (λ e j a b. absurd (ground arith)),
      (λ h. let zero_here = h k (omega arith) (omega arith) in absurd (ground arith)),
    )
  ]

  which :
      (others free : Bool)
      → let used : Option (Bool × Disk × Inode) = some (false, d, dp) in
        let rest : Option (Bool × Disk × Inode) = some (others, d, dp) in
        (if not free then used else rest) ≡ some ((if not free then false else others), d, dp)
  which others true = refl
  which others false = refl

  unused_from_lem :
      (fuel n k : ℕ)
      → n ≤ fuel
      → dp.size ≡ 16 * (k + n)
      → unused_from devsw fuel d dp (16 * k) ≡ some (all_unused n k, d, dp)
  unfolding unused_from
  unused_from_lem zero zero k le size =
      let end : ltb (16 * k) dp.size ≡ false = ground arith in rw end refl
  unused_from_lem (suc fuel) zero k le size =
      let end : ltb (16 * k) dp.size ≡ false = ground arith in rw end refl
  unused_from_lem zero (suc n) k le size = absurd (omega arith)
  unused_from_lem (suc fuel) (suc n) k le size =
      let more : ltb (16 * k) dp.size ≡ true = ground arith in
      let next : 16 * k + dirent_size ≡ 16 * (k + 1) = omega arith in
      let rest = unused_from_lem fuel n (k + 1) (omega arith) (omega arith) in
      rw (more, read_entry devsw d dp v dir (λ i. 0) k (omega arith))
        (rw
          (
            length-bytes_from (content d dp) (16 * k) dirent_size,
            entry_inum-bytes_from (content d dp) (16 * k),
            next,
            rest,
          )
          (which (all_unused n (k + 1)) (inum_at d dp k == 0)))

  -- `isdirempty` of a directory of whole entries, two of them or more, each with its block: it ends
  -- without a panic, changes nothing, and says that the directory is empty exactly if no entry behind
  -- the first two is in use.
  pub isdirempty_lem :
      (n : ℕ)
      → dp.size ≡ 16 * (2 + n)
      → (b : Bool) × (isdirempty devsw d dp ≡ some (b, d, dp))
        × ((b ≡ true) ↔ ((j : ℕ) → 2 ≤ j → j < 2 + n → inum_at d dp j ≡ 0))
  unfolding isdirempty
  isdirempty_lem n size =
      (all_unused n 2, unused_from_lem dp.size n 2 (omega arith) size, all_unused_lem n 2)
