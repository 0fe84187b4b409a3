-- ===== src/Log/Copy.antt =====
-- The copying loop of the log, with the power failing at any write.
use mutex.Common.{
  ℕ, zero, suc, ◌+◌, ◌-◌, ◌≤◌, ◌<◌, ◌≡◌, ◌≢◌, refl, sym, ◌∙◌, none, arith, ℕ_discrete,
}
use mutex.Log.Defs.{Block, Store, bread, bwrite, copy_blocks}

module _ (st : Store) (s : ℕ) (b : Block) where
  pub power-bwrite : (bwrite st s b).power ≡ st.power - 1
  unfolding bwrite
  power-bwrite = refl

  pub disk-bwrite_self : 0 < st.power → (bwrite st s b).disk s ≡ b
  unfolding bwrite
  disk-bwrite_self h = ground arith

  pub disk-bwrite_crashed : st.power ≡ 0 → (bwrite st s b).disk ≡ st.disk
  unfolding bwrite
  disk-bwrite_crashed h = ground arith

  pub bwrite_ne :
      (t : ℕ)
      → t ≢ s
      → ((bwrite st s b).disk t ≡ st.disk t) × ((bwrite st s b).dirty t ≡ st.dirty t)
  unfolding bwrite
  bwrite_ne t h = (ground arith, ground arith)

  pub dirty-bwrite_self : (bwrite st s b).dirty s ≡ none
  unfolding bwrite
  dirty-bwrite_self = ground arith

  pub bread-bwrite_ne : (t : ℕ) → t ≢ s → bread (bwrite st s b) t ≡ bread st t
  unfolding bread bwrite
  bread-bwrite_ne t h = ground arith

-- Within the rounds the targets differ from one another, and from every source.
pub record IsApart (dst src : ℕ → ℕ) (tail end : ℕ) : Type 0 where
  pub targets : (i j : ℕ) → tail ≤ i → i < end → tail ≤ j → j < end → dst i ≡ dst j → i ≡ j
  pub sources : (i j : ℕ) → tail ≤ i → i < end → tail ≤ j → j < end → dst i ≢ src j

module _ (dst src : ℕ → ℕ) where
  pub power-copy_blocks :
      (n tail : ℕ) (st : Store) → (copy_blocks dst src n tail st).power ≡ st.power - n
  unfolding copy_blocks
  power-copy_blocks zero tail st = omega arith
  power-copy_blocks (suc n) tail st = omega (
    arith,
    power-copy_blocks n (tail + 1) (bwrite st (dst tail) (bread st (src tail))),
    power-bwrite st (dst tail) (bread st (src tail)),
  )

  -- After a crash nothing reaches the disk.
  pub copy_blocks_crashed :
      (n tail : ℕ) (st : Store) → st.power ≡ 0 → (copy_blocks dst src n tail st).disk ≡ st.disk
  unfolding copy_blocks
  copy_blocks_crashed zero tail st h = refl
  copy_blocks_crashed (suc n) tail st h =
      copy_blocks_crashed n (tail + 1) (bwrite st (dst tail) (bread st (src tail)))
        (omega (arith, power-bwrite st (dst tail) (bread st (src tail))))
      ∙ disk-bwrite_crashed st (dst tail) (bread st (src tail)) h

  -- A block that is no target is left as it was.
  pub copy_blocks_ne :
      (n tail end : ℕ) (st : Store) (t : ℕ)
      → tail + n ≡ end
      → ((i : ℕ) → tail ≤ i → i < end → t ≢ dst i)
      → ((copy_blocks dst src n tail st).disk t ≡ st.disk t)
        × ((copy_blocks dst src n tail st).dirty t ≡ st.dirty t)
  unfolding copy_blocks
  copy_blocks_ne zero tail end st t e h = (refl, refl)
  copy_blocks_ne (suc n) tail end st t e h =
      let st' = bwrite st (dst tail) (bread st (src tail)) in
      let (a, b) =
        copy_blocks_ne n (tail + 1) end st' t (omega arith) (λ i l r. h i (omega arith) r) in
      let (c, d) =
        bwrite_ne st (dst tail) (bread st (src tail)) t (h tail (omega arith) (omega arith)) in
      (a ∙ c, b ∙ d)

  -- With enough power every target gets its source's data, and is clean.
  pub copy_blocks_all :
      (n tail end : ℕ) (st : Store)
      → tail + n ≡ end
      → IsApart dst src tail end
      → n ≤ st.power
      → (i : ℕ) → tail ≤ i
      → i < end
      → ((copy_blocks dst src n tail st).disk (dst i) ≡ bread st (src i))
        × ((copy_blocks dst src n tail st).dirty (dst i) ≡ none)
  unfolding copy_blocks
  copy_blocks_all zero tail end st e apart p i l r = absurd (omega arith)
  copy_blocks_all (suc n) tail end st e apart p i l r = elim (ℕ_discrete tail i) [
    | yes same ↦
        let (a, b) =
          copy_blocks_ne n (tail + 1) end st' (dst i) (omega arith)
            (λ j l' r' q. absurd (omega (arith, apart.targets i j l r (omega arith) r' q))) in
        (
          a ∙ rw (← same) (disk-bwrite_self st (dst tail) (bread st (src tail)) (omega arith)),
          b ∙ rw (← same) (dirty-bwrite_self st (dst tail) (bread st (src tail))),
        )
    | no other ↦
        let (a, b) =
          copy_blocks_all n (tail + 1) end st' (omega arith) later
            (omega (arith, power-bwrite st (dst tail) (bread st (src tail)))) i (omega arith) r in
        (
          a
              ∙ bread-bwrite_ne st (dst tail) (bread st (src tail)) (src i)
                  (λ q. apart.sources tail i (omega arith) (omega arith) l r (sym q)),
          b,
        )
  ]
    where
      st' : Store
      st' = bwrite st (dst tail) (bread st (src tail))

      later : IsApart dst src (tail + 1) end
      later = record {
        targets = λ i j a b c d. apart.targets i j (omega arith) b (omega arith) d;
        sources = λ i j a b c d. apart.sources i j (omega arith) b (omega arith) d;
      }
