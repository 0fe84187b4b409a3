-- ===== src/Log/Crash.antt =====
-- The disk after each part of a commit, with the power failing at any write.
use mutex.Common.{
  ℕ, zero, suc, ◌+◌, ◌≤◌, ◌<◌, ◌≡◌, ◌≢◌, ◌⊎◌, sym, ◌∙◌, ap, inl, inr, none, arith, ℕ_discrete,
}
use mutex.Log.Defs.{
  Block, Store, Log, bread, log_block, write_log, install_trans, head_block, write_head,
}
use mutex.Log.Copy.{
  power-bwrite, disk-bwrite_self, disk-bwrite_crashed, bwrite_ne, IsApart, power-copy_blocks,
  copy_blocks_crashed, copy_blocks_ne, copy_blocks_all,
}
use mutex.Log.Recover.{IsHome, IsReady, bread-clean, disk-write_head}

-- Whether a block is one of the transaction.
sector-among :
    (sector : ℕ → ℕ) (s n : ℕ)
    → ((i : ℕ) × (i < n) × (s ≡ sector i)) ⊎ ((i : ℕ) → i < n → s ≢ sector i)
sector-among sector s zero = inr (λ i lt. absurd (omega arith))
sector-among sector s (suc n) = elim (ℕ_discrete s (sector n)) [
  | yes here ↦ inl (n, omega arith, here)
  | no not_here ↦ elim (sector-among sector s n) [
    | inl (i, lt, e) ↦ inl (i, omega arith, e)
    | inr nowhere ↦ inr (λ i lt e. elim (ℕ_discrete i n) [
      | yes last ↦ not_here (e ∙ ap sector last)
      | no earlier ↦ nowhere i (omega arith) e
    ])
  ]
]

pub find-sector :
    (lg : Log) (s : ℕ)
    → ((i : ℕ) × (i < lg.n) × (s ≡ lg.sector i)) ⊎ ((i : ℕ) → i < lg.n → s ≢ lg.sector i)
find-sector lg s = sector-among lg.sector s lg.n

module _ (lg : Log) (st : Store) (v : IsReady lg st) where
  -- The store after each part of `commit`.
  abbrev pub logged : Store
  logged = write_log lg st

  abbrev pub marked : Store
  marked = write_head lg logged

  abbrev pub installed : Store
  installed = install_trans lg marked

  abbrev pub erased : Store
  erased = write_head (record lg { n = 0 }) installed

  pub home-ne_block : (s i : ℕ) → IsHome lg s → i < lg.n → s ≢ log_block lg i
  home-ne_block s i h lt e = ground (arith, v.room)

  pub home-ne_start : (s : ℕ) → IsHome lg s → s ≢ lg.start
  home-ne_start s h e = ground (arith, v.room)

  to_log : IsApart (log_block lg) lg.sector 0 lg.n
  to_log = record {
    targets = λ i j a b c d e. omega arith;
    sources = λ i j a b c d e. home-ne_block (lg.sector j) i (v.home j d) b (sym e);
  }

  pub to_home : IsApart lg.sector (log_block lg) 0 lg.n
  to_home = record {
    targets = λ i j a b c d e. v.distinct i j b d e;
    sources = λ i j a b c d e. home-ne_block (lg.sector i) j (v.home i b) d e;
  }

  -- Writing the log leaves the home blocks and the header.
  pub logged-ne :
      (s : ℕ)
      → ((i : ℕ) → i < lg.n → s ≢ log_block lg i)
      → (logged.disk s ≡ st.disk s) × (logged.dirty s ≡ st.dirty s)
  unfolding write_log
  logged-ne s h =
      copy_blocks_ne (log_block lg) lg.sector lg.n 0 lg.n st s (omega arith) (λ i a b. h i b)

  pub logged-start : (logged.disk lg.start ≡ st.disk lg.start) × (logged.dirty lg.start ≡ none)
  logged-start =
      let (a, b) = logged-ne lg.start (λ i lt e. absurd (omega arith)) in
      (a, b ∙ v.clean lg.start (λ i lt e. home-ne_start (lg.sector i) (v.home i lt) (sym e)))

  -- A crash before the header is written.
  pub crashed_early : st.power ≤ lg.n → erased.disk ≡ logged.disk
  unfolding write_head install_trans write_log
  crashed_early p =
      disk-bwrite_crashed installed lg.start _
        (omega (arith, out, power-copy_blocks lg.sector (log_block lg) lg.n 0 marked))
      ∙ copy_blocks_crashed lg.sector (log_block lg) lg.n 0 marked out
      ∙ disk-bwrite_crashed logged lg.start _
          (omega (arith, power-copy_blocks (log_block lg) lg.sector lg.n 0 st))
    where
      out : marked.power ≡ 0
      out = omega (
        arith,
        power-copy_blocks (log_block lg) lg.sector lg.n 0 st,
        power-bwrite logged lg.start (head_block lg (bread logged lg.start)),
      )

  -- From here on the power lasts for the log blocks and the header.
  module _ (lasts : lg.n < st.power) where
    logged-blocks :
        (i : ℕ)
        → i < lg.n
        → (logged.disk (log_block lg i) ≡ bread st (lg.sector i))
          × (logged.dirty (log_block lg i) ≡ none)
    unfolding write_log
    logged-blocks i lt =
        copy_blocks_all (log_block lg) lg.sector lg.n 0 lg.n st (omega arith) to_log (omega arith) i
          (omega arith) lt

    marked-head : marked.disk lg.start ≡ head_block lg (bread logged lg.start)
    unfolding write_head write_log
    marked-head =
        disk-bwrite_self logged lg.start (head_block lg (bread logged lg.start))
          (omega (arith, power-copy_blocks (log_block lg) lg.sector lg.n 0 st))

    marked-ne :
        (s : ℕ) → s ≢ lg.start → (marked.disk s ≡ logged.disk s) × (marked.dirty s ≡ logged.dirty s)
    unfolding write_head
    marked-ne s ne = bwrite_ne logged lg.start (head_block lg (bread logged lg.start)) s ne

    marked-blocks : (i : ℕ) → i < lg.n → bread marked (log_block lg i) ≡ bread st (lg.sector i)
    marked-blocks i lt =
        let (a, b) = logged-blocks i lt in
        let (c, e) = marked-ne (log_block lg i) (λ q. absurd (omega arith)) in
        bread-clean marked (log_block lg i) (e ∙ b) ∙ c ∙ a

    -- What is installed is not the header and no log block.
    installed-ne :
        (s : ℕ) → ((i : ℕ) → i < lg.n → s ≢ lg.sector i) → installed.disk s ≡ marked.disk s
    unfolding install_trans
    installed-ne s h =
        (copy_blocks_ne lg.sector (log_block lg) lg.n 0 lg.n marked s (omega arith)
          (λ i a b. h i b)).0

    pub installed-start : installed.disk lg.start ≡ head_block lg (bread logged lg.start)
    installed-start =
        installed-ne lg.start (λ i lt e. home-ne_start (lg.sector i) (v.home i lt) (sym e))
        ∙ marked-head

    pub installed-block :
        (i : ℕ) → i < lg.n → installed.disk (log_block lg i) ≡ bread st (lg.sector i)
    installed-block i lt =
        let (a, b) = logged-blocks i lt in
        installed-ne (log_block lg i)
          (λ j l e. home-ne_block (lg.sector j) i (v.home j l) lt (sym e))
        ∙ (marked-ne (log_block lg i) (λ q. absurd (omega arith))).0
        ∙ a

    -- A home block outside of the transaction.
    pub installed-other :
        (s : ℕ)
        → IsHome lg s
        → ((i : ℕ) → i < lg.n → s ≢ lg.sector i)
        → installed.disk s ≡ bread st s
    installed-other s home other =
        installed-ne s other
        ∙ (marked-ne s (home-ne_start s home)).0
        ∙ (logged-ne s (λ i lt. home-ne_block s i home lt)).0
        ∙ sym (bread-clean st s (v.clean s other))

    -- A crash before the header is erased.
    pub crashed_late : st.power ≤ lg.n + lg.n + 1 → erased.disk ≡ installed.disk
    unfolding write_head install_trans write_log
    crashed_late p = disk-bwrite_crashed installed lg.start _ (
        omega (
          arith,
          power-copy_blocks lg.sector (log_block lg) lg.n 0 marked,
          power-copy_blocks (log_block lg) lg.sector lg.n 0 st,
          power-bwrite logged lg.start (head_block lg (bread logged lg.start)),
        ))

    -- No crash at all.
    module _ (all : lg.n + lg.n + 1 < st.power) where
      installed-named : (i : ℕ) → i < lg.n → installed.disk (lg.sector i) ≡ bread st (lg.sector i)
      unfolding install_trans write_head write_log
      installed-named i lt =
          (copy_blocks_all lg.sector (log_block lg) lg.n 0 lg.n marked (omega arith) to_home
            (omega (
              arith,
              power-copy_blocks (log_block lg) lg.sector lg.n 0 st,
              power-bwrite logged lg.start (head_block lg (bread logged lg.start)),
            ))
            i (omega arith) lt).0
          ∙ marked-blocks i lt

      pub erased-start : erased.disk lg.start 0 ≡ 0
      unfolding write_head install_trans write_log
      erased-start =
          ap (λ (b : Block). b 0)
            (disk-bwrite_self installed lg.start _ (
              omega (
                arith,
                power-copy_blocks lg.sector (log_block lg) lg.n 0 marked,
                power-copy_blocks (log_block lg) lg.sector lg.n 0 st,
                power-bwrite logged lg.start (head_block lg (bread logged lg.start)),
              )))

      -- Every home block holds what the cache held.
      pub erased-home : (s : ℕ) → IsHome lg s → erased.disk s ≡ bread st s
      erased-home s home =
          disk-write_head (record lg { n = 0 }) installed s (home-ne_start s home)
          ∙ elim (find-sector lg s) [
            | inl (i, lt, e) ↦ rw e (installed-named i lt)
            | inr other ↦ installed-other s home other
          ]
