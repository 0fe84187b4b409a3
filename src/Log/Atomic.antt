-- ===== src/Log/Atomic.antt =====
-- A commit is atomic: a crash at any of its writes, and recovery, leave all of it or nothing.
use mutex.Common.{
  ℕ, ◌+◌, ◌-◌, ◌≤◌, ◌<◌, ◌≡◌, ◌⊎◌, refl, sym, ◌∙◌, ap, inl, inr, ◌==◌, arith, Bool-cases, dec_lt,
}
use mutex.Log.Defs.{Block, Store, Log, bread, log_block, head_block, recover_from_log, commit}
use mutex.Log.Copy.{IsApart}
use mutex.Log.Recover.{IsHome, IsReady, rebooted, bread-clean, recovered-named, recovered-other}
use mutex.Log.Crash.{
  find-sector, logged, installed, erased, home-ne_start, home-ne_block, to_home, logged-ne,
  logged-start, crashed_early, crashed_late, installed-start, installed-block, installed-other,
  erased-start, erased-home,
}

-- Every block outside of the log is as the disk had it before the commit, or every one is as the
-- cache had it.
abbrev pub AllOrNothing : Log → Store → (ℕ → Block) → Type 0
AllOrNothing lg st d =
    ((s : ℕ) → IsHome lg s → d s ≡ st.disk s) ⊎ ((s : ℕ) → IsHome lg s → d s ≡ bread st s)

module _ (lg : Log) (st : Store) (v : IsReady lg st) (old : Log) (same : old.start ≡ lg.start)
    (q : ℕ) (enough : lg.n < q) where
  abbrev after : (ℕ → Block) → ℕ → Block
  after d = (recover_from_log old (rebooted d q)).1.disk

  -- Recovery from a disk whose header is empty changes no home block.
  after-empty : (d : ℕ → Block) → d lg.start 0 ≡ 0 → (s : ℕ) → IsHome lg s → after d s ≡ d s
  after-empty d e s home =
      recovered-other old d q 0 lg.sector (ap (λ t. d t 0) same ∙ e) (λ i lt. absurd (omega arith))
        (record {
          targets = λ i j a b. absurd (omega arith);
          sources = λ i j a b. absurd (omega arith);
        })
        (omega arith) s (λ h. home-ne_start lg st v s home (h ∙ same))
        (λ i lt. absurd (omega arith))

  after-early : st.power ≤ lg.n → (s : ℕ) → IsHome lg s → after (erased lg st v).disk s ≡ st.disk s
  after-early p s home = rw (crashed_early lg st v p) (
      after-empty (logged lg st v).disk (ap (λ (b : Block). b 0) (logged-start lg st v).0 ∙ v.empty)
        s home
      ∙ (logged-ne lg st v s (λ i lt. home-ne_block lg st v s i home lt)).0)

  to_home' : IsApart lg.sector (log_block old) 0 lg.n
  to_home' = record {
    targets = (to_home lg st v).targets;
    sources = λ i j a b c d e. (to_home lg st v).sources i j a b c d (e ∙ ap (λ t. t + j + 1) same);
  }

  after-late :
      lg.n < st.power
      → st.power ≤ lg.n + lg.n + 1
      → (s : ℕ) → IsHome lg s
      → after (erased lg st v).disk s ≡ bread st s
  after-late lasts p s home = rw (crashed_late lg st v lasts p) (elim (find-sector lg s) [
    | inl (i, lt, e) ↦ rw e (
        recovered-named old d q lg.n lg.sector count named to_home' (omega arith)
          (λ j. bread st (lg.sector j))
          (λ j l. ap (λ t. d (t + j + 1)) same ∙ installed-block lg st v lasts j l)
          (λ j l h. home-ne_start lg st v (lg.sector j) (v.home j l) (h ∙ same)) i lt)
    | inr other ↦
        recovered-other old d q lg.n lg.sector count named to_home' (omega arith) s
          (λ h. home-ne_start lg st v s home (h ∙ same)) other
        ∙ installed-other lg st v lasts s home other
  ])
    where
      d : ℕ → Block
      d = (installed lg st v).disk

      head : d old.start ≡ head_block lg (bread (logged lg st v) lg.start)
      head = ap d same ∙ installed-start lg st v lasts

      word :
          (i : ℕ) → i < lg.n → head_block lg (bread (logged lg st v) lg.start) (i + 1) ≡ lg.sector i
      word i lt = let back : i + 1 - 1 ≡ i = omega arith in ground (arith, ap lg.sector back)

      count : d old.start 0 ≡ lg.n
      count = ap (λ (b : Block). b 0) head

      named : (i : ℕ) → i < lg.n → d old.start (i + 1) ≡ lg.sector i
      named i lt = ap (λ (b : Block). b (i + 1)) head ∙ word i lt

  after-done :
      lg.n + lg.n + 1 < st.power
      → (s : ℕ) → IsHome lg s
      → after (erased lg st v).disk s ≡ bread st s
  after-done p s home =
      after-empty (erased lg st v).disk (erased-start lg st v (omega arith) p) s home
      ∙ erased-home lg st v (omega arith) p s home

-- Take a log that is ready to be committed, on a machine whose power fails after any number of
-- block writes, and start the machine again with power for more writes than the transaction has
-- blocks. When the log is recovered, by a kernel whose log starts at the same block, the
-- blocks outside of the log are all as they were on the disk before the commit, or all as they were
-- in the buffer cache.
pub commit-recover :
    (lg : Log) (st : Store) (old : Log) (q : ℕ)
    → IsReady lg st
    → old.start ≡ lg.start
    → lg.n < q
    → AllOrNothing lg st (recover_from_log old (rebooted (commit lg st).1.disk q)).1.disk
unfolding commit
commit-recover lg st old q v same enough = elim (Bool-cases (lg.n == 0)) [
  | inl nothing ↦ rw (nothing, commit) (inl (after-empty lg st v old same q enough st.disk v.empty))
  | inr some_blocks ↦
      rw (some_blocks, commit)
        (elim (dec_lt lg.n st.power) [
          | no early ↦ inl (after-early lg st v old same q enough (omega arith))
          | yes lasts ↦ elim (dec_lt (lg.n + lg.n + 1) st.power) [
            | no late ↦ inr (after-late lg st v old same q enough lasts (omega arith))
            | yes all ↦ inr (after-done lg st v old same q enough all)
          ]
        ])
]

-- With power for `2 n + 2` writes a commit of `n` blocks ends: the log is empty in memory and on
-- the disk, and every block outside of it is on the disk as it was in the cache.
commit_lem :
    (lg : Log) (st : Store)
    → IsReady lg st
    → lg.n + lg.n + 1 < st.power
    → ((commit lg st).0.n ≡ 0)
      × ((commit lg st).1.disk lg.start 0 ≡ 0)
      × ((s : ℕ) → IsHome lg s → (commit lg st).1.disk s ≡ bread st s)
unfolding commit
commit_lem lg st v p = elim (Bool-cases (lg.n == 0)) [
  | inl nothing ↦
      rw (nothing, commit)
        (
          ground arith,
          v.empty,
          λ s home. sym (bread-clean st s (v.clean s (λ i lt e. absurd (ground arith)))),
        )
  | inr some_blocks ↦
      rw (some_blocks, commit)
        (refl, erased-start lg st v (omega arith) p, erased-home lg st v (omega arith) p)
]
