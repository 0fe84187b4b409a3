-- ===== src/Log/Recover.antt =====
-- What recovery makes of the disk that a crash has left.
use mutex.Common.{ℕ, ◌+◌, ◌≤◌, ◌<◌, ◌≡◌, ◌≢◌, ◌⊎◌, refl, sym, ◌∙◌, ap, none, arith}
use mutex.Log.Defs.{
  Block, Store, Log, bread, log_block, install_trans, head_block, write_head, read_head,
  recover_from_log,
}
use mutex.Log.Copy.{bwrite_ne, IsApart, copy_blocks_ne, copy_blocks_all}

-- Outside of the log's blocks.
abbrev pub IsHome : Log → ℕ → Type 0
IsHome lg s = (s < lg.start) ⊎ (lg.start + lg.size ≤ s)

-- A transaction that is ready to be committed, while no other is on the disk.
pub record IsReady (lg : Log) (st : Store) : Type 0 where
  pub room : lg.n < lg.size
  pub distinct : (i j : ℕ) → i < lg.n → j < lg.n → lg.sector i ≡ lg.sector j → i ≡ j
  pub home : (i : ℕ) → i < lg.n → IsHome lg (lg.sector i)
  pub clean : (s : ℕ) → ((i : ℕ) → i < lg.n → s ≢ lg.sector i) → st.dirty s ≡ none
  pub empty : st.disk lg.start 0 ≡ 0

-- What is on the disk after a crash, when the machine starts again with power for `q` writes.
abbrev pub rebooted : (ℕ → Block) → ℕ → Store
rebooted d q = record { disk = d; dirty = λ _. none; power = q }

pub bread-clean : (st : Store) (s : ℕ) → st.dirty s ≡ none → bread st s ≡ st.disk s
unfolding bread
bread-clean st s e = rw (e, bread)

pub disk-write_head :
    (lg : Log) (st : Store) (s : ℕ) → s ≢ lg.start → (write_head lg st).disk s ≡ st.disk s
unfolding write_head
disk-write_head lg st s ne = (bwrite_ne st lg.start (head_block lg (bread st lg.start)) s ne).0

module _ (lg : Log) (d : ℕ → Block) (q : ℕ) where
  abbrev pub recovered : Store
  recovered = (recover_from_log lg (rebooted d q)).1

  abbrev header : Log
  header = read_head lg (rebooted d q)

  header-sector : (i : ℕ) → i < d lg.start 0 → header.sector i ≡ d lg.start (i + 1)
  unfolding read_head bread
  header-sector i lt = ground arith

  header-n : (header.n ≡ d lg.start 0) × (header.start ≡ lg.start)
  unfolding read_head bread
  header-n = (refl, refl)

  disk-recovered :
      (s : ℕ) → s ≢ lg.start → recovered.disk s ≡ (install_trans header (rebooted d q)).disk s
  unfolding recover_from_log
  disk-recovered s ne =
      disk-write_head (record header { n = 0 }) (install_trans header (rebooted d q)) s
        (λ e. ne (e ∙ header-n.1))

  -- Recovery installs the blocks that the header on the disk names, and touches no others but the
  -- header.
  module _ (n : ℕ) (sector : ℕ → ℕ) (count : d lg.start 0 ≡ n)
      (named : (i : ℕ) → i < n → d lg.start (i + 1) ≡ sector i)
      (apart : IsApart sector (log_block lg) 0 n) (p : n ≤ q) where
    header-named : (i : ℕ) → i < header.n → header.sector i ≡ sector i
    header-named i lt =
        header-sector i (omega (arith, header-n.0)) ∙ named i (omega (arith, header-n.0, count))

    header-IsApart : IsApart header.sector (log_block header) 0 header.n
    header-IsApart = record {
      targets = λ i j a b c e h.
          apart.targets i j a (omega (arith, header-n.0, count)) c
            (omega (arith, header-n.0, count)) (sym (header-named i b) ∙ h ∙ header-named j e);
      sources = λ i j a b c e h.
          apart.sources i j a (omega (arith, header-n.0, count)) c
            (omega (arith, header-n.0, count))
            (sym (header-named i b) ∙ h ∙ ap (λ t. t + j + 1) header-n.1);
    }

    pub recovered-named :
        (new : ℕ → Block)
        → ((i : ℕ) → i < n → d (log_block lg i) ≡ new i)
        → ((i : ℕ) → i < n → sector i ≢ lg.start)
        → (i : ℕ) → i < n
        → recovered.disk (sector i) ≡ new i
    unfolding install_trans bread
    recovered-named new same home i lt =
        let lt' : i < header.n = omega (arith, header-n.0, count) in
        disk-recovered (sector i) (home i lt)
        ∙ ap (install_trans header (rebooted d q)).disk (sym (header-named i lt'))
        ∙ (copy_blocks_all header.sector (log_block header) header.n 0 header.n (rebooted d q)
            (omega arith) header-IsApart (omega (arith, header-n.0, count)) i (omega arith) lt').0
        ∙ ap (λ t. d (t + i + 1)) header-n.1
        ∙ same i lt

    pub recovered-other :
        (s : ℕ) → s ≢ lg.start → ((i : ℕ) → i < n → s ≢ sector i) → recovered.disk s ≡ d s
    unfolding install_trans
    recovered-other s ne other =
        disk-recovered s ne
        ∙ (copy_blocks_ne header.sector (log_block header) header.n 0 header.n (rebooted d q) s
            (omega arith)
            (λ i a b e. other i (omega (arith, header-n.0, count)) (e ∙ header-named i b))).0
