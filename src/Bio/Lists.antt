-- ===== src/Bio/Lists.antt =====
-- Searches of the list of buffers.
use mutex.Common.{
  ℕ, zero, suc, ◌+◌, ◌≡◌, inl, inr, sym, ◌∙◌, ap, Bool, true, false, ◌&&◌, ◌||◌, none, some, List,
  [], ◌∷◌, ◌==◌, arith, Bool-cases, Option-cases, ltb, leb,
}
use mutex.Bio.{first_in, last_in, link_from}

abbrev pub is_in : ℕ → List ℕ → Bool
is_in i [] = false
is_in i (j ∷ js) = i == j || is_in i js

module _ (test : ℕ → Bool) where
  pub first_in-some :
      (is : List ℕ) (k : ℕ) → first_in test is ≡ some k → (test k ≡ true) × (is_in k is ≡ true)
  unfolding first_in
  first_in-some [] k e = absurd (ground (arith, e))
  first_in-some (i ∷ is) k e = elim (Bool-cases (test i)) [
    | inl hit ↦ let same : i ≡ k = ground (arith, e) in (ap test (sym same) ∙ hit, ground arith)
    | inr miss ↦
        let (passes, within) = first_in-some is k (ground (arith, e)) in (passes, ground arith)
  ]

  pub first_in-none :
      (is : List ℕ) → first_in test is ≡ none → (k : ℕ) → is_in k is ≡ true → test k ≡ false
  unfolding first_in
  first_in-none [] e k within = absurd (ground arith)
  first_in-none (i ∷ is) e k within = elim (Bool-cases (test i)) [
    | inl hit ↦ absurd (ground (arith, e))
    | inr miss ↦ elim (Bool-cases (k == i)) [
      | inl same ↦ let at : i ≡ k = ground arith in ap test (sym at) ∙ miss
      | inr other ↦ first_in-none is (ground (arith, e)) k (ground arith)
    ]
  ]

  pub last_in-some :
      (is : List ℕ) (k : ℕ) → last_in test is ≡ some k → (test k ≡ true) × (is_in k is ≡ true)
  unfolding last_in
  last_in-some [] k e = absurd (ground (arith, e))
  last_in-some (i ∷ is) k e = elim (Option-cases (last_in test is)) [
    | inr (j, found) ↦
        let same : j ≡ k = ground (arith, e, found) in
        let (passes, within) = last_in-some is k (found ∙ ap some same) in (passes, ground arith)
    | inl miss ↦ elim (Bool-cases (test i)) [
      | inl hit ↦
          let same : i ≡ k = ground (arith, e, miss) in (ap test (sym same) ∙ hit, ground arith)
      | inr miss' ↦ absurd (ground (arith, e, miss))
    ]
  ]

  pub last_in-none :
      (is : List ℕ) → last_in test is ≡ none → (k : ℕ) → is_in k is ≡ true → test k ≡ false
  unfolding last_in
  last_in-none [] e k within = absurd (ground arith)
  last_in-none (i ∷ is) e k within = elim (Option-cases (last_in test is)) [
    | inr (j, found) ↦ absurd (ground (arith, e, found))
    | inl miss ↦ elim (Bool-cases (k == i)) [
      | inl same ↦
          let at : k ≡ i = ground arith in
          let here : test i ≡ false = ground (arith, e, miss) in ap test at ∙ here
      | inr other ↦ last_in-none is miss k (ground arith)
    ]
  ]

pub is_in-link_from :
    (n i : ℕ) (is : List ℕ) (j : ℕ)
    → is_in j (link_from n i is) ≡ ((leb i j && ltb j (i + n)) || is_in j is)
unfolding link_from
is_in-link_from zero i is j = ground arith
is_in-link_from (suc n) i is j = is_in-link_from n (i + 1) (i ∷ is) j ∙ ground arith
