-- ===== src/Common/Family.antt =====
-- C arrays of a fixed size as functions of the index: update at one index, the loops over all
-- indices, and the search for the first index that passes a test.
use Prim.Native.Nat.{ℕ, zero, suc, ◌+◌, ◌≤◌, ◌<◌}
use mathlib.Core.Path.{◌≡◌, refl}
use mathlib.Core.Logic.{inl, inr}
use mathlib.Core.Bool.{Bool, true, false}
use mathlib.Core.Option.{Option, none, some}
use native.Mathlib.Omega.{arith}
use mutex.Common.Tests.{◌==◌, ltb, if◌then◌else◌, Bool-cases}

module _ {ℓ} {A : Type ℓ} where
  abbrev pub update : (ℕ → A) → ℕ → A → ℕ → A
  update f i a j = if i == j then a else f j

  -- Every index below `n` is rewritten: `for (i = 0; i < n; i++) a[i] = g(a[i]);`
  abbrev pub each : ℕ → (A → A) → (ℕ → A) → ℕ → A
  each n g f j = if ltb j n then g (f j) else f j

-- `for (; rounds > 0; rounds--, i++) if (test(i)) return i;`
unfoldable pub first_from : (ℕ → Bool) → ℕ → ℕ → Option ℕ
first_from test zero i = none
first_from test (suc n) i = let rest = first_from test n (i + 1) in if test i then some i else rest

-- The first index below `n` that passes the test.
unfoldable pub first : (ℕ → Bool) → ℕ → Option ℕ
unfolding first_from
first test n = first_from test n 0

pub record IsFirst (test : ℕ → Bool) (n i : ℕ) : Type 0 where
  pub below : i < n
  pub passes : test i ≡ true
  pub earlier_fail : (j : ℕ) → j < i → test j ≡ false

module _ (test : ℕ → Bool) where
  first_from-some :
      (n i k : ℕ)
      → first_from test n i ≡ some k
      → (i ≤ k) × (k < i + n) × (test k ≡ true) × ((j : ℕ) → i ≤ j → j < k → test j ≡ false)
  unfolding first_from
  first_from-some zero i k e = cc
  first_from-some (suc n) i k e = elim (Bool-cases (test i)) [
    | inl hit ↦ (ground arith, ground arith, ground arith, λ j a b. absurd (ground arith))
    | inr miss ↦
        let later : first_from test n (i + 1) ≡ some k = ground arith in
        let found = first_from-some n (i + 1) k later in
        (
          omega arith,
          omega arith,
          found.2,
          λ j a b. elim (Bool-cases (i == j)) [
            | inl same ↦ ground arith
            | inr other ↦ found.3 j (ground arith) b
          ],
        )
  ]

  first_from-none :
      (n i : ℕ) → first_from test n i ≡ none → (j : ℕ) → i ≤ j → j < i + n → test j ≡ false
  unfolding first_from
  first_from-none zero i e j a b = absurd (omega arith)
  first_from-none (suc n) i e j a b = elim (Bool-cases (i == j)) [
    | inl same ↦ ground arith
    | inr other ↦ first_from-none n (i + 1) (ground arith) j (ground arith) (omega arith)
  ]

  pub first-IsFirst : (n k : ℕ) → first test n ≡ some k → IsFirst test n k
  unfolding first
  first-IsFirst n k e =
      let found = first_from-some n 0 k e in
      record {
        below = omega arith;
        passes = found.2;
        earlier_fail = λ j h. found.3 j (omega arith) h;
      }

  pub first-none : (n : ℕ) → first test n ≡ none → (j : ℕ) → j < n → test j ≡ false
  unfolding first
  first-none n e j h = first_from-none n 0 e j (omega arith) (omega arith)

  first_from-hit :
      (n i k : ℕ) → i ≤ k → k < i + n → test k ≡ true → (first_from test n i ≡ none) → ⊥
  first_from-hit n i k a b h e = absurd (cc (first_from-none n i e k a b))

  pub first-total : (n k : ℕ) → k < n → test k ≡ true → (i : ℕ) × (first test n ≡ some i) × (i ≤ k)
  unfolding first
  first-total n k h t = go (first test n) refl
    where
      go : (o : Option ℕ) → first test n ≡ o → (i : ℕ) × (first test n ≡ some i) × (i ≤ k)
      go none e = absurd (first_from-hit n 0 k (omega arith) (omega arith) t e)
      go (some i) e = (
        i,
        e,
        elim (Bool-cases (ltb k i)) [
          | inl lower ↦ absurd (cc ((first_from-some n 0 i e).3 k (omega arith) (ground arith)))
          | inr fine ↦ ground arith
        ],
      )

  pub IsFirst-first : (n i : ℕ) → IsFirst test n i → first test n ≡ some i
  IsFirst-first n i f =
      let (j, e, le) = first-total n i f.below f.passes in
      let g = first-IsFirst n j e in
      let same : j ≡ i = elim (Bool-cases (ltb j i)) [
        | inl lower ↦ absurd (cc (f.earlier_fail j (ground arith), g.passes))
        | inr fine ↦ ground arith
      ] in
      rw (← same) e
