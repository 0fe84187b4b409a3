-- ===== src/Grep/Meaning.antt =====
-- What a regular expression means, without a search, and that `match` decides it.
use mutex.Common.{
  ℕ, ◌≡◌, ◌≢◌, ◌⊎◌, ◌↔◌, refl, sym, ◌∙◌, ap, inl, inr, Bool, true, false, ◌||◌, List, [], ◌∷◌, ◌++◌,
  ◌==◌, arith, Bool-cases,
}
use mutex.Grep.{star_char, dollar, dot, caret, matchstar, matchhere, match_anywhere, match_re}

-- The character `x` fits `c` of the expression.
abbrev pub Fits : ℕ → ℕ → Type 0
Fits c x = (c ≡ dot) ⊎ (c ≡ x)

abbrev pub AllFit : ℕ → List ℕ → Type 0
AllFit c [] = Unit {0}
AllFit c (x ∷ xs) = Fits c x × AllFit c xs

-- The text is some characters that fit `c`, and a rest of which `P` holds.
abbrev pub Repeated : (List ℕ → Type 0) → ℕ → List ℕ → Type 0
Repeated P c text = (xs rest : List ℕ) × (text ≡ xs ++ rest) × AllFit c xs × P rest

-- The expression fits a first part of the text: `c*` any number of characters that fit `c`, a `$` at
-- its end the end of the text, another character one that fits it.
abbrev pub Starts : List ℕ → List ℕ → Type 0
Starts [] text = Unit {0}
Starts (c ∷ []) text =
    ((c ≡ dollar) × (text ≡ []))
    ⊎ ((c ≢ dollar) × (x : ℕ) × (rest : List ℕ) × (text ≡ x ∷ rest) × Fits c x)
Starts (c ∷ d ∷ re) text =
    ((d ≡ star_char) × Repeated (Starts re) c text)
    ⊎ ((d ≢ star_char)
        × (x : ℕ) × (rest : List ℕ) × (text ≡ x ∷ rest)
        × Fits c x
        × Starts (d ∷ re) rest)

-- Some end of the text satisfies `P`.
abbrev pub Somewhere : (List ℕ → Type 0) → List ℕ → Type 0
Somewhere P text = (xs rest : List ℕ) × (text ≡ xs ++ rest) × P rest

-- An expression that begins with `^` fits at the beginning of the text, another one anywhere.
abbrev pub Matches : List ℕ → List ℕ → Type 0
Matches [] text = Unit {0}
Matches (c ∷ re) text =
    ((c ≡ caret) × Starts re text) ⊎ ((c ≢ caret) × Somewhere (Starts (c ∷ re)) text)

module _ (here : List ℕ → Bool) (P : List ℕ → Type 0)
    (decides : (text : List ℕ) → (here text ≡ true) ↔ P text) (c : ℕ) where
  matchstar_sound : (text : List ℕ) → matchstar here c text ≡ true → Repeated P c text
  unfolding matchstar
  matchstar_sound [] e = ([], [], refl, tt, (decides []).0 e)
  matchstar_sound (x ∷ text) e = elim (Bool-cases (here (x ∷ text))) [
    | inl now ↦ ([], x ∷ text, refl, tt, (decides (x ∷ text)).0 now)
    | inr later ↦
        let (xs, rest, s, fit, p) = matchstar_sound text (ground arith) in
        (x ∷ xs, rest, ap (◌∷◌ x) s, (ground arith, fit), p)
  ]

  matchstar_complete :
      (xs rest : List ℕ) → AllFit c xs → P rest → matchstar here c (xs ++ rest) ≡ true
  unfolding matchstar
  matchstar_complete [] [] fit p = (decides []).1 p
  matchstar_complete [] (x ∷ rest) fit p = ground (arith, (decides (x ∷ rest)).1 p)
  matchstar_complete (x ∷ xs) rest fit p = ground (arith, matchstar_complete xs rest fit.1 p, fit.0)

  matchstar_lem : (text : List ℕ) → (matchstar here c text ≡ true) ↔ Repeated P c text
  matchstar_lem text =
      (matchstar_sound text, λ (xs, rest, s, fit, p). rw s (matchstar_complete xs rest fit p))

fits : (c x : ℕ) → ((c == dot || c == x) ≡ true) ↔ Fits c x
fits c x = ground arith

-- `matchhere` answers true exactly if the expression fits a first part of the text.
pub matchhere_lem : (re text : List ℕ) → (matchhere re text ≡ true) ↔ Starts re text
unfolding matchhere
matchhere_lem [] text = (λ e. tt, λ e. refl)
matchhere_lem (c ∷ []) [] = (λ e. inl (ground arith, refl), λ h. ground arith)
matchhere_lem (c ∷ []) (x ∷ text) =
    (λ e. inr (ground arith, x, text, refl, ground arith), λ h. ground arith)
matchhere_lem (c ∷ d ∷ re) text = elim (Bool-cases (d == star_char)) [
  | inl starred ↦ repeats starred (λ t. matchhere_lem re t) text
  | inr plain ↦ single plain (λ t. matchhere_lem (d ∷ re) t) text
]
  where
    opened :
        (d == star_char) ≡ true
        → (text : List ℕ) → matchhere (c ∷ d ∷ re) text ≡ matchstar (matchhere re) c text
    opened e [] = rw e refl
    opened e (x ∷ text) = rw e refl

    repeats :
        (d == star_char) ≡ true
        → ((t : List ℕ) → (matchhere re t ≡ true) ↔ Starts re t)
        → (text : List ℕ) → (matchhere (c ∷ d ∷ re) text ≡ true) ↔ Starts (c ∷ d ∷ re) text
    repeats e ih text =
        let starred : d ≡ star_char = ground arith in
        let (to, from) = matchstar_lem (matchhere re) (Starts re) ih c text in
        (
          λ h. inl (starred, to (sym (opened e text) ∙ h)),
          λ h. elim h [ inl (s, r) ↦ opened e text ∙ from r | inr r ↦ absurd (r.0 starred) ],
        )

    single :
        (d == star_char) ≡ false
        → ((t : List ℕ) → (matchhere (d ∷ re) t ≡ true) ↔ Starts (d ∷ re) t)
        → (text : List ℕ) → (matchhere (c ∷ d ∷ re) text ≡ true) ↔ Starts (c ∷ d ∷ re) text
    single e ih [] = (
      λ h. absurd (ground arith),
      λ h. elim h [
        | inl (s, r) ↦ absurd (ground arith)
        | inr (ne, x, rest, none_left, fit, r) ↦ absurd (ground arith)
      ],
    )
    single e ih (x ∷ text) =
        let plain : d ≢ star_char = ground arith in
        let (to, from) = ih text in
        (
          λ h. inr (plain, x, text, refl, ground arith, to (ground arith)),
          λ h. elim h [
            | inl (s, r) ↦ absurd (plain s)
            | inr (ne, x', rest, same, fit, r) ↦
                let tails : rest ≡ text = cc in
                let heads : x' ≡ x = cc in
                let tail_fits = from (rw tails at r) in ground (arith, tail_fits)
          ],
        )

match_anywhere_lem :
    (re text : List ℕ) → (match_anywhere re text ≡ true) ↔ Somewhere (Starts re) text
unfolding match_anywhere
match_anywhere_lem re [] = (λ e. ([], [], refl, (matchhere_lem re []).0 e), λ h. at_end h)
  where
    at_end : Somewhere (Starts re) [] → matchhere re [] ≡ true
    at_end ([], rest, e, s) = rw e ((matchhere_lem re rest).1 s)
    at_end (x ∷ xs, rest, e, s) = absurd (ground arith)
match_anywhere_lem re (x ∷ text) =
    let (to, from) = match_anywhere_lem re text in (sound to, complete from)
  where
    sound :
        (match_anywhere re text ≡ true → Somewhere (Starts re) text)
        → match_anywhere re (x ∷ text) ≡ true
        → Somewhere (Starts re) (x ∷ text)
    sound to e = elim (Bool-cases (matchhere re (x ∷ text))) [
      | inl now ↦ ([], x ∷ text, refl, (matchhere_lem re (x ∷ text)).0 now)
      | inr later ↦ let (xs, rest, s, p) = to (ground arith) in (x ∷ xs, rest, ap (◌∷◌ x) s, p)
    ]

    complete :
        (Somewhere (Starts re) text → match_anywhere re text ≡ true)
        → Somewhere (Starts re) (x ∷ text)
        → match_anywhere re (x ∷ text) ≡ true
    complete from ([], rest, e, s) =
        let now : matchhere re (x ∷ text) ≡ true = rw e ((matchhere_lem re rest).1 s) in
        ground (arith, now)
    complete from (y ∷ xs, rest, e, s) =
        let tails : text ≡ xs ++ rest = cc in
        let later = from (xs, rest, tails, s) in ground (arith, later)

-- `match` answers true exactly if the text matches the expression: `^` at the beginning of the
-- expression ties it to the beginning of the text, otherwise it may fit anywhere.
pub match_re_lem : (re text : List ℕ) → (match_re re text ≡ true) ↔ Matches re text
unfolding match_re
match_re_lem [] text = (λ e. tt, λ h. (match_anywhere_lem [] text).1 ([], text, refl, tt))
match_re_lem (c ∷ re) text =
    let (to, from) = matchhere_lem re text in
    let (to', from') = match_anywhere_lem (c ∷ re) text in
    elim (Bool-cases (c == caret)) [
      | inl tied ↦
          let e : c ≡ caret = ground arith in
          rw tied
            (λ h. inl (e, to h), λ h. elim h [ inl (s, r) ↦ from r | inr (ne, r) ↦ absurd (ne e) ])
      | inr free ↦
          let ne : c ≢ caret = ground arith in
          rw free (
            λ h. inr (ne, to' h),
            λ h. elim h [ inl (s, r) ↦ absurd (ne s) | inr (n, r) ↦ from' r ],
          )
    ]
