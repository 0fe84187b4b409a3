-- ===== src/Fs/Path/Elements.antt =====
-- The elements of a path, against splitting it at each slash.
use mutex.Common.{
  ℕ, zero, suc, ◌≤◌, ◌<◌, ◌≡◌, ◌⊎◌, inl, inr, refl, sym, ◌∙◌, ap, false, none, some, List, [], ◌∷◌,
  leb, ◌==◌, if◌then◌else◌, length, take, arith, Bool-cases,
}
use mutex.Fs.Path.{slash, dirsiz, skip_slashes, passed, left, skipelem, is_end}

-- The parts of a path between its slashes, with the empty ones: the first, and the others.
abbrev pub split : List ℕ → List ℕ × List (List ℕ)
split [] = ([], [])
split (c ∷ cs) =
    let (first_part, others) = split cs in
    if c == slash then ([], first_part ∷ others) else (c ∷ first_part, others)

-- The parts that are not empty, each cut to `DIRSIZ` characters.
abbrev pub short_names : List (List ℕ) → List (List ℕ)
short_names [] = []
short_names ([] ∷ ps) = short_names ps
short_names ((c ∷ cs) ∷ ps) = take dirsiz (c ∷ cs) ∷ short_names ps

abbrev pub names : List ℕ → List (List ℕ)
names path = short_names ((split path).0 ∷ (split path).1)

names-skip_slashes : (path : List ℕ) → names (skip_slashes path) ≡ names path
unfolding skip_slashes
names-skip_slashes [] = refl
names-skip_slashes (c ∷ cs) = elim (Bool-cases (c == slash)) [
  | inl at ↦ rw at (names-skip_slashes cs)
  | inr past ↦ rw past (rw past refl)
]

split-passed : (s : List ℕ) → (split s).0 ≡ passed s
unfolding passed
split-passed [] = refl
split-passed (c ∷ cs) = elim (Bool-cases (c == slash)) [
  | inl at ↦ rw at refl
  | inr past ↦ rw past (ap (λ rest. c ∷ rest) (split-passed cs))
]

names-left : (s : List ℕ) → names (left s) ≡ short_names (split s).1
unfolding left
names-left [] = refl
names-left (c ∷ cs) = elim (Bool-cases (c == slash)) [
  | inl at ↦ rw at (rw at refl)
  | inr past ↦ rw past (names-left cs)
]

length-left : (s : List ℕ) → length (left s) ≤ length s
unfolding left
length-left [] = omega arith
length-left (c ∷ cs) = ground (arith, length-left cs)

length-skip_slashes : (s : List ℕ) → length (skip_slashes s) ≤ length s
unfolding skip_slashes
length-skip_slashes [] = omega arith
length-skip_slashes (c ∷ cs) = ground (arith, length-skip_slashes cs)

-- What is left after the leading slashes does not start with one.
skip_slashes-head :
    (path : List ℕ) (c : ℕ) (cs : List ℕ) → skip_slashes path ≡ c ∷ cs → (c == slash) ≡ false
unfolding skip_slashes
skip_slashes-head [] c cs e = absurd (ground (arith, e))
skip_slashes-head (x ∷ xs) c cs e = elim (Bool-cases (x == slash)) [
  | inl at ↦ skip_slashes-head xs c cs (rw at at e)
  | inr past ↦ ground (arith, e)
]

take-length : (xs : List ℕ) → take (length xs) xs ≡ xs
take-length [] = refl
take-length (x ∷ xs) = ap (λ rest. x ∷ rest) (take-length xs)

take-all : (n : ℕ) (xs : List ℕ) → length xs ≤ n → take n xs ≡ xs
take-all zero [] le = refl
take-all zero (x ∷ xs) le = absurd (omega arith)
take-all (suc n) [] le = refl
take-all (suc n) (x ∷ xs) le = ap (λ rest. x ∷ rest) (take-all n xs (omega arith))

cut :
    (xs : List ℕ)
    → (if leb dirsiz (length xs) then take dirsiz xs else take (length xs) xs) ≡ take dirsiz xs
cut xs = elim (Bool-cases (leb dirsiz (length xs))) [
  | inl long ↦ rw long refl
  | inr short ↦ rw short (take-length xs ∙ sym (take-all dirsiz xs (ground arith)))
]

names-cons :
    (c : ℕ) (cs : List ℕ)
    → (c == slash) ≡ false
    → names (c ∷ cs) ≡ take dirsiz (passed (c ∷ cs)) ∷ names (skip_slashes (left (c ∷ cs)))
unfolding passed left
names-cons c cs past =
    rw past (rw (names-skip_slashes (left cs), names-left cs, split-passed cs) refl)

is_end-names : (path : List ℕ) → is_end (skip_slashes path) ≡ is_end (names path)
is_end-names path = by_rest (skip_slashes path) refl
  where
    by_rest :
        (s : List ℕ) → skip_slashes path ≡ s → is_end (skip_slashes path) ≡ is_end (names path)
    by_rest [] e = ap is_end e ∙ ap is_end (ap names (sym e) ∙ names-skip_slashes path)
    by_rest (c ∷ cs) e =
        ap is_end e
        ∙ ap is_end (
            sym (names-cons c cs (skip_slashes-head path c cs e))
            ∙ ap names (sym e)
            ∙ names-skip_slashes path)

-- `skipelem` of a path with no element answers 0. Otherwise it takes the first part between slashes
-- that is not empty, cut to its first `DIRSIZ` characters, and leaves a shorter path with the other
-- parts, which is empty exactly if there are none.
pub skipelem_lem :
    (path : List ℕ)
    → ((skipelem path ≡ none) × (names path ≡ []))
      ⊎ ((name rest : List ℕ) × (skipelem path ≡ some (name, rest))
          × (names path ≡ name ∷ names rest)
          × (is_end rest ≡ is_end (names rest))
          × (length rest < length path))
unfolding skipelem left
skipelem_lem path = by_rest (skip_slashes path) refl
  where
    by_rest :
        (s : List ℕ)
        → skip_slashes path ≡ s
        → ((skipelem path ≡ none) × (names path ≡ []))
          ⊎ ((name rest : List ℕ) × (skipelem path ≡ some (name, rest))
              × (names path ≡ name ∷ names rest)
              × (is_end rest ≡ is_end (names rest))
              × (length rest < length path))
    by_rest [] e = inl (rw (e, skipelem) refl, sym (ap names (sym e) ∙ names-skip_slashes path))
    by_rest (c ∷ cs) e =
        let past = skip_slashes-head path c cs e in
        let rest : List ℕ = skip_slashes (left (c ∷ cs)) in
        let shorter : length rest < length path = rw past (
          omega (
            arith,
            length-skip_slashes (left cs),
            length-left cs,
            length-skip_slashes path,
            ap length e,
          )) in
        let none_left : is_end rest ≡ is_end (names rest) =
          is_end-names (left (c ∷ cs)) ∙ ap is_end (sym (names-skip_slashes (left (c ∷ cs)))) in
        inr (
          take dirsiz (passed (c ∷ cs)),
          rest,
          rw (e, skipelem) (ap (λ name. some (name, rest)) (cut (passed (c ∷ cs)))),
          sym (names-skip_slashes path) ∙ ap names e ∙ names-cons c cs past,
          none_left,
          shorter,
        )
