-- ===== src/Fs/Dir/Names.antt =====
-- What namecmp compares.
use mutex.Common.{
  ℕ, zero, suc, ◌+◌, ◌-◌, ◌<◌, ◌≡◌, refl, sym, ◌∙◌, ap, ◌↔◌, List, [], ◌∷◌, ◌==◌, if◌then◌else◌,
  arith, ℕ_discrete,
}
use mutex.Cstring.{Memory, strncmp}
use mutex.Fs.Path.{dirsiz}
use mutex.Fs.Dir.{both_names, namecmp}

-- The characters from `p` on before a NUL, `n` at most.
abbrev pub chars : Memory → ℕ → ℕ → List ℕ
chars m p zero = []
chars m p (suc n) = let rest = chars m (p + 1) n in if m p == 0 then [] else m p ∷ rest

strncmp-chars :
    (m : Memory) (p q n : ℕ)
    → ((a : ℕ) → m a < 256)
    → ((strncmp m p q n ≡ 0) → (chars m p n ≡ chars m q n))
      × ((chars m p n ≡ chars m q n) → (strncmp m p q n ≡ 0))
unfolding strncmp
strncmp-chars m p q zero small = (λ e. refl, λ e. refl)
strncmp-chars m p q (suc n) small =
    let ih = strncmp-chars m (p + 1) (q + 1) n small in
    elim (ℕ_discrete (m p) (m q)) [
      | yes same ↦ elim (ℕ_discrete (m p) 0) [
        | yes end ↦ (λ e. ground arith, λ e. ground arith)
        | no more ↦ (λ e. ground (arith, ih.0), λ e. ground (arith, ih.1))
      ]
      | no other ↦ (λ e. absurd (ground (arith, small p, small q)), λ e. absurd (ground (arith)))
    ]

pub chars-ext :
    (m m' : Memory) (p q n : ℕ)
    → ((i : ℕ) → i < n → m (p + i) ≡ m' (q + i))
    → chars m p n ≡ chars m' q n
chars-ext m m' p q zero same = refl
chars-ext m m' p q (suc n) same =
    let here : m p ≡ m' q = ap m (omega arith) ∙ same 0 (omega arith) ∙ ap m' (omega arith) in
    rw here (
      ap (λ rest. if m' q == 0 then [] else m' q ∷ rest)
        (chars-ext m m' (p + 1) (q + 1) n
          (λ i lt. ap m (omega arith) ∙ same (1 + i) (omega arith) ∙ ap m' (omega arith))))

-- `namecmp` answers 0 exactly for names with the same characters before their NUL, or the same first
-- `DIRSIZ` characters.
pub namecmp_lem :
    (s t : Memory)
    → ((a : ℕ) → s a < 256)
    → ((a : ℕ) → t a < 256)
    → (namecmp s t ≡ 0) ↔ (chars s 0 dirsiz ≡ chars t 0 dirsiz)
unfolding namecmp
namecmp_lem s t small small' =
    let m : Memory = both_names s t in
    let first_name : chars m 0 dirsiz ≡ chars s 0 dirsiz =
      chars-ext m s 0 0 dirsiz (λ i lt. ground arith) in
    let second_name : chars m 16 dirsiz ≡ chars t 0 dirsiz =
      chars-ext m t 16 0 dirsiz
        (λ i lt. let back : 16 + i - 16 ≡ 0 + i = omega arith in ground (arith, ap t back)) in
    let both = strncmp-chars m 0 16 dirsiz (λ a. ground (arith, small a, small' (a - 16))) in
    (λ e. sym first_name ∙ both.0 e ∙ second_name, λ e. both.1 (first_name ∙ e ∙ sym second_name))
