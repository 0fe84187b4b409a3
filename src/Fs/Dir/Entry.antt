-- ===== src/Fs/Dir/Entry.antt =====
-- The entry that dirlink writes.
use mutex.Common.{
  ℕ, zero, suc, ◌+◌, ◌*◌, ◌%◌, ◌≤◌, ◌<◌, ◌≡◌, refl, sym, ◌∙◌, ap, false, ◌==◌, arith, ℕ_discrete,
  update,
}
use mutex.Cstring.{Memory, strncpy, zero_fill}
use mutex.Fs.Path.{dirsiz}
use mutex.Fs.Dir.{both_names, namecmp, new_entry}
use mutex.Fs.Dir.Names.{chars, chars-ext, namecmp_lem}

-- `strncpy` writes only its `n` bytes.
zero_fill-below : (m : Memory) (s n a : ℕ) → a < s → zero_fill m s n a ≡ m a
unfolding zero_fill
zero_fill-below m s zero a lt = refl
zero_fill-below m s (suc n) a lt =
    zero_fill-below (update m s 0) (s + 1) n a (omega arith) ∙ ground arith

strncpy-below : (m : Memory) (s t n a : ℕ) → a < s → strncpy m s t n a ≡ m a
unfolding strncpy
strncpy-below m s t zero a lt = refl
strncpy-below m s t (suc n) a lt = ground (
  arith,
  zero_fill-below (update m s (m t)) (s + 1) n a (omega arith),
  strncpy-below (update m s (m t)) (s + 1) (t + 1) n a (omega arith),
)

-- It copies the characters of the name.
chars-strncpy : (m : Memory) (s t n : ℕ) → t + n ≤ s → chars (strncpy m s t n) s n ≡ chars m t n
unfolding strncpy
chars-strncpy m s t zero le = refl
chars-strncpy m s t (suc n) le =
    let m' : Memory = update m s (m t) in
    elim (ℕ_discrete (m t) 0) [
      | yes end ↦
          let here : zero_fill m' (s + 1) n s ≡ 0 =
            zero_fill-below m' (s + 1) n s (omega arith) ∙ ground arith in
          ground arith
      | no more ↦
          let here : strncpy m' (s + 1) (t + 1) n s ≡ m t =
            strncpy-below m' (s + 1) (t + 1) n s (omega arith) ∙ ground arith in
          let rest : chars (strncpy m' (s + 1) (t + 1) n) (s + 1) n ≡ chars m (t + 1) n =
            chars-strncpy m' (s + 1) (t + 1) n (omega arith)
            ∙ chars-ext m' m (t + 1) (t + 1) n (λ i lt. ground arith) in
          ground arith
    ]

zero_fill-lt : (m : Memory) (s n : ℕ) → ((a : ℕ) → m a < 256) → (a : ℕ) → zero_fill m s n a < 256
unfolding zero_fill
zero_fill-lt m s zero small a = small a
zero_fill-lt m s (suc n) small a =
    zero_fill-lt (update m s 0) (s + 1) n (λ b. ground (arith, small b)) a

strncpy-lt : (m : Memory) (s t n : ℕ) → ((a : ℕ) → m a < 256) → (a : ℕ) → strncpy m s t n a < 256
unfolding strncpy
strncpy-lt m s t zero small a = small a
strncpy-lt m s t (suc n) small a =
    let small' : (b : ℕ) → update m s (m t) b < 256 = λ b. ground (arith, small b, small t) in
    ground (
      arith,
      zero_fill-lt (update m s (m t)) (s + 1) n small' a,
      strncpy-lt (update m s (m t)) (s + 1) (t + 1) n small' a,
    )

whole : (b : ℕ) → b < 256 → b % 256 ≡ b
whole b lt = omega arith

module _ (name : Memory) (inum : ℕ) (small : (a : ℕ) → name a < 256) where
  abbrev padded : Memory
  padded = strncpy (both_names name (λ k. 0)) 16 0 dirsiz

  new_entry-padded : (i : ℕ) → i < dirsiz → new_entry name inum (2 + i) % 256 ≡ padded (16 + i)
  unfolding new_entry
  new_entry-padded i lt =
      let not_0 : (2 + i == 0) ≡ false = ground arith in
      let not_1 : (2 + i == 1) ≡ false = ground arith in
      let at : 14 + (2 + i) ≡ 16 + i = omega arith in
      let byte : padded (16 + i) < 256 =
        strncpy-lt (both_names name (λ k. 0)) 16 0 dirsiz (λ a. ground (arith, small a)) (16 + i) in
      rw (not_0, not_1) (ap (λ a. padded a % 256) at ∙ whole (padded (16 + i)) byte)

  -- A name whose bytes are those of the new entry is the name.
  pub new_entry-name :
      (nm : Memory)
      → ((i : ℕ) → i < dirsiz → nm i ≡ new_entry name inum (2 + i) % 256)
      → ((a : ℕ) → nm a < 256)
      → namecmp name nm ≡ 0
  new_entry-name nm same small' =
      let m : Memory = both_names name (λ k. 0) in
      let copied : chars nm 0 dirsiz ≡ chars padded 16 dirsiz =
        chars-ext nm padded 0 16 dirsiz (λ i lt.
          let here : 0 + i ≡ i = omega arith in ap nm here ∙ same i lt ∙ new_entry-padded i lt) in
      (namecmp_lem name nm small small').1 (
        sym (
          copied
          ∙ chars-strncpy m 16 0 dirsiz (omega arith)
          ∙ chars-ext m name 0 0 dirsiz (λ i lt. ground arith)))

  pub new_entry-inum :
      inum < 65536 → new_entry name inum 0 % 256 + new_entry name inum 1 % 256 * 256 ≡ inum
  unfolding new_entry
  new_entry-inum lt = omega arith
