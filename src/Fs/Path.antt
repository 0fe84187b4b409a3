-- ===== src/Fs/Path.antt =====
-- skipelem of fs.c: the elements of a path. A path is its characters before the NUL.
pub mod Elements
use mutex.Common.{
  ℕ, zero, suc, ◌+◌, ◌-◌, Bool, true, false, not, ◌&&◌, ◌||◌, Option, none, some, List, [], ◌∷◌,
  leb, ◌==◌, if◌then◌else◌, length, take,
}

abbrev pub slash : ℕ
slash = 47

abbrev pub dirsiz : ℕ
dirsiz = 14

-- `while(*path == '/') path++;`
unfoldable pub skip_slashes : List ℕ → List ℕ
skip_slashes [] = []
skip_slashes (c ∷ cs) = let rest = skip_slashes cs in if c == slash then rest else c ∷ cs

-- `while(*path != '/' && *path != 0) path++;`: what it passes, and what it leaves.
unfoldable pub passed : List ℕ → List ℕ
passed [] = []
passed (c ∷ cs) = let rest = passed cs in if c == slash then [] else c ∷ rest

unfoldable pub left : List ℕ → List ℕ
left [] = []
left (c ∷ cs) = let rest = left cs in if c == slash then c ∷ cs else rest

-- `skipelem`: the element copied to `name`, up to its NUL or `DIRSIZ` characters, and the new path.
unfoldable pub skipelem : List ℕ → Option (List ℕ × List ℕ)
unfolding skip_slashes passed left
skipelem path = elim (skip_slashes path) [
  | [] ↦ none
  | c ∷ cs ↦
      let s = c ∷ cs in
      let len = length (passed s) in
      some (
        (if leb dirsiz len then take dirsiz (passed s) else take len (passed s)),
        skip_slashes (left s),
      )
]

-- `*path == '\0'`
abbrev pub is_end {ℓ} : {A : Type ℓ} → List A → Bool
is_end [] = true
is_end (c ∷ cs) = false
