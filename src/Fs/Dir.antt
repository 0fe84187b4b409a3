-- ===== src/Fs/Dir.antt =====
-- Directories of fs.c: namecmp, dirlookup and dirlink. `none` is a panic.
pub mod Names
pub mod Lookup
pub mod Entry
pub mod Link
use mutex.Common.{
  ℕ, zero, suc, ◌+◌, ◌-◌, ◌*◌, ◌/◌, ◌%◌, Bool, true, false, not, ◌&&◌, ◌||◌, Option, none, some,
  List, [], ◌∷◌, ltb, ◌==◌, if◌then◌else◌, update, length, get_or, ◌>>=◌,
}
use mutex.Cstring.{Memory, strncmp, strncpy}
use mutex.Fs.Disk.{Disk}
use mutex.Fs.Inode.{Inode, Icache, iget, iput}
use mutex.Fs.Content.{Reading, Writing, readi, writei}
use mutex.Fs.Path.{dirsiz}

abbrev pub t_dir : ℕ
t_dir = 1

-- `sizeof(struct dirent)`
abbrev pub dirent_size : ℕ
dirent_size = 16

-- The fields of a `struct dirent` that was read.
abbrev pub entry_inum : List ℕ → ℕ
entry_inum de = get_or de 0 0 + get_or de 1 0 * 256

abbrev pub entry_name : List ℕ → Memory
entry_name de i = get_or de (2 + i) 0

-- Two names in one memory, the second from address 16 on.
abbrev pub both_names : Memory → Memory → Memory
both_names s t a = if ltb a 16 then s a else t (a - 16)

unfoldable pub namecmp : Memory → Memory → ℕ
namecmp s t = strncmp (both_names s t) 0 16 dirsiz

-- The entry that `dirlookup` finds: its offset and the number in it.
abbrev pub Found : Type 0
Found = Option (Option (ℕ × ℕ) × Disk × Inode)

module _ (devsw : ℕ → Option (Disk → Inode → ℕ → Reading)) where
  -- The loop from `off` on, on fuel.
  unfoldable pub lookup_from : ℕ → Disk → Inode → Memory → ℕ → Found
  unfolding readi namecmp
  lookup_from zero d dp name off = if ltb off dp.size then none else some (none, d, dp)
  lookup_from (suc k) d dp name off =
      if not (ltb off dp.size)
      then some (none, d, dp)
      else elim (readi devsw d dp off dirent_size) [
        | none ↦ none
        | some (none, d₁, dp₁) ↦ none
        | some (some de, d₁, dp₁) ↦
            let rest = lookup_from k d₁ dp₁ name (off + dirent_size) in
            if not (length de == dirent_size)
            then none
            else if entry_inum de == 0
            then rest
            else if namecmp name (entry_name de) == 0
            then some (some (off, entry_inum de), d₁, dp₁)
            else rest
      ]

  -- `dirlookup` in the directory that cache entry `i` holds: the offset of the entry and the cache entry
  -- of its inode.
  unfoldable pub dirlookup : Disk → Icache → ℕ → Memory → Option (Option (ℕ × ℕ) × Disk × Icache)
  unfolding lookup_from iget
  dirlookup d c i name =
      if not ((c i).type == t_dir) then none else elim (lookup_from (c i).size d (c i) name 0) [
        | none ↦ none
        | some (none, d₁, dp₁) ↦ some (none, d₁, update c i dp₁)
        | some (some (off, inum), d₁, dp₁) ↦ (do
          (j, c₁) ← iget (update c i dp₁) dp₁.dev inum
          some (some (off, j), d₁, c₁))
      ]

  -- The second loop of `dirlink`: the offset of the first empty entry, or of the end.
  unfoldable pub empty_from : ℕ → Disk → Inode → ℕ → Option (ℕ × Disk × Inode)
  unfolding readi
  empty_from zero d dp off = if ltb off dp.size then none else some (off, d, dp)
  empty_from (suc k) d dp off =
      if not (ltb off dp.size) then some (off, d, dp) else elim (readi devsw d dp off dirent_size) [
        | none ↦ none
        | some (none, d₁, dp₁) ↦ none
        | some (some de, d₁, dp₁) ↦
            let rest = empty_from k d₁ dp₁ (off + dirent_size) in
            if not (length de == dirent_size)
            then none
            else if entry_inum de == 0
            then some (off, d₁, dp₁)
            else rest
      ]

-- The bytes of the entry that `dirlink` writes.
unfoldable pub new_entry : Memory → ℕ → Memory
unfolding strncpy
new_entry name inum b =
    if b == 0
    then inum % 256
    else if b == 1
    then inum / 256 % 256
    else strncpy (both_names name (λ k. 0)) 16 0 dirsiz (14 + b)

module _ (devsw : ℕ → Option (Disk → Inode → ℕ → Reading))
    (dev_write : ℕ → Option (Disk → Inode → Memory → ℕ → Writing)) where
  -- `dirlink`, whose answer is 0, or -1 for a name that is there.
  unfoldable pub dirlink : Disk → Icache → ℕ → Memory → ℕ → Option (Option ℕ × Disk × Icache)
  dirlink d c i name inum = elim (dirlookup devsw d c i name) [
    | none ↦ none
    | some (some (off, j), d₁, c₁) ↦ elim (iput d₁ c₁ j) [
      | none ↦ none
      | some (d₂, c₂) ↦ some (none, d₂, c₂)
    ]
    | some (none, d₁, c₁) ↦ elim (empty_from devsw (c₁ i).size d₁ (c₁ i) 0) [
      | none ↦ none
      | some (off, d₂, dp₂) ↦ elim (writei dev_write d₂ dp₂ (new_entry name inum) off dirent_size) [
        | none ↦ none
        | some (none, d₃, dp₃) ↦ none
        | some (some n, d₃, dp₃) ↦
            if n == dirent_size then some (some 0, d₃, update c₁ i dp₃) else none
      ]
    ]
  ]
