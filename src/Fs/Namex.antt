-- ===== src/Fs/Namex.antt =====
-- namex, namei and nameiparent of fs.c: from a path to an inode.
pub mod Walk
use mutex.Common.{
  ℕ, zero, suc, ◌+◌, Bool, true, false, not, ◌&&◌, ◌||◌, Option, none, some, List, [], ◌∷◌, ◌==◌,
  if◌then◌else◌, length, get_or,
}
use mutex.Cstring.{Memory}
use mutex.Fs.Disk.{Disk}
use mutex.Fs.Inode.{
  Inode, Icache, iget, idup, ilock, Lock, sleeps, locked, panics, iunlock, iput, iunlockput,
}
use mutex.Fs.Content.{Reading}
use mutex.Fs.Path.{slash, skipelem, is_end}
use mutex.Fs.Dir.{t_dir, dirlookup}

-- How `namex` ends: with an inode, or 0, and what is in `name`; or with a panic; or it waits for an
-- inode that another process has locked.
pub data Arrival : Type 0 where
  ends : Option ℕ → List ℕ → Disk → Icache → Arrival
  stops : Arrival
  waits : Arrival

-- One visit of the loop: it is the last one, or goes on with the next inode.
pub data Round : Type 0 where
  last : Arrival → Round
  next : ℕ → Disk → Icache → Round

-- The characters of an element as the array `name`, with the NUL after them.
abbrev pub name_of : List ℕ → Memory
name_of name i = get_or name i 0

-- `*path == '/'`
abbrev pub is_absolute : List ℕ → Bool
is_absolute [] = false
is_absolute (c ∷ cs) = c == slash

-- `iunlockput(ip); return 0;`
unfoldable pub give_up : Disk → Icache → ℕ → List ℕ → Arrival
unfolding iunlockput
give_up d c i name = elim (iunlockput d c i) [ none ↦ stops | some (d', c') ↦ ends none name d' c' ]

module _ (devsw : ℕ → Option (Disk → Inode → ℕ → Reading)) (parent : Bool) where
  -- The rest of the visit, in the directory.
  unfoldable pub find_in : Disk → Icache → ℕ → List ℕ → Round
  unfolding dirlookup give_up iunlockput
  find_in d c i name = elim (dirlookup devsw d c i (name_of name)) [
    | none ↦ last stops
    | some (none, d₁, c₁) ↦ last (give_up d₁ c₁ i name)
    | some (some (off, j), d₁, c₁) ↦ elim (iunlockput d₁ c₁ i) [
      | none ↦ last stops
      | some (d₂, c₂) ↦ next j d₂ c₂
    ]
  ]

  unfoldable pub visit : Disk → Icache → ℕ → List ℕ → Bool → Round
  unfolding ilock give_up iunlock find_in
  visit d c i name no_more = elim (ilock d c i) [
    | panics ↦ last stops
    | sleeps ↦ last waits
    | locked c₁ ↦
        if not ((c₁ i).type == t_dir)
        then last (give_up d c₁ i name)
        else if parent && no_more
        then last (elim (iunlock c₁ i) [ none ↦ stops | some c₂ ↦ ends (some i) name d c₂ ])
        else find_in d c₁ i name
  ]

  -- After the loop.
  unfoldable pub at_end : Disk → Icache → ℕ → List ℕ → Arrival
  unfolding iput
  at_end d c i name =
      if parent
      then elim (iput d c i) [ none ↦ stops | some (d', c') ↦ ends none name d' c' ]
      else ends (some i) name d c

  -- The loop, on fuel.
  unfoldable pub namex_from : ℕ → Disk → Icache → ℕ → List ℕ → List ℕ → Arrival
  unfolding skipelem visit at_end
  namex_from zero d c i path name = stops
  namex_from (suc k) d c i path name = elim (skipelem path) [
    | none ↦ at_end d c i name
    | some (name', path') ↦ elim (visit d c i name' (is_end path')) [
      | last o ↦ o
      | next j d' c' ↦ namex_from k d' c' j path' name'
    ]
  ]

  -- `namex`, where `cwd` is the entry of `proc->cwd`.
  unfoldable pub namex : Disk → Icache → ℕ → List ℕ → List ℕ → Arrival
  unfolding namex_from iget idup
  namex d c cwd path name =
      if is_absolute path
      then elim (iget c 1 1) [
        | none ↦ stops
        | some (i, c') ↦ namex_from (suc (length path)) d c' i path name
      ]
      else namex_from (suc (length path)) d (idup c cwd) cwd path name

unfoldable pub namei :
    (ℕ → Option (Disk → Inode → ℕ → Reading)) → Disk → Icache → ℕ → List ℕ → Arrival
unfolding namex
namei devsw d c cwd path = namex devsw false d c cwd path []

unfoldable pub nameiparent :
    (ℕ → Option (Disk → Inode → ℕ → Reading)) → Disk → Icache → ℕ → List ℕ → List ℕ → Arrival
unfolding namex
nameiparent devsw d c cwd path name = namex devsw true d c cwd path name
