-- ===== src/Fs/Content.antt =====
-- readi, writei and stati of fs.c: the bytes of a file. A device is a parameter. `none` is a panic.
pub mod Reads
pub mod Writes
pub mod RoundTrip
use mutex.Common.{
  ℕ, zero, suc, ◌+◌, ◌-◌, ◌*◌, ◌/◌, ◌%◌, Bool, true, false, not, ◌&&◌, ◌||◌, Option, none, some,
  List, [], ◌∷◌, ◌++◌, ltb, ◌==◌, if◌then◌else◌, min, ◌>>=◌, is_positive,
}
use mutex.Log.{Block}
use mutex.Fs.Bytes.{get_byte, set_byte}
use mutex.Fs.Disk.{Disk, read, write}
use mutex.Fs.Inode.{Inode, bmap, iupdate}

abbrev pub bsize : ℕ
bsize = 512

-- `MAXFILE * BSIZE`
abbrev pub maxfile_bytes : ℕ
maxfile_bytes = 140 * 512

abbrev pub t_dev : ℕ
t_dev = 3

abbrev pub ndev : ℕ
ndev = 10

-- The `m` bytes of `f` from `at` on, as `memmove` takes them.
unfoldable pub bytes_from : (ℕ → ℕ) → ℕ → ℕ → List ℕ
bytes_from f at zero = []
bytes_from f at (suc m) = f at ∷ bytes_from f (at + 1) m

-- `memmove(bp->data + at, src, m)`
unfoldable pub copy_in : Block → ℕ → (ℕ → ℕ) → ℕ → Block
copy_in b at src zero = b
copy_in b at src (suc m) = set_byte (copy_in b at src m) (at + m) (src m)

pub record Stat : Type 0 where
  pub dev : ℕ
  pub ino : ℕ
  pub type : ℕ
  pub nlink : ℕ
  pub size : ℕ

unfoldable pub stati : Inode → Stat
stati ip = record { dev = ip.dev; ino = ip.inum; type = ip.type; nlink = ip.nlink; size = ip.size }

-- What `readi` does: the return value with the bytes read, where `none` is -1, and the new state.
abbrev pub Reading : Type 0
Reading = Option (Option (List ℕ) × Disk × Inode)

-- `min(n, BSIZE - off%BSIZE)`
abbrev pub in_block : ℕ → ℕ → ℕ
in_block off n = min n (bsize - off % bsize)

-- The loop of `readi` with `n` bytes to go, on fuel. Nothing wraps here, after the check of `off + n`.
unfoldable pub read_from : ℕ → Disk → Inode → ℕ → ℕ → Option (List ℕ × Disk × Inode)
read_from k d ip off zero = some ([], d, ip)
read_from zero d ip off (suc n) = none
read_from (suc k) d ip off (suc n) = do
  (b, d₁, ip₁) ← bmap d ip (off / bsize)
  let m = in_block off (suc n)
  (rest, d₂, ip₂) ← read_from k d₁ ip₁ (off + m) (suc n - m)
  some (bytes_from (get_byte (read d₁ b)) (off % bsize) m ++ rest, d₂, ip₂)

-- `off > ip->size || off + n < off`
abbrev pub is_outside : Inode → ℕ → ℕ → Bool
is_outside ip off n = ltb ip.size off || ltb ((off + n) % 0x1_0000_0000) off

-- `devsw` gives the device's `read`, if it has one.
unfoldable pub readi : (ℕ → Option (Disk → Inode → ℕ → Reading)) → Disk → Inode → ℕ → ℕ → Reading
unfolding read_from
readi devsw d ip off n =
    if ip.type == t_dev
    then if not (ltb ip.major ndev)
      then some (none, d, ip)
      else elim (devsw ip.major) [ none ↦ some (none, d, ip) | some dev_read ↦ dev_read d ip n ]
    else if is_outside ip off n
    then some (none, d, ip)
    else (do
      let n' = if ltb ip.size ((off + n) % 0x1_0000_0000) then ip.size - off else n
      (got, d', ip') ← read_from n' d ip off n'
      some (some got, d', ip'))

-- What `writei` does: the number of bytes written, where `none` is -1, and the new state.
abbrev pub Writing : Type 0
Writing = Option (Option ℕ × Disk × Inode)

-- The loop of `writei`.
unfoldable pub write_from : ℕ → Disk → Inode → (ℕ → ℕ) → ℕ → ℕ → Option (Disk × Inode)
write_from k d ip src off zero = some (d, ip)
write_from zero d ip src off (suc n) = none
write_from (suc k) d ip src off (suc n) = do
  (b, d₁, ip₁) ← bmap d ip (off / bsize)
  let m = in_block off (suc n)
  d₂ ← write d₁ b (copy_in (read d₁ b) (off % bsize) src m)
  write_from k d₂ ip₁ (λ i. src (m + i)) (off + m) (suc n - m)

unfoldable pub writei :
    (ℕ → Option (Disk → Inode → (ℕ → ℕ) → ℕ → Writing)) → Disk → Inode → (ℕ → ℕ) → ℕ → ℕ → Writing
unfolding write_from iupdate
writei devsw d ip src off n =
    if ip.type == t_dev
    then if not (ltb ip.major ndev) then some (none, d, ip) else elim (devsw ip.major) [
      | none ↦ some (none, d, ip)
      | some dev_write ↦ dev_write d ip src n
    ]
    else if is_outside ip off n
    then some (none, d, ip)
    else if ltb maxfile_bytes ((off + n) % 0x1_0000_0000)
    then some (none, d, ip)
    else (do
      (d', ip') ← write_from n d ip src off n
      if is_positive n && ltb ip'.size (off + n)
          then (do
            let ip'' = record ip' { size = off + n }
            d'' ← iupdate d' ip''
            some (some n, d'', ip''))
          else some (some n, d', ip'))
