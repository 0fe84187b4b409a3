-- ===== src/Fs/Inode.antt =====
-- The inode cache of fs.c and the inodes on disk: iget, idup, ilock, iunlock, iput, iupdate, ialloc,
-- bmap, itrunc. An entry of `icache.inode` is named by its index, and `valid` and `busy` are the bits
-- of `flags`.
mod Defs
pub mod Cache
pub mod Layout
unfoldable pub use Defs.*
