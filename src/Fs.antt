-- ===== src/Fs.antt =====
-- fs.c: the file system, over the buffer cache and the log. `Bytes` is the layout of a block, `Disk`
-- reading and changing blocks, `Balloc` the block bitmap.
pub mod Bytes
pub mod Disk
pub mod Balloc
pub mod Inode
pub mod Content
pub mod Path
pub mod Dir
pub mod Namex
