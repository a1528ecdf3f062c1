-- ===== src/Ext2.antt =====
-- The second extended file system on the ramdisk, ext2/ext2.c and include/ext2.h.
pub mod Volume
pub mod Groups
pub mod Content
pub mod Dirs
pub mod Entries
pub mod Names
pub mod Mount
pub mod Sample
mod Tests
