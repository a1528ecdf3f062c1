-- ===== src/Ext2/Mount/Passed.antt =====
-- ext2/ext2.c: which ramdisks `ext2_init` mounts.
use cute.Ext2.Volume.{Volume}
