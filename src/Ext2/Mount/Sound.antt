-- ===== src/Ext2/Mount/Sound.antt =====
-- ext2/ext2.c: what makes a volume sound, as `ext2_init` checks it.
use cute.Base.{ℕ, ◌+◌, ◌-◌, ◌*◌, ◌%◌, ◌^◌, ◌≤◌, ◌<◌, ◌≡◌, ◌⊎◌, ◌≢◌, true, [], ◌∷◌, ok}
use cute.Ext2.Volume.{Volume, SuperBlock, done, root_inode, s_ifdir, has_type, inode_ok}
use cute.Ext2.Names.{name_i}
use cute.Ext2.Mount.{block_len, inodetbl_blocks, with_groups, group_first, group_last}

-- The last block of the inode table of a group, as a word of 64 bits
abbrev pub table_end : Volume → ℕ → ℕ
table_end v i = ((v.bgd i).inode_table + inodetbl_blocks v + (2 ^ 64 - 1)) % 2 ^ 64

-- The bitmaps and the whole inode table of a group lie in the group, and its counters within its bounds.
pub record GroupIsSound (v : Volume) (i : ℕ) : Type 0 where
  pub block_bitmap_in :
      (group_first v i ≤ (v.bgd i).block_bitmap) × ((v.bgd i).block_bitmap ≤ group_last v i)
  pub inode_bitmap_in :
      (group_first v i ≤ (v.bgd i).inode_bitmap) × ((v.bgd i).inode_bitmap ≤ group_last v i)
  pub inode_table_in :
      (group_first v i ≤ (v.bgd i).inode_table) × ((v.bgd i).inode_table ≤ group_last v i)
  pub table_end_in : (group_first v i ≤ table_end v i) × (table_end v i ≤ group_last v i)
  pub free_blocks_le : (v.bgd i).free_blocks ≤ v.sb.blocks_per_group
  pub free_inodes_le : (v.bgd i).free_inodes ≤ v.sb.inodes_per_group
  pub used_dirs_le : (v.bgd i).used_dirs ≤ v.sb.inodes_per_group

-- The superblock is that of a clean ext2 volume of revision 1 within `len` bytes, with blocks of `size`
-- bytes.
pub record SuperBlockIsSound (sb : SuperBlock) (size len : ℕ) : Type 0 where
  pub in_ramdisk : sb.blocks_count * size ≤ len
  pub magic : sb.magic_signature ≡ 61267
  pub revision : sb.revision_level ≡ 1
  pub clean : sb.state ≡ 1
  pub inode_size_even : sb.inode_size % 2 ≡ 0
  pub inode_size_le : sb.inode_size ≤ size
  pub fragments : size ≡ block_len sb.log_fragment_size
  pub block_size_small : size ≤ 4096
  pub blocks_fit : sb.blocks_per_group ≤ size * 8
  pub inodes_fit : sb.inodes_per_group ≤ size * 8
  pub blocks_per_group_pos : sb.blocks_per_group ≢ 0
  pub inodes_per_group_pos : sb.inodes_per_group ≢ 0

-- The root is a directory with content, and its two entries name it.
pub record RootIsSound (v : Volume) : Type 0 where
  pub found : inode_ok v root_inode ≡ true
  pub directory : has_type s_ifdir (v.inodes root_inode).mode ≡ true
  pub content : (v.inodes root_inode).i512_blocks ≢ 0
  pub size : (v.inodes root_inode).size_low ≢ 0
  pub dot : name_i v 0 (47 ∷ 46 ∷ []) ≡ ok (done root_inode)
  pub dot_dot : name_i v 0 (47 ∷ 46 ∷ 46 ∷ []) ≡ ok (done root_inode)

-- A volume that the other operations can work on.
pub record IsMounted (ramdisk_len : ℕ) (v : Volume) : Type 0 where
  pub superblock : SuperBlockIsSound v.sb v.block_size ramdisk_len
  pub group_size : (v.blockgroups_count ≤ 1) ⊎ (v.sb.blocks_per_group ≤ v.sb.blocks_count)
  pub inodes_in_group : v.sb.inodes_per_group ≤ v.sb.inodes_count
  pub groups : (i : ℕ) → i < v.blockgroups_count → GroupIsSound v i
  pub root : RootIsSound v

-- The volume with what `isb` keeps of its superblock.
abbrev pub described : Volume → Volume
described v = with_groups (record v { block_size = block_len v.sb.log_block_size })
