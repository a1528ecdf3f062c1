-- ===== src/Ext2/Sample.antt =====
-- A small volume for the tests: one group of 63 blocks of 64 bytes, with an empty root directory.
use cute.Base.{ℕ, List, [], ◌∷◌, if◌then◌else◌, ◌==◌, get_or}
use cute.Ext2.Volume.{Volume, SuperBlock, GroupDesc, Inode, zero_inode, s_ifdir}

abbrev pub super_block : SuperBlock
super_block = record {
  inodes_count = 32;
  blocks_count = 64;
  free_blocks_count = 53;
  free_inodes_count = 21;
  first_data_block = 1;
  log_block_size = 0;
  log_fragment_size = 0;
  blocks_per_group = 63;
  inodes_per_group = 32;
  magic_signature = 61267;
  state = 1;
  revision_level = 1;
  first_inode = 11;
  inode_size = 128;
}

abbrev pub group : GroupDesc
group = record {
  block_bitmap = 3;
  inode_bitmap = 4;
  inode_table = 5;
  free_blocks = 53;
  free_inodes = 21;
  used_dirs = 1;
}

abbrev pub root_dir : Inode
root_dir = record zero_inode {
  mode = s_ifdir;
  size_low = 64;
  i512_blocks = 1;
  links_count = 2;
  blocks = λ i. if i == 0 then 10 else 0;
}

-- The entries "." and ".."
abbrev pub root_entries : List ℕ
root_entries =
    2 ∷ 0 ∷ 0 ∷ 0 ∷ 12 ∷ 0 ∷ 1 ∷ 2 ∷ 46 ∷ 0 ∷ 0 ∷ 0 ∷ 2 ∷ 0 ∷ 0 ∷ 0 ∷ 52 ∷ 0 ∷ 2 ∷ 2 ∷ 46 ∷ 46 ∷ []

abbrev pub image : ℕ → ℕ → ℕ
image b k =
    if b == 3
    then get_or (255 ∷ 3 ∷ []) k 0
    else if b == 4
    then get_or (255 ∷ 7 ∷ []) k 0
    else if b == 10
    then get_or root_entries k 0
    else 0

abbrev pub small_volume : Volume
small_volume = record {
  sb = super_block;
  bgd = λ i. group;
  inodes = λ i. if i == 2 then root_dir else zero_inode;
  block = image;
  block_size = 64;
  blockgroups_count = 1;
  last_blockgroup = 0;
}

-- The kernel's memory behind the buffers of a call
abbrev pub no_heap : ℕ → ℕ → ℕ
no_heap k i = 0
