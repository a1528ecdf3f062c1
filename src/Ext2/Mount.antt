-- ===== src/Ext2/Mount.antt =====
-- ext2/ext2.c: `ext2_init`, which mounts the volume on the ramdisk after its sanity checks.
pub mod Sound
mod Checked
pub mod Passed
use cute.Base.{
  ceil_div, ℕ, zero, suc, ◌+◌, ◌-◌, ◌*◌, ◌/◌, ◌%◌, ◌^◌, Bool, true, false, not, ◌&&◌, ◌||◌, Option,
  none, some, List, [], ◌∷◌, ltb, leb, ◌==◌, if◌then◌else◌, Outcome, ok, panic, ◌>>=◌, ◌>>◌, assert,
}
use cute.Ext2.Volume.{
  SuperBlock, GroupDesc, Volume, Ret, done, fail, root_inode, s_ifdir, inode_get, is_type,
}
use cute.Ext2.Names.{name_i}

-- `EXT2_MIN_FS_SIZE`
abbrev pub min_fs_size : ℕ
min_fs_size = 61440

abbrev pub superblock_magic : ℕ
superblock_magic = 61267

abbrev pub max_block_len : ℕ
max_block_len = 4096

-- `1024U << log`, as x86 shifts
abbrev pub block_len : ℕ → ℕ
block_len log = 1024 * 2 ^ (log % 32) % 2 ^ 32

-- The superblock's own checks, with the block size in bytes.
unfoldable pub superblock_checks : SuperBlock → ℕ → ℕ → Outcome (Unit {0})
superblock_checks sb block_size ramdisk_len = do
  assert (leb (sb.blocks_count * block_size) ramdisk_len)
  assert (sb.magic_signature == superblock_magic)
  assert (sb.revision_level == 1)
  assert (sb.state == 1)
  assert (sb.inode_size % 2 == 0)
  assert (leb sb.inode_size block_size)
  assert (block_size == block_len sb.log_fragment_size)
  assert (leb block_size max_block_len)
  assert (leb sb.blocks_per_group (block_size * 8))
  assert (leb sb.inodes_per_group (block_size * 8))
  assert (not (sb.blocks_per_group == 0))
  assert (not (sb.inodes_per_group == 0))

-- `isb.blockgroups_count` and `isb.last_blockgroup`
abbrev pub with_groups : Volume → Volume
with_groups v =
    let groups =
      ceil_div ((v.sb.blocks_count + 2 ^ 32 - v.sb.first_data_block) % 2 ^ 32)
        v.sb.blocks_per_group in
    record v { blockgroups_count = groups; last_blockgroup = (groups + (2 ^ 64 - 1)) % 2 ^ 64 }

-- The blocks of a group's inode table
abbrev pub inodetbl_blocks : Volume → ℕ
inodetbl_blocks v = ceil_div (v.sb.inodes_per_group * v.sb.inode_size % 2 ^ 32) v.block_size

abbrev pub group_first : Volume → ℕ → ℕ
group_first v i = (i * v.sb.blocks_per_group + v.sb.first_data_block) % 2 ^ 32

abbrev pub group_last : Volume → ℕ → ℕ
group_last v i =
    if i == v.last_blockgroup
    then (v.sb.blocks_count + (2 ^ 32 - 1)) % 2 ^ 32
    else (group_first v i + v.sb.blocks_per_group) - 1

-- `first <= block && block <= last`
abbrev pub in_group : Volume → ℕ → ℕ → Bool
in_group v i block = leb (group_first v i) block && leb block (group_last v i)

unfoldable pub group_checks : Volume → ℕ → Outcome (Unit {0})
group_checks v i = do
  assert (in_group v i (v.bgd i).block_bitmap)
  assert (in_group v i (v.bgd i).inode_bitmap)
  assert (in_group v i (v.bgd i).inode_table)
  assert (in_group v i (((v.bgd i).inode_table + inodetbl_blocks v + (2 ^ 64 - 1)) % 2 ^ 64))
  assert (leb (v.bgd i).free_blocks v.sb.blocks_per_group)
  assert (leb (v.bgd i).free_inodes v.sb.inodes_per_group)
  assert (leb (v.bgd i).used_dirs v.sb.inodes_per_group)

-- The loop over the groups, from `i` on.
unfoldable pub groups_checks : Volume → ℕ → ℕ → Outcome (Unit {0})
unfolding group_checks
groups_checks v zero i = ok tt
groups_checks v (suc n) i = group_checks v i >> groups_checks v n (suc i)

-- `name_i(path) != EXT2_ROOT_INODE`
unfoldable pub is_root : Ret ℕ → Bool
is_root (fail e) = false
is_root (done inum) = inum == root_inode

unfoldable pub root_checks : Volume → Outcome (Unit {0})
unfolding is_root
root_checks v = do
  root ← inode_get v root_inode
  is_dir ← is_type s_ifdir v root_inode
  assert is_dir
  assert (not (root.i512_blocks == 0 || root.size_low == 0))
  dot ← name_i v 0 (47 ∷ 46 ∷ [])
  assert (is_root dot)
  dot_dot ← name_i v 0 (47 ∷ 46 ∷ 46 ∷ [])
  assert (is_root dot_dot)

-- The checks of a ramdisk that is large enough, and the volume as `isb` describes it.
unfoldable pub mount : ℕ → Volume → Outcome Volume
unfolding superblock_checks groups_checks root_checks
mount ramdisk_len v = do
  let block_size = block_len v.sb.log_block_size
  superblock_checks v.sb block_size ramdisk_len
  let w = with_groups (record v { block_size = block_size })
  assert (not (ltb 1 w.blockgroups_count && ltb w.sb.blocks_count w.sb.blocks_per_group))
  assert (leb w.sb.inodes_per_group w.sb.inodes_count)
  groups_checks w w.blockgroups_count 0
  root_checks w
  ok w

-- What is printed is left out, the volume's label included. No ramdisk, or one that is too small, holds no volume; `v` holds the tables of the ramdisk's image.
unfoldable pub ext2_init : ℕ → Volume → Outcome (Option Volume)
unfolding mount
ext2_init ramdisk_len v =
    if ramdisk_len == 0 || ltb ramdisk_len min_fs_size
    then ok none
    else (do w ← mount ramdisk_len v; ok (some w))
