-- ===== src/Ext2/Groups.antt =====
-- ext2/ext2.c: the allocation of inodes and blocks in the groups of the volume, over the bitmaps of
-- lib/bitmap.c. A spinlock holds for the whole of each call.
pub mod Blocks
pub mod Freed
pub mod FreedInode
use cute.Base.{
  ℕ, zero, suc, ◌+◌, ◌-◌, ◌*◌, ◌/◌, ◌%◌, ◌^◌, Bool, not, ◌||◌, Option, none, some, List, [], ◌∷◌,
  ltb, leb, ◌==◌, if◌then◌else◌, update, bit_or, Outcome, ok, panic, ◌>>=◌, ◌>>◌, assert,
}
use cute.Bitmap.{bitmap_first_zero_bit, bitmap_set_bit, bitmap_clear_bit, bitmap_bit_is_set}
use cute.Ext2.Volume.{
  SuperBlock, GroupDesc, Inode, Volume, zero_inode, set_inode, inode_get, is_type, block_read,
  block_write, ft_reg_file, ft_dir, s_ifreg, s_ifdir, s_ifchr, s_ifblk, s_ififo, s_ifsock, s_iflnk,
}

abbrev pub set_sb : Volume → SuperBlock → Volume
set_sb v sb = record v { sb = sb }

abbrev pub set_group : Volume → ℕ → GroupDesc → Volume
set_group v i g = record v { bgd = update v.bgd i g }

unfoldable pub dir_entry_type_to_inode_mode : ℕ → Outcome ℕ
dir_entry_type_to_inode_mode type =
    if type == 1
    then ok s_ifreg
    else if type == 2
    then ok s_ifdir
    else if type == 3
    then ok s_ifchr
    else if type == 4
    then ok s_ifblk
    else if type == 5
    then ok s_ififo
    else if type == 6
    then ok s_ifsock
    else if type == 7
    then ok s_iflnk
    else panic

-- The mode of a new inode: its type, rw-rw-r--, and the x bits of a directory.
unfoldable pub new_mode : ℕ → Outcome ℕ
new_mode type = do
  mode ← dir_entry_type_to_inode_mode type
  let rw = bit_or (bit_or (bit_or mode 384) 48) 4
  ok (if type == ft_dir then bit_or rw 73 else rw)

-- The counters of group `i`, and those of the volume, with one inode less.
abbrev pub count_inode : Volume → ℕ → ℕ → Volume
count_inode v type i =
    let g = v.bgd i in
    let dirs = if type == ft_dir then (g.used_dirs + 1) % 2 ^ 16 else g.used_dirs in
    set_group (set_sb v (record v.sb { free_inodes_count = v.sb.free_inodes_count - 1 })) i
      (record g { free_inodes = g.free_inodes - 1; used_dirs = dirs })

-- The inode of the first clear bit of the group's bitmap `buf`, or what the later groups give.
unfoldable pub take_inode :
    Volume → ℕ → ℕ → List ℕ → Option ℕ → Outcome (Volume × ℕ) → Outcome (Volume × ℕ)
take_inode v type i buf none later = later
take_inode v type i buf (some bit) later = do
  let inum = (i * v.sb.inodes_per_group + bit + 1) % 2 ^ 32
  assert (leb v.sb.first_inode inum)
  assert (leb inum v.sb.inodes_count)
  assert (ltb 0 v.sb.free_inodes_count)
  assert (ltb 0 (v.bgd i).free_inodes)
  buf' ← bitmap_set_bit buf bit
  v' ← block_write (count_inode v type i) (v.bgd i).inode_bitmap buf' 0
  old ← inode_get v' inum
  mode ← new_mode type
  ok (
    set_inode v' inum
        (record zero_inode { mode = mode; atime = 61455; ctime = 61455; mtime = 61455 }),
    inum,
  )

-- The loop over the groups, from `i` on.
unfoldable pub inode_alloc_from : Volume → ℕ → ℕ → ℕ → Outcome (Volume × ℕ)
inode_alloc_from v type zero i = do assert (v.sb.free_inodes_count == 0); ok (v, 0)
inode_alloc_from v type (suc n) i =
    let later = inode_alloc_from v type n (suc i) in
    block_read v (v.bgd i).inode_bitmap 0 v.block_size >>= λ buf.
    take_inode v type i buf (bitmap_first_zero_bit buf) later

-- The volume afterwards and the inode's number, 0 where no inode is free.
unfoldable pub inode_alloc : Volume → ℕ → Outcome (Volume × ℕ)
inode_alloc v type = inode_alloc_from v type v.blockgroups_count 0

unfoldable pub inode_dealloc : Volume → ℕ → Outcome Volume
inode_dealloc v inum = do
  assert (not (inum == 0))
  assert (leb v.sb.first_inode inum)
  assert (leb inum v.sb.inodes_count)
  let group = (inum - 1) / v.sb.inodes_per_group
  let groupi = (inum - 1) % v.sb.inodes_per_group
  dir ← is_type s_ifdir v inum
  let g = v.bgd group
  let dirs = if dir then (g.used_dirs + (2 ^ 16 - 1)) % 2 ^ 16 else g.used_dirs
  let counted =
      set_group
        (set_sb v (record v.sb { free_inodes_count = (v.sb.free_inodes_count + 1) % 2 ^ 32 })) group
        (record g { free_inodes = (g.free_inodes + 1) % 2 ^ 16; used_dirs = dirs })
  buf ← block_read counted g.inode_bitmap 0 v.block_size
  used ← bitmap_bit_is_set buf groupi
  assert used
  buf' ← bitmap_clear_bit buf groupi
  v' ← block_write counted g.inode_bitmap buf' 0
  ok (set_inode v' inum zero_inode)

-- The first and the last block of group `i`.
abbrev pub first_blk : Volume → ℕ → ℕ
first_blk v i = (i * v.sb.blocks_per_group + v.sb.first_data_block) % 2 ^ 32

abbrev pub last_blk : Volume → ℕ → ℕ
last_blk v i =
    if not (i == v.last_blockgroup)
    then (first_blk v i + v.sb.blocks_per_group) - 1
    else (v.sb.blocks_count + (2 ^ 32 - 1)) % 2 ^ 32

abbrev pub count_block : Volume → ℕ → Volume
count_block v i =
    let g = v.bgd i in
    set_group (set_sb v (record v.sb { free_blocks_count = v.sb.free_blocks_count - 1 })) i
      (record g { free_blocks = g.free_blocks - 1 })

-- The block of the first clear bit of the group's bitmap `buf`, or what the later groups give.
unfoldable pub take_block :
    Volume → ℕ → List ℕ → Option ℕ → Outcome (Volume × ℕ) → Outcome (Volume × ℕ)
take_block v i buf none later = later
take_block v i buf (some bit) later = do
  let block = first_blk v i + bit
  assert (leb block (last_blk v i))
  assert (ltb 0 v.sb.free_blocks_count)
  assert (ltb 0 (v.bgd i).free_blocks)
  buf' ← bitmap_set_bit buf bit
  v' ← block_write (count_block v i) (v.bgd i).block_bitmap buf' 0
  ok (v', block)

unfoldable pub block_alloc_from : Volume → ℕ → ℕ → Outcome (Volume × ℕ)
block_alloc_from v zero i = do assert (v.sb.free_blocks_count == 0); ok (v, 0)
block_alloc_from v (suc n) i =
    let later = block_alloc_from v n (suc i) in
    block_read v (v.bgd i).block_bitmap 0 v.block_size >>= λ buf.
    take_block v i buf (bitmap_first_zero_bit buf) later

-- The volume afterwards and the block, 0 where no block is free.
unfoldable pub block_alloc : Volume → Outcome (Volume × ℕ)
block_alloc v = block_alloc_from v v.blockgroups_count 0

unfoldable pub block_dealloc : Volume → ℕ → Outcome Volume
block_dealloc v block = do
  assert (leb v.sb.first_data_block block)
  assert (ltb block v.sb.blocks_count)
  let group = (block - v.sb.first_data_block) / v.sb.blocks_per_group
  let groupi = (block - v.sb.first_data_block) % v.sb.blocks_per_group
  let g = v.bgd group
  let free = (v.sb.free_blocks_count + 1) % 2 ^ 32
  assert (leb free v.sb.blocks_count)
  let counted =
      set_group (set_sb v (record v.sb { free_blocks_count = free })) group
        (record g { free_blocks = (g.free_blocks + 1) % 2 ^ 16 })
  buf ← block_read counted g.block_bitmap 0 v.block_size
  used ← bitmap_bit_is_set buf groupi
  assert used
  buf' ← bitmap_clear_bit buf groupi
  block_write counted g.block_bitmap buf' 0
