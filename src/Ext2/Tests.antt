-- ===== src/Ext2/Tests.antt =====
-- ext2/ext2.c on a small volume: one group of 63 blocks of 64 bytes, with an empty root directory.
use cute.Base.{
  ℕ, zero, suc, ◌/◌, ◌%◌, ◌<◌, ◌≡◌, refl, Bool, true, ◌&&◌, some, List, [], ◌∷◌, ◌++◌,
  if◌then◌else◌, ◌==◌, ltb, get_or, take, drop, Outcome, ok, ◌>>=◌, Returns, arith,
}
use cute.Ext2.Volume.{
  Volume, Ret, done, fail, enoent, enotdir, zero_inode, inode_ok, inode_get, is_type, access_ok,
  block_read, block_write,
}
use cute.Ext2.Groups.{
  dir_entry_type_to_inode_mode, new_mode, take_inode, inode_alloc_from, inode_alloc, inode_dealloc,
  take_block, block_alloc_from, block_alloc, block_dealloc,
}
use cute.Ext2.Content.{
  read_size, read_loop, file_read, map_block, write_turn, write_loop, file_write, words,
  dealloc_each, indirect_block_dealloc, truncate_direct, truncate_tree, file_truncate,
}
use cute.Ext2.Dirs.{dir_entry_valid, find_entry, find_loop, find_dir_entry}
use cute.Ext2.Entries.{
  unlink_inode, delete_written, delete_found, file_delete, last_entry, last_loop, trim_last,
  fill_block, entry_done, entry_zeroes, append_entry, place_entry, unless_found, ext2_new_dir_entry,
  or_dealloc, dot_entries, file_new,
}
use cute.Ext2.Names.{skip_slashes, scan, at_end, enter, name_step, component, name_loop, name_i}
use cute.Ext2.Content.Bytes.{Mapped}
use cute.Ext2.Content.Written.{Written}
use cute.Ext2.Content.RoundTrip.{file_write-Written}
use cute.Ext2.Groups.Blocks.{BlocksAreCounted, BlockAllocated, block_alloc-BlockAllocated}
use cute.Ext2.Groups.Freed.{IsInUse, FreedAt, block_dealloc-FreedAt}
use cute.Ext2.Groups.FreedInode.{InodeIsInUse, InodeFreedAt, inode_dealloc-InodeFreedAt}
use cute.Ext2.Dirs.Search.{Search, find_dir_entry-Search}
use cute.Ext2.Names.Pieces.{resolve}
use cute.Ext2.Names.Resolve.{name_i-resolve}
use cute.Ext2.Mount.{
  with_groups, superblock_checks, group_checks, groups_checks, is_root, root_checks, mount,
  ext2_init,
}
use cute.Ext2.Sample.{super_block, group, root_dir, root_entries, image, small_volume, no_heap}
use cute.Bitmap.Update.{bit_at}
use cute.Strings.{memcmp}
use cute.Bitmap.{
  bit_is_set, bit_is_clear, search_byte, search_bytes, search_function, set_offsets,
  bitmap_first_zero_bit, bitmap_set_bit, bitmap_clear_bit, bitmap_bit_is_set,
}

abbrev ab : List ℕ
ab = 97 ∷ 98 ∷ []

abbrev slash_ab : List ℕ
slash_ab = 47 ∷ ab

-- "/ab" of a type, created, and looked up.
abbrev created : ℕ → Outcome (Volume × Ret ℕ)
created type = file_new no_heap small_volume 2 ab type

abbrev found : ℕ → List ℕ → Outcome (Ret ℕ)
found type path = created type >>= λ r. name_i (r.0) 2 path

-- "/ab" created, deleted and looked up.
abbrev deleted : Outcome (Ret ℕ)
deleted = created 1 >>= λ r. file_delete no_heap (r.0) 2 ab >>= λ d. name_i (d.0) 2 slash_ab

-- Some bytes written into the new file, across blocks, and read.
abbrev written : List ℕ → ℕ → Outcome (List ℕ)
written buf offset = created 1 >>= λ r.
    file_write (r.0) 12 buf offset >>= λ w. file_read (w.0) ((w.0).inodes 12) offset 100

-- A new file and a new directory are found, a file is no directory, bytes are read as they were written,
-- and a deleted file is not found.
small_volume_runs :
    (found 1 slash_ab ≡ ok (done 12))
    × (found 2 (slash_ab ++ 47 ∷ 46 ∷ 46 ∷ []) ≡ ok (done 2))
    × (found 1 (slash_ab ++ 47 ∷ 46 ∷ []) ≡ ok (fail enotdir))
    × (written (1 ∷ 2 ∷ 3 ∷ 4 ∷ []) 62 ≡ ok (1 ∷ 2 ∷ 3 ∷ 4 ∷ []))
    × (deleted ≡ ok (fail enoent))
unfolding file_new inode_alloc inode_alloc_from take_inode new_mode dir_entry_type_to_inode_mode
    ext2_new_dir_entry unless_found place_entry trim_last fill_block append_entry entry_zeroes
    entry_done last_loop last_entry or_dealloc dot_entries name_i name_loop enter skip_slashes
    component scan at_end name_step find_dir_entry find_loop find_entry dir_entry_valid file_read
    read_size read_loop file_write write_loop write_turn map_block block_read block_write access_ok
    inode_get inode_ok is_type memcmp bitmap_first_zero_bit bitmap_set_bit block_alloc
    block_alloc_from take_block file_delete delete_found delete_written unlink_inode file_truncate
    truncate_direct truncate_tree indirect_block_dealloc dealloc_each words block_dealloc
    inode_dealloc bit_is_set bit_is_clear search_byte search_bytes search_function set_offsets
    bitmap_clear_bit bitmap_bit_is_set
small_volume_runs = (refl, refl, refl, refl, refl)

root_Mapped : Mapped small_volume root_dir.blocks 1
root_Mapped = record {
  size_pos = omega arith;
  size_small = omega arith;
  direct = omega arith;
  in_range = λ i h. ground arith;
  nonzero = λ i h. ground arith;
  distinct = λ i j h k ne. absurd (ne (omega arith));
}

file_write-Written_example :
    Returns
      (λ r.
        (r.1 ≡ done 3)
        × Written small_volume (r.0) 2 root_dir.blocks 1 30 (7 ∷ 8 ∷ 9 ∷ [])
        × (file_read (r.0) ((r.0).inodes 2) 30 3 ≡ ok (7 ∷ 8 ∷ 9 ∷ [])))
      (file_write small_volume 2 (7 ∷ 8 ∷ 9 ∷ []) 30)
file_write-Written_example =
    file_write-Written small_volume 2 1 30 (7 ∷ 8 ∷ 9 ∷ []) refl root_Mapped (omega arith)
      (omega arith)

name_i-resolve_example :
    name_i small_volume 2 (47 ∷ 46 ∷ []) ≡ resolve small_volume (47 ∷ 46 ∷ []) 2
name_i-resolve_example = name_i-resolve small_volume 2 47 (46 ∷ [])

-- A list of bytes, as a test.
all_bytes : List ℕ → Bool
all_bytes [] = true
all_bytes (b ∷ bytes) = ltb b 256 && all_bytes bytes

get_or-all_bytes :
    (bytes : List ℕ) (k d : ℕ) → all_bytes bytes ≡ true → d < 256 → get_or bytes k d < 256
unfolding all_bytes
get_or-all_bytes [] k d h e = e
get_or-all_bytes (b ∷ bytes) zero d h e = ground arith
get_or-all_bytes (b ∷ bytes) (suc k) d h e =
    let tail : all_bytes bytes ≡ true = ground arith in get_or-all_bytes bytes k d tail e

image_bytes : (b k : ℕ) → image b k < 256
unfolding all_bytes
image_bytes b k = ground (
  arith,
  get_or-all_bytes (255 ∷ 3 ∷ []) k 0 refl (omega arith),
  get_or-all_bytes (255 ∷ 7 ∷ []) k 0 refl (omega arith),
  get_or-all_bytes root_entries k 0 refl (omega arith),
)

find_dir_entry-Search_example :
    Returns
      (Search small_volume root_dir (46 ∷ 46 ∷ []) 0)
      (find_dir_entry small_volume 2 (46 ∷ 46 ∷ []))
unfolding inode_ok
find_dir_entry-Search_example =
    find_dir_entry-Search small_volume 2 1 (46 ∷ 46 ∷ []) refl refl root_Mapped (omega arith)
      (λ k. image_bytes (root_dir.blocks (k / 64)) (k % 64)) (omega arith, (omega arith, tt))
      (omega arith) (omega arith)

-- A volume of one group of eight blocks, of one byte each: blocks 1 and 2 are in use.
abbrev eight_blocks : Volume
eight_blocks = record small_volume {
  sb = record super_block { blocks_count = 9; free_blocks_count = 6; blocks_per_group = 8 };
  bgd = λ i. record group { block_bitmap = 1; free_blocks = 6 };
  block = λ b k. if b == 1 then 3 else 0;
  block_size = 1;
}

eight_blocks-BlocksAreCounted : BlocksAreCounted eight_blocks
unfolding bit_is_set
eight_blocks-BlocksAreCounted = record {
  size_small = omega arith;
  bytes = λ b k. ground arith;
  bitmap_in_range = λ i h. omega arith;
  clear_bits = λ i k h j c.
      (let first : i ≡ 0 = omega arith in rw first (omega arith), omega arith, omega arith);
  all_set =
      λ h. absurd (let no : bit_at (3 ∷ []) 2 ≡ true = h 0 2 (omega arith) (omega arith) in cc);
}

block_alloc-BlockAllocated_example :
    Returns (BlockAllocated eight_blocks) (block_alloc eight_blocks)
block_alloc-BlockAllocated_example =
    block_alloc-BlockAllocated eight_blocks eight_blocks-BlocksAreCounted

block_2-IsInUse : IsInUse eight_blocks 0 1
unfolding bit_is_set
block_2-IsInUse = record {
  size_small = omega arith;
  bytes = λ b n. ground arith;
  bitmap_in_range = omega arith;
  in_its_group = omega arith;
  in_bitmap = omega arith;
  in_volume = omega arith;
  set = refl;
  count_fits = omega arith;
  count_small = omega arith;
  group_count_small = omega arith;
}

block_dealloc-FreedAt_example :
    Returns (λ w. FreedAt eight_blocks w 0 1) (block_dealloc eight_blocks 2)
block_dealloc-FreedAt_example = block_dealloc-FreedAt eight_blocks 0 1 block_2-IsInUse

-- Blocks of two bytes, in which the inodes 1 to 11 are in use and directories.
abbrev eleven_inodes : Volume
eleven_inodes = record small_volume {
  inodes = λ i. root_dir;
  block = λ b k. if b == 4 then (if k == 0 then 255 else 7) else 0;
  block_size = 2;
}

inode_11-InodeIsInUse : InodeIsInUse eleven_inodes 0 10
unfolding bit_is_set
inode_11-InodeIsInUse = record {
  size_small = omega arith;
  bytes = λ b n. ground arith;
  group_in = omega arith;
  bitmap_in_range = omega arith;
  in_its_group = omega arith;
  in_bitmap = omega arith;
  not_reserved = omega arith;
  in_volume = omega arith;
  set = refl;
  count_fits = omega arith;
  group_count_fits = omega arith;
  dirs_small = omega arith;
  dirs_counted = λ h. omega arith;
}

inode_dealloc-InodeFreedAt_example :
    Returns (λ w. InodeFreedAt eleven_inodes w 0 10) (inode_dealloc eleven_inodes 11)
inode_dealloc-InodeFreedAt_example =
    inode_dealloc-InodeFreedAt eleven_inodes 0 10 inode_11-InodeIsInUse

-- An image of 60 blocks of 1 KB, with the same root directory.
abbrev disk : Volume
disk = record small_volume {
  sb = record super_block { blocks_count = 60; blocks_per_group = 8192 };
  inodes = λ i. if i == 2 then record root_dir { size_low = 1024 } else zero_inode;
  block = λ b k.
      if b == 10 then get_or (take 16 root_entries ++ 244 ∷ 3 ∷ drop 18 root_entries) k 0 else 0;
}

abbrev mounted : Volume
mounted = with_groups (record disk { block_size = 1024 })

mounts : ext2_init 61440 disk ≡ ok (some mounted)
unfolding ext2_init mount superblock_checks groups_checks group_checks root_checks is_root name_i
    name_loop enter skip_slashes component scan at_end name_step find_dir_entry find_loop find_entry
    dir_entry_valid file_read read_size read_loop block_read access_ok inode_get inode_ok is_type
    memcmp
mounts = refl
