-- ===== src/Ext2/Volume.antt =====
-- ext2/ext2.c and include/ext2.h: the volume, its inodes and the access to its blocks. The superblock,
-- the group descriptors and the inodes are tables of their own here, and a block is the table of its
-- bytes: on a sound volume no data block or bitmap lies over these structures. A `struct inode *` is
-- the inode's number. A negative result is an `Errno`.
use cute.Base.{
  ℕ, zero, suc, ◌+◌, ◌-◌, ◌/◌, ◌%◌, ◌^◌, Bool, not, ◌&&◌, List, [], ◌∷◌, ltb, leb, ◌==◌,
  if◌then◌else◌, length, update, bit_and, Outcome, ok, panic, ◌>>=◌,
}

-- The error numbers that the file system returns.
pub data Errno : Type 0 where
  enoent eio ebadf eexist enotdir eisdir einval efbig enospc espipe enametoolong eoverflow : Errno

-- A result, or a negative error number.
pub data Ret {ℓ} (A : Type ℓ) : Type ℓ where
  done : A → Ret A
  fail : Errno → Ret A

-- The constants of the format.
abbrev pub nr_direct_blks : ℕ
nr_direct_blks = 12

abbrev pub ino_indirect : ℕ
ino_indirect = 12

abbrev pub ino_doublein : ℕ
ino_doublein = 13

abbrev pub ino_triplein : ℕ
ino_triplein = 14

abbrev pub dir_entry_min : ℕ
dir_entry_min = 8

abbrev pub dir_entry_align : ℕ
dir_entry_align = 4

abbrev pub filename_max : ℕ
filename_max = 255

abbrev pub root_inode : ℕ
root_inode = 2

-- `sizeof(struct dir_entry)`
abbrev pub dir_entry_size : ℕ
dir_entry_size = 263

-- `enum file_type`, as it stands on disk
abbrev pub ft_reg_file : ℕ
ft_reg_file = 1

abbrev pub ft_dir : ℕ
ft_dir = 2

-- The file types of include/stat.h
abbrev pub s_ifmt : ℕ
s_ifmt = 61440

abbrev pub s_ifsock : ℕ
s_ifsock = 49152

abbrev pub s_iflnk : ℕ
s_iflnk = 40960

abbrev pub s_ifreg : ℕ
s_ifreg = 32768

abbrev pub s_ifblk : ℕ
s_ifblk = 24576

abbrev pub s_ifdir : ℕ
s_ifdir = 16384

abbrev pub s_ifchr : ℕ
s_ifchr = 8192

abbrev pub s_ififo : ℕ
s_ififo = 4096

-- `S_ISREG` and its kin
abbrev pub has_type : ℕ → ℕ → Bool
has_type type mode = bit_and mode s_ifmt == type

-- What the code reads of `union super_block`
pub record SuperBlock : Type 0 where
  pub inodes_count : ℕ
  pub blocks_count : ℕ
  pub free_blocks_count : ℕ
  pub free_inodes_count : ℕ
  pub first_data_block : ℕ
  pub log_block_size : ℕ
  pub log_fragment_size : ℕ
  pub blocks_per_group : ℕ
  pub inodes_per_group : ℕ
  pub magic_signature : ℕ
  pub state : ℕ
  pub revision_level : ℕ
  pub first_inode : ℕ
  pub inode_size : ℕ

-- `struct group_descriptor`
pub record GroupDesc : Type 0 where
  pub block_bitmap : ℕ
  pub inode_bitmap : ℕ
  pub inode_table : ℕ
  pub free_blocks : ℕ
  pub free_inodes : ℕ
  pub used_dirs : ℕ

-- What the code uses of `struct inode`
pub record Inode : Type 0 where
  pub mode : ℕ
  pub uid : ℕ
  pub size_low : ℕ
  pub atime : ℕ
  pub ctime : ℕ
  pub mtime : ℕ
  pub gid_low : ℕ
  pub links_count : ℕ
  pub i512_blocks : ℕ
  pub flags : ℕ
  pub blocks : ℕ → ℕ

-- `memset(inode, 0, sizeof(*inode))`
abbrev pub zero_inode : Inode
zero_inode = record {
  mode = 0;
  uid = 0;
  size_low = 0;
  atime = 0;
  ctime = 0;
  mtime = 0;
  gid_low = 0;
  links_count = 0;
  i512_blocks = 0;
  flags = 0;
  blocks = λ i. 0;
}

-- `isb` and the volume behind it
pub record Volume : Type 0 where
  pub sb : SuperBlock
  pub bgd : ℕ → GroupDesc
  pub inodes : ℕ → Inode
  pub block : ℕ → ℕ → ℕ
  pub block_size : ℕ
  pub blockgroups_count : ℕ
  pub last_blockgroup : ℕ

abbrev pub set_inode : Volume → ℕ → Inode → Volume
set_inode v inum inode = record v { inodes = update v.inodes inum inode }

-- The checks of `inode_get`
unfoldable pub inode_ok : Volume → ℕ → Bool
inode_ok v inum =
    not (inum == 0)
    && (ltb ((inum - 1) / v.sb.inodes_per_group) v.blockgroups_count && leb inum v.sb.inodes_count)

unfoldable pub inode_get : Volume → ℕ → Outcome Inode
unfolding inode_ok
inode_get v inum = if inode_ok v inum then ok (v.inodes inum) else panic

unfoldable pub is_type : ℕ → Volume → ℕ → Outcome Bool
unfolding inode_get
is_type type v inum = do inode ← inode_get v inum; ok (has_type type inode.mode)

-- `len` bytes of a block from an offset on
abbrev pub read_bytes : (ℕ → ℕ) → ℕ → ℕ → List ℕ
read_bytes bytes offset zero = []
read_bytes bytes offset (suc len) = bytes offset ∷ read_bytes bytes (suc offset) len

abbrev pub write_bytes : (ℕ → ℕ) → ℕ → List ℕ → ℕ → ℕ
write_bytes bytes offset [] = bytes
write_bytes bytes offset (b ∷ buf) = write_bytes (update bytes offset b) (suc offset) buf

-- The checks of `__block_read_write`; `uint` offsets and lengths.
unfoldable pub access_ok : Volume → ℕ → ℕ → ℕ → Bool
access_ok v block offset len =
    ltb block v.sb.blocks_count && leb ((offset + len) % 2 ^ 32) v.block_size

unfoldable pub block_read : Volume → ℕ → ℕ → ℕ → Outcome (List ℕ)
unfolding access_ok
block_read v block offset len =
    if access_ok v block offset len then ok (read_bytes (v.block block) offset len) else panic

unfoldable pub block_write : Volume → ℕ → List ℕ → ℕ → Outcome Volume
unfolding access_ok
block_write v block buf offset =
    if access_ok v block offset (length buf)
    then ok (record v { block = update v.block block (write_bytes (v.block block) offset buf) })
    else panic
