-- ===== src/Files.antt =====
-- ext2/file.c: the system calls on files of one process, over the file system of ext2/ext2.c and the
-- unrolled list of its descriptors. A path is the list of its bytes, less the null byte that ends it.
-- A `struct file *` is a number, and `files` holds what is stored there; the address that `kmalloc`
-- returns is an argument, and so is what the heap holds behind the buffers of a call.
pub mod Paths
pub mod Io
pub mod Open
mod Tests
pub mod Leaf
pub mod Descriptors
pub mod WriteRead
use cute.Base.{
  ℕ, zero, suc, ◌+◌, ◌-◌, ◌*◌, ◌/◌, ◌%◌, ◌^◌, Bool, true, false, not, ◌&&◌, ◌||◌, List, [], ◌∷◌,
  ltb, leb, ◌==◌, if◌then◌else◌, length, update, bit_and, Outcome, ok, panic, ◌>>=◌, ◌>>◌, assert,
}
use cute.Unrolled.{UnrolledHead, null, unrolled_insert, unrolled_lookup, unrolled_remove_key}
use cute.Ext2.Volume.{
  Volume, Inode, Ret, done, fail, Errno, enoent, ebadf, eexist, enotdir, eisdir, einval, espipe,
  eoverflow, ft_reg_file, s_ifreg, s_ifdir, s_ififo, s_ifsock, inode_get, is_type,
}
use cute.Ext2.Content.{file_read, file_write, file_truncate}
use cute.Ext2.Names.{name_i}
use cute.Ext2.Entries.{ext2_new_dir_entry, file_new, file_delete}
use cute.Files.Paths.{Flag, no_dir, ok_dir, path_parent_child, inode_mode_to_dir_entry_type}

-- `struct file`, less its lock
pub record File : Type 0 where
  pub inum : ℕ
  pub flags : ℕ
  pub offset : ℕ
  pub refcount : ℕ

-- What the calls use: the volume, the store of files, and the current process's two fields.
pub record Process : Type 0 where
  pub vol : Volume
  pub files : ℕ → File
  pub fdtable : UnrolledHead
  pub working_dir : ℕ

abbrev pub o_rdonly : ℕ
o_rdonly = 1

abbrev pub o_wronly : ℕ
o_wronly = 2

abbrev pub o_accmode : ℕ
o_accmode = 3

abbrev pub o_creat : ℕ
o_creat = 4

abbrev pub o_trunc : ℕ
o_trunc = 8

abbrev pub o_excl : ℕ
o_excl = 32

abbrev pub o_append : ℕ
o_append = 64

-- `(flags & flag) != 0`
abbrev pub has_flag : ℕ → ℕ → Bool
has_flag flags flag = not (bit_and flags flag == 0)

abbrev pub file_init : ℕ → ℕ → File
file_init inum flags = record { inum = inum; flags = flags; offset = 0; refcount = 1 }

abbrev pub set_vol : Process → Volume → Process
set_vol s v = record s { vol = v }

abbrev pub set_file : Process → ℕ → File → Process
set_file s file f = record s { files = update s.files file f }

-- What `fill_statbuf` stores in a `struct stat`
pub record Stat : Type 0 where
  pub st_ino : ℕ
  pub st_mode : ℕ
  pub st_nlink : ℕ
  pub st_uid : ℕ
  pub st_gid : ℕ
  pub st_size : ℕ
  pub st_atime : ℕ
  pub st_mtime : ℕ
  pub st_ctime : ℕ

pub fill_statbuf : Volume → ℕ → Outcome Stat
fill_statbuf v inum = do
  assert (ltb 0 inum)
  inode ← inode_get v inum
  ok (record {
    st_ino = inum;
    st_mode = inode.mode;
    st_nlink = inode.links_count;
    st_uid = inode.uid;
    st_gid = inode.gid_low;
    st_size = inode.size_low;
    st_atime = inode.atime;
    st_mtime = inode.mtime;
    st_ctime = inode.ctime;
  })

pub chdir_to : Process → Ret ℕ → Outcome (Process × Ret (Unit {0}))
chdir_to s (fail e) = ok (s, fail e)
chdir_to s (done inum) = do
  is_dir ← is_type s_ifdir s.vol inum
  if not is_dir
      then ok (s, fail enotdir)
      else (do assert (not (inum == 0)); ok (record s { working_dir = inum }, done tt))

pub sys_chdir : Process → List ℕ → Outcome (Process × Ret (Unit {0}))
unfolding chdir_to
sys_chdir s path = name_i s.vol s.working_dir path >>= chdir_to s

-- The call on an open descriptor: `next` with the file's address, or `ebadf` for one that is not open.
pub with_file :
    {A : Type 0} → Process → ℕ → (ℕ → Outcome (Process × Ret A)) → Outcome (Process × Ret A)
with_file s fd next =
    let file = unrolled_lookup s.fdtable fd in
    let rest = next file in if file == null then ok (s, fail ebadf) else rest

pub lseek_base : File → Inode → ℕ → Ret ℕ
lseek_base f inode whence =
    if whence == 0
    then done 0
    else if whence == 1
    then done f.offset
    else if whence == 2
    then done inode.size_low
    else fail einval

-- The new offset, unless the 64-bit sum wraps.
pub lseek_to : Process → ℕ → ℕ → Ret ℕ → Process × Ret ℕ
lseek_to s file offset (fail e) = (s, fail e)
lseek_to s file offset (done base) =
    let sum = (base + offset) % 2 ^ 64 in
    if ltb sum base
    then (s, fail eoverflow)
    else (set_file s file (record (s.files file) { offset = sum }), done sum)

pub lseek_file : Process → ℕ → ℕ → ℕ → Outcome (Process × Ret ℕ)
unfolding lseek_base lseek_to
lseek_file s offset whence file = do
  let f = s.files file
  assert (ltb 0 f.inum)
  fifo ← is_type s_ififo s.vol f.inum
  socket ← is_type s_ifsock s.vol f.inum
  inode ← inode_get s.vol f.inum
  if fifo || socket
      then ok (s, fail espipe)
      else ok (lseek_to s file offset (lseek_base f inode whence))

pub sys_lseek : Process → ℕ → ℕ → ℕ → Outcome (Process × Ret ℕ)
unfolding with_file lseek_file
sys_lseek s fd offset whence = with_file s fd (lseek_file s offset whence)
