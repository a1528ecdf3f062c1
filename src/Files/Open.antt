-- ===== src/Files/Open.antt =====
-- ext2/file.c: `sys_open` and `sys_creat`. `file` is the address that `kmalloc` returns for the file.
use cute.Base.{
  ℕ, ◌^◌, Bool, false, not, ◌&&◌, ◌||◌, List, ltb, if◌then◌else◌, Outcome, ok, ◌>>=◌, ◌>>◌, assert,
}
use cute.Unrolled.{unrolled_insert}
use cute.Ext2.Volume.{
  Volume, Ret, done, fail, enoent, eexist, eisdir, einval, ft_reg_file, s_ifdir, is_type,
}
use cute.Ext2.Content.{file_truncate}
use cute.Ext2.Names.{name_i}
use cute.Ext2.Entries.{file_new}
use cute.Files.{
  Process, o_wronly, o_accmode, o_creat, o_trunc, o_excl, o_append, has_flag, file_init, set_vol,
  set_file, sys_lseek,
}
use cute.Files.Paths.{no_dir, path_parent_child}

-- The access mode is missing, or the flags contradict one another.
unfoldable pub bad_flags : ℕ → Bool
bad_flags flags =
    not (has_flag flags o_accmode)
    || (has_flag flags o_trunc && (has_flag flags o_append || not (has_flag flags o_wronly)))

-- The new file in the parent that was found.
unfoldable pub create_child : (ℕ → ℕ → ℕ) → Volume → Ret (ℕ × List ℕ) → Outcome (Volume × Ret ℕ)
create_child heap v (fail e) = ok (v, fail e)
create_child heap v (done (parent, child)) = file_new heap v parent child ft_reg_file

-- What `O_CREAT` and `O_EXCL` make of the search for the path.
unfoldable pub open_inode : (ℕ → ℕ → ℕ) → Process → List ℕ → ℕ → Ret ℕ → Outcome (Volume × Ret ℕ)
unfolding create_child
open_inode heap s path flags (done inum) =
    if has_flag flags o_creat && (ltb 0 inum && has_flag flags o_excl)
    then ok (s.vol, fail eexist)
    else ok (s.vol, done inum)
open_inode heap s path flags (fail enoent) =
    let created = path_parent_child s.vol s.working_dir path no_dir >>= create_child heap s.vol in
    if has_flag flags o_creat then created else ok (s.vol, fail enoent)
open_inode heap s path flags (fail e) = ok (s.vol, fail e)

-- `assert(sys_lseek(fd, 0, SEEK_END) > 0)`
unfoldable pub is_positive : Ret ℕ → Bool
is_positive (fail e) = false
is_positive (done n) = ltb 0 n && ltb n (2 ^ 63)

unfoldable pub seek_end : Process → ℕ → Outcome Process
unfolding is_positive
seek_end s fd = do (s', offset) ← sys_lseek s fd 0 2; assert (is_positive offset); ok s'

unfoldable pub truncated : Process → ℕ → Outcome Process
truncated s inum = do v ← file_truncate s.vol inum; ok (set_vol s v)

-- The file's structure, its descriptor, and what `O_TRUNC` and `O_APPEND` ask for.
unfoldable pub open_file : ℕ → Process → ℕ → ℕ → Outcome (Process × Ret ℕ)
unfolding truncated seek_end
open_file file s inum flags = do
  (table, fd) ← unrolled_insert s.fdtable file
  let s1 = record (set_file s file (file_init inum flags)) { fdtable = table }
  s2 ← (if has_flag flags o_trunc then truncated s1 inum else ok s1)
  s3 ← (if has_flag flags o_append then seek_end s2 fd else ok s2)
  ok (s3, done fd)

unfoldable pub open_found : ℕ → ℕ → Process → Volume × Ret ℕ → Outcome (Process × Ret ℕ)
unfolding open_file
open_found file flags s (v, fail e) = ok (set_vol s v, fail e)
open_found file flags s (v, done inum) = do
  dir ← is_type s_ifdir v inum
  let opened = open_file file (set_vol s v) inum flags
  if dir then ok (set_vol s v, fail eisdir) else opened

unfoldable pub sys_open : (ℕ → ℕ → ℕ) → ℕ → Process → List ℕ → ℕ → Outcome (Process × Ret ℕ)
unfolding bad_flags open_inode open_found
sys_open heap file s path flags =
    let search = name_i s.vol s.working_dir path >>= open_inode heap s path flags in
    let opened = search >>= open_found file flags s in
    if bad_flags flags then ok (s, fail einval) else opened

unfoldable pub sys_creat : (ℕ → ℕ → ℕ) → ℕ → Process → List ℕ → Outcome (Process × Ret ℕ)
unfolding sys_open
sys_creat heap file s path = sys_open heap file s path 14
