-- ===== src/Files/Io.antt =====
-- ext2/file.c: `sys_read`, `sys_write`, `sys_close`, `sys_fstat`, `sys_stat`, `sys_unlink` and `sys_link`.
use cute.Base.{
  ℕ, ◌+◌, ◌-◌, not, List, ltb, leb, if◌then◌else◌, length, Outcome, ok, panic, ◌>>=◌, ◌>>◌, assert,
}
use cute.Unrolled.{unrolled_remove_key}
use cute.Ext2.Volume.{Volume, Ret, done, fail, ebadf, eisdir, s_ifreg, s_ifdir, inode_get, is_type}
use cute.Ext2.Content.{file_read, file_write}
use cute.Ext2.Names.{name_i}
use cute.Ext2.Entries.{ext2_new_dir_entry, file_delete}
use cute.Files.{
  File, Process, Stat, o_rdonly, o_wronly, has_flag, set_vol, set_file, fill_statbuf, with_file,
}
use cute.Files.Paths.{no_dir, ok_dir, path_parent_child, inode_mode_to_dir_entry_type}

-- The checks that reads and writes share, `access` being the flag that the file must be open with.
unfoldable pub rw_checks :
    {A : Type 0} → Process → ℕ → File → Outcome (Process × Ret A) → Outcome (Process × Ret A)
rw_checks s access f next =
    let checked = (do
      assert (ltb 0 f.inum)
      dir ← is_type s_ifdir s.vol f.inum
      regular ← is_type s_ifreg s.vol f.inum
      let regular_only = if not regular then ok (s, fail ebadf) else next
      if dir then ok (s, fail eisdir) else regular_only) in
    if not (has_flag f.flags access) then ok (s, fail ebadf) else checked

unfoldable pub advance : Process → ℕ → ℕ → Process
advance s file n = set_file s file (record (s.files file) { offset = (s.files file).offset + n })

unfoldable pub read_file : Process → ℕ → ℕ → Outcome (Process × Ret (List ℕ))
unfolding advance
read_file s count file = do
  let f = s.files file
  inode ← inode_get s.vol f.inum
  bytes ← file_read s.vol inode f.offset count
  assert (leb (f.offset + length bytes) inode.size_low)
  ok (advance s file (length bytes), done bytes)

-- The bytes read
unfoldable pub sys_read : Process → ℕ → ℕ → Outcome (Process × Ret (List ℕ))
unfolding with_file rw_checks read_file
sys_read s fd count =
    with_file s fd (λ file. rw_checks s o_rdonly (s.files file) (read_file s count file))

unfoldable pub write_done : Process → ℕ → Volume × Ret ℕ → Outcome (Process × Ret ℕ)
unfolding advance
write_done s file (v, fail e) = ok (set_vol s v, fail e)
write_done s file (v, done n) = do
  assert (leb ((s.files file).offset + n) (v.inodes (s.files file).inum).size_low)
  ok (advance (set_vol s v) file n, done n)

unfoldable pub write_file : Process → List ℕ → ℕ → Outcome (Process × Ret ℕ)
unfolding write_done
write_file s buf file = do
  inode ← inode_get s.vol (s.files file).inum
  written ← file_write s.vol (s.files file).inum buf (s.files file).offset
  write_done s file written

-- The number of bytes written
unfoldable pub sys_write : Process → ℕ → List ℕ → Outcome (Process × Ret ℕ)
unfolding with_file rw_checks write_file
sys_write s fd buf =
    with_file s fd (λ file. rw_checks s o_wronly (s.files file) (write_file s buf file))

-- One reference less, and the descriptor removed; what `kfree` does to the file is not modelled.
unfoldable pub close_file : Process → ℕ → ℕ → Outcome (Process × Ret (Unit {0}))
close_file s fd file = do
  assert (ltb 0 (s.files file).refcount)
  let closed = set_file s file (record (s.files file) { refcount = (s.files file).refcount - 1 })
  table ← unrolled_remove_key s.fdtable fd
  ok (record closed { fdtable = table }, done tt)

unfoldable pub sys_close : Process → ℕ → Outcome (Process × Ret (Unit {0}))
unfolding with_file close_file
sys_close s fd = with_file s fd (close_file s fd)

unfoldable pub sys_fstat : Process → ℕ → Outcome (Process × Ret Stat)
unfolding with_file fill_statbuf
sys_fstat s fd =
    with_file s fd (λ file. do buf ← fill_statbuf s.vol (s.files file).inum; ok (s, done buf))

-- `inum` is unsigned, so `inum < 0` never holds: a negative error number is an inode that is not there.
unfoldable pub stat_of : Volume → Ret ℕ → Outcome Stat
unfolding fill_statbuf
stat_of v (fail e) = panic
stat_of v (done inum) = fill_statbuf v inum

unfoldable pub sys_stat : Process → List ℕ → Outcome Stat
unfolding stat_of
sys_stat s path = name_i s.vol s.working_dir path >>= stat_of s.vol

unfoldable pub with_vol : {A : Type 0} → Process → Volume × Ret A → Process × Ret A
with_vol s (v, r) = (set_vol s v, r)

unfoldable pub unlink_child :
    (ℕ → ℕ → ℕ) → Process → Ret (ℕ × List ℕ) → Outcome (Process × Ret (Unit {0}))
unfolding with_vol
unlink_child heap s (fail e) = ok (s, fail e)
unlink_child heap s (done (parent, child)) = do
  deleted ← file_delete heap s.vol parent child
  ok (with_vol s deleted)

unfoldable pub sys_unlink : (ℕ → ℕ → ℕ) → Process → List ℕ → Outcome (Process × Ret (Unit {0}))
unfolding unlink_child
sys_unlink heap s path = path_parent_child s.vol s.working_dir path no_dir >>= unlink_child heap s

unfoldable pub link_inode :
    (ℕ → ℕ → ℕ) → Process → ℕ → List ℕ → Ret ℕ → Outcome (Process × Ret (Unit {0}))
unfolding with_vol
link_inode heap s parent child (fail e) = ok (s, fail e)
link_inode heap s parent child (done inum) = do
  inode ← inode_get s.vol inum
  type ← inode_mode_to_dir_entry_type inode.mode
  linked ← ext2_new_dir_entry heap s.vol parent inum child type
  ok (with_vol s linked)

unfoldable pub link_child :
    (ℕ → ℕ → ℕ) → Process → List ℕ → Ret (ℕ × List ℕ) → Outcome (Process × Ret (Unit {0}))
unfolding link_inode
link_child heap s oldpath (fail e) = ok (s, fail e)
link_child heap s oldpath (done (parent, child)) =
    name_i s.vol s.working_dir oldpath >>= link_inode heap s parent child

unfoldable pub sys_link :
    (ℕ → ℕ → ℕ) → Process → List ℕ → List ℕ → Outcome (Process × Ret (Unit {0}))
unfolding link_child
sys_link heap s oldpath newpath =
    path_parent_child s.vol s.working_dir newpath ok_dir >>= link_child heap s oldpath
