-- ===== src/Ext2/Entries.antt =====
-- ext2/ext2.c: the changes of directories, `ext2_new_dir_entry`, `file_new` and `file_delete`. `heap k`
-- is what the kernel's memory holds in and behind the `k`-th buffer of a call, where the call did not
-- write it. A name is the list of its bytes, less the null byte that ends it.
use cute.Base.{
  ℕ, zero, suc, ◌+◌, ◌-◌, ◌%◌, ◌^◌, not, ◌||◌, List, [], ◌∷◌, ◌++◌, ltb, leb, ◌==◌, if◌then◌else◌,
  length, drop, replicate, Outcome, ok, panic, ◌>>=◌, ◌>>◌, assert,
}
use cute.Ext2.Volume.{
  Volume, Inode, Ret, done, fail, enoent, eio, eexist, enametoolong, enospc, dir_entry_size,
  filename_max, ft_reg_file, ft_dir, s_ifdir, set_inode, inode_get, is_type,
}
use cute.Ext2.Groups.{inode_alloc, inode_dealloc}
use cute.Ext2.Content.{file_read, file_write, file_truncate}
use cute.Ext2.Dirs.{
  Found, inode_num, record_len, filename_len, le16, le32, set_inode_num, set_record_len, buffer,
  dir_entry_min_len, dir_entry_valid, find_dir_entry,
}

abbrev pub add_link : Volume → ℕ → Volume
add_link v inum =
    set_inode v inum
      (record (v.inodes inum) { links_count = ((v.inodes inum).links_count + 1) % 2 ^ 16 })

abbrev pub drop_link : Volume → ℕ → Volume
drop_link v inum =
    set_inode v inum (record (v.inodes inum) {
      links_count = ((v.inodes inum).links_count + (2 ^ 16 - 1)) % 2 ^ 16;
    })

-- One link less to the file; the last one takes its blocks and its inode with it.
unfoldable pub unlink_inode : Volume → ℕ → Outcome Volume
unlink_inode v inum = do
  file ← inode_get v inum
  let v' = drop_link v inum
  let freed = (do w ← file_truncate v' inum; inode_dealloc w inum)
  if (v'.inodes inum).links_count == 0 then freed else ok v'

-- After the entry was written with no inode.
unfoldable pub delete_written : ℕ → Volume × Ret ℕ → Outcome (Volume × Ret (Unit {0}))
delete_written inum (v, fail e) = ok (v, fail e)
delete_written inum (v, done n) = do w ← unlink_inode v inum; ok (w, done tt)

unfoldable pub delete_found :
    (ℕ → ℕ → ℕ) → Volume → ℕ → Ret Found → Outcome (Volume × Ret (Unit {0}))
delete_found heap v parent (fail e) = ok (v, fail e)
delete_found heap v parent (done f) =
    let entry = set_inode_num 0 f.entry in
    file_write v parent (buffer (heap 0) entry (record_len entry)) f.at
    >>= delete_written (inode_num f.entry)

unfoldable pub file_delete : (ℕ → ℕ → ℕ) → Volume → ℕ → List ℕ → Outcome (Volume × Ret (Unit {0}))
file_delete heap v parent name = do
  assert (not (parent == 0))
  is_dir ← is_type s_ifdir v parent
  assert is_dir
  found ← find_dir_entry v parent name
  delete_found heap v parent found

-- The bytes of `lastentry` once `read` stands over its start.
abbrev pub overlay : List ℕ → List ℕ → List ℕ
overlay read last = read ++ drop (length read) last

-- One turn of the loop for the parent's last entry: the end of the file, a corrupt entry, or the loop `next`.
unfoldable pub last_entry :
    Volume → Inode → ℕ → List ℕ → (List ℕ → Outcome (Ret Found)) → List ℕ → Outcome (Ret Found)
last_entry v dir offset last next [] = ok (done (record { entry = last; at = offset }))
last_entry v dir offset last next (b ∷ bytes) =
    let read = overlay (b ∷ bytes) last in
    if not (dir_entry_valid v dir read offset (length (b ∷ bytes)))
    then ok (fail eio)
    else next read

-- The loop, on fuel: each entry has twelve bytes at least. It ends behind the last entry.
unfoldable pub last_loop : ℕ → Volume → Inode → List ℕ → ℕ → Outcome (Ret Found)
last_loop zero v dir last offset = panic
last_loop (suc fuel) v dir last offset =
    file_read v dir offset dir_entry_size
    >>= last_entry v dir offset last (λ read. last_loop fuel v dir read (offset + record_len read))

-- The last entry is trimmed to its shortest form, or it is overwritten where it is unused.
unfoldable pub trim_last : (ℕ → ℕ) → Volume → ℕ → Found → Outcome (Volume × Found)
trim_last heap v parent f =
    let start = f.at - record_len f.entry in
    let len = dir_entry_min_len (filename_len f.entry) in
    let trimmed = set_record_len len f.entry in
    let written = (do
      (w, r) ← file_write v parent (buffer heap trimmed (record_len trimmed)) start
      ok (w, record { entry = trimmed; at = start + record_len trimmed })) in
    if f.at == 0
    then ok (v, f)
    else if inode_num f.entry == 0
    then ok (v, record { entry = f.entry; at = start })
    else written

-- Where the new entry does not fit into the block, the last entry takes the rest of it.
unfoldable pub fill_block : (ℕ → ℕ) → Volume → ℕ → ℕ → Found → Outcome (Volume × Found)
fill_block heap v parent newentry_len f =
    let start = f.at - record_len f.entry in
    let longer = set_record_len (v.block_size - start % v.block_size) f.entry in
    let filled = (do
      assert (ltb (record_len f.entry) f.at)
      assert (leb (dir_entry_min_len (filename_len longer)) (record_len longer))
      (w, r) ← file_write v parent (buffer heap longer (record_len longer)) start
      assert ((start + record_len longer) % v.block_size == 0)
      ok (w, record { entry = longer; at = start + record_len longer })) in
    if leb (newentry_len + f.at % v.block_size) v.block_size then ok (v, f) else filled

-- The bytes of the new entry: it reaches to the end of its block.
abbrev pub new_entry : Volume → ℕ → List ℕ → ℕ → ℕ → List ℕ
new_entry v entry_inum name type offset =
    le32 entry_inum
    ++ le16 (v.block_size - offset % v.block_size)
    ++ length name ∷ type ∷ name
    ++ 0 ∷ []

-- The end of the call, once the entry and the zeroes behind it are written.
unfoldable pub entry_done :
    Volume → ℕ → ℕ → List ℕ → ℕ → ℕ → Ret ℕ → Outcome (Volume × Ret (Unit {0}))
entry_done v parent entry_inum entry offset newentry_len (fail e) = ok (v, fail e)
entry_done v parent entry_inum entry offset newentry_len (done n) = do
  assert (dir_entry_valid v (v.inodes parent) entry offset newentry_len)
  inode ← inode_get v entry_inum
  ok (add_link v entry_inum, done tt)

-- The zeroes behind the entry.
unfoldable pub entry_zeroes :
    Volume → ℕ → ℕ → List ℕ → ℕ → ℕ → Ret ℕ → Outcome (Volume × Ret (Unit {0}))
entry_zeroes v parent entry_inum entry offset newentry_len (fail e) = ok (v, fail e)
entry_zeroes v parent entry_inum entry offset newentry_len (done n) = do
  assert (leb newentry_len (record_len entry))
  assert (leb (record_len entry - newentry_len) v.block_size)
  (w, r) ←
      file_write v parent (replicate (record_len entry - newentry_len) 0) (offset + newentry_len)
  entry_done w parent entry_inum entry offset newentry_len r

unfoldable pub append_entry :
    (ℕ → ℕ) → Volume → ℕ → ℕ → List ℕ → ℕ → ℕ → ℕ → Outcome (Volume × Ret (Unit {0}))
append_entry heap v parent entry_inum name type newentry_len offset = do
  assert (leb (newentry_len + offset % v.block_size) v.block_size)
  assert (ltb (length name) filename_max)
  let entry = new_entry v entry_inum name type offset
  (w, r) ← file_write v parent (buffer heap entry newentry_len) offset
  entry_zeroes w parent entry_inum entry offset newentry_len r

-- `dir->flags &= !EXT2_INO_DIR_INDEX_FL`: the operand is 0.
abbrev pub clear_flags : Volume → ℕ → Volume
clear_flags v inum = set_inode v inum (record (v.inodes inum) { flags = 0 })

-- After the loop for the last entry.
unfoldable pub place_entry :
    (ℕ → ℕ → ℕ) → Volume → ℕ → ℕ → List ℕ → ℕ → Ret Found → Outcome (Volume × Ret (Unit {0}))
place_entry heap v parent entry_inum name type (fail e) = ok (v, fail e)
place_entry heap v parent entry_inum name type (done f) = do
  let newentry_len = dir_entry_min_len (length name)
  (v1, f1) ← trim_last (heap 0) (clear_flags v parent) parent f
  (v2, f2) ← fill_block (heap 0) v1 parent newentry_len f1
  append_entry (heap 1) v2 parent entry_inum name type newentry_len f2.at

-- What the search for the name gave: it must not be there.
unfoldable pub unless_found :
    Outcome (Volume × Ret (Unit {0})) → Volume → Ret Found → Outcome (Volume × Ret (Unit {0}))
unless_found place v (done f) = ok (v, fail eexist)
unless_found place v (fail enoent) = place
unless_found place v (fail e) = ok (v, fail e)

unfoldable pub ext2_new_dir_entry :
    (ℕ → ℕ → ℕ) → Volume → ℕ → ℕ → List ℕ → ℕ → Outcome (Volume × Ret (Unit {0}))
ext2_new_dir_entry heap v parent entry_inum name type = do
  assert (not (parent == 0))
  assert (not (entry_inum == 0))
  is_dir ← is_type s_ifdir v parent
  assert is_dir
  assert (type == ft_reg_file || type == ft_dir)
  let dir = v.inodes parent
  let place = (do
    last ← last_loop (suc dir.size_low) v dir (replicate dir_entry_size 0) 0
    place_entry heap v parent entry_inum name type last)
  if ltb (filename_max - 1) (length name)
      then ok (v, fail enametoolong)
      else if length name == 0
      then ok (v, fail enoent)
      else (find_dir_entry v parent name >>= unless_found place v)

-- The inode is given back where an entry cannot be made.
unfoldable pub or_dealloc :
    ℕ → (Volume → Outcome (Volume × Ret ℕ)) → Volume × Ret (Unit {0}) → Outcome (Volume × Ret ℕ)
or_dealloc inum next (v, done u) = next v
or_dealloc inum next (v, fail e) = do w ← inode_dealloc v inum; ok (w, fail e)

-- The entries "." and ".." of a new directory.
unfoldable pub dot_entries : (ℕ → ℕ → ℕ) → ℕ → ℕ → Volume → Outcome (Volume × Ret ℕ)
dot_entries heap parent inum v =
    ext2_new_dir_entry (λ k. heap (k + 2)) v inum inum (46 ∷ []) ft_dir
    >>= or_dealloc inum (λ v1.
      ext2_new_dir_entry (λ k. heap (k + 4)) v1 inum parent (46 ∷ 46 ∷ []) ft_dir
      >>= or_dealloc inum (λ v2. ok (v2, done inum)))

unfoldable pub file_new : (ℕ → ℕ → ℕ) → Volume → ℕ → List ℕ → ℕ → Outcome (Volume × Ret ℕ)
file_new heap v parent name type = do
  (v', inum) ← inode_alloc v type
  let finish =
      λ (w : Volume). if type == ft_dir then dot_entries heap parent inum w else ok (w, done inum)
  if inum == 0
      then ok (v', fail enospc)
      else (ext2_new_dir_entry heap v' parent inum name type >>= or_dealloc inum finish)
