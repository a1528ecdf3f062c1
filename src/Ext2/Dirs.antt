-- ===== src/Ext2/Dirs.antt =====
-- ext2/ext2.c: directories. A directory entry is the bytes of its buffer; `heap` is what the kernel's
-- memory holds behind the bytes that were put into a buffer, which the code may write to the disk.
-- A name is the list of its bytes, less the null byte that ends it.
pub mod Sound
pub mod Search
use cute.Base.{
  round_up, ℕ, zero, suc, ◌+◌, ◌-◌, ◌*◌, ◌/◌, ◌%◌, ◌^◌, Bool, true, false, not, ◌&&◌, ◌||◌, List,
  [], ◌∷◌, ◌++◌, ltb, leb, ◌==◌, if◌then◌else◌, length, take, drop, get_or, replicate, Outcome, ok,
  panic, ◌>>=◌, ◌>>◌, assert,
}
use cute.Strings.{memcmp}
use cute.Ext2.Volume.{
  Volume, Inode, Ret, done, fail, Errno, enoent, eio, eexist, enametoolong, enospc, dir_entry_min,
  dir_entry_align, dir_entry_size, filename_max, ft_reg_file, ft_dir, s_ifdir, set_inode, inode_get,
  is_type,
}
use cute.Ext2.Groups.{inode_alloc, inode_dealloc}
use cute.Ext2.Content.{file_read, file_write, file_truncate}

-- The fields of `struct dir_entry`, little-endian
abbrev pub inode_num : List ℕ → ℕ
inode_num d = get_or d 0 0 + get_or d 1 0 * 2 ^ 8 + get_or d 2 0 * 2 ^ 16 + get_or d 3 0 * 2 ^ 24

abbrev pub record_len : List ℕ → ℕ
record_len d = get_or d 4 0 + get_or d 5 0 * 2 ^ 8

abbrev pub filename_len : List ℕ → ℕ
filename_len d = get_or d 6 0

abbrev pub filename : List ℕ → List ℕ
filename d = drop 8 d

abbrev pub le16 : ℕ → List ℕ
le16 n = n % 256 ∷ n / 2 ^ 8 % 256 ∷ []

abbrev pub le32 : ℕ → List ℕ
le32 n = n % 256 ∷ n / 2 ^ 8 % 256 ∷ n / 2 ^ 16 % 256 ∷ n / 2 ^ 24 % 256 ∷ []

abbrev pub set_inode_num : ℕ → List ℕ → List ℕ
set_inode_num n d = le32 n ++ drop 4 d

abbrev pub set_record_len : ℕ → List ℕ → List ℕ
set_record_len n d = take 4 d ++ le16 n ++ drop 6 d

-- `n` bytes of the heap from index `i` of a buffer on
abbrev heap_bytes : (ℕ → ℕ) → ℕ → ℕ → List ℕ
heap_bytes heap i zero = []
heap_bytes heap i (suc n) = heap i ∷ heap_bytes heap (suc i) n

-- The first `n` bytes at a buffer that holds `bytes`.
abbrev pub buffer : (ℕ → ℕ) → List ℕ → ℕ → List ℕ
buffer heap bytes n = take n bytes ++ heap_bytes heap (length bytes) (n - length bytes)

abbrev pub dir_entry_min_len : ℕ → ℕ
dir_entry_min_len filename_len = round_up (dir_entry_min + filename_len) dir_entry_align

abbrev pub is_aligned : ℕ → Bool
is_aligned n = n % dir_entry_align == 0

-- The checks in their order; the messages are left out.
unfoldable pub dir_entry_valid : Volume → Inode → List ℕ → ℕ → ℕ → Bool
dir_entry_valid v dir d offset read_len =
    leb dir_entry_min read_len
    && (is_aligned offset
        && (is_aligned (record_len d)
            && (leb (dir_entry_min_len 1) (record_len d)
                && (leb (dir_entry_min_len (filename_len d)) (record_len d)
                    && (leb (record_len d + offset % v.block_size) v.block_size
                        && (leb (record_len d + offset) dir.size_low
                            && leb (inode_num d) v.sb.inodes_count))))))

-- An entry found: its bytes and its place in the directory.
pub record Found : Type 0 where
  pub entry : List ℕ
  pub at : ℕ

-- The comparison of an entry's name.
abbrev pub same_name : List ℕ → List ℕ → Outcome Bool
same_name d name =
    if inode_num d == 0 || not (filename_len d == length name)
    then ok false
    else (memcmp (filename d) name (length name) >>= λ r. ok (r == 0))

-- The end of one turn of the search: the entry found, or the loop `next`.
abbrev found_or : Found → Outcome (Ret Found) → Bool → Outcome (Ret Found)
found_or f next true = ok (done f)
found_or f next false = next

-- One turn with the bytes read: the end of the file, a corrupt entry, or the comparison.
unfoldable pub find_entry :
    Volume → Inode → List ℕ → ℕ → Outcome (Ret Found) → List ℕ → Outcome (Ret Found)
find_entry v dir name offset next [] = ok (fail enoent)
find_entry v dir name offset next (b ∷ bytes) =
    let d = b ∷ bytes in
    if not (dir_entry_valid v dir d offset (length d))
    then ok (fail eio)
    else (same_name d name >>= found_or (record { entry = d; at = offset }) next)

-- The loop over the entries, on fuel: each has twelve bytes at least.
unfoldable pub find_loop : ℕ → Volume → Inode → List ℕ → ℕ → Outcome (Ret Found)
find_loop zero v dir name offset = panic
find_loop (suc fuel) v dir name offset = do
  d ← file_read v dir offset dir_entry_size
  find_entry v dir name offset (find_loop fuel v dir name (offset + record_len d)) d

-- The inode's number is that of the entry found.
unfoldable pub find_dir_entry : Volume → ℕ → List ℕ → Outcome (Ret Found)
find_dir_entry v inum name = do
  is_dir ← is_type s_ifdir v inum
  assert is_dir
  dir ← inode_get v inum
  if length name == 0 || ltb filename_max (length name)
      then ok (fail enoent)
      else find_loop (suc dir.size_low) v dir name 0
