-- ===== src/Files/Tests.antt =====
-- ext2/file.c: a process with one open file on a small volume.
use cute.Base.{
  ℕ, ◌≡◌, refl, List, [], ◌∷◌, if◌then◌else◌, ◌==◌, Outcome, ok, panic, ◌>>=◌, Returns, arith,
}
use cute.Unrolled.{
  find_null, unode_array_find_free_idx, unode_store_val_in_array, walk, get_node, store_here,
  store_new, insert_loop, insert_nodes, unrolled_insert, unrolled_lookup, free_cell,
  unrolled_remove_key, unode_new, new_node,
}
use cute.Ext2.Volume.{
  Volume, Inode, Ret, done, fail, enoent, zero_inode, s_ifreg, inode_ok, inode_get, is_type,
  access_ok, block_read, block_write,
}
use cute.Ext2.Content.{
  read_size, read_loop, file_read, map_block, write_turn, write_loop, file_write, words,
  dealloc_each, indirect_block_dealloc, truncate_direct, truncate_tree, file_truncate,
}
use cute.Ext2.Content.Bytes.{Mapped}
use cute.Bitmap.{
  bit_is_set, bit_is_clear, search_byte, search_bytes, search_function, set_offsets,
  bitmap_first_zero_bit, bitmap_set_bit, bitmap_clear_bit, bitmap_bit_is_set,
}
use cute.Strings.{memcmp}
use cute.Ext2.Groups.{
  dir_entry_type_to_inode_mode, new_mode, take_inode, inode_alloc_from, inode_alloc, inode_dealloc,
  take_block, block_alloc_from, block_alloc, block_dealloc,
}
use cute.Ext2.Dirs.{dir_entry_valid, find_entry, find_loop, find_dir_entry}
use cute.Ext2.Entries.{
  unlink_inode, delete_written, delete_found, file_delete, last_entry, last_loop, trim_last,
  fill_block, entry_done, entry_zeroes, append_entry, place_entry, unless_found, ext2_new_dir_entry,
  or_dealloc, dot_entries, file_new,
}
use cute.Ext2.Sample.{root_dir, small_volume, no_heap}
use cute.Ext2.Names.{skip_slashes, scan, at_end, enter, name_step, component, name_loop, name_i}
use cute.Files.{
  Process, Stat, file_init, fill_statbuf, chdir_to, sys_chdir, with_file, lseek_base, lseek_to,
  lseek_file, sys_lseek,
}
use cute.Files.Paths.{
  leaf_type_of, leaf_start_at, leaf_loop, path_get_leaf, path_parent_child,
  inode_mode_to_dir_entry_type,
}
use cute.Files.Leaf.{leaf_type, path_get_leaf-leaf_type}
use cute.Files.Open.{
  bad_flags, create_child, open_inode, is_positive, seek_end, truncated, open_file, open_found,
  sys_open, sys_creat,
}
use cute.Files.Io.{
  rw_checks, advance, read_file, sys_read, write_done, write_file, sys_write, close_file, sys_close,
  sys_fstat, stat_of, sys_stat, with_vol, unlink_child, sys_unlink, link_inode, link_child,
  sys_link,
}
use cute.Files.Descriptors.{IsOpen}
use cute.Files.WriteRead.{write_seek_read, sys_write-sys_read}

-- A regular file with two blocks
abbrev file_inode : Inode
file_inode = record zero_inode {
  mode = s_ifreg;
  links_count = 1;
  blocks = λ i. if i == 0 then 11 else if i == 1 then 12 else 0;
}

abbrev volume : Volume
volume = record small_volume { inodes = λ i. if i == 12 then file_inode else root_dir }

-- Descriptor 0 is open for reading and writing; its file is stored at 4096.
abbrev process : Process
process = record {
  vol = volume;
  files = λ p. file_init 12 3;
  fdtable = record {
    node = record { array = 4096 ∷ 0 ∷ []; array_len = 2; array_nrfree = 1; num = 0 } ∷ [];
    array_len = 2;
  };
  working_dir = 2;
}

path_get_leaf-leaf_type_example :
    path_get_leaf (47 ∷ 97 ∷ 47 ∷ 98 ∷ 99 ∷ 47 ∷ []) ≡ ok (3, leaf_type (47 ∷ []))
path_get_leaf-leaf_type_example =
    path_get_leaf-leaf_type (47 ∷ 97 ∷ 47 ∷ []) 98 (99 ∷ []) (47 ∷ []) refl refl (refl, tt)
      (refl, tt)

process-IsOpen : IsOpen process 0 4096
unfolding inode_ok unrolled_lookup get_node walk
process-IsOpen = record {
  lookup = refl;
  not_null = omega arith;
  inum_pos = omega arith;
  inode = refl;
  regular = refl;
}

file_Mapped : Mapped volume file_inode.blocks 2
file_Mapped = record {
  size_pos = omega arith;
  size_small = omega arith;
  direct = omega arith;
  in_range = λ i h. ground arith;
  nonzero = λ i h. ground arith;
  distinct = λ i j h k ne. ground arith;
}

sys_write-sys_read_example :
    Returns (λ r. r.1 ≡ done (5 ∷ 6 ∷ [])) (write_seek_read process 0 (5 ∷ 6 ∷ []) 0)
sys_write-sys_read_example =
    sys_write-sys_read process 0 4096 2 (5 ∷ 6 ∷ []) process-IsOpen refl refl file_Mapped
      (omega arith) (omega arith)

-- A process with no open file
abbrev idle : Process
idle = record {
  vol = small_volume;
  files = λ p. file_init 0 0;
  fdtable = record { node = []; array_len = 2 };
  working_dir = 2;
}

abbrev slash_ab : List ℕ
slash_ab = 47 ∷ 97 ∷ 98 ∷ []

-- A file is created and written, and opened again, and read.
abbrev session : Outcome (Ret (List ℕ))
session = sys_creat no_heap 4096 idle slash_ab >>= λ a. sys_write (a.0) 0 (5 ∷ 6 ∷ 7 ∷ []) >>= λ b.
    sys_close (b.0) 0 >>= λ c. sys_open no_heap 8192 (c.0) slash_ab 1 >>= λ d.
    sys_lseek (d.0) 0 1 0 >>= λ e. sys_read (e.0) 0 100 >>= λ f. ok (f.1)

-- It is linked, unlinked, and opened by its other name; then by the first one.
abbrev links : List ℕ → Outcome (Ret ℕ)
links path = sys_creat no_heap 4096 idle slash_ab >>= λ a.
    sys_link no_heap (a.0) slash_ab (99 ∷ []) >>= λ b.
    sys_unlink no_heap (b.0) slash_ab >>= λ c. sys_open no_heap 8192 (c.0) path 1 >>= λ d. ok (d.1)

abbrev size_of : List ℕ → Outcome ℕ
size_of path = sys_stat idle path >>= λ s. ok s.st_size

abbrev in_directory : List ℕ → Outcome (Ret (Unit {0}))
in_directory path = sys_chdir idle path >>= λ s. ok (s.1)

-- `sys_fstat` of the new file
abbrev new_stat : Outcome (Process × Ret Stat)
new_stat = sys_creat no_heap 4096 idle slash_ab >>= λ a. sys_fstat (a.0) 0

abbrev links_of : Outcome (Process × Ret Stat) → ℕ
links_of panic = 0
links_of (ok (s, fail e)) = 0
links_of (ok (s, done buf)) = buf.st_nlink

-- What was written is read from the second byte on; a name that is unlinked is not found, the other one
-- is; the root has its size and can be the working directory; a new file has one link.
process_runs :
    (session ≡ ok (done (6 ∷ 7 ∷ [])))
    × (links slash_ab ≡ ok (fail enoent))
    × (links (99 ∷ []) ≡ ok (done 1))
    × (size_of (47 ∷ []) ≡ ok 64)
    × (in_directory (46 ∷ 46 ∷ []) ≡ ok (done tt))
    × (links_of new_stat ≡ 1)
unfolding find_null unode_array_find_free_idx unode_store_val_in_array walk get_node store_here
    store_new insert_loop insert_nodes unrolled_insert unrolled_lookup free_cell unrolled_remove_key
    unode_new new_node fill_statbuf chdir_to sys_chdir with_file lseek_base lseek_to lseek_file
    sys_lseek leaf_type_of leaf_start_at leaf_loop path_get_leaf path_parent_child
    inode_mode_to_dir_entry_type bad_flags create_child open_inode is_positive seek_end truncated
    open_file open_found sys_open sys_creat rw_checks advance read_file sys_read write_done
    write_file sys_write close_file sys_close sys_fstat stat_of sys_stat with_vol unlink_child
    sys_unlink link_inode link_child sys_link file_new inode_alloc inode_alloc_from take_inode
    new_mode dir_entry_type_to_inode_mode ext2_new_dir_entry unless_found place_entry trim_last
    fill_block append_entry entry_zeroes entry_done last_loop last_entry or_dealloc dot_entries
    name_i name_loop enter skip_slashes component scan at_end name_step find_dir_entry find_loop
    find_entry dir_entry_valid file_read read_size read_loop file_write write_loop write_turn
    map_block block_read block_write access_ok inode_get inode_ok is_type memcmp
    bitmap_first_zero_bit bitmap_set_bit block_alloc block_alloc_from take_block file_delete
    delete_found delete_written unlink_inode file_truncate truncate_direct truncate_tree
    indirect_block_dealloc dealloc_each words block_dealloc inode_dealloc bit_is_set bit_is_clear
    search_byte search_bytes search_function set_offsets bitmap_clear_bit bitmap_bit_is_set
process_runs = (refl, refl, refl, refl, refl, refl)
