-- ===== src/Ext2/Dirs/Sound.antt =====
-- ext2/ext2.c: which entries of a directory pass dir_entry_valid.
use cute.Base.{
  ℕ, ◌+◌, ◌%◌, ◌≤◌, ◌≡◌, ◌↔◌, refl, Bool, true, ◌&&◌, List, leb, leb→le, le→leb, round_up_lem,
  ==_iff, arith,
}
use cute.Ext2.Volume.{Volume, Inode, dir_entry_min, dir_entry_align}
use cute.Ext2.Dirs.{
  inode_num, record_len, filename_len, is_aligned, dir_entry_min_len, dir_entry_valid,
}

-- The entry of which `n` bytes were read at `offset` is sound: it has its header, is aligned, is long
-- enough for its name, lies within a block and within the directory, and names an inode of the volume.
pub record EntryIsSound (v : Volume) (dir : Inode) (d : List ℕ) (offset n : ℕ) : Type 0 where
  pub has_header : 8 ≤ n
  pub offset_aligned : offset % 4 ≡ 0
  pub len_aligned : record_len d % 4 ≡ 0
  pub long_enough : 12 ≤ record_len d
  pub name_fits : 8 + filename_len d ≤ record_len d
  pub in_block : record_len d + offset % v.block_size ≤ v.block_size
  pub in_directory : record_len d + offset ≤ dir.size_low
  pub inode_in_volume : inode_num d ≤ v.sb.inodes_count

eight_tests :
    (b1 b2 b3 b4 b5 b6 b7 b8 : Bool)
    → (b1 && (b2 && (b3 && (b4 && (b5 && (b6 && (b7 && b8))))))) ≡ true
    → (b1 ≡ true)
      × (b2 ≡ true)
      × (b3 ≡ true)
      × (b4 ≡ true)
      × (b5 ≡ true)
      × (b6 ≡ true)
      × (b7 ≡ true)
      × (b8 ≡ true)
eight_tests b1 b2 b3 b4 b5 b6 b7 b8 h = ground arith

-- An aligned length is at least the rounded length of a name if it is at least the plain one.
min_len_lem : (len name : ℕ) → len % 4 ≡ 0 → (dir_entry_min_len name ≤ len) ↔ (8 + name ≤ len)
min_len_lem len name h =
    let e = round_up_lem (dir_entry_min + name) dir_entry_align (omega arith) in
    ((λ l. omega arith), (λ l. omega arith))

EntryIsSound-checked :
    (v : Volume) (dir : Inode) (d : List ℕ) (offset n : ℕ)
    → dir_entry_valid v dir d offset n ≡ true
    → EntryIsSound v dir d offset n
unfolding dir_entry_valid
EntryIsSound-checked v dir d offset n h =
    let (a, b, c, e, f, g, i, j) =
      eight_tests (leb dir_entry_min n) (is_aligned offset) (is_aligned (record_len d))
        (leb (dir_entry_min_len 1) (record_len d))
        (leb (dir_entry_min_len (filename_len d)) (record_len d))
        (leb (record_len d + offset % v.block_size) v.block_size)
        (leb (record_len d + offset) dir.size_low) (leb (inode_num d) v.sb.inodes_count) h in
    let aligned : record_len d % 4 ≡ 0 = (==_iff (record_len d % 4) 0).0 c in
    record {
      has_header = leb→le dir_entry_min n a;
      offset_aligned = (==_iff (offset % 4) 0).0 b;
      len_aligned = aligned;
      long_enough = leb→le (dir_entry_min_len 1) (record_len d) e;
      name_fits =
          (min_len_lem (record_len d) (filename_len d) aligned).0
            (leb→le (dir_entry_min_len (filename_len d)) (record_len d) f);
      in_block = leb→le (record_len d + offset % v.block_size) v.block_size g;
      in_directory = leb→le (record_len d + offset) dir.size_low i;
      inode_in_volume = leb→le (inode_num d) v.sb.inodes_count j;
    }

dir_entry_valid-passed :
    (v : Volume) (dir : Inode) (d : List ℕ) (offset n : ℕ)
    → EntryIsSound v dir d offset n
    → dir_entry_valid v dir d offset n ≡ true
unfolding dir_entry_valid
dir_entry_valid-passed v dir d offset n s =
    rw
      (
        le→leb 8 n s.has_header,
        (==_iff (offset % 4) 0).1 s.offset_aligned,
        (==_iff (record_len d % 4) 0).1 s.len_aligned,
        le→leb 12 (record_len d) s.long_enough,
        le→leb (dir_entry_min_len (filename_len d)) (record_len d)
            ((min_len_lem (record_len d) (filename_len d) s.len_aligned).1 s.name_fits),
        le→leb (record_len d + offset % v.block_size) v.block_size s.in_block,
        le→leb (record_len d + offset) dir.size_low s.in_directory,
        le→leb (inode_num d) v.sb.inodes_count s.inode_in_volume,
      )
      refl

-- The checks of the code pass exactly the sound entries.
pub dir_entry_valid-EntryIsSound :
    (v : Volume) (dir : Inode) (d : List ℕ) (offset n : ℕ)
    → (dir_entry_valid v dir d offset n ≡ true) ↔ EntryIsSound v dir d offset n
dir_entry_valid-EntryIsSound v dir d offset n =
    (EntryIsSound-checked v dir d offset n, dir_entry_valid-passed v dir d offset n)
