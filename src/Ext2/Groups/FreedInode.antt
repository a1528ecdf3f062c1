-- ===== src/Ext2/Groups/FreedInode.antt =====
-- ext2/ext2.c: what `inode_dealloc` does to the inodes and to the bitmap of a group.
use cute.Base.{
  ℕ, ◌+◌, ◌-◌, ◌*◌, ◌/◌, ◌%◌, ◌^◌, ◌≤◌, ◌<◌, ◌≡◌, ◌≢◌, refl, sym, ap, subst, ◌∙◌, Bool, true, false,
  if◌then◌else◌, ◌==◌, List, length, update, update_same, update_ne, ok, Returns, lt→ltb, le→leb,
  div_mod_of_sum, arith,
}
use cute.Bitmap.Update.{bit_at, Updated, bitmap_clear_bit-Updated, bit_is_set_inside}
use cute.Ext2.Volume.{
  SuperBlock, Volume, GroupDesc, zero_inode, s_ifdir, has_type, inode_ok, inode_get, is_type,
  read_bytes, write_bytes, block_read, block_write,
}
use cute.Ext2.Groups.{set_sb, set_group, inode_dealloc}
use cute.Ext2.Groups.Blocks.{read_bytes-IsBytes}
use cute.Ext2.Content.Bytes.{length-read_bytes, access_ok_lem}
use cute.Ext2.Content.Written.{read_bytes-write_bytes}

-- The bitmap of the inodes of group `i`
abbrev pub inode_bits : Volume → ℕ → List ℕ
inode_bits v i = read_bytes (v.block (v.bgd i).inode_bitmap) 0 v.block_size

-- The inode of bit `k` of group `i`; the first one has number 1.
abbrev pub inode_of : Volume → ℕ → ℕ → ℕ
inode_of v i k = i * v.sb.inodes_per_group + k + 1

abbrev pub is_directory : Volume → ℕ → Bool
is_directory v inum = has_type s_ifdir (v.inodes inum).mode

-- The inode is one of the volume that files may have, in use, and the counters have room for it.
pub record InodeIsInUse (v : Volume) (i k : ℕ) : Type 0 where
  pub size_small : v.block_size ≤ 4096
  pub bytes : (b n : ℕ) → v.block b n < 256
  pub group_in : i < v.blockgroups_count
  pub bitmap_in_range : (v.bgd i).inode_bitmap < v.sb.blocks_count
  pub in_its_group : k < v.sb.inodes_per_group
  pub in_bitmap : k < v.block_size * 8
  pub not_reserved : v.sb.first_inode ≤ inode_of v i k
  pub in_volume : inode_of v i k ≤ v.sb.inodes_count
  pub set : bit_at (inode_bits v i) k ≡ true
  pub count_fits : v.sb.free_inodes_count + 1 < 2 ^ 32
  pub group_count_fits : (v.bgd i).free_inodes + 1 < 2 ^ 16
  pub dirs_small : (v.bgd i).used_dirs < 2 ^ 16
  pub dirs_counted : is_directory v (inode_of v i k) ≡ true → 0 < (v.bgd i).used_dirs

-- The directories of group `i` once this inode is none of them.
abbrev pub dirs_left : Volume → ℕ → ℕ → ℕ
dirs_left v i k =
    if is_directory v (inode_of v i k) then (v.bgd i).used_dirs - 1 else (v.bgd i).used_dirs

-- The inode is cleared in `w` and free, and the counters are adjusted; no other inode, no other bit of
-- this bitmap, no other block and no other field has changed.
pub record InodeFreedAt (v w : Volume) (i k : ℕ) : Type 0 where
  pub cleared : w.inodes (inode_of v i k) ≡ zero_inode
  pub other_inodes : (n : ℕ) → n ≢ inode_of v i k → w.inodes n ≡ v.inodes n
  pub updated : Updated (inode_bits v i) k false (inode_bits w i)
  pub total_freed : w.sb ≡ record v.sb { free_inodes_count = v.sb.free_inodes_count + 1 }
  pub group_freed :
      w.bgd i
      ≡ record (v.bgd i) { free_inodes = (v.bgd i).free_inodes + 1; used_dirs = dirs_left v i k }
  pub other_groups : (j : ℕ) → j ≢ i → w.bgd j ≡ v.bgd j
  pub other_blocks : (b : ℕ) → b ≢ (v.bgd i).inode_bitmap → w.block b ≡ v.block b
  pub same_size : w.block_size ≡ v.block_size
  pub same_count : w.blockgroups_count ≡ v.blockgroups_count
  pub same_last : w.last_blockgroup ≡ v.last_blockgroup

abbrev with_inodes : SuperBlock → ℕ → SuperBlock
with_inodes sb n = record sb { free_inodes_count = n }

abbrev with_free : GroupDesc → ℕ → ℕ → GroupDesc
with_free g n dirs = record g { free_inodes = n; used_dirs = dirs }

-- `used_dirs` as the code counts it, where the inode is a directory or not.
abbrev dirs_now : Volume → ℕ → Bool → ℕ
dirs_now v i dir =
    if dir then ((v.bgd i).used_dirs + (2 ^ 16 - 1)) % 2 ^ 16 else (v.bgd i).used_dirs

abbrev recounted : Volume → ℕ → Bool → Volume
recounted v i dir =
    set_group (set_sb v (with_inodes v.sb ((v.sb.free_inodes_count + 1) % 2 ^ 32))) i
      (with_free (v.bgd i) (((v.bgd i).free_inodes + 1) % 2 ^ 16) (dirs_now v i dir))

abbrev freed : Volume → ℕ → ℕ → Bool → List ℕ → Volume
freed v i k dir new =
    let b = (v.bgd i).inode_bitmap in
    record (recounted v i dir) {
      block = update v.block b (write_bytes (v.block b) 0 new);
      inodes = update v.inodes (inode_of v i k) zero_inode;
    }

dirs_now-left :
    (dirs : ℕ) (dir : Bool)
    → dirs < 2 ^ 16
    → (dir ≡ true → 0 < dirs)
    → (if dir then (dirs + (2 ^ 16 - 1)) % 2 ^ 16 else dirs) ≡ (if dir then dirs - 1 else dirs)
dirs_now-left dirs true small pos = let p = pos refl in omega arith
dirs_now-left dirs false small pos = refl

InodeFreedAt-freed :
    (v : Volume) (i k : ℕ) (new : List ℕ)
    → InodeIsInUse v i k
    → Updated (inode_bits v i) k false new
    → InodeFreedAt v (freed v i k (is_directory v (inode_of v i k)) new) i k
InodeFreedAt-freed v i k new a u =
    let b = (v.bgd i).inode_bitmap in
    let dir = is_directory v (inode_of v i k) in
    let g = with_free (v.bgd i) (((v.bgd i).free_inodes + 1) % 2 ^ 16) (dirs_now v i dir) in
    let w = freed v i k dir new in
    let size = u.length_same ∙ length-read_bytes (v.block b) 0 v.block_size in
    let here : inode_bits w i ≡ new =
      ap (λ d. read_bytes (w.block d.inode_bitmap) 0 v.block_size) (update_same v.bgd i g)
      ∙ ap (λ f. read_bytes f 0 v.block_size)
          (update_same v.block b (write_bytes (v.block b) 0 new))
      ∙ ap (read_bytes (write_bytes (v.block b) 0 new) 0) (sym size)
      ∙ read_bytes-write_bytes (v.block b) 0 new in
    let fits = a.count_fits in
    let room = a.group_count_fits in
    record {
      cleared = update_same v.inodes (inode_of v i k) zero_inode;
      other_inodes = λ n ne. update_ne v.inodes (inode_of v i k) n zero_inode ne;
      updated = subst (Updated (inode_bits v i) k false) (sym here) u;
      total_freed = ap (λ n. with_inodes v.sb n) (omega arith);
      group_freed =
          update_same v.bgd i g
          ∙ ap (λ n. with_free (v.bgd i) n (dirs_now v i dir)) (omega arith)
          ∙ ap (with_free (v.bgd i) ((v.bgd i).free_inodes + 1))
              (dirs_now-left (v.bgd i).used_dirs dir a.dirs_small a.dirs_counted);
      other_groups = λ j ne. update_ne v.bgd i j g ne;
      other_blocks = λ d ne. update_ne v.block b d (write_bytes (v.block b) 0 new) ne;
      same_size = refl;
      same_count = refl;
      same_last = refl;
    }

-- The bit and the group of the inode.
inode_index :
    (v : Volume) (i k : ℕ)
    → k < v.sb.inodes_per_group
    → ((inode_of v i k - 1) / v.sb.inodes_per_group ≡ i)
      × ((inode_of v i k - 1) % v.sb.inodes_per_group ≡ k)
inode_index v i k h =
    let plain : i * v.sb.inodes_per_group + k ≡ inode_of v i k - 1 = omega arith in
    subst (λ n. (n / v.sb.inodes_per_group ≡ i) × (n % v.sb.inodes_per_group ≡ k)) plain
      (div_mod_of_sum v.sb.inodes_per_group i k h)

-- `inode_dealloc` of an inode in use that is not reserved, with blocks of at most 4096 bytes, where the
-- counters have room for one inode more and the group's directories are counted, returns: the inode is
-- cleared and its bit clear, every other inode and bit is as before, the counters of free inodes are one
-- more, and that of the group's directories is one less exactly if the inode was one, with everything
-- else as it was.
pub inode_dealloc-InodeFreedAt :
    (v : Volume) (i k : ℕ)
    → InodeIsInUse v i k
    → Returns (λ w. InodeFreedAt v w i k) (inode_dealloc v (inode_of v i k))
unfolding inode_dealloc block_read block_write is_type inode_get inode_ok
inode_dealloc-InodeFreedAt v i k a =
    let b = (v.bgd i).inode_bitmap in
    let inum = inode_of v i k in
    let dir = is_directory v inum in
    let (group, bit) = inode_index v i k a.in_its_group in
    let small = a.size_small in
    let inside = a.in_bitmap in
    let size = length-read_bytes (v.block b) 0 v.block_size in
    let buf_bytes = read_bytes-IsBytes (v.block b) 0 v.block_size (a.bytes b) in
    let (new, e, u) =
      bitmap_clear_bit-Updated (inode_bits v i) k (omega arith) buf_bytes (omega arith) in
    let used = bit_is_set_inside (inode_bits v i) k (omega arith) (omega arith) ∙ ap ok a.set in
    let some_inode : (inum == 0) ≡ false = ground arith in
    let t1 = le→leb v.sb.first_inode inum a.not_reserved in
    let t2 = le→leb inum v.sb.inodes_count a.in_volume in
    let t3 = lt→ltb i v.blockgroups_count a.group_in in
    let reads =
      access_ok_lem (recounted v i dir) b 0 v.block_size a.bitmap_in_range (omega arith) small in
    let writes =
      access_ok_lem (recounted v i dir) b 0 (length new) a.bitmap_in_range
        (omega (arith, u.length_same)) small in
    rw (some_inode, t1, t2, group, bit, t3, reads, used, e, writes)
      (freed v i k dir new, refl, InodeFreedAt-freed v i k new a u)
