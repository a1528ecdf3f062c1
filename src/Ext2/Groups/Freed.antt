-- ===== src/Ext2/Groups/Freed.antt =====
-- ext2/ext2.c: what `block_dealloc` does to the bitmap of a group.
use cute.Base.{
  ℕ, ◌+◌, ◌-◌, ◌*◌, ◌/◌, ◌%◌, ◌^◌, ◌≤◌, ◌<◌, ◌≡◌, ◌≢◌, refl, sym, ap, subst, ◌∙◌, true, false, List,
  length, update, update_same, update_ne, ok, Returns, lt→ltb, le→leb, div_mod_of_sum, arith,
}
use cute.Bitmap.Update.{bit_at, Updated, bitmap_clear_bit-Updated, bit_is_set_inside}
use cute.Ext2.Volume.{
  SuperBlock, Volume, GroupDesc, read_bytes, write_bytes, block_read, block_write,
}
use cute.Ext2.Groups.{set_sb, set_group, block_dealloc}
use cute.Ext2.Groups.Blocks.{bitmap, read_bytes-IsBytes}
use cute.Ext2.Content.Bytes.{length-read_bytes, access_ok_lem}
use cute.Ext2.Content.Written.{read_bytes-write_bytes}

-- The block of bit `k` of group `i`
abbrev pub block_of : Volume → ℕ → ℕ → ℕ
block_of v i k = i * v.sb.blocks_per_group + k + v.sb.first_data_block

-- The block is a block of the volume, in use, and the counters have room for it.
pub record IsInUse (v : Volume) (i k : ℕ) : Type 0 where
  pub size_small : v.block_size ≤ 4096
  pub bytes : (b n : ℕ) → v.block b n < 256
  pub bitmap_in_range : (v.bgd i).block_bitmap < v.sb.blocks_count
  pub in_its_group : k < v.sb.blocks_per_group
  pub in_bitmap : k < v.block_size * 8
  pub in_volume : block_of v i k < v.sb.blocks_count
  pub set : bit_at (bitmap v i) k ≡ true
  pub count_fits : v.sb.free_blocks_count < v.sb.blocks_count
  pub count_small : v.sb.blocks_count < 2 ^ 32
  pub group_count_small : (v.bgd i).free_blocks + 1 < 2 ^ 16

-- The block is free in `w`, and the two counters of free blocks are one more; no other bit of this
-- bitmap, no other block and no other field has changed.
pub record FreedAt (v w : Volume) (i k : ℕ) : Type 0 where
  pub updated : Updated (bitmap v i) k false (bitmap w i)
  pub total_freed : w.sb ≡ record v.sb { free_blocks_count = v.sb.free_blocks_count + 1 }
  pub group_freed : w.bgd i ≡ record (v.bgd i) { free_blocks = (v.bgd i).free_blocks + 1 }
  pub other_groups : (j : ℕ) → j ≢ i → w.bgd j ≡ v.bgd j
  pub other_blocks : (b : ℕ) → b ≢ (v.bgd i).block_bitmap → w.block b ≡ v.block b
  pub inodes : w.inodes ≡ v.inodes
  pub same_size : w.block_size ≡ v.block_size
  pub same_count : w.blockgroups_count ≡ v.blockgroups_count
  pub same_last : w.last_blockgroup ≡ v.last_blockgroup

abbrev with_blocks : SuperBlock → ℕ → SuperBlock
with_blocks sb n = record sb { free_blocks_count = n }

abbrev with_free : GroupDesc → ℕ → GroupDesc
with_free g n = record g { free_blocks = n }

-- The counters with one block more.
abbrev counted : Volume → ℕ → Volume
counted v i =
    set_group (set_sb v (record v.sb { free_blocks_count = (v.sb.free_blocks_count + 1) % 2 ^ 32 }))
      i (record (v.bgd i) { free_blocks = ((v.bgd i).free_blocks + 1) % 2 ^ 16 })

abbrev cleared : Volume → ℕ → List ℕ → Volume
cleared v i new =
    let b = (v.bgd i).block_bitmap in
    record (counted v i) { block = update v.block b (write_bytes (v.block b) 0 new) }

FreedAt-cleared :
    (v : Volume) (i k : ℕ) (new : List ℕ)
    → IsInUse v i k
    → Updated (bitmap v i) k false new
    → FreedAt v (cleared v i new) i k
FreedAt-cleared v i k new a u =
    let b = (v.bgd i).block_bitmap in
    let g : GroupDesc = record (v.bgd i) { free_blocks = ((v.bgd i).free_blocks + 1) % 2 ^ 16 } in
    let w = cleared v i new in
    let size = u.length_same ∙ length-read_bytes (v.block b) 0 v.block_size in
    let here : bitmap w i ≡ new =
      ap (λ d. read_bytes (w.block d.block_bitmap) 0 v.block_size) (update_same v.bgd i g)
      ∙ ap (λ f. read_bytes f 0 v.block_size)
          (update_same v.block b (write_bytes (v.block b) 0 new))
      ∙ ap (read_bytes (write_bytes (v.block b) 0 new) 0) (sym size)
      ∙ read_bytes-write_bytes (v.block b) 0 new in
    let less = a.count_fits in
    let small = a.count_small in
    let room = a.group_count_small in
    record {
      updated = subst (Updated (bitmap v i) k false) (sym here) u;
      total_freed = ap (λ n. with_blocks v.sb n) (omega arith);
      group_freed = update_same v.bgd i g ∙ ap (λ n. with_free (v.bgd i) n) (omega arith);
      other_groups = λ j ne. update_ne v.bgd i j g ne;
      other_blocks = λ d ne. update_ne v.block b d (write_bytes (v.block b) 0 new) ne;
      inodes = refl;
      same_size = refl;
      same_count = refl;
      same_last = refl;
    }

-- The bit and the group of the block.
index_of :
    (v : Volume) (i k : ℕ)
    → k < v.sb.blocks_per_group
    → ((block_of v i k - v.sb.first_data_block) / v.sb.blocks_per_group ≡ i)
      × ((block_of v i k - v.sb.first_data_block) % v.sb.blocks_per_group ≡ k)
index_of v i k h =
    let plain : i * v.sb.blocks_per_group + k ≡ block_of v i k - v.sb.first_data_block =
      omega arith in
    subst (λ n. (n / v.sb.blocks_per_group ≡ i) × (n % v.sb.blocks_per_group ≡ k)) plain
      (div_mod_of_sum v.sb.blocks_per_group i k h)

-- `block_dealloc` of a block in use, of at most 4096 bytes, where the counters have room for one
-- more, returns: the block's bit is clear then, every other bit is as before, and the counters of
-- the group and of the volume are one more, with everything else as it was.
pub block_dealloc-FreedAt :
    (v : Volume) (i k : ℕ)
    → IsInUse v i k
    → Returns (λ w. FreedAt v w i k) (block_dealloc v (block_of v i k))
unfolding block_dealloc block_read block_write
block_dealloc-FreedAt v i k a =
    let b = (v.bgd i).block_bitmap in
    let (group, bit) = index_of v i k a.in_its_group in
    let small = a.size_small in
    let inside = a.in_bitmap in
    let fits = a.count_fits in
    let below = a.count_small in
    let size = length-read_bytes (v.block b) 0 v.block_size in
    let buf_bytes = read_bytes-IsBytes (v.block b) 0 v.block_size (a.bytes b) in
    let (new, e, u) =
      bitmap_clear_bit-Updated (bitmap v i) k (omega arith) buf_bytes (omega arith) in
    let used = bit_is_set_inside (bitmap v i) k (omega arith) (omega arith) ∙ ap ok a.set in
    let t1 = le→leb v.sb.first_data_block (block_of v i k) (omega arith) in
    let t2 = lt→ltb (block_of v i k) v.sb.blocks_count a.in_volume in
    let t3 = le→leb ((v.sb.free_blocks_count + 1) % 2 ^ 32) v.sb.blocks_count (omega arith) in
    let reads =
      access_ok_lem (counted v i) b 0 v.block_size a.bitmap_in_range (omega arith) small in
    let writes =
      access_ok_lem (counted v i) b 0 (length new) a.bitmap_in_range (omega (arith, u.length_same))
        small in
    rw (t1, t2, group, bit, t3, reads, used, e, writes)
      (cleared v i new, refl, FreedAt-cleared v i k new a u)
