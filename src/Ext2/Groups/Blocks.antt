-- ===== src/Ext2/Groups/Blocks.antt =====
-- ext2/ext2.c: what `block_alloc` does to the bitmaps of the groups.
use cute.Base.{
  ℕ, zero, suc, ◌+◌, ◌-◌, ◌*◌, ◌≤◌, ◌<◌, ◌≡◌, ◌≢◌, refl, sym, ap, subst, ◌∙◌, inl, inr, true, false,
  Option, none, some, List, ◌==◌, length, update, update_same, update_ne, Outcome, ok, Returns,
  lt→ltb, le→leb, lt-suc_cases, arith,
}
use cute.Bitmap.{bit_is_clear, bitmap_first_zero_bit}
use cute.Bitmap.Search.{bit_test, IsFirst, bitmap_first_zero_bit-IsFirst}
use cute.Bitmap.Update.{IsBytes, bit_at, Updated, bitmap_set_bit-Updated}
use cute.Ext2.Volume.{Volume, GroupDesc, read_bytes, write_bytes, block_read, block_write}
use cute.Ext2.Groups.{first_blk, last_blk, count_block, take_block, block_alloc_from, block_alloc}
use cute.Ext2.Content.Bytes.{length-read_bytes, access_ok_lem}
use cute.Ext2.Content.Written.{read_bytes-write_bytes}

-- The bitmap of the blocks of group `i`
abbrev pub bitmap : Volume → ℕ → List ℕ
bitmap v i = read_bytes (v.block (v.bgd i).block_bitmap) 0 v.block_size

-- The counters agree with the bitmaps as far as the assertions of `block_alloc` ask.
pub record BlocksAreCounted (v : Volume) : Type 0 where
  pub size_small : v.block_size ≤ 4096
  pub bytes : (b k : ℕ) → v.block b k < 256
  pub bitmap_in_range :
      (i : ℕ) → i < v.blockgroups_count → (v.bgd i).block_bitmap < v.sb.blocks_count
  pub clear_bits :
      (i k : ℕ)
      → i < v.blockgroups_count
      → k < v.block_size * 8
      → bit_at (bitmap v i) k ≡ false
      → (first_blk v i + k ≤ last_blk v i)
        × (0 < v.sb.free_blocks_count)
        × (0 < (v.bgd i).free_blocks)
  pub all_set :
      ((i k : ℕ) → i < v.blockgroups_count → k < v.block_size * 8 → bit_at (bitmap v i) k ≡ true)
      → v.sb.free_blocks_count ≡ 0

-- All blocks of the groups before `i` are in use.
abbrev pub FullBefore : Volume → ℕ → Type 0
FullBefore v i = (j k : ℕ) → j < i → k < v.block_size * 8 → bit_at (bitmap v j) k ≡ true

-- The block of bit `k` of group `i`, the first free one, is in use in `w`, and the two counters of free
-- blocks are one less; no other bit of this bitmap, no other block and no other field has changed.
pub record AllocatedAt (v w : Volume) (i k : ℕ) : Type 0 where
  pub group_in : i < v.blockgroups_count
  pub full_before : FullBefore v i
  pub first : IsFirst (bit_test bit_is_clear (bitmap v i)) 0 (v.block_size * 8) (some k)
  pub updated : Updated (bitmap v i) k true (bitmap w i)
  pub some_free : 0 < v.sb.free_blocks_count
  pub some_in_group : 0 < (v.bgd i).free_blocks
  pub total : w.sb ≡ record v.sb { free_blocks_count = v.sb.free_blocks_count - 1 }
  pub in_its_group : w.bgd i ≡ record (v.bgd i) { free_blocks = (v.bgd i).free_blocks - 1 }
  pub other_groups : (j : ℕ) → j ≢ i → w.bgd j ≡ v.bgd j
  pub other_blocks : (b : ℕ) → b ≢ (v.bgd i).block_bitmap → w.block b ≡ v.block b
  pub inodes : w.inodes ≡ v.inodes
  pub same_size : w.block_size ≡ v.block_size
  pub same_count : w.blockgroups_count ≡ v.blockgroups_count
  pub same_last : w.last_blockgroup ≡ v.last_blockgroup

-- A block was allocated, or all are in use and the volume is as before.
pub data BlockAllocated (v : Volume) : Volume × ℕ → Type 0 where
  none_free : FullBefore v v.blockgroups_count → BlockAllocated v (v, 0)
  allocated : {w : Volume} (i k : ℕ) → AllocatedAt v w i k → BlockAllocated v (w, first_blk v i + k)

-- The volume after the bitmap of group `i` was written.
abbrev marked : Volume → ℕ → List ℕ → Volume
marked v i new =
    let w = count_block v i in
    let b = (v.bgd i).block_bitmap in
    record w { block = update v.block b (write_bytes (v.block b) 0 new) }

bitmap-marked :
    (v : Volume) (i : ℕ) (new : List ℕ)
    → length new ≡ v.block_size
    → bitmap (marked v i new) i ≡ new
bitmap-marked v i new same =
    let b = (v.bgd i).block_bitmap in
    let counted : GroupDesc = record (v.bgd i) { free_blocks = (v.bgd i).free_blocks - 1 } in
    let w = marked v i new in
    ap (λ g. read_bytes (w.block g.block_bitmap) 0 v.block_size) (update_same v.bgd i counted)
    ∙ ap (λ f. read_bytes f 0 v.block_size) (update_same v.block b (write_bytes (v.block b) 0 new))
    ∙ ap (read_bytes (write_bytes (v.block b) 0 new) 0) (sym same)
    ∙ read_bytes-write_bytes (v.block b) 0 new

block_write-marked :
    (v : Volume) (i : ℕ) (new : List ℕ)
    → (v.bgd i).block_bitmap < v.sb.blocks_count
    → length new ≡ v.block_size
    → v.block_size ≤ 4096
    → block_write (count_block v i) (v.bgd i).block_bitmap new 0 ≡ ok (marked v i new)
unfolding block_write
block_write-marked v i new h same small =
    rw (access_ok_lem (count_block v i) (v.bgd i).block_bitmap 0 (length new) h (omega arith) small)

AllocatedAt-marked :
    (v : Volume) (i k : ℕ) (new : List ℕ)
    → i < v.blockgroups_count
    → FullBefore v i
    → IsFirst (bit_test bit_is_clear (bitmap v i)) 0 (v.block_size * 8) (some k)
    → Updated (bitmap v i) k true new
    → 0 < v.sb.free_blocks_count
    → 0 < (v.bgd i).free_blocks
    → AllocatedAt v (marked v i new) i k
AllocatedAt-marked v i k new h full first u total group =
    let b = (v.bgd i).block_bitmap in
    let counted : GroupDesc = record (v.bgd i) { free_blocks = (v.bgd i).free_blocks - 1 } in
    record {
      group_in = h;
      full_before = full;
      first = first;
      updated =
          subst (Updated (bitmap v i) k true)
            (sym (
              bitmap-marked v i new (u.length_same ∙ length-read_bytes (v.block b) 0 v.block_size)))
            u;
      some_free = total;
      some_in_group = group;
      total = refl;
      in_its_group = update_same v.bgd i counted;
      other_groups = λ j ne. update_ne v.bgd i j counted ne;
      other_blocks = λ d ne. update_ne v.block b d (write_bytes (v.block b) 0 new) ne;
      inodes = refl;
      same_size = refl;
      same_count = refl;
      same_last = refl;
    }

clear_of_set : (buf : List ℕ) (k : ℕ) → bit_test bit_is_clear buf k ≡ true → bit_at buf k ≡ false
unfolding bit_is_clear
clear_of_set buf k h = ground arith

set_of_clear : (buf : List ℕ) (k : ℕ) → bit_test bit_is_clear buf k ≡ false → bit_at buf k ≡ true
unfolding bit_is_clear
set_of_clear buf k h = ground arith

pub read_bytes-IsBytes : (f : ℕ → ℕ) (j n : ℕ) → ((k : ℕ) → f k < 256) → IsBytes (read_bytes f j n)
read_bytes-IsBytes f j zero h k = omega arith
read_bytes-IsBytes f j (suc n) h zero = h j
read_bytes-IsBytes f j (suc n) h (suc k) = read_bytes-IsBytes f (suc j) n h k

module _ (v : Volume) (c : BlocksAreCounted v) where
  bitmap-IsBytes : (i : ℕ) → IsBytes (bitmap v i)
  bitmap-IsBytes i =
      read_bytes-IsBytes (v.block (v.bgd i).block_bitmap) 0 v.block_size
        (c.bytes (v.bgd i).block_bitmap)

  block_read-bitmap :
      (i : ℕ)
      → i < v.blockgroups_count
      → block_read v (v.bgd i).block_bitmap 0 v.block_size ≡ ok (bitmap v i)
  unfolding block_read
  block_read-bitmap i h = rw (
      access_ok_lem v (v.bgd i).block_bitmap 0 v.block_size (c.bitmap_in_range i h) (omega arith)
        c.size_small)

  -- The first clear bit of group `i` is taken.
  take_block-AllocatedAt :
      (i k : ℕ) (later : Outcome (Volume × ℕ))
      → i < v.blockgroups_count
      → FullBefore v i
      → IsFirst (bit_test bit_is_clear (bitmap v i)) 0 (v.block_size * 8) (some k)
      → Returns (BlockAllocated v) (take_block v i (bitmap v i) (some k) later)
  unfolding take_block
  take_block-AllocatedAt i k later h full first =
      let (_, inside, clear, _) = first in
      let small = c.size_small in
      let size = length-read_bytes (v.block (v.bgd i).block_bitmap) 0 v.block_size in
      let (fits, total, group) = c.clear_bits i k h inside (clear_of_set (bitmap v i) k clear) in
      let (new, e, u) =
        bitmap_set_bit-Updated (bitmap v i) k (omega arith) (bitmap-IsBytes i) (omega arith) in
      let t1 = le→leb (first_blk v i + k) (last_blk v i) fits in
      let t2 = lt→ltb 0 v.sb.free_blocks_count total in
      let t3 = lt→ltb 0 (v.bgd i).free_blocks group in
      let w = block_write-marked v i new (c.bitmap_in_range i h) (u.length_same ∙ size) small in
      rw (t1, t2, t3, e, w)
        (
          (marked v i new, first_blk v i + k),
          refl,
          allocated i k (AllocatedAt-marked v i k new h full first u total group),
        )

  -- The groups from `i` on, those before being full.
  block_alloc_from-BlockAllocated :
      (n i : ℕ)
      → i + n ≡ v.blockgroups_count
      → FullBefore v i
      → Returns (BlockAllocated v) (block_alloc_from v n i)
  unfolding block_alloc_from take_block
  block_alloc_from-BlockAllocated zero i h full =
      let all : FullBefore v v.blockgroups_count = subst (FullBefore v) (omega arith) full in
      let none_left : v.sb.free_blocks_count ≡ 0 = c.all_set (λ j k a b. all j k a b) in
      let test : (v.sb.free_blocks_count == 0) ≡ true = ground arith in
      rw test ((v, 0), refl, none_free all)
  block_alloc_from-BlockAllocated (suc n) i h full =
      let here : i < v.blockgroups_count = omega arith in
      let later = block_alloc_from v n (suc i) in
      rw (block_read-bitmap i here) (
        search i here (bitmap_first_zero_bit (bitmap v i)) full (first_zero i) later
          (λ full'. block_alloc_from-BlockAllocated n (suc i) (omega arith) full'))
    where
      first_zero :
          (i : ℕ)
          → IsFirst
              (bit_test bit_is_clear (bitmap v i))
              0
              (v.block_size * 8)
              (bitmap_first_zero_bit (bitmap v i))
      first_zero i =
          let size = length-read_bytes (v.block (v.bgd i).block_bitmap) 0 v.block_size in
          subst
            (λ l.
              IsFirst (bit_test bit_is_clear (bitmap v i)) 0 (l * 8)
                (bitmap_first_zero_bit (bitmap v i)))
            size (bitmap_first_zero_bit-IsFirst (bitmap v i) (omega (arith, c.size_small)))

      search :
          (i : ℕ)
          → i < v.blockgroups_count
          → (r : Option ℕ) → FullBefore v i
          → IsFirst (bit_test bit_is_clear (bitmap v i)) 0 (v.block_size * 8) r
          → (later : Outcome (Volume × ℕ))
          → (FullBefore v (suc i) → Returns (BlockAllocated v) later)
          → Returns (BlockAllocated v) (take_block v i (bitmap v i) r later)
      search i here none full first later rest = rest (λ j k a b. elim (lt-suc_cases a) [
        | inl e ↦
            subst (λ g. bit_at (bitmap v g) k ≡ true) (sym e)
              (set_of_clear (bitmap v i) k (first k (omega arith) b))
        | inr l ↦ full j k l b
      ])
      search i here (some k) full first later rest =
          take_block-AllocatedAt i k later here full first

-- Where the counters agree with the bitmaps, which lie in the volume, with blocks of at most 4096
-- bytes, `block_alloc` returns: the first free block of the first group that has one, which is then
-- in use and counted, with everything else as before; or 0 and the volume as it was, where every
-- block is in use.
pub block_alloc-BlockAllocated :
    (v : Volume) → BlocksAreCounted v → Returns (BlockAllocated v) (block_alloc v)
unfolding block_alloc
block_alloc-BlockAllocated v c =
    block_alloc_from-BlockAllocated v c v.blockgroups_count 0 (omega arith)
      (λ j k a b. absurd (omega arith))
