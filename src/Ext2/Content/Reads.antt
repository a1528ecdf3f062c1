-- ===== src/Ext2/Content/Reads.antt =====
-- ext2/ext2.c: what `file_read` returns of a file whose blocks are mapped.
use native.Mathlib.Nat.{mod-lt, mul-le-mul_right}
use cute.Base.{
  ℕ, zero, suc, ◌+◌, ◌-◌, ◌*◌, ◌/◌, ◌%◌, ◌^◌, ◌≤◌, ◌<◌, min, ◌≡◌, refl, ap, inl, inr, true, not,
  ◌||◌, leb, ◌==◌, ok, arith, Bool-cases, lt→ltb, le→leb,
}
use cute.Ext2.Volume.{Volume, Inode, nr_direct_blks, read_bytes}
use cute.Ext2.Content.{has_content, supported_area, clip, read_size, read_loop, file_read}
use cute.Ext2.Content.Bytes.{byte_at, Mapped, read_bytes-append, block_index, block_read-byte_at}

-- The assertion that the end of the file ends the loop.
last_turn : (end size rest : ℕ) → end + rest ≤ size → (not (end == size) || (rest == 0)) ≡ true
last_turn end size rest h = ground arith

-- The loop reads the bytes of the file, with as much fuel as there are bytes to read.
pub read_loop_lem :
    (fuel : ℕ) (v : Volume) (inode : Inode) (n offset len : ℕ)
    → Mapped v inode.blocks n
    → offset + len ≤ n * v.block_size
    → offset + len ≤ inode.size_low
    → len ≤ fuel
    → read_loop fuel v inode offset len ≡ ok (read_bytes (byte_at v inode.blocks) offset len)
unfolding read_loop
read_loop_lem zero v inode n offset zero m h k f = refl
read_loop_lem (suc fuel) v inode n offset zero m h k f = refl
read_loop_lem zero v inode n offset (suc len) m h k f = absurd (omega arith)
read_loop_lem (suc fuel) v inode n offset (suc len) m h k f =
    let bs = v.block_size in
    let small : offset % bs < bs = mod-lt offset m.size_pos in
    let r = min (bs - offset % bs) (suc len) in
    let index = block_index bs n offset m.size_pos (omega arith) in
    let direct = lt→ltb (offset / bs) nr_direct_blks (omega (arith, m.direct)) in
    let here = block_read-byte_at v inode.blocks n offset r m (omega arith) (omega arith) in
    let inside = le→leb (offset + r) inode.size_low (omega arith) in
    let last = last_turn (offset + r) inode.size_low (suc len - r) (omega arith) in
    let rest =
      read_loop_lem fuel v inode n (offset + r) (suc len - r) m (omega arith) (omega arith)
        (omega arith) in
    let joined =
      read_bytes-append (byte_at v inode.blocks) offset (offset + r) r (suc len - r) refl in
    let all : r + (suc len - r) ≡ suc len = omega arith in
    rw (direct, here, inside, last, rest, joined)
      (ap (λ j. ok (read_bytes (byte_at v inode.blocks) offset j)) all)

pub clip_inside :
    (limit offset len : ℕ)
    → offset + len ≤ limit
    → offset + len < 2 ^ 32
    → clip limit offset len ≡ len
clip_inside limit offset len h k = ground arith

-- The mapped blocks lie within the area that the driver supports.
pub area_small :
    (v : Volume) (blocks : ℕ → ℕ) (n : ℕ)
    → Mapped v blocks n
    → (n * v.block_size ≤ supported_area v) × (n * v.block_size ≤ 49152)
area_small v blocks n m =
    let direct = m.direct in
    let small = m.size_small in
    let a : n * v.block_size ≤ 12 * v.block_size = mul-le-mul_right v.block_size direct in
    (omega arith, omega arith)

clip_end :
    (limit offset len : ℕ)
    → offset ≤ limit
    → offset + len < 2 ^ 32
    → clip limit offset len ≡ min len (limit - offset)
clip_end limit offset len h k = ground arith

-- A read of a file of which all blocks are mapped returns the file's bytes, up to its end.
pub file_read-byte_at :
    (v : Volume) (inode : Inode) (n offset len : ℕ)
    → has_content inode ≡ true
    → Mapped v inode.blocks n
    → inode.size_low ≤ n * v.block_size
    → offset + len < 2 ^ 32
    → file_read v inode offset len
      ≡ ok (read_bytes (byte_at v inode.blocks) offset (min len (inode.size_low - offset)))
unfolding file_read read_size
file_read-byte_at v inode n offset len content m whole small =
    let size = inode.size_low in
    elim (Bool-cases (leb size offset)) [
      | inl e ↦
          let none_left : min len (size - offset) ≡ 0 = ground arith in rw (content, e, none_left)
      | inr e ↦
          let inside : offset ≤ size = ground arith in
          let (area, _) = area_small v inode.blocks n m in
          let c1 = clip_end size offset len inside small in
          let c2 =
            clip_inside (supported_area v) offset (min len (size - offset)) (omega arith)
              (omega arith) in
          let reads =
            read_loop_lem (min len (size - offset)) v inode n offset (min len (size - offset)) m
              (omega arith) (omega arith) (omega arith) in
          rw (content, e, c1, c2, reads)
    ]
