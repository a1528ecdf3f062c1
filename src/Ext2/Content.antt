-- ===== src/Ext2/Content.antt =====
-- ext2/ext2.c: the content of files, `file_read`, `file_write` and `file_truncate`. A buffer is the
-- list of its bytes.
pub mod Bytes
pub mod Reads
pub mod Written
pub mod Overwrite
pub mod RoundTrip
use cute.Base.{
  ceil_div, ℕ, zero, suc, ◌+◌, ◌-◌, ◌*◌, ◌/◌, ◌%◌, ◌^◌, min, Bool, true, false, not, ◌&&◌, ◌||◌,
  List, [], ◌∷◌, ◌++◌, ltb, leb, ◌==◌, if◌then◌else◌, length, take, drop, update, Outcome, ok,
  panic, ◌>>=◌, ◌>>◌, assert,
}
use cute.Ext2.Volume.{
  Volume, Inode, Ret, done, fail, Errno, ebadf, efbig, enospc, nr_direct_blks, ino_indirect,
  ino_doublein, ino_triplein, has_type, s_ifreg, s_ifdir, set_inode, inode_get, is_type, block_read,
  block_write,
}
use cute.Ext2.Groups.{block_alloc, block_dealloc}

abbrev pub has_content : Inode → Bool
has_content inode = has_type s_ifreg inode.mode || has_type s_ifdir inode.mode

abbrev pub supported_area : Volume → ℕ
supported_area v = v.block_size * nr_direct_blks

-- The length that is read: up to the end of the file and of the direct blocks, `uint64_t` sums.
abbrev pub clip : ℕ → ℕ → ℕ → ℕ
clip limit offset len =
    if ltb limit ((offset + len) % 2 ^ 64) then (limit + 2 ^ 64 - offset) % 2 ^ 64 else len

unfoldable pub read_size : Volume → Inode → ℕ → ℕ → ℕ
read_size v inode offset len = clip (supported_area v) offset (clip inode.size_low offset len)

-- `while (len != 0)`, on fuel: each turn reads one byte at least.
unfoldable pub read_loop : ℕ → Volume → Inode → ℕ → ℕ → Outcome (List ℕ)
read_loop fuel v inode offset zero = ok []
read_loop zero v inode offset (suc len) = panic
read_loop (suc fuel) v inode offset (suc len) = do
  let block = offset / v.block_size
  let blk_offset = offset % v.block_size
  let read_len = min (v.block_size - blk_offset) (suc len)
  assert (ltb block nr_direct_blks)
  bytes ← block_read v (inode.blocks block) blk_offset read_len
  assert (leb (offset + read_len) inode.size_low)
  assert (not (offset + read_len == inode.size_low) || (suc len - read_len == 0))
  rest ← read_loop fuel v inode (offset + read_len) (suc len - read_len)
  ok (bytes ++ rest)

-- The bytes read.
unfoldable pub file_read : Volume → Inode → ℕ → ℕ → Outcome (List ℕ)
file_read v inode offset len =
    if not (has_content inode) || leb inode.size_low offset
    then ok []
    else (let n = read_size v inode offset len in read_loop n v inode offset n)

-- The block that maps the part of the file, allocated where the file has none.
unfoldable pub map_block : Volume → ℕ → ℕ → Outcome (Volume × Ret ℕ)
map_block v inum block =
    if (v.inodes inum).blocks block == 0
    then (do
      (v', new) ← block_alloc v
      let inode = v'.inodes inum
      if new == 0
          then ok (v', fail enospc)
          else ok (
            set_inode v' inum (record inode { blocks = update inode.blocks block new }),
            done new,
          ))
    else ok (v, done ((v.inodes inum).blocks block))

-- A write past the end of the file makes it longer.
abbrev pub grow : Volume → ℕ → ℕ → Volume
grow v inum end =
    let inode = v.inodes inum in
    if ltb inode.size_low end
    then set_inode v inum (record inode {
      size_low = end;
      i512_blocks = ceil_div end v.block_size * v.block_size / 512;
    })
    else v

-- One turn of the loop of `file_write`: what is written of `buf`, and the loop `next` behind it.
unfoldable pub write_turn :
    (Volume → ℕ → List ℕ → Outcome (Volume × Ret (Unit {0})))
    → ℕ
    → ℕ
    → List ℕ
    → ℕ
    → Volume × Ret ℕ
    → Outcome (Volume × Ret (Unit {0}))
write_turn next inum offset buf write_len (v, fail e) = ok (v, fail e)
write_turn next inum offset buf write_len (v, done block) = do
  v' ← block_write v block (take write_len buf) (offset % v.block_size)
  next (grow v' inum (offset + write_len)) (offset + write_len) (drop write_len buf)

-- `while (len != 0)`, on fuel: each turn writes one byte at least.
unfoldable pub write_loop : ℕ → ℕ → Volume → ℕ → List ℕ → Outcome (Volume × Ret (Unit {0}))
write_loop fuel inum v offset [] = ok (v, done tt)
write_loop zero inum v offset (b ∷ buf) = panic
write_loop (suc fuel) inum v offset (b ∷ buf) = do
  let block = offset / v.block_size
  let write_len = min (v.block_size - offset % v.block_size) (length (b ∷ buf))
  assert (ltb block nr_direct_blks)
  mapped ← map_block v inum block
  write_turn (write_loop fuel inum) inum offset (b ∷ buf) write_len mapped

abbrev pub with_len : ℕ → Volume × Ret (Unit {0}) → Volume × Ret ℕ
with_len n (v, done u) = (v, done n)
with_len n (v, fail e) = (v, fail e)

-- The volume afterwards, and the number of bytes written.
unfoldable pub file_write : Volume → ℕ → List ℕ → ℕ → Outcome (Volume × Ret ℕ)
file_write v inum buf offset =
    if not (has_content (v.inodes inum))
    then ok (v, fail ebadf)
    else if leb (supported_area v) offset || leb (2 ^ 32 - 1) offset
    then ok (v, fail efbig)
    else (do
      let n = clip (2 ^ 32 - 1) offset (clip (supported_area v) offset (length buf))
      r ← write_loop n inum v offset (take n buf)
      ok (with_len n r))

-- The 32-bit words of a block.
unfoldable pub words : List ℕ → List ℕ
words (a ∷ b ∷ c ∷ d ∷ rest) = (a + b * 2 ^ 8 + c * 2 ^ 16 + d * 2 ^ 24) ∷ words rest
words [] = []
words (a ∷ []) = []
words (a ∷ b ∷ []) = []
words (a ∷ b ∷ c ∷ []) = []

-- The loop over the entries of an indirect block.
unfoldable pub dealloc_each : (Volume → ℕ → Outcome Volume) → Volume → List ℕ → Outcome Volume
dealloc_each dealloc v [] = ok v
dealloc_each dealloc v (entry ∷ rest) =
    (if entry == 0 then ok v else dealloc v entry) >>= λ v'. dealloc_each dealloc v' rest

-- A tree of blocks, depth first; the level goes down with each step.
unfoldable pub indirect_block_dealloc : ℕ → Volume → ℕ → Outcome Volume
indirect_block_dealloc zero v block = if block == 0 then ok v else block_dealloc v block
indirect_block_dealloc (suc level) v block =
    let tree = (do
      assert (ltb (suc level) 4)
      buf ← block_read v block 0 v.block_size
      v' ← dealloc_each (indirect_block_dealloc level) v (words buf)
      block_dealloc v' block) in
    if block == 0 then ok v else tree

abbrev pub clear_block : Volume → ℕ → ℕ → Volume
clear_block v inum i =
    set_inode v inum (record (v.inodes inum) { blocks = update (v.inodes inum).blocks i 0 })

-- The loop over the direct blocks, from `i` on.
unfoldable pub truncate_direct : ℕ → ℕ → Volume → ℕ → Outcome Volume
truncate_direct zero i v inum = ok v
truncate_direct (suc n) i v inum =
    (if (v.inodes inum).blocks i == 0
      then ok v
      else (do v' ← block_dealloc v ((v.inodes inum).blocks i); ok (clear_block v' inum i)))
    >>= λ w. truncate_direct n (suc i) w inum

-- One of the three indirect trees.
unfoldable pub truncate_tree : ℕ → ℕ → Volume → ℕ → Outcome Volume
truncate_tree level i v inum = do
  v' ← indirect_block_dealloc level v ((v.inodes inum).blocks i)
  ok (clear_block v' inum i)

unfoldable pub file_truncate : Volume → ℕ → Outcome Volume
file_truncate v inum = do
  assert (not (inum == 0))
  assert (leb v.sb.first_inode inum)
  assert (leb inum v.sb.inodes_count)
  regular ← is_type s_ifreg v inum
  assert regular
  let v0 = set_inode v inum (record (v.inodes inum) { size_low = 0; i512_blocks = 0 })
  v1 ← truncate_direct nr_direct_blks 0 v0 inum
  v2 ← truncate_tree 1 ino_indirect v1 inum
  v3 ← truncate_tree 2 ino_doublein v2 inum
  truncate_tree 3 ino_triplein v3 inum
