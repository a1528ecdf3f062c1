-- ===== src/Ext2/Content/RoundTrip.antt =====
-- ext2/ext2.c: what `file_write` puts into a file, `file_read` gives back.
use cute.Base.{
  ℕ, ◌+◌, ◌-◌, ◌*◌, ◌^◌, ◌≤◌, ◌<◌, ◌≡◌, refl, sym, ap, subst, ◌∙◌, true, false, ◌||◌, List, [], ◌∷◌,
  leb, length, take, ok, ◌>>=◌, Returns, arith,
}
use cute.Ext2.Volume.{Volume, done, has_type, s_ifreg, s_ifdir, read_bytes, write_bytes}
use cute.Ext2.Content.{
  has_content, supported_area, read_size, file_read, write_loop, with_len, file_write,
}
use cute.Ext2.Content.Bytes.{byte_at, Mapped, read_bytes-ext}
use cute.Ext2.Content.Reads.{read_loop_lem, clip_inside, area_small}
use cute.Ext2.Content.Written.{Written, read_bytes-write_bytes}
use cute.Ext2.Content.Overwrite.{Mapped-Written, write_loop-Written}

take_all : (xs : List ℕ) → take (length xs) xs ≡ xs
take_all [] = refl
take_all (x ∷ xs) = ap (◌∷◌ x) (take_all xs)

module _ (v : Volume) (inum n offset : ℕ) (buf : List ℕ)
    (content : has_content (v.inodes inum) ≡ true) (m : Mapped v (v.inodes inum).blocks n)
    (pos : 0 < length buf) (h : offset + length buf ≤ n * v.block_size) where
  bounds : (offset + length buf ≤ supported_area v) × (offset + length buf ≤ 49152)
  bounds = let (a, b) = area_small v (v.inodes inum).blocks n m in (omega arith, omega arith)

  file_write-loop :
      file_write v inum buf offset
      ≡ (write_loop (length buf) inum v offset buf >>= λ r. ok (with_len (length buf) r))
  unfolding file_write
  file_write-loop =
      let (a, b) = bounds in
      let c1 = clip_inside (supported_area v) offset (length buf) a (omega arith) in
      let c2 = clip_inside (2 ^ 32 - 1) offset (length buf) (omega arith) (omega arith) in
      let inside : (leb (supported_area v) offset || leb (2 ^ 32 - 1) offset) ≡ false =
        ground arith in
      rw (content, inside, c1, c2, take_all buf)

  -- What is written is what the file then holds.
  Written-bytes :
      (w : Volume)
      → Written v w inum (v.inodes inum).blocks n offset buf
      → read_bytes (byte_at w (v.inodes inum).blocks) offset (length buf) ≡ buf
  Written-bytes w p =
      read_bytes-ext _ _ offset offset (length buf) (λ x y a b e.
        let same : x ≡ y = omega arith in
        subst
          (λ z.
            byte_at w (v.inodes inum).blocks x
            ≡ write_bytes (byte_at v (v.inodes inum).blocks) offset buf z)
          same (p.bytes x (omega arith)))
      ∙ read_bytes-write_bytes (byte_at v (v.inodes inum).blocks) offset buf

  pub read_back :
      (w : Volume)
      → Written v w inum (v.inodes inum).blocks n offset buf
      → file_read w (w.inodes inum) offset (length buf) ≡ ok buf
  unfolding file_read read_size
  read_back w p =
      let (a, b) = bounds in
      let size = (w.inodes inum).size_low in
      let grown : offset + length buf ≤ size = ground (arith, p.size) in
      let area : offset + length buf ≤ supported_area w =
        subst (λ s. offset + length buf ≤ s * 12) (sym p.same_block_size) a in
      let c1 = clip_inside size offset (length buf) grown (omega arith) in
      let c2 = clip_inside (supported_area w) offset (length buf) area (omega arith) in
      let content' : has_content (w.inodes inum) ≡ true =
        subst (λ mode. (has_type s_ifreg mode || has_type s_ifdir mode) ≡ true) (sym p.same_mode)
          content in
      let inside : leb size offset ≡ false = ground arith in
      let m' = subst (λ bl. Mapped w bl n) (sym p.same_blocks) (Mapped-Written m p) in
      let reads =
        read_loop_lem (length buf) w (w.inodes inum) n offset (length buf) m'
          (subst (λ s. offset + length buf ≤ n * s) (sym p.same_block_size) h) grown
          (omega arith) in
      let bytes =
        ap (λ bl. read_bytes (byte_at w bl) offset (length buf)) p.same_blocks
        ∙ Written-bytes w p in
      rw (content', inside, c1, c2, reads, bytes)

-- A write of some bytes to a regular file or a directory, within its first `n` blocks, which are
-- direct blocks of at most 4096 bytes that the volume has for this file alone, returns their
-- number. The bytes stand in the file then, its size grows where they go past its end, nothing else
-- of these blocks, of other blocks and of other inodes changes, and a read at the same place
-- returns the bytes.
pub file_write-Written :
    (v : Volume) (inum n offset : ℕ) (buf : List ℕ)
    → has_content (v.inodes inum) ≡ true
    → Mapped v (v.inodes inum).blocks n
    → 0 < length buf
    → offset + length buf ≤ n * v.block_size
    → Returns
        (λ r.
          (r.1 ≡ done (length buf))
          × Written v (r.0) inum (v.inodes inum).blocks n offset buf
          × (file_read (r.0) ((r.0).inodes inum) offset (length buf) ≡ ok buf))
        (file_write v inum buf offset)
file_write-Written v inum n offset buf content m pos h =
    let ((w, ret), e, (eq, p)) =
      write_loop-Written (length buf) inum v _ n offset buf refl m h (omega arith) in
    let back = read_back v inum n offset buf content m pos h w p in
    let result =
      file_write-loop v inum n offset buf content m pos h
      ∙ ap (λ o. o >>= λ r. ok (with_len (length buf) r)) e in
    (
      (w, done (length buf)),
      result ∙ ap (λ q. ok (with_len (length buf) (w, q))) eq,
      (refl, p, back),
    )
