-- ===== src/Ext2/Content/Written.antt =====
-- ext2/ext2.c: what a write of bytes makes of a file whose blocks are mapped, and of the volume.
use native.Mathlib.Nat.{div-add-mod'}
use cute.Base.{
  ℕ, suc, ◌+◌, ◌-◌, ◌*◌, ◌/◌, ◌%◌, ◌≤◌, ◌<◌, max, ◌≡◌, ◌≢◌, refl, sym, ap, subst, ◌∙◌, ◌⊎◌, inl,
  inr, true, false, List, [], ◌∷◌, ◌++◌, ltb, ◌==◌, if◌then◌else◌, length, length-append, update,
  update_same, update_ne, arith, div_mod_within,
}
use cute.Ext2.Volume.{Volume, read_bytes, write_bytes}
use cute.Ext2.Content.Bytes.{byte_at, Mapped, block_index}

-- The size of a file of `size` bytes after a write of `len` bytes.
abbrev pub size_after : ℕ → ℕ → ℕ → ℕ
size_after size offset len = if len == 0 then size else max size (offset + len)

-- The bytes stand in the file at the offset; nothing else of its blocks, of the other blocks, and of
-- the other inodes has changed.
pub record Written (v w : Volume) (inum : ℕ) (blocks : ℕ → ℕ) (n offset : ℕ) (buf : List ℕ)
    : Type 0 where
  pub same_sb : w.sb ≡ v.sb
  pub same_block_size : w.block_size ≡ v.block_size
  pub same_groups : w.blockgroups_count ≡ v.blockgroups_count
  pub same_blocks : (w.inodes inum).blocks ≡ (v.inodes inum).blocks
  pub same_mode : (w.inodes inum).mode ≡ (v.inodes inum).mode
  pub size : (w.inodes inum).size_low ≡ size_after (v.inodes inum).size_low offset (length buf)
  pub bytes :
      (k : ℕ)
      → k < n * v.block_size
      → byte_at w blocks k ≡ write_bytes (byte_at v blocks) offset buf k
  pub other_blocks : (b : ℕ) → ((i : ℕ) → i < n → b ≢ blocks i) → w.block b ≡ v.block b
  pub other_inodes : (j : ℕ) → j ≢ inum → w.inodes j ≡ v.inodes j

write_here :
    (x y i j a b c : ℕ)
    → y + i ≡ x + j
    → a ≡ b
    → ◌≡◌ {A = ℕ} (if x == i then c else a) (if y == j then c else b)
write_here x y i j a b c e h = ground arith

pub write_bytes-ext :
    (f g : ℕ → ℕ) (i j x y : ℕ) (buf : List ℕ)
    → y + i ≡ x + j
    → f x ≡ g y
    → write_bytes f i buf x ≡ write_bytes g j buf y
write_bytes-ext f g i j x y [] e h = h
write_bytes-ext f g i j x y (c ∷ buf) e h =
    write_bytes-ext (update f i c) (update g j c) (suc i) (suc j) x y buf (omega arith)
      (write_here x y i j (f x) (g y) c e h)

pub write_bytes-outside :
    (f : ℕ → ℕ) (i x : ℕ) (buf : List ℕ)
    → (x < i) ⊎ (i + length buf ≤ x)
    → write_bytes f i buf x ≡ f x
write_bytes-outside f i x [] h = refl
write_bytes-outside f i x (c ∷ buf) h =
    let later : (x < suc i) ⊎ (suc i + length buf ≤ x) = omega arith in
    let ne : x ≢ i = omega arith in
    write_bytes-outside (update f i c) (suc i) x buf later ∙ update_ne f i x c ne

pub read_bytes-write_bytes :
    (f : ℕ → ℕ) (i : ℕ) (buf : List ℕ) → read_bytes (write_bytes f i buf) i (length buf) ≡ buf
read_bytes-write_bytes f i [] = refl
read_bytes-write_bytes f i (b ∷ buf) =
    let head : write_bytes (update f i b) (suc i) buf i ≡ b =
      write_bytes-outside (update f i b) (suc i) i buf (inl (omega arith)) ∙ update_same f i b in
    let tail = read_bytes-write_bytes (update f i b) (suc i) buf in cc

pub write_bytes-append :
    (f : ℕ → ℕ) (i j : ℕ) (a b : List ℕ) (x : ℕ)
    → j ≡ i + length a
    → write_bytes (write_bytes f i a) j b x ≡ write_bytes f i (a ++ b) x
write_bytes-append f i j [] b x e = let here : j ≡ i = omega arith in rw here
write_bytes-append f i j (c ∷ a) b x e =
    write_bytes-append (update f i c) (suc i) j a b x (omega arith)

eq_or_ne : (a b : ℕ) → (a ≡ b) ⊎ (a ≢ b)
eq_or_ne a b = omega arith

-- Positions in another block are outside of what is written to this one.
other_block :
    (bs offset k len : ℕ)
    → offset % bs + len ≤ bs
    → k / bs ≢ offset / bs
    → (k < offset) ⊎ (offset + len ≤ k)
other_block bs offset k len fits ne =
    let cases : (k < offset) ⊎ ((offset + len ≤ k) ⊎ ((offset ≤ k) × (k < offset + len))) =
      omega arith in
    elim cases [
      | inl a ↦ inl a
      | inr (inl b) ↦ inr b
      | inr (inr (c, d)) ↦ absurd (
          ne
            (div_mod_within bs offset (k - offset + offset % bs) k (omega arith) (omega arith)
              (omega arith)).0)
    ]

-- A write within one block, as the file's bytes show it.
pub block_written :
    (v w : Volume) (blocks : ℕ → ℕ) (n offset : ℕ) (buf : List ℕ)
    → Mapped v blocks n
    → offset < n * v.block_size
    → offset % v.block_size + length buf ≤ v.block_size
    → w.block_size ≡ v.block_size
    → let b = blocks (offset / v.block_size) in
      w.block ≡ update v.block b (write_bytes (v.block b) (offset % v.block_size) buf)
      → (k : ℕ) → k < n * v.block_size
      → byte_at w blocks k ≡ write_bytes (byte_at v blocks) offset buf k
block_written v w blocks n offset buf m h fits bs_eq eq k kn =
    let bs = v.block_size in
    let b = blocks (offset / bs) in
    let new = write_bytes (v.block b) (offset % bs) buf in
    let unfolded : byte_at w blocks k ≡ update v.block b new (blocks (k / bs)) (k % bs) =
      ap (λ s. w.block (blocks (k / s)) (k % s)) bs_eq
      ∙ ap (λ t. t (blocks (k / bs)) (k % bs)) eq in
    let index = block_index bs n k m.size_pos kn in
    let index' = block_index bs n offset m.size_pos h in
    elim (eq_or_ne (k / bs) (offset / bs)) [
      | inl q ↦
          let e1 = div-add-mod' k bs in
          let e2 = div-add-mod' offset bs in
          let e3 = ap (λ d. d * bs) q in
          let hit = ap (λ d. update v.block b new (blocks d)) q ∙ update_same v.block b new in
          unfolded
          ∙ ap (λ t. t (k % bs)) hit
          ∙ write_bytes-ext (v.block b) (byte_at v blocks) (offset % bs) offset (k % bs) k buf
              (omega arith) (ap (λ d. v.block (blocks d) (k % bs)) (sym q))
      | inr ne ↦
          let miss =
            update_ne v.block b (blocks (k / bs)) new
              (m.distinct (k / bs) (offset / bs) index index' ne) in
          unfolded
          ∙ ap (λ t. t (k % bs)) miss
          ∙ sym (
              write_bytes-outside (byte_at v blocks) offset k buf
                (other_block bs offset k (length buf) fits ne))
    ]

pub size_kept :
    (size end : ℕ) (len : ℕ)
    → 0 < len
    → ltb size (end + len) ≡ false
    → size ≡ size_after size end len
size_kept size end len pos h = ground arith

pub size_grown :
    (size end : ℕ) (len : ℕ)
    → 0 < len
    → ltb size (end + len) ≡ true
    → end + len ≡ size_after size end len
size_grown size end len pos h = ground arith

size_twice :
    (s0 s1 s2 offset a b : ℕ)
    → s1 ≡ size_after s0 offset a
    → s2 ≡ size_after s1 (offset + a) b
    → s2 ≡ size_after s0 offset (a + b)
size_twice s0 s1 s2 offset a b e f = ground arith

-- Two writes, one behind the other.
pub Written-append :
    (u v w : Volume) (inum : ℕ) (blocks : ℕ → ℕ) (n offset : ℕ) (a b : List ℕ)
    → Written u v inum blocks n offset a
    → Written v w inum blocks n (offset + length a) b
    → Written u w inum blocks n offset (a ++ b)
Written-append u v w inum blocks n offset a b p q = record {
  same_sb = q.same_sb ∙ p.same_sb;
  same_block_size = q.same_block_size ∙ p.same_block_size;
  same_groups = q.same_groups ∙ p.same_groups;
  same_blocks = q.same_blocks ∙ p.same_blocks;
  same_mode = q.same_mode ∙ p.same_mode;
  size =
      subst (λ l. (w.inodes inum).size_low ≡ size_after (u.inodes inum).size_low offset l)
        (sym (length-append a b))
        (size_twice (u.inodes inum).size_low (v.inodes inum).size_low (w.inodes inum).size_low
          offset (length a) (length b) p.size q.size);
  bytes = λ k kn.
      q.bytes k (subst (λ s. k < n * s) (sym p.same_block_size) kn)
      ∙ write_bytes-ext (byte_at v blocks) (write_bytes (byte_at u blocks) offset a)
          (offset + length a) (offset + length a) k k b refl (p.bytes k kn)
      ∙ write_bytes-append (byte_at u blocks) offset (offset + length a) a b k refl;
  other_blocks = λ c out. q.other_blocks c out ∙ p.other_blocks c out;
  other_inodes = λ j ne. q.other_inodes j ne ∙ p.other_inodes j ne;
}
