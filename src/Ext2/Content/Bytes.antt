-- ===== src/Ext2/Content/Bytes.antt =====
-- ext2/ext2.c: a file's content as the bytes of its blocks in a row, which `file_read` reads.
use native.Mathlib.Nat.{div-lt_iff_lt-mul}
use cute.Base.{
  ℕ, zero, suc, ◌+◌, ◌*◌, ◌/◌, ◌%◌, ◌^◌, ◌≤◌, ◌<◌, ◌≡◌, ◌≢◌, refl, sym, ap, ◌∙◌, true, ◌∷◌, ◌++◌,
  length, ok, arith, lt→ltb, le→leb, div_mod_within,
}
use cute.Ext2.Volume.{Volume, read_bytes, access_ok, block_read}

-- The byte of the file at `k`.
abbrev pub byte_at : Volume → (ℕ → ℕ) → ℕ → ℕ
byte_at v blocks k = v.block (blocks (k / v.block_size)) (k % v.block_size)

-- The first `n` blocks of the file are blocks of the volume, each its own.
pub record Mapped (v : Volume) (blocks : ℕ → ℕ) (n : ℕ) : Type 0 where
  pub size_pos : 0 < v.block_size
  pub size_small : v.block_size ≤ 4096
  pub direct : n ≤ 12
  pub in_range : (i : ℕ) → i < n → blocks i < v.sb.blocks_count
  pub nonzero : (i : ℕ) → i < n → blocks i ≢ 0
  pub distinct : (i j : ℕ) → i < n → j < n → i ≢ j → blocks i ≢ blocks j

pub read_bytes-ext :
    (f g : ℕ → ℕ) (i j n : ℕ)
    → ((x y : ℕ) → i ≤ x → x < i + n → y + i ≡ x + j → f x ≡ g y)
    → read_bytes f i n ≡ read_bytes g j n
read_bytes-ext f g i j zero h = refl
read_bytes-ext f g i j (suc n) h =
    let head : f i ≡ g j = h i j (omega arith) (omega arith) (omega arith) in
    let tail =
      read_bytes-ext f g (suc i) (suc j) n
        (λ x y a b e. h x y (omega arith) (omega arith) (omega arith)) in
    cc

pub read_bytes-append :
    (f : ℕ → ℕ) (i j a b : ℕ)
    → j ≡ i + a
    → read_bytes f i a ++ read_bytes f j b ≡ read_bytes f i (a + b)
read_bytes-append f i j zero b e =
    let here : j ≡ i = omega arith in
    let none_read : 0 + b ≡ b = omega arith in rw (here, none_read)
read_bytes-append f i j (suc a) b e =
    let one_more : suc a + b ≡ suc (a + b) = omega arith in
    rw one_more (ap (◌∷◌ (f i)) (read_bytes-append f (suc i) j a b (omega arith)))

pub length-read_bytes : (f : ℕ → ℕ) (i n : ℕ) → length (read_bytes f i n) ≡ n
length-read_bytes f i zero = refl
length-read_bytes f i (suc n) = ap suc (length-read_bytes f (suc i) n)

-- A position below the end of the `n`-th block lies in one of the first `n` blocks.
pub block_index : (bs n k : ℕ) → 0 < bs → k < n * bs → k / bs < n
block_index bs n k pos h = (div-lt_iff_lt-mul pos).1 h

-- The access of one turn is within its block.
pub access_ok_lem :
    (v : Volume) (block offset len : ℕ)
    → block < v.sb.blocks_count
    → offset + len ≤ v.block_size
    → v.block_size ≤ 4096
    → access_ok v block offset len ≡ true
unfolding access_ok
access_ok_lem v block offset len h k small =
    let a = lt→ltb block v.sb.blocks_count h in
    let b = le→leb ((offset + len) % 2 ^ 32) v.block_size (omega arith) in rw (a, b)

-- What one turn reads are bytes of the file.
pub block_read-byte_at :
    (v : Volume) (blocks : ℕ → ℕ) (n offset len : ℕ)
    → Mapped v blocks n
    → offset < n * v.block_size
    → offset % v.block_size + len ≤ v.block_size
    → block_read v (blocks (offset / v.block_size)) (offset % v.block_size) len
      ≡ ok (read_bytes (byte_at v blocks) offset len)
unfolding block_read
block_read-byte_at v blocks n offset len m h k =
    let index = block_index v.block_size n offset m.size_pos h in
    let access =
      access_ok_lem v _ (offset % v.block_size) len (m.in_range _ index) k m.size_small in
    let same =
      read_bytes-ext (v.block (blocks (offset / v.block_size))) (byte_at v blocks)
        (offset % v.block_size) offset len
        (λ x y a b e.
          let (q, r) = div_mod_within v.block_size offset x y a (omega arith) e in
          ap (λ d. v.block (blocks d) x) (sym q)
          ∙ ap (v.block (blocks (y / v.block_size))) (sym r)) in
    rw (access, same)
