-- ===== src/Ext2/Content/Overwrite.antt =====
-- ext2/ext2.c: `file_write` to blocks that the file has, and `file_read` of what was written.
use native.Mathlib.Nat.{mod-lt}
use cute.Base.{
  ceil_div, ℕ, zero, suc, ◌+◌, ◌-◌, ◌*◌, ◌/◌, ◌%◌, ◌≤◌, ◌<◌, min, ◌≡◌, ◌≢◌, refl, sym, ap, subst,
  ◌∙◌, inl, inr, false, List, [], ◌∷◌, ltb, ◌==◌, if◌then◌else◌, length, take, drop,
  take-append-drop, length-take, length-drop, update, update_same, update_ne, Bool-cases, ok,
  Returns, arith, lt→ltb,
}
use cute.Ext2.Volume.{Volume, done, nr_direct_blks, set_inode, write_bytes, block_write}
use cute.Ext2.Content.{grow, map_block, write_turn, write_loop}
use cute.Ext2.Content.Bytes.{Mapped, block_index, access_ok_lem}
use cute.Ext2.Content.Written.{Written, Written-append, block_written, size_kept, size_grown}

-- The volume after one block of the file was written.
abbrev put : Volume → ℕ → List ℕ → ℕ → Volume
put v b buf offset = record v { block = update v.block b (write_bytes (v.block b) offset buf) }

block_write-put :
    (v : Volume) (b : ℕ) (buf : List ℕ) (offset : ℕ)
    → b < v.sb.blocks_count
    → offset + length buf ≤ v.block_size
    → v.block_size ≤ 4096
    → block_write v b buf offset ≡ ok (put v b buf offset)
unfolding block_write
block_write-put v b buf offset h k small = rw (access_ok_lem v b offset (length buf) h k small)

-- One turn of the loop: a piece is written within its block, and the file may have become longer.
turn-Written :
    (v : Volume) (inum n offset : ℕ) (buf : List ℕ)
    → let blocks = (v.inodes inum).blocks in
      Mapped v blocks n
      → offset < n * v.block_size
      → offset % v.block_size + length buf ≤ v.block_size
      → 0 < length buf
      → Written v
          (grow
            (put v (blocks (offset / v.block_size)) buf (offset % v.block_size))
            inum
            (offset + length buf))
          inum
          blocks
          n
          offset
          buf
turn-Written v inum n offset buf m h fits pos =
    let old = v.inodes inum in
    let b = old.blocks (offset / v.block_size) in
    let index = block_index v.block_size n offset m.size_pos h in
    let w = put v b buf (offset % v.block_size) in
    let others = λ (c : ℕ) (out : (i : ℕ) → i < n → c ≢ old.blocks i).
      update_ne v.block b c (write_bytes (v.block b) (offset % v.block_size) buf)
        (out (offset / v.block_size) index) in
    let longer = record old {
      size_low = offset + length buf;
      i512_blocks = ceil_div (offset + length buf) v.block_size * v.block_size / 512;
    } in
    let same = update_same v.inodes inum longer in
    elim (Bool-cases (ltb old.size_low (offset + length buf))) [
      | inl e ↦
          subst
            (λ t. Written v (if t then set_inode w inum longer else w) inum old.blocks n offset buf)
            (sym e)
            (record {
              same_sb = refl;
              same_block_size = refl;
              same_groups = refl;
              same_blocks = ap (λ i. i.blocks) same;
              same_mode = ap (λ i. i.mode) same;
              size = ap (λ i. i.size_low) same ∙ size_grown old.size_low offset (length buf) pos e;
              bytes = block_written v w old.blocks n offset buf m h fits refl refl;
              other_blocks = others;
              other_inodes = λ j ne. update_ne v.inodes inum j longer ne;
            })
      | inr e ↦
          subst
            (λ t. Written v (if t then set_inode w inum longer else w) inum old.blocks n offset buf)
            (sym e)
            (record {
              same_sb = refl;
              same_block_size = refl;
              same_groups = refl;
              same_blocks = refl;
              same_mode = refl;
              size = size_kept old.size_low offset (length buf) pos e;
              bytes = block_written v w old.blocks n offset buf m h fits refl refl;
              other_blocks = others;
              other_inodes = λ j ne. refl;
            })
    ]

-- A write of nothing.
Written-nothing :
    (v : Volume) (inum n offset : ℕ) → Written v v inum (v.inodes inum).blocks n offset []
Written-nothing v inum n offset = record {
  same_sb = refl;
  same_block_size = refl;
  same_groups = refl;
  same_blocks = refl;
  same_mode = refl;
  size = refl;
  bytes = λ k kn. refl;
  other_blocks = λ b out. refl;
  other_inodes = λ j ne. refl;
}

-- The file's blocks are still mapped after a write.
pub Mapped-Written :
    {v w : Volume} {inum : ℕ} {blocks : ℕ → ℕ} {n offset : ℕ} {buf : List ℕ}
    → Mapped v blocks n
    → Written v w inum blocks n offset buf
    → Mapped w blocks n
Mapped-Written {w} {blocks} m p = record {
  size_pos = subst (λ s. 0 < s) (sym p.same_block_size) m.size_pos;
  size_small = subst (λ s. s ≤ 4096) (sym p.same_block_size) m.size_small;
  direct = m.direct;
  in_range = λ i h. subst (λ sb. blocks i < sb.blocks_count) (sym p.same_sb) (m.in_range i h);
  nonzero = m.nonzero;
  distinct = m.distinct;
}

map_block_mapped :
    (v : Volume) (inum i : ℕ)
    → (v.inodes inum).blocks i ≢ 0
    → map_block v inum i ≡ ok (v, done ((v.inodes inum).blocks i))
unfolding map_block
map_block_mapped v inum i ne =
    let test : ((v.inodes inum).blocks i == 0) ≡ false = ground arith in rw test

-- The state after a turn that writes `len` bytes.
abbrev next_state : Volume → ℕ → (ℕ → ℕ) → ℕ → ℕ → List ℕ → Volume
next_state v inum blocks offset len buf =
    grow (put v (blocks (offset / v.block_size)) (take len buf) (offset % v.block_size)) inum
      (offset + len)

next_state-Written :
    (v : Volume) (inum : ℕ) (blocks : ℕ → ℕ) (n offset len : ℕ) (buf : List ℕ)
    → (v.inodes inum).blocks ≡ blocks
    → Mapped v blocks n
    → offset < n * v.block_size
    → offset % v.block_size + len ≤ v.block_size
    → 0 < len
    → length (take len buf) ≡ len
    → Written v (next_state v inum blocks offset len buf) inum blocks n offset (take len buf)
next_state-Written v inum blocks n offset len buf eq m h fits pos taken =
    let part = take len buf in
    let turned =
      subst
        (λ bl.
          Mapped v bl n
          → Written v
              (grow (put v (bl (offset / v.block_size)) part (offset % v.block_size)) inum
                (offset + length part))
              inum bl n offset part)
        eq (λ m'. turn-Written v inum n offset part m' h (omega arith) (omega arith)) in
    subst
      (λ l.
        Written v
          (grow (put v (blocks (offset / v.block_size)) part (offset % v.block_size)) inum
            (offset + l))
          inum blocks n offset part)
      taken (turned m)

write_loop-step :
    (fuel inum : ℕ) (v : Volume) (n offset : ℕ) (b : ℕ) (buf : List ℕ)
    → let all : List ℕ = b ∷ buf in
      let blocks = (v.inodes inum).blocks in
      let len = min (v.block_size - offset % v.block_size) (length all) in
      Mapped v blocks n
      → offset < n * v.block_size
      → write_loop (suc fuel) inum v offset all
        ≡ write_loop fuel inum
            (next_state v inum blocks offset len all)
            (offset + len)
            (drop len all)
unfolding write_loop write_turn
write_loop-step fuel inum v n offset b buf m h =
    let all : List ℕ = b ∷ buf in
    let i = offset / v.block_size in
    let len = min (v.block_size - offset % v.block_size) (length all) in
    let index = block_index v.block_size n offset m.size_pos h in
    let direct = lt→ltb i nr_direct_blks (omega (arith, m.direct)) in
    let mapped = map_block_mapped v inum i (m.nonzero i index) in
    let taken = length-take len all in
    let small = mod-lt offset m.size_pos in
    let written =
      block_write-put v ((v.inodes inum).blocks i) (take len all) (offset % v.block_size)
        (m.in_range i index) (omega arith) m.size_small in
    rw (direct, mapped, written)

-- The loop writes the bytes, with as much fuel as there are bytes.
pub write_loop-Written :
    (fuel inum : ℕ) (v : Volume) (blocks : ℕ → ℕ) (n offset : ℕ) (buf : List ℕ)
    → (v.inodes inum).blocks ≡ blocks
    → Mapped v blocks n
    → offset + length buf ≤ n * v.block_size
    → length buf ≤ fuel
    → Returns
        (λ r. (r.1 ≡ done tt) × Written v (r.0) inum blocks n offset buf)
        (write_loop fuel inum v offset buf)
unfolding write_loop
write_loop-Written zero inum v blocks n offset [] eq m h f = (
  (v, done tt),
  refl,
  (refl, subst (λ bl. Written v v inum bl n offset []) eq (Written-nothing v inum n offset)),
)
write_loop-Written (suc fuel) inum v blocks n offset [] eq m h f = (
  (v, done tt),
  refl,
  (refl, subst (λ bl. Written v v inum bl n offset []) eq (Written-nothing v inum n offset)),
)
write_loop-Written zero inum v blocks n offset (b ∷ buf) eq m h f = absurd (omega arith)
write_loop-Written (suc fuel) inum v blocks n offset (b ∷ buf) eq m h f =
    let all : List ℕ = b ∷ buf in
    let len = min (v.block_size - offset % v.block_size) (length all) in
    let small = mod-lt offset m.size_pos in
    let taken : length (take len all) ≡ len = omega (arith, length-take len all) in
    let w = next_state v inum blocks offset len all in
    let first =
      next_state-Written v inum blocks n offset len all eq m (omega arith) (omega arith)
        (omega arith) taken in
    let step =
      subst
        (λ bl.
          Mapped v bl n
          → write_loop (suc fuel) inum v offset all
            ≡ write_loop fuel inum (next_state v inum bl offset len all) (offset + len)
                (drop len all))
        eq (λ m'. write_loop-step fuel inum v n offset b buf m' (omega arith)) m in
    let bound : offset + len + length (drop len all) ≤ n * w.block_size =
      subst (λ s. offset + len + length (drop len all) ≤ n * s) (sym first.same_block_size)
        (omega (arith, length-drop len all)) in
    let (r, e, (ret, rest)) =
      write_loop-Written fuel inum w blocks n (offset + len) (drop len all) (first.same_blocks ∙ eq)
        (Mapped-Written m first) bound (omega (arith, length-drop len all)) in
    let rest' =
      subst (λ l. Written w (r.0) inum blocks n (offset + l) (drop len all)) (sym taken) rest in
    let both =
      Written-append v w (r.0) inum blocks n offset (take len all) (drop len all) first rest' in
    (
      r,
      step ∙ e,
      (ret, subst (Written v (r.0) inum blocks n offset) (take-append-drop len all) both),
    )
