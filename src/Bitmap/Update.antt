-- ===== src/Bitmap/Update.antt =====
-- The functions of lib/bitmap.c that set, clear and test one bit.
use cute.Base.{
  ℕ, ◌-◌, ◌*◌, ◌/◌, ◌%◌, ◌^◌, ◌≤◌, ◌<◌, ◌≡◌, ◌≢◌, ◌∙◌, ◌⊎◌, inl, inr, Bool, true, false, List,
  arith, ltb, lt→ltb, ◌==◌, if◌then◌else◌, length, get_or, set, length-set, get_or-set_self,
  get_or-set_ne, bit_and, bit_or, ok, panic,
}
use cute.Bitmap.{
  bit_is_set, bitmap_set_bit, bitmap_clear_bit, bitmap_bit_is_set, bitmap_bit_is_clear,
}
use cute.Bitmap.Bytes.{set_bit_byte, clear_bit_byte}
use cute.Bitmap.Search.{bit_test}

-- Every byte of the buffer is one.
abbrev pub IsBytes : List ℕ → Type 0
IsBytes buf = (i : ℕ) → get_or buf i 0 < 256

-- Bit number `k` is set.
abbrev pub bit_at : List ℕ → ℕ → Bool
bit_at = bit_test bit_is_set

-- What a write to one bit promises of the buffer that it returns.
pub record Updated (old : List ℕ) (bit : ℕ) (on : Bool) (new : List ℕ) : Type 0 where
  pub length_same : length new ≡ length old
  pub bytes : IsBytes new
  pub at_bit : bit_at new bit ≡ on
  pub elsewhere : (k : ℕ) → k ≢ bit → bit_at new k ≡ bit_at old k

eq-or-ne : (a b : ℕ) → (a ≡ b) ⊎ (a ≢ b)
eq-or-ne a b = omega arith

module _ (buf : List ℕ) (bit w : ℕ) (on : Bool) (bytes : IsBytes buf)
    (inside : bit < length buf * 8) (w_byte : w < 256)
    (w_bits : (j : ℕ)
      → j < 8
      → bit_is_set w j ≡ (if bit % 8 == j then on else bit_is_set (get_or buf (bit / 8) 0) j)) where
  byte_in : bit / 8 < length buf
  byte_in = omega arith

  set-IsBytes : IsBytes (set buf (bit / 8) w)
  set-IsBytes i = elim (eq-or-ne (bit / 8) i) [
    | inl e ↦ rw (← e, get_or-set_self buf (bit / 8) w 0 byte_in) w_byte
    | inr ne ↦ rw (get_or-set_ne buf (bit / 8) i w 0 ne) (bytes i)
  ]

  set-at_bit : bit_at (set buf (bit / 8) w) bit ≡ on
  set-at_bit =
      rw (get_or-set_self buf (bit / 8) w 0 byte_in) (w_bits (bit % 8) (omega arith) ∙ ground arith)

  set-elsewhere : (k : ℕ) → k ≢ bit → bit_at (set buf (bit / 8) w) k ≡ bit_at buf k
  set-elsewhere k ne = elim (eq-or-ne (bit / 8) (k / 8)) [
    | inl e ↦
        let other : bit % 8 ≢ k % 8 = omega arith in
        rw (← e, get_or-set_self buf (bit / 8) w 0 byte_in)
          (w_bits (k % 8) (omega arith) ∙ ground arith)
    | inr far ↦ rw (get_or-set_ne buf (bit / 8) (k / 8) w 0 far)
  ]

  set-Updated : Updated buf bit on (set buf (bit / 8) w)
  set-Updated = record {
    length_same = length-set buf (bit / 8) w;
    bytes = set-IsBytes;
    at_bit = set-at_bit;
    elsewhere = set-elsewhere;
  }

module _ (buf : List ℕ) (bit : ℕ) (small : length buf * 8 < 2 ^ 32) where
  -- On a buffer of bytes, of fewer than 2 ^ 32 bits, `bitmap_set_bit` at a bit inside the buffer
  -- returns a buffer of as many bytes in which that bit is set and every other bit is as before.
  pub bitmap_set_bit-Updated :
      IsBytes buf
      → bit < length buf * 8
      → (new : List ℕ) × (bitmap_set_bit buf bit ≡ ok new) × Updated buf bit true new
  unfolding bitmap_set_bit
  bitmap_set_bit-Updated bytes inside = (
    set buf (bit / 8) (bit_or (get_or buf (bit / 8) 0) (2 ^ (bit % 8))),
    rw (lt→ltb bit (length buf * 8 % 2 ^ 32) (omega arith)),
    set-Updated buf bit _ true bytes inside
        (set_bit_byte _ (bit % 8) 0 (bytes (bit / 8)) (omega arith) (omega arith)).0
        (λ j hj. (set_bit_byte _ (bit % 8) j (bytes (bit / 8)) (omega arith) hj).1 ∙ ground arith),
  )

  -- On a buffer of bytes, of fewer than 2 ^ 32 bits, `bitmap_clear_bit` at a bit inside the buffer
  -- returns a buffer of as many bytes in which that bit is clear and every other bit is as before.
  pub bitmap_clear_bit-Updated :
      IsBytes buf
      → bit < length buf * 8
      → (new : List ℕ) × (bitmap_clear_bit buf bit ≡ ok new) × Updated buf bit false new
  unfolding bitmap_clear_bit
  bitmap_clear_bit-Updated bytes inside = (
    set buf (bit / 8) (bit_and (get_or buf (bit / 8) 0) (255 - 2 ^ (bit % 8))),
    rw (lt→ltb bit (length buf * 8 % 2 ^ 32) (omega arith)),
    set-Updated buf bit _ false bytes inside
        (clear_bit_byte _ (bit % 8) 0 (bytes (bit / 8)) (omega arith) (omega arith)).0
        (λ j hj.
          (clear_bit_byte _ (bit % 8) j (bytes (bit / 8)) (omega arith) hj).1 ∙ ground arith),
  )

  pub bit_is_set_inside : bit < length buf * 8 → bitmap_bit_is_set buf bit ≡ ok (bit_at buf bit)
  unfolding bitmap_bit_is_set
  bit_is_set_inside inside = rw (lt→ltb bit (length buf * 8 % 2 ^ 32) (omega arith))

  -- On a buffer of fewer than 2 ^ 32 bits, outside the buffer all four functions on one bit panic.
  pub bitmap_outside :
      length buf * 8 ≤ bit
      → (bitmap_set_bit buf bit ≡ panic)
        × (bitmap_clear_bit buf bit ≡ panic)
        × (bitmap_bit_is_set buf bit ≡ panic)
        × (bitmap_bit_is_clear buf bit ≡ panic)
  unfolding bitmap_set_bit bitmap_clear_bit bitmap_bit_is_clear bitmap_bit_is_set
  bitmap_outside outside =
      let h : ltb bit (length buf * 8 % 2 ^ 32) ≡ false = ground arith in (rw h, rw h, rw h, rw h)
