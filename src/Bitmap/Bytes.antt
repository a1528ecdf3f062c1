-- ===== src/Bitmap/Bytes.antt =====
-- Setting and clearing one bit of a byte, checked over all bytes and bits by evaluation.
use cute.Base.{
  ℕ, zero, suc, ◌-◌, ◌^◌, ◌<◌, ◌≡◌, refl, Bool, true, not, ◌&&◌, ◌||◌, arith, ltb, ltb→lt, ◌==◌,
  bit_and, bit_or,
}
use cute.Bitmap.{bit_is_set}

-- A test of the numbers below a bound, by evaluation.
holds_below : (ℕ → Bool) → ℕ → Bool
holds_below test zero = true
holds_below test (suc top) = holds_below test top && test top

holds_below_sound :
    (test : ℕ → Bool) (top i : ℕ) → i < top → holds_below test top ≡ true → test i ≡ true
unfolding holds_below
holds_below_sound test zero i inside all = absurd (omega arith)
holds_below_sound test (suc top) i inside all = ground (arith, holds_below_sound test top i)

abbrev eqb : Bool → Bool → Bool
eqb Bool.true b = b
eqb Bool.false b = not b

eqb→eq : (a b : Bool) → eqb a b ≡ true → a ≡ b
eqb→eq a b h = ground arith

or_test : ℕ → ℕ → ℕ → Bool
or_test b j v =
    ltb (bit_or v (2 ^ b)) 256 && eqb (bit_is_set (bit_or v (2 ^ b)) j) (b == j || bit_is_set v j)

and_test : ℕ → ℕ → ℕ → Bool
and_test b j v =
    ltb (bit_and v (255 - 2 ^ b)) 256
    && eqb (bit_is_set (bit_and v (255 - 2 ^ b)) j) (not (b == j) && bit_is_set v j)

abbrev over_bytes : (ℕ → ℕ → ℕ → Bool) → Bool
over_bytes test = holds_below (λ b. holds_below (λ j. holds_below (test b j) 256) 8) 8

over_bytes_sound :
    (test : ℕ → ℕ → ℕ → Bool) (v b j : ℕ)
    → over_bytes test ≡ true
    → v < 256
    → b < 8
    → j < 8
    → test b j v ≡ true
over_bytes_sound test v b j h hv hb hj = holds_below_sound (test b j) 256 v hv (
    holds_below_sound (λ k. holds_below (test b k) 256) 8 j hj
      (holds_below_sound (λ c. holds_below (λ k. holds_below (test c k) 256) 8) 8 b hb h))

or_table : over_bytes or_test ≡ true
unfolding holds_below or_test bit_is_set
or_table = refl

and_table : over_bytes and_test ≡ true
unfolding holds_below and_test bit_is_set
and_table = refl

pub set_bit_byte :
    (v b j : ℕ)
    → v < 256
    → b < 8
    → j < 8
    → (bit_or v (2 ^ b) < 256) × (bit_is_set (bit_or v (2 ^ b)) j ≡ (b == j || bit_is_set v j))
set_bit_byte v b j hv hb hj =
    let h : or_test b j v ≡ true = over_bytes_sound or_test v b j or_table hv hb hj in
    let l : ltb (bit_or v (2 ^ b)) 256 ≡ true = unfold or_test in ground (arith, h) in
    (ltb→lt _ _ l, eqb→eq _ _ (unfold or_test in ground (arith, h)))

pub clear_bit_byte :
    (v b j : ℕ)
    → v < 256
    → b < 8
    → j < 8
    → (bit_and v (255 - 2 ^ b) < 256)
      × (bit_is_set (bit_and v (255 - 2 ^ b)) j ≡ (not (b == j) && bit_is_set v j))
clear_bit_byte v b j hv hb hj =
    let h : and_test b j v ≡ true = over_bytes_sound and_test v b j and_table hv hb hj in
    let l : ltb (bit_and v (255 - 2 ^ b)) 256 ≡ true = unfold and_test in ground (arith, h) in
    (ltb→lt _ _ l, eqb→eq _ _ (unfold and_test in ground (arith, h)))
