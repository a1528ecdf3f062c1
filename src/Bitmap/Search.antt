-- ===== src/Bitmap/Search.antt =====
-- The search functions of lib/bitmap.c against a linear search over bit numbers.
use cute.Base.{
  ℕ, zero, suc, ◌+◌, ◌*◌, ◌/◌, ◌%◌, ◌^◌, ◌≤◌, ◌<◌, ◌≡◌, refl, sym, subst, ◌∙◌, ◌⊎◌, inl, inr, Bool,
  true, false, Option, none, some, List, [], ◌∷◌, arith, Bool-cases, length, get_or,
}
use cute.Bitmap.{
  bit_is_set, bit_is_clear, search_byte, search_bytes, search_function, bitmap_first_set_bit,
  bitmap_first_zero_bit,
}

-- Bit number `k` of a buffer passes the test of bits.
abbrev pub bit_test : (ℕ → ℕ → Bool) → List ℕ → ℕ → Bool
bit_test test buf k = test (get_or buf (k / 8) 0) (k % 8)

-- `r` is the first number from `lo` up to `hi` that passes `p`, or `none` where no number does.
abbrev pub IsFirst : (ℕ → Bool) → ℕ → ℕ → Option ℕ → Type 0
IsFirst p lo hi none = (k : ℕ) → lo ≤ k → k < hi → p k ≡ false
IsFirst p lo hi (some m) =
    (lo ≤ m) × (m < hi) × (p m ≡ true) × ((k : ℕ) → lo ≤ k → k < m → p k ≡ false)

IsFirst-later :
    (p : ℕ → Bool) (lo mid hi : ℕ) (r : Option ℕ)
    → ((k : ℕ) → lo ≤ k → k < mid → p k ≡ false)
    → lo ≤ mid
    → IsFirst p mid hi r
    → IsFirst p lo hi r
IsFirst-later p lo mid hi none out le h =
    λ k a b. elim (cases k mid) [ inl l ↦ out k a l | inr g ↦ h k g b ]
  where
    cases : (k m : ℕ) → (k < m) ⊎ (m ≤ k)
    cases k m = omega arith
IsFirst-later p lo mid hi (some m) out le (a, b, c, d) =
    (omega arith, b, c, λ k e f. elim (cases k mid) [ inl l ↦ out k e l | inr g ↦ d k g f ])
  where
    cases : (k m : ℕ) → (k < m) ⊎ (m ≤ k)
    cases k m = omega arith

module _ (test : ℕ → ℕ → Bool) (p : ℕ → Bool) where
  search_byte-IsFirst :
      (val i j rounds : ℕ)
      → j + rounds ≡ 8
      → i * 8 + 8 ≤ 2 ^ 32
      → ((b : ℕ) → b < 8 → p (i * 8 + b) ≡ test val b)
      → IsFirst p (i * 8 + j) (i * 8 + 8) (search_byte test val i j rounds)
  unfolding search_byte
  search_byte-IsFirst val i j zero e small same = λ k a b. absurd (omega arith)
  search_byte-IsFirst val i j (suc rounds) e small same = elim (Bool-cases (test val j)) [
    | inl hit ↦ rw (hit, wrap) (omega arith, omega arith, at_j ∙ hit, λ k a b. absurd (omega arith))
    | inr miss ↦ rw miss (
        IsFirst-later p (i * 8 + j) (i * 8 + (j + 1)) (i * 8 + 8) _ (below miss) (omega arith)
          (search_byte-IsFirst val i (j + 1) rounds (omega arith) small same))
  ]
    where
      wrap : (i * 8 + j) % 2 ^ 32 ≡ i * 8 + j
      wrap = omega arith

      at_j : p (i * 8 + j) ≡ test val j
      at_j = same j (omega arith)

      below : test val j ≡ false → (k : ℕ) → i * 8 + j ≤ k → k < i * 8 + (j + 1) → p k ≡ false
      below miss k a b = let e : k ≡ i * 8 + j = omega arith in rw e (at_j ∙ miss)

  -- What the inner loop found, or else what the bytes behind hold.
  or_rest :
      (lo mid hi : ℕ) (r rest : Option ℕ)
      → lo ≤ mid
      → mid ≤ hi
      → IsFirst p lo mid r
      → IsFirst p mid hi rest
      → IsFirst p lo hi (elim r [ some k ↦ some k | none ↦ rest ])
  or_rest lo mid hi none rest a b h h' = IsFirst-later p lo mid hi rest h a h'
  or_rest lo mid hi (some m) rest a b (c, d, e, f) h' = (c, omega arith, e, f)

  search_bytes-IsFirst :
      (buf : List ℕ) (i : ℕ)
      → (i + length buf) * 8 ≤ 2 ^ 32
      → ((k b : ℕ) → k < length buf → b < 8 → p ((i + k) * 8 + b) ≡ test (get_or buf k 0) b)
      → IsFirst p (i * 8) ((i + length buf) * 8) (search_bytes test i buf)
  unfolding search_bytes
  search_bytes-IsFirst [] i small same = λ k a b. absurd (omega arith)
  search_bytes-IsFirst (val ∷ vals) i small same =
      or_rest (i * 8) (i * 8 + 8) ((i + suc (length vals)) * 8) _ _ (omega arith) (omega arith)
        (let e : i * 8 ≡ i * 8 + 0 = omega arith in
          subst (λ lo. IsFirst p lo (i * 8 + 8) (search_byte test val i 0 8)) (sym e)
            (search_byte-IsFirst val i 0 8 refl (omega arith) here))
        (let e : (i + 1) * 8 ≡ i * 8 + 8 = omega arith in
          let f : i + 1 + length vals ≡ i + suc (length vals) = omega arith in
          subst (λ lo. IsFirst p lo ((i + suc (length vals)) * 8) (search_bytes test (i + 1) vals))
            e
            (subst (λ n. IsFirst p ((i + 1) * 8) (n * 8) (search_bytes test (i + 1) vals)) f
              (search_bytes-IsFirst vals (i + 1) (omega arith) there)))
    where
      here : (b : ℕ) → b < 8 → p (i * 8 + b) ≡ test val b
      here b hb = let e : i + 0 ≡ i = omega arith in rw e at (same 0 b (omega arith) hb)

      there :
          (k b : ℕ) → k < length vals → b < 8 → p ((i + 1 + k) * 8 + b) ≡ test (get_or vals k 0) b
      there k b hk hb =
          let e : i + suc k ≡ i + 1 + k = omega arith in rw e at (same (suc k) b (omega arith) hb)

search_function-IsFirst :
    (test : ℕ → ℕ → Bool) (buf : List ℕ)
    → length buf * 8 ≤ 2 ^ 32
    → IsFirst (bit_test test buf) 0 (length buf * 8) (search_function test buf)
unfolding search_function
search_function-IsFirst test buf small =
    let e : 0 + length buf ≡ length buf = omega arith in
    rw e at (search_bytes-IsFirst test (bit_test test buf) buf 0 (omega arith) same)
  where
    same :
        (k b : ℕ)
        → k < length buf
        → b < 8
        → bit_test test buf ((0 + k) * 8 + b) ≡ test (get_or buf k 0) b
    same k b hk hb =
        let e : ((0 + k) * 8 + b) / 8 ≡ k = omega arith in
        let f : ((0 + k) * 8 + b) % 8 ≡ b = omega arith in rw (e, f)

-- For a buffer of at most 2 ^ 29 bytes, `bitmap_first_set_bit` returns the number of the first bit
-- that is set, and reports failure exactly when no bit of the buffer is set.
pub bitmap_first_set_bit-IsFirst :
    (buf : List ℕ)
    → length buf * 8 ≤ 2 ^ 32
    → IsFirst (bit_test bit_is_set buf) 0 (length buf * 8) (bitmap_first_set_bit buf)
unfolding bitmap_first_set_bit
bitmap_first_set_bit-IsFirst buf small = search_function-IsFirst bit_is_set buf small

-- For a buffer of at most 2 ^ 29 bytes, `bitmap_first_zero_bit` returns the number of the first bit
-- that is clear, and reports failure exactly when every bit of the buffer is set.
pub bitmap_first_zero_bit-IsFirst :
    (buf : List ℕ)
    → length buf * 8 ≤ 2 ^ 32
    → IsFirst (bit_test bit_is_clear buf) 0 (length buf * 8) (bitmap_first_zero_bit buf)
unfolding bitmap_first_zero_bit
bitmap_first_zero_bit-IsFirst buf small = search_function-IsFirst bit_is_clear buf small
