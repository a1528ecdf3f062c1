-- ===== src/Bitmap.antt =====
-- lib/bitmap.c: operations on a bitmap. A buffer is the list of its `len` bytes, each below 256;
-- `uint` arithmetic wraps at 2 ^ 32, and `none` stands for the search functions' -1.
pub mod Search
pub mod Update
mod Bytes
mod Tests
use cute.Base.{
  ℕ, zero, suc, ◌+◌, ◌-◌, ◌*◌, ◌/◌, ◌%◌, ◌^◌, Bool, not, Option, none, some, List, [], ◌∷◌, ltb,
  ◌==◌, if◌then◌else◌, length, get_or, set, bit_and, bit_or, Outcome, ok, panic, ◌>>=◌, ◌>>◌,
  assert,
}

unfoldable pub bit_is_set : ℕ → ℕ → Bool
bit_is_set val bit = not (bit_and val (2 ^ bit) == 0)

unfoldable pub bit_is_clear : ℕ → ℕ → Bool
unfolding bit_is_set
bit_is_clear val bit = not (bit_is_set val bit)

-- The inner loop over the bits of byte `i`: from bit `j`, with `rounds` bits left.
unfoldable pub search_byte : (ℕ → ℕ → Bool) → ℕ → ℕ → ℕ → ℕ → Option ℕ
search_byte test val i j zero = none
search_byte test val i j (suc rounds) =
    let rest = search_byte test val i (j + 1) rounds in
    if test val j then some ((i * 8 + j) % 2 ^ 32) else rest

-- The outer loop, from byte `i` on.
unfoldable pub search_bytes : (ℕ → ℕ → Bool) → ℕ → List ℕ → Option ℕ
search_bytes test i [] = none
search_bytes test i (val ∷ vals) = elim (search_byte test val i 0 8) [
  | some k ↦ some k
  | none ↦ search_bytes test (i + 1) vals
]

-- The body that the macro `add_search_function` gives both searches.
unfoldable pub search_function : (ℕ → ℕ → Bool) → List ℕ → Option ℕ
unfolding search_byte search_bytes
search_function test buf = search_bytes test 0 buf

pub bitmap_first_set_bit : List ℕ → Option ℕ
unfolding bit_is_set search_function
bitmap_first_set_bit = search_function bit_is_set

unfoldable pub bitmap_first_zero_bit : List ℕ → Option ℕ
unfolding bit_is_clear search_function
bitmap_first_zero_bit = search_function bit_is_clear

-- The byte and the bit within it at which `bit` stands.
unfoldable pub set_offsets : ℕ → ℕ → Outcome (ℕ × ℕ)
set_offsets bit len = do assert (ltb bit (len * 8 % 2 ^ 32)); ok (bit / 8, bit % 8)

unfoldable pub bitmap_set_bit : List ℕ → ℕ → Outcome (List ℕ)
unfolding set_offsets
bitmap_set_bit buf bit = do
  (byte, offset) ← set_offsets bit (length buf)
  ok (set buf byte (bit_or (get_or buf byte 0) (2 ^ offset)))

unfoldable pub bitmap_clear_bit : List ℕ → ℕ → Outcome (List ℕ)
unfolding set_offsets
bitmap_clear_bit buf bit = do
  (byte, offset) ← set_offsets bit (length buf)
  ok (set buf byte (bit_and (get_or buf byte 0) (255 - 2 ^ offset)))

unfoldable pub bitmap_bit_is_set : List ℕ → ℕ → Outcome Bool
unfolding set_offsets bit_is_set
bitmap_bit_is_set buf bit = do
  (byte, offset) ← set_offsets bit (length buf)
  ok (bit_is_set (get_or buf byte 0) offset)

pub bitmap_bit_is_clear : List ℕ → ℕ → Outcome Bool
unfolding bitmap_bit_is_set
bitmap_bit_is_clear buf bit = do on ← bitmap_bit_is_set buf bit; ok (not on)
