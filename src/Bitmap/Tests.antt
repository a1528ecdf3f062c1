-- ===== src/Bitmap/Tests.antt =====
-- lib/bitmap.c on a buffer of two bytes.
use cute.Base.{ℕ, zero, suc, ◌≡◌, refl, true, false, some, List, [], ◌∷◌, ◌*◌, arith, length, ok}
use cute.Bitmap.{
  bit_is_set, bit_is_clear, bitmap_first_set_bit, bitmap_first_zero_bit, bitmap_set_bit,
  bitmap_clear_bit, search_function, search_bytes, search_byte,
}
use cute.Bitmap.Search.{
  IsFirst, bit_test, bitmap_first_set_bit-IsFirst, bitmap_first_zero_bit-IsFirst,
}
use cute.Bitmap.Update.{IsBytes, Updated, bitmap_set_bit-Updated, bitmap_clear_bit-Updated}

abbrev two_bytes : List ℕ
two_bytes = 0 ∷ 36 ∷ []

two_bytes-IsBytes : IsBytes two_bytes
two_bytes-IsBytes = elim [ zero ↦ omega arith | suc zero ↦ omega arith | suc (suc i) ↦ omega arith ]

first_set : bitmap_first_set_bit two_bytes ≡ some 10
unfolding bitmap_first_set_bit search_function search_bytes search_byte bit_is_set
first_set = refl

bitmap_first_set_bit-IsFirst_example :
    IsFirst
      (bit_test bit_is_set two_bytes)
      0
      (length two_bytes * 8)
      (bitmap_first_set_bit two_bytes)
bitmap_first_set_bit-IsFirst_example = bitmap_first_set_bit-IsFirst two_bytes (omega arith)

bitmap_first_zero_bit-IsFirst_example :
    IsFirst
      (bit_test bit_is_clear two_bytes)
      0
      (length two_bytes * 8)
      (bitmap_first_zero_bit two_bytes)
bitmap_first_zero_bit-IsFirst_example = bitmap_first_zero_bit-IsFirst two_bytes (omega arith)

bitmap_set_bit-Updated_example :
    (new : List ℕ) × (bitmap_set_bit two_bytes 3 ≡ ok new) × Updated two_bytes 3 true new
bitmap_set_bit-Updated_example =
    bitmap_set_bit-Updated two_bytes 3 (omega arith) two_bytes-IsBytes (omega arith)

bitmap_clear_bit-Updated_example :
    (new : List ℕ) × (bitmap_clear_bit two_bytes 10 ≡ ok new) × Updated two_bytes 10 false new
bitmap_clear_bit-Updated_example =
    bitmap_clear_bit-Updated two_bytes 10 (omega arith) two_bytes-IsBytes (omega arith)
