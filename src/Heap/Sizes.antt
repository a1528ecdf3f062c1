-- ===== src/Heap/Sizes.antt =====
-- include/kmalloc.h: which bucket a size is served from.
use cute.Base.{
  ℕ, ◌*◌, ◌^◌, ◌≤◌, ◌<◌, ◌≡◌, ◌⊎◌, inl, inr, refl, Bool, true, false, leb, if◌then◌else◌, Outcome,
  ok, panic, arith, leb→le, lt→ltb, zero, suc,
}
use cute.Heap.{Heap, bucket_of, bucket_alloc, kmalloc}

-- The bucket's buffers hold the size, and no smaller ones do; a panic is for sizes above a page.
abbrev IsSmallest : ℕ → Outcome ℕ → Type 0
IsSmallest size (ok idx) =
    (size ≤ 2 ^ idx) × ((idx ≡ 4) ⊎ (2 ^ idx < 2 * size)) × (4 ≤ idx) × (idx ≤ 12)
IsSmallest size panic = 4096 < size

-- Buffers of 2 ^ idx bytes hold the size: they have 16 bytes, or less than twice the size.
pub record Holds (size idx : ℕ) : Type 0 where
  pub positive : 1 ≤ size
  pub large : size ≤ 2 ^ idx
  pub small : (idx ≡ 4) ⊎ (2 ^ idx < 2 * size)
  pub not_less : 4 ≤ idx
  pub not_more : idx ≤ 12

-- What `kmalloc` does with a size: a panic, or what `__kmalloc` gives from the smallest bucket.
pub data Chosen (h : Heap) (size : ℕ) (o : Outcome (Heap × ℕ)) : Type 0 where
  refused : (size ≡ 0) ⊎ (4096 < size) → o ≡ panic → Chosen h size o
  served : (idx : ℕ) → Holds size idx → o ≡ bucket_alloc h idx → Chosen h size o

-- One test of the chain.
tested :
    (size bound idx : ℕ) (later : Outcome ℕ)
    → (size ≤ bound → IsSmallest size (ok idx))
    → (bound < size → IsSmallest size later)
    → IsSmallest size (if leb size bound then ok idx else later)
tested size bound idx later here next = by_test (leb size bound) refl
  where
    by_test : (t : Bool) → leb size bound ≡ t → IsSmallest size (if t then ok idx else later)
    by_test true e = here (leb→le size bound e)
    by_test false e = next (ground arith)

bucket_of-IsSmallest : (size : ℕ) → 1 ≤ size → IsSmallest size (bucket_of size)
unfolding bucket_of
bucket_of-IsSmallest size pos =
    tested size 16 4 _ (λ a. (omega arith, inl refl, omega arith, omega arith))
      (λ b1.
        tested size 32 5 _ (λ a. (omega arith, inr (omega arith), omega arith, omega arith))
          (λ b2.
            tested size 64 6 _ (λ a. (omega arith, inr (omega arith), omega arith, omega arith))
              (λ b3.
                tested size 128 7 _
                  (λ a. (omega arith, inr (omega arith), omega arith, omega arith))
                  (λ b4.
                    tested size 256 8 _
                      (λ a. (omega arith, inr (omega arith), omega arith, omega arith))
                      (λ b5.
                        tested size 512 9 _
                          (λ a. (omega arith, inr (omega arith), omega arith, omega arith))
                          (λ b6.
                            tested size 1024 10 _
                              (λ a. (omega arith, inr (omega arith), omega arith, omega arith))
                              (λ b7.
                                tested size 2048 11 _
                                  (λ a. (omega arith, inr (omega arith), omega arith, omega arith))
                                  (λ b8.
                                    tested size 4096 12 _
                                      (λ a.
                                        (omega arith, inr (omega arith), omega arith, omega arith))
                                      (λ b9. b9)))))))))

-- `kmalloc` panics on a size of 0 and on one above a page, and serves every other size as `__kmalloc`
-- serves the smallest bucket whose buffers hold it: of 16 bytes, or of less than twice the size, and
-- of a page at most.
pub kmalloc-Chosen : (h : Heap) (size : ℕ) → Chosen h size (kmalloc h size)
unfolding kmalloc
kmalloc-Chosen h zero = refused (inl refl) refl
kmalloc-Chosen h (suc n) =
    by_bucket (bucket_of (suc n)) refl (bucket_of-IsSmallest (suc n) (omega arith))
  where
    by_bucket :
        (o : Outcome ℕ)
        → bucket_of (suc n) ≡ o
        → IsSmallest (suc n) o
        → Chosen h (suc n) (kmalloc h (suc n))
    by_bucket panic e above = refused (inr above) (rw (lt→ltb 0 (suc n) (omega arith)) (rw e refl))
    by_bucket (ok idx) e (large, small, lo, hi) =
        served idx
          (record {
            positive = omega arith;
            large = large;
            small = small;
            not_less = lo;
            not_more = hi;
          })
          (rw (lt→ltb 0 (suc n) (omega arith)) (rw e refl))
