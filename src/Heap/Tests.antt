-- ===== src/Heap/Tests.antt =====
-- mm/kmalloc.c on two pages of the first GB, of which the second one is free.
use cute.Base.{
  ℕ, ◌+◌, ◌≡◌, refl, none, some, [], ◌∷◌, if◌then◌else◌, ◌==◌, Outcome, ok, panic, ◌>>=◌, Returns,
  arith,
}
use cute.Pages.{
  PageAlloc, kern_page_offset, virt, phys, page_address, get_free_page, find_free_page,
  zone_get_free_page, skip_reserved, take_page, check_page, or_early_page, addr_to_page, find_rmap,
}
use cute.Heap.{
  Heap, allocbuf_sig, tokenize, get_tokenized_page, refill, next_buf, bucket_alloc, bucket_of,
  kmalloc, kfree,
}
use cute.Heap.Sizes.{Chosen, kmalloc-Chosen}
use cute.Heap.Reuse.{IsAllocated, Reused, kfree-kfree, bucket_alloc-kfree}

abbrev two_pages : PageAlloc
two_pages = record {
  page = λ p. record { pfn = 256 + p; free = p == 1; zone_id = 0; next = none };
  pfdtable_top = 2;
  pfdtable_end = 2;
  rmaps = record { base = 1048576; len = 8192; pfd_start = 0 } ∷ [];
  pfdrmap_end = 24;
  zones = λ z.
      if z == 0
      then record { freelist = some 1; freepages_count = 1 }
      else record { freelist = none; freepages_count = 0 };
  kmem_end = 2097152;
}

-- The first page belongs to the buckets, for buffers of 32 bytes, all of them in use.
abbrev heap : Heap
heap = record {
  pages = two_pages;
  in_bucket = λ p. p == 0;
  bucket_idx = λ p. 5;
  word = λ a. 0;
  sig = λ a. allocbuf_sig;
  kmembuckets = λ i. record { head = 0; totalpages = 0; totalfree = 0 };
}

abbrev buf : ℕ
buf = kern_page_offset + 1048576 + 32

buf-IsAllocated : IsAllocated heap buf 5 0
unfolding addr_to_page phys find_rmap
buf-IsAllocated = record {
  page_of = refl;
  page_taken = refl;
  in_bucket = refl;
  bucket = refl;
  idx_le = omega arith;
  aligned = refl;
  not_null = omega arith;
  not_free = omega arith;
  counted = omega arith;
}

kfree-kfree_example : (kfree heap buf >>= λ h1. kfree h1 buf) ≡ panic
kfree-kfree_example = kfree-kfree heap buf 5 0 buf-IsAllocated

bucket_alloc-kfree_example : Returns (Reused heap buf) (kfree heap buf >>= λ h1. bucket_alloc h1 5)
bucket_alloc-kfree_example = bucket_alloc-kfree heap buf 5 0 buf-IsAllocated

-- Two buffers of 1000 bytes, from the page that was free.
abbrev two_buffers : Outcome ℕ
two_buffers = kmalloc heap 1000 >>= λ a. kmalloc (a.0) 1024 >>= λ b. ok (b.1)

kmalloc-Chosen_example : Chosen heap 1000 (kmalloc heap 1000)
kmalloc-Chosen_example = kmalloc-Chosen heap 1000

kmalloc_runs : two_buffers ≡ ok (kern_page_offset + 1048576 + 4096 + 1024)
unfolding kmalloc bucket_of bucket_alloc next_buf refill get_tokenized_page tokenize get_free_page
    find_free_page zone_get_free_page skip_reserved take_page check_page or_early_page page_address
    virt
kmalloc_runs = refl
