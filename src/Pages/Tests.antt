-- ===== src/Pages/Tests.antt =====
-- mm/page_alloc.c with two pages at 3 MB.
use cute.Base.{
  ℕ, ◌+◌, ◌-◌, ◌*◌, ◌/◌, ◌<◌, ◌≡◌, refl, sym, subst, some, [], arith, Outcome, ok, panic, Returns,
}
use cute.Pages.{
  Page, PageAlloc, page_size, kern_page_offset, page_init, zones_init, pagealloc_init,
  page_assign_zone, link_page, add_pages, rmap_add_range, pfdtable_add_range, skip_reserved,
  take_page, zone_get_free_page, or_early_page, find_free_page, check_page, get_free_page,
  free_page, phys, addr_to_page,
}
use cute.Pages.Alloc.{IsValid, SamePage, Allocated}
use cute.Pages.Allocation.{Answered, get_free_page-Answered}
use cute.Pages.Reclaim.{Freed, free_page-Freed, get_free_page-free_page}
use cute.Pages.Reverse.{Mapped, addr_to_page-Mapped}
use cute.Pages.Extend.{Added, pagealloc_init-IsValid, pfdtable_add_range-Added}

abbrev no_pages : ℕ → Page
no_pages p = page_init 0

-- The memory before the boot.
abbrev unset : PageAlloc
unset = record {
  page = no_pages;
  pfdtable_top = 0;
  pfdtable_end = 0;
  rmaps = [];
  pfdrmap_end = 0;
  zones = λ zid. record { freelist = some 5; freepages_count = 7 };
  kmem_end = 0;
}

abbrev booted : PageAlloc
booted = pagealloc_init (zones_init unset) (kern_page_offset + 2097152) 1 2

booted-IsValid : IsValid booted (λ z. [])
booted-IsValid = pagealloc_init-IsValid unset (kern_page_offset + 2097152) 1 2

added : Returns (Added booted 3145728 8192) (pfdtable_add_range booted 3145728 8192)
unfolding pagealloc_init
added =
    pfdtable_add_range-Added booted (λ z. []) 3145728 8192 booted-IsValid tt refl refl (omega arith)
      (omega arith) refl (omega arith) (omega arith) (omega arith) (omega arith)

abbrev alloc_of : Outcome PageAlloc → PageAlloc
alloc_of (ok s) = s
alloc_of panic = booted

abbrev grown : PageAlloc
grown = alloc_of (pfdtable_add_range booted 3145728 8192)

grown-Added : Added booted 3145728 8192 grown
grown-Added = let (t, e, a) = added in subst (λ o. Added booted 3145728 8192 (alloc_of o)) (sym e) a

get_free_page-Answered_example : Answered grown 1 (get_free_page grown 1)
get_free_page-Answered_example =
    get_free_page-Answered grown grown-Added.lists 1 grown-Added.valid (omega arith)

abbrev page_of : Outcome (PageAlloc × ℕ) → PageAlloc × ℕ
page_of (ok r) = r
page_of panic = (booted, 0)

abbrev given : PageAlloc × ℕ
given = page_of (get_free_page grown 1)

given_ok : get_free_page grown 1 ≡ ok (given.0, given.1)
unfolding get_free_page find_free_page or_early_page zone_get_free_page check_page take_page
    skip_reserved pagealloc_init pfdtable_add_range rmap_add_range phys add_pages link_page
    page_assign_zone
given_ok = refl

given-Allocated : Allocated grown 1 given.0 given.1
given-Allocated =
    subst (Answered grown 1) given_ok
      (get_free_page-Answered grown grown-Added.lists 1 grown-Added.valid (omega arith))

given_inside : given.1 < given.0.pfdtable_top
given_inside = let a = given-Allocated.got in subst (λ n. given.1 < n) (sym a.top_same) a.in_table

free_page-Freed_example : Returns (Freed given.0 given.1) (free_page given.0 given.1)
free_page-Freed_example =
    free_page-Freed given.0 given-Allocated.got.lists given.1 given-Allocated.got.valid given_inside
      given-Allocated.got.now_taken
      (given-Allocated.got.unlisted (given.0.page given.1).zone_id
        (given-Allocated.got.valid.frames given.1 given_inside).0)

get_free_page-free_page_example :
    Returns
      (λ u.
        Freed given.0 given.1 u
        × ((q : ℕ) → SamePage (u.page q) (grown.page q) × ((u.page q).free ≡ (grown.page q).free)))
      (free_page given.0 given.1)
get_free_page-free_page_example =
    get_free_page-free_page grown grown-Added.lists 1 grown-Added.valid (omega arith) given.0
      given.1 given_ok

addr_to_page-Mapped_example :
    Mapped grown grown.rmaps
      ((kern_page_offset + 3149925 - kern_page_offset) / page_size * page_size)
      (addr_to_page grown (kern_page_offset + 3149925))
addr_to_page-Mapped_example =
    addr_to_page-Mapped grown (kern_page_offset + 3149925) grown-Added.ranges (omega arith)
      (omega arith)
