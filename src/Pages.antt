-- ===== src/Pages.antt =====
-- mm/page_alloc.c, include/mm.h and include/page_alloc.h: the page allocator. A pointer to a
-- descriptor is its index in the `pfdtable`, and a free list is linked through the descriptors as in
-- the code. The zones are the numbers of their identifiers. One core runs at a time here: a spinlock
-- is taken and released in each call, and no step stands between.
pub mod Lists
pub mod Alloc
pub mod Allocation
mod Link
pub mod Reclaim
pub mod Reverse
pub mod Extend
mod Tests
use cute.Base.{
  round_up, ℕ, zero, suc, ◌+◌, ◌-◌, ◌*◌, ◌/◌, ◌%◌, ◌^◌, Bool, true, false, not, ◌&&◌, ◌||◌, Option,
  none, some, List, [], ◌∷◌, ◌++◌, update, length, ltb, leb, ◌==◌, if◌then◌else◌, Outcome, ok,
  panic, ◌>>=◌, ◌>>◌, assert,
}

-- The addresses of `include/paging.h`.
abbrev pub page_size : ℕ
page_size = 4096

abbrev pub kern_phys_end_max : ℕ
kern_phys_end_max = 274877906944

abbrev pub kern_page_offset : ℕ
kern_page_offset = 18446743523953737728

abbrev pub page_aligned : ℕ → Bool
page_aligned addr = addr % page_size == 0

-- `VIRT` and `PHYS`
unfoldable pub virt : ℕ → Outcome ℕ
virt paddr = do assert (ltb paddr kern_phys_end_max); ok (paddr + kern_page_offset)

unfoldable pub phys : ℕ → Outcome ℕ
phys vaddr = do
  assert (leb kern_page_offset vaddr)
  assert (ltb vaddr (kern_page_offset + kern_phys_end_max))
  ok (vaddr - kern_page_offset)

abbrev pub zone_1gb : ℕ
zone_1gb = 0

abbrev pub zone_any : ℕ
zone_any = 1

abbrev pub zone_unassigned : ℕ
zone_unassigned = 2

-- The bounds that `zones` sets.
abbrev pub zone_start : ℕ → ℕ
zone_start zero = 1048576
zone_start (suc z) = 0

abbrev pub zone_end : ℕ → ℕ
zone_end zero = 1073741824
zone_end (suc z) = kern_phys_end_max

-- `struct page`; `in_bucket` and `bucket_idx` are the bucket allocator's.
pub record Page : Type 0 where
  pub pfn : ℕ
  pub free : Bool
  pub zone_id : ℕ
  pub next : Option ℕ

-- What changes in a `struct zone`.
pub record Zone : Type 0 where
  pub freelist : Option ℕ
  pub freepages_count : ℕ

-- `struct rmap`
pub record Rmap : Type 0 where
  pub base : ℕ
  pub len : ℕ
  pub pfd_start : ℕ

-- The allocator's globals; `rmaps` is the part of `pfdrmap` below its top.
pub record PageAlloc : Type 0 where
  pub page : ℕ → Page
  pub pfdtable_top : ℕ
  pub pfdtable_end : ℕ
  pub rmaps : List Rmap
  pub pfdrmap_end : ℕ
  pub zones : ℕ → Zone
  pub kmem_end : ℕ

abbrev pub valid_zone : ℕ → Bool
valid_zone zid = zid == zone_1gb || zid == zone_any

abbrev pub page_init : ℕ → Page
page_init phys_addr = record {
  pfn = phys_addr / page_size;
  free = true;
  zone_id = zone_unassigned;
  next = none;
}

abbrev pub page_phys_addr : Page → ℕ
page_phys_addr p = p.pfn * page_size

unfoldable pub page_address : Page → Outcome ℕ
unfolding virt
page_address p = virt (page_phys_addr p)

abbrev pub zones_init : PageAlloc → PageAlloc
zones_init s = record s { zones = λ zid. record { freelist = none; freepages_count = 0 } }

-- The tables stand empty behind the ramdisk, in memory that holds what it held. A descriptor has 16
-- bytes, and an entry of the `pfdrmap` 24. The zones are set by `zones_init`, before.
pub pagealloc_init : PageAlloc → ℕ → ℕ → ℕ → PageAlloc
pagealloc_init s ramdisk_end avail_ranges avail_pages = record s {
  pfdtable_top = 0;
  pfdtable_end = avail_pages;
  rmaps = [];
  pfdrmap_end = avail_ranges;
  kmem_end = round_up (ramdisk_end + avail_pages * 16 + avail_ranges * 24) page_size;
}

abbrev pub fits : ℕ → ℕ → Bool
fits start zid = leb (zone_start zid) start && leb (start + page_size) (zone_end zid)

-- The zone of the page at `start`, the first that covers it.
pub page_assign_zone : ℕ → Outcome ℕ
page_assign_zone start =
    if fits start zone_1gb then ok zone_1gb else if fits start zone_any then ok zone_any else panic

-- One turn of the loop of `pfdtable_add_range`: the descriptor `p` is set up and linked.
pub link_page : PageAlloc → ℕ → ℕ → ℕ → PageAlloc
link_page s p start zid =
    let zone = s.zones zid in
    record s {
      page = update s.page p (record (page_init start) { zone_id = zid; next = zone.freelist });
      zones =
          update s.zones zid
            (record { freelist = some p; freepages_count = (zone.freepages_count + 1) % 2 ^ 64 });
      pfdtable_top = suc p;
    }

-- The loop over the pages of a range, whose ends are page aligned.
pub add_pages : ℕ → PageAlloc → ℕ → ℕ → Outcome PageAlloc
add_pages zero s p start = ok (record s { pfdtable_top = p })
add_pages (suc n) s p start = do
  zid ← page_assign_zone start
  add_pages n (link_page s p start zid) (suc p) (start + page_size)

pub rmap_add_range : PageAlloc → ℕ → ℕ → ℕ → Outcome PageAlloc
rmap_add_range s base len start = do
  assert (leb (length s.rmaps + 1) s.pfdrmap_end)
  ok (record s { rmaps = s.rmaps ++ record { base = base; len = len; pfd_start = start } ∷ [] })

pub pfdtable_add_range : PageAlloc → ℕ → ℕ → Outcome PageAlloc
pfdtable_add_range s base len = do
  let end = (base + len) % 2 ^ 64
  assert (page_aligned base)
  assert (page_aligned end)
  assert (page_aligned s.kmem_end)
  kmem_phys ← phys s.kmem_end
  assert (leb kmem_phys base)
  assert (ltb base end)
  let nr_pages = (end - base) / page_size
  assert (leb (s.pfdtable_top + nr_pages) s.pfdtable_end)
  s' ← rmap_add_range s base len s.pfdtable_top
  add_pages nr_pages s' s'.pfdtable_top base

-- `while(page && !page->free)`, on fuel: a free list holds each descriptor at most once.
unfoldable pub skip_reserved : ℕ → (ℕ → Page) → Option ℕ → Outcome (Option ℕ)
skip_reserved fuel page none = ok none
skip_reserved zero page (some p) = panic
skip_reserved (suc fuel) page (some p) =
    let rest = skip_reserved fuel page (page p).next in if (page p).free then ok (some p) else rest

unfoldable pub take_page : PageAlloc → ℕ → Option ℕ → PageAlloc × Option ℕ
take_page s zid none =
    (record s { zones = update s.zones zid (record (s.zones zid) { freelist = none }) }, none)
take_page s zid (some p) = (
  record s {
    page = update s.page p (record (s.page p) { free = false });
    zones = update s.zones zid (record {
      freelist = (s.page p).next;
      freepages_count = ((s.zones zid).freepages_count + (2 ^ 64 - 1)) % 2 ^ 64;
    });
  },
  some p,
)

-- `__get_free_page`
unfoldable pub zone_get_free_page : PageAlloc → ℕ → Outcome (PageAlloc × Option ℕ)
zone_get_free_page s zid = do
  assert (valid_zone zid)
  p ← skip_reserved (suc s.pfdtable_top) s.page (s.zones zid).freelist
  ok (take_page s zid p)

-- `ascending_prio_for_each`, which stops at the first page found.
unfoldable pub or_early_page : PageAlloc × Option ℕ → Outcome (PageAlloc × Option ℕ)
or_early_page (s, none) = zone_get_free_page s zone_1gb
or_early_page (s, some p) = ok (s, some p)

unfoldable pub find_free_page : PageAlloc → ℕ → Outcome (PageAlloc × Option ℕ)
find_free_page s zid =
    if zid == zone_any
    then (zone_get_free_page s zone_any >>= or_early_page)
    else zone_get_free_page s zid

-- The checks on the page found.
unfoldable pub check_page : ℕ → PageAlloc × Option ℕ → Outcome (PageAlloc × ℕ)
check_page zid (s, none) = panic
check_page zid (s, some p) = do
  let start = page_phys_addr (s.page p)
  assert (leb (zone_start zid) start)
  assert (leb (start + page_size) (zone_end zid))
  ok (s, p)

unfoldable pub get_free_page : PageAlloc → ℕ → Outcome (PageAlloc × ℕ)
get_free_page s zid = find_free_page s zid >>= check_page zid

pub free_page : PageAlloc → ℕ → Outcome PageAlloc
free_page s p = do
  let zid = (s.page p).zone_id
  assert (valid_zone zid)
  let zone = s.zones zid
  assert (not (s.page p).free)
  ok (record s {
    page = update s.page p (record (s.page p) { free = true; next = zone.freelist });
    zones =
        update s.zones zid
          (record { freelist = some p; freepages_count = (zone.freepages_count + 1) % 2 ^ 64 });
  })

-- The loop over the ranges.
unfoldable pub find_rmap : PageAlloc → List Rmap → ℕ → Outcome ℕ
find_rmap s [] paddr = panic
find_rmap s (r ∷ rest) paddr =
    let end = (r.base + r.len) % 2 ^ 64 in
    let p = r.pfd_start + (paddr - r.base) / page_size in
    let later = find_rmap s rest paddr in
    if ltb paddr r.base
    then later
    else if leb end paddr
    then later
    else (do assert (ltb (page_phys_addr (s.page p)) end); ok p)

unfoldable pub addr_to_page : PageAlloc → ℕ → Outcome ℕ
addr_to_page s addr = do paddr ← phys addr; find_rmap s s.rmaps (paddr - paddr % page_size)

-- The loop of `reserve_physical_range`, over `n` pages.
pub reserve_pages : ℕ → PageAlloc → ℕ → Outcome PageAlloc
reserve_pages zero s vaddr = ok s
reserve_pages (suc n) s vaddr = do
  p ← addr_to_page s vaddr
  reserve_pages n (record s { page = update s.page p (record (s.page p) { free = false }) })
      (vaddr + page_size)

pub reserve_physical_range : PageAlloc → ℕ → ℕ → Outcome PageAlloc
reserve_physical_range s paddr num_pages = do
  vaddr ← virt paddr
  let vend = (vaddr + num_pages * page_size) % 2 ^ 64
  reserve_pages ((vend - vaddr) / page_size) s vaddr
