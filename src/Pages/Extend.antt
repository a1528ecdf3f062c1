-- ===== src/Pages/Extend.antt =====
-- `pfdtable_add_range` of mm/page_alloc.c: the table grows by a range of memory.
use cute.Base.{
  zero_or_more, ℕ, zero, suc, ◌+◌, ◌-◌, ◌*◌, ◌/◌, ◌%◌, ◌^◌, ◌≤◌, ◌<◌, ◌≡◌, ◌≢◌, refl, sym, ap,
  subst, ◌∙◌, ◌⊎◌, inl, inr, true, some, List, [], ◌∷◌, ◌++◌, arith, Bool-cases, lt→ltb, le→leb,
  length, count, update, update_ne, update_same, update-elim, ok, Returns, Returns-bind,
}
use cute.Pages.{
  Page, Zone, Rmap, PageAlloc, page_size, kern_page_offset, kern_phys_end_max, zone_1gb, zone_any,
  page_init, fits, page_assign_zone, link_page, add_pages, rmap_add_range, pfdtable_add_range, phys,
  page_aligned, zones_init, pagealloc_init,
}
use cute.Pages.Alloc.{IsValid, ZoneIsValid, IsWithin, update2-elim}
use cute.Pages.Link.{zone_linked, zone_kept}
use cute.Pages.Reverse.{RmapIsValid, AreValid}

-- The page at `start` lies between 1 MB and 1 GB.
abbrev pub IsLow : ℕ → Type 0
IsLow start = (2 ^ 20 ≤ start) × (start + page_size ≤ 2 ^ 30)

-- The zone of the highest priority that covers the page: that of the first GB wherever it does.
abbrev pub IsHighestZone : ℕ → ℕ → Type 0
IsHighestZone start zid = ((zid ≡ zone_1gb) × IsLow start) ⊎ ((zid ≡ zone_any) × (¬ IsLow start))

-- A zone covers the page.
abbrev Assigned : ℕ → ℕ → Type 0
Assigned start zid = (zid ≤ 1) × IsWithin zid (page_init start)

page_assign_zone-Assigned :
    (start : ℕ)
    → start % page_size ≡ 0
    → start + page_size ≤ kern_phys_end_max
    → Returns (λ zid. Assigned start zid × IsHighestZone start zid) (page_assign_zone start)
unfolding page_assign_zone
page_assign_zone-Assigned start aligned high = elim (Bool-cases (fits start zone_1gb)) [
  | inl e ↦ rw e (
    zone_1gb,
    refl,
    ((omega arith, (ground arith, ground arith)), inl (refl, (ground arith, ground arith))),
  )
  | inr e ↦
      let f : fits start zone_any ≡ true = ground arith in
      rw e (
        rw f (
          zone_any,
          refl,
          ((omega arith, (omega arith, omega arith)), inr (refl, λ (lo, hi). ground arith)),
        ))
]

module _ (s : PageAlloc) (lists : ℕ → List ℕ) (v : IsValid s lists) (start zid : ℕ)
    (aligned : start % page_size ≡ 0) (a : Assigned start zid) where
  abbrev added : Page
  added = record (page_init start) { zone_id = zid; next = (s.zones zid).freelist }

  old_index : (q : ℕ) → q < suc s.pfdtable_top → q ≢ s.pfdtable_top → q < s.pfdtable_top
  old_index q l ne = omega arith

  new_unlisted : (z : ℕ) → z ≤ 1 → count s.pfdtable_top (lists z) ≡ 0
  new_unlisted z h = elim (zero_or_more (count s.pfdtable_top (lists z))) [
    | inl e ↦ e
    | inr m ↦ (let b = (v.zone z h).below s.pfdtable_top m in absurd (omega arith))
  ]

  pub link_page-IsValid :
      IsValid (link_page s s.pfdtable_top start zid) (update lists zid (s.pfdtable_top ∷ lists zid))
  unfolding link_page
  link_page-IsValid = record {
    zone =
        update2-elim
          (λ j (z : Zone) xs.
            j ≤ 1
            → ZoneIsValid (update s.page s.pfdtable_top added) (suc s.pfdtable_top) j z.freelist xs)
          s.zones lists zid
          (record {
            freelist = some s.pfdtable_top;
            freepages_count = ((s.zones zid).freepages_count + 1) % 2 ^ 64;
          })
          (s.pfdtable_top ∷ lists zid)
          (λ h.
            zone_linked s.page s.pfdtable_top (suc s.pfdtable_top) zid (s.zones zid).freelist
              (lists zid) s.pfdtable_top added (v.zone zid h) (new_unlisted zid h) refl refl
              (omega arith) old_index (omega arith))
          (λ j ne h.
            zone_kept s.page s.pfdtable_top (suc s.pfdtable_top) j (s.zones j).freelist (lists j)
              s.pfdtable_top added (v.zone j h) (new_unlisted j h) (λ e. ne (sym e)) old_index
              (omega arith));
    frames =
        update-elim
          (λ q (x : Page). q < suc s.pfdtable_top → (x.zone_id ≤ 1) × IsWithin x.zone_id x) s.page
          s.pfdtable_top added (λ l. a) (λ q ne l. v.frames q (old_index q l ne));
  }

-- What the loop leaves after `n` pages from `start` on.
pub record Extended (s : PageAlloc) (n start : ℕ) (t : PageAlloc) : Type 0 where
  pub lists : ℕ → List ℕ
  pub valid : IsValid t lists
  pub top : t.pfdtable_top ≡ s.pfdtable_top + n
  pub frames :
      (k : ℕ)
      → k < n
      → ((t.page (s.pfdtable_top + k)).pfn ≡ start / page_size + k)
        × ((t.page (s.pfdtable_top + k)).free ≡ true)
        × IsHighestZone (start + k * page_size) (t.page (s.pfdtable_top + k)).zone_id
  pub others : (q : ℕ) → q < s.pfdtable_top → t.page q ≡ s.page q
  pub rmaps_same : t.rmaps ≡ s.rmaps

moved-IsHighestZone : (a b y z : ℕ) → a ≡ b → y ≡ z → IsHighestZone a y → IsHighestZone b z
moved-IsHighestZone a b y z e f h = subst (λ i. IsHighestZone i z) e (subst (IsHighestZone a) f h)

Extended-cons :
    (s : PageAlloc) (n start zid : ℕ) (t : PageAlloc)
    → start % page_size ≡ 0
    → IsHighestZone start zid
    → Extended (link_page s s.pfdtable_top start zid) n (start + page_size) t
    → Extended s (suc n) start t
unfolding link_page
Extended-cons s n start zid t aligned highest x =
    let new : Page = record (page_init start) { zone_id = zid; next = (s.zones zid).freelist } in
    let here : t.page s.pfdtable_top ≡ new =
      x.others s.pfdtable_top (omega arith) ∙ update_same s.page s.pfdtable_top new in
    let top = x.top in
    record {
      lists = x.lists;
      valid = x.valid;
      top = omega arith;
      frames = λ k l. elim (zero_or_more k) [
        | inl z ↦
            (let e : s.pfdtable_top + k ≡ s.pfdtable_top = omega arith in
              let pfn = ap (λ (p : Page). p.pfn) (ap t.page e ∙ here) in
              (
                omega arith,
                ap (λ (p : Page). p.free) (ap t.page e ∙ here),
                moved-IsHighestZone start (start + k * page_size) zid _ (omega arith)
                    (sym (ap (λ (p : Page). p.zone_id) (ap t.page e ∙ here))) highest,
              ))
        | inr m ↦
            (let e : suc s.pfdtable_top + (k - 1) ≡ s.pfdtable_top + k = omega arith in
              let (f, g, z) = x.frames (k - 1) (omega arith) in
              let f' = ap (λ i. (t.page i).pfn) (sym e) ∙ f in
              (
                omega arith,
                ap (λ i. (t.page i).free) (sym e) ∙ g,
                moved-IsHighestZone (start + page_size + (k - 1) * page_size)
                    (start + k * page_size) _ _ (omega arith) (ap (λ i. (t.page i).zone_id) e) z,
              ))
      ];
      others =
          λ q l. x.others q (omega arith) ∙ update_ne s.page s.pfdtable_top q new (omega arith);
      rmaps_same = x.rmaps_same;
    }

add_pages-Extended :
    (n : ℕ) (s : PageAlloc) (lists : ℕ → List ℕ) (start : ℕ)
    → IsValid s lists
    → start % page_size ≡ 0
    → start + n * page_size ≤ kern_phys_end_max
    → Returns (Extended s n start) (add_pages n s s.pfdtable_top start)
unfolding add_pages link_page
add_pages-Extended zero s lists start v aligned high = (
  s,
  refl,
  record {
    lists = lists;
    valid = v;
    top = omega arith;
    frames = λ k l. absurd (omega arith);
    others = λ q l. refl;
    rmaps_same = refl;
  },
)
add_pages-Extended (suc n) s lists start v aligned high =
    Returns-bind (page_assign_zone start)
      (λ zid.
        add_pages n (link_page s s.pfdtable_top start zid) (suc s.pfdtable_top) (start + page_size))
      (page_assign_zone-Assigned start aligned (omega arith))
      (λ zid a.
        (let (t, e, x) =
            add_pages-Extended n (link_page s s.pfdtable_top start zid)
              (update lists zid (s.pfdtable_top ∷ lists zid)) (start + page_size)
              (link_page-IsValid s lists v start zid aligned a.0) (omega arith) (omega arith) in
          (t, e, Extended-cons s n start zid t aligned a.1 x)))

AreValid-frame :
    (page page' : ℕ → Page) (top top' : ℕ) (rs : List Rmap)
    → ((q : ℕ) → q < top → page' q ≡ page q)
    → top ≤ top'
    → AreValid page top rs
    → AreValid page' top' rs
AreValid-frame page page' top top' [] same grows v = tt
AreValid-frame page page' top top' (r ∷ rs) same grows (v, vs) = (
  record {
    base_aligned = v.base_aligned;
    no_wrap = v.no_wrap;
    in_table = (let i = v.in_table in omega arith);
    len_aligned = v.len_aligned;
    frames = λ k l.
        ap (λ (p : Page). p.pfn) (same (r.pfd_start + k) (let i = v.in_table in omega arith))
        ∙ v.frames k l;
  },
  AreValid-frame page page' top top' rs same grows vs,
)

AreValid-append :
    (page : ℕ → Page) (top : ℕ) (rs : List Rmap) (r : Rmap)
    → AreValid page top rs
    → RmapIsValid page top r
    → AreValid page top (rs ++ r ∷ [])
AreValid-append page top [] r vs v = (v, tt)
AreValid-append page top (x ∷ rs) r (w, vs) v = (w, AreValid-append page top rs r vs v)

-- The table with a range added: its pages are free, in order and each in its zone of the
-- highest priority, and the reverse
-- mapping covers it.
pub record Added (s : PageAlloc) (base len : ℕ) (t : PageAlloc) : Type 0 where
  pub lists : ℕ → List ℕ
  pub valid : IsValid t lists
  pub top : t.pfdtable_top ≡ s.pfdtable_top + len / page_size
  pub frames :
      (k : ℕ)
      → k < len / page_size
      → ((t.page (s.pfdtable_top + k)).pfn ≡ base / page_size + k)
        × ((t.page (s.pfdtable_top + k)).free ≡ true)
        × IsHighestZone (base + k * page_size) (t.page (s.pfdtable_top + k)).zone_id
  pub others : (q : ℕ) → q < s.pfdtable_top → t.page q ≡ s.page q
  pub ranges : AreValid t.page t.pfdtable_top t.rmaps

is_page_aligned : (x : ℕ) → x % page_size ≡ 0 → page_aligned x ≡ true
is_page_aligned x h = rw h refl

module _ (s : PageAlloc) (base len : ℕ) where
  abbrev with_rmap : PageAlloc
  with_rmap = record s {
    rmaps = s.rmaps ++ record { base = base; len = len; pfd_start = s.pfdtable_top } ∷ [];
  }

  Extended→Added :
      (t : PageAlloc)
      → base % page_size ≡ 0
      → len % page_size ≡ 0
      → base + len ≤ kern_phys_end_max
      → AreValid s.page s.pfdtable_top s.rmaps
      → Extended with_rmap (len / page_size) base t
      → Added s base len t
  Extended→Added t ab al high rs x =
      let top = x.top in
      let old =
        AreValid-frame s.page t.page s.pfdtable_top t.pfdtable_top s.rmaps x.others (omega arith)
          rs in
      record {
        lists = x.lists;
        valid = x.valid;
        top = x.top;
        frames = x.frames;
        others = x.others;
        ranges = subst (AreValid t.page t.pfdtable_top) (sym x.rmaps_same) (
            AreValid-append t.page t.pfdtable_top s.rmaps
              (record { base = base; len = len; pfd_start = s.pfdtable_top }) old
              record {
                base_aligned = ab;
                no_wrap = omega arith;
                in_table = omega arith;
                len_aligned = al;
                frames = λ k l. (x.frames k l).0;
              });
      }

  rmap_add_range-ok :
      length s.rmaps < s.pfdrmap_end → rmap_add_range s base len s.pfdtable_top ≡ ok with_rmap
  unfolding rmap_add_range
  rmap_add_range-ok h = rw (le→leb (length s.rmaps + 1) s.pfdrmap_end (omega arith)) refl

pub pfdtable_add_range-Added :
    (s : PageAlloc) (lists : ℕ → List ℕ) (base len : ℕ)
    → IsValid s lists
    → AreValid s.page s.pfdtable_top s.rmaps
    → base % page_size ≡ 0
    → len % page_size ≡ 0
    → 0 < len
    → base + len ≤ kern_phys_end_max
    → s.kmem_end % page_size ≡ 0
    → kern_page_offset ≤ s.kmem_end
    → s.kmem_end ≤ kern_page_offset + base
    → s.pfdtable_top + len / page_size ≤ s.pfdtable_end
    → length s.rmaps < s.pfdrmap_end
    → Returns (Added s base len) (pfdtable_add_range s base len)
unfolding pfdtable_add_range phys
pfdtable_add_range-Added s lists base len v rs ab al pos high ak lo above room more =
    let end : (base + len) % 2 ^ 64 ≡ base + len = omega arith in
    let n : base + len - base ≡ len = omega arith in
    let (t, e, x) =
      add_pages-Extended (len / page_size) (with_rmap s base len) lists base
        (record { zone = v.zone; frames = v.frames }) ab (omega arith) in
    rw end (
      rw (is_page_aligned base ab) (
        rw (is_page_aligned (base + len) (omega arith)) (
          rw (is_page_aligned s.kmem_end ak) (
            rw (le→leb kern_page_offset s.kmem_end lo) (
              rw (lt→ltb s.kmem_end (kern_page_offset + kern_phys_end_max) (omega arith)) (
                rw (le→leb (s.kmem_end - kern_page_offset) base (omega arith)) (
                  rw (lt→ltb base (base + len) (omega arith)) (
                    rw n (
                      rw (le→leb (s.pfdtable_top + len / page_size) s.pfdtable_end room) (
                        rw (rmap_add_range-ok s base len more)
                          (t, e, Extended→Added s base len t ab al high rs x)))))))))))

-- After `zones_init` and `pagealloc_init` the allocator is valid, with empty free lists, whatever the
-- memory held.
pub pagealloc_init-IsValid :
    (s : PageAlloc) (ramdisk_end avail_ranges avail_pages : ℕ)
    → IsValid (pagealloc_init (zones_init s) ramdisk_end avail_ranges avail_pages) (λ z. [])
unfolding pagealloc_init
pagealloc_init-IsValid s ramdisk_end avail_ranges avail_pages = record {
  zone = λ z h. record {
    chain = refl;
    once = λ p. omega arith;
    below = λ p m. absurd (omega arith);
    zoned = λ p m. absurd (omega arith);
    listed = λ p l e f. absurd (omega arith);
  };
  frames = λ p l. absurd (omega arith);
}
