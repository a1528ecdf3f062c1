-- ===== src/Pages/Allocation.antt =====
-- `get_free_page` and `free_page` of mm/page_alloc.c as a whole.
use cute.Base.{
  ℕ, zero, suc, ◌+◌, ◌≤◌, ◌<◌, ◌≡◌, refl, sym, subst, ◌⊎◌, inl, inr, Option, none, some, List,
  arith, Outcome, ok, panic, ◌>>=◌, Returns, Returns-bind,
}
use cute.Pages.{
  Page, PageAlloc, page_size, zone_1gb, zone_any, zone_start, zone_end, page_phys_addr,
  zone_get_free_page, or_early_page, find_free_page, check_page, get_free_page,
}
use cute.Pages.Alloc.{
  IsValid, IsWithin, Got, GotNone, Attempted, IsExhausted, Allocated, zone_get_free_page-Attempted,
  Got-from, no_free-from,
}

abbrev Found : PageAlloc → ℕ → PageAlloc × Option ℕ → Type 0
Found s zid (t, none) = IsExhausted s zid
Found s zid (t, some p) = Allocated s zid t p

IsWithin-any : (z : ℕ) (x : Page) → z ≤ 1 → IsWithin z x → IsWithin zone_any x
IsWithin-any zero x h (a, b) = (omega arith, omega arith)
IsWithin-any (suc zero) x h w = w
IsWithin-any (suc (suc z)) x h w = absurd (omega arith)

module _ (s : PageAlloc) (lists : ℕ → List ℕ) (v : IsValid s lists) where
  Got-zone : {z p : ℕ} {t : PageAlloc} → Got s z t p → Got s (s.page p).zone_id t p
  Got-zone {p} {t} g = subst (λ z. Got s z t p) (sym g.in_zone) g

  whole-IsWithin : (p : ℕ) → p < s.pfdtable_top → IsWithin zone_any (s.page p)
  whole-IsWithin p l = let (z, w) = v.frames p l in IsWithin-any (s.page p).zone_id (s.page p) z w

  Found-early : (r : PageAlloc × Option ℕ) → Attempted s zone_1gb r → Found s zone_1gb r
  Found-early (t, none) g = λ p l e. g.no_free p l (e refl)
  Found-early (t, some p) g = record {
    within = subst (λ z. IsWithin z (s.page p)) g.in_zone (v.frames p g.in_table).1;
    got = Got-zone g;
    spares = λ e. absurd (omega arith);
  }

  zone_cases : (z : ℕ) → z ≤ 1 → (z ≡ zone_1gb) ⊎ (z ≡ zone_any)
  zone_cases z h = omega arith

  Found-both :
      (t : PageAlloc)
      → GotNone s zone_any t
      → (r : PageAlloc × Option ℕ) → Attempted t zone_1gb r
      → Found s zone_any r
  Found-both t g (u, none) h = λ p l e. elim (zone_cases (s.page p).zone_id (v.frames p l).0) [
    | inl z ↦ no_free-from s t g.pages g.top_same zone_1gb p u h l z
    | inr z ↦ g.no_free p l z
  ]
  Found-both t g (u, some p) h =
      let k = Got-from s t g.pages g.top_same zone_1gb p u h in
      record {
        within = whole-IsWithin p k.in_table;
        got = Got-zone k;
        spares = λ e z q l m. g.no_free q l m;
      }

  or_early_page-Found :
      (r : PageAlloc × Option ℕ)
      → Attempted s zone_any r
      → Returns (Found s zone_any) (or_early_page r)
  unfolding or_early_page
  or_early_page-Found (t, none) g =
      let (r, e, h) = zone_get_free_page-Attempted t g.lists zone_1gb (omega arith) g.valid in
      (r, e, Found-both t g r h)
  or_early_page-Found (t, some p) g = (
    (t, some p),
    refl,
    record {
      within = whole-IsWithin p g.in_table;
      got = Got-zone g;
      spares = λ e z. absurd (omega (arith, g.in_zone));
    },
  )

  find_free_page-Found : (zid : ℕ) → zid ≤ 1 → Returns (Found s zid) (find_free_page s zid)
  unfolding find_free_page
  find_free_page-Found zero h =
      let (r, e, g) = zone_get_free_page-Attempted s lists zone_1gb h v in (r, e, Found-early r g)
  find_free_page-Found (suc zero) h =
      Returns-bind (zone_get_free_page s zone_any) or_early_page
        (zone_get_free_page-Attempted s lists zone_any h v) or_early_page-Found
  find_free_page-Found (suc (suc z)) h = absurd (omega arith)

abbrev pub Answered : PageAlloc → ℕ → Outcome (PageAlloc × ℕ) → Type 0
Answered s zid (ok (t, p)) = Allocated s zid t p
Answered s zid panic = IsExhausted s zid

check_within :
    (zid p : ℕ) (t : PageAlloc)
    → zone_start zid ≤ page_phys_addr (t.page p)
    → page_phys_addr (t.page p) + page_size ≤ zone_end zid
    → check_page zid (t, some p) ≡ ok (t, p)
unfolding check_page
check_within zid p t lo hi = ground arith

check_page-Answered :
    (s : PageAlloc) (zid : ℕ) (r : PageAlloc × Option ℕ)
    → Found s zid r
    → Answered s zid (check_page zid r)
unfolding check_page
check_page-Answered s zid (t, none) h = h
check_page-Answered s zid (t, some p) a =
    let frame = a.got.same.0 in
    let (lo, hi) = a.within in
    subst (Answered s zid) (sym (check_within zid p t (omega arith) (omega arith))) a

-- On a valid allocator and a zone of the table, `get_free_page` returns a free page of the zone
-- that was asked for, marked as allocated, and no longer on any free list, while every other page is
-- as it was and the allocator is valid; a page of the first GB is given to a request for any memory
-- only where no other page is free. It panics only where no page that the request may have is free.
pub get_free_page-Answered :
    (s : PageAlloc) (lists : ℕ → List ℕ) (zid : ℕ)
    → IsValid s lists
    → zid ≤ 1
    → Answered s zid (get_free_page s zid)
unfolding get_free_page
get_free_page-Answered s lists zid v h =
    let (r, e, f) = find_free_page-Found s lists v zid h in
    subst (λ o. Answered s zid (o >>= check_page zid)) (sym e) (check_page-Answered s zid r f)
