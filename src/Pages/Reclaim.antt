-- ===== src/Pages/Reclaim.antt =====
-- `free_page` of mm/page_alloc.c.
use cute.Base.{
  ℕ, ◌+◌, ◌%◌, ◌^◌, ◌≤◌, ◌<◌, ◌≡◌, ◌≢◌, refl, sym, ap, subst, ◌∙◌, inl, inr, true, false, Option,
  some, List, ◌∷◌, arith, Bool-cases, ◌==◌, count, update, update_ne, update_same, update-elim, ok,
  Returns,
}
use cute.Pages.{Page, Zone, PageAlloc, get_free_page, free_page}
use cute.Pages.Link.{zone_linked}
use cute.Pages.Alloc.{
  IsValid, ZoneIsValid, IsWithin, SamePage, Allocated, ZoneIsValid-frame, update2-elim,
  valid_zone_le,
}
use cute.Pages.Allocation.{Answered, get_free_page-Answered}

-- The descriptor linked in front of a free list.
abbrev freed : Option ℕ → Page → Page
freed head p = record p { free = true; next = head }

-- The page `p` was reclaimed.
pub record Freed (s : PageAlloc) (p : ℕ) (t : PageAlloc) : Type 0 where
  pub lists : ℕ → List ℕ
  pub valid : IsValid t lists
  pub first : (t.zones (s.page p).zone_id).freelist ≡ some p
  pub now_free : (t.page p).free ≡ true
  pub same : SamePage (t.page p) (s.page p)
  pub others : (q : ℕ) → q ≢ p → t.page q ≡ s.page q
  pub top_same : t.pfdtable_top ≡ s.pfdtable_top

module _ (s : PageAlloc) (p : ℕ) where
  abbrev pub reclaimed : PageAlloc
  reclaimed =
      let zid = (s.page p).zone_id in
      let zone = s.zones zid in
      record s {
        page = update s.page p (freed zone.freelist (s.page p));
        zones =
            update s.zones zid
              (record { freelist = some p; freepages_count = (zone.freepages_count + 1) % 2 ^ 64 });
      }

  free_page-ok :
      (z : ℕ)
      → (s.page p).zone_id ≡ z
      → z ≤ 1
      → (s.page p).free ≡ false
      → free_page s p ≡ ok reclaimed
  unfolding free_page
  free_page-ok z e h f =
      rw f (rw (valid_zone_le (s.page p).zone_id (subst (λ k. k ≤ 1) (sym e) h)) refl)

  reclaimed-Freed :
      (lists : ℕ → List ℕ)
      → IsValid s lists
      → p < s.pfdtable_top
      → count p (lists (s.page p).zone_id) ≡ 0
      → Freed s p reclaimed
  reclaimed-Freed lists v l u =
      let z = (s.page p).zone_id in
      let head = (s.zones z).freelist in
      record {
        lists = update lists z (p ∷ lists z);
        valid = record {
          zone =
              update2-elim
                (λ j (a : Zone) xs.
                  j ≤ 1
                  → ZoneIsValid (update s.page p (freed head (s.page p))) s.pfdtable_top j
                      a.freelist xs)
                s.zones lists z
                (record {
                  freelist = some p;
                  freepages_count = ((s.zones z).freepages_count + 1) % 2 ^ 64;
                })
                (p ∷ lists z)
                (λ h.
                  zone_linked s.page s.pfdtable_top s.pfdtable_top z head (lists z) p
                    (freed head (s.page p)) (v.zone z h) u refl refl l (λ q k ne. k) (omega arith))
                (λ j ne h.
                  ZoneIsValid-frame s.page s.pfdtable_top j (s.zones j).freelist (lists j) p
                    (freed head (s.page p)) (λ e. ne (sym e)) refl (v.zone j h));
          frames =
              update-elim
                (λ q (x : Page). q < s.pfdtable_top → (x.zone_id ≤ 1) × IsWithin x.zone_id x) s.page
                p (freed head (s.page p)) (v.frames p) (λ q ne. v.frames q);
        };
        first =
            ap (λ (a : Zone). a.freelist)
              (update_same s.zones z (record {
                freelist = some p;
                freepages_count = ((s.zones z).freepages_count + 1) % 2 ^ 64;
              }));
        now_free = ap (λ (x : Page). x.free) (update_same s.page p (freed head (s.page p)));
        same = (
          ap (λ (x : Page). x.pfn) (update_same s.page p (freed head (s.page p))),
          ap (λ (x : Page). x.zone_id) (update_same s.page p (freed head (s.page p))),
        );
        others = λ q ne. update_ne s.page p q (freed head (s.page p)) ne;
        top_same = refl;
      }

-- `free_page` of an allocated page of a valid allocator that is on no free list returns, the page is
-- free and first on the free list of its zone, every other page is as it was, and the allocator is
-- valid.
pub free_page-Freed :
    (s : PageAlloc) (lists : ℕ → List ℕ) (p : ℕ)
    → IsValid s lists
    → p < s.pfdtable_top
    → (s.page p).free ≡ false
    → count p (lists (s.page p).zone_id) ≡ 0
    → Returns (Freed s p) (free_page s p)
free_page-Freed s lists p v l f u = (
  reclaimed s p,
  free_page-ok s p (s.page p).zone_id refl (v.frames p l).0 f,
  reclaimed-Freed s p lists v l u,
)

restored :
    (s : PageAlloc) (zid : ℕ) (t u : PageAlloc) (p : ℕ)
    → Allocated s zid t p
    → Freed t p u
    → (q : ℕ) → SamePage (u.page q) (s.page q) × ((u.page q).free ≡ (s.page q).free)
restored s zid t u p a f q = elim (Bool-cases (q == p)) [
  | inl e ↦
      (let eq : q ≡ p = ground arith in
        subst (λ k. SamePage (u.page k) (s.page k) × ((u.page k).free ≡ (s.page k).free)) (sym eq)
          ((f.same.0 ∙ a.got.same.0, f.same.1 ∙ a.got.same.1), f.now_free ∙ sym a.got.was_free))
  | inr e ↦
      (let ne : q ≢ p = ground arith in
        let same = f.others q ne ∙ a.got.others q ne in
        (
          (ap (λ (x : Page). x.pfn) same, ap (λ (x : Page). x.zone_id) same),
          ap (λ (x : Page). x.free) same,
        ))
]

given_back :
    (s : PageAlloc) (zid : ℕ) (t : PageAlloc) (p : ℕ)
    → Allocated s zid t p
    → Returns
        (λ u.
          Freed t p u
          × ((q : ℕ) → SamePage (u.page q) (s.page q) × ((u.page q).free ≡ (s.page q).free)))
        (free_page t p)
given_back s zid t p a =
    let g = a.got in
    let l : p < t.pfdtable_top = subst (λ n. p < n) (sym g.top_same) g.in_table in
    let (u, e, f) =
      free_page-Freed t g.lists p g.valid l g.now_taken
        (g.unlisted (t.page p).zone_id (g.valid.frames p l).0) in
    (u, e, (f, λ q. restored s zid t u p a f q))

-- A page that `get_free_page` gave on a valid allocator may be given back: `free_page` returns, the
-- allocator is valid, and of every page the frame, the zone and whether it is free are as before
-- both calls.
pub get_free_page-free_page :
    (s : PageAlloc) (lists : ℕ → List ℕ) (zid : ℕ)
    → IsValid s lists
    → zid ≤ 1
    → (t : PageAlloc) (p : ℕ) → get_free_page s zid ≡ ok (t, p)
    → Returns
        (λ u.
          Freed t p u
          × ((q : ℕ) → SamePage (u.page q) (s.page q) × ((u.page q).free ≡ (s.page q).free)))
        (free_page t p)
get_free_page-free_page s lists zid v h t p e =
    let a : Allocated s zid t p =
      subst (Answered s zid) e (get_free_page-Answered s lists zid v h) in
    given_back s zid t p a
