-- ===== src/Pages/Alloc.antt =====
-- Allocation and reclamation of pages, `get_free_page` and `free_page` of mm/page_alloc.c.
use cute.Base.{
  zero_or_more, ℕ, suc, ◌+◌, ◌-◌, ◌%◌, ◌^◌, ◌≤◌, ◌<◌, ◌≡◌, ◌≢◌, refl, sym, ap, subst, ◌∙◌, inl, inr,
  true, false, Option, none, some, List, [], ◌∷◌, arith, Bool-cases, ◌==◌, count, count_one,
  count_other, update, update_ne, update_same, update-elim, ok, Returns, Returns-bind,
}
use cute.Pages.{
  Page, Zone, PageAlloc, page_size, zone_1gb, zone_any, zone_start, zone_end, page_phys_addr,
  valid_zone, skip_reserved, take_page, zone_get_free_page,
}
use cute.Pages.Lists.{Chain, Chain-frame, Skipped, skip_reserved-Skipped, length-bounded}

-- One zone: its free list holds, once each, descriptors of the table that belong to the zone, and
-- every free one of them.
pub record ZoneIsValid (page : ℕ → Page) (top z : ℕ) (head : Option ℕ) (xs : List ℕ) : Type 0 where
  pub chain : Chain page head xs
  pub once : (p : ℕ) → count p xs ≤ 1
  pub below : (p : ℕ) → 1 ≤ count p xs → p < top
  pub zoned : (p : ℕ) → 1 ≤ count p xs → (page p).zone_id ≡ z
  pub listed : (p : ℕ) → p < top → (page p).zone_id ≡ z → (page p).free ≡ true → 1 ≤ count p xs

-- The page lies in the zone.
abbrev pub IsWithin : ℕ → Page → Type 0
IsWithin z p = (zone_start z ≤ page_phys_addr p) × (page_phys_addr p + page_size ≤ zone_end z)

-- The allocator with its free lists `lists`.
pub record IsValid (s : PageAlloc) (lists : ℕ → List ℕ) : Type 0 where
  pub zone : (z : ℕ) → z ≤ 1 → ZoneIsValid s.page s.pfdtable_top z (s.zones z).freelist (lists z)
  pub frames :
      (p : ℕ)
      → p < s.pfdtable_top
      → ((s.page p).zone_id ≤ 1) × IsWithin (s.page p).zone_id (s.page p)

-- Pages that differ at most in what links them and in whether they are free.
abbrev pub SamePage : Page → Page → Type 0
SamePage p q = (p.pfn ≡ q.pfn) × (p.zone_id ≡ q.zone_id)

-- What an attempt on one zone leaves: `t`, and the page it got.
pub record Got (s : PageAlloc) (z : ℕ) (t : PageAlloc) (p : ℕ) : Type 0 where
  pub lists : ℕ → List ℕ
  pub valid : IsValid t lists
  pub unlisted : (z : ℕ) → z ≤ 1 → count p (lists z) ≡ 0
  pub was_free : (s.page p).free ≡ true
  pub now_taken : (t.page p).free ≡ false
  pub in_table : p < s.pfdtable_top
  pub in_zone : (s.page p).zone_id ≡ z
  pub same : SamePage (t.page p) (s.page p)
  pub others : (q : ℕ) → q ≢ p → t.page q ≡ s.page q
  pub top_same : t.pfdtable_top ≡ s.pfdtable_top

pub record GotNone (s : PageAlloc) (z : ℕ) (t : PageAlloc) : Type 0 where
  pub lists : ℕ → List ℕ
  pub valid : IsValid t lists
  pub no_free : (p : ℕ) → p < s.pfdtable_top → (s.page p).zone_id ≡ z → (s.page p).free ≡ false
  pub pages : t.page ≡ s.page
  pub top_same : t.pfdtable_top ≡ s.pfdtable_top

abbrev pub Attempted : PageAlloc → ℕ → PageAlloc × Option ℕ → Type 0
Attempted s z (t, none) = GotNone s z t
Attempted s z (t, some p) = Got s z t p

pub update2-elim {κ} :
    (P : ℕ → Zone → List ℕ → Type κ) (f : ℕ → Zone) (g : ℕ → List ℕ) (i : ℕ) (a : Zone) (b : List ℕ)
    → P i a b
    → ((j : ℕ) → j ≢ i → P j (f j) (g j))
    → (j : ℕ) → P j (update f i a j) (update g i b j)
update2-elim P f g i a b here there j = elim (Bool-cases (j == i)) [
  | inl e ↦
      let eq : j ≡ i = ground arith in
      subst (λ k. P k (update f i a k) (update g i b k)) (sym eq)
        (subst (λ z. P i z (update g i b i)) (sym (update_same f i a))
          (subst (P i a) (sym (update_same g i b)) here))
  | inr e ↦
      let ne : j ≢ i = ground arith in
      subst (λ z. P j z (update g i b j)) (sym (update_ne f i j a ne))
        (subst (P j (f j)) (sym (update_ne g i j b ne)) (there j ne))
]

-- A zone whose pages did not change.
pub ZoneIsValid-frame :
    (page : ℕ → Page) (top z : ℕ) (head : Option ℕ) (xs : List ℕ) (p : ℕ) (a : Page)
    → (page p).zone_id ≢ z
    → a.zone_id ≡ (page p).zone_id
    → ZoneIsValid page top z head xs
    → ZoneIsValid (update page p a) top z head xs
ZoneIsValid-frame page top z head xs p a other same v =
    let eq : (q : ℕ) → (page q).zone_id ≡ z → update page p a q ≡ page q =
      λ q e. update_ne page p q a (λ d. other (ap (λ k. (page k).zone_id) (sym d) ∙ e)) in
    let back : (q : ℕ) → (update page p a q).zone_id ≡ z → (page q).zone_id ≡ z =
      update-elim (λ q (x : Page). x.zone_id ≡ z → (page q).zone_id ≡ z) page p a
        (λ e. absurd (other (sym same ∙ e))) (λ q ne e. e) in
    record {
      chain =
          Chain-frame page (update page p a) head xs
            (λ q h. ap (λ (x : Page). x.next) (eq q (v.zoned q h))) v.chain;
      once = v.once;
      below = v.below;
      zoned = λ q h. ap (λ (x : Page). x.zone_id) (eq q (v.zoned q h)) ∙ v.zoned q h;
      listed = λ q l e f.
          v.listed q l (back q e) (ap (λ (x : Page). x.free) (sym (eq q (back q e))) ∙ f);
    }

-- A page marked as allocated.
abbrev taken : Page → Page
taken p = record p { free = false }

module _ (page : ℕ → Page) (top z : ℕ) (head : Option ℕ) (xs rest : List ℕ) (p : ℕ)
    (v : ZoneIsValid page top z head xs) (free : (page p).free ≡ true)
    (chain : Chain page (page p).next rest) (le : (q : ℕ) → count q (p ∷ rest) ≤ count q xs)
    (same : (q : ℕ) → (page q).free ≡ true → count q (p ∷ rest) ≡ count q xs) where
  member : 1 ≤ count p xs
  member = let l = le p in let o = count_one p in omega arith

  unlisted_here : count p rest ≡ 0
  unlisted_here = let l = le p in let o = count_one p in let n = v.once p in omega arith

  taken_next : (q : ℕ) → (update page p (taken (page p)) q).next ≡ (page q).next
  taken_next =
      update-elim (λ q (x : Page). x.next ≡ (page q).next) page p (taken (page p)) refl
        (λ q ne. refl)

  taken_zone : (q : ℕ) → (update page p (taken (page p)) q).zone_id ≡ (page q).zone_id
  taken_zone =
      update-elim (λ q (x : Page). x.zone_id ≡ (page q).zone_id) page p (taken (page p)) refl
        (λ q ne. refl)

  taken_free :
      (q : ℕ) → (update page p (taken (page p)) q).free ≡ true → (q ≢ p) × ((page q).free ≡ true)
  taken_free =
      update-elim (λ q (x : Page). x.free ≡ true → (q ≢ p) × ((page q).free ≡ true)) page p
        (taken (page p)) (λ e. absurd (cc)) (λ q ne e. (ne, e))

  in_rest : (q : ℕ) → 1 ≤ count q rest → 1 ≤ count q xs
  in_rest q h = let l = le q in omega arith

  taken_listed : (q : ℕ) → q ≢ p → (page q).free ≡ true → 1 ≤ count q xs → 1 ≤ count q rest
  taken_listed q ne f h =
      let c = count_other p q (λ e. ne (sym e)) in let s = same q f in omega arith

  zone_taken : ZoneIsValid (update page p (taken (page p))) top z (page p).next rest
  zone_taken = record {
    chain =
        Chain-frame page (update page p (taken (page p))) (page p).next rest (λ q h. taken_next q)
          chain;
    once = λ q. (let l = le q in let o = v.once q in omega arith);
    below = λ q h. v.below q (in_rest q h);
    zoned = λ q h. taken_zone q ∙ v.zoned q (in_rest q h);
    listed = λ q l e f.
        (let (ne, f') = taken_free q f in
          taken_listed q ne f' (v.listed q l (sym (taken_zone q) ∙ e) f'));
  }

-- A list whose pages are all reserved may be dropped.
zone_dropped :
    (page : ℕ → Page) (top z : ℕ) (head : Option ℕ) (xs : List ℕ)
    → ZoneIsValid page top z head xs
    → ((p : ℕ) → 1 ≤ count p xs → (page p).free ≡ false)
    → ZoneIsValid page top z none []
zone_dropped page top z head xs v reserved = record {
  chain = refl;
  once = λ p. omega arith;
  below = λ p h. absurd (omega arith);
  zoned = λ p h. absurd (omega arith);
  listed = λ p l e f. (let r = reserved p (v.listed p l e f) in absurd (cc));
}

IsFree_false : (p : Page) → ¬ (p.free ≡ true) → p.free ≡ false
IsFree_false p h = elim (Bool-cases p.free) [ inl e ↦ absurd (h e) | inr e ↦ e ]

unlisted_elsewhere :
    (s : PageAlloc) (lists : ℕ → List ℕ)
    → IsValid s lists
    → (p j : ℕ) → j ≤ 1
    → (s.page p).zone_id ≢ j
    → count p (lists j) ≡ 0
unlisted_elsewhere s lists v p j h ne = elim (zero_or_more (count p (lists j))) [
  | inl e ↦ e
  | inr m ↦ absurd (ne ((v.zone j h).zoned p m))
]

take_page-Attempted :
    (s : PageAlloc) (lists : ℕ → List ℕ) (z : ℕ) (o : Option ℕ)
    → z ≤ 1
    → IsValid s lists
    → Skipped s.page (lists z) o
    → Attempted s z (take_page s z o)
unfolding take_page
take_page-Attempted s lists z none zone v reserved = record {
  lists = update lists z [];
  valid = record {
    zone =
        update2-elim (λ j (a : Zone) l. j ≤ 1 → ZoneIsValid s.page s.pfdtable_top j a.freelist l)
          s.zones lists z (record (s.zones z) { freelist = none }) []
          (λ h.
            zone_dropped s.page s.pfdtable_top z (s.zones z).freelist (lists z) (v.zone z h)
              reserved)
          (λ j ne h. v.zone j h);
    frames = v.frames;
  };
  no_free = λ p l e.
      IsFree_false (s.page p) (λ f. (let r = reserved p ((v.zone z zone).listed p l e f) in cc));
  pages = refl;
  top_same = refl;
}
take_page-Attempted s lists z (some p) zone v (free, (rest, chain, le, same)) =
    let vz = v.zone z zone in
    let m =
      member s.page s.pfdtable_top z (s.zones z).freelist (lists z) rest p vz free chain le same in
    let zid = vz.zoned p m in
    record {
      lists = update lists z rest;
      valid = record {
        zone =
            update2-elim
              (λ j (a : Zone) l.
                j ≤ 1
                → ZoneIsValid (update s.page p (taken (s.page p))) s.pfdtable_top j a.freelist l)
              s.zones lists z
              (record {
                freelist = (s.page p).next;
                freepages_count = ((s.zones z).freepages_count + (2 ^ 64 - 1)) % 2 ^ 64;
              })
              rest
              (λ h.
                zone_taken s.page s.pfdtable_top z (s.zones z).freelist (lists z) rest p vz free
                  chain le same)
              (λ j ne h.
                ZoneIsValid-frame s.page s.pfdtable_top j (s.zones j).freelist (lists j) p
                  (taken (s.page p)) (λ e. ne (sym e ∙ zid)) refl (v.zone j h));
        frames =
            update-elim
              (λ q (x : Page). q < s.pfdtable_top → (x.zone_id ≤ 1) × IsWithin x.zone_id x) s.page p
              (taken (s.page p)) (v.frames p) (λ q ne. v.frames q);
      };
      unlisted =
          update-elim (λ j l. j ≤ 1 → count p l ≡ 0) lists z rest
            (λ h.
              unlisted_here s.page s.pfdtable_top z (s.zones z).freelist (lists z) rest p vz free
                chain le same)
            (λ j ne h. unlisted_elsewhere s lists v p j h (λ e. ne (sym e ∙ zid)));
      was_free = free;
      now_taken = ap (λ (x : Page). x.free) (update_same s.page p (taken (s.page p)));
      in_table = vz.below p m;
      in_zone = zid;
      same = (
        ap (λ (x : Page). x.pfn) (update_same s.page p (taken (s.page p))),
        ap (λ (x : Page). x.zone_id) (update_same s.page p (taken (s.page p))),
      );
      others = λ q ne. update_ne s.page p q (taken (s.page p)) ne;
      top_same = refl;
    }

pub valid_zone_le : (z : ℕ) → z ≤ 1 → valid_zone z ≡ true
valid_zone_le z h = ground arith

-- An attempt on one zone takes a free page of the zone, which was on its free list, and it fails
-- only where the zone has no free page. It never runs on and never panics.
pub zone_get_free_page-Attempted :
    (s : PageAlloc) (lists : ℕ → List ℕ) (z : ℕ)
    → z ≤ 1
    → IsValid s lists
    → Returns (Attempted s z) (zone_get_free_page s z)
unfolding zone_get_free_page
zone_get_free_page-Attempted s lists z h v =
    let vz = v.zone z h in
    let enough = length-bounded (lists z) s.pfdtable_top vz.once vz.below in
    rw (valid_zone_le z h) (
      Returns-bind (skip_reserved (suc s.pfdtable_top) s.page (s.zones z).freelist)
        (λ o. ok (take_page s z o))
        (skip_reserved-Skipped (suc s.pfdtable_top) s.page (s.zones z).freelist (lists z) vz.chain
          (omega arith))
        (λ o k. (take_page s z o, refl, take_page-Attempted s lists z o h v k)))

-- No page may be allocated for the request.
abbrev pub IsExhausted : PageAlloc → ℕ → Type 0
IsExhausted s zid =
    (p : ℕ)
    → p < s.pfdtable_top
    → (zid ≡ zone_1gb → (s.page p).zone_id ≡ zone_1gb)
    → (s.page p).free ≡ false

-- The page `p` was allocated for the request.
pub record Allocated (s : PageAlloc) (zid : ℕ) (t : PageAlloc) (p : ℕ) : Type 0 where
  pub within : IsWithin zid (s.page p)
  pub got : Got s (s.page p).zone_id t p
  -- memory of the first GB goes to others only where no other is left
  pub spares :
      zid ≡ zone_any
      → (s.page p).zone_id ≡ zone_1gb
      → (q : ℕ) → q < s.pfdtable_top
      → (s.page q).zone_id ≡ zone_any
      → (s.page q).free ≡ false

module _ (s t : PageAlloc) (pages : t.page ≡ s.page) (top : t.pfdtable_top ≡ s.pfdtable_top) where
  pub Got-from : (z p : ℕ) (u : PageAlloc) → Got t z u p → Got s z u p
  Got-from z p u g = record {
    lists = g.lists;
    valid = g.valid;
    unlisted = g.unlisted;
    was_free = ap (λ f. (f p).free) (sym pages) ∙ g.was_free;
    now_taken = g.now_taken;
    in_table = subst (λ n. p < n) top g.in_table;
    in_zone = ap (λ f. (f p).zone_id) (sym pages) ∙ g.in_zone;
    same = subst (λ f. SamePage (u.page p) (f p)) pages g.same;
    others = λ q ne. g.others q ne ∙ ap (λ f. f q) pages;
    top_same = g.top_same ∙ top;
  }

  pub no_free-from :
      (z p : ℕ) (u : PageAlloc)
      → GotNone t z u
      → p < s.pfdtable_top
      → (s.page p).zone_id ≡ z
      → (s.page p).free ≡ false
  no_free-from z p u g l e =
      ap (λ f. (f p).free) (sym pages)
      ∙ g.no_free p (subst (λ n. p < n) (sym top) l) (ap (λ f. (f p).zone_id) pages ∙ e)
