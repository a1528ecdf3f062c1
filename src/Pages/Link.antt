-- ===== src/Pages/Link.antt =====
-- A descriptor linked in front of a free list of mm/page_alloc.c.
use cute.Base.{
  ℕ, ◌≤◌, ◌<◌, ◌≡◌, ◌≢◌, refl, sym, ap, subst, ◌∙◌, ◌⊎◌, inl, inr, true, Option, some, List, ◌∷◌,
  arith, Bool-cases, ◌==◌, count, count_one, count_other, update, update_ne, update_same,
  update-elim,
}
use cute.Pages.{Page}
use cute.Pages.Lists.{Chain, Chain-frame}
use cute.Pages.Alloc.{ZoneIsValid}

module _ (page : ℕ → Page) (top top' z : ℕ) (head : Option ℕ) (xs : List ℕ) (p : ℕ) (a : Page)
    (v : ZoneIsValid page top z head xs) (unlisted : count p xs ≡ 0) (zone : a.zone_id ≡ z)
    (link : a.next ≡ head) (inside : p < top') (old : (q : ℕ) → q < top' → q ≢ p → q < top)
    (grows : top ≤ top') where
  not_p : (q : ℕ) → 1 ≤ count q xs → q ≢ p
  not_p q h e = let u = ap (λ k. count k xs) e in absurd (omega arith)

  linked-Chain : Chain (update page p a) (some p) (p ∷ xs)
  linked-Chain = (
    refl,
    subst (λ (x : Page). Chain (update page p a) x.next xs) (sym (update_same page p a))
        (subst (λ o. Chain (update page p a) o xs) (sym link)
          (Chain-frame page (update page p a) head xs
            (λ q h. ap (λ (x : Page). x.next) (update_ne page p q a (not_p q h))) v.chain)),
  )

  linked_cases : (q : ℕ) → 1 ≤ count q (p ∷ xs) → (p ≡ q) ⊎ (1 ≤ count q xs)
  linked_cases q h = elim (Bool-cases (p == q)) [
    | inl e ↦ inl (ground arith)
    | inr e ↦ (let ne : p ≢ q = ground arith in let c = count_other p q ne in inr (omega arith))
  ]

  linked_once : (q : ℕ) → count q (p ∷ xs) ≤ 1
  linked_once q = elim (Bool-cases (p == q)) [
    | inl e ↦
        (let eq : p ≡ q = ground arith in
          subst (λ k. count k (p ∷ xs) ≤ 1) eq (let o = count_one p in omega arith))
    | inr e ↦
        (let ne : p ≢ q = ground arith in
          let c = count_other p q ne in let o = v.once q in omega arith)
  ]

  linked_listed :
      (q : ℕ)
      → q < top'
      → (update page p a q).zone_id ≡ z
      → (update page p a q).free ≡ true
      → 1 ≤ count q (p ∷ xs)
  linked_listed =
      update-elim (λ q (x : Page). q < top' → x.zone_id ≡ z → x.free ≡ true → 1 ≤ count q (p ∷ xs))
        page p a (λ l e f. (let o = count_one p in omega arith))
        (λ q ne l e f. (let h = v.listed q (old q l ne) e f in omega arith))

  linked_zoned : (q : ℕ) → 1 ≤ count q (p ∷ xs) → (update page p a q).zone_id ≡ z
  linked_zoned =
      update-elim (λ q (x : Page). 1 ≤ count q (p ∷ xs) → x.zone_id ≡ z) page p a (λ h. zone)
        (λ q ne h. elim (linked_cases q h) [ inl e ↦ absurd (ne (sym e)) | inr m ↦ v.zoned q m ])

  linked_below : (q : ℕ) → 1 ≤ count q (p ∷ xs) → q < top'
  linked_below q h = elim (linked_cases q h) [
    | inl e ↦ subst (λ k. k < top') e inside
    | inr m ↦ (let b = v.below q m in omega arith)
  ]

  -- The zone with the descriptor `a` at `p`, linked in front of its free list.
  pub zone_linked : ZoneIsValid (update page p a) top' z (some p) (p ∷ xs)
  zone_linked = record {
    chain = linked-Chain;
    once = linked_once;
    below = linked_below;
    zoned = linked_zoned;
    listed = linked_listed;
  }

-- Another zone, when the descriptor at `p` is replaced.
module _ (page : ℕ → Page) (top top' z : ℕ) (head : Option ℕ) (xs : List ℕ) (p : ℕ) (a : Page)
    (v : ZoneIsValid page top z head xs) (unlisted : count p xs ≡ 0) (zone : a.zone_id ≢ z)
    (old : (q : ℕ) → q < top' → q ≢ p → q < top) (grows : top ≤ top') where
  kept_same : (q : ℕ) → 1 ≤ count q xs → update page p a q ≡ page q
  kept_same q h =
      update_ne page p q a (λ e. (let u = ap (λ k. count k xs) e in absurd (omega arith)))

  pub zone_kept : ZoneIsValid (update page p a) top' z head xs
  zone_kept = record {
    chain =
        Chain-frame page (update page p a) head xs
          (λ q h. ap (λ (x : Page). x.next) (kept_same q h)) v.chain;
    once = v.once;
    below = λ q h. (let b = v.below q h in omega arith);
    zoned = λ q h. ap (λ (x : Page). x.zone_id) (kept_same q h) ∙ v.zoned q h;
    listed =
        update-elim (λ q (x : Page). q < top' → x.zone_id ≡ z → x.free ≡ true → 1 ≤ count q xs) page
          p a (λ l e f. absurd (zone e)) (λ q ne l e f. v.listed q (old q l ne) e f);
  }
