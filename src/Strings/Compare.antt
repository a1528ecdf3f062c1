-- ===== src/Strings/Compare.antt =====
-- `strncmp` and `memcmp` of lib/string.c.
use cute.Base.{
  ℕ, zero, suc, ◌<◌, ◌≤◌, ◌≡◌, ◌≢◌, ◌↔◌, inl, inr, refl, subst, List, [], ◌∷◌, ◌++◌, arith, ◌==◌,
  length, take, false, Bool-cases, Returns,
}
use cute.Strings.{byte_diff, strncmp, memcmp}
use cute.Strings.Lengths.{IsText, not_null}

abbrev pub AreBytes : List ℕ → Type 0
AreBytes [] = Unit {0}
AreBytes (c ∷ s) = (c < 256) × AreBytes s

diff_zero : (a b : ℕ) → a < 256 → b < 256 → byte_diff a b ≡ 0 → a ≡ b
diff_zero a b ha hb h = omega arith

diff_self : (a : ℕ) → a < 256 → byte_diff a a ≡ 0
diff_self a h = omega arith

head-injective : {a b : ℕ} {s t : List ℕ} → ◌≡◌ {A = List ℕ} (a ∷ s) (b ∷ t) → (a ≡ b) × (s ≡ t)
head-injective e = (cc, cc)

-- An unsigned byte that is null exactly for equal pieces of memory.
abbrev pub Compared : List ℕ → List ℕ → ℕ → Type 0
Compared u v r = (r < 256) × ((r ≡ 0) ↔ (u ≡ v))

Compared-differ :
    (a b : ℕ) (u v : List ℕ)
    → a < 256
    → b < 256
    → (byte_diff a b == 0) ≡ false
    → Compared (a ∷ u) (b ∷ v) (byte_diff a b)
Compared-differ a b u v ha hb d =
    let ne : byte_diff a b ≢ 0 = ground arith in
    (
      omega arith,
      (
        (λ z. absurd (ne z)),
        (λ e. absurd (ne (subst (λ k. byte_diff a k ≡ 0) (head-injective e).0 (diff_self a ha)))),
      ),
    )

Compared-cons :
    (a b : ℕ) (u v : List ℕ) (r : ℕ) → a ≡ b → Compared u v r → Compared (a ∷ u) (b ∷ v) r
Compared-cons a b u v r e (l, (f, g)) =
    (l, ((λ z. (let s = f z in cc)), (λ q. g (head-injective q).1)))

-- `memcmp` of two pieces of memory of at least `n` bytes returns, and its result is null exactly
-- where their first `n` bytes are equal. It is an unsigned byte, never negative.
pub memcmp-Compared :
    (u v : List ℕ) (n : ℕ)
    → AreBytes u
    → AreBytes v
    → n ≤ length u
    → n ≤ length v
    → Returns (Compared (take n u) (take n v)) (memcmp u v n)
unfolding memcmp
memcmp-Compared u v zero hu hv lu lv = (0, refl, (omega arith, ((λ z. refl), (λ z. refl))))
memcmp-Compared [] v (suc n) hu hv lu lv = absurd (omega arith)
memcmp-Compared (a ∷ u) [] (suc n) hu hv lu lv = absurd (omega arith)
memcmp-Compared (a ∷ u) (b ∷ v) (suc n) (ha, hu) (hb, hv) lu lv =
    elim (Bool-cases (byte_diff a b == 0)) [
      | inl e ↦
          (let (r, q, c) = memcmp-Compared u v n hu hv (omega arith) (omega arith) in
            let same : a ≡ b = diff_zero a b ha hb (ground arith) in
            rw e (r, q, Compared-cons a b (take n u) (take n v) r same c))
      | inr e ↦ rw e (byte_diff a b, refl, Compared-differ a b (take n u) (take n v) ha hb e)
    ]

-- `strncmp` of two null-terminated texts returns, and its result is null exactly where their first
-- `n` bytes are the same. It is an unsigned byte, never negative.
pub strncmp-Compared :
    (s t rest rest' : List ℕ) (n : ℕ)
    → IsText s
    → IsText t
    → AreBytes s
    → AreBytes t
    → Returns (Compared (take n s) (take n t)) (strncmp (s ++ 0 ∷ rest) (t ++ 0 ∷ rest') n)
unfolding strncmp
strncmp-Compared s t rest rest' zero ts tt' hs ht =
    (0, refl, (omega arith, ((λ z. refl), (λ z. refl))))
strncmp-Compared [] [] rest rest' (suc n) ts tt' hs ht =
    (0, refl, (omega arith, ((λ z. refl), (λ z. refl))))
strncmp-Compared [] (b ∷ t) rest rest' (suc n) ts (nb, tt') hs (hb, ht) =
    let ne : (byte_diff 0 b == 0) ≡ false = ground arith in
    rw ne (byte_diff 0 b, refl, (omega arith, ((λ z. absurd (ground arith)), (λ e. absurd (cc)))))
strncmp-Compared (a ∷ s) [] rest rest' (suc n) (na, ts) tt' (ha, hs) ht =
    let ne : (byte_diff a 0 == 0) ≡ false = ground arith in
    rw ne (byte_diff a 0, refl, (omega arith, ((λ z. absurd (ground arith)), (λ e. absurd (cc)))))
strncmp-Compared (a ∷ s) (b ∷ t) rest rest' (suc n) (na, ts) (nb, tt') (ha, hs) (hb, ht) =
    elim (Bool-cases (byte_diff a b == 0)) [
      | inl e ↦
          (let (r, q, c) = strncmp-Compared s t rest rest' n ts tt' hs ht in
            let same : a ≡ b = diff_zero a b ha hb (ground arith) in
            rw e (rw (not_null a na) (r, q, Compared-cons a b (take n s) (take n t) r same c)))
      | inr e ↦ rw e (byte_diff a b, refl, Compared-differ a b (take n s) (take n t) ha hb e)
    ]
