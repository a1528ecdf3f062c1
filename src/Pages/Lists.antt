-- ===== src/Pages/Lists.antt =====
-- The free lists of mm/page_alloc.c, and the loop that skips reserved pages.
use cute.Base.{
  ℕ, zero, suc, ◌+◌, ◌≤◌, ◌<◌, ◌≡◌, ◌≢◌, refl, sym, ap, subst, inl, inr, true, false, Option, none,
  some, List, [], ◌∷◌, arith, Bool-cases, ◌==◌, if◌then◌else◌, length, count, count_one,
  count_other, lt-suc_cases, Returns,
}
use cute.Pages.{Page, skip_reserved}

-- The descriptors that `next` links from a pointer on are those of the list, in order.
abbrev pub Chain : (ℕ → Page) → Option ℕ → List ℕ → Type 0
Chain page head [] = head ≡ none
Chain page head (x ∷ xs) = (head ≡ some x) × Chain page (page x).next xs

count-head : (x : ℕ) (xs : List ℕ) → 1 ≤ count x (x ∷ xs)
count-head x xs = omega (arith, count_one x)

count-tail : (p x : ℕ) (xs : List ℕ) → count p xs ≤ count p (x ∷ xs)
count-tail p x xs = omega arith

-- A list survives a change of the table off its members.
pub Chain-frame :
    (page page' : ℕ → Page) (head : Option ℕ) (xs : List ℕ)
    → ((p : ℕ) → 1 ≤ count p xs → (page' p).next ≡ (page p).next)
    → Chain page head xs
    → Chain page' head xs
Chain-frame page page' head [] same c = c
Chain-frame page page' head (x ∷ xs) same (e, c) = (
  e,
  subst (λ o. Chain page' o xs) (sym (same x (count-head x xs)))
      (Chain-frame page page' (page x).next xs
        (λ p h. same p (let t = count-tail p x xs in omega arith)) c),
)

-- What the loop leaves: the first page that is free, and the list behind it. Those before it are
-- reserved.
abbrev pub Skipped : (ℕ → Page) → List ℕ → Option ℕ → Type 0
Skipped page xs none = (p : ℕ) → 1 ≤ count p xs → (page p).free ≡ false
Skipped page xs (some q) =
    ((page q).free ≡ true)
    × ((rest : List ℕ) × Chain page (page q).next rest
        × ((p : ℕ) → count p (q ∷ rest) ≤ count p xs)
        × ((p : ℕ) → (page p).free ≡ true → count p (q ∷ rest) ≡ count p xs))

Skipped-cons :
    (page : ℕ → Page) (x : ℕ) (xs : List ℕ) (o : Option ℕ)
    → (page x).free ≡ false
    → Skipped page xs o
    → Skipped page (x ∷ xs) o
Skipped-cons page x xs none reserved all = λ p h. elim (Bool-cases (x == p)) [
  | inl e ↦ let eq : x ≡ p = ground arith in subst (λ k. (page k).free ≡ false) eq reserved
  | inr e ↦ let ne : x ≢ p = ground arith in let c = count_other x p ne in all p (omega arith)
]
Skipped-cons page x xs (some q) reserved (f, (rest, c, le, eq)) = (
  f,
  (
    rest,
    c,
    λ p. (let l = le p in omega arith),
    λ p free.
        (let ne : x ≢ p = λ d. (let r = ap (λ k. (page k).free) d in cc) in
          let z = count_other x p ne in let same = eq p free in omega arith),
  ),
)

pub skip_reserved-Skipped :
    (fuel : ℕ) (page : ℕ → Page) (head : Option ℕ) (xs : List ℕ)
    → Chain page head xs
    → length xs < fuel
    → Returns (Skipped page xs) (skip_reserved fuel page head)
unfolding skip_reserved
skip_reserved-Skipped fuel page head [] c l = rw c (none, refl, λ p h. absurd (omega arith))
skip_reserved-Skipped zero page head (x ∷ xs) c l = absurd (omega arith)
skip_reserved-Skipped (suc fuel) page head (x ∷ xs) (c, cs) l = elim (Bool-cases (page x).free) [
  | inl f ↦ rw c (rw f (some x, refl, (f, (xs, cs, (λ p. omega arith), (λ p free. refl)))))
  | inr f ↦
      let (o, e, s) = skip_reserved-Skipped fuel page (page x).next xs cs (omega arith) in
      rw c (rw f (o, e, Skipped-cons page x xs o f s))
]

-- A list without repetition of numbers below `n` has at most `n` entries.
abbrev sum_count : List ℕ → ℕ → ℕ
sum_count xs zero = 0
sum_count xs (suc n) = sum_count xs n + count n xs

sum_count-nil : (n : ℕ) → sum_count [] n ≡ 0
sum_count-nil zero = refl
sum_count-nil (suc n) = omega (arith, sum_count-nil n)

sum_count-cons :
    (x : ℕ) (xs : List ℕ) (n : ℕ)
    → sum_count xs n ≤ sum_count (x ∷ xs) n × (x < n → suc (sum_count xs n) ≤ sum_count (x ∷ xs) n)
sum_count-cons x xs zero = (omega arith, λ h. absurd (omega arith))
sum_count-cons x xs (suc n) =
    let (le, lt) = sum_count-cons x xs n in
    (
      omega arith,
      λ h. elim (lt-suc_cases h) [
        | inl e ↦
            let c =
              subst (λ k. 1 ≤ (if x == k then 1 else 0)) e (let o = count_one x in omega arith) in
            omega arith
        | inr b ↦ let s = lt b in omega arith
      ],
    )

length-le-sum_count :
    (xs : List ℕ) (n : ℕ) → ((p : ℕ) → 1 ≤ count p xs → p < n) → length xs ≤ sum_count xs n
length-le-sum_count [] n below = omega arith
length-le-sum_count (x ∷ xs) n below =
    let more = (sum_count-cons x xs n).1 (below x (count-head x xs)) in
    let rest =
      length-le-sum_count xs n (λ p h. below p (let t = count-tail p x xs in omega arith)) in
    omega arith

sum_count-le : (xs : List ℕ) (n : ℕ) → ((p : ℕ) → count p xs ≤ 1) → sum_count xs n ≤ n
sum_count-le xs zero once = omega arith
sum_count-le xs (suc n) once = let o = once n in omega (arith, sum_count-le xs n once)

pub length-bounded :
    (xs : List ℕ) (n : ℕ)
    → ((p : ℕ) → count p xs ≤ 1)
    → ((p : ℕ) → 1 ≤ count p xs → p < n)
    → length xs ≤ n
length-bounded xs n once below =
    omega (arith, length-le-sum_count xs n below, sum_count-le xs n once)
