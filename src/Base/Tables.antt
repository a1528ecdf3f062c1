-- ===== src/Base/Tables.antt =====
-- Tables, and how often a number stands in a list.
use Prim.Native.Nat.{ℕ, suc, ◌+◌, ◌≤◌, ◌<◌}
use mathlib.Core.Path.{◌≡◌, sym, subst}
use mathlib.Core.Logic.{◌≢◌, ◌⊎◌, inl, inr}
use mathlib.Core.List.{List, [], ◌∷◌, ◌++◌}
use native.Mathlib.Omega.{arith}
use cute.Base.Lists.{length}
use cute.Base.Tests.{Bool-cases, ◌==◌, if◌then◌else◌}

-- A table with one entry changed.
abbrev pub update {ℓ} : {A : Type ℓ} → (ℕ → A) → ℕ → A → ℕ → A
update f i a j = if j == i then a else f j

abbrev pub count : ℕ → List ℕ → ℕ
count p [] = 0
count p (x ∷ xs) = (if x == p then 1 else 0) + count p xs

pub lt-suc_cases : {i n : ℕ} → i < suc n → (i ≡ n) ⊎ (i < n)
lt-suc_cases h = omega arith

pub count_one : (x : ℕ) → ◌≡◌ {A = ℕ} (if x == x then 1 else 0) 1
count_one x = ground arith

pub count_other : (x y : ℕ) → x ≢ y → ◌≡◌ {A = ℕ} (if x == y then 1 else 0) 0
count_other x y h = ground arith

pub count-append : (p : ℕ) (xs ys : List ℕ) → count p (xs ++ ys) ≡ count p xs + count p ys
count-append p [] ys = omega arith
count-append p (x ∷ xs) ys = omega (arith, count-append p xs ys)

pub update_same {ℓ} : {A : Type ℓ} (f : ℕ → A) (i : ℕ) (a : A) → update f i a i ≡ a
update_same f i a = ground arith

pub update_ne {ℓ} : {A : Type ℓ} (f : ℕ → A) (i j : ℕ) (a : A) → j ≢ i → update f i a j ≡ f j
update_ne f i j a ne = ground arith

-- What holds at a changed entry and at all others holds of the changed table.
pub update-elim {ℓ κ} :
    {A : Type ℓ} (P : ℕ → A → Type κ) (f : ℕ → A) (i : ℕ) (a : A)
    → P i a
    → ((j : ℕ) → j ≢ i → P j (f j))
    → (j : ℕ) → P j (update f i a j)
update-elim P f i a here there j = elim (Bool-cases (j == i)) [
  | inl e ↦
      let eq : j ≡ i = ground arith in
      subst (λ k. P k (update f i a k)) (sym eq) (subst (P i) (sym (update_same f i a)) here)
  | inr e ↦ let ne : j ≢ i = ground arith in subst (P j) (sym (update_ne f i j a ne)) (there j ne)
]

pub count-le-length : (p : ℕ) (xs : List ℕ) → count p xs ≤ length xs
count-le-length p [] = omega arith
count-le-length p (x ∷ xs) = ground (arith, count-le-length p xs)
