-- ===== src/Base/Division.antt =====
-- Quotients and remainders by a number that is not a literal, and the rounding of include/kernel.h.
use native.Mathlib.Nat.{
  mul-add-div_right, div-eq_of_lt, div-add-mod', add-mul-mod_self_right, mod-eq_of_lt, add_comm,
  add-zero,
}
use Prim.Native.Nat.{ℕ, zero, suc, ◌+◌, ◌*◌, ◌-◌, ◌/◌, ◌%◌, ◌<◌, ◌≤◌}
use mathlib.Core.Path.{◌≡◌, ap, ◌∙◌, subst}
use native.Mathlib.Omega.{arith}
use cute.Base.Tests.{◌==◌, if◌then◌else◌}

-- `round_up` of include/kernel.h, by one less and one more: from 0 it wraps to 0.
abbrev pub round_up : ℕ → ℕ → ℕ
round_up zero n = 0
round_up (suc x) n = x / n * n + n

pub round_up_lem : (x n : ℕ) → 0 < x → (x - 1) / n * n + n ≡ round_up x n
round_up_lem zero n h = absurd (omega arith)
round_up_lem (suc x) n h = ap (λ k. k / n * n + n) (omega arith)

abbrev pub ceil_div : ℕ → ℕ → ℕ
ceil_div a b = if a == 0 then a else (a - 1) / b + 1

pub div_mod_of_sum : (n q r : ℕ) → r < n → ((q * n + r) / n ≡ q) × ((q * n + r) % n ≡ r)
div_mod_of_sum n q r h = (
  mul-add-div_right (omega arith) q r ∙ ap (◌+◌ q) (div-eq_of_lt h) ∙ add-zero q,
  ap (λ k. k % n) (add_comm (q * n) r) ∙ add-mul-mod_self_right r q n ∙ mod-eq_of_lt h,
)

-- `y`, and `x` within the block of `n` that `i` lies in, are equally far from `i`.
pub div_mod_within :
    (n i x y : ℕ) → i % n ≤ x → x < n → y + i % n ≡ x + i → (y / n ≡ i / n) × (y % n ≡ x)
div_mod_within n i x y h k e =
    let sum : i / n * n + x ≡ y = omega (arith, div-add-mod' i n) in
    subst (λ m. (m / n ≡ i / n) × (m % n ≡ x)) sum (div_mod_of_sum n (i / n) x k)
