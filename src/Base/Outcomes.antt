-- ===== src/Base/Outcomes.antt =====
-- What a call of kernel code ends in: a value, or the kernel's `panic()`, which a failed `assert()`
-- calls too.
use mathlib.Core.Path.{◌≡◌, sym, ◌∙◌, subst}
use mathlib.Core.Bool.{Bool, true, false}

pub data Outcome {ℓ} (A : Type ℓ) : Type ℓ where
  ok : A → Outcome A
  panic : Outcome A

infixl 5 ◌>>◌ ◌>>=◌
-- A panic ends the call.
abbrev pub ◌>>=◌ {ℓ ι} : {A : Type ℓ} {R : Type ι} → Outcome A → (A → Outcome R) → Outcome R
panic >>= rest = panic
ok a >>= rest = rest a

abbrev pub ◌>>◌ {ι} : {R : Type ι} → Outcome (Unit {0}) → Outcome R → Outcome R
step >> rest = step >>= λ _. rest

-- `assert(b)`
abbrev pub assert : Bool → Outcome (Unit {0})
assert true = ok tt
assert false = panic

-- The call returns, and its value has the property.
abbrev pub Returns {ℓ κ} : {A : Type ℓ} → (A → Type κ) → Outcome A → Type (ℓ ⊔ κ)
Returns {A} P o = (a : A) × (o ≡ ok a) × P a

pub ok-injective {ℓ} : {A : Type ℓ} {a b : A} → ok a ≡ ok b → a ≡ b
ok-injective e = cc

-- Two properties of the value that one call returns.
pub Returns-both {ℓ κ ι} :
    {A : Type ℓ} {P : A → Type κ} {Q : A → Type ι} {o : Outcome A}
    → Returns P o
    → Returns Q o
    → Returns (λ a. P a × Q a) o
Returns-both {Q} (a, e, p) (b, f, q) = (a, e, (p, subst Q (ok-injective (sym f ∙ e)) q))

-- A property of what a call returns holds of the value that it is known to return.
pub Returns-at {ℓ κ} :
    {A : Type ℓ} {P : A → Type κ} {o : Outcome A} {a : A} → Returns P o → o ≡ ok a → P a
Returns-at {P} (b, f, p) e = subst P (ok-injective (sym f ∙ e)) p

pub Returns-bind {ℓ κ ι} :
    {A B : Type ℓ} {P : A → Type κ} {Q : B → Type ι} (m : Outcome A) (f : A → Outcome B)
    → Returns P m
    → ((a : A) → P a → Returns Q (f a))
    → Returns Q (m >>= f)
Returns-bind {Q} m f (a, e, p) k = subst (λ o. Returns Q (o >>= f)) (sym e) (k a p)
