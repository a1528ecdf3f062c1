-- ===== src/Printf/Fuel.antt =====
-- The outer loop of `vsnprintf` of lib/printf.c ends with its format: more fuel than the format has
-- bytes changes nothing.
use cute.Base.{
  ℕ, zero, suc, ◌+◌, ◌-◌, ◌<◌, ◌≤◌, ◌≡◌, inl, inr, refl, ap, ◌∙◌, subst, Bool-cases, List, [], ◌∷◌,
  ◌++◌, arith, ◌==◌, length, Outcome, ok, panic, ◌>>=◌,
}
use cute.Printf.{
  ArgDesc, ArgLen, arg_int, arg_long, parse_arg, print_arg, copy_plain, print_expr, behind_plain,
  append_to, format_loop,
}

-- What is left of the format is no longer than `n`.
abbrev LeavesAtMost : ℕ → Outcome (ArgDesc × List ℕ) → Type 0
LeavesAtMost n (ok (d, rest)) = length rest ≤ n
LeavesAtMost n panic = Unit {0}

LeavesAtMost-weaken :
    (m n : ℕ) (o : Outcome (ArgDesc × List ℕ)) → m ≤ n → LeavesAtMost m o → LeavesAtMost n o
LeavesAtMost-weaken m n (ok (d, rest)) l h = omega arith
LeavesAtMost-weaken m n panic l h = tt

parse_arg-LeavesAtMost :
    (len : ArgLen) (fmt : List ℕ) → LeavesAtMost (length fmt) (parse_arg len fmt)
unfolding parse_arg
parse_arg-LeavesAtMost len [] = tt
parse_arg-LeavesAtMost len (c ∷ fmt) = elim (Bool-cases (c == 108)) [
  | inl e ↦ rw e (
      LeavesAtMost-weaken (length fmt) (suc (length fmt)) (parse_arg arg_long fmt) (omega arith)
        (parse_arg-LeavesAtMost arg_long fmt))
  | inr e ↦ rw e (omega arith)
]

copy_plain_left : (fmt : List ℕ) (size : ℕ) → length (copy_plain fmt size).1 ≤ length fmt
unfolding copy_plain
copy_plain_left [] size = omega arith
copy_plain_left (c ∷ fmt) zero = omega arith
copy_plain_left (c ∷ fmt) (suc size) = elim (Bool-cases (c == 37)) [
  | inl e ↦ rw e (omega arith)
  | inr e ↦ rw e (omega (arith, copy_plain_left fmt size))
]

bind-agree {ℓ κ} :
    {A : Type ℓ} {R : Type κ} (m : Outcome A) (f g : A → Outcome R)
    → ((a : A) → m ≡ ok a → f a ≡ g a)
    → (m >>= f) ≡ (m >>= g)
bind-agree (ok a) f g h = h a refl
bind-agree panic f g h = refl

-- Two continuations that agree on formats shorter than `n`.
module _ (mem : ℕ → List ℕ) (f g : ℕ → List ℕ → List ℕ → Outcome (List ℕ)) (n : ℕ)
    (agree : (size : ℕ) (fmt args : List ℕ)
      → length fmt < n
      → f size fmt args ≡ g size fmt args) where
  print_expr-agree :
      (size : ℕ) (fmt args : List ℕ)
      → length fmt < n
      → print_expr mem f size fmt args ≡ print_expr mem g size fmt args
  unfolding print_expr
  print_expr-agree size fmt args l = bind-agree (parse_arg arg_int fmt) _ _ (λ (d, rest) e.
      let left : length rest ≤ length fmt =
        subst (LeavesAtMost (length fmt)) e (parse_arg-LeavesAtMost arg_int fmt) in
      bind-agree (print_arg mem size d args) _ _ (λ (written, args') k.
        ap (λ o. o >>= λ more. ok (written ++ more))
          (agree (size - length written) rest args' (omega arith))))

  behind_plain-agree :
      (size : ℕ) (left args : List ℕ)
      → length left ≤ n
      → behind_plain mem f size left args ≡ behind_plain mem g size left args
  unfolding behind_plain
  behind_plain-agree size [] args l = refl
  behind_plain-agree zero (c ∷ fmt) args l = refl
  behind_plain-agree (suc size) (c ∷ fmt) args l =
      print_expr-agree (suc size) fmt args (omega arith)

-- With more fuel than the format has bytes, the loop does what it does with any more.
pub format_loop-more :
    (mem : ℕ → List ℕ) (fuel k size : ℕ) (fmt args : List ℕ)
    → length fmt < fuel
    → format_loop mem fuel size fmt args ≡ format_loop mem (fuel + k) size fmt args
unfolding format_loop
format_loop-more mem zero k size fmt args l = absurd (omega arith)
format_loop-more mem (suc fuel) k size fmt args l =
    let more : suc (fuel + k) ≡ suc fuel + k = omega arith in
    ap (append_to (copy_plain fmt size).0) (
      behind_plain-agree mem (format_loop mem fuel) (format_loop mem (fuel + k)) fuel
        (λ s f a h. format_loop-more mem fuel k s f a h) (size - length (copy_plain fmt size).0)
        (copy_plain fmt size).1 args (omega (arith, copy_plain_left fmt size)))
    ∙ ap (λ n. format_loop mem n size fmt args) more
