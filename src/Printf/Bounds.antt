-- ===== src/Printf/Bounds.antt =====
-- `vsnprintf` of lib/printf.c: the bound on what it writes, and its copy of plain text.
use cute.Base.{
  ℕ, zero, suc, ◌+◌, ◌-◌, ◌%◌, ◌^◌, ◌<◌, ◌≤◌, ◌≡◌, ◌≢◌, inl, inr, refl, ap, sym, subst, ◌∙◌, Bool,
  true, false, Bool-cases, min, List, [], ◌∷◌, ◌++◌, arith, ltb, leb, leb→le, lt→ltb, ◌==◌,
  if◌then◌else◌, length, length-append, take, drop, Outcome, ok, panic, ◌>>=◌, ◌>>◌, assert,
}
use cute.Strings.{strlen, strncpy}
use cute.Printf.{
  valid_radix, ArgType, arg_none, arg_signed, arg_unsigned, arg_string, arg_char, arg_percent,
  ArgLen, ArgDesc, arg_int, parse_arg, takes_arg, with_args, count_digits, write_digits, ultoa,
  ltoa, print_string, print_word, print_arg, copy_plain, print_expr, behind_plain, format_loop,
  vsnprintf,
}
use cute.Strings.Lengths.{HasLength, strncpy-HasLength}
use cute.Printf.Digits.{length-write_digits}
use cute.Printf.Fuel.{format_loop-more}

-- The call panics, or it writes at most `size` bytes.
abbrev pub IsBounded : ℕ → Outcome (List ℕ) → Type 0
IsBounded size (ok bytes) = length bytes ≤ size
IsBounded size panic = Unit {0}

IsBounded-bind {ℓ} :
    {A : Type ℓ} (size : ℕ) (m : Outcome A) (f : A → Outcome (List ℕ))
    → ((a : A) → m ≡ ok a → IsBounded size (f a))
    → IsBounded size (m >>= f)
IsBounded-bind size (ok a) f h = h a refl
IsBounded-bind size panic f h = tt

IsBounded-assert :
    (size : ℕ) (b : Bool) (k : Outcome (List ℕ))
    → (b ≡ true → IsBounded size k)
    → IsBounded size (assert b >> k)
IsBounded-assert size true k h = h refl
IsBounded-assert size false k h = tt

IsBounded-weaken : (m n : ℕ) (o : Outcome (List ℕ)) → m ≤ n → IsBounded m o → IsBounded n o
IsBounded-weaken m n (ok bytes) l h = omega arith
IsBounded-weaken m n panic l h = tt

IsBounded-cons :
    (size : ℕ) (c : ℕ) (o : Outcome (List ℕ))
    → IsBounded size o
    → IsBounded (suc size) (o >>= λ b. ok (c ∷ b))
IsBounded-cons size c (ok bytes) h = omega arith
IsBounded-cons size c panic h = tt

IsBounded-append :
    (size : ℕ) (xs : List ℕ) (o : Outcome (List ℕ))
    → length xs ≤ size
    → IsBounded (size - length xs) o
    → IsBounded size (o >>= λ more. ok (xs ++ more))
IsBounded-append size xs (ok more) l h = omega (arith, length-append xs more)
IsBounded-append size xs panic l h = tt

checked_write :
    (digits num size radix : ℕ)
    → IsBounded size (assert (leb digits size) >> ok (write_digits digits num radix))
checked_write digits num size radix =
    IsBounded-assert size (leb digits size) (ok (write_digits digits num radix))
      (λ f. (let l = leb→le digits size f in omega (arith, length-write_digits digits num radix)))

ultoa-IsBounded : (num size radix : ℕ) → IsBounded size (ultoa num size radix)
unfolding ultoa
ultoa-IsBounded num size radix =
    let digits = (if num == 0 then 1 else 0) + count_digits 64 num radix in
    let write = checked_write digits num size radix in
    IsBounded-assert size (valid_radix radix)
      (assert (ltb 0 digits) >> (assert (leb digits size) >> ok (write_digits digits num radix)))
      (λ v.
        IsBounded-assert size (ltb 0 digits)
          (assert (leb digits size) >> ok (write_digits digits num radix)) (λ p. write))

negative-IsBounded :
    (num size radix : ℕ)
    → IsBounded size
        (assert (leb 2 size) >> (ultoa num (size - 1) radix >>= λ digits. ok (45 ∷ digits)))
negative-IsBounded num size radix =
    IsBounded-assert size (leb 2 size) (ultoa num (size - 1) radix >>= λ digits. ok (45 ∷ digits))
      (λ two.
        IsBounded-weaken (suc (size - 1)) size
          (ultoa num (size - 1) radix >>= λ digits. ok (45 ∷ digits))
          (let l = leb→le 2 size two in omega arith)
          (IsBounded-cons (size - 1) 45 (ultoa num (size - 1) radix)
            (ultoa-IsBounded num (size - 1) radix)))

ltoa-IsBounded : (num size radix : ℕ) → IsBounded size (ltoa num size radix)
unfolding ltoa
ltoa-IsBounded num size radix = elim (Bool-cases (valid_radix radix)) [
  | inl v ↦ elim (Bool-cases (leb (2 ^ 63) num)) [
    | inl e ↦ rw v (rw e (negative-IsBounded ((2 ^ 64 - num) % 2 ^ 64) size radix))
    | inr e ↦ rw v (rw e (ultoa-IsBounded num size radix))
  ]
  | inr v ↦ rw v tt
]

strncpy-IsBounded :
    (size n : ℕ) (o : Outcome (List ℕ)) → n ≤ size → HasLength n o → IsBounded size o
strncpy-IsBounded size n (ok bytes) l h = omega arith
strncpy-IsBounded size n panic l h = tt

print_string-IsBounded : (str : List ℕ) (size : ℕ) → IsBounded size (print_string str size)
unfolding print_string
print_string-IsBounded str size = IsBounded-bind size (strlen str) _ (λ n e.
    strncpy-IsBounded size (min size n) (strncpy str (min size n)) (omega arith)
      (strncpy-HasLength str (min size n)))

print_word-IsBounded :
    (mem : ℕ → List ℕ) (size : ℕ) (type : ArgType) (len : ArgLen) (radix word : ℕ)
    → 0 < size
    → IsBounded size (print_word mem size type len radix word)
unfolding print_word
print_word-IsBounded mem size arg_none len radix word l = omega arith
print_word-IsBounded mem size arg_signed len radix word l = ltoa-IsBounded _ size radix
print_word-IsBounded mem size arg_unsigned len radix word l = ultoa-IsBounded _ size radix
print_word-IsBounded mem size arg_string len radix word l = print_string-IsBounded _ size
print_word-IsBounded mem size arg_char len radix word l = omega arith
print_word-IsBounded mem size arg_percent len radix word l = omega arith

-- What `print_arg` writes fits.
abbrev FitsArg : ℕ → Outcome (List ℕ × List ℕ) → Type 0
FitsArg size (ok (bytes, args)) = length bytes ≤ size
FitsArg size panic = Unit {0}

with_args-FitsArg :
    (size : ℕ) (o : Outcome (List ℕ)) (args : List ℕ)
    → IsBounded size o
    → FitsArg size (with_args o args)
with_args-FitsArg size (ok bytes) args h = h
with_args-FitsArg size panic args h = tt

print_arg-FitsArg :
    (mem : ℕ → List ℕ) (size : ℕ) (d : ArgDesc) (args : List ℕ)
    → 0 < size
    → FitsArg size (print_arg mem size d args)
unfolding print_arg
print_arg-FitsArg mem size d args l = rw (lt→ltb 0 size l) (taken (takes_arg d.type args))
  where
    taken :
        (o : Outcome (ℕ × List ℕ))
        → FitsArg size
            (o >>= λ (word, rest). with_args (print_word mem size d.type d.len d.radix word) rest)
    taken panic = tt
    taken (ok (word, rest)) =
        with_args-FitsArg size (print_word mem size d.type d.len d.radix word) rest
          (print_word-IsBounded mem size d.type d.len d.radix word l)

length-copy_plain : (fmt : List ℕ) (size : ℕ) → length (copy_plain fmt size).0 ≤ size
unfolding copy_plain
length-copy_plain [] size = omega arith
length-copy_plain (c ∷ fmt) zero = omega arith
length-copy_plain (c ∷ fmt) (suc size) = elim (Bool-cases (c == 37)) [
  | inl e ↦ rw e (omega arith)
  | inr e ↦ rw e (omega (arith, length-copy_plain fmt size))
]

module _ (mem : ℕ → List ℕ) (next : ℕ → List ℕ → List ℕ → Outcome (List ℕ))
    (bound : (size : ℕ) (fmt args : List ℕ) → IsBounded size (next size fmt args)) where
  print_expr-IsBounded :
      (size : ℕ) (fmt args : List ℕ) → 0 < size → IsBounded size (print_expr mem next size fmt args)
  unfolding print_expr
  print_expr-IsBounded size fmt args l =
      IsBounded-bind size (parse_arg arg_int fmt) _ (λ (d, rest) e.
        IsBounded-bind size (print_arg mem size d args) _ (λ (written, args') f.
          IsBounded-append size written (next (size - length written) rest args')
            (subst (FitsArg size) f (print_arg-FitsArg mem size d args l))
            (bound (size - length written) rest args')))

  behind_plain-IsBounded :
      (size : ℕ) (left args : List ℕ) → IsBounded size (behind_plain mem next size left args)
  unfolding behind_plain
  behind_plain-IsBounded size [] args = omega arith
  behind_plain-IsBounded zero (c ∷ fmt) args = omega arith
  behind_plain-IsBounded (suc size) (c ∷ fmt) args =
      print_expr-IsBounded (suc size) fmt args (omega arith)

format_loop-IsBounded :
    (mem : ℕ → List ℕ) (fuel size : ℕ) (fmt args : List ℕ)
    → IsBounded size (format_loop mem fuel size fmt args)
unfolding format_loop
format_loop-IsBounded mem zero size fmt args = tt
format_loop-IsBounded mem (suc fuel) size fmt args =
    IsBounded-append size (copy_plain fmt size).0 _ (length-copy_plain fmt size) (
      behind_plain-IsBounded mem (format_loop mem fuel) (format_loop-IsBounded mem fuel)
        (size - length (copy_plain fmt size).0) (copy_plain fmt size).1 args)

no_room :
    (mem : ℕ → List ℕ) (fuel : ℕ) (fmt args : List ℕ)
    → format_loop mem (suc fuel) 0 fmt args ≡ ok []
unfolding format_loop copy_plain behind_plain
no_room mem fuel [] args = refl
no_room mem fuel (c ∷ fmt) args = refl

more_turns : (n k : ℕ) → suc (n + k) ≡ suc n + k
more_turns n k = omega arith

zero_of : (size : ℕ) → ltb size 1 ≡ true → 0 ≡ size
zero_of size h = ground arith

-- Whatever the format and the arguments, `vsnprintf` writes at most `size` bytes, or it panics; and
-- its loop has fuel enough: with `k` turns more the result is the same, a panic included.
pub vsnprintf-IsBounded :
    (mem : ℕ → List ℕ) (size : ℕ) (fmt args : List ℕ) (k : ℕ)
    → IsBounded size (vsnprintf mem size fmt args)
      × (vsnprintf mem size fmt args ≡ format_loop mem (suc (length fmt) + k) size fmt args)
unfolding vsnprintf
vsnprintf-IsBounded mem size fmt args k = elim (Bool-cases (ltb size 1)) [
  | inl e ↦ rw e (
    omega arith,
    sym (no_room mem (length fmt + k) fmt args)
        ∙ ap (λ n. format_loop mem n 0 fmt args) (more_turns (length fmt) k)
        ∙ ap (λ n. format_loop mem (suc (length fmt) + k) n fmt args) (zero_of size e),
  )
  | inr e ↦ rw e (
    format_loop-IsBounded mem (suc (length fmt)) size fmt args,
    format_loop-more mem (suc (length fmt)) k size fmt args (omega arith),
  )
]

-- The format has no `%`.
abbrev pub IsPlain : List ℕ → Type 0
IsPlain [] = Unit {0}
IsPlain (c ∷ fmt) = (c ≢ 37) × IsPlain fmt

not_percent : (c : ℕ) → c ≢ 37 → (c == 37) ≡ false
not_percent c h = ground arith

copy_plain-plain :
    (fmt : List ℕ) (size : ℕ) → IsPlain fmt → copy_plain fmt size ≡ (take size fmt, drop size fmt)
unfolding copy_plain
copy_plain-plain [] zero p = refl
copy_plain-plain [] (suc size) p = refl
copy_plain-plain (c ∷ fmt) zero p = refl
copy_plain-plain (c ∷ fmt) (suc size) (n, p) =
    rw (not_percent c n) (rw (copy_plain-plain fmt size p) refl)

append-nil : (xs : List ℕ) → xs ++ [] ≡ xs
append-nil [] = refl
append-nil (x ∷ xs) = ap (λ l. x ∷ l) (append-nil xs)

less_one : (n l : ℕ) → n - l ≡ suc n - suc l
less_one n l = omega arith

module _ (mem : ℕ → List ℕ) (next : ℕ → List ℕ → List ℕ → Outcome (List ℕ)) (args : List ℕ) where
  behind_plain-done :
      (fmt : List ℕ) (size : ℕ)
      → behind_plain mem next (size - length (take size fmt)) (drop size fmt) args ≡ ok []
  unfolding behind_plain
  behind_plain-done [] zero = refl
  behind_plain-done [] (suc size) = refl
  behind_plain-done (c ∷ fmt) zero = refl
  behind_plain-done (c ∷ fmt) (suc size) =
      ap (λ k. behind_plain mem next k (drop size fmt) args)
        (sym (less_one size (length (take size fmt))))
      ∙ behind_plain-done fmt size

has_room : (size : ℕ) → ltb (suc size) 1 ≡ false
has_room size = ground arith

-- Of a format without `%`, `vsnprintf` writes the first `size` bytes, and returns.
pub vsnprintf-plain :
    (mem : ℕ → List ℕ) (size : ℕ) (fmt args : List ℕ)
    → IsPlain fmt
    → vsnprintf mem size fmt args ≡ ok (take size fmt)
unfolding vsnprintf format_loop
vsnprintf-plain mem zero fmt args p = refl
vsnprintf-plain mem (suc size) fmt args p = rw (has_room size) (
    rw (copy_plain-plain fmt (suc size) p) (
      rw (behind_plain-done mem (format_loop mem (length fmt)) args fmt (suc size))
        (ap ok (append-nil (take (suc size) fmt)))))
