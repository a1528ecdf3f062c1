-- ===== src/Strings/Lengths.antt =====
-- `strlen`, `strnlen` and `strncpy` of lib/string.c.
use cute.Base.{
  Bool-cases, inl, inr, ℕ, zero, suc, ◌-◌, ◌≡◌, ◌≢◌, refl, ap, ◌∙◌, List, [], ◌∷◌, ◌++◌, min, arith,
  ◌==◌, length, take, replicate, Outcome, ok, panic, ◌>>=◌, false,
}
use cute.Strings.{strlen, strnlen, strncpy}

-- No byte is null.
abbrev pub IsText : List ℕ → Type 0
IsText [] = Unit {0}
IsText (c ∷ s) = (c ≢ 0) × IsText s

pub not_null : (c : ℕ) → c ≢ 0 → (c == 0) ≡ false
not_null c h = ground arith

-- `strlen` of a null-terminated text is the number of its bytes, whatever follows it.
pub strlen-text : (s rest : List ℕ) → IsText s → strlen (s ++ 0 ∷ rest) ≡ ok (length s)
unfolding strlen
strlen-text [] rest t = refl
strlen-text (c ∷ s) rest (h, t) = rw (not_null c h) (rw (strlen-text s rest t) refl)

-- `strnlen` of a null-terminated text is the number of its bytes, at most the bound.
pub strnlen-text :
    (s rest : List ℕ) (n : ℕ) → IsText s → strnlen (s ++ 0 ∷ rest) n ≡ ok (min n (length s))
unfolding strnlen
strnlen-text s rest zero t = ap ok (omega arith)
strnlen-text [] rest (suc n) t = ap ok (omega arith)
strnlen-text (c ∷ s) rest (suc n) (h, t) =
    rw (not_null c h) (rw (strnlen-text s rest n t) (ap ok (omega arith)))

none_left : (n : ℕ) → 0 ≡ 0 - n
none_left n = omega arith

all_left : (n : ℕ) → n ≡ n - 0
all_left n = omega arith

less_one : (n l : ℕ) → n - l ≡ suc n - suc l
less_one n l = omega arith

strncpy-padding : (rest : List ℕ) (n : ℕ) → strncpy (0 ∷ rest) n ≡ ok (replicate n 0)
unfolding strncpy
strncpy-padding rest zero = refl
strncpy-padding rest (suc n) = rw (strncpy-padding rest n) refl

-- `strncpy` of a null-terminated text writes its first `n` bytes, and null bytes up to `n` behind
-- them: `n` bytes in all.
pub strncpy-text :
    (s rest : List ℕ) (n : ℕ)
    → IsText s
    → strncpy (s ++ 0 ∷ rest) n ≡ ok (take n s ++ replicate (n - length s) 0)
unfolding strncpy
strncpy-text s rest zero t = ap (λ k. ok (replicate k 0)) (none_left (length s))
strncpy-text [] rest (suc n) t =
    strncpy-padding rest (suc n) ∙ ap (λ k. ok (replicate k 0)) (all_left (suc n))
strncpy-text (c ∷ s) rest (suc n) (h, t) = rw (not_null c h) (
    rw (strncpy-text s rest n t)
      (ap (λ k. ok (c ∷ take n s ++ replicate k 0)) (less_one n (length s))))

-- A call that returns has written `n` bytes.
abbrev pub HasLength : ℕ → Outcome (List ℕ) → Type 0
HasLength n (ok bytes) = length bytes ≡ n
HasLength n panic = Unit {0}

HasLength-cons :
    (n c : ℕ) (o : Outcome (List ℕ)) → HasLength n o → HasLength (suc n) (o >>= λ b. ok (c ∷ b))
HasLength-cons n c (ok bytes) h = ap suc h
HasLength-cons n c panic h = tt

pub strncpy-HasLength : (src : List ℕ) (n : ℕ) → HasLength n (strncpy src n)
unfolding strncpy
strncpy-HasLength src zero = refl
strncpy-HasLength [] (suc n) = tt
strncpy-HasLength (c ∷ src) (suc n) = elim (Bool-cases (c == 0)) [
  | inl e ↦ rw e (HasLength-cons n c (strncpy (c ∷ src) n) (strncpy-HasLength (c ∷ src) n))
  | inr e ↦ rw e (HasLength-cons n c (strncpy src n) (strncpy-HasLength src n))
]
