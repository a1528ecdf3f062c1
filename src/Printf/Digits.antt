-- ===== src/Printf/Digits.antt =====
-- `ultoa` and `ltoa` of lib/printf.c against the value of a numeral.
use native.Mathlib.Nat.{
  pow-zero, pow-suc, div-lt_iff_lt-mul, le-div_iff_mul-le, div-add-mod, mod-lt, one-le-pow,
  pow-le-pow_right, mul-le-mul_left,
}
use cute.Base.{
  zero_or_more, ℕ, zero, suc, ◌+◌, ◌-◌, ◌*◌, ◌/◌, ◌%◌, ◌^◌, ◌<◌, ◌≤◌, ◌≡◌, ◌≢◌, ◌⊎◌, inl, inr, refl,
  ap, sym, subst, ◌∙◌, false, Bool-cases, List, [], ◌∷◌, ◌++◌, arith, ltb, leb, lt→ltb, le→leb,
  leb→le, ◌==◌, if◌then◌else◌, length, length-append, Outcome, ok, panic, ◌>>=◌, ◌>>◌, assert,
}
use cute.Printf.{digit_char, count_digits, write_digits, ultoa, ltoa}

-- The value of a digit, and of a numeral from its first digit on.
abbrev pub char_digit : ℕ → ℕ
char_digit c = if ltb c 58 then c - 48 else c - 87

abbrev pub numeral : ℕ → ℕ → List ℕ → ℕ
numeral radix acc [] = acc
numeral radix acc (c ∷ cs) = numeral radix (acc * radix + char_digit c) cs

-- An ASCII digit of the radix: from `0` to `9`, or from `a` to `f`.
abbrev pub IsDigit : ℕ → ℕ → Type 0
IsDigit radix c =
    ((48 ≤ c) × (c < 58) × (c - 48 < radix)) ⊎ ((97 ≤ c) × (c < 103) × (c - 87 < radix))

abbrev pub AreDigits : ℕ → List ℕ → Type 0
AreDigits radix [] = Unit {0}
AreDigits radix (c ∷ cs) = IsDigit radix c × AreDigits radix cs

digit_char-IsDigit : (radix d : ℕ) → d < radix → radix ≤ 16 → IsDigit radix (digit_char d)
digit_char-IsDigit radix d h high = elim (Bool-cases (ltb d 10)) [
  | inl e ↦ rw e (inl (ground arith))
  | inr e ↦ rw e (inr (ground arith))
]

AreDigits-append :
    (radix : ℕ) (xs : List ℕ) (c : ℕ)
    → AreDigits radix xs
    → IsDigit radix c
    → AreDigits radix (xs ++ c ∷ [])
AreDigits-append radix [] c h d = (d, tt)
AreDigits-append radix (x ∷ xs) c (here, rest) d = (here, AreDigits-append radix xs c rest d)

char_digit_lem : (d : ℕ) → d < 16 → char_digit (digit_char d) ≡ d
char_digit_lem d h = ground arith

numeral-append :
    (radix acc : ℕ) (xs : List ℕ) (c : ℕ)
    → numeral radix acc (xs ++ c ∷ []) ≡ numeral radix acc xs * radix + char_digit c
numeral-append radix acc [] c = refl
numeral-append radix acc (x ∷ xs) c = numeral-append radix (acc * radix + char_digit x) xs c

pub length-write_digits : (n num radix : ℕ) → length (write_digits n num radix) ≡ n
unfolding write_digits
length-write_digits zero num radix = refl
length-write_digits (suc n) num radix = omega (
  arith,
  length-append (write_digits n (num / radix) radix) (digit_char (num % radix) ∷ []),
  length-write_digits n (num / radix) radix,
)

module _ (radix : ℕ) (low : 2 < radix) (high : radix ≤ 16) where
  shift : (num n : ℕ) → num < radix ^ suc n → num / radix < radix ^ n
  shift num n h = (div-lt_iff_lt-mul (omega arith)).1 (subst (λ k. num < k) (pow-suc radix n) h)

  last_digit : (num : ℕ) → num % radix < 16
  last_digit num = let m = mod-lt num {m = radix} (omega arith) in omega arith

  rejoin : (num : ℕ) → num / radix * radix + num % radix ≡ num
  rejoin num = omega (arith, div-add-mod num radix)

  numeral-write_digits :
      (n num : ℕ) → num < radix ^ n → numeral radix 0 (write_digits n num radix) ≡ num
  unfolding write_digits
  numeral-write_digits zero num h = let z = subst (λ k. num < k) (pow-zero radix) h in omega arith
  numeral-write_digits (suc n) num h =
      numeral-append radix 0 (write_digits n (num / radix) radix) (digit_char (num % radix))
      ∙ ap (λ k. k * radix + char_digit (digit_char (num % radix)))
          (numeral-write_digits n (num / radix) (shift num n h))
      ∙ ap (λ k. num / radix * radix + k) (char_digit_lem (num % radix) (last_digit num))
      ∙ rejoin num

  write_digits-AreDigits : (n num : ℕ) → AreDigits radix (write_digits n num radix)
  unfolding write_digits
  write_digits-AreDigits zero num = tt
  write_digits-AreDigits (suc n) num =
      AreDigits-append radix (write_digits n (num / radix) radix) (digit_char (num % radix))
        (write_digits-AreDigits n (num / radix))
        (digit_char-IsDigit radix (num % radix) (mod-lt num (omega arith)) high)

  smaller : (num f : ℕ) → num < 2 ^ suc f → num / radix < 2 ^ f
  smaller num f h =
      let twice = subst (λ k. num < k) (pow-suc 2 f) h in
      let more = mul-le-mul_left {m = 2} {n = radix} (2 ^ f) (omega arith) in
      (div-lt_iff_lt-mul (omega arith)).1 (omega arith)

  count_digits-none : (f : ℕ) → count_digits f 0 radix ≡ 0
  unfolding count_digits
  count_digits-none zero = refl
  count_digits-none (suc f) = refl

  -- The loop counts the digits of a number, of which it has at least one unless it is zero.
  abbrev Counted : ℕ → ℕ → Type 0
  Counted num c = (num < radix ^ c) × (num ≢ 0 → (0 < c) × (radix ^ (c - 1) ≤ num))

  Counted-zero : (num : ℕ) → num ≡ 0 → Counted num 0
  Counted-zero num e = (let z = pow-zero radix in omega arith, λ n. absurd (n e))

  Counted-suc :
      (num c : ℕ)
      → num ≢ 0
      → (num / radix ≡ 0 → c ≡ 0)
      → Counted (num / radix) c
      → Counted num (suc c)
  Counted-suc num c ne small (lt, more) = (
    subst (λ k. num < k) (sym (pow-suc radix c)) ((div-lt_iff_lt-mul (omega arith)).0 lt),
    λ n. (omega arith, lower (zero_or_more (num / radix))),
  )
    where
      lower : (num / radix ≡ 0) ⊎ (1 ≤ num / radix) → radix ^ (suc c - 1) ≤ num
      lower (inl z) =
          let e : 0 ≡ suc c - 1 = omega (arith, small z) in
          subst (λ k. radix ^ k ≤ num) e (let o = pow-zero radix in omega arith)
      lower (inr m) =
          let (pos, le) = more (omega arith) in
          let e : suc (c - 1) ≡ suc c - 1 = omega arith in
          subst (λ k. radix ^ k ≤ num) e
            (subst (λ k. k ≤ num) (sym (pow-suc radix (c - 1)))
              ((le-div_iff_mul-le (omega arith)).0 le))

  count_digits-Counted : (f num : ℕ) → num < 2 ^ f → Counted num (count_digits f num radix)
  unfolding count_digits
  count_digits-Counted zero num h = Counted-zero num (let z = pow-zero 2 in omega arith)
  count_digits-Counted (suc f) num h = elim (Bool-cases (num == 0)) [
    | inl e ↦ rw e (Counted-zero num (ground arith))
    | inr e ↦ rw e (
        Counted-suc num (count_digits f (num / radix) radix) (ground arith)
          (λ z. ap (λ k. count_digits f k radix) z ∙ count_digits-none f)
          (count_digits-Counted f (num / radix) (smaller num f h)))
  ]

-- A numeral of the number: its bytes are digits, read back it gives the number, it has one digit at least, no more than
-- the buffer's size, and no needless one.
pub record IsNumeral (radix num size : ℕ) (bytes : List ℕ) : Type 0 where
  pub digits : AreDigits radix bytes
  pub value : numeral radix 0 bytes ≡ num
  pub some_digit : 0 < length bytes
  pub fits : length bytes ≤ size
  pub shortest : num ≢ 0 → radix ^ (length bytes - 1) ≤ num

-- The number has too many digits for the buffer.
abbrev pub Printed : ℕ → ℕ → ℕ → Outcome (List ℕ) → Type 0
Printed radix num size (ok bytes) = IsNumeral radix num size bytes
Printed radix num size panic = (size ≡ 0) ⊎ (radix ^ size ≤ num)

module _ (radix : ℕ) (low : 2 < radix) (high : radix ≤ 16) (num : ℕ) where
  abbrev digits : ℕ → ℕ
  digits c = (if num == 0 then 1 else 0) + c

  abbrev IsCount : ℕ → Type 0
  IsCount n = (0 < n) × (num < radix ^ n) × (num ≢ 0 → radix ^ (n - 1) ≤ num) × (num ≡ 0 → n ≡ 1)

  unpadded : (c : ℕ) → c ≡ 0 + c
  unpadded c = omega arith

  digits-IsCount : (c : ℕ) → Counted radix low high num c → (num ≡ 0 → c ≡ 0) → IsCount (digits c)
  digits-IsCount c (lt, more) none_there = elim (Bool-cases (num == 0)) [
    | inl e ↦
        let z : num ≡ 0 = ground arith in
        rw e (
          omega arith,
          subst (λ k. k < radix ^ (1 + c)) (sym z) (one-le-pow (1 + c) radix (omega arith)),
          (λ n. absurd (n z)),
          λ k. (let w = none_there k in omega arith),
        )
    | inr e ↦
        let n : num ≢ 0 = ground arith in
        let (pos, le) = more n in
        rw e (
          omega arith,
          subst (λ k. num < radix ^ k) (unpadded c) lt,
          (λ m. subst (λ k. radix ^ (k - 1) ≤ num) (unpadded c) le),
          λ z. absurd (n z),
        )
  ]

  too_small :
      (n size : ℕ)
      → (num ≢ 0 → radix ^ (n - 1) ≤ num)
      → (num ≡ 0 → n ≡ 1)
      → size < n
      → (size ≡ 0) ⊎ (radix ^ size ≤ num)
  too_small n size le one l = elim (zero_or_more num) [
    | inl z ↦ inl (let o = one z in omega arith)
    | inr m ↦ inr (
        let low' = le (omega arith) in
        let grows =
          pow-le-pow_right {n = radix} (omega arith) {i = size} {j = n - 1} (omega arith) in
        omega arith)
  ]

  written :
      (n size : ℕ)
      → IsCount n
      → Printed radix num size
          (assert (ltb 0 n) >> (assert (leb n size) >> ok (write_digits n num radix)))
  written n size (pos, lt, le, one) = elim (Bool-cases (leb n size)) [
    | inl e ↦ rw (lt→ltb 0 n pos) (
        rw e record {
          digits = write_digits-AreDigits radix low high n num;
          value = numeral-write_digits radix low high n num lt;
          some_digit = omega (arith, length-write_digits n num radix);
          fits = (let l = leb→le n size e in omega (arith, length-write_digits n num radix));
          shortest = λ z.
              subst (λ k. radix ^ (k - 1) ≤ num) (sym (length-write_digits n num radix)) (le z);
        })
    | inr e ↦ rw (lt→ltb 0 n pos) (rw e (too_small n size le one (ground arith)))
  ]

  none_counted : num ≡ 0 → count_digits 64 num radix ≡ 0
  none_counted z = ap (λ k. count_digits 64 k radix) z ∙ count_digits-none radix low high 64

-- For a word and a radix from 3 to 16, `ultoa` either writes the shortest numeral of the number,
-- in ASCII digits and within the buffer, or it panics, where the buffer is too small for every numeral of the number.
pub ultoa-Printed :
    (radix num size : ℕ)
    → 2 < radix
    → radix ≤ 16
    → num < 2 ^ 64
    → Printed radix num size (ultoa num size radix)
unfolding ultoa
ultoa-Printed radix num size low high h =
    let d =
      digits-IsCount radix low high num (count_digits 64 num radix)
        (count_digits-Counted radix low high 64 num h) (none_counted radix low high num) in
    rw (lt→ltb 2 radix low) (
      rw (le→leb radix 16 high)
        (written radix low high num (digits radix low high num (count_digits 64 num radix)) size d))

-- What the conversion of a negative number of this magnitude may answer: a minus sign and the
-- numeral of the magnitude, or a panic where the buffer is too small for that.
abbrev pub NegativePrinted : ℕ → ℕ → ℕ → Outcome (List ℕ) → Type 0
NegativePrinted radix num size (ok []) = ⊥
NegativePrinted radix num size (ok (c ∷ bytes)) = (c ≡ 45) × IsNumeral radix num (size - 1) bytes
NegativePrinted radix num size panic = (size ≤ 1) ⊎ (radix ^ (size - 1) ≤ num)

NegativePrinted-sign :
    (radix num size : ℕ) (o : Outcome (List ℕ))
    → Printed radix num (size - 1) o
    → NegativePrinted radix num size (o >>= λ bytes. ok (45 ∷ bytes))
NegativePrinted-sign radix num size (ok bytes) p = (refl, p)
NegativePrinted-sign radix num size panic (inl z) = inl (omega arith)
NegativePrinted-sign radix num size panic (inr h) = inr h

abbrev pub SignedPrinted : ℕ → ℕ → ℕ → Outcome (List ℕ) → Type 0
SignedPrinted radix num size o =
    (2 ^ 63 ≤ num → NegativePrinted radix (2 ^ 64 - num) size o)
    × (num < 2 ^ 63 → Printed radix num size o)

negative_too_small : (size : ℕ) → leb 2 size ≡ false → size ≤ 1
negative_too_small size h = ground arith

-- For a word that holds a signed number in two's complement and a radix from 3 to 16, `ltoa` writes
-- a minus sign before the shortest numeral of its magnitude if the number is negative, the least one
-- included, and the shortest numeral alone if it is not; it panics only where the buffer is too
-- small for that.
pub ltoa-SignedPrinted :
    (radix num size : ℕ)
    → 2 < radix
    → radix ≤ 16
    → num < 2 ^ 64
    → SignedPrinted radix num size (ltoa num size radix)
unfolding ltoa
ltoa-SignedPrinted radix num size low high h = elim (Bool-cases (leb (2 ^ 63) num)) [
  | inl e ↦
      let wrap : (2 ^ 64 - num) % 2 ^ 64 ≡ 2 ^ 64 - num =
        (let l = leb→le (2 ^ 63) num e in omega arith) in
      rw (lt→ltb 2 radix low) (
        rw (le→leb radix 16 high) (
          rw e (
            rw wrap (
              (λ neg. elim (Bool-cases (leb 2 size)) [
                | inl f ↦ rw f (
                    NegativePrinted-sign radix (2 ^ 64 - num) size
                      (ultoa (2 ^ 64 - num) (size - 1) radix)
                      (ultoa-Printed radix (2 ^ 64 - num) (size - 1) low high (omega arith)))
                | inr f ↦ rw f (inl (negative_too_small size f))
              ]),
              λ pos. absurd (let l = leb→le (2 ^ 63) num e in omega arith),
            ))))
  | inr e ↦ rw (lt→ltb 2 radix low) (
      rw (le→leb radix 16 high)
        (rw e ((λ neg. absurd (ground arith)), λ pos. ultoa-Printed radix num size low high h)))
]
