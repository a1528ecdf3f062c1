-- ===== src/Strings.antt =====
-- lib/string.c: the comparisons, copies and lengths that C code does byte by byte. A pointer is the
-- list of the bytes from it to the end of the mapped memory, and a read past them faults, which
-- panics. An `int` result is a natural number here: no memory has 2^31 bytes in one string.
pub mod Lengths
pub mod Compare
mod Tests
use cute.Base.{
  ℕ, zero, suc, ◌+◌, ◌-◌, ◌%◌, Bool, not, ◌&&◌, ◌||◌, List, [], ◌∷◌, ltb, ◌==◌, if◌then◌else◌,
  Outcome, ok, panic, ◌>>=◌, ◌>>◌, assert,
}

pub strlen : List ℕ → Outcome ℕ
strlen [] = panic
strlen (c ∷ str) = let rest = strlen str in if c == 0 then ok 0 else (rest >>= λ n. ok (suc n))

pub strnlen : List ℕ → ℕ → Outcome ℕ
strnlen str zero = ok 0
strnlen [] (suc n) = panic
strnlen (c ∷ str) (suc n) =
    let rest = strnlen str n in if c == 0 then ok 0 else (rest >>= λ k. ok (suc k))

-- The `n` bytes that are written from `dst` on; the source pointer stays on a null byte.
pub strncpy : List ℕ → ℕ → Outcome (List ℕ)
strncpy src zero = ok []
strncpy [] (suc n) = panic
strncpy (c ∷ src) (suc n) =
    let stay = strncpy (c ∷ src) n in
    let next = strncpy src n in (if c == 0 then stay else next) >>= λ written. ok (c ∷ written)

-- `res` is an unsigned byte.
abbrev pub byte_diff : ℕ → ℕ → ℕ
byte_diff s1 s2 = (s1 + (256 - s2)) % 256

pub strncmp : List ℕ → List ℕ → ℕ → Outcome ℕ
strncmp c1 c2 zero = ok 0
strncmp [] c2 (suc n) = panic
strncmp (s1 ∷ c1) [] (suc n) = panic
strncmp (s1 ∷ c1) (s2 ∷ c2) (suc n) =
    let res = byte_diff s1 s2 in
    let rest = strncmp c1 c2 n in if not (res == 0) || s1 == 0 then ok res else rest

unfoldable pub memcmp : List ℕ → List ℕ → ℕ → Outcome ℕ
memcmp v1 v2 zero = ok 0
memcmp [] v2 (suc n) = panic
memcmp (b1 ∷ v1) [] (suc n) = panic
memcmp (b1 ∷ v1) (b2 ∷ v2) (suc n) =
    let res = byte_diff b1 b2 in
    let rest = memcmp v1 v2 n in if not (res == 0) then ok res else rest
