-- ===== src/Printf/Tests.antt =====
-- lib/printf.c on small numbers and formats.
use cute.Base.{ℕ, ◌≡◌, List, [], ◌∷◌, ◌^◌, ◌-◌, arith, take, ok}
use cute.Printf.{ultoa, ltoa, format_loop, vsnprintf}
use cute.Printf.Digits.{Printed, SignedPrinted, ultoa-Printed, ltoa-SignedPrinted}
use cute.Printf.Bounds.{IsBounded, vsnprintf-IsBounded, vsnprintf-plain}

-- "%d"
abbrev number_format : List ℕ
number_format = 37 ∷ 100 ∷ []

abbrev no_memory : ℕ → List ℕ
no_memory p = []

ultoa-Printed_example : Printed 16 48879 10 (ultoa 48879 10 16)
ultoa-Printed_example = ultoa-Printed 16 48879 10 (omega arith) (omega arith) (omega arith)

ltoa-SignedPrinted_example : SignedPrinted 10 (2 ^ 64 - 42) 3 (ltoa (2 ^ 64 - 42) 3 10)
ltoa-SignedPrinted_example =
    ltoa-SignedPrinted 10 (2 ^ 64 - 42) 3 (omega arith) (omega arith) (omega arith)

vsnprintf-IsBounded_example :
    IsBounded 8 (vsnprintf no_memory 8 number_format (1234 ∷ []))
    × (vsnprintf no_memory 8 number_format (1234 ∷ [])
        ≡ format_loop no_memory 8 8 number_format (1234 ∷ []))
vsnprintf-IsBounded_example = vsnprintf-IsBounded no_memory 8 number_format (1234 ∷ []) 5

vsnprintf-plain_example :
    vsnprintf no_memory 2 (104 ∷ 105 ∷ 33 ∷ []) [] ≡ ok (take 2 (104 ∷ 105 ∷ 33 ∷ []))
vsnprintf-plain_example =
    vsnprintf-plain no_memory 2 (104 ∷ 105 ∷ 33 ∷ []) []
      ((λ e. omega arith), ((λ e. omega arith), ((λ e. omega arith), tt)))
