-- ===== src/Strings/Tests.antt =====
-- lib/string.c on short texts.
use cute.Base.{ℕ, ◌-◌, ◌≡◌, List, [], ◌∷◌, ◌++◌, arith, length, take, replicate, ok, Returns}
use cute.Strings.{strncpy, strncmp, memcmp}
use cute.Strings.Lengths.{IsText, strncpy-text}
use cute.Strings.Compare.{AreBytes, Compared, memcmp-Compared, strncmp-Compared}

abbrev abc : List ℕ
abc = 97 ∷ 98 ∷ 99 ∷ []

abbrev abd : List ℕ
abd = 97 ∷ 98 ∷ 100 ∷ []

abc-IsText : IsText abc
abc-IsText = ((λ e. omega arith), ((λ e. omega arith), ((λ e. omega arith), tt)))

abd-IsText : IsText abd
abd-IsText = ((λ e. omega arith), ((λ e. omega arith), ((λ e. omega arith), tt)))

abc-AreBytes : AreBytes abc
abc-AreBytes = (omega arith, (omega arith, (omega arith, tt)))

abd-AreBytes : AreBytes abd
abd-AreBytes = (omega arith, (omega arith, (omega arith, tt)))

strncpy-text_example : strncpy (abc ++ 0 ∷ []) 5 ≡ ok (take 5 abc ++ replicate (5 - length abc) 0)
strncpy-text_example = strncpy-text abc [] 5 abc-IsText

memcmp-Compared_example : Returns (Compared (take 3 abc) (take 3 abd)) (memcmp abc abd 3)
memcmp-Compared_example =
    memcmp-Compared abc abd 3 abc-AreBytes abd-AreBytes (omega arith) (omega arith)

strncmp-Compared_example :
    Returns (Compared (take 4 abc) (take 4 abd)) (strncmp (abc ++ 0 ∷ []) (abd ++ 0 ∷ []) 4)
strncmp-Compared_example =
    strncmp-Compared abc abd [] [] 4 abc-IsText abd-IsText abc-AreBytes abd-AreBytes
