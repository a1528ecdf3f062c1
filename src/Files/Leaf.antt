-- ===== src/Files/Leaf.antt =====
-- ext2/file.c: what `path_get_leaf` finds.
use cute.Base.{
  ℕ, suc, ◌+◌, ◌≡◌, refl, ◌∙◌, inl, inr, true, false, List, [], ◌∷◌, ◌++◌, ◌==◌, length, bit_and,
  Bool-cases, ok, arith,
}
use cute.Ext2.Volume.{s_ifmt, s_ifreg, s_ifdir}
use cute.Ext2.Names.{slash}
use cute.Files.Paths.{
  ParsingState, start, in_slash, in_filename, leaf_type_of, leaf_start_at, leaf_loop, path_get_leaf,
}

abbrev pub AllSlashes : List ℕ → Type 0
AllSlashes [] = Unit {0}
AllSlashes (c ∷ path) = ((c == slash) ≡ true) × AllSlashes path

abbrev pub NoSlashes : List ℕ → Type 0
NoSlashes [] = Unit {0}
NoSlashes (c ∷ path) = ((c == slash) ≡ false) × NoSlashes path

-- The path is empty, or its last byte is a slash.
abbrev pub EndsInSlash : List ℕ → Type 0
EndsInSlash [] = Unit {0}
EndsInSlash (c ∷ []) = (c == slash) ≡ true
EndsInSlash (c ∷ d ∷ path) = EndsInSlash (d ∷ path)

-- The type of a leaf that `tail` follows
abbrev pub leaf_type : List ℕ → ℕ
leaf_type [] = s_ifreg
leaf_type (c ∷ tail) = s_ifdir

leaf_loop-slashes :
    (leaf i : ℕ) (tail : List ℕ)
    → AllSlashes tail
    → leaf_loop in_slash leaf i tail ≡ ok (leaf, s_ifdir)
unfolding leaf_loop leaf_type_of
leaf_loop-slashes leaf i [] h = refl
leaf_loop-slashes leaf i (c ∷ tail) (e, h) = rw e (leaf_loop-slashes leaf (suc i) tail h)

leaf_loop-name :
    (leaf i : ℕ) (name tail : List ℕ)
    → NoSlashes name
    → AllSlashes tail
    → leaf_loop in_filename leaf i (name ++ tail) ≡ ok (leaf, leaf_type tail)
unfolding leaf_loop leaf_type_of leaf_start_at
leaf_loop-name leaf i [] [] h k = refl
leaf_loop-name leaf i [] (c ∷ tail) h (e, k) = rw e (leaf_loop-slashes leaf (suc i) tail k)
leaf_loop-name leaf i (c ∷ name) tail (e, h) k = rw e (leaf_loop-name leaf (suc i) name tail h k)

-- No name is being read in this state.
abbrev IsBetween : ParsingState → Type 0
IsBetween start = Unit {0}
IsBetween in_slash = Unit {0}
IsBetween in_filename = ⊥

leaf_loop-first :
    (state : ParsingState) (leaf i c : ℕ) (rest : List ℕ)
    → IsBetween state
    → (c == slash) ≡ false
    → leaf_loop state leaf i (c ∷ rest) ≡ leaf_loop in_filename i (suc i) rest
unfolding leaf_loop leaf_start_at
leaf_loop-first start leaf i c rest b e = rw e
leaf_loop-first in_slash leaf i c rest b e = rw e
leaf_loop-first in_filename leaf i c rest b e = absurd b

-- What stands before the last name only moves the index.
leaf_loop-before :
    (state : ParsingState) (leaf i j c : ℕ) (p : ℕ) (before rest : List ℕ)
    → EndsInSlash (p ∷ before)
    → (c == slash) ≡ false
    → j ≡ i + suc (length before)
    → leaf_loop state leaf i ((p ∷ before) ++ c ∷ rest) ≡ leaf_loop in_filename j (suc j) rest
unfolding leaf_loop leaf_start_at
leaf_loop-before state leaf i j c p [] rest h e at =
    let next : j ≡ suc i = omega arith in
    rw (h, next) (leaf_loop-first in_slash leaf (suc i) c rest tt e)
leaf_loop-before state leaf i j c p (q ∷ before) rest h e at = elim (Bool-cases (p == slash)) [
  | inl t ↦ rw t (leaf_loop-before in_slash leaf (suc i) j c q before rest h e (omega arith))
  | inr t ↦ rw t (
      leaf_loop-before in_filename (leaf_start_at state leaf i) (suc i) j c q before rest h e
        (omega arith))
]

loop_of_leaf :
    (before : List ℕ) (c : ℕ) (name tail : List ℕ)
    → EndsInSlash before
    → (c == slash) ≡ false
    → NoSlashes name
    → AllSlashes tail
    → leaf_loop start 0 0 (before ++ c ∷ (name ++ tail)) ≡ ok (length before, leaf_type tail)
loop_of_leaf [] c name tail h e k t =
    leaf_loop-first start 0 0 c (name ++ tail) tt e ∙ leaf_loop-name 0 1 name tail k t
loop_of_leaf (p ∷ before) c name tail h e k t =
    leaf_loop-before start 0 0 (suc (length before)) c p before (name ++ tail) h e (omega arith)
    ∙ leaf_loop-name (suc (length before)) (suc (suc (length before))) name tail k t

typed : (tail : List ℕ) → (bit_and (leaf_type tail) s_ifmt == 0) ≡ false
typed [] = refl
typed (c ∷ tail) = refl

-- Of a path of anything that ends in a slash, or nothing, then a name without slashes, then slashes, the
-- leaf is the name: `path_get_leaf` returns its index, with the type of a directory where slashes follow
-- it, and of a regular file where none does.
pub path_get_leaf-leaf_type :
    (before : List ℕ) (c : ℕ) (name tail : List ℕ)
    → EndsInSlash before
    → (c == slash) ≡ false
    → NoSlashes name
    → AllSlashes tail
    → path_get_leaf (before ++ c ∷ (name ++ tail)) ≡ ok (length before, leaf_type tail)
unfolding path_get_leaf
path_get_leaf-leaf_type before c name tail h e k t =
    rw (loop_of_leaf before c name tail h e k t, typed tail)
