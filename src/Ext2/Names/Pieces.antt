-- ===== src/Ext2/Names/Pieces.antt =====
-- ext2/ext2.c: the pieces of a path, what a path names by its pieces, and how the scans of `name_i` meet
-- them.
use cute.Base.{
  ℕ, zero, suc, ◌≤◌, ◌<◌, ◌≡◌, refl, sym, subst, ◌∙◌, inl, inr, true, false, not, List, [], ◌∷◌,
  ltb, ◌==◌, if◌then◌else◌, length, Outcome, ok, ◌>>=◌, ◌>>◌, assert, Bool-cases, arith,
}
use cute.Ext2.Volume.{
  Volume, Ret, done, fail, enotdir, enametoolong, filename_max, s_ifdir, is_type,
}
use cute.Ext2.Dirs.{find_dir_entry}
use cute.Ext2.Names.{slash, skip_slashes, scan, at_end, name_step}

-- The path's pieces between its slashes: the first one, and the others.
abbrev pub split : List ℕ → List ℕ × List (List ℕ)
split [] = ([], [])
split (c ∷ path) =
    let rest = split path in if c == slash then ([], rest.0 ∷ rest.1) else (c ∷ rest.0, rest.1)

-- An empty piece stays where it is; a name of up to 255 bytes is looked up.
unfoldable pub look_up : (ℕ → Outcome (Ret ℕ)) → Volume → ℕ → List ℕ → Outcome (Ret ℕ)
look_up next v inum [] = next inum
look_up next v inum (c ∷ name) =
    let search = (do
      is_dir ← is_type s_ifdir v inum
      assert is_dir
      found ← find_dir_entry v inum (c ∷ name)
      name_step next found) in
    if ltb filename_max (length (c ∷ name)) then ok (fail enametoolong) else search

-- The pieces behind a slash: what stands before it is a directory.
unfoldable pub follow : Volume → List (List ℕ) → ℕ → Outcome (Ret ℕ)
unfolding look_up
follow v [] inum = do assert (not (inum == 0)); ok (done inum)
follow v (piece ∷ pieces) inum = do
  assert (not (inum == 0))
  is_dir ← is_type s_ifdir v inum
  let rest = look_up (follow v pieces) v inum piece
  if is_dir then rest else ok (fail enotdir)

abbrev pub pieces_from : Volume → List ℕ × List (List ℕ) → ℕ → Outcome (Ret ℕ)
pieces_from v p inum = look_up (follow v (p.1)) v inum (p.0)

-- The path from a directory on.
unfoldable pub resolve : Volume → List ℕ → ℕ → Outcome (Ret ℕ)
unfolding follow
resolve v path inum = do assert (not (inum == 0)); pieces_from v (split path) inum

scan-stop :
    (n c : ℕ) (path : List ℕ) → (c == slash) ≡ true → scan (suc n) (c ∷ path) ≡ ([], c ∷ path)
unfolding scan
scan-stop n c path e = rw e

pub scan-go :
    (n c : ℕ) (path : List ℕ)
    → (c == slash) ≡ false
    → scan (suc n) (c ∷ path) ≡ (c ∷ (scan n path).0, (scan n path).1)
unfolding scan
scan-go n c path e = rw e

-- A scan that ends at a slash or at the end of the path has read the first piece.
pub scan-split :
    (n : ℕ) (path : List ℕ)
    → at_end ((scan n path).1) ≡ true
    → split path ≡ ((scan n path).0, (split ((scan n path).1)).1)
unfolding scan at_end
scan-split zero [] h = refl
scan-split zero (c ∷ path) h = rw h
scan-split (suc n) [] h = refl
scan-split (suc n) (c ∷ path) h = elim (Bool-cases (c == slash)) [
  | inl e ↦ rw (e, e)
  | inr e ↦
      let h' = subst (λ s. at_end (s.1) ≡ true) (scan-go n c path e) h in
      rw (e, scan-split n path h')
]

-- Where it ends at neither, the first piece is longer.
pub scan_long :
    (n : ℕ) (path : List ℕ) → at_end ((scan n path).1) ≡ false → n < length ((split path).0)
unfolding scan at_end
scan_long zero [] h = absurd (cc)
scan_long zero (c ∷ path) h = rw h (omega arith)
scan_long (suc n) [] h = absurd (cc)
scan_long (suc n) (c ∷ path) h = elim (Bool-cases (c == slash)) [
  | inl e ↦
      let h' = subst (λ s. at_end (s.1) ≡ false) (scan-stop n c path e) h in
      let no : true ≡ false = sym e ∙ h' in cc
  | inr e ↦
      let h' = subst (λ s. at_end (s.1) ≡ false) (scan-go n c path e) h in
      rw e (omega (arith, scan_long n path h'))
]

pub length-scan : (n : ℕ) (path : List ℕ) → length ((scan n path).0) ≤ n
unfolding scan
length-scan zero path = omega arith
length-scan (suc n) [] = omega arith
length-scan (suc n) (c ∷ path) = elim (Bool-cases (c == slash)) [
  | inl e ↦ rw e (omega arith)
  | inr e ↦ rw e (omega (arith, length-scan n path))
]

pub length-scan_rest : (n : ℕ) (path : List ℕ) → length ((scan n path).1) ≤ length path
unfolding scan
length-scan_rest zero path = omega arith
length-scan_rest (suc n) [] = omega arith
length-scan_rest (suc n) (c ∷ path) = elim (Bool-cases (c == slash)) [
  | inl e ↦ rw e (omega arith)
  | inr e ↦ rw e (omega (arith, length-scan_rest n path))
]

pub follow-nonzero :
    (v : Volume) (pieces : List (List ℕ)) (inum : ℕ)
    → (assert (not (inum == 0)) >> follow v pieces inum) ≡ follow v pieces inum
unfolding follow
follow-nonzero v [] inum = elim (Bool-cases (inum == 0)) [ inl e ↦ rw e | inr e ↦ rw e ]
follow-nonzero v (p ∷ pieces) inum = elim (Bool-cases (inum == 0)) [ inl e ↦ rw e | inr e ↦ rw e ]

pub resolve-nonzero :
    (v : Volume) (path : List ℕ) (inum : ℕ)
    → (assert (not (inum == 0)) >> resolve v path inum) ≡ resolve v path inum
unfolding resolve
resolve-nonzero v path inum = elim (Bool-cases (inum == 0)) [ inl e ↦ rw e | inr e ↦ rw e ]

-- Behind a piece stands the end of the path, or a slash.
pub resolve-at_end :
    (v : Volume) (path : List ℕ) (inum : ℕ)
    → at_end path ≡ true
    → resolve v path inum ≡ follow v ((split path).1) inum
unfolding resolve look_up at_end
resolve-at_end v [] inum h = follow-nonzero v [] inum
resolve-at_end v (c ∷ path) inum h = rw h (follow-nonzero v ((split path).0 ∷ (split path).1) inum)

-- The first byte is no slash.
abbrev pub NoSlash : List ℕ → Type 0
NoSlash [] = Unit {0}
NoSlash (c ∷ path) = (c == slash) ≡ false

pub skip_slashes-NoSlash : (path : List ℕ) → NoSlash (skip_slashes path)
unfolding skip_slashes
skip_slashes-NoSlash [] = tt
skip_slashes-NoSlash (c ∷ path) = elim (Bool-cases (c == slash)) [
  | inl e ↦ rw e (skip_slashes-NoSlash path)
  | inr e ↦ subst (λ t. NoSlash (if t then skip_slashes path else c ∷ path)) (sym e) e
]

pub length-skip_slashes : (path : List ℕ) → length (skip_slashes path) ≤ length path
unfolding skip_slashes
length-skip_slashes [] = omega arith
length-skip_slashes (c ∷ path) = elim (Bool-cases (c == slash)) [
  | inl e ↦ rw e (omega (arith, length-skip_slashes path))
  | inr e ↦ rw e (omega arith)
]

-- Slashes in a row are as one, at a directory.
pub skip_slashes-pieces :
    (v : Volume) (inum : ℕ) (path : List ℕ)
    → (inum == 0) ≡ false
    → is_type s_ifdir v inum ≡ ok true
    → pieces_from v (split path) inum ≡ pieces_from v (split (skip_slashes path)) inum
unfolding skip_slashes look_up follow
skip_slashes-pieces v inum [] nz dir = refl
skip_slashes-pieces v inum (c ∷ path) nz dir = elim (Bool-cases (c == slash)) [
  | inl e ↦ rw (e, nz, dir) (skip_slashes-pieces v inum path nz dir)
  | inr e ↦ rw (e, e)
]
