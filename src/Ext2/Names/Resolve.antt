-- ===== src/Ext2/Names/Resolve.antt =====
-- ext2/ext2.c: `name_i` against a description that first splits the path at its slashes.
use mathlib.Core.Path.{fun_ext}
use cute.Base.{
  ℕ, zero, suc, ◌≤◌, ◌<◌, ◌≡◌, refl, sym, ap, subst, ◌∙◌, ◌⊎◌, inl, inr, Bool, true, false, not,
  List, [], ◌∷◌, ltb, ◌==◌, if◌then◌else◌, length, Outcome, ok, panic, ◌>>=◌, ◌>>◌, assert,
  Bool-cases, arith,
}
use cute.Ext2.Volume.{Volume, Ret, done, fail, enametoolong, root_inode, s_ifdir, is_type}
use cute.Ext2.Dirs.{find_dir_entry}
use cute.Ext2.Names.{
  slash, skip_slashes, scan, at_end, enter, name_step, component, name_loop, name_i,
}
use cute.Ext2.Names.Pieces.{
  split, look_up, follow, NoSlash, pieces_from, resolve, scan-go, scan-split, scan_long,
  length-scan, length-scan_rest, follow-nonzero, resolve-nonzero, resolve-at_end,
  skip_slashes-NoSlash, length-skip_slashes, skip_slashes-pieces,
}

-- A component with its name and the path behind it.
component_at : (ℕ → List ℕ → Outcome (Ret ℕ)) → Volume → ℕ → List ℕ → List ℕ → Outcome (Ret ℕ)
component_at next v inum name rest =
    let search = (do
      is_dir ← is_type s_ifdir v inum
      assert is_dir
      found ← find_dir_entry v inum name
      name_step (λ child. next child rest) found) in
    if not (at_end rest) then ok (fail enametoolong) else search

component_at-scan :
    (next : ℕ → List ℕ → Outcome (Ret ℕ)) (v : Volume) (inum c : ℕ) (path : List ℕ)
    → component next v inum (done (c ∷ path))
      ≡ component_at next v inum ((scan 255 (c ∷ path)).0) ((scan 255 (c ∷ path)).1)
unfolding component component_at
component_at-scan next v inum c path = refl

component_at-found :
    (next : ℕ → List ℕ → Outcome (Ret ℕ)) (v : Volume) (inum c : ℕ) (name rest : List ℕ)
    → at_end rest ≡ true
    → length name < 255
    → (λ (child : ℕ). next child rest) ≡ follow v ((split rest).1)
    → component_at next v inum (c ∷ name) rest ≡ pieces_from v (c ∷ name, (split rest).1) inum
unfolding component_at look_up
component_at-found next v inum c name rest e short same =
    let test : ltb 255 (suc (length name)) ≡ false = ground arith in rw (e, test, same)

component_at-long :
    (next : ℕ → List ℕ → Outcome (Ret ℕ)) (v : Volume) (inum c : ℕ) (name rest piece : List ℕ)
    (pieces : List (List ℕ))
    → at_end rest ≡ false
    → 255 < suc (length piece)
    → component_at next v inum name rest ≡ pieces_from v (c ∷ piece, pieces) inum
unfolding component_at look_up
component_at-long next v inum c name rest piece pieces e long =
    let test : ltb 255 (suc (length piece)) ≡ true = ground arith in rw (e, test)

split-go :
    (c : ℕ) (path : List ℕ)
    → (c == slash) ≡ false
    → split (c ∷ path) ≡ (c ∷ (split path).0, (split path).1)
split-go c path e = rw e

component-pieces :
    (next : ℕ → List ℕ → Outcome (Ret ℕ)) (v : Volume) (inum : ℕ) (path : List ℕ)
    → NoSlash path
    → ((child : ℕ) (rest : List ℕ)
        → length rest < length path
        → next child rest ≡ resolve v rest child)
    → component next v inum (done path) ≡ pieces_from v (split path) inum
unfolding component look_up follow
component-pieces next v inum [] h agree = refl
component-pieces next v inum (c ∷ path) h agree =
    let shape = scan-go 254 c path h in
    let name = (scan 254 path).0 in
    let rest = (scan 254 path).1 in
    let scanned =
      component_at-scan next v inum c path ∙ ap (λ s. component_at next v inum (s.0) (s.1)) shape in
    elim (Bool-cases (at_end rest)) [
      | inl e ↦
          let pieces =
            scan-split 255 (c ∷ path) (ap (λ s. at_end (s.1)) shape ∙ e)
            ∙ ap (λ s. (s.0, (split (s.1)).1)) shape in
          let same : (λ (child : ℕ). next child rest) ≡ follow v ((split rest).1) =
            fun_ext (λ child.
              agree child rest (omega (arith, length-scan_rest 254 path))
              ∙ resolve-at_end v rest child e) in
          scanned
          ∙ component_at-found next v inum c name rest e (omega (arith, length-scan 254 path)) same
          ∙ sym (ap (λ s. pieces_from v s inum) pieces)
      | inr e ↦
          let long = scan_long 255 (c ∷ path) (ap (λ s. at_end (s.1)) shape ∙ e) in
          let whole = split-go c path h in
          scanned
          ∙ component_at-long next v inum c (c ∷ name) rest ((split path).0) ((split path).1) e
              (subst (λ s. 255 < length (s.0)) whole long)
          ∙ sym (ap (λ s. pieces_from v s inum) whole)
    ]

Outcome-cases : {A : Type 0} (o : Outcome A) → (o ≡ panic) ⊎ ((a : A) × (o ≡ ok a))
Outcome-cases panic = inl refl
Outcome-cases (ok a) = inr (a, refl)

-- A slash at the start of the path.
enter-slash :
    (next : ℕ → List ℕ → Outcome (Ret ℕ)) (v : Volume) (inum c : ℕ) (path : List ℕ)
    → (inum == 0) ≡ false
    → (c == slash) ≡ true
    → ((child : ℕ) (rest : List ℕ)
        → length rest ≤ length path
        → next child rest ≡ resolve v rest child)
    → (enter v inum (c ∷ path) >>= component next v inum) ≡ pieces_from v (split (c ∷ path)) inum
unfolding enter skip_slashes look_up follow component
enter-slash next v inum c path nz e agree =
    let q = skip_slashes path in
    let skipped =
      component-pieces next v inum q (skip_slashes-NoSlash path)
        (λ child rest lt. agree child rest (omega (arith, length-skip_slashes path))) in
    elim (Outcome-cases (is_type s_ifdir v inum)) [
      | inl p ↦ rw (e, p, nz)
      | inr (false, d) ↦ rw (e, d, nz)
      | inr (true, d) ↦ rw (e, d, nz) (skipped ∙ sym (skip_slashes-pieces v inum path nz d))
    ]

enter-name :
    (next : ℕ → List ℕ → Outcome (Ret ℕ)) (v : Volume) (inum c : ℕ) (path : List ℕ)
    → (c == slash) ≡ false
    → (enter v inum (c ∷ path) >>= component next v inum) ≡ component next v inum (done (c ∷ path))
unfolding enter
enter-name next v inum c path e = rw e

name_loop-resolve :
    (fuel : ℕ) (v : Volume) (inum : ℕ) (path : List ℕ)
    → length path ≤ fuel
    → name_loop fuel v inum path ≡ resolve v path inum
unfolding name_loop resolve look_up
name_loop-resolve zero v inum [] h = sym (follow-nonzero v [] inum)
name_loop-resolve (suc fuel) v inum [] h = sym (follow-nonzero v [] inum)
name_loop-resolve zero v inum (c ∷ path) h = absurd (omega arith)
name_loop-resolve (suc fuel) v inum (c ∷ path) h =
    let agree = λ (child : ℕ) (rest : List ℕ) (lt : length rest ≤ length path).
      name_loop-resolve fuel v child rest (omega arith) in
    elim (Bool-cases (inum == 0)) [
      | inl z ↦ rw z
      | inr z ↦ elim (Bool-cases (c == slash)) [
        | inl e ↦ rw z (enter-slash (name_loop fuel v) v inum c path z e agree)
        | inr e ↦
            let at_name =
              component-pieces (name_loop fuel v) v inum (c ∷ path) e
                (λ child rest lt. agree child rest (omega arith)) in
            rw z (enter-name (name_loop fuel v) v inum c path e ∙ at_name)
      ]
    ]

choose :
    (b : Bool) {x y : Outcome (Ret ℕ)} (f : ℕ → Outcome (Ret ℕ)) (i j : ℕ)
    → x ≡ f i
    → y ≡ f j
    → (if b then x else y) ≡ f (if b then i else j)
choose true f i j e h = e
choose false f i j e h = h

-- `name_i` of a path of one byte or more starts at the root directory where the path begins with a
-- slash, and at the working directory otherwise; from there it is the resolution of the path's
-- pieces: each slash asks for a directory before it, each name of up to 255 bytes is looked up in
-- the directory, a longer one is refused, and empty pieces stay where they are.
pub name_i-resolve :
    (v : Volume) (working_dir c : ℕ) (path : List ℕ)
    → name_i v working_dir (c ∷ path)
      ≡ resolve v (c ∷ path) (if c == slash then root_inode else working_dir)
unfolding name_i
name_i-resolve v working_dir c path =
    let loop =
      λ (inum : ℕ). name_loop-resolve (suc (length path)) v inum (c ∷ path) (omega arith) in
    choose (c == slash) (resolve v (c ∷ path)) root_inode working_dir (loop root_inode) (
      ap (λ o. assert (not (working_dir == 0)) >> o) (loop working_dir)
      ∙ resolve-nonzero v (c ∷ path) working_dir)
