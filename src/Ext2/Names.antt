-- ===== src/Ext2/Names.antt =====
-- ext2/ext2.c: `name_i`, from a path to its inode. A path is the list of its bytes, less the null byte
-- that ends it.
pub mod Pieces
pub mod Resolve
use cute.Base.{
  ℕ, zero, suc, ◌-◌, Bool, true, false, not, ◌&&◌, ◌||◌, List, [], ◌∷◌, ltb, leb, ◌==◌,
  if◌then◌else◌, length, Outcome, ok, panic, ◌>>=◌, ◌>>◌, assert,
}
use cute.Ext2.Volume.{
  Volume, Ret, done, fail, Errno, enoent, enotdir, enametoolong, root_inode, filename_max, s_ifdir,
  is_type,
}
use cute.Ext2.Dirs.{Found, inode_num, find_dir_entry}

abbrev pub slash : ℕ
slash = 47

-- `while (*p2 == '/') p1 = ++p2;`
unfoldable pub skip_slashes : List ℕ → List ℕ
skip_slashes [] = []
skip_slashes (c ∷ path) = let rest = skip_slashes path in if c == slash then rest else c ∷ path

-- The scan of a component, of at most `n` bytes: the bytes and the path behind them.
unfoldable pub scan : ℕ → List ℕ → List ℕ × List ℕ
scan zero path = ([], path)
scan (suc n) [] = ([], [])
scan (suc n) (c ∷ path) =
    let rest = scan n path in if c == slash then ([], c ∷ path) else (c ∷ rest.0, rest.1)

-- `*p2 == '\0' || *p2 == '/'`
unfoldable pub at_end : List ℕ → Bool
at_end [] = true
at_end (c ∷ path) = c == slash

-- The check at a slash, and the start of the next component; `enotdir` for a file.
unfoldable pub enter : Volume → ℕ → List ℕ → Outcome (Ret (List ℕ))
unfolding skip_slashes
enter v inum [] = ok (done [])
enter v inum (c ∷ path) =
    let stepped = (do
      is_dir ← is_type s_ifdir v inum
      ok (if is_dir then done (skip_slashes (c ∷ path)) else fail enotdir)) in
    if c == slash then stepped else ok (done (c ∷ path))

-- What the search of a component gave, and the loop `next` behind it; inode 0 ends the loop.
unfoldable pub name_step : (ℕ → Outcome (Ret ℕ)) → Ret Found → Outcome (Ret ℕ)
name_step next (fail e) = ok (fail e)
name_step next (done f) = next (inode_num f.entry)

-- One component at the start of the path, if one is left.
unfoldable pub component :
    (ℕ → List ℕ → Outcome (Ret ℕ)) → Volume → ℕ → Ret (List ℕ) → Outcome (Ret ℕ)
unfolding scan at_end name_step
component next v inum (fail e) = ok (fail e)
component next v inum (done []) = do assert (not (inum == 0)); ok (done inum)
component next v inum (done (c ∷ path)) =
    let part = scan filename_max (c ∷ path) in
    let search = (do
      is_dir ← is_type s_ifdir v inum
      assert is_dir
      found ← find_dir_entry v inum (part.0)
      name_step (λ child. next child (part.1)) found) in
    if not (at_end (part.1)) then ok (fail enametoolong) else search

-- `while (*p2 != '\0' && inum > 0)`, on fuel: each turn passes one byte of the path at least.
unfoldable pub name_loop : ℕ → Volume → ℕ → List ℕ → Outcome (Ret ℕ)
unfolding enter component
name_loop fuel v inum [] = do assert (not (inum == 0)); ok (done inum)
name_loop zero v inum (c ∷ path) = panic
name_loop (suc fuel) v inum (c ∷ path) =
    let turn = enter v inum (c ∷ path) >>= component (name_loop fuel v) v inum in
    if inum == 0 then panic else turn

-- The working directory of the current process is an argument.
unfoldable pub name_i : Volume → ℕ → List ℕ → Outcome (Ret ℕ)
unfolding name_loop
name_i v working_dir [] = ok (fail enoent)
name_i v working_dir (c ∷ path) =
    let relative = (do
      assert (not (working_dir == 0))
      name_loop (suc (length path)) v working_dir (c ∷ path)) in
    if c == slash then name_loop (suc (length path)) v root_inode (c ∷ path) else relative
