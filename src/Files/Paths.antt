-- ===== src/Files/Paths.antt =====
-- ext2/file.c: `path_get_leaf`, the state machine that finds the last name of a path, and
-- `path_parent_child`. A path is the list of its bytes, less the null byte that ends it.
use cute.Base.{
  ℕ, suc, Bool, true, false, not, ◌&&◌, ◌||◌, List, [], ◌∷◌, leb, ◌==◌, if◌then◌else◌, take, drop,
  bit_and, Outcome, ok, panic, ◌>>=◌, ◌>>◌, assert,
}
use cute.Ext2.Volume.{
  Volume, Ret, done, fail, eisdir, enametoolong, s_ifmt, s_ifreg, s_ifdir, s_ifchr, s_ifblk,
  s_ififo, s_ifsock, s_iflnk, has_type,
}
use cute.Ext2.Names.{slash, name_i}

-- `enum parsing_state`, less the state at the end of the line
pub data ParsingState : Type 0 where
  start in_slash in_filename : ParsingState

-- The type of the leaf at the end of the path; an empty path fails the assertion.
unfoldable pub leaf_type_of : ParsingState → Outcome ℕ
leaf_type_of start = panic
leaf_type_of in_slash = ok s_ifdir
leaf_type_of in_filename = ok s_ifreg

-- A name begins at index `i` unless one is being read.
unfoldable pub leaf_start_at : ParsingState → ℕ → ℕ → ℕ
leaf_start_at start leaf_start i = i
leaf_start_at in_slash leaf_start i = i
leaf_start_at in_filename leaf_start i = leaf_start

-- The loop over the path, at index `i`.
unfoldable pub leaf_loop : ParsingState → ℕ → ℕ → List ℕ → Outcome (ℕ × ℕ)
unfolding leaf_type_of leaf_start_at
leaf_loop state leaf_start i [] = do type ← leaf_type_of state; ok (leaf_start, type)
leaf_loop state leaf_start i (c ∷ path) =
    let at_slash = leaf_loop in_slash leaf_start (suc i) path in
    let at_name = leaf_loop in_filename (leaf_start_at state leaf_start i) (suc i) path in
    if c == slash then at_slash else at_name

-- The leaf's index and its type
unfoldable pub path_get_leaf : List ℕ → Outcome (ℕ × ℕ)
unfolding leaf_loop
path_get_leaf path = do
  (leaf_start, leaf_type) ← leaf_loop start 0 0 path
  assert (not (bit_and leaf_type s_ifmt == 0))
  ok (leaf_start, leaf_type)

pub data Flag : Type 0 where
  no_dir ok_dir : Flag

abbrev pub is_no_dir : Flag → Bool
is_no_dir no_dir = true
is_no_dir ok_dir = false

abbrev pub starts_with_slash : List ℕ → Bool
starts_with_slash [] = false
starts_with_slash (c ∷ path) = c == slash

-- The parent's inode where the search for it found one, with the child's name.
abbrev pub with_child : List ℕ → Ret ℕ → Ret (ℕ × List ℕ)
with_child child (fail e) = fail e
with_child child (done parent) = done (parent, child)

-- The inode of the leaf's parent, and the leaf's name.
unfoldable pub path_parent_child : Volume → ℕ → List ℕ → Flag → Outcome (Ret (ℕ × List ℕ))
unfolding path_get_leaf
path_parent_child v working_dir path flag = do
  (leaf_idx, leaf_type) ← path_get_leaf path
  let search = (do
    parent ← name_i v working_dir (take leaf_idx path)
    ok (with_child (drop leaf_idx path) parent))
  let parent =
      if leaf_idx == 0
      then ok (done (working_dir, path))
      else if leb 4096 leaf_idx
      then ok (fail enametoolong)
      else search
  let checked = (do assert (not (starts_with_slash path) || not (leaf_idx == 0)); parent)
  if is_no_dir flag && has_type s_ifdir leaf_type then ok (fail eisdir) else checked

unfoldable pub inode_mode_to_dir_entry_type : ℕ → Outcome ℕ
inode_mode_to_dir_entry_type mode =
    let type = bit_and mode s_ifmt in
    if type == s_ifreg
    then ok 1
    else if type == s_ifdir
    then ok 2
    else if type == s_ifchr
    then ok 3
    else if type == s_ifblk
    then ok 4
    else if type == s_ififo
    then ok 5
    else if type == s_ifsock
    then ok 6
    else if type == s_iflnk
    then ok 7
    else panic
