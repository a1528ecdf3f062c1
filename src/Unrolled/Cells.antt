-- ===== src/Unrolled/Cells.antt =====
-- The cells of a node of lib/unrolled_list.c, and the invariant of the chain of nodes.
use cute.Base.{
  ℕ, zero, suc, ◌+◌, ◌-◌, ◌*◌, ◌%◌, ◌^◌, ◌≤◌, ◌<◌, ◌≡◌, ◌≢◌, refl, ap, false, List, [], ◌∷◌, arith,
  ◌==◌, if◌then◌else◌, length, get_or, set, replicate, length-set, length-replicate, ok, lt→ltb,
  le→leb,
}
use cute.Unrolled.{
  null, Node, UnrolledHead, new_node, unode_new, find_null, unode_store_val_in_array, free_cell,
}

unfoldable pub count_null : List ℕ → ℕ
count_null [] = 0
count_null (cell ∷ cells) = (if cell == null then 1 else 0) + count_null cells

-- The scan from index `i` on stops at the first free cell.
abbrev pub FindsNull : ℕ → List ℕ → Type 0
FindsNull i cells =
    (r : ℕ) × (find_null i cells ≡ ok (i + r))
    × (r < length cells)
    × (get_or cells r null ≡ null)
    × ((k : ℕ) → k < r → get_or cells k null ≢ null)

FindsNull-used :
    (i cell : ℕ) (cells : List ℕ)
    → (i + 1) % 2 ^ 32 ≡ i + 1
    → FindsNull (i + 1) cells
    → FindsNull i (suc cell ∷ cells)
unfolding find_null
FindsNull-used i cell cells fits (r, found, inside, free, least) =
    let used : (suc cell == null) ≡ false = ground arith in
    (
      suc r,
      rw (used, fits, found) (ap ok (omega arith)),
      omega arith,
      free,
      elim [ zero ↦ λ h e. omega arith | suc k ↦ λ h. least k (omega arith) ],
    )

pub find_null_lem :
    (i : ℕ) (cells : List ℕ) → 0 < count_null cells → i + length cells < 2 ^ 32 → FindsNull i cells
unfolding count_null find_null
find_null_lem i [] some_null small = absurd (omega arith)
find_null_lem i (zero ∷ cells) some_null small =
    (0, ap ok (omega arith), omega arith, refl, λ k h. absurd (omega arith))
find_null_lem i (suc cell ∷ cells) some_null small =
    FindsNull-used i cell cells (omega arith)
      (find_null_lem (i + 1) cells (ground arith) (omega arith))

pub ne-null_of_count :
    (cells : List ℕ) (r : ℕ) → count_null cells ≡ 0 → r < length cells → get_or cells r null ≢ null
unfolding count_null
ne-null_of_count [] r full inside = elim inside [ ]
ne-null_of_count (cell ∷ cells) zero full inside = ground arith
ne-null_of_count (cell ∷ cells) (suc r) full inside =
    ne-null_of_count cells r (ground arith) (omega arith)

pub count_null-fill :
    (cells : List ℕ) (r val : ℕ)
    → r < length cells
    → get_or cells r null ≡ null
    → val ≢ null
    → count_null (set cells r val) + 1 ≡ count_null cells
unfolding count_null
count_null-fill [] r val inside free nonnull = elim inside [ ]
count_null-fill (cell ∷ cells) zero val inside free nonnull = ground arith
count_null-fill (cell ∷ cells) (suc r) val inside free nonnull =
    omega (arith, count_null-fill cells r val (omega arith) free nonnull)

pub count_null-clear :
    (cells : List ℕ) (r : ℕ)
    → r < length cells
    → get_or cells r null ≢ null
    → count_null (set cells r null) ≡ count_null cells + 1
unfolding count_null
count_null-clear [] r inside used = elim inside [ ]
count_null-clear (cell ∷ cells) zero inside used = ground arith
count_null-clear (cell ∷ cells) (suc r) inside used =
    omega (arith, count_null-clear cells r (omega arith) used)

pub count_null-replicate : (n : ℕ) → count_null (replicate n null) ≡ n
unfolding count_null
count_null-replicate zero = refl
count_null-replicate (suc n) = omega (arith, count_null-replicate n)

pub count_null-le : (cells : List ℕ) → count_null cells ≤ length cells
unfolding count_null
count_null-le [] = omega arith
count_null-le (cell ∷ cells) = ground (arith, count_null-le cells)

pub get_or-replicate : (n r : ℕ) → get_or (replicate n null) r null ≡ null
get_or-replicate zero r = refl
get_or-replicate (suc n) zero = refl
get_or-replicate (suc n) (suc r) = get_or-replicate n r

-- Node number `num` of a chain whose arrays have `len` cells.
pub record NodeIsValid (len num : ℕ) (node : Node) : Type 0 where
  pub cells : length node.array ≡ len
  pub len_field : node.array_len ≡ len
  pub free_field : node.array_nrfree ≡ count_null node.array
  pub num_field : node.num ≡ num

abbrev pub NodesAreValid : ℕ → ℕ → List Node → Type 0
NodesAreValid len num [] = Unit {0}
NodesAreValid len num (node ∷ rest) = NodeIsValid len num node × NodesAreValid len (suc num) rest

-- The number of cells in the chain fits a `uint`.
pub record IsValid (head : UnrolledHead) : Type 0 where
  pub len_pos : 0 < head.array_len
  pub len_small : head.array_len < 2 ^ 32
  pub bound : length head.node * head.array_len < 2 ^ 32
  pub nodes : NodesAreValid head.array_len 0 head.node

-- Cell `r` of the node at position `q`, `NULL` behind the end of the chain.
abbrev pub cell_at : List Node → ℕ → ℕ → ℕ
cell_at [] q r = null
cell_at (node ∷ rest) zero r = get_or node.array r null
cell_at (node ∷ rest) (suc q) r = cell_at rest q r

pub new_node-IsValid : (len num : ℕ) → NodeIsValid len num (new_node num len)
unfolding new_node
new_node-IsValid len num = record {
  cells = length-replicate len null;
  len_field = refl;
  free_field = omega (arith, count_null-replicate len);
  num_field = refl;
}

-- kmalloc serves the array of at most 512 cells.
pub unode_new_lem : (num len : ℕ) → 0 < len → len ≤ 512 → unode_new num len ≡ ok (new_node num len)
unfolding unode_new
unode_new_lem num len pos page =
    let positive = lt→ltb 0 (len * 8 % 2 ^ 32) (omega arith) in
    let within = le→leb (len * 8 % 2 ^ 32) 4096 (omega arith) in rw (positive, within) refl

pub new_node_empty : (len num r : ℕ) → get_or (new_node num len).array r null ≡ null
unfolding new_node
new_node_empty len num r = get_or-replicate len r

-- The node after a store.
unfoldable pub stored : Node → ℕ → ℕ → Node
stored node idx val = record node {
  array_nrfree = (node.array_nrfree + 2 ^ 32 - 1) % 2 ^ 32;
  array = set node.array idx val;
}

module _ {len num : ℕ} {node : Node} (valid : NodeIsValid len num node) (idx val : ℕ)
    (inside : idx < len) (small : len < 2 ^ 32) where
  pub store_lem :
      get_or node.array idx null ≡ null
      → val ≢ null
      → unode_store_val_in_array node idx val ≡ ok (stored node idx val)
  unfolding unode_store_val_in_array stored
  store_lem free nonnull = ground (arith, valid)

  pub stored-IsValid :
      get_or node.array idx null ≡ null → val ≢ null → NodeIsValid len num (stored node idx val)
  unfolding stored
  stored-IsValid free nonnull =
      let fill = count_null-fill node.array idx val (omega arith) free nonnull in
      let le = count_null-le node.array in
      record {
        cells = omega (arith, length-set node.array idx val);
        len_field = valid.len_field;
        free_field = omega arith;
        num_field = valid.num_field;
      }

pub free_cell-IsValid :
    {len num : ℕ} {node : Node} (valid : NodeIsValid len num node) (idx : ℕ)
    → idx < len
    → len < 2 ^ 32
    → get_or node.array idx null ≢ null
    → NodeIsValid len num (free_cell node idx)
unfolding free_cell
free_cell-IsValid {node} valid idx inside small used =
    let clear = count_null-clear node.array idx (omega arith) used in
    let le = count_null-le (set node.array idx null) in
    let same = length-set node.array idx null in
    record {
      cells = omega arith;
      len_field = valid.len_field;
      free_field = omega arith;
      num_field = valid.num_field;
    }
