-- ===== src/Unrolled.antt =====
-- lib/unrolled_list.c and include/unrolled_list.h: the unrolled list that holds a process's file
-- descriptors. A `void *` is a number, 0 for `NULL`. A node's array is the list of its `array_len`
-- cells. The chain of nodes is private to the list and is the list of its nodes; a pointer to a
-- node is its position in the chain. `uint` arithmetic wraps at 2 ^ 32.
pub mod Cells
pub mod Insert
pub mod Keys
pub mod Mapping
mod Tests
use cute.Base.{
  ℕ, zero, suc, ◌+◌, ◌-◌, ◌*◌, ◌/◌, ◌%◌, ◌^◌, Bool, true, false, not, ◌||◌, Option, none, some,
  List, [], ◌∷◌, ◌++◌, ltb, leb, ◌==◌, if◌then◌else◌, get_or, set, replicate, Outcome, ok, panic,
  ◌>>=◌, ◌>>◌, assert,
}

abbrev pub null : ℕ
null = 0

-- `struct __node`, less the `next` pointer
pub record Node : Type 0 where
  pub array : List ℕ
  pub array_len : ℕ
  pub array_nrfree : ℕ
  pub num : ℕ

pub record UnrolledHead : Type 0 where
  pub node : List Node
  pub array_len : ℕ

-- The fields of a new node.
unfoldable pub new_node : ℕ → ℕ → Node
new_node node_num array_len = record {
  array = replicate array_len null;
  array_len = array_len;
  array_nrfree = array_len;
  num = node_num;
}

-- The size of the array goes to kmalloc as an `int`, of which it refuses 0, negative ones and those
-- above a page: both of the latter are above 4096 as words.
unfoldable pub unode_new : ℕ → ℕ → Outcome Node
unode_new node_num array_len = do
  let size = array_len * 8 % 2 ^ 32
  assert (ltb 0 size)
  assert (leb size 4096)
  ok (new_node node_num array_len)

-- The loop over the cells, from index `i` on.
unfoldable pub find_null : ℕ → List ℕ → Outcome ℕ
find_null i [] = panic
find_null i (cell ∷ cells) =
    let rest = find_null ((i + 1) % 2 ^ 32) cells in if cell == null then ok i else rest

unfoldable pub unode_array_find_free_idx : Node → Outcome ℕ
unfolding find_null
unode_array_find_free_idx node = do assert (ltb 0 node.array_nrfree); find_null 0 node.array

unfoldable pub unode_store_val_in_array : Node → ℕ → ℕ → Outcome Node
unode_store_val_in_array node array_idx val = do
  assert (not (val == null))
  assert (ltb array_idx node.array_len)
  assert (get_or node.array array_idx null == null)
  ok (record node {
    array_nrfree = (node.array_nrfree + 2 ^ 32 - 1) % 2 ^ 32;
    array = set node.array array_idx val;
  })

-- `while (node_num--) { if (!node) return NULL; node = node->next; }`
unfoldable pub walk : ℕ → List Node → Option Node
walk zero [] = none
walk zero (node ∷ rest) = some node
walk (suc node_num) [] = none
walk (suc node_num) (node ∷ rest) = walk node_num rest

-- The position of the node that holds `key`, the node, and the index within its array.
unfoldable pub get_node : UnrolledHead → ℕ → Option (ℕ × Node × ℕ)
unfolding walk
get_node head key = elim head.node [
  | [] ↦ none
  | first ∷ rest ↦ elim (walk (key / first.array_len) (first ∷ rest)) [
    | none ↦ none
    | some node ↦ some (key / first.array_len, node, key % first.array_len)
  ]
]

pub unrolled_init : ℕ → Outcome UnrolledHead
unrolled_init array_len = do
  assert (ltb 0 array_len)
  ok (record { node = []; array_len = array_len })

-- Store `val` in the first free cell of `node`, which `rest` follows.
unfoldable pub store_here : ℕ → Node → List Node → Outcome (List Node × ℕ)
store_here val node rest = do
  idx ← unode_array_find_free_idx node
  node' ← unode_store_val_in_array node idx val
  ok (node' ∷ rest, (node.num * node.array_len + idx) % 2 ^ 32)

-- No node has a free cell: a new one goes behind `prev`.
unfoldable pub store_new : ℕ → Node → Outcome (List Node × ℕ)
store_new val prev = do
  node ← unode_new ((prev.num + 1) % 2 ^ 32) prev.array_len
  node' ← unode_store_val_in_array node 0 val
  ok (prev ∷ node' ∷ [], node.num * node.array_len % 2 ^ 32)

-- The loop over the nodes, at `node` with `rest` behind it.
unfoldable pub insert_loop : ℕ → Node → List Node → Outcome (List Node × ℕ)
insert_loop val node [] =
    if ltb 0 node.array_nrfree then store_here val node [] else store_new val node
insert_loop val node (next ∷ rest) =
    let later = (do (nodes, key) ← insert_loop val next rest; ok (node ∷ nodes, key)) in
    if ltb 0 node.array_nrfree then store_here val node (next ∷ rest) else later

unfoldable pub insert_nodes : ℕ → ℕ → List Node → Outcome (List Node × ℕ)
insert_nodes len val [] = do node ← unode_new 0 len; insert_loop val node []
insert_nodes len val (node ∷ rest) = insert_loop val node rest

-- The mapping after the insertion, and the key.
unfoldable pub unrolled_insert : UnrolledHead → ℕ → Outcome (UnrolledHead × ℕ)
unrolled_insert head val = do
  assert (not (val == null))
  (nodes, key) ← insert_nodes head.array_len val head.node
  ok (record head { node = nodes }, key)

unfoldable pub unrolled_lookup : UnrolledHead → ℕ → ℕ
unrolled_lookup head key = elim (get_node head key) [
  | none ↦ null
  | some (pos, node, array_idx) ↦ get_or node.array array_idx null
]

unfoldable pub free_cell : Node → ℕ → Node
free_cell node array_idx = record node {
  array_nrfree = (node.array_nrfree + 1) % 2 ^ 32;
  array = set node.array array_idx null;
}

unfoldable pub unrolled_remove_key : UnrolledHead → ℕ → Outcome UnrolledHead
unrolled_remove_key head key = elim (get_node head key) [
  | none ↦ panic
  | some (pos, node, array_idx) ↦
      if get_or node.array array_idx null == null
      then panic
      else ok (record head { node = set head.node pos (free_cell node array_idx) })
]

-- The values that `unrolled_for_each` visits: in each array the cells that are not `NULL`.
for_each_cell : List ℕ → List ℕ
for_each_cell [] = []
for_each_cell (cell ∷ cells) =
    let rest = for_each_cell cells in if cell == null then rest else cell ∷ rest

for_each_node : List Node → List ℕ
unfolding for_each_cell
for_each_node [] = []
for_each_node (node ∷ rest) = for_each_cell node.array ++ for_each_node rest

pub unrolled_for_each : UnrolledHead → List ℕ
unfolding for_each_node
unrolled_for_each head = for_each_node head.node
