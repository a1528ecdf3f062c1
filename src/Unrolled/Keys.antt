-- ===== src/Unrolled/Keys.antt =====
-- The public functions of lib/unrolled_list.c, seen through `unrolled_lookup`.
use native.Mathlib.Nat.{mod-lt, div-add-mod', mul-le-mul_right}
use cute.Base.{
  ℕ, zero, suc, ◌+◌, ◌*◌, ◌/◌, ◌%◌, ◌^◌, ◌≤◌, ◌<◌, ◌≡◌, ◌≢◌, refl, sym, ap, subst, ◌∙◌, inl, inr,
  false, Option, none, some, List, [], ◌∷◌, arith, lt→ltb, ◌==◌, length, get_or, set, length-set,
  get_or-set_self, get_or-set_ne, panic, Returns,
}
use cute.Unrolled.{
  null, Node, UnrolledHead, new_node, walk, get_node, free_cell, insert_nodes, unrolled_init,
  unrolled_insert, unrolled_lookup, unrolled_remove_key,
}
use cute.Unrolled.Cells.{
  NodeIsValid, NodesAreValid, IsValid, cell_at, new_node-IsValid, unode_new_lem, new_node_empty,
  free_cell-IsValid,
}
use cute.Unrolled.Insert.{Inserts, insert_loop-Inserted}
use cute.Unrolled.Mapping.{
  Inserted, Placed-Inserted, lookup-cell_at, get_node_lem, walk-cell_at, other_key,
}

-- For arrays of at least one cell, and fewer than 2 ^ 32, `unrolled_init` makes a valid list in which
-- no key maps to a value.
pub unrolled_init_lem :
    (array_len : ℕ)
    → 0 < array_len
    → array_len < 2 ^ 32
    → Returns
        (λ head. IsValid head × ((k : ℕ) → unrolled_lookup head k ≡ null))
        (unrolled_init array_len)
unfolding unrolled_init unrolled_lookup get_node
unrolled_init_lem array_len pos small = (
  record { node = []; array_len = array_len },
  rw (lt→ltb 0 array_len pos),
  (record { len_pos = pos; len_small = small; bound = omega arith; nodes = tt }, λ k. refl),
)

-- From what the loop over the nodes `old` did to what the whole call did to the mapping of `h`,
-- which has the same cells.
from_Inserts :
    (h : UnrolledHead) (val key : ℕ) (old new : List Node)
    → IsValid h
    → ((q r : ℕ) → cell_at h.node q r ≡ cell_at old q r)
    → suc (length old) ≤ length h.node + 2
    → (length h.node + 2) * h.array_len < 2 ^ 32
    → Inserts h.array_len 0 val old new key
    → Inserted h (record h { node = new }) key val
from_Inserts h val key old new v same size room ins =
    subst (λ k. Inserted h (record h { node = new }) k val) (sym key_is)
      (Placed-Inserted v.len_pos ins.placed h (record h { node = new }) v v' refl refl
        (λ k. same (k / h.array_len) (k % h.array_len)) refl)
  where
    key_is : key ≡ ins.q * h.array_len + ins.r
    key_is = ins.key_is ∙ ap (λ n. n * h.array_len + ins.r) (omega arith)

    v' : IsValid (record h { node = new })
    v' = record {
      len_pos = v.len_pos;
      len_small = v.len_small;
      bound =
          let l = ins.longer in
          let le : length new * h.array_len ≤ (length h.node + 2) * h.array_len =
            mul-le-mul_right h.array_len (omega arith) in
          omega arith;
      nodes = ins.valid;
    }

module _ (val : ℕ) (nonnull : val ≢ null) where
  insert_nodes-Inserted :
      (len : ℕ) (nodes : List Node)
      → IsValid (record { node = nodes; array_len = len })
      → len ≤ 512
      → (length nodes + 2) * len < 2 ^ 32
      → Returns
          (λ (new, key).
            Inserted
              (record { node = nodes; array_len = len })
              (record { node = new; array_len = len })
              key
              val)
          (insert_nodes len val nodes)
  unfolding insert_nodes
  insert_nodes-Inserted len [] v page room =
      let ((new, key), run, ins) =
        insert_loop-Inserted len val v.len_pos v.len_small page nonnull (new_node 0 len) [] 0
          (new_node-IsValid len 0, tt) (subst (λ n. n * len < 2 ^ 32) (omega arith) room) in
      (
        (new, key),
        rw (unode_new_lem 0 len v.len_pos page) run,
        from_Inserts _ val key (new_node 0 len ∷ []) new v empty (omega arith) room ins,
      )
    where
      empty : (q r : ℕ) → cell_at [] q r ≡ cell_at (new_node 0 len ∷ []) q r
      empty zero r = sym (new_node_empty len 0 r)
      empty (suc q) r = refl
  insert_nodes-Inserted len (node ∷ rest) v page room =
      let ((new, key), run, ins) =
        insert_loop-Inserted len val v.len_pos v.len_small page nonnull node rest 0 v.nodes fits in
      (
        (new, key),
        run,
        from_Inserts _ val key (node ∷ rest) new v (λ q r. refl) (omega arith) room ins,
      )
    where
      fits : suc (suc (0 + length rest)) * len < 2 ^ 32
      fits =
          let le : suc (suc (0 + length rest)) * len ≤ (length (node ∷ rest) + 2) * len =
            mul-le-mul_right len (omega arith) in
          omega arith

  -- On a valid list with arrays of at most 512 cells, which fit a page, and room for two more nodes,
  -- `unrolled_insert` of a value other than `NULL` returns the least key that was free, stores the value under it, leaves what every other key
  -- maps to, and keeps the list valid.
  pub unrolled_insert-Inserted :
      (h : UnrolledHead)
      → IsValid h
      → h.array_len ≤ 512
      → (length h.node + 2) * h.array_len < 2 ^ 32
      → Returns (λ (h', key). Inserted h h' key val) (unrolled_insert h val)
  unfolding unrolled_insert
  unrolled_insert-Inserted h v page room =
      let ((nodes, key), run, ins) = insert_nodes-Inserted h.array_len h.node v page room in
      let used : (val == null) ≡ false = ground arith in
      ((record h { node = nodes }, key), rw (used, run), ins)

-- Writing through the pointer to the node at position `q`.
walk-set :
    (nodes : List Node) (q : ℕ) {node : Node} (node' : Node)
    → walk q nodes ≡ some node
    → ((r : ℕ) → cell_at (set nodes q node') q r ≡ get_or node'.array r null)
      × ((q' r : ℕ) → q' ≢ q → cell_at (set nodes q node') q' r ≡ cell_at nodes q' r)
unfolding walk
walk-set [] zero node' found = absurd (cc)
walk-set [] (suc q) node' found = absurd (cc)
walk-set (node ∷ rest) zero node' found =
    (λ r. refl, elim [ zero ↦ λ r ne. absurd (ne refl) | suc q' ↦ λ r ne. refl ])
walk-set (node ∷ rest) (suc q) node' found =
    let (at, off) = walk-set rest q node' found in
    (at, elim [ zero ↦ λ r ne. refl | suc q' ↦ λ r ne. off q' r (λ e. ne (ap suc e)) ])

walk-IsValid :
    (len base : ℕ) (nodes : List Node) (q : ℕ) {node : Node}
    → NodesAreValid len base nodes
    → walk q nodes ≡ some node
    → NodeIsValid len (base + q) node
      × ((node' : Node)
          → NodeIsValid len (base + q) node'
          → NodesAreValid len base (set nodes q node'))
unfolding walk
walk-IsValid len base [] zero v found = absurd (cc)
walk-IsValid len base [] (suc q) v found = absurd (cc)
walk-IsValid len base (first ∷ rest) zero {node} (v, vs) found =
    let e : base ≡ base + 0 = omega arith in
    let same : first ≡ node = cc in
    (
      subst (λ n. NodeIsValid len n node) e (subst (NodeIsValid len base) same v),
      λ node' v'. (subst (λ n. NodeIsValid len n node') (sym e) v', vs),
    )
walk-IsValid len base (first ∷ rest) (suc q) {node} (v, vs) found =
    let (is, put) = walk-IsValid len (suc base) rest q vs found in
    let e : suc base + q ≡ base + suc q = omega arith in
    (
      subst (λ n. NodeIsValid len n node) e is,
      λ node' v'. (v, put node' (subst (λ n. NodeIsValid len n node') (sym e) v')),
    )

-- The mapping after the value under `key` was removed.
pub record Removed (old new : UnrolledHead) (key : ℕ) : Type 0 where
  pub valid : IsValid new
  pub at_key : unrolled_lookup new key ≡ null
  pub elsewhere : (k : ℕ) → k ≢ key → unrolled_lookup new k ≡ unrolled_lookup old k

cell_of_walk :
    (nodes : List Node) (q r : ℕ) {node : Node}
    → walk q nodes ≡ some node
    → cell_at nodes q r ≡ get_or node.array r null
cell_of_walk nodes q r found = sym (rw found at (walk-cell_at nodes q q r))

module _ (h : UnrolledHead) (v : IsValid h) (key : ℕ) where
  open h use {array_len as len}

  cell_freed :
      (node : Node)
      → walk (key / len) h.node ≡ some node
      → NodeIsValid len (0 + key / len) node
      → let new = set h.node (key / len) (free_cell node (key % len)) in
        (cell_at new (key / len) (key % len) ≡ null)
        × ((k : ℕ) → k ≢ key → cell_at new (k / len) (k % len) ≡ cell_at h.node (k / len) (k % len))
  unfolding free_cell
  cell_freed node found is = (
    at (key % len) ∙ get_or-set_self node.array (key % len) null null inside,
    λ k ne. elim (other_key len (key / len) (key % len) k v.len_pos (λ e. ne (e ∙ whole))) [
      | inl far ↦ off (k / len) (k % len) far
      | inr (e, apart) ↦ rw e (
          at (k % len)
          ∙ get_or-set_ne node.array (key % len) (k % len) null null (λ f. apart (sym f))
          ∙ sym (cell_of_walk h.node (key / len) (k % len) found))
    ],
  )
    where
      whole : key / len * len + key % len ≡ key
      whole = div-add-mod' key len

      inside : key % len < length node.array
      inside = subst (λ n. key % len < n) (sym is.cells) (mod-lt key v.len_pos)

      at :
          (r : ℕ)
          → cell_at (set h.node (key / len) (free_cell node (key % len))) (key / len) r
            ≡ get_or (free_cell node (key % len)).array r null
      at = (walk-set h.node (key / len) (free_cell node (key % len)) found).0

      off :
          (q' r : ℕ)
          → q' ≢ key / len
          → cell_at (set h.node (key / len) (free_cell node (key % len))) q' r ≡ cell_at h.node q' r
      off = (walk-set h.node (key / len) (free_cell node (key % len)) found).1

  remove_found :
      (node : Node)
      → walk (key / len) h.node ≡ some node
      → get_or node.array (key % len) null ≢ null
      → Removed h (record h { node = set h.node (key / len) (free_cell node (key % len)) }) key
  remove_found node found used =
      let (is, put) = walk-IsValid len 0 h.node (key / len) v.nodes found in
      let (freed, kept) = cell_freed node found is in
      let v' = valid (
        put (free_cell node (key % len))
          (free_cell-IsValid is (key % len) (mod-lt key v.len_pos) v.len_small used)) in
      record {
        valid = v';
        at_key = lookup-cell_at new v' key ∙ freed;
        elsewhere = λ k ne. lookup-cell_at new v' k ∙ kept k ne ∙ sym (lookup-cell_at h v k);
      }
    where
      new : UnrolledHead
      new = record h { node = set h.node (key / len) (free_cell node (key % len)) }

      valid : NodesAreValid len 0 new.node → IsValid new
      valid nodes = record {
        len_pos = v.len_pos;
        len_small = v.len_small;
        bound = subst (λ n. n * len < 2 ^ 32) (sym (length-set h.node (key / len) _)) v.bound;
        nodes = nodes;
      }

  remove_walk :
      (o : Option Node)
      → walk (key / len) h.node ≡ o
      → unrolled_lookup h key ≢ null
      → Returns (λ h'. Removed h h' key) (unrolled_remove_key h key)
  unfolding unrolled_remove_key
  remove_walk none missing used = absurd (
      used (
        lookup-cell_at h v key
        ∙ (rw missing at (sym (walk-cell_at h.node (key / len) (key / len) (key % len))))))
  remove_walk (some node) found used =
      let here = cell_of_walk h.node (key / len) (key % len) found in
      let full : get_or node.array (key % len) null ≢ null =
        λ e. used (lookup-cell_at h v key ∙ here ∙ e) in
      let test : (get_or node.array (key % len) null == null) ≡ false = ground arith in
      (
        record h { node = set h.node (key / len) (free_cell node (key % len)) },
        rw (get_node_lem len h.node key v.nodes, unrolled_remove_key) (rw (found, test)),
        remove_found node found full,
      )

  -- On a valid list, removing a key that maps to a value succeeds: the key then maps to nothing,
  -- every other key to what it did, and the list stays valid.
  pub unrolled_remove_key-Removed :
      unrolled_lookup h key ≢ null → Returns (λ h'. Removed h h' key) (unrolled_remove_key h key)
  unrolled_remove_key-Removed used = remove_walk (walk (key / len) h.node) refl used

  -- On a valid list, removing a key that maps to nothing panics.
  pub unrolled_remove_key-panic : unrolled_lookup h key ≡ null → unrolled_remove_key h key ≡ panic
  unfolding unrolled_remove_key unrolled_lookup
  unrolled_remove_key-panic free = ground arith
