-- ===== src/Unrolled/Insert.antt =====
-- `unrolled_insert` of lib/unrolled_list.c: where the value goes.
use native.Mathlib.Nat.{mul-le-mul_right, mul-le-mul_left, mod-eq_of_lt}
use mathlib.Core.Path.{ap₂}
use cute.Base.{
  ℕ, zero, suc, ◌+◌, ◌*◌, ◌%◌, ◌^◌, ◌≤◌, ◌<◌, ◌≡◌, ◌≢◌, refl, subst, sym, ap, Returns, ◌∙◌, inl,
  inr, List, [], ◌∷◌, arith, Bool-cases, ltb, lt→ltb, ltb→lt, length, get_or, get_or-set_self,
  get_or-set_ne, ok, ◌>>=◌,
}
use cute.Unrolled.{
  null, Node, new_node, unode_array_find_free_idx, store_here, store_new, insert_loop,
}
use cute.Unrolled.Cells.{
  find_null_lem, ne-null_of_count, NodeIsValid, NodesAreValid, cell_at, new_node-IsValid,
  unode_new_lem, new_node_empty, stored, store_lem, stored-IsValid,
}

-- The value went into the first free cell: the one at `r` of the node at `q`.
pub record Placed (len : ℕ) (old new : List Node) (q r val : ℕ) : Type 0 where
  pub inside : r < len
  pub free : cell_at old q r ≡ null
  pub least_node : (q' r' : ℕ) → q' < q → r' < len → cell_at old q' r' ≢ null
  pub least_cell : (r' : ℕ) → r' < r → cell_at old q r' ≢ null
  pub stored : cell_at new q r ≡ val
  pub other_nodes : (q' r' : ℕ) → q' ≢ q → cell_at new q' r' ≡ cell_at old q' r'
  pub other_cells : (r' : ℕ) → r' ≢ r → cell_at new q r' ≡ cell_at old q r'

Placed-cons :
    {len q r val : ℕ} {old new : List Node} (node : Node)
    → ((r' : ℕ) → r' < len → get_or node.array r' null ≢ null)
    → Placed len old new q r val
    → Placed len (node ∷ old) (node ∷ new) (suc q) r val
Placed-cons node full p = record {
  inside = p.inside;
  free = p.free;
  least_node = elim [ zero ↦ λ r' h. full r' | suc q' ↦ λ r' h. p.least_node q' r' (omega arith) ];
  least_cell = p.least_cell;
  stored = p.stored;
  other_nodes = elim [
    | zero ↦ λ r' h. refl
    | suc q' ↦ λ r' h. p.other_nodes q' r' (λ e. h (ap suc e))
  ];
  other_cells = p.other_cells;
}

module _ {len base : ℕ} {node : Node} (valid : NodeIsValid len base node) (rest : List Node)
    (idx val : ℕ) (inside : idx < len) (free : get_or node.array idx null ≡ null) where
  Placed-stored :
      ((k : ℕ) → k < idx → get_or node.array k null ≢ null)
      → Placed len (node ∷ rest) (stored node idx val ∷ rest) 0 idx val
  unfolding stored
  Placed-stored least = record {
    inside = inside;
    free = free;
    least_node = λ q' r' h. absurd (omega arith);
    least_cell = least;
    stored = get_or-set_self node.array idx val null (omega arith);
    other_nodes = elim [ zero ↦ λ r' h. absurd (h refl) | suc q' ↦ λ r' h. refl ];
    other_cells = λ r' h. get_or-set_ne node.array idx r' val null λ e. h (sym e);
  }

-- The value went into the first cell of a new node behind the last one, which was full.
Placed-new :
    {len val : ℕ} (prev new : Node)
    → 0 < len
    → ((r' : ℕ) → r' < len → get_or prev.array r' null ≢ null)
    → get_or new.array 0 null ≡ val
    → ((r' : ℕ) → r' ≢ 0 → get_or new.array r' null ≡ null)
    → Placed len (prev ∷ []) (prev ∷ new ∷ []) 1 0 val
Placed-new prev new len_pos full at_0 others = record {
  inside = len_pos;
  free = refl;
  least_node = elim [ zero ↦ λ r' h. full r' | suc q' ↦ λ r' h. absurd (omega arith) ];
  least_cell = λ r' h. absurd (omega arith);
  stored = at_0;
  other_nodes = elim [
    | zero ↦ λ r' h. refl
    | suc (suc q') ↦ λ r' h. refl
    | suc zero ↦ λ r' h. absurd (h refl)
  ];
  other_cells = others;
}

-- The outcome of the loop over the nodes, the first of which has number `base`.
pub record Inserts (len base val : ℕ) (old new : List Node) (key : ℕ) : Type 0 where
  pub q : ℕ
  pub r : ℕ
  pub key_is : key ≡ (base + q) * len + r
  pub placed : Placed len old new q r val
  pub valid : NodesAreValid len base new
  pub longer : length new ≤ suc (length old)

abbrev pub Inserted : ℕ → ℕ → ℕ → List Node → List Node × ℕ → Type 0
Inserted len base val old (new, key) = Inserts len base val old new key

key_small :
    (len base idx room : ℕ)
    → idx < len
    → suc base ≤ room
    → room * len < 2 ^ 32
    → base * len + idx < 2 ^ 32
key_small len base idx room h k bound = let le = mul-le-mul_right len k in omega arith

-- The key of a cell, where it fits a `uint`.
key_lem :
    {len base : ℕ} {node : Node} (valid : NodeIsValid len base node) (idx : ℕ)
    → base * len + idx < 2 ^ 32
    → (node.num * node.array_len + idx) % 2 ^ 32 ≡ base * len + idx
key_lem {node} valid idx fits =
    ap (λ n. (n + idx) % 2 ^ 32) (ap₂ ◌*◌ valid.num_field valid.len_field) ∙ mod-eq_of_lt fits

module _ (len val : ℕ) (len_pos : 0 < len) (small : len < 2 ^ 32) (page : len ≤ 512)
    (nonnull : val ≢ null) where
  find_free_lem :
      (node : Node) (base : ℕ)
      → NodeIsValid len base node
      → 0 < node.array_nrfree
      → (idx : ℕ) × (unode_array_find_free_idx node ≡ ok idx)
        × (idx < len)
        × (get_or node.array idx null ≡ null)
        × ((k : ℕ) → k < idx → get_or node.array k null ≢ null)
  unfolding unode_array_find_free_idx
  find_free_lem node base valid room =
      let (idx, found, inside, free, least) =
        find_null_lem 0 node.array (omega arith) (omega arith) in
      (
        idx,
        rw (lt→ltb 0 node.array_nrfree room) (found ∙ ap ok (omega arith)),
        omega arith,
        free,
        least,
      )

  store_here-Inserted :
      (node : Node) (rest : List Node) (base : ℕ)
      → NodesAreValid len base (node ∷ rest)
      → 0 < node.array_nrfree
      → suc base * len < 2 ^ 32
      → Returns (Inserted len base val (node ∷ rest)) (store_here val node rest)
  unfolding store_here
  store_here-Inserted node rest base (valid, others) room bound =
      let (idx, found, inside, free, least) = find_free_lem node base valid room in
      let fits = key_small len base idx (suc base) inside (omega arith) bound in
      (
        (stored node idx val ∷ rest, base * len + idx),
        rw (found, store_lem valid idx val inside small free nonnull)
            (ap (λ key. ok (stored node idx val ∷ rest, key)) (key_lem valid idx fits)),
        record {
          q = 0;
          r = idx;
          key_is = omega arith;
          placed = Placed-stored valid rest idx val inside free least;
          valid = (stored-IsValid valid idx val inside small free nonnull, others);
          longer = omega arith;
        },
      )

  -- Behind a node with no free cell a new node is put, with the value in its first cell.
  store_new_run :
      (prev : Node) (base : ℕ)
      → NodeIsValid len base prev
      → suc base * len + 0 < 2 ^ 32
      → store_new val prev
        ≡ ok (prev ∷ stored (new_node (suc base) len) 0 val ∷ [], suc base * len + 0)
  unfolding store_new
  store_new_run prev base valid fits =
      let e : (prev.num + 1) % 2 ^ 32 ≡ suc base = num_fits in
      simp (e, valid.len_field, unode_new_lem (suc base) len len_pos page)
        (rw
          (store_lem (new_node-IsValid len (suc base)) 0 val len_pos small
            (new_node_empty len (suc base) 0) nonnull)
          (ap (λ key. ok (prev ∷ stored (new_node (suc base) len) 0 val ∷ [], key))
            (ap (λ n. n % 2 ^ 32) add_0 ∙ key_lem (new_node-IsValid len (suc base)) 0 fits)))
    where
      num_fits : (prev.num + 1) % 2 ^ 32 ≡ suc base
      num_fits =
          let le : suc base * 1 ≤ suc base * len = mul-le-mul_left (suc base) len_pos in omega arith

      add_0 :
          (new_node (suc base) len).num * (new_node (suc base) len).array_len
          ≡ (new_node (suc base) len).num * (new_node (suc base) len).array_len + 0
      add_0 = omega arith

  stored_self :
      (num : ℕ)
      → NodeIsValid len num (new_node num len)
      → get_or (stored (new_node num len) 0 val).array 0 null ≡ val
  unfolding stored
  stored_self num valid = get_or-set_self (new_node num len).array 0 val null (omega arith)

  stored_other : (num r : ℕ) → r ≢ 0 → get_or (stored (new_node num len) 0 val).array r null ≡ null
  unfolding stored
  stored_other num r h =
      get_or-set_ne (new_node num len).array 0 r val null (λ e. h (sym e))
      ∙ new_node_empty len num r

  store_new-Inserted :
      (prev : Node) (base : ℕ)
      → NodesAreValid len base (prev ∷ [])
      → prev.array_nrfree ≡ 0
      → suc (suc base) * len < 2 ^ 32
      → Returns (Inserted len base val (prev ∷ [])) (store_new val prev)
  store_new-Inserted prev base (valid, _) full bound =
      let new_valid = new_node-IsValid len (suc base) in
      let free = new_node_empty len (suc base) 0 in
      let fits = key_small len (suc base) 0 (suc (suc base)) len_pos (omega arith) bound in
      (
        (prev ∷ stored (new_node (suc base) len) 0 val ∷ [], suc base * len + 0),
        store_new_run prev base valid fits,
        record {
          q = 1;
          r = 0;
          key_is = ap (λ n. n * len + 0) (omega arith);
          placed =
              Placed-new prev (stored (new_node (suc base) len) 0 val) len_pos
                (λ r' h. ne-null_of_count prev.array r' (omega arith) (omega arith))
                (stored_self (suc base) new_valid) (λ r' h. stored_other (suc base) r' h);
          valid = (valid, (stored-IsValid new_valid 0 val len_pos small free nonnull, tt));
          longer = omega arith;
        },
      )

  product_small : (a b : ℕ) → a ≤ b → b * len < 2 ^ 32 → a * len < 2 ^ 32
  product_small a b h bound = let le = mul-le-mul_right len h in omega arith

  -- A full node is passed over.
  Inserted-later :
      (node next : Node) (rest : List Node) (base : ℕ)
      → NodeIsValid len base node
      → node.array_nrfree ≡ 0
      → Returns (Inserted len (suc base) val (next ∷ rest)) (insert_loop val next rest)
      → Returns
          (Inserted len base val (node ∷ next ∷ rest))
          (insert_loop val next rest >>= λ (nodes, key). ok (node ∷ nodes, key))
  Inserted-later node next rest base valid full ((nodes, key), run, ins) = (
    (node ∷ nodes, key),
    rw run,
    record {
      q = suc ins.q;
      r = ins.r;
      key_is = ins.key_is ∙ ap (λ n. n * len + ins.r) (omega arith);
      placed =
          Placed-cons node (λ r' h. ne-null_of_count node.array r' (omega arith) (omega arith))
            ins.placed;
      valid = (valid, ins.valid);
      longer = let l = ins.longer in omega arith;
    },
  )

  pub insert_loop-Inserted :
      (node : Node) (rest : List Node) (base : ℕ)
      → NodesAreValid len base (node ∷ rest)
      → (suc (suc (base + length rest))) * len < 2 ^ 32
      → Returns (Inserted len base val (node ∷ rest)) (insert_loop val node rest)
  unfolding insert_loop
  insert_loop-Inserted node [] base valid bound = elim (Bool-cases (ltb 0 node.array_nrfree)) [
    | inl room ↦ rw room (
        store_here-Inserted node [] base valid (ltb→lt _ _ room)
          (product_small (suc base) _ (omega arith) bound))
    | inr full ↦ rw full (
        store_new-Inserted node base valid (ground arith)
          (product_small (suc (suc base)) _ (omega arith) bound))
  ]
  insert_loop-Inserted node (next ∷ rest) base (valid, others) bound =
      elim (Bool-cases (ltb 0 node.array_nrfree)) [
        | inl room ↦ rw room (
            store_here-Inserted node (next ∷ rest) base (valid, others) (ltb→lt _ _ room)
              (product_small (suc base) _ (omega arith) bound))
        | inr full ↦ rw full (
            Inserted-later node next rest base valid (ground arith) (
              insert_loop-Inserted next rest (suc base) others
                (subst (λ n. n * len < 2 ^ 32) (omega arith) bound)))
      ]
