-- ===== src/Unrolled/Mapping.antt =====
-- lib/unrolled_list.c as a mapping of keys to values: what each public function does to it.
use native.Mathlib.Nat.{mod-lt, div-add-mod', mul-le-mul_right}
use cute.Base.{
  ℕ, zero, suc, ◌+◌, ◌*◌, ◌/◌, ◌%◌, ◌≤◌, ◌<◌, ◌≡◌, ◌≢◌, refl, sym, ap, subst, ◌∙◌, ◌⊎◌, inl, inr,
  Option, none, some, List, [], ◌∷◌, arith, get_or, div_mod_of_sum,
}
use cute.Unrolled.{null, Node, UnrolledHead, walk, get_node, unrolled_lookup}
use cute.Unrolled.Cells.{NodesAreValid, IsValid, cell_at}
use cute.Unrolled.Insert.{Placed}

-- The node at position `q`, with the index `r` into its array.
abbrev pub node_ref : ℕ → ℕ → List Node → Option (ℕ × Node × ℕ)
node_ref q r nodes = elim (walk q nodes) [ none ↦ none | some node ↦ some (q, node, r) ]

walk_nil : (q : ℕ) → walk q [] ≡ none
unfolding walk
walk_nil zero = refl
walk_nil (suc q) = refl

pub get_node_lem :
    (len : ℕ) (nodes : List Node) (key : ℕ)
    → NodesAreValid len 0 nodes
    → get_node (record { node = nodes; array_len = len }) key
      ≡ node_ref (key / len) (key % len) nodes
unfolding get_node
get_node_lem len [] key v = rw (walk_nil (key / len), node_ref)
get_node_lem len (node ∷ rest) key (v, _) =
    ap (λ l. node_ref (key / l) (key % l) (node ∷ rest)) v.len_field

-- What a pointer to the node at position `q` reads.
abbrev read : Option (ℕ × Node × ℕ) → ℕ
read none = null
read (some (pos, node, array_idx)) = get_or node.array array_idx null

pub walk-cell_at :
    (nodes : List Node) (pos q r : ℕ)
    → read (elim (walk q nodes) [ none ↦ none | some node ↦ some (pos, node, r) ])
      ≡ cell_at nodes q r
unfolding walk
walk-cell_at [] pos zero r = refl
walk-cell_at [] pos (suc q) r = refl
walk-cell_at (node ∷ rest) pos zero r = refl
walk-cell_at (node ∷ rest) pos (suc q) r = walk-cell_at rest pos q r

-- A lookup reads the cell whose number the key is.
pub lookup-cell_at :
    (head : UnrolledHead)
    → IsValid head
    → (key : ℕ)
    → unrolled_lookup head key ≡ cell_at head.node (key / head.array_len) (key % head.array_len)
unfolding unrolled_lookup
lookup-cell_at head valid key = ground (
  arith,
  get_node_lem head.array_len head.node key valid.nodes,
  walk-cell_at head.node (key / head.array_len) (key / head.array_len) (key % head.array_len),
)

-- Keys below `q * len + r` are cells before the one at `q` and `r`.
before_key :
    (len q r key : ℕ)
    → r < len
    → key < q * len + r
    → (key / len < q) ⊎ ((key / len ≡ q) × (key % len < r))
before_key len q r key h k = elim (cases (key / len) q) [
  | inl a ↦ inl a
  | inr (inl e) ↦
      let eq : key / len * len + key % len ≡ key = div-add-mod' key len in
      let f : key / len * len ≡ q * len = ap (λ n. n * len) e in inr (e, omega arith)
  | inr (inr g) ↦
      let eq : key / len * len + key % len ≡ key = div-add-mod' key len in
      let le : suc q * len ≤ key / len * len = mul-le-mul_right len g in absurd (omega arith)
]
  where
    cases : (a b : ℕ) → (a < b) ⊎ ((a ≡ b) ⊎ (b < a))
    cases a b = omega arith

pub other_key :
    (len q r key : ℕ)
    → 0 < len
    → key ≢ q * len + r
    → (key / len ≢ q) ⊎ ((key / len ≡ q) × (key % len ≢ r))
other_key len q r key len_pos ne = elim (cases (key / len) q) [
  | inl e ↦ inr (
    e,
    λ f. ne (sym (div-add-mod' key len) ∙ ap (λ n. n * len + key % len) e ∙ ap (◌+◌ (q * len)) f),
  )
  | inr n ↦ inl n
]
  where
    cases : (a b : ℕ) → (a ≡ b) ⊎ (a ≢ b)
    cases a b = omega arith

-- The mapping after `val` was stored under the new key `key`, the least that was free.
pub record Inserted (old new : UnrolledHead) (key val : ℕ) : Type 0 where
  pub valid : IsValid new
  pub len_same : new.array_len ≡ old.array_len
  pub was_free : unrolled_lookup old key ≡ null
  pub least : (k : ℕ) → k < key → unrolled_lookup old k ≢ null
  pub at_key : unrolled_lookup new key ≡ val
  pub elsewhere : (k : ℕ) → k ≢ key → unrolled_lookup new k ≡ unrolled_lookup old k

module _ {len : ℕ} (len_pos : 0 < len) {old new : List Node} {q r val : ℕ}
    (p : Placed len old new q r val) where
  at :
      (nodes : List Node)
      → cell_at nodes ((q * len + r) / len) ((q * len + r) % len) ≡ cell_at nodes q r
  at nodes = let (e, f) = div_mod_of_sum len q r p.inside in rw (e, f)

  Placed-least : (k : ℕ) → k < q * len + r → cell_at old (k / len) (k % len) ≢ null
  Placed-least k h = elim (before_key len q r k p.inside h) [
    | inl a ↦ p.least_node (k / len) (k % len) a (mod-lt k len_pos)
    | inr (e, b) ↦ subst (λ n. cell_at old n (k % len) ≢ null) (sym e) (p.least_cell (k % len) b)
  ]

  Placed-elsewhere :
      (k : ℕ) → k ≢ q * len + r → cell_at new (k / len) (k % len) ≡ cell_at old (k / len) (k % len)
  Placed-elsewhere k ne = elim (other_key len q r k len_pos ne) [
    | inl a ↦ p.other_nodes (k / len) (k % len) a
    | inr (e, b) ↦
        subst (λ n. cell_at new n (k % len) ≡ cell_at old n (k % len)) (sym e)
          (p.other_cells (k % len) b)
  ]

  pub Placed-Inserted :
      (h h' : UnrolledHead)
      → IsValid h
      → IsValid h'
      → h.array_len ≡ len
      → h'.array_len ≡ len
      → ((k : ℕ) → cell_at h.node (k / len) (k % len) ≡ cell_at old (k / len) (k % len))
      → h'.node ≡ new
      → Inserted h h' (q * len + r) val
  Placed-Inserted h h' v v' e e' same same' = record {
    valid = v';
    len_same = e' ∙ sym e;
    was_free = look (q * len + r) ∙ at old ∙ p.free;
    least = λ k b f. Placed-least k b (sym (look k) ∙ f);
    at_key = look' (q * len + r) ∙ at new ∙ p.stored;
    elsewhere = λ k ne. look' k ∙ Placed-elsewhere k ne ∙ sym (look k);
  }
    where
      look : (k : ℕ) → unrolled_lookup h k ≡ cell_at old (k / len) (k % len)
      look k = lookup-cell_at h v k ∙ ap (λ l. cell_at h.node (k / l) (k % l)) e ∙ same k

      look' : (k : ℕ) → unrolled_lookup h' k ≡ cell_at new (k / len) (k % len)
      look' k =
          lookup-cell_at h' v' k
          ∙ ap (λ l. cell_at h'.node (k / l) (k % l)) e'
          ∙ ap (λ n. cell_at n (k / len) (k % len)) same'
