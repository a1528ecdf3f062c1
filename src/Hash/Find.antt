-- ===== src/Hash/Find.antt =====
-- What `hash_find` of lib/hash.c finds after an insertion.
use cute.Base.{
  ℕ, ◌%◌, ◌<◌, ◌≡◌, ◌≢◌, ◌⊎◌, false, true, [], inl, inr, refl, sym, ap, ◌∙◌, Bool-cases, List, ◌∷◌,
  update, update_same, update_ne, ◌==◌, arith, Outcome, ok, panic,
}
use cute.Hash.{null, HashTable, find_in, hash_find_elem, hash_find, link_elem, hash_insert}

-- The table with one element more.
pub record Inserted (old new : HashTable) (elem : ℕ) : Type 0 where
  pub len_same : new.len ≡ old.len
  pub was_absent : hash_find old elem ≡ ok null
  pub found : hash_find new elem ≡ ok elem
  pub others : (x : ℕ) → x ≢ elem → hash_find new x ≡ hash_find old x

-- The insertion of what the table has panics.
abbrev pub Answered : HashTable → ℕ → Outcome (HashTable × ℕ) → Type 0
Answered hash elem (ok (new, id)) = Inserted hash new elem × (id ≡ elem)
Answered hash elem panic = hash_find hash elem ≡ ok elem

abbrev lookup : HashTable → ℕ → ℕ
lookup hash x = find_in (hash.nodes_array (x % hash.len)) x

hash_find-lookup : (hash : HashTable) (x : ℕ) → 0 < hash.len → hash_find hash x ≡ ok (lookup hash x)
unfolding hash_find hash_find_elem
hash_find-lookup hash x pos = let test : (hash.len == 0) ≡ false = ground arith in rw test refl

-- What is found is what was sought, or `NULL`.
find_in_cases : (xs : List ℕ) (x : ℕ) → (find_in xs x ≡ null) ⊎ (find_in xs x ≡ x)
unfolding find_in
find_in_cases [] x = inl refl
find_in_cases (y ∷ ys) x = ground (arith, find_in_cases ys x)

find_first : (elem : ℕ) (rest : List ℕ) → find_in (elem ∷ rest) elem ≡ elem
unfolding find_in
find_first elem rest = ground arith

find_behind : (elem x : ℕ) (rest : List ℕ) → x ≢ elem → find_in (elem ∷ rest) x ≡ find_in rest x
unfolding find_in
find_behind elem x rest ne = ground arith

link_elem-others :
    (hash : HashTable) (elem x : ℕ) → x ≢ elem → lookup (link_elem hash elem) x ≡ lookup hash x
link_elem-others hash elem x ne = elim (Bool-cases (x % hash.len == elem % hash.len)) [
  | inl e ↦
      (let idx = elem % hash.len in
        let same : x % hash.len ≡ idx = ground arith in
        ap (λ i. find_in (update hash.nodes_array idx (elem ∷ hash.nodes_array idx) i) x) same
        ∙ ap (λ l. find_in l x) (update_same hash.nodes_array idx (elem ∷ hash.nodes_array idx))
        ∙ find_behind elem x (hash.nodes_array idx) ne
        ∙ ap (λ i. find_in (hash.nodes_array i) x) (sym same))
  | inr e ↦
      (let idx = elem % hash.len in
        let apart : x % hash.len ≢ idx = ground arith in
        ap (λ l. find_in l x)
          (update_ne hash.nodes_array idx (x % hash.len) (elem ∷ hash.nodes_array idx) apart))
]

link_elem-found : (hash : HashTable) (elem : ℕ) → lookup (link_elem hash elem) elem ≡ elem
link_elem-found hash elem =
    let idx = elem % hash.len in
    ap (λ l. find_in l elem) (update_same hash.nodes_array idx (elem ∷ hash.nodes_array idx))
    ∙ find_first elem (hash.nodes_array idx)

-- In a table of at least one bucket, `hash_insert` of an element other than `NULL` that `hash_find`
-- does not find returns the element as its identifier, under which it is found from then on, and what
-- is found under every other identifier stays; of an element that is found it panics.
pub hash_insert-Answered :
    (hash : HashTable) (elem : ℕ)
    → 0 < hash.len
    → elem ≢ null
    → Answered hash elem (hash_insert hash elem)
unfolding hash_insert hash_find hash_find_elem
hash_insert-Answered hash elem pos ne =
    let some_bucket : (hash.len == 0) ≡ false = ground arith in
    rw some_bucket (elim (find_in_cases (hash.nodes_array (elem % hash.len)) elem) [
      | inl e ↦
          (let test : (lookup hash elem == null) ≡ true = ground arith in
            rw test (
              record {
                len_same = refl;
                was_absent = hash_find-lookup hash elem pos ∙ ap ok e;
                found =
                    hash_find-lookup (link_elem hash elem) elem pos
                    ∙ ap ok (link_elem-found hash elem);
                others = λ x apart.
                    hash_find-lookup (link_elem hash elem) x pos
                    ∙ ap ok (link_elem-others hash elem x apart)
                    ∙ sym (hash_find-lookup hash x pos);
              },
              refl,
            ))
      | inr e ↦
          (let test : (lookup hash elem == null) ≡ false = ground arith in
            rw test (hash_find-lookup hash elem pos ∙ ap ok e))
    ])
