-- ===== src/Ring/Members.antt =====
-- What the calls of include/list.h leave in the two pointers of each node.
use cute.Base.{
  ℕ, ◌≡◌, ◌≢◌, refl, sym, ap, subst, ◌∙◌, ◌⊎◌, inl, inr, true, false, ◌==◌, if◌then◌else◌, arith,
  Bool-cases, ok, Returns,
}
use cute.Ring.{Store, set_next, set_prev, list_add, list_del}

-- The nodes that satisfy `P` are linked among themselves: both pointers lead to one of them, and
-- back.
pub record IsLinked (P : ℕ → Type 0) (s : Store) : Type 0 where
  pub closed_next : (q : ℕ) → P q → P (s q).next
  pub closed_prev : (q : ℕ) → P q → P (s q).prev
  pub back_prev : (q : ℕ) → P q → (s (s q).next).prev ≡ q
  pub back_next : (q : ℕ) → P q → (s (s q).prev).next ≡ q

eq-or-ne : (a b : ℕ) → (a ≡ b) ⊎ (a ≢ b)
eq-or-ne a b = omega arith

next_set_next :
    (s : Store) (n v q : ℕ) → (set_next s n v q).next ≡ (if q == n then v else (s q).next)
unfolding set_next
next_set_next s n v q = ground arith

prev_set_next : (s : Store) (n v q : ℕ) → (set_next s n v q).prev ≡ (s q).prev
unfolding set_next
prev_set_next s n v q = ground arith

next_set_prev : (s : Store) (n v q : ℕ) → (set_prev s n v q).next ≡ (s q).next
unfolding set_prev
next_set_prev s n v q = ground arith

prev_set_prev :
    (s : Store) (n v q : ℕ) → (set_prev s n v q).prev ≡ (if q == n then v else (s q).prev)
unfolding set_prev
prev_set_prev s n v q = ground arith

module _ (s : Store) (node new : ℕ) where
  abbrev one : Store
  one = set_next s new (s node).next

  abbrev two : Store
  two = set_prev one (one new).next new

  abbrev three : Store
  three = set_next two node new

  first_of : (one new).next ≡ (s node).next
  first_of = next_set_next s new (s node).next new ∙ ground arith

  list_add_next :
      (q : ℕ)
      → (list_add s node new q).next
        ≡ (if q == node then new else (if q == new then (s node).next else (s q).next))
  unfolding list_add
  list_add_next q =
      next_set_prev three new node q
      ∙ next_set_next two node new q
      ∙ ap (λ k. if q == node then new else k)
          (next_set_prev one (one new).next new q ∙ next_set_next s new (s node).next q)

  list_add_prev :
      (q : ℕ)
      → (list_add s node new q).prev
        ≡ (if q == new then node else (if q == (s node).next then new else (s q).prev))
  unfolding list_add
  list_add_prev q =
      prev_set_prev three new node q
      ∙ ap (λ k. if q == new then node else k)
          (prev_set_next two node new q
            ∙ prev_set_prev one (one new).next new q
            ∙ ap (λ n. if q == n then new else (one q).prev) first_of
            ∙ ap (λ k. if q == (s node).next then new else k) (prev_set_next s new (s node).next q))

module _ (P : ℕ → Type 0) (s : Store) (v : IsLinked P s) (node new : ℕ) (in_list : P node)
    (outside : ¬ P new) where
  Member : ℕ → Type 0
  Member q = (q ≡ new) ⊎ P q

  ne_new : (q : ℕ) → P q → (q == new) ≡ false
  ne_new q h = elim (Bool-cases (q == new)) [
    | inl e ↦ (let eq : q ≡ new = ground arith in absurd (outside (subst P eq h)))
    | inr e ↦ e
  ]

  -- The pointers after the insertion, by the place of the node.
  at_node : (list_add s node new node).next ≡ new
  at_node = list_add_next s node new node ∙ ground arith

  at_new : (list_add s node new new).next ≡ (s node).next
  at_new = let e = ne_new node in_list in list_add_next s node new new ∙ ground arith

  next_other : (q : ℕ) → P q → q ≢ node → (list_add s node new q).next ≡ (s q).next
  next_other q h ne = let e = ne_new q h in list_add_next s node new q ∙ ground arith

  prev_new : (list_add s node new new).prev ≡ node
  prev_new = list_add_prev s node new new ∙ ground arith

  prev_first : (list_add s node new (s node).next).prev ≡ new
  prev_first =
      let e = ne_new (s node).next (v.closed_next node in_list) in
      list_add_prev s node new (s node).next ∙ ground arith

  prev_other : (q : ℕ) → P q → q ≢ (s node).next → (list_add s node new q).prev ≡ (s q).prev
  prev_other q h ne = let e = ne_new q h in list_add_prev s node new q ∙ ground arith

  abbrev added : Store
  added = list_add s node new

  back_first : (s (s node).next).prev ≡ node
  back_first = v.back_prev node in_list

  added_next : (q : ℕ) → P q → Member (added q).next × ((added (added q).next).prev ≡ q)
  unfolding Member
  added_next q h = elim (eq-or-ne q node) [
    | inl e ↦
        (let n = ap (λ k. (added k).next) e ∙ at_node in
          (inl n, ap (λ k. (added k).prev) n ∙ prev_new ∙ sym e))
    | inr ne ↦
        (let n = next_other q h ne in
          let far : (s q).next ≢ (s node).next =
            λ e. ne (sym (v.back_prev q h) ∙ ap (λ k. (s k).prev) e ∙ back_first) in
          (
            inr (subst P (sym n) (v.closed_next q h)),
            ap (λ k. (added k).prev) n
                ∙ prev_other (s q).next (v.closed_next q h) far
                ∙ v.back_prev q h,
          ))
  ]

  added_prev : (q : ℕ) → P q → Member (added q).prev × ((added (added q).prev).next ≡ q)
  unfolding Member
  added_prev q h = elim (eq-or-ne q (s node).next) [
    | inl e ↦
        (let n = ap (λ k. (added k).prev) e ∙ prev_first in
          (inl n, ap (λ k. (added k).next) n ∙ at_new ∙ sym e))
    | inr ne ↦
        (let n = prev_other q h ne in
          let far : (s q).prev ≢ node = λ e. ne (sym (v.back_next q h) ∙ ap (λ k. (s k).next) e) in
          (
            inr (subst P (sym n) (v.closed_prev q h)),
            ap (λ k. (added k).next) n
                ∙ next_other (s q).prev (v.closed_prev q h) far
                ∙ v.back_next q h,
          ))
  ]

  -- Into a set of linked nodes, `list_add` of a node outside it, behind one of its nodes, makes the
  -- set with the new node one of linked nodes, in which the new node stands between that node and
  -- the one that followed it.
  pub list_add-IsLinked :
      IsLinked (λ q. (q ≡ new) ⊎ P q) (list_add s node new)
      × ((list_add s node new node).next ≡ new)
      × ((list_add s node new new).next ≡ (s node).next)
  unfolding Member
  list_add-IsLinked = (
    record {
      closed_next = λ q. elim [
        | inl e ↦
            inr (subst P (sym (ap (λ k. (added k).next) e ∙ at_new)) (v.closed_next node in_list))
        | inr h ↦ (added_next q h).0
      ];
      closed_prev = λ q. elim [
        | inl e ↦ inr (subst P (sym (ap (λ k. (added k).prev) e ∙ prev_new)) in_list)
        | inr h ↦ (added_prev q h).0
      ];
      back_prev = λ q. elim [
        | inl e ↦
            ap (λ k. (added (added k).next).prev) e
            ∙ ap (λ k. (added k).prev) at_new
            ∙ prev_first
            ∙ sym e
        | inr h ↦ (added_next q h).1
      ];
      back_next = λ q. elim [
        | inl e ↦
            ap (λ k. (added (added k).prev).next) e
            ∙ ap (λ k. (added k).next) prev_new
            ∙ at_node
            ∙ sym e
        | inr h ↦ (added_prev q h).1
      ];
    },
    at_node,
    at_new,
  )

module _ (s : Store) (node : ℕ) where
  abbrev without_next : Store
  without_next = set_next s (s node).prev (s node).next

  abbrev without : Store
  without = set_prev without_next (s node).next (without_next node).prev

  abbrev deleted : Store
  deleted = set_prev (set_next without node node) node node

  deleted_next :
      (q : ℕ)
      → (deleted q).next
        ≡ (if q == node then node else (if q == (s node).prev then (s node).next else (s q).next))
  deleted_next q =
      next_set_prev (set_next without node node) node node q
      ∙ next_set_next without node node q
      ∙ ap (λ k. if q == node then node else k)
          (next_set_prev without_next (s node).next (without_next node).prev q
            ∙ next_set_next s (s node).prev (s node).next q)

  deleted_prev :
      (q : ℕ)
      → (deleted q).prev
        ≡ (if q == node then node else (if q == (s node).next then (s node).prev else (s q).prev))
  deleted_prev q =
      prev_set_prev (set_next without node node) node node q
      ∙ ap (λ k. if q == node then node else k)
          (prev_set_next without node node q
            ∙ prev_set_prev without_next (s node).next (without_next node).prev q
            ∙ ap (λ k. if q == (s node).next then k else (without_next q).prev)
                (prev_set_next s (s node).prev (s node).next node)
            ∙ ap (λ k. if q == (s node).next then (s node).prev else k)
                (prev_set_next s (s node).prev (s node).next q))

module _ (P : ℕ → Type 0) (s : Store) (v : IsLinked P s) (node : ℕ) (h : P node) where
  alone_next : (deleted s node node).next ≡ node
  alone_next = deleted_next s node node ∙ ground arith

  alone_prev : (deleted s node node).prev ≡ node
  alone_prev = deleted_prev s node node ∙ ground arith

  joined_next : (q : ℕ) → q ≢ node → q ≡ (s node).prev → (deleted s node q).next ≡ (s node).next
  joined_next q ne e = deleted_next s node q ∙ ground arith

  joined_prev : (q : ℕ) → q ≢ node → q ≡ (s node).next → (deleted s node q).prev ≡ (s node).prev
  joined_prev q ne e = deleted_prev s node q ∙ ground arith

  kept_next : (q : ℕ) → q ≢ node → q ≢ (s node).prev → (deleted s node q).next ≡ (s q).next
  kept_next q ne far = deleted_next s node q ∙ ground arith

  kept_prev : (q : ℕ) → q ≢ node → q ≢ (s node).next → (deleted s node q).prev ≡ (s q).prev
  kept_prev q ne far = deleted_prev s node q ∙ ground arith

  left_next :
      (q : ℕ)
      → P q
      → q ≢ node
      → (P (deleted s node q).next × ((deleted s node q).next ≢ node))
        × ((deleted s node (deleted s node q).next).prev ≡ q)
  left_next q m ne = elim (eq-or-ne q (s node).prev) [
    | inl e ↦
        (let n = joined_next q ne e in
          let far : (s node).next ≢ node =
            λ f. ne (e ∙ ap (λ k. (s k).prev) (sym f) ∙ v.back_prev node h) in
          (
            (subst P (sym n) (v.closed_next node h), λ f. far (sym n ∙ f)),
            ap (λ k. (deleted s node k).prev) n ∙ joined_prev (s node).next far refl ∙ sym e,
          ))
    | inr off ↦
        (let n = kept_next q ne off in
          let far : (s q).next ≢ node = λ f. off (sym (v.back_prev q m) ∙ ap (λ k. (s k).prev) f) in
          let apart : (s q).next ≢ (s node).next =
            λ f. ne (sym (v.back_prev q m) ∙ ap (λ k. (s k).prev) f ∙ v.back_prev node h) in
          (
            (subst P (sym n) (v.closed_next q m), λ f. far (sym n ∙ f)),
            ap (λ k. (deleted s node k).prev) n ∙ kept_prev (s q).next far apart ∙ v.back_prev q m,
          ))
  ]

  left_prev :
      (q : ℕ)
      → P q
      → q ≢ node
      → (P (deleted s node q).prev × ((deleted s node q).prev ≢ node))
        × ((deleted s node (deleted s node q).prev).next ≡ q)
  left_prev q m ne = elim (eq-or-ne q (s node).next) [
    | inl e ↦
        (let n = joined_prev q ne e in
          let far : (s node).prev ≢ node =
            λ f. ne (e ∙ ap (λ k. (s k).next) (sym f) ∙ v.back_next node h) in
          (
            (subst P (sym n) (v.closed_prev node h), λ f. far (sym n ∙ f)),
            ap (λ k. (deleted s node k).next) n ∙ joined_next (s node).prev far refl ∙ sym e,
          ))
    | inr off ↦
        (let n = kept_prev q ne off in
          let far : (s q).prev ≢ node = λ f. off (sym (v.back_next q m) ∙ ap (λ k. (s k).next) f) in
          let apart : (s q).prev ≢ (s node).prev =
            λ f. ne (sym (v.back_next q m) ∙ ap (λ k. (s k).next) f ∙ v.back_next node h) in
          (
            (subst P (sym n) (v.closed_prev q m), λ f. far (sym n ∙ f)),
            ap (λ k. (deleted s node k).next) n ∙ kept_next (s q).prev far apart ∙ v.back_next q m,
          ))
  ]

  list_del-ok : ((q : ℕ) → P q → q ≢ 0) → list_del s node ≡ ok (deleted s node)
  unfolding list_del
  list_del-ok some_node =
      let p : ((s node).prev == 0) ≡ false =
        (let z = some_node (s node).prev (v.closed_prev node h) in ground arith) in
      let n : ((s node).next == 0) ≡ false =
        (let z = some_node (s node).next (v.closed_next node h) in ground arith) in
      let a : ((s (s node).prev).next == node) ≡ true =
        (let z = v.back_next node h in ground arith) in
      let b : ((s (s node).next).prev == node) ≡ true =
        (let z = v.back_prev node h in ground arith) in
      rw (p, n, a, b) refl

-- The node was taken out: the others are linked among themselves, and it is alone.
pub record Unlinked (P : ℕ → Type 0) (node : ℕ) (t : Store) : Type 0 where
  pub others : IsLinked (λ q. P q × (q ≢ node)) t
  pub own_next : (t node).next ≡ node
  pub own_prev : (t node).prev ≡ node

-- `list_del` of one of a set of linked nodes, none of which is `NULL`, passes its assertions and
-- returns; the other nodes of the set are then linked among themselves, and the node is alone.
pub list_del-Unlinked :
    (P : ℕ → Type 0) (s : Store) (node : ℕ)
    → IsLinked P s
    → P node
    → ((q : ℕ) → P q → q ≢ 0)
    → Returns (Unlinked P node) (list_del s node)
list_del-Unlinked P s node v h some_node = (
  deleted s node,
  list_del-ok P s v node h some_node,
  record {
    others = record {
      closed_next = λ q (m, ne). (left_next P s v node h q m ne).0;
      closed_prev = λ q (m, ne). (left_prev P s v node h q m ne).0;
      back_prev = λ q (m, ne). (left_next P s v node h q m ne).1;
      back_next = λ q (m, ne). (left_prev P s v node h q m ne).1;
    };
    own_next = alone_next P s v node h;
    own_prev = alone_prev P s v node h;
  },
)
