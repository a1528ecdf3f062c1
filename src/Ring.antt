-- ===== src/Ring.antt =====
-- include/list.h: the doubly-linked lists that every other part embeds. A node is its number, its
-- address, 0 for `NULL`; the store maps it to its two pointers, and each call is the writes of the
-- code in their order, so that nodes may alias.
pub mod Members
mod Tests
use cute.Base.{
  ℕ, Bool, true, false, not, update, ◌==◌, if◌then◌else◌, Outcome, ok, panic, ◌>>=◌, ◌>>◌, assert,
}

-- `struct list_node`
pub record ListNode : Type 0 where
  pub next : ℕ
  pub prev : ℕ

abbrev pub Store : Type 0
Store = ℕ → ListNode

-- `n->next = v` and `n->prev = v`
pub set_next : Store → ℕ → ℕ → Store
set_next s n v = update s n (record (s n) { next = v })

pub set_prev : Store → ℕ → ℕ → Store
set_prev s n v = update s n (record (s n) { prev = v })

pub list_init : Store → ℕ → Store
unfolding set_next set_prev
list_init s node = set_prev (set_next s node node) node node

pub list_empty : Store → ℕ → Outcome Bool
list_empty s node =
    if (s node).next == node
    then (assert ((s node).prev == node) >> ok true)
    else (assert (not ((s node).prev == node)) >> ok false)

-- Each line is one statement of the code.
pub list_add : Store → ℕ → ℕ → Store
unfolding set_next set_prev
list_add s node new =
    let s1 = set_next s new (s node).next in
    let s2 = set_prev s1 (s1 new).next new in let s3 = set_next s2 node new in set_prev s3 new node

pub list_add_tail : Store → ℕ → ℕ → Store
unfolding set_next set_prev
list_add_tail s node new =
    let s1 = set_prev s new (s node).prev in
    let s2 = set_next s1 (s1 new).prev new in let s3 = set_prev s2 node new in set_next s3 new node

pub list_del : Store → ℕ → Outcome Store
unfolding set_next set_prev
list_del s node = do
  let prevn = (s node).prev
  let nextn = (s node).next
  assert (not (prevn == 0))
  assert (not (nextn == 0))
  assert ((s prevn).next == node)
  assert ((s nextn).prev == node)
  let s1 = set_next s prevn (s node).next
  let s2 = set_prev s1 nextn (s1 node).prev
  ok (set_prev (set_next s2 node node) node node)
