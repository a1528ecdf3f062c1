-- ===== src/Hash.antt =====
-- lib/hash.c: the hash table. An element's identifier is the address of what was inserted, and a
-- bucket is the list of the identifiers that its ring of `struct hash_elem` holds, in order. The
-- table of buckets and the elements come from kmalloc. `hash_remove` is not modelled: it takes the
-- identifier for a list element.
pub mod Find
mod Tests
use cute.Base.{
  ℕ, zero, suc, ◌*◌, ◌%◌, ◌^◌, ltb, leb, Bool, not, List, [], ◌∷◌, update, ◌==◌, if◌then◌else◌,
  Outcome, ok, panic, ◌>>=◌, ◌>>◌, assert,
}

abbrev pub null : ℕ
null = 0

-- `struct hash`
pub record HashTable : Type 0 where
  pub len : ℕ
  pub nodes_array : ℕ → List ℕ

-- `list_init` of each bucket, of 16 bytes. The size of the buckets goes to kmalloc as an `int`, of
-- which it refuses 0, negative ones and those above a page.
unfoldable pub hash_new : ℕ → Outcome HashTable
hash_new len = do
  let size = len * 16 % 2 ^ 32
  assert (ltb 0 size)
  assert (leb size 4096)
  ok (record { len = len; nodes_array = λ i. [] })

-- The loop over a bucket: the identifier, or `NULL`.
pub find_in : List ℕ → ℕ → ℕ
find_in [] elem_id = null
find_in (id ∷ rest) elem_id =
    let later = find_in rest elem_id in if id == elem_id then id else later

-- A division by a length of 0 is an exception, which stops the kernel.
pub hash_find_elem : HashTable → ℕ → Outcome ℕ
hash_find_elem hash elem_id = do
  assert (not (hash.len == 0))
  ok (find_in (hash.nodes_array (elem_id % hash.len)) elem_id)

pub hash_find : HashTable → ℕ → Outcome ℕ
unfolding hash_find_elem
hash_find hash elem_id = hash_find_elem hash elem_id

-- The new element stands first in its bucket.
abbrev pub link_elem : HashTable → ℕ → HashTable
link_elem hash elem =
    let idx = elem % hash.len in
    record hash { nodes_array = update hash.nodes_array idx (elem ∷ hash.nodes_array idx) }

pub hash_insert : HashTable → ℕ → Outcome (HashTable × ℕ)
hash_insert hash elem = do
  found ← hash_find_elem hash elem
  if not (found == null) then panic else ok (link_elem hash elem, elem)
