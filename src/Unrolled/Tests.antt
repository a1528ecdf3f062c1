-- ===== src/Unrolled/Tests.antt =====
-- lib/unrolled_list.c on arrays of two cells.
use cute.Base.{◌≡◌, ◌≢◌, refl, [], ◌∷◌, arith, Returns}
use cute.Unrolled.{
  UnrolledHead, unrolled_insert, unrolled_lookup, unrolled_remove_key, get_node, walk, null,
}
use cute.Unrolled.Cells.{IsValid, count_null}
use cute.Unrolled.Mapping.{Inserted}
use cute.Unrolled.Keys.{Removed, unrolled_insert-Inserted, unrolled_remove_key-Removed}

-- The values 7 under key 0 and 9 under key 2; key 1 is free.
abbrev two_nodes : UnrolledHead
two_nodes = record {
  node =
      record { array = 7 ∷ 0 ∷ []; array_len = 2; array_nrfree = 1; num = 0 }
      ∷ record { array = 9 ∷ 0 ∷ []; array_len = 2; array_nrfree = 1; num = 1 }
      ∷ [];
  array_len = 2;
}

two_nodes-IsValid : IsValid two_nodes
unfolding count_null
two_nodes-IsValid = record {
  len_pos = omega arith;
  len_small = omega arith;
  bound = omega arith;
  nodes = (
    record { cells = refl; len_field = refl; free_field = refl; num_field = refl },
    (record { cells = refl; len_field = refl; free_field = refl; num_field = refl }, tt),
  );
}

key_used : unrolled_lookup two_nodes 2 ≢ null
unfolding unrolled_lookup get_node walk
key_used e = omega arith

key_free : unrolled_lookup two_nodes 1 ≡ null
unfolding unrolled_lookup get_node walk
key_free = refl

unrolled_insert-Inserted_example :
    Returns (λ (h, key). Inserted two_nodes h key 5) (unrolled_insert two_nodes 5)
unrolled_insert-Inserted_example =
    unrolled_insert-Inserted 5 (λ e. omega arith) two_nodes two_nodes-IsValid (omega arith)
      (omega arith)

unrolled_remove_key-Removed_example :
    Returns (λ h. Removed two_nodes h 2) (unrolled_remove_key two_nodes 2)
unrolled_remove_key-Removed_example =
    unrolled_remove_key-Removed two_nodes two_nodes-IsValid 2 key_used
