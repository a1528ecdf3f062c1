-- ===== src/Hash/Tests.antt =====
-- lib/hash.c with two buckets.
use cute.Base.{◌≡◌, refl, [], ok, arith}
use cute.Hash.{HashTable, hash_new, hash_insert}
use cute.Hash.Find.{Answered, hash_insert-Answered}

abbrev two_buckets : HashTable
two_buckets = record { len = 2; nodes_array = λ i. [] }

hash_new_runs : hash_new 2 ≡ ok two_buckets
unfolding hash_new
hash_new_runs = refl

hash_insert-Answered_example : Answered two_buckets 4096 (hash_insert two_buckets 4096)
hash_insert-Answered_example =
    hash_insert-Answered two_buckets 4096 (omega arith) (λ e. omega arith)
