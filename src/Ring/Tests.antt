-- ===== src/Ring/Tests.antt =====
-- include/list.h with two nodes.
use cute.Base.{ℕ, ◌≡◌, ◌⊎◌, refl, arith, Returns}
use cute.Ring.{Store, list_add, list_del}
use cute.Ring.Members.{IsLinked, Unlinked, list_add-IsLinked, list_del-Unlinked}

-- Every node is alone.
abbrev all_alone : Store
all_alone q = record { next = q; prev = q }

abbrev Head : ℕ → Type 0
Head q = q ≡ 5

Head-IsLinked : IsLinked Head all_alone
Head-IsLinked = record {
  closed_next = λ q h. h;
  closed_prev = λ q h. h;
  back_prev = λ q h. refl;
  back_next = λ q h. refl;
}

list_add-IsLinked_example :
    IsLinked (λ q. (q ≡ 7) ⊎ Head q) (list_add all_alone 5 7)
    × ((list_add all_alone 5 7 5).next ≡ 7)
    × ((list_add all_alone 5 7 7).next ≡ (all_alone 5).next)
list_add-IsLinked_example =
    list_add-IsLinked Head all_alone Head-IsLinked 5 7 refl (λ e. omega arith)

list_del-Unlinked_example : Returns (Unlinked Head 5) (list_del all_alone 5)
list_del-Unlinked_example =
    list_del-Unlinked Head all_alone 5 Head-IsLinked refl (λ q h e. omega arith)
