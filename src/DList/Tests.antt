-- ===== src/DList/Tests.antt =====
-- A list at 100 built from nothing, and the theorems at it.
use jat_os.Prelude.{ℕ, ◌≡◌, Bool, true, false, done, arith, [], ◌∷◌, ◌==◌}
use jat_os.DList.{
  Links, null, list_init, list_push, list_append, list_remove, list_pop, list_len, list_empty,
  list_traversal, elem_find,
}
use jat_os.DList.Seg.{IsList}
use jat_os.DList.Ops.{
  list_init-IsList, list_push-IsList, list_append-IsList, list_remove-IsList, list_pop-IsList,
  list_pop-empty,
}
use jat_os.DList.Queries.{list_queries}

abbrev nothing : Links
nothing = record { prev = λ _. 0; next = λ _. 0 }

abbrev empty : Links
empty = list_init nothing 100

abbrev one : Links
one = list_push empty 100 7

abbrev two : Links
two = list_append one 100 9

list_init-IsList_example : IsList empty 100 []
list_init-IsList_example = list_init-IsList nothing 100 (omega arith)

list_push-IsList_example : IsList one 100 (7 ∷ [])
list_push-IsList_example =
    list_push-IsList empty 100 7 [] list_init-IsList_example (omega arith) (omega arith)

list_append-IsList_example : IsList two 100 (7 ∷ 9 ∷ [])
list_append-IsList_example =
    list_append-IsList one 100 9 (7 ∷ []) list_push-IsList_example (omega arith) (omega arith)

list_remove-IsList_example :
    IsList (list_remove two 9) 100 (7 ∷ [])
    × ((list_remove two 9).prev 9 ≡ null)
    × ((list_remove two 9).next 9 ≡ null)
list_remove-IsList_example = list_remove-IsList two 100 9 (7 ∷ []) [] list_append-IsList_example

list_pop-IsList_example : ((list_pop two 100).0 ≡ 7) × IsList (list_pop two 100).1 100 (9 ∷ [])
list_pop-IsList_example = list_pop-IsList two 100 7 (9 ∷ []) list_append-IsList_example

list_pop-empty_example : list_pop empty 100 ≡ (108, empty)
list_pop-empty_example = list_pop-empty empty 100 list_init-IsList_example

abbrev is_nine : ℕ → Bool
is_nine a = a == 9

list_queries_example :
    (list_len 4 two 100 ≡ done 2)
    × (list_empty two 100 ≡ false)
    × (list_traversal 4 two 100 is_nine ≡ done 9)
    × (elem_find 4 two 100 9 ≡ done true)
list_queries_example =
    list_queries two 100 9 (7 ∷ 9 ∷ []) is_nine 4 list_append-IsList_example (omega arith)
      (omega arith) (omega arith)
