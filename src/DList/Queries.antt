-- ===== src/DList/Queries.antt =====
-- The questions that kernel/list/list.c answers about a list.

use jat_os.Prelude.{
  ℕ, ◌+◌, ◌^◌, ◌<◌, ◌≡◌, ◌≢◌, sym, ap, ◌∙◌, arith, List, [], ◌∷◌, ◌==◌, Bool, done, length,
}
use jat_os.DList.{Links, tail, elem_find, list_empty, list_traversal, list_len}
use jat_os.DList.Distinct.{Fresh-left, Fresh-middle}
use jat_os.DList.Seg.{IsList}
use jat_os.DList.Walk.{
  list_len_loop-length, holds, elem_find_loop-holds, first, list_traversal_loop-first, next_ne_null,
}

list_empty_lem :
    (h : Links) (l : ℕ) (xs : List ℕ) → IsList h l xs → list_empty h l ≡ (length xs == 0)
unfolding list_empty
list_empty_lem h l [] is = let e = is.chain.0 in let ends = is.ends in rw e (ground arith)
list_empty_lem h l (x ∷ xs) is =
    let e = is.chain.0 in
    let ne = next_ne_null h x xs (tail l) is.chain.2 is.proper.1.1 in rw e (ground arith)

list_traversal_lem :
    (h : Links) (l : ℕ) (xs : List ℕ) (func : ℕ → Bool) (fuel : ℕ)
    → IsList h l xs
    → length xs < fuel
    → list_traversal fuel h l func ≡ done (first func xs)
unfolding list_traversal
list_traversal_lem h l [] func fuel is enough = rw (list_empty_lem h l [] is)
list_traversal_lem h l (x ∷ xs) func fuel is enough = ground (
  arith,
  list_empty_lem h l (x ∷ xs) is,
  list_traversal_loop-first h fuel l (x ∷ xs) (tail l) func is.chain is.ends is.proper.1 enough,
)

-- On fuel above its length plus one, for a list of fewer than 2^32 nodes, list_len counts the nodes,
-- list_empty tells whether there are none, list_traversal finds the first node that the callback
-- accepts or returns NULL, and elem_find tells whether a node other than the tail is in the list.
pub list_queries :
    (h : Links) (l obj : ℕ) (xs : List ℕ) (func : ℕ → Bool) (fuel : ℕ)
    → IsList h l xs
    → obj ≢ tail l
    → length xs + 1 < fuel
    → length xs < 2 ^ 32
    → (list_len fuel h l ≡ done (length xs))
      × (list_empty h l ≡ (length xs == 0))
      × (list_traversal fuel h l func ≡ done (first func xs))
      × (elem_find fuel h l obj ≡ done (holds obj xs))
list_queries h l obj xs func fuel is ne enough small =
    let end_apart = Fresh-middle (tail l) (l ∷ xs) [] is.distinct in
    let fresh_end = Fresh-left (tail l) xs [] end_apart.1 in
    let zero_add : 0 + length xs ≡ length xs = omega arith in
    (
      unfold list_len in
          list_len_loop-length h fuel l xs (tail l) 0 is.chain fresh_end (omega arith) (omega arith)
          ∙ ap done zero_add,
      list_empty_lem h l xs is,
      list_traversal_lem h l xs func fuel is (omega arith),
      unfold elem_find in
          elem_find_loop-holds h fuel l xs (tail l) obj is.chain is.ends is.proper.1
            (λ e. ne (sym e)) (omega arith),
    )
