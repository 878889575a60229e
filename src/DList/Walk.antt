-- ===== src/DList/Walk.antt =====
-- The loops of list.c that follow `next` along a chain.
use jat_os.Prelude.{
  ℕ, zero, suc, ◌+◌, ◌^◌, ◌<◌, ◌≡◌, ◌≢◌, sym, ◌∙◌, arith, List, [], ◌∷◌, ◌++◌, ◌==◌, if◌then◌else◌,
  Bool, true, false, done, length,
}
use jat_os.DList.{Links, null, list_len_loop, elem_find_loop, list_traversal_loop}
use jat_os.DList.Distinct.{Fresh}
use jat_os.DList.Seg.{Seg}

-- Whether a node is one of a list.
abbrev pub holds : ℕ → List ℕ → Bool
holds a [] = false
holds a (x ∷ xs) = if x == a then true else holds a xs

-- The first node that the callback accepts, or NULL.
abbrev pub first : (ℕ → Bool) → List ℕ → ℕ
first func [] = null
first func (x ∷ xs) = if func x then x else first func xs

module _ (h : Links) where
  pub list_len_loop-length :
      (fuel p : ℕ) (xs : List ℕ) (r n : ℕ)
      → Seg h p xs r
      → Fresh r xs
      → length xs < fuel
      → n + length xs < 2 ^ 32
      → list_len_loop fuel h r (h.next p) n ≡ done (n + length xs)
  unfolding list_len_loop
  list_len_loop-length zero p xs r n s f enough small = absurd (omega arith)
  list_len_loop-length (suc fuel) p [] r n s f enough small = rw s.0 (ground arith)
  list_len_loop-length (suc fuel) p (x ∷ xs) r n s f enough small =
      rw s.0 (
        ground
          (arith, list_len_loop-length fuel x xs r (n + 1) s.2 f.1 (omega arith) (omega arith)))

  pub elem_find_loop-holds :
      (fuel p : ℕ) (xs : List ℕ) (r obj : ℕ)
      → Seg h p xs r
      → h.next r ≡ null
      → Fresh null (xs ++ r ∷ [])
      → r ≢ obj
      → suc (length xs) < fuel
      → elem_find_loop fuel h (h.next p) obj ≡ done (holds obj xs)
  unfolding elem_find_loop
  elem_find_loop-holds zero p xs r obj s end proper ne enough = absurd (omega arith)
  elem_find_loop-holds (suc zero) p xs r obj s end proper ne enough = absurd (omega arith)
  elem_find_loop-holds (suc (suc fuel)) p [] r obj s end proper ne enough = rw s.0 (ground arith)
  elem_find_loop-holds (suc (suc fuel)) p (x ∷ xs) r obj s end proper ne enough =
      rw s.0 (
        ground
          (arith, elem_find_loop-holds (suc fuel) x xs r obj s.2 end proper.1 ne (omega arith)))

  pub next_ne_null :
      (x : ℕ) (xs : List ℕ) (r : ℕ) → Seg h x xs r → Fresh null (xs ++ r ∷ []) → h.next x ≢ null
  next_ne_null x [] r s f e = f.0 (sym e ∙ s.0)
  next_ne_null x (y ∷ ys) r s f e = f.0 (sym e ∙ s.0)

  pub list_traversal_loop-first :
      (fuel p : ℕ) (xs : List ℕ) (r : ℕ) (func : ℕ → Bool)
      → Seg h p xs r
      → h.next r ≡ null
      → Fresh null (xs ++ r ∷ [])
      → length xs < fuel
      → list_traversal_loop fuel h func (h.next p) ≡ done (first func xs)
  unfolding list_traversal_loop
  list_traversal_loop-first zero p xs r func s end proper enough = absurd (omega arith)
  list_traversal_loop-first (suc fuel) p [] r func s end proper enough = rw s.0 (ground arith)
  list_traversal_loop-first (suc fuel) p (x ∷ xs) r func s end proper enough = rw s.0 (
      ground (
        arith,
        next_ne_null x xs r s.2 proper.1,
        list_traversal_loop-first fuel x xs r func s.2 end proper.1 (omega arith),
      ))
