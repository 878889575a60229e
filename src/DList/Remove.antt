-- ===== src/DList/Remove.antt =====
-- Taking a node out of a chain.
use jat_os.Prelude.{ℕ, ◌≡◌, ◌≢◌, ◌∙◌, arith, List, [], ◌∷◌, ◌++◌, ◌==◌, if◌then◌else◌}
use jat_os.DList.{Links, null, list_remove}
use jat_os.DList.Distinct.{Fresh, Distinct, Fresh-left}
use jat_os.DList.Seg.{Seg, Seg-Keeps, next-ne, ne_of_Fresh}

module _ (h : Links) (x : ℕ) (np : h.prev x ≢ null) (nn : h.next x ≢ null)
    (own : h.prev x ≢ x) where
  pub next-remove :
      (a : ℕ)
      → (list_remove h x).next a
        ≡ (if x == a then null else if h.prev x == a then h.next x else h.next a)
  unfolding list_remove
  next-remove a = ground arith

  pub prev-remove :
      (a : ℕ)
      → (list_remove h x).prev a
        ≡ (if x == a then null else if h.next x == a then h.prev x else h.prev a)
  unfolding list_remove
  prev-remove a = ground arith

  -- A node in front of `x` that is not next to it, and one behind.
  before :
      (a p : ℕ) (xs ys : List ℕ) (r : ℕ)
      → Seg h p (xs ++ x ∷ ys) r
      → Fresh a (p ∷ (xs ++ x ∷ ys))
      → (a ≢ h.prev x) × (a ≢ x)
  before a p [] ys r s f = ((λ e. f.0 (e ∙ s.1)), f.1.0)
  before a p (w ∷ ws) ys r s f = before a w ws ys r s.2 f.1

  behind :
      (a p : ℕ) (xs ys : List ℕ) (r : ℕ)
      → Seg h p (xs ++ x ∷ ys) r
      → Fresh a ((xs ++ x ∷ ys) ++ r ∷ [])
      → (a ≢ h.next x) × (a ≢ x)
  behind a p [] ys r s f = (next-ne h a x ys r s.2 f.1, f.0)
  behind a p (w ∷ ws) ys r s f = behind a w ws ys r s.2 f.1

  pub Seg-remove :
      (p : ℕ) (xs ys : List ℕ) (r : ℕ)
      → Seg h p (xs ++ x ∷ ys) r
      → Distinct (p ∷ ((xs ++ x ∷ ys) ++ r ∷ []))
      → Seg (list_remove h x) p (xs ++ ys) r
  Seg-remove p [] [] r s d = (ground (arith, next-remove p), ground (arith, prev-remove r))
  Seg-remove p [] (y ∷ ys) r s d = (
    ground (arith, next-remove p),
    ground (arith, prev-remove y),
    Seg-Keeps h _ y ys r
        (record {
          next_same = λ a n. ground (
            arith,
            next-remove a,
            ne_of_Fresh a x (y ∷ ys) n (Fresh-left x (y ∷ ys) (r ∷ []) d.1.0),
            ne_of_Fresh a p (y ∷ ys) n (Fresh-left p (y ∷ ys) (r ∷ []) d.0.1),
          );
          prev_same = λ a n. ground (
            arith,
            prev-remove a,
            ne_of_Fresh a x (ys ++ r ∷ []) n d.1.0.1,
            ne_of_Fresh a y (ys ++ r ∷ []) n d.1.1.0,
          );
        })
        s.2.2,
  )
  Seg-remove p (z ∷ zs) ys r s d =
      let out_p = Fresh-left p (z ∷ (zs ++ x ∷ ys)) (r ∷ []) d.0 in
      (
        ground (arith, next-remove p, before p z zs ys r s.2 out_p),
        ground (arith, prev-remove z, behind z z zs ys r s.2 d.1.0),
        Seg-remove z zs ys r s.2 d.1,
      )
