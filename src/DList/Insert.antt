-- ===== src/DList/Insert.antt =====
-- Inserting a node into a chain.
use jat_os.Prelude.{ℕ, ◌≡◌, ◌≢◌, arith, List, [], ◌∷◌, ◌++◌, ◌==◌, if◌then◌else◌}
use jat_os.DList.{Links, list_insert_before, list_push}
use jat_os.DList.Distinct.{Fresh, Distinct, Fresh-left, Fresh-right}
use jat_os.DList.Seg.{Seg, Seg-Keeps, prev-ne, ne_of_Fresh}

module _ (h : Links) (q x : ℕ) (apart : x ≢ q) where
  pub next-insert :
      (a : ℕ)
      → (list_insert_before h q x).next a
        ≡ (if h.prev q == a then x else if x == a then q else h.next a)
  unfolding list_insert_before
  next-insert a = ground arith

  pub prev-insert :
      (a : ℕ)
      → (list_insert_before h q x).prev a
        ≡ (if q == a then x else if x == a then h.prev q else h.prev a)
  unfolding list_insert_before
  prev-insert a = ground arith

  -- The new node goes to the end of the chain that leads to `q`.
  pub Seg-snoc :
      (p : ℕ) (xs : List ℕ)
      → Seg h p xs q
      → Fresh x (p ∷ xs)
      → Distinct (p ∷ (xs ++ q ∷ []))
      → Seg (list_insert_before h q x) p (xs ++ x ∷ []) q
  Seg-snoc p [] s f d = (
    ground (arith, next-insert p),
    ground (arith, prev-insert x),
    (ground (arith, next-insert x), ground (arith, prev-insert q)),
  )
  Seg-snoc p (y ∷ ys) s f d = (
    ground (arith, next-insert p, prev-ne h p y ys q s.2 (Fresh-left p (y ∷ ys) (q ∷ []) d.0)),
    ground (arith, prev-insert y, Fresh-right y ys (q ∷ []) d.1.0),
    Seg-snoc y ys s.2 f.1 d.1,
  )

-- The new node goes to the start of the chain.
pub Seg-push :
    (h : Links) (l x : ℕ) (xs : List ℕ) (r : ℕ)
    → Seg h l xs r
    → Fresh x (l ∷ (xs ++ r ∷ []))
    → Distinct (l ∷ (xs ++ r ∷ []))
    → Seg (list_push h l x) l (x ∷ xs) r
unfolding list_push
Seg-push h l x [] r s f d =
    let q = h.next l in
    let apart : x ≢ q = ground arith in
    (
      ground (arith, next-insert h q x apart l),
      ground (arith, prev-insert h q x apart x),
      (ground (arith, next-insert h q x apart x), ground (arith, prev-insert h q x apart r)),
    )
Seg-push h l x (y ∷ ys) r s f d =
    let q = h.next l in
    let apart : x ≢ q = ground arith in
    let fresh_x : Fresh x (y ∷ ys) = Fresh-left x (y ∷ ys) (r ∷ []) f.1 in
    let fresh_l : Fresh l (y ∷ ys) = Fresh-left l (y ∷ ys) (r ∷ []) d.0 in
    let back : h.prev q ≡ l = ground arith in
    (
      ground (arith, next-insert h q x apart l),
      ground (arith, prev-insert h q x apart x),
      (
        ground (arith, next-insert h q x apart x),
        ground (arith, prev-insert h q x apart y),
        Seg-Keeps h _ y ys r
            (record {
              next_same = λ a n. ground (
                arith,
                next-insert h q x apart a,
                ne_of_Fresh a x (y ∷ ys) n fresh_x,
                ne_of_Fresh a l (y ∷ ys) n fresh_l,
              );
              prev_same = λ a n. ground (
                arith,
                prev-insert h q x apart a,
                ne_of_Fresh a x (ys ++ r ∷ []) n f.1.1,
                ne_of_Fresh a y (ys ++ r ∷ []) n d.1.0,
              );
            })
            s.2,
      ),
    )
