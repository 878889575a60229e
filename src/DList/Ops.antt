-- ===== src/DList/Ops.antt =====
-- The operations of kernel/list/list.c on the sequence of nodes that a list holds.
use mathlib.Core.List.{append_assoc}
use jat_os.Prelude.{ℕ, ◌≡◌, ◌≢◌, sym, subst, ap, ◌∙◌, arith, List, [], ◌∷◌, ◌++◌}
use jat_os.DList.{Links, null, tail, list_init, list_push, list_append, list_remove, list_pop}
use jat_os.DList.Distinct.{
  Fresh, Distinct, Fresh-append, Fresh-left, Fresh-right, Distinct-insert, Distinct-remove,
  Fresh-middle,
}
use jat_os.DList.Seg.{Seg, nodes, IsList, prev-ne, next-ne}
use jat_os.DList.Insert.{Seg-snoc, Seg-push, next-insert, prev-insert}
use jat_os.DList.Remove.{Seg-remove, next-remove, prev-remove}

-- A list struct that is not at NULL and does not wrap is empty behind list_init.
pub list_init-IsList : (h : Links) (l : ℕ) → l ≢ null → IsList (list_init h l) l []
unfolding list_init
list_init-IsList h l ne = record {
  chain = ground arith;
  starts = ground arith;
  ends = ground arith;
  distinct = ((omega arith, tt), (tt, tt));
  proper = ((λ e. ne (sym e)), (omega arith, tt));
}

prev-next : (h : Links) (p : ℕ) (xs : List ℕ) (r : ℕ) → Seg h p xs r → h.prev (h.next p) ≡ p
prev-next h p [] r s = ap h.prev s.0 ∙ s.1
prev-next h p (x ∷ xs) r s = ap h.prev s.0 ∙ s.1

pub Seg-left :
    (h : Links) (p : ℕ) (xs : List ℕ) (x : ℕ) (ys : List ℕ) (r : ℕ)
    → Seg h p (xs ++ x ∷ ys) r
    → Seg h p xs x × Seg h x ys r
Seg-left h p [] x ys r s = ((s.0, s.1), s.2)
Seg-left h p (y ∷ xs) x ys r s = let (a, b) = Seg-left h y xs x ys r s.2 in ((s.0, s.1, a), b)

module _ (h : Links) (l x : ℕ) (xs : List ℕ) (is : IsList h l xs) (new : Fresh x (nodes l xs))
    (ne : x ≢ null) where
  open is use {chain, starts, ends, distinct, proper}

  ends_apart : (l ≢ tail l) × (x ≢ tail l)
  ends_apart = (omega arith, (Fresh-right x xs (tail l ∷ []) new.1).0)

  -- list_push puts a node that the list does not hold in front of the others.
  pub list_push-IsList : IsList (list_push h l x) l (x ∷ xs)
  list_push-IsList =
      let q = h.next l in
      let apart : x ≢ q = next-ne h x l xs (tail l) chain new.1 in
      record {
        chain = Seg-push h l x xs (tail l) chain new distinct;
        starts =
            unfold list_push in
            ground (
              arith,
              prev-insert h q x apart l,
              next-ne h l l xs (tail l) chain distinct.0,
              new.0,
              starts,
            );
        ends =
            unfold list_push in
            ground (
              arith,
              next-insert h q x apart (tail l),
              prev-next h l xs (tail l) chain,
              ends_apart,
              ends,
            );
        distinct = (((λ e. new.0 (sym e)), distinct.0), (new.1, distinct.1));
        proper = (proper.0, ((λ e. ne (sym e)), proper.1));
      }

  -- list_append puts a node that the list does not hold behind the others.
  pub list_append-IsList : IsList (list_append h l x) l (xs ++ x ∷ [])
  list_append-IsList =
      let r = tail l in
      let apart : x ≢ r = ends_apart.1 in
      let new_xs : Fresh x (l ∷ xs) = (new.0, Fresh-left x xs (r ∷ []) new.1) in
      record {
        chain = unfold list_append in Seg-snoc h r x apart l xs chain new_xs distinct;
        starts =
            unfold list_append in
            ground (arith, prev-insert h r x apart l, ends_apart, new.0, starts);
        ends =
            unfold list_append in
            ground (
              arith,
              next-insert h r x apart r,
              prev-ne h r l xs r chain
                  (Fresh-left r (l ∷ xs) [] (Fresh-middle r (l ∷ xs) [] distinct)),
              ends_apart,
              ends,
            );
        distinct =
            rw (append_assoc xs (x ∷ []) (r ∷ []))
              (Distinct-insert x (l ∷ xs) (r ∷ []) distinct new);
        proper = rw (append_assoc xs (x ∷ []) (r ∷ [])) (
          proper.0,
          Fresh-append null xs (x ∷ r ∷ []) (Fresh-left null xs (r ∷ []) proper.1)
              ((λ e. ne (sym e)), Fresh-right null xs (r ∷ []) proper.1),
        );
      }

module _ (h : Links) (l x : ℕ) (xs ys : List ℕ) (is : IsList h l (xs ++ x ∷ ys)) where
  open is use {chain, starts, ends, distinct, proper}

  abbrev end : ℕ
  end = tail l

  regroup : (xs ++ x ∷ ys) ++ end ∷ [] ≡ xs ++ (x ∷ (ys ++ end ∷ []))
  regroup = append_assoc xs (x ∷ ys) (end ∷ [])

  Distinct-nodes : Distinct ((l ∷ xs) ++ (x ∷ (ys ++ end ∷ [])))
  Distinct-nodes = subst (λ t. Distinct (l ∷ t)) regroup distinct

  Fresh-nodes : Fresh null ((l ∷ xs) ++ (x ∷ (ys ++ end ∷ [])))
  Fresh-nodes = subst (λ t. Fresh null (l ∷ t)) regroup proper

  alone : Fresh x ((l ∷ xs) ++ (ys ++ end ∷ []))
  alone = Fresh-middle x (l ∷ xs) (ys ++ end ∷ []) Distinct-nodes

  -- What `list_remove` needs: the node has neighbours, and is not its own.
  record Linked : Type 0 where
    prev_ne : h.prev x ≢ null
    next_ne : h.next x ≢ null
    own : h.prev x ≢ x
    left_end : (h.next x ≢ l) × (x ≢ l)
    right_end : (h.prev x ≢ end) × (x ≢ end)

  linked : Linked
  linked =
      let (left, right) = Seg-left h l xs x ys end chain in
      let right_nodes = Fresh-right null (l ∷ xs) (x ∷ (ys ++ end ∷ [])) Fresh-nodes in
      let fresh_end = Fresh-middle end ((l ∷ xs) ++ x ∷ ys) [] (distinct) in
      record {
        prev_ne = λ e.
            prev-ne h null l xs x left (Fresh-left null (l ∷ xs) (x ∷ (ys ++ end ∷ [])) Fresh-nodes)
              (sym e);
        next_ne = λ e. next-ne h null x ys end right right_nodes.1 (sym e);
        own = λ e. prev-ne h x l xs x left (Fresh-left x (l ∷ xs) (ys ++ end ∷ []) alone) (sym e);
        left_end = (
          (λ e.
              next-ne h l x ys end right
                (Fresh-right l xs (x ∷ (ys ++ end ∷ [])) Distinct-nodes.0).1 (sym e)),
          alone.0,
        );
        right_end = (
          (λ e.
              prev-ne h end l xs x left
                (Fresh-left end (l ∷ xs) (x ∷ ys)
                  (Fresh-left end ((l ∷ xs) ++ x ∷ ys) [] fresh_end))
                (sym e)),
          (Fresh-right x ys (end ∷ []) (Fresh-right x (l ∷ xs) (ys ++ end ∷ []) alone)).0,
        );
      }

  -- list_remove takes a node out of the list that holds it, keeps the order of the others, and
  -- clears the links of the node.
  pub list_remove-IsList :
      IsList (list_remove h x) l (xs ++ ys)
      × ((list_remove h x).prev x ≡ null)
      × ((list_remove h x).next x ≡ null)
  list_remove-IsList =
      let k = linked in
      let after_next = next-remove h x k.prev_ne k.next_ne k.own in
      let after_prev = prev-remove h x k.prev_ne k.next_ne k.own in
      (
        record {
          chain = Seg-remove h x k.prev_ne k.next_ne k.own l xs ys end chain distinct;
          starts = ground (arith, after_prev l, k.left_end, starts);
          ends = ground (arith, after_next end, k.right_end, ends);
          distinct =
              rw (append_assoc xs ys (end ∷ []))
                (Distinct-remove x (l ∷ xs) (ys ++ end ∷ []) Distinct-nodes);
          proper = rw (append_assoc xs ys (end ∷ [])) (
              Fresh-append null (l ∷ xs) (ys ++ end ∷ [])
                (Fresh-left null (l ∷ xs) (x ∷ (ys ++ end ∷ [])) Fresh-nodes)
                (Fresh-right null (l ∷ xs) (x ∷ (ys ++ end ∷ [])) Fresh-nodes).1);
        },
        ground (arith, after_prev x),
        ground (arith, after_next x),
      )

-- list_pop of a list with a node returns the first node and takes it out.
pub list_pop-IsList :
    (h : Links) (l x : ℕ) (xs : List ℕ)
    → IsList h l (x ∷ xs)
    → ((list_pop h l).0 ≡ x) × IsList (list_pop h l).1 l xs
unfolding list_pop
list_pop-IsList h l x xs is =
    let e : h.next l ≡ x = is.chain.0 in (e, rw e (list_remove-IsList h l x [] xs is).0)

-- list_pop of an empty list changes nothing and returns the address of the tail, not NULL.
pub list_pop-empty : (h : Links) (l : ℕ) → IsList h l [] → list_pop h l ≡ (tail l, h)
unfolding list_pop
list_pop-empty h l is =
    let e : h.next l ≡ tail l = is.chain.0 in
    let ends = is.ends in rw e (unfold list_remove in ground arith)
