-- ===== src/History/Walk.antt =====
-- history_get_prev and history_get_next of kernel/shell/history.c: a step back and forth.
use jat_os.Prelude.{
  ℕ, ◌≡◌, ◌≢◌, refl, ap, sym, ◌∙◌, false, ◌==◌, List, [], ◌∷◌, ◌++◌, Option, some, subst, arith,
}
use jat_os.DList.{null, tail}
use mathlib.Core.List.{append_assoc}
use jat_os.DList.Distinct.{Fresh, Distinct, Distinct-right, Fresh-left, Fresh-right}
use jat_os.DList.Ops.{Seg-left}
use jat_os.History.{History, history_get_next, history_get_prev}
use jat_os.History.Push.{Holds}

-- The history at an element.
abbrev pub at_node : History → ℕ → History
at_node h x = record h { now_history_elem = x }

module _ (h : History) (ys : List ℕ) (x z : ℕ) (zs : List ℕ)
    (holds : Holds h (ys ++ x ∷ z ∷ zs)) where
  open holds.is_list use {chain, distinct, proper}

  around : (h.links.next x ≡ z) × (h.links.prev z ≡ x)
  around =
      let (before, behind) =
        Seg-left h.links h.history_list ys x (z ∷ zs) (tail h.history_list) chain in
      (behind.0, behind.1)

  inner : (a : ℕ) → Fresh a ((ys ++ x ∷ z ∷ zs) ++ tail h.history_list ∷ []) → (a ≢ x) × (a ≢ z)
  inner a new =
      let mid =
        Fresh-right a ys (x ∷ z ∷ zs)
          (Fresh-left a (ys ++ x ∷ z ∷ zs) (tail h.history_list ∷ []) new) in
      (mid.0, mid.1.0)

  not_end : z ≢ tail h.history_list
  not_end =
      let regroup : (ys ++ x ∷ z ∷ zs) ++ tail h.history_list ∷ []
          ≡ ys ++ x ∷ z ∷ (zs ++ tail h.history_list ∷ []) =
        append_assoc ys (x ∷ z ∷ zs) (tail h.history_list ∷ []) in
      let d =
        Distinct-right ys (x ∷ z ∷ (zs ++ tail h.history_list ∷ []))
          (subst Distinct regroup distinct.1) in
      (Fresh-right z zs (tail h.history_list ∷ []) d.1.0).0

  older : history_get_prev (at_node h x) ≡ (some (h.cmd_line z), at_node h z)
  unfolding history_get_prev
  older =
      let some_node : (x == null) ≡ false = ground (arith, (inner null proper.1).0) in
      let go_on : (z == tail h.history_list) ≡ false = ground (arith, not_end) in
      let next = around.0 in rw (some_node, next, go_on) refl

  newer : history_get_next (at_node h z) ≡ (some (h.cmd_line x), at_node h x)
  unfolding history_get_next
  newer =
      let some_node : (z == null) ≡ false = ground (arith, (inner null proper.1).1) in
      let go_on : (x == h.history_list) ≡ false =
        ground (arith, (inner h.history_list distinct.0).0) in
      let prev = around.1 in rw (some_node, prev, go_on) refl

  -- Where the history stands at a command that is not the oldest, history_get_prev goes to the next
  -- older one and returns it, and history_get_next then comes back and returns the command that the
  -- history stood at.
  pub get_next-get_prev :
      h.now_history_elem ≡ x
      → ((history_get_prev h).0 ≡ some (h.cmd_line z))
        × (history_get_next (history_get_prev h).1 ≡ (some (h.cmd_line x), h))
  get_next-get_prev e =
      let same : at_node h x ≡ h = ap (at_node h) (sym e) in
      let back : history_get_prev h ≡ (some (h.cmd_line z), at_node h z) =
        ap history_get_prev (sym same) ∙ older in
      (
        ap (λ (t : Option (List ℕ) × History). t.0) back,
        ap (λ (t : Option (List ℕ) × History). history_get_next t.1) back
            ∙ newer
            ∙ ap (λ (t : History). (some (h.cmd_line x), t)) same,
      )
