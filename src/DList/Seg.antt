-- ===== src/DList/Seg.antt =====
-- Chains of nodes, linked both ways.
use jat_os.Prelude.{ℕ, ◌≡◌, ◌≢◌, refl, ◌∙◌, List, [], ◌∷◌, ◌++◌}
use jat_os.DList.{Links, null, tail}
use jat_os.DList.Distinct.{Fresh, Distinct}

-- From `p` the links lead through `xs` to `q`, and back.
abbrev pub Seg : Links → ℕ → List ℕ → ℕ → Type 0
Seg h p [] q = (h.next p ≡ q) × (h.prev q ≡ p)
Seg h p (x ∷ xs) q = (h.next p ≡ x) × (h.prev x ≡ p) × Seg h x xs q

-- The nodes of a list with its sentinels.
abbrev pub nodes : ℕ → List ℕ → List ℕ
nodes l xs = l ∷ (xs ++ tail l ∷ [])

-- The `struct list` at `l` holds the nodes `xs` in order.
pub record IsList (h : Links) (l : ℕ) (xs : List ℕ) : Type 0 where
  pub chain : Seg h l xs (tail l)
  pub starts : h.prev l ≡ null
  pub ends : h.next (tail l) ≡ null
  pub distinct : Distinct (nodes l xs)
  pub proper : Fresh null (nodes l xs)

-- The nodes before the end of a chain keep `next`, and those behind its start keep `prev`.
pub record Keeps (h h' : Links) (p : ℕ) (xs : List ℕ) (q : ℕ) : Type 0 where
  pub next_same : (a : ℕ) → ¬ Fresh a (p ∷ xs) → h'.next a ≡ h.next a
  pub prev_same : (a : ℕ) → ¬ Fresh a (xs ++ q ∷ []) → h'.prev a ≡ h.prev a

pub Seg-Keeps :
    (h h' : Links) (p : ℕ) (xs : List ℕ) (q : ℕ) → Keeps h h' p xs q → Seg h p xs q → Seg h' p xs q
Seg-Keeps h h' p [] q k s =
    (k.next_same p (λ f. f.0 refl) ∙ s.0, k.prev_same q (λ f. f.0 refl) ∙ s.1)
Seg-Keeps h h' p (x ∷ xs) q k s = (
  k.next_same p (λ f. f.0 refl) ∙ s.0,
  k.prev_same x (λ f. f.0 refl) ∙ s.1,
  Seg-Keeps h h' x xs q
      (record {
        next_same = λ a n. k.next_same a (λ f. n f.1);
        prev_same = λ a n. k.prev_same a (λ f. n f.1);
      })
      s.2,
)

-- The node before `q` is the last of the chain.
pub prev-ne :
    (h : Links) (a p : ℕ) (xs : List ℕ) (q : ℕ) → Seg h p xs q → Fresh a (p ∷ xs) → a ≢ h.prev q
prev-ne h a p [] q s f e = f.0 (e ∙ s.1)
prev-ne h a p (x ∷ xs) q s f e = prev-ne h a x xs q s.2 f.1 e

pub next-ne :
    (h : Links) (a p : ℕ) (xs : List ℕ) (q : ℕ)
    → Seg h p xs q
    → Fresh a (xs ++ q ∷ [])
    → a ≢ h.next p
next-ne h a p [] q s f e = f.0 (e ∙ s.0)
next-ne h a p (x ∷ xs) q s f e = f.0 (e ∙ s.0)

pub ne_of_Fresh : (a b : ℕ) (xs : List ℕ) → ¬ Fresh a xs → Fresh b xs → a ≢ b
ne_of_Fresh a b xs na fb e = na (rw e fb)
