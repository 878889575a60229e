-- ===== src/DList/Distinct.antt =====
-- Nodes that a list does not hold, and lists without repetition.
use jat_os.Prelude.{ℕ, ◌≢◌, sym, List, [], ◌∷◌, ◌++◌}

abbrev pub Fresh : ℕ → List ℕ → Type 0
Fresh a [] = Unit
Fresh a (x ∷ xs) = (a ≢ x) × Fresh a xs

abbrev pub Distinct : List ℕ → Type 0
Distinct [] = Unit
Distinct (x ∷ xs) = Fresh x xs × Distinct xs

pub Fresh-append : (a : ℕ) (xs ys : List ℕ) → Fresh a xs → Fresh a ys → Fresh a (xs ++ ys)
Fresh-append a [] ys f g = g
Fresh-append a (x ∷ xs) ys f g = (f.0, Fresh-append a xs ys f.1 g)

pub Fresh-left : (a : ℕ) (xs ys : List ℕ) → Fresh a (xs ++ ys) → Fresh a xs
Fresh-left a [] ys f = tt
Fresh-left a (x ∷ xs) ys f = (f.0, Fresh-left a xs ys f.1)

pub Fresh-right : (a : ℕ) (xs ys : List ℕ) → Fresh a (xs ++ ys) → Fresh a ys
Fresh-right a [] ys f = f
Fresh-right a (x ∷ xs) ys f = Fresh-right a xs ys f.1

pub Distinct-insert :
    (x : ℕ) (xs ys : List ℕ) → Distinct (xs ++ ys) → Fresh x (xs ++ ys) → Distinct (xs ++ x ∷ ys)
Distinct-insert x [] ys d f = (f, d)
Distinct-insert x (y ∷ xs) ys d f = (
  Fresh-append y xs (x ∷ ys) (Fresh-left y xs ys d.0) ((λ e. f.0 (sym e)), Fresh-right y xs ys d.0),
  Distinct-insert x xs ys d.1 f.1,
)

pub Distinct-remove : (x : ℕ) (xs ys : List ℕ) → Distinct (xs ++ x ∷ ys) → Distinct (xs ++ ys)
Distinct-remove x [] ys d = d.1
Distinct-remove x (y ∷ xs) ys d = (
  Fresh-append y xs ys (Fresh-left y xs (x ∷ ys) d.0) (Fresh-right y xs (x ∷ ys) d.0).1,
  Distinct-remove x xs ys d.1,
)

pub Distinct-right : (xs ys : List ℕ) → Distinct (xs ++ ys) → Distinct ys
Distinct-right [] ys d = d
Distinct-right (x ∷ xs) ys d = Distinct-right xs ys d.1

-- The middle of a list without repetition stands nowhere else in it.
pub Fresh-middle : (x : ℕ) (xs ys : List ℕ) → Distinct (xs ++ x ∷ ys) → Fresh x (xs ++ ys)
Fresh-middle x [] ys d = d.0
Fresh-middle x (y ∷ xs) ys d =
    ((λ e. (Fresh-right y xs (x ∷ ys) d.0).0 (sym e)), Fresh-middle x xs ys d.1)
