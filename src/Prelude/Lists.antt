-- ===== src/Prelude/Lists.antt =====
-- Lists measured and indexed by native numbers, under the library's names.
use Prim.Native.Nat.{ℕ, zero, suc, ◌+◌, ◌-◌, ◌≤◌, ◌<◌}
use mathlib.Core.Path.{◌≡◌, refl, ap, sym, ◌∙◌}
use mathlib.Core.Logic.{◌≢◌, ◌⊎◌, inl, inr}
use mathlib.Core.List.{List, [], ◌∷◌, ◌++◌}
use native.Mathlib.Omega.{arith}

module _ {ℓ} {A : Type ℓ} where
  abbrev pub length : List A → ℕ
  length [] = 0
  length (x ∷ xs) = suc (length xs)

  abbrev pub get_or : List A → ℕ → A → A
  get_or [] i d = d
  get_or (x ∷ xs) zero d = x
  get_or (x ∷ xs) (suc i) d = get_or xs i d

  -- A write out of bounds changes nothing.
  abbrev pub set : List A → ℕ → A → List A
  set [] i v = []
  set (x ∷ xs) zero v = v ∷ xs
  set (x ∷ xs) (suc i) v = x ∷ set xs i v

  abbrev pub take : ℕ → List A → List A
  take zero xs = []
  take (suc n) [] = []
  take (suc n) (x ∷ xs) = x ∷ take n xs

  abbrev pub drop : ℕ → List A → List A
  drop zero xs = xs
  drop (suc n) [] = []
  drop (suc n) (x ∷ xs) = drop n xs

  pub List-cases : (xs : List A) → (xs ≡ []) ⊎ ((x : A) × (rest : List A) × (xs ≡ x ∷ rest))
  List-cases [] = inl refl
  List-cases (x ∷ xs) = inr (x, xs, refl)

  pub take-nil : (n : ℕ) → take n [] ≡ []
  take-nil zero = refl
  take-nil (suc n) = refl

  pub take-all : (xs : List A) → take (length xs) xs ≡ xs
  take-all [] = refl
  take-all (x ∷ xs) = ap (λ t. x ∷ t) (take-all xs)

  pub take-take : (m n : ℕ) (xs : List A) → m ≤ n → take m (take n xs) ≡ take m xs
  take-take zero n xs h = refl
  take-take (suc m) zero xs h = absurd (omega arith)
  take-take (suc m) (suc n) [] h = refl
  take-take (suc m) (suc n) (x ∷ xs) h = ap (λ t. x ∷ t) (take-take m n xs (omega arith))

  pub length-take : (n : ℕ) (xs : List A) → n ≤ length xs → length (take n xs) ≡ n
  length-take zero xs h = refl
  length-take (suc n) [] h = absurd (omega arith)
  length-take (suc n) (x ∷ xs) h = ap suc (length-take n xs (omega arith))

  pub append-snoc : (xs : List A) (y : A) (zs : List A) → (xs ++ y ∷ []) ++ zs ≡ xs ++ y ∷ zs
  append-snoc [] y zs = refl
  append-snoc (x ∷ xs) y zs = ap (λ t. x ∷ t) (append-snoc xs y zs)

  pub append-nil : (xs : List A) → xs ++ [] ≡ xs
  append-nil [] = refl
  append-nil (x ∷ xs) = ap (λ t. x ∷ t) (append-nil xs)

  pub length-append : (xs ys : List A) → length (xs ++ ys) ≡ length xs + length ys
  length-append [] ys = omega arith
  length-append (x ∷ xs) ys = omega (arith, length-append xs ys)

  pub length-set : (xs : List A) (i : ℕ) (v : A) → length (set xs i v) ≡ length xs
  length-set [] i v = refl
  length-set (x ∷ xs) zero v = refl
  length-set (x ∷ xs) (suc i) v = ap suc (length-set xs i v)

  pub get_or-set_self :
      (xs : List A) (i : ℕ) (v d : A) → i < length xs → get_or (set xs i v) i d ≡ v
  get_or-set_self [] i v d h = absurd (omega arith)
  get_or-set_self (x ∷ xs) zero v d h = refl
  get_or-set_self (x ∷ xs) (suc i) v d h = get_or-set_self xs i v d (omega arith)

  pub get_or-set_ne :
      (xs : List A) (i j : ℕ) (v d : A) → i ≢ j → get_or (set xs i v) j d ≡ get_or xs j d
  get_or-set_ne [] i j v d h = refl
  get_or-set_ne (x ∷ xs) zero zero v d h = absurd (h refl)
  get_or-set_ne (x ∷ xs) zero (suc j) v d h = refl
  get_or-set_ne (x ∷ xs) (suc i) zero v d h = refl
  get_or-set_ne (x ∷ xs) (suc i) (suc j) v d h = get_or-set_ne xs i j v d (λ e. h (ap suc e))

  pub take-append : (n : ℕ) (xs ys : List A) → n ≤ length xs → take n (xs ++ ys) ≡ take n xs
  take-append zero xs ys le = refl
  take-append (suc n) [] ys le = absurd (omega arith)
  take-append (suc n) (x ∷ xs) ys le = ap (λ t. x ∷ t) (take-append n xs ys (omega arith))

  pub drop-append : (n : ℕ) (xs ys : List A) → n ≤ length xs → drop n (xs ++ ys) ≡ drop n xs ++ ys
  drop-append zero xs ys le = refl
  drop-append (suc n) [] ys le = absurd (omega arith)
  drop-append (suc n) (x ∷ xs) ys le = drop-append n xs ys (omega arith)

  pub drop-all : (n : ℕ) (xs : List A) → length xs ≤ n → drop n xs ≡ []
  drop-all zero [] le = refl
  drop-all zero (x ∷ xs) le = absurd (omega arith)
  drop-all (suc n) [] le = refl
  drop-all (suc n) (x ∷ xs) le = drop-all n xs (omega arith)

  pub length-drop : (n : ℕ) (xs : List A) → length (drop n xs) ≡ length xs - n
  length-drop zero xs = omega arith
  length-drop (suc n) [] = omega arith
  length-drop (suc n) (x ∷ xs) = length-drop n xs ∙ omega arith

  pub drop-same : (m n : ℕ) (xs : List A) → m ≡ n → drop m xs ≡ drop n xs
  drop-same m n xs e = ap (λ (t : ℕ). drop t xs) e

  pub drop-drop : (m n : ℕ) (xs : List A) → drop m (drop n xs) ≡ drop (n + m) xs
  drop-drop m zero xs = drop-same m (zero + m) xs (omega arith)
  drop-drop zero (suc n) [] = sym (drop-all (suc n + zero) [] (omega arith))
  drop-drop (suc m) (suc n) [] = sym (drop-all (suc n + suc m) [] (omega arith))
  drop-drop m (suc n) (x ∷ xs) =
      drop-drop m n xs ∙ drop-same (suc (n + m)) (suc n + m) (x ∷ xs) (omega arith)

  pub take-exact : (n : ℕ) (xs ys : List A) → length xs ≡ n → take n (xs ++ ys) ≡ xs
  take-exact zero [] ys e = refl
  take-exact zero (x ∷ xs) ys e = absurd (omega arith)
  take-exact (suc n) [] ys e = absurd (omega arith)
  take-exact (suc n) (x ∷ xs) ys e = ap (λ t. x ∷ t) (take-exact n xs ys (omega arith))

  pub drop-exact : (n : ℕ) (xs ys : List A) → length xs ≡ n → drop n (xs ++ ys) ≡ ys
  drop-exact zero [] ys e = refl
  drop-exact zero (x ∷ xs) ys e = absurd (omega arith)
  drop-exact (suc n) [] ys e = absurd (omega arith)
  drop-exact (suc n) (x ∷ xs) ys e = drop-exact n xs ys (omega arith)
