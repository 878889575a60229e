-- ===== src/Kernel/Queue.antt =====
-- Queues of threads: membership, as `elem_find` tests it, and removal, as `list_remove` does it.
use jat_os.Prelude.{
  ℕ, ◌+◌, ◌-◌, ◌≡◌, refl, Bool, true, false, List, [], ◌∷◌, ◌++◌, ◌==◌, if◌then◌else◌, arith,
}

unfoldable pub count : ℕ → List ℕ → ℕ
count t [] = 0
count t (u ∷ us) = (if u == t then 1 else 0) + count t us

-- `elem_find`
unfoldable pub member : ℕ → List ℕ → Bool
member t [] = false
member t (u ∷ us) = if u == t then true else member t us

-- `list_remove` on a queue that holds the thread at most once
unfoldable pub remove : ℕ → List ℕ → List ℕ
remove t [] = []
remove t (u ∷ us) = if u == t then us else u ∷ remove t us

pub count-append : (t : ℕ) (us vs : List ℕ) → count t (us ++ vs) ≡ count t us + count t vs
unfolding count
count-append t [] vs = omega arith
count-append t (u ∷ us) vs = ground (arith, count-append t us vs)

pub member-count : (t : ℕ) (us : List ℕ) → member t us ≡ (if count t us == 0 then false else true)
unfolding count member
member-count t [] = refl
member-count t (u ∷ us) = ground (arith, member-count t us)

pub count-remove :
    (t u : ℕ) (us : List ℕ) → count t (remove u us) ≡ count t us - (if u == t then 1 else 0)
unfolding count remove
count-remove t u [] = ground arith
count-remove t u (v ∷ us) = ground (arith, count-remove t u us)

pub remove-absent : (t : ℕ) (us : List ℕ) → count t us ≡ 0 → remove t us ≡ us
unfolding count remove
remove-absent t [] h = refl
remove-absent t (u ∷ us) h = ground (arith, remove-absent t us)
