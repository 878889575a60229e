-- ===== src/Sha256/Blocks.antt =====
-- The blocks of a message in kernel/crypto/sha256.c.
use jat_os.Prelude.{
  ℕ, zero, suc, ◌+◌, ◌*◌, ◌≤◌, ◌≡◌, refl, ap, ◌∙◌, List, ◌∷◌, ◌++◌, take, drop, length, arith,
  take-append, drop-append, length-drop, drop-same, drop-drop,
}
use jat_os.Sha256.{State, sha256_transform, transform_blocks, zero_bytes}

pub length-zero_bytes : (n : ℕ) → length (zero_bytes n) ≡ n
length-zero_bytes zero = refl
length-zero_bytes (suc n) = ap suc (length-zero_bytes n)

pub zero_bytes-add : (m n : ℕ) → zero_bytes (m + n) ≡ zero_bytes m ++ zero_bytes n
zero_bytes-add zero n = let e : 0 + n ≡ n = omega arith in ap zero_bytes e
zero_bytes-add (suc m) n =
    let e : suc m + n ≡ suc (m + n) = omega arith in
    ap zero_bytes e ∙ ap (λ t. 0 ∷ t) (zero_bytes-add m n)

-- Whole blocks do not depend on what is behind them.
pub transform_blocks-append :
    (n : ℕ) (s : State) (xs ys : List ℕ)
    → n * 64 ≤ length xs
    → transform_blocks n s (xs ++ ys) ≡ transform_blocks n s xs
unfolding transform_blocks
transform_blocks-append zero s xs ys le = refl
transform_blocks-append (suc n) s xs ys le =
    ap (λ (t : List ℕ). transform_blocks n (sha256_transform s t) (drop 64 (xs ++ ys)))
      (take-append 64 xs ys (omega arith))
    ∙ ap (λ (t : List ℕ). transform_blocks n (sha256_transform s (take 64 xs)) t)
        (drop-append 64 xs ys (omega arith))
    ∙ transform_blocks-append n (sha256_transform s (take 64 xs)) (drop 64 xs) ys
        (omega (arith, length-drop 64 xs))

-- First some blocks, then the others.
pub transform_blocks-add :
    (m n : ℕ) (s : State) (xs : List ℕ)
    → transform_blocks (m + n) s xs
      ≡ transform_blocks n (transform_blocks m s xs) (drop (m * 64) xs)
unfolding transform_blocks
transform_blocks-add zero n s xs =
    let e : 0 + n ≡ n = omega arith in ap (λ (t : ℕ). transform_blocks t s xs) e
transform_blocks-add (suc m) n s xs =
    let e : suc m + n ≡ suc (m + n) = omega arith in
    let at_end : drop (m * 64) (drop 64 xs) ≡ drop (suc m * 64) xs =
      drop-drop (m * 64) 64 xs ∙ drop-same (64 + m * 64) (suc m * 64) xs (omega arith) in
    ap (λ (t : ℕ). transform_blocks t s xs) e
    ∙ transform_blocks-add m n (sha256_transform s (take 64 xs)) (drop 64 xs)
    ∙ ap
        (λ (t : List ℕ).
          transform_blocks n (transform_blocks m (sha256_transform s (take 64 xs)) (drop 64 xs)) t)
        at_end
