-- ===== src/Str/Compare.antt =====
-- strcmp of kernel/memop/string.c against an order of texts.
use jat_os.Prelude.{
  ℕ, zero, suc, ◌+◌, ◌^◌, ◌<◌, ◌≡◌, ◌≢◌, ◌↔◌, refl, sym, ap, ◌∙◌, ◌==◌, if◌then◌else◌, done,
  done-injective, arith, List, [], ◌∷◌, length,
}
use native.Mathlib.Decide.{ℕ_discrete}
use jat_os.Str.{Memory, next, order, strcmp_loop, strcmp}
use jat_os.Str.Text.{IsString}

-- The first difference decides, and the end of a text counts as a 0.
unfoldable pub compare_texts : List ℕ → List ℕ → ℕ
compare_texts [] [] = 0
compare_texts [] (y ∷ t) = order 0 y
compare_texts (x ∷ s) [] = order x 0
compare_texts (x ∷ s) (y ∷ t) = if x == y then compare_texts s t else order x y

order_self : (x : ℕ) → order x x ≡ 0
order_self x = ground arith

order_of_strcmp : ℕ → Memory → ℕ × ℕ → ℕ
order_of_strcmp fuel m p = order (m p.0) (m p.1)

pub strcmp_loop_lem :
    (fuel : ℕ) (m : Memory) (a b : ℕ) (s t : List ℕ)
    → IsString m a s
    → IsString m b t
    → a + length s + 1 < 2 ^ 32
    → b + length t + 1 < 2 ^ 32
    → length s < fuel
    → (p : ℕ × ℕ) × (strcmp_loop fuel m a b ≡ done p) × (order (m p.0) (m p.1) ≡ compare_texts s t)
unfolding strcmp_loop compare_texts
strcmp_loop_lem zero m a b s t hs ht fa fb enough = absurd (omega arith)
strcmp_loop_lem (suc fuel) m a b [] [] hs ht fa fb enough = ((a, b), ground arith, ground arith)
strcmp_loop_lem (suc fuel) m a b [] (y ∷ t) hs (ht, ny, rt) fa fb enough =
    ((a, b), ground arith, ground arith)
strcmp_loop_lem (suc fuel) m a b (x ∷ s) [] (hs, nx, rs) ht fa fb enough =
    ((a, b), ground arith, ground arith)
strcmp_loop_lem (suc fuel) m a b (x ∷ s) (y ∷ t) (hs, nx, rs) (ht, ny, rt) fa fb enough =
    elim (ℕ_discrete x y) [
      | yes e ↦
          let na : next a ≡ a + 1 = omega arith in
          let nb : next b ≡ b + 1 = omega arith in
          let (p, run, o) =
            strcmp_loop_lem fuel m (a + 1) (b + 1) s t rs rt (omega arith) (omega arith)
              (omega arith) in
          (p, ground (arith, na, nb, run), ground (arith, o))
      | no ne ↦ ((a, b), ground arith, ground arith)
    ]

-- strcmp of two texts that lie in the address space, neither at NULL, ends with their order: that
-- of the first bytes that differ, as signed characters, or 0.
pub strcmp-compare_texts :
    (fuel : ℕ) (m : Memory) (a b : ℕ) (s t : List ℕ)
    → IsString m a s
    → IsString m b t
    → a ≢ 0
    → b ≢ 0
    → a + length s + 1 < 2 ^ 32
    → b + length t + 1 < 2 ^ 32
    → length s < fuel
    → strcmp fuel m a b ≡ done (compare_texts s t)
unfolding strcmp
strcmp-compare_texts fuel m a b s t hs ht na nb fa fb enough =
    let (p, run, o) = strcmp_loop_lem fuel m a b s t hs ht fa fb enough in ground (arith, run, o)

-- Bytes of a text: in range and not 0.
abbrev pub AreChars : List ℕ → Type 0
AreChars [] = Unit
AreChars (c ∷ s) = (c < 256) × (c ≢ 0) × AreChars s

compare_texts-zero : (s t : List ℕ) → AreChars s → AreChars t → compare_texts s t ≡ 0 → s ≡ t
unfolding compare_texts
compare_texts-zero [] [] hs ht e = refl
compare_texts-zero [] (y ∷ t) hs (hy, ny, rt) e = absurd (ground arith)
compare_texts-zero (x ∷ s) [] (hx, nx, rs) ht e = absurd (ground arith)
compare_texts-zero (x ∷ s) (y ∷ t) (hx, nx, rs) (hy, ny, rt) e = elim (ℕ_discrete x y) [
  | yes p ↦
      let z : compare_texts s t ≡ 0 = ground arith in ground (arith, compare_texts-zero s t rs rt z)
  | no ne ↦ absurd (ground arith)
]

compare_texts_self : (s : List ℕ) → compare_texts s s ≡ 0
unfolding compare_texts
compare_texts_self [] = refl
compare_texts_self (x ∷ s) = ground (arith, compare_texts_self s)

-- strcmp returns 0 exactly when the two texts are the same. Every name lookup of the file system
-- and of the shell tests for this.
pub strcmp-zero :
    (fuel : ℕ) (m : Memory) (a b : ℕ) (s t : List ℕ)
    → IsString m a s
    → IsString m b t
    → AreChars s
    → AreChars t
    → a ≢ 0
    → b ≢ 0
    → a + length s + 1 < 2 ^ 32
    → b + length t + 1 < 2 ^ 32
    → length s < fuel
    → (strcmp fuel m a b ≡ done 0) ↔ (s ≡ t)
strcmp-zero fuel m a b s t hs ht cs ct na nb fa fb enough =
    let e = strcmp-compare_texts fuel m a b s t hs ht na nb fa fb enough in
    (
      λ z. compare_texts-zero s t cs ct (done-injective (sym e ∙ z)),
      λ same. e ∙ ap done (ap (compare_texts s) (sym same) ∙ compare_texts_self s),
    )
