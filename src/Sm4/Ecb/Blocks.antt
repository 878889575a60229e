-- ===== src/Sm4/Ecb/Blocks.antt =====
-- The loops over the blocks of a buffer in kernel/crypto/sm4.c.
use jat_os.Prelude.{
  ℕ, zero, suc, ◌+◌, ◌-◌, ◌*◌, ◌≤◌, ◌<◌, ◌≡◌, refl, ap, sym, ◌∙◌, true, false, ◌&&◌, leb, ltb,
  Bool-cases, inl, inr, get_or, arith,
}
use native.Mathlib.Decide.{dec_lt}
use jat_os.Sm4.{Quad}
use jat_os.Sm4.RoundTrip.{IsBlock}
use jat_os.Sm4.Ecb.{Buffer, block_at, sixteen, put_block, each_block}

reads_in :
    (d : Buffer) (i k : ℕ) (q : Quad (Quad ℕ))
    → k < 16
    → put_block d i q (i + k) ≡ get_or (sixteen q) k 0
reads_in d i k q lt =
    let inside : (leb i (i + k) && ltb (i + k) (i + 16)) ≡ true = ground arith in
    let at_k : i + k - i ≡ k = omega arith in rw (inside, at_k) refl

reads_out :
    (d : Buffer) (i j : ℕ) (q : Quad (Quad ℕ))
    → (leb i j && ltb j (i + 16)) ≡ false
    → put_block d i q j ≡ d j
reads_out d i j q out = rw out refl

-- Blocks with the same bytes.
block_at-cong :
    (d e : Buffer) (i j : ℕ)
    → ((k : ℕ) → k < 16 → d (i + k) ≡ e (j + k))
    → block_at d i ≡ block_at e j
block_at-cong d e i j h =
    rw
      (
        h 0 (omega arith),
        h 1 (omega arith),
        h 2 (omega arith),
        h 3 (omega arith),
        h 4 (omega arith),
        h 5 (omega arith),
        h 6 (omega arith),
        h 7 (omega arith),
        h 8 (omega arith),
        h 9 (omega arith),
        h 10 (omega arith),
        h 11 (omega arith),
        h 12 (omega arith),
        h 13 (omega arith),
        h 14 (omega arith),
        h 15 (omega arith),
      )
      refl

block_at-put : (d : Buffer) (i : ℕ) (q : Quad (Quad ℕ)) → block_at (put_block d i q) i ≡ q
block_at-put d i q =
    block_at-cong (put_block d i q) (λ k. get_or (sixteen q) k 0) i 0
      (λ k lt. reads_in d i k q lt ∙ ap (λ (t : ℕ). get_or (sixteen q) t 0) (omega arith))

get_block : (d : Buffer) (i k : ℕ) → k < 16 → get_or (sixteen (block_at d i)) k 0 ≡ d (i + k)
get_block d i zero lt = refl
get_block d i (suc zero) lt = refl
get_block d i (suc (suc zero)) lt = refl
get_block d i (suc (suc (suc zero))) lt = refl
get_block d i (suc (suc (suc (suc zero)))) lt = refl
get_block d i (suc (suc (suc (suc (suc zero))))) lt = refl
get_block d i (suc (suc (suc (suc (suc (suc zero)))))) lt = refl
get_block d i (suc (suc (suc (suc (suc (suc (suc zero))))))) lt = refl
get_block d i (suc (suc (suc (suc (suc (suc (suc (suc zero)))))))) lt = refl
get_block d i (suc (suc (suc (suc (suc (suc (suc (suc (suc zero))))))))) lt = refl
get_block d i (suc (suc (suc (suc (suc (suc (suc (suc (suc (suc zero)))))))))) lt = refl
get_block d i (suc (suc (suc (suc (suc (suc (suc (suc (suc (suc (suc zero))))))))))) lt = refl
get_block d i (suc (suc (suc (suc (suc (suc (suc (suc (suc (suc (suc (suc zero)))))))))))) lt = refl
get_block d i (suc (suc (suc (suc (suc (suc (suc (suc (suc (suc (suc (suc (suc zero)))))))))))))
      lt =
    refl
get_block d i
      (suc (suc (suc (suc (suc (suc (suc (suc (suc (suc (suc (suc (suc (suc zero)))))))))))))) lt =
    refl
get_block d i
      (suc (suc (suc (suc (suc (suc (suc (suc (suc (suc (suc (suc (suc (suc (suc zero)))))))))))))))
      lt =
    refl
get_block d i
      (suc
        (suc (suc (suc (suc (suc (suc (suc (suc (suc (suc (suc (suc (suc (suc (suc k))))))))))))))))
      lt =
    absurd (omega arith)

put_inside :
    (a b : Buffer) (i j : ℕ) (q : Quad (Quad ℕ))
    → (leb i j && ltb j (i + 16)) ≡ true
    → put_block a i q j ≡ put_block b i q j
put_inside a b i j q e = rw e refl

-- Bytes written back where they were read.
put_same : (d : Buffer) (i j : ℕ) → put_block d i (block_at d i) j ≡ d j
put_same d i j = elim (Bool-cases (leb i j && ltb j (i + 16))) [
  | inl e ↦
      (let at_k : i + (j - i) ≡ j = ground arith in
        rw e (get_block d i (j - i) (ground arith) ∙ ap d at_k))
  | inr e ↦ rw e refl
]

block_at-IsBlock : (d : Buffer) (i : ℕ) → ((j : ℕ) → i ≤ j → d j < 256) → IsBlock (block_at d i)
block_at-IsBlock d i bytes =
    let at_k : (k : ℕ) → d (i + k) < 256 = λ k. bytes (i + k) (omega arith) in
    record {
      a = record { a = at_k 0; b = at_k 1; c = at_k 2; d = at_k 3 };
      b = record { a = at_k 4; b = at_k 5; c = at_k 6; d = at_k 7 };
      c = record { a = at_k 8; b = at_k 9; c = at_k 10; d = at_k 11 };
      d = record { a = at_k 12; b = at_k 13; c = at_k 14; d = at_k 15 };
    }

put_block-cong :
    (a b : Buffer) (i j : ℕ) (p q : Quad (Quad ℕ))
    → p ≡ q
    → a j ≡ b j
    → put_block a i p j ≡ put_block b i q j
put_block-cong a b i j p q e same = rw (e, same) refl

module _ (f : Quad (Quad ℕ) → Quad (Quad ℕ)) where
  -- The loop from `i` on does not write below.
  pub each_block-below : (n i j : ℕ) (d : Buffer) → j < i → each_block f n i d j ≡ d j
  unfolding each_block
  each_block-below zero i j d lt = refl
  each_block-below (suc n) i j d lt =
      each_block-below n (i + 16) j (put_block d i (f (block_at d i))) (omega arith)
      ∙ reads_out d i j (f (block_at d i)) (ground arith)

  -- Nor past its blocks.
  pub each_block-above : (n i j : ℕ) (d : Buffer) → i + n * 16 ≤ j → each_block f n i d j ≡ d j
  unfolding each_block
  each_block-above zero i j d le = refl
  each_block-above (suc n) i j d le =
      each_block-above n (i + 16) j (put_block d i (f (block_at d i))) (omega arith)
      ∙ reads_out d i j (f (block_at d i)) (ground arith)

  -- And it does not read below.
  each_block-cong :
      (n i j : ℕ) (a b : Buffer)
      → ((j : ℕ) → i ≤ j → a j ≡ b j)
      → i ≤ j
      → each_block f n i a j ≡ each_block f n i b j
  unfolding each_block
  each_block-cong zero i j a b same le = same j le
  each_block-cong (suc n) i j a b same le =
      let same_block : block_at a i ≡ block_at b i =
        block_at-cong a b i i (λ k lt. same (i + k) (omega arith)) in
      let a' = put_block a i (f (block_at a i)) in
      let b' = put_block b i (f (block_at b i)) in
      let next : (t : ℕ) → i ≤ t → a' t ≡ b' t = λ t le'.
        put_block-cong a b i t (f (block_at a i)) (f (block_at b i)) (ap f same_block)
          (same t le') in
      elim (dec_lt j (i + 16)) [
        | yes lt ↦
            each_block-below n (i + 16) j a' lt
            ∙ next j le
            ∙ sym (each_block-below n (i + 16) j b' lt)
        | no ge ↦ each_block-cong n (i + 16) j a' b' (λ t le'. next t (omega arith)) (omega arith)
      ]

-- A loop whose step undoes another's undoes that loop.
pub each_block-undoes :
    (f g : Quad (Quad ℕ) → Quad (Quad ℕ)) (n i j : ℕ) (d : Buffer)
    → ((q : Quad (Quad ℕ)) → IsBlock q → g (f q) ≡ q)
    → ((j : ℕ) → i ≤ j → d j < 256)
    → each_block g n i (each_block f n i d) j ≡ d j
unfolding each_block
each_block-undoes f g zero i j d undo bytes = refl
each_block-undoes f g (suc n) i j d undo bytes =
    let d' = put_block d i (f (block_at d i)) in
    let x = each_block f n (i + 16) d' in
    let low : (t : ℕ) → t < i + 16 → x t ≡ d' t = λ t lt. each_block-below f n (i + 16) t d' lt in
    let read : block_at x i ≡ f (block_at d i) =
      block_at-cong x d' i i (λ k lt. low (i + k) (omega arith))
      ∙ block_at-put d i (f (block_at d i)) in
    let plain : g (block_at x i) ≡ block_at d i =
      ap g read ∙ undo (block_at d i) (block_at-IsBlock d i bytes) in
    let y = put_block x i (g (block_at x i)) in
    elim (dec_lt j (i + 16)) [
      | yes lt ↦
          each_block-below g n (i + 16) j y lt ∙ elim (Bool-cases (leb i j && ltb j (i + 16))) [
            | inl e ↦
                ap (λ (t : Quad (Quad ℕ)). put_block x i t j) plain
                ∙ put_inside x d i j (block_at d i) e
                ∙ put_same d i j
            | inr e ↦
                reads_out x i j (g (block_at x i)) e
                ∙ low j lt
                ∙ reads_out d i j (f (block_at d i)) e
          ]
      | no ge ↦
          each_block-cong g n (i + 16) j y x
            (λ t le. reads_out x i t (g (block_at x i)) (ground arith)) (omega arith)
          ∙ each_block-undoes f g n (i + 16) j d' undo
              (λ t le. ground (arith, bytes t, reads_out d i t (f (block_at d i))))
          ∙ reads_out d i j (f (block_at d i)) (ground arith)
    ]
