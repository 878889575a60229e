-- ===== src/Bitmap/Run.antt =====
-- The second loop of bitmap_scan (kernel/memop/bitmap.c): the search for a run of free bits.
use jat_os.Prelude.{
  ℕ, zero, suc, ◌+◌, ◌-◌, ◌^◌, ◌≤◌, ◌<◌, ◌≡◌, refl, inl, inr, true, false, ◌==◌, ==_iff, Bool-cases,
  arith,
}
use native.Mathlib.Decide.{dec_lt}
use jat_os.Bitmap.{Bitmap, minus_one, find_run}
use jat_os.Bitmap.Set.{is_free}

abbrev pub FreeRun : Bitmap → ℕ → ℕ → Type 0
FreeRun b start n = (k : ℕ) → k < n → is_free b (start + k) ≡ true

-- No run of `cnt` free bits ends at `end` or before.
abbrev pub NoRun : Bitmap → ℕ → ℕ → Type 0
NoRun b cnt end = (s : ℕ) → s + cnt ≤ end → ¬ FreeRun b s cnt

pub data Search (b : Bitmap) (cnt end : ℕ) (p : ℕ × ℕ) : Type 0 where
  found :
      (r left : ℕ)
      → p ≡ (r, left)
      → r + cnt + left ≡ end
      → FreeRun b r cnt
      → ((s : ℕ) → s < r → ¬ FreeRun b s cnt)
      → Search b cnt end p
  missing : p ≡ (minus_one, 2 ^ 32 - 1) → NoRun b cnt end → Search b cnt end p

taken-ne : (b : Bitmap) (s n i : ℕ) → is_free b i ≡ false → s ≤ i → i < s + n → ¬ FreeRun b s n
taken-ne b s n i h lo hi run =
    let e : s + (i - s) ≡ i = omega arith in
    let f : is_free b (s + (i - s)) ≡ true = run (i - s) (omega arith) in ground arith

FreeRun-extend :
    (b : Bitmap) (start n : ℕ)
    → FreeRun b start n
    → is_free b (start + n) ≡ true
    → FreeRun b start (suc n)
FreeRun-extend b start n run last k lt = elim (Bool-cases (k == n)) [
  | inl e ↦ rw ((==_iff k n).0 e) last
  | inr e ↦ run k (ground arith)
]

-- Before the round at `next_bit` the last `count` bits are free, `cnt` is not reached, and no run
-- starts earlier.
pub record Before (b : Bitmap) (cnt end next_bit count : ℕ) : Type 0 where
  pub small : end < 2 ^ 32
  pub fits : cnt < 2 ^ 32
  pub short : count < cnt
  pub start : ℕ
  pub at_start : start + count ≡ next_bit
  pub run : FreeRun b start count
  pub first : (s : ℕ) → s < start → ¬ FreeRun b s cnt

module _ (b : Bitmap) (cnt left next_bit count : ℕ) (small : next_bit + 1 < 2 ^ 32)
    (short : count < cnt) (fits : cnt < 2 ^ 32) where
  find_run-hit :
      count ≤ next_bit
      → is_free b next_bit ≡ true
      → count + 1 ≡ cnt
      → find_run b cnt (suc left) next_bit count ≡ (next_bit - count, left)
  unfolding find_run
  find_run-hit le free e = ground arith

  find_run-miss :
      is_free b next_bit ≡ true
      → (count + 1 == cnt) ≡ false
      → find_run b cnt (suc left) next_bit count ≡ find_run b cnt left (next_bit + 1) (count + 1)
  unfolding find_run
  find_run-miss free e = ground arith

  find_run-taken :
      is_free b next_bit ≡ false
      → find_run b cnt (suc left) next_bit count ≡ find_run b cnt left (next_bit + 1) 0
  unfolding find_run
  find_run-taken taken = ground arith

pub find_run-Search :
    (b : Bitmap) (cnt end left next_bit count : ℕ)
    → Before b cnt end next_bit count
    → next_bit + left ≡ end
    → Search b cnt end (find_run b cnt left next_bit count)
find_run-Search b cnt end zero next_bit count inv e =
    unfold find_run in missing refl (λ s h. inv.first s (omega arith))
find_run-Search b cnt end (suc left) next_bit count inv e = elim (Bool-cases (is_free b next_bit)) [
  | inl free ↦
      let longer : FreeRun b inv.start (suc count) =
        FreeRun-extend b inv.start count inv.run (rw inv.at_start free) in
      elim (Bool-cases (count + 1 == cnt)) [
        | inl hit ↦
            let e' : suc count ≡ cnt = ground arith in
            let r : inv.start ≡ next_bit - count = omega arith in
            found (next_bit - count) left
              (find_run-hit b cnt left next_bit count (omega arith) inv.short inv.fits (omega arith)
                free (ground arith))
              (omega arith) (rw (← e', ← r) longer) (rw (← r) inv.first)
        | inr miss ↦
            rw (find_run-miss b cnt left next_bit count (omega arith) inv.short inv.fits free miss)
              (find_run-Search b cnt end left (next_bit + 1) (count + 1)
                (record {
                  small = inv.small;
                  fits = inv.fits;
                  short = ground arith;
                  start = inv.start;
                  at_start = omega arith;
                  run = λ k lt. longer k (omega arith);
                  first = inv.first;
                })
                (omega arith))
      ]
  | inr taken ↦
      rw (find_run-taken b cnt left next_bit count (omega arith) inv.short inv.fits taken) (
        find_run-Search b cnt end left (next_bit + 1) 0
          (record {
            small = inv.small;
            fits = inv.fits;
            short = omega arith;
            start = next_bit + 1;
            at_start = omega arith;
            run = λ k lt. absurd (omega arith);
            first = λ s lt. elim (dec_lt s inv.start) [
              | yes p ↦ inv.first s p
              | no p ↦ taken-ne b s cnt next_bit taken (omega arith) (omega arith)
            ];
          })
          (omega arith))
]
