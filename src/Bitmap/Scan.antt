-- ===== src/Bitmap/Scan.antt =====
-- bitmap_scan of kernel/memop/bitmap.c: what it returns, and when one of its ASSERTs fails.
use jat_os.Prelude.{
  ℕ, zero, suc, ◌+◌, ◌-◌, ◌*◌, ◌/◌, ◌%◌, ◌^◌, ◌≤◌, ◌<◌, ◌≡◌, ◌≢◌, refl, ap, ◌∙◌, true, false, ◌==◌,
  Outcome, done, panic, not, assert, ◌>>=◌, ◌>>◌, arith,
}
use native.Mathlib.Decide.{dec_lt, ℕ_discrete}
use jat_os.Bitmap.{Bitmap, minus_one, u32, skip_full, find_run, bitmap_scan, bitmap_scan_test}
use jat_os.Bitmap.Byte.{Lowest, first_clear-Lowest, full_byte}
use jat_os.Bitmap.Set.{is_free, IsBytes}
use jat_os.Bitmap.Run.{FreeRun, NoRun, Search, found, missing, find_run-Search}

-- The bit lengths of a bitmap are 32-bit numbers.
abbrev pub len_limit : ℕ
len_limit = 2 ^ 29

record Skipped (b : Bitmap) (fuel i : ℕ) : Type 0 where
  stop : ℕ
  runs : skip_full fuel b i ≡ done stop
  within : stop ≤ b.btmp_bytes_len
  full : (q : ℕ) → q < stop → b.bits q ≡ 255
  not_full : stop < b.btmp_bytes_len → b.bits stop ≢ 255

skip_full-Skipped :
    (b : Bitmap) (fuel i : ℕ)
    → b.btmp_bytes_len < len_limit
    → i ≤ b.btmp_bytes_len
    → b.btmp_bytes_len < i + fuel
    → ((q : ℕ) → q < i → b.bits q ≡ 255)
    → Skipped b fuel i
skip_full-Skipped b zero i small le enough before = absurd (omega arith)
skip_full-Skipped b (suc fuel) i small le enough before = elim (ℕ_discrete (b.bits i) 255) [
  | yes e ↦ elim (dec_lt i b.btmp_bytes_len) [
    | yes lt ↦
        let rest =
          skip_full-Skipped b fuel (i + 1) small (omega arith) (omega arith)
            (λ q h. ground (arith, before q)) in
        let same : skip_full (suc fuel) b i ≡ skip_full fuel b (i + 1) =
          unfold skip_full in ground arith in
        record {
          stop = rest.stop;
          runs = rw same rest.runs;
          within = rest.within;
          full = rest.full;
          not_full = rest.not_full;
        }
    | no ge ↦ record {
      stop = i;
      runs = unfold skip_full in ground arith;
      within = le;
      full = before;
      not_full = λ h. absurd (ge h);
    }
  ]
  | no ne ↦ record {
    stop = i;
    runs = unfold skip_full in ground arith;
    within = le;
    full = before;
    not_full = λ h. ne;
  }
]

-- The four endings of a scan for `cnt` bits; no two of them fit one bitmap.
pub data Scanned (b : Bitmap) (cnt : ℕ) (o : Outcome ℕ) : Type 0 where
  at :
      (r : ℕ)
      → o ≡ done r
      → r + cnt ≤ b.btmp_bytes_len * 8
      → FreeRun b r cnt
      → ((s : ℕ) → s < r → ¬ FreeRun b s cnt)
      → Scanned b cnt o
  none_left :
      (i : ℕ)
      → o ≡ done minus_one
      → NoRun b cnt (b.btmp_bytes_len * 8 + 1)
      → i < b.btmp_bytes_len * 8
      → is_free b i ≡ true
      → Scanned b cnt o
  all_taken :
      o ≡ panic → ((i : ℕ) → i < b.btmp_bytes_len * 8 → is_free b i ≡ false) → Scanned b cnt o
  past_end :
      (r : ℕ)
      → o ≡ panic
      → r + cnt ≡ b.btmp_bytes_len * 8 + 1
      → FreeRun b r cnt
      → ((s : ℕ) → s < r → ¬ FreeRun b s cnt)
      → Scanned b cnt o

module _ (b : Bitmap) (stop : ℕ) (full : (q : ℕ) → q < stop → b.bits q ≡ 255) where
  taken_below : (i : ℕ) → i < stop * 8 → is_free b i ≡ false
  unfolding bitmap_scan_test
  taken_below i h = rw (full (i / 8) (omega arith)) (full_byte (i % 8) (omega arith))

  taken_before : (k : ℕ) → Lowest (b.bits stop) k → (i : ℕ) → i < stop * 8 + k → is_free b i ≡ false
  unfolding bitmap_scan_test
  taken_before k low i h = elim (dec_lt i (stop * 8)) [
    | yes p ↦ unfold bitmap_scan_test in taken_below i p
    | no p ↦ let q : i / 8 ≡ stop = omega arith in rw q (low.below (i % 8) (omega arith))
  ]

  free_at : (k : ℕ) → Lowest (b.bits stop) k → is_free b (stop * 8 + k) ≡ true
  unfolding bitmap_scan_test
  free_at k low =
      let small = low.small in
      let q : (stop * 8 + k) / 8 ≡ stop = omega arith in
      let m : (stop * 8 + k) % 8 ≡ k = omega arith in rw (q, m) low.is_clear

-- The end of bitmap_scan: the ASSERT on `bit_left`, and the result.
abbrev finish : ℕ × ℕ → Outcome ℕ
finish p = do assert (not (p.1 == 0)); done p.0

module _ (b : Bitmap) (cnt stop : ℕ) (small : b.btmp_bytes_len < len_limit)
    (runs : skip_full (b.btmp_bytes_len + 1) b 0 ≡ done stop) where
  bitmap_scan-full : b.btmp_bytes_len ≤ stop → bitmap_scan b cnt ≡ panic
  unfolding bitmap_scan
  bitmap_scan-full le = rw (runs, ◌>>=◌) (ground arith)

  module _ (k : ℕ) (lt : stop < b.btmp_bytes_len) (low : Lowest (b.bits stop) k) where
    start_fits : u32 (stop * 8 + k) ≡ stop * 8 + k
    start_fits = let h = low.small in omega arith

    bitmap_scan-one : cnt ≡ 1 → bitmap_scan b cnt ≡ done (stop * 8 + k)
    unfolding bitmap_scan
    bitmap_scan-one e = ground (arith, runs, low.runs, start_fits)

    bitmap_scan-more :
        cnt ≢ 1
        → bitmap_scan b cnt
          ≡ finish (find_run b cnt (b.btmp_bytes_len * 8 - (stop * 8 + k)) (stop * 8 + k + 1) 1)
    unfolding bitmap_scan
    bitmap_scan-more ne = ground (arith, runs, low.runs, start_fits, low.small)

Search-Scanned :
    (b : Bitmap) (cnt i : ℕ) (p : ℕ × ℕ)
    → i < b.btmp_bytes_len * 8
    → is_free b i ≡ true
    → Search b cnt (b.btmp_bytes_len * 8 + 1) p
    → bitmap_scan b cnt ≡ finish p
    → Scanned b cnt (bitmap_scan b cnt)
Search-Scanned b cnt i p lt free (found r zero e end run first) eq =
    past_end r (eq ∙ ap finish e) (omega arith) run first
Search-Scanned b cnt i p lt free (found r (suc left) e end run first) eq =
    at r (eq ∙ ap finish e ∙ ground arith) (omega arith) run first
Search-Scanned b cnt i p lt free (missing e no_run) eq =
    none_left i (eq ∙ ap finish e) no_run lt free

not_FreeRun : (b : Bitmap) (s n : ℕ) → 0 < n → is_free b s ≡ false → ¬ FreeRun b s n
not_FreeRun b s n pos taken run =
    let e : s + 0 ≡ s = omega arith in
    let f : is_free b s ≡ true = rw e at (run 0 pos) in ground arith

module _ (b : Bitmap) (cnt : ℕ) (small : b.btmp_bytes_len < len_limit) (pos : 0 < cnt)
    (fits : cnt < 2 ^ 32) (sk : Skipped b (b.btmp_bytes_len + 1) 0) where
  scan_from :
      (k : ℕ)
      → sk.stop < b.btmp_bytes_len
      → Lowest (b.bits sk.stop) k
      → Scanned b cnt (bitmap_scan b cnt)
  scan_from k lt low =
      let start = sk.stop * 8 + k in
      let low_small = low.small in
      let free : is_free b start ≡ true = free_at b sk.stop sk.full k low in
      let one : FreeRun b start 1 = λ j h. (let e : start + j ≡ start = omega arith in rw e free) in
      let first : (s : ℕ) → s < start → ¬ FreeRun b s cnt =
        λ s h. not_FreeRun b s cnt pos (taken_before b sk.stop sk.full k low s h) in
      elim (ℕ_discrete cnt 1) [
        | yes e ↦
            at start (bitmap_scan-one b cnt sk.stop small sk.runs k lt low e) (omega arith)
              (rw e one) first
        | no ne ↦
            Search-Scanned b cnt start _ (omega arith) free
              (find_run-Search b cnt (b.btmp_bytes_len * 8 + 1) (b.btmp_bytes_len * 8 - start)
                (start + 1) 1
                (record {
                  small = omega arith;
                  fits = fits;
                  short = omega arith;
                  start = start;
                  at_start = refl;
                  run = one;
                  first = first;
                })
                (omega arith))
              (bitmap_scan-more b cnt sk.stop small sk.runs k lt low ne)
      ]

-- A scan for at least one bit over fewer than 2^29 bytes ends in one of four ways: it returns the
-- start of the first run of `cnt` free bits, which lies inside the bitmap; it returns -1, and some
-- bit is free but no run of `cnt` free bits ends inside or one bit past the end; an ASSERT fails and
-- every bit is taken; or an ASSERT fails and the first run of `cnt` free bits ends one bit past the
-- end.
pub bitmap_scan-Scanned :
    (b : Bitmap) (cnt : ℕ)
    → b.btmp_bytes_len < len_limit
    → IsBytes b
    → 0 < cnt
    → cnt < 2 ^ 32
    → Scanned b cnt (bitmap_scan b cnt)
bitmap_scan-Scanned b cnt small bytes pos fits =
    let sk =
      skip_full-Skipped b (b.btmp_bytes_len + 1) 0 small (omega arith) (omega arith)
        (λ q h. absurd (omega arith)) in
    elim (dec_lt sk.stop b.btmp_bytes_len) [
      | yes lt ↦
          let (k, low) = first_clear-Lowest (b.bits sk.stop) (bytes sk.stop) (sk.not_full lt) in
          scan_from b cnt small pos fits sk k lt low
      | no ge ↦
          all_taken (bitmap_scan-full b cnt sk.stop small sk.runs (omega arith))
            (λ i h. taken_below b sk.stop sk.full i (omega arith))
    ]
