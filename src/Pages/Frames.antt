-- ===== src/Pages/Frames.antt =====
-- palloc of kernel/memop/memory.c: which frame it takes, and when an ASSERT fails.
use jat_os.Prelude.{
  ℕ, ◌+◌, ◌*◌, ◌%◌, ◌^◌, ◌≤◌, ◌<◌, ◌≡◌, refl, ap, Bool, true, false, ◌==◌, Bool-cases, inl, inr,
  if◌then◌else◌, Outcome, done, panic, arith, ◌>>=◌,
}
use jat_os.Bitmap.{minus_one, bitmap_scan}
use jat_os.Bitmap.Set.{is_free, IsBytes, bitmap_set-Updated}
use jat_os.Bitmap.Run.{FreeRun}
use jat_os.Bitmap.Scan.{at, none_left, all_taken, past_end, bitmap_scan-Scanned}
use jat_os.Pages.{Pool, pg_size, palloc}

-- The frames of a pool.
abbrev pub frames : Pool → ℕ
frames p = p.pool_bitmap.btmp_bytes_len * 8

abbrev pub frame_free : Pool → ℕ → Bool
frame_free p i = is_free p.pool_bitmap i

-- A pool of a memory of at most 4 GiB, as mem_pool_init makes it.
pub record WellFormed (p : Pool) : Type 0 where
  pub bytes : IsBytes p.pool_bitmap
  pub ends : p.phy_addr_start + frames p * 4096 ≤ 2 ^ 32
  pub above : 0 < p.phy_addr_start
  pub aligned : p.phy_addr_start % 4096 ≡ 0

-- How palloc ends.
pub data Palloced (p : Pool) (o : Outcome (ℕ × Pool)) : Type 0 where
  taken :
      (i : ℕ) (p' : Pool)
      → o ≡ done (p.phy_addr_start + i * 4096, p')
      → WellFormed p'
      → p'.phy_addr_start ≡ p.phy_addr_start
      → frames p' ≡ frames p
      → i < frames p
      → ((j : ℕ) → j < i → frame_free p j ≡ false)
      → frame_free p i ≡ true
      → ((j : ℕ) → frame_free p' j ≡ (if i == j then false else frame_free p j))
      → Palloced p o
  full : o ≡ panic → ((j : ℕ) → j < frames p → frame_free p j ≡ false) → Palloced p o

run_one : (p : Pool) (j : ℕ) → frame_free p j ≡ true → FreeRun p.pool_bitmap j 1
run_one p j free k lt = let e : j + k ≡ j = omega arith in rw e free

not_run : (p : Pool) (j : ℕ) → ¬ FreeRun p.pool_bitmap j 1 → frame_free p j ≡ false
not_run p j none_here = elim (Bool-cases (frame_free p j)) [
  | inl e ↦ absurd (none_here (run_one p j e))
  | inr e ↦ e
]

module _ (p : Pool) (ok : WellFormed p) where
  palloc-at :
      (i : ℕ)
      → i < frames p
      → bitmap_scan p.pool_bitmap 1 ≡ done i
      → ((j : ℕ) → j < i → frame_free p j ≡ false)
      → frame_free p i ≡ true
      → Palloced p (palloc p)
  unfolding palloc
  palloc-at i lt scan first free =
      let (b, set) = bitmap_set-Updated p.pool_bitmap i 1 ok.bytes (omega arith) in
      let ends = ok.ends in
      let length = set.same_len in
      let address : (i * pg_size + p.phy_addr_start) % 2 ^ 32 ≡ p.phy_addr_start + i * 4096 =
        omega arith in
      let p' : Pool = record p { pool_bitmap = b } in
      let other : (i == minus_one) ≡ false = ground arith in
      taken i p' (rw (scan, ◌>>=◌, other, set.runs) (ap (λ (t : ℕ). done (t, p')) address))
        (record { bytes = set.bytes; ends = omega arith; above = ok.above; aligned = ok.aligned })
        refl (omega arith) lt first free set.reads

  -- On a well-formed pool palloc either takes the first free frame, returns its address, and leaves
  -- every other frame as it was and the pool well-formed, or it fails an ASSERT, and that only when
  -- no frame of the pool is free.
  pub palloc-Palloced : Palloced p (palloc p)
  palloc-Palloced =
      let ends = ok.ends in
      elim (bitmap_scan-Scanned p.pool_bitmap 1 (omega arith) ok.bytes (omega arith)
        (omega arith)) [
          | at r e inside run first ↦
              palloc-at r (omega arith) e (λ j lt. not_run p j (first j lt))
                (let s : r + 0 ≡ r = omega arith in rw s at (run 0 (omega arith)))
          | none_left i e no_run lt free ↦ absurd (no_run i (omega arith) (run_one p i free))
          | all_taken e all ↦ full (unfold palloc in rw e) all
          | past_end r e end run first ↦
              full (unfold palloc in rw e) (λ j lt. not_run p j (first j (omega arith)))
        ]
