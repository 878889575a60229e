-- ===== src/Pages/Pick.antt =====
-- The pages that vaddr_get of kernel/memop/memory.c reserves.
use jat_os.Prelude.{
  ℕ, zero, suc, ◌+◌, ◌*◌, ◌%◌, ◌^◌, ◌≤◌, ◌<◌, ◌≡◌, refl, ap, ◌∙◌, false, ◌==◌, ◌&&◌, leb, ltb,
  if◌then◌else◌, some, done, arith, ◌>>=◌,
}
use jat_os.Bitmap.{Bitmap, minus_one, bitmap_scan}
use jat_os.Bitmap.Set.{is_free, IsBytes, bitmap_set-Updated}
use jat_os.Bitmap.Run.{FreeRun}
use jat_os.Bitmap.Scan.{at, none_left, all_taken, past_end, bitmap_scan-Scanned}
use jat_os.Pages.{Mem, VirtualAddr, set_run, reserve, u32, pg_size}
use jat_os.Pages.Inv.{Reserved}

abbrev pub bits_of : VirtualAddr → ℕ
bits_of r = r.vaddr_bitmap.btmp_bytes_len * 8

-- A run of bits with the value.
pub record RunSet (b b' : Bitmap) (n i value : ℕ) : Type 0 where
  pub runs : set_run n i value b ≡ done b'
  pub bytes : IsBytes b'
  pub same_len : b'.btmp_bytes_len ≡ b.btmp_bytes_len
  pub reads :
      (j : ℕ) → is_free b' j ≡ (if leb i j && ltb j (i + n) then value == 0 else is_free b j)

pub set_run-RunSet :
    (n i value : ℕ) (b : Bitmap)
    → IsBytes b
    → value < 2
    → i + n ≤ 2 ^ 32
    → (b' : Bitmap) × RunSet b b' n i value
unfolding set_run
set_run-RunSet zero i value b bytes lt fits =
    (b, record { runs = refl; bytes = bytes; same_len = refl; reads = λ j. ground arith })
set_run-RunSet (suc n) i value b bytes lt fits =
    let (b1, up) = bitmap_set-Updated b i value bytes lt in
    let (b2, rest) = set_run-RunSet n (i + 1) value b1 up.bytes lt (omega arith) in
    let same : u32 i ≡ i = omega arith in
    (
      b2,
      record {
        runs = rw (same, up.runs) rest.runs;
        bytes = rest.bytes;
        same_len = rest.same_len ∙ up.same_len;
        reads = λ j. rest.reads j ∙ ground (arith, up.reads j);
      },
    )

-- The first run of free pages, reserved.
pub record Picked (r r' : VirtualAddr) (cnt i : ℕ) : Type 0 where
  pub runs : reserve cnt r ≡ done (some (r.vaddr_start + i * 4096, r'))
  pub start : r'.vaddr_start ≡ r.vaddr_start
  pub same_len : r'.vaddr_bitmap.btmp_bytes_len ≡ r.vaddr_bitmap.btmp_bytes_len
  pub bytes : IsBytes r'.vaddr_bitmap
  pub inside : i + cnt ≤ bits_of r
  pub was_free : FreeRun r.vaddr_bitmap i cnt
  pub reads :
      (j : ℕ)
      → is_free r'.vaddr_bitmap j
        ≡ (if leb i j && ltb j (i + cnt) then false else is_free r.vaddr_bitmap j)

module _ (m : Mem) (r : VirtualAddr) (cnt : ℕ) (ok : Reserved m r) (pos : 0 < cnt) where
  reserve-at :
      (i : ℕ)
      → bitmap_scan r.vaddr_bitmap cnt ≡ done i
      → i + cnt ≤ bits_of r
      → FreeRun r.vaddr_bitmap i cnt
      → (r' : VirtualAddr) × Picked r r' cnt i
  unfolding reserve
  reserve-at i scan inside free =
      let ends = ok.ends in
      let (b, set) = set_run-RunSet cnt i 1 r.vaddr_bitmap ok.bytes (omega arith) (omega arith) in
      let r' : VirtualAddr = record r { vaddr_bitmap = b } in
      let other : (i == minus_one) ≡ false = ground arith in
      let address : (r.vaddr_start + i * pg_size) % 2 ^ 32 ≡ r.vaddr_start + i * 4096 =
        omega arith in
      (
        r',
        record {
          runs = rw (scan, ◌>>=◌, other, set.runs) (ap (λ (t : ℕ). done (some (t, r'))) address);
          start = refl;
          same_len = set.same_len;
          bytes = set.bytes;
          inside = inside;
          was_free = free;
          reads = set.reads;
        },
      )

  -- A run of free pages is found when there is one.
  pub reserve-Picked :
      (s : ℕ)
      → s + cnt ≤ bits_of r
      → FreeRun r.vaddr_bitmap s cnt
      → (i : ℕ) × (r' : VirtualAddr) × Picked r r' cnt i
  reserve-Picked s inside run =
      let ends = ok.ends in
      elim (bitmap_scan-Scanned r.vaddr_bitmap cnt (omega arith) ok.bytes pos (omega arith)) [
        | at i e within free first ↦
            (let found = reserve-at i e within free in (i, found.0, found.1))
        | none_left i e no_run lt free ↦ absurd (no_run s (omega arith) run)
        | all_taken e all ↦
            absurd (let first = run 0 pos in let clash = all (s + 0) (omega arith) in ground arith)
        | past_end i e end free first ↦ absurd (first s (omega arith) run)
      ]
