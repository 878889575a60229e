-- ===== src/Sched/Reap.antt =====
-- What `schedule` does with the pages of a process that has died (kernel/thread/thread.c).
use jat_os.Prelude.{
  not, ◌&&◌, ◌==◌, ◌>>=◌, sym, ◌∙◌, inl, inr, Bool-cases, ◌^◌, ℕ, zero, suc, ◌+◌, ◌-◌, ◌/◌, ◌%◌,
  ◌≡◌, refl, Bool, true, false, if◌then◌else◌, Outcome, done, arith,
}
use native.Mathlib.Decide.{ℕ_discrete}
use jat_os.Bitmap.{Bitmap, bitmap_scan_test, bitmap_set}
use jat_os.Bitmap.Byte.{mask-low}
use jat_os.Bitmap.Set.{is_free, IsBytes, bitmap_set-done, scan_test-one, scan_test-start}
use jat_os.Kernel.{Task}
use jat_os.Sched.{free_page, free_pages}

if-done :
    {A : Type 0} (b : Bool) (m n : Outcome A)
    → (a : A) × (m ≡ done a)
    → (a : A) × (n ≡ done a)
    → (a : A) × ((if b then m else n) ≡ done a)
if-done true m n h k = h
if-done false m n h k = k

free_page-done :
    (t : Task) (start vaddr : ℕ) (pool : Bitmap)
    → (pool' : Bitmap) × (free_page t start vaddr pool ≡ done pool')
unfolding free_page
free_page-done t start vaddr pool =
    if-done _ _ _ (if-done _ _ _ (bitmap_set-done pool _ 0 (omega arith)) (pool, refl)) (pool, refl)

pub free_pages-done :
    (n : ℕ) (t : Task) (start vaddr : ℕ) (pool : Bitmap)
    → (pool' : Bitmap) × (free_pages n t start vaddr pool ≡ done pool')
unfolding free_pages
free_pages-done zero t start vaddr pool = (pool, refl)
free_pages-done (suc n) t start vaddr pool =
    let (p1, e1) = free_page-done t start vaddr pool in
    let (p2, e2) = free_pages-done n t start (vaddr + 0x1000) p1 in (p2, rw e1 e2)

-- The pages that are marked as taken at the start of a byte of the bitmap.
unfoldable pub taken_at_start : Bitmap → ℕ → Bool
taken_at_start b i = (i % 8 == 0) && not (is_free b i)

-- The frame of a page goes back to the pool, when the page is chosen and has one.
unfoldable pub give_back_page : (ℕ → Bool) → Task → ℕ → ℕ → Bitmap → Outcome Bitmap
give_back_page chosen t start vaddr pool =
    if chosen ((vaddr - 0x8048000) / 4096) && not (t.addr_v2p vaddr == 0)
    then bitmap_set pool ((t.addr_v2p vaddr + 2 ^ 32 - start) % 2 ^ 32 / 4096) 0
    else done pool

unfoldable pub give_back : (ℕ → Bool) → ℕ → Task → ℕ → ℕ → Bitmap → Outcome Bitmap
give_back chosen zero t start vaddr pool = done pool
give_back chosen (suc n) t start vaddr pool = do
  pool' ← give_back_page chosen t start vaddr pool
  give_back chosen n t start (vaddr + 0x1000) pool'

-- The test of the code.
test-taken : (b : Bitmap) (i : ℕ) → IsBytes b → (bitmap_scan_test b i == 1) ≡ taken_at_start b i
unfolding taken_at_start
test-taken b i bytes = elim (ℕ_discrete (i % 8) 0) [
  | no ne ↦ (elim (ℕ_discrete (bitmap_scan_test b i) 1) [
    | yes e ↦ absurd (ne (scan_test-one b i bytes e))
    | no other ↦ ground arith
  ])
  | yes e ↦
      let v = scan_test-start b i (b.bits (i / 8)) e refl in
      let low = mask-low (b.bits (i / 8)) (bytes (i / 8)) in ground (arith, v, low, e)
]

free_page-give_back :
    (t : Task) (start vaddr : ℕ) (pool : Bitmap)
    → IsBytes t.vaddr_bitmap
    → free_page t start vaddr pool
      ≡ give_back_page (taken_at_start t.vaddr_bitmap) t start vaddr pool
unfolding free_page give_back_page
free_page-give_back t start vaddr pool bytes =
    let i = (vaddr - 0x8048000) / 4096 in
    rw (test-taken t.vaddr_bitmap i bytes) (elim (Bool-cases (taken_at_start t.vaddr_bitmap i)) [
      | inl e ↦ rw e refl
      | inr e ↦ rw e refl
    ])

-- The pages of a dying process are tested by `bitmap_scan_test(...) == 1`, and that test is the
-- masked byte: of the pages that the process has taken, exactly those with a number that is a
-- multiple of 8, and with a frame, go back to the pool; the others are lost.
pub free_pages_leak :
    (n : ℕ) (t : Task) (start vaddr : ℕ) (pool : Bitmap)
    → IsBytes t.vaddr_bitmap
    → free_pages n t start vaddr pool
      ≡ give_back (taken_at_start t.vaddr_bitmap) n t start vaddr pool
unfolding free_pages give_back
free_pages_leak zero t start vaddr pool bytes = refl
free_pages_leak (suc n) t start vaddr pool bytes =
    let (p1, e1) = free_page-done t start vaddr pool in
    let e2 = sym (free_page-give_back t start vaddr pool bytes) ∙ e1 in
    rw (e1, e2) (free_pages_leak n t start (vaddr + 0x1000) p1 bytes)
