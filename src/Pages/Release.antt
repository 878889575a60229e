-- ===== src/Pages/Release.antt =====
-- mfree_page of kernel/memop/memory.c, and malloc_page before it.
use jat_os.Prelude.{
  ℕ, ◌+◌, ◌-◌, ◌*◌, ◌/◌, ◌%◌, ◌≤◌, ◌<◌, ◌≡◌, refl, ap, sym, ◌∙◌, Outcome, done, arith, ◌>>=◌,
  >>=-done,
}
use jat_os.Bitmap.Set.{is_free}
use jat_os.Pages.{
  Mem, VirtualAddr, PoolFlags, pf_kernel, pf_user, minus, malloc_page, mfree_page,
  mfree_page_avoid_vaddr_remove, vaddr_remove,
}
use jat_os.Pages.Behind.{frame_of, frame_of-pages}
use jat_os.Pages.Inv.{Inv, Reserved-same}
use jat_os.Pages.Later.{pool_of}
use jat_os.Pages.Loop.{Backed}
use jat_os.Pages.Pick.{bits_of}
use jat_os.Pages.Reserve.{pages_of, pages, Inv-pages}
use jat_os.Pages.Free.{low_memory, Freed, RunSet-GivenBack, avoid-Unmapped}
use jat_os.Pages.Round.{Unmapped}

module _ (m m1 : Mem) (cnt v : ℕ) (un : Unmapped m m1 v cnt) (al : v % 4096 ≡ 0) where
  remove-kernel :
      mfree_page_avoid_vaddr_remove v cnt m ≡ done m1
      → m.kernel_vaddr.vaddr_start ≤ v
      → v + cnt * 4096 ≤ m.kernel_vaddr.vaddr_start + bits_of m.kernel_vaddr * 4096
      → (m' : Mem) × Freed m m' pf_kernel cnt v
  unfolding mfree_page vaddr_remove
  remove-kernel run from to =
      let r = m1.kernel_vaddr in
      let same : r ≡ m.kernel_vaddr = un.same.kernel_vaddr_same in
      let start : r.vaddr_start ≡ m.kernel_vaddr.vaddr_start =
        ap (λ (t : VirtualAddr). t.vaddr_start) same in
      let len : bits_of r ≡ bits_of m.kernel_vaddr = ap (λ (t : VirtualAddr). bits_of t) same in
      let ok = un.inv.kernel_pages in
      let ends = ok.ends in
      let ar = ok.aligned in
      let below = un.inv.below_kernel in
      let i = (v - r.vaddr_start) / 4096 in
      let (b, set, back) =
        RunSet-GivenBack m1 r i cnt ok (omega arith)
          (λ k lt. ap (frame_of m1) (omega arith) ∙ un.gone k lt) in
      let index : minus v r.vaddr_start / 4096 ≡ i = omega arith in
      let r' : VirtualAddr = record r { vaddr_bitmap = b } in
      let m' = pages m1 r' m1.userprog_vaddr in
      let frames_same = frame_of-pages m1 r' m1.userprog_vaddr in
      (
        m',
        record {
          runs =
              >>=-done (mfree_page_avoid_vaddr_remove v cnt m) (vaddr_remove pf_kernel v cnt) m1 run
              ∙ (rw (index, set.runs) refl);
          inv =
              Inv-pages m1 un.inv r' m1.userprog_vaddr
                (Reserved-same m1 m' frames_same r' r' back.reserved refl refl back.reserved.bytes
                  (λ j free. free))
                (Reserved-same m1 m' frames_same m1.userprog_vaddr m1.userprog_vaddr
                  un.inv.user_pages refl refl un.inv.user_pages.bytes (λ j free. free))
                below;
          gone = λ k lt. frames_same (v / 4096 + k) ∙ un.gone k lt;
          old = λ page out. frames_same page ∙ un.old page out;
          free_again = λ k lt.
              ap (λ (t : ℕ). is_free b ((v - t) / 4096 + k)) (sym start) ∙ back.free_again k lt;
        },
      )

  remove-user :
      mfree_page_avoid_vaddr_remove v cnt m ≡ done m1
      → m.userprog_vaddr.vaddr_start ≤ v
      → v + cnt * 4096 ≤ m.userprog_vaddr.vaddr_start + bits_of m.userprog_vaddr * 4096
      → (m' : Mem) × Freed m m' pf_user cnt v
  unfolding mfree_page vaddr_remove
  remove-user run from to =
      let r = m1.userprog_vaddr in
      let same : r ≡ m.userprog_vaddr = un.same.userprog_vaddr_same in
      let start : r.vaddr_start ≡ m.userprog_vaddr.vaddr_start =
        ap (λ (t : VirtualAddr). t.vaddr_start) same in
      let len : bits_of r ≡ bits_of m.userprog_vaddr = ap (λ (t : VirtualAddr). bits_of t) same in
      let ok = un.inv.user_pages in
      let ends = ok.ends in
      let ar = ok.aligned in
      let below = un.inv.below_kernel in
      let i = (v - r.vaddr_start) / 4096 in
      let (b, set, back) =
        RunSet-GivenBack m1 r i cnt ok (omega arith)
          (λ k lt. ap (frame_of m1) (omega arith) ∙ un.gone k lt) in
      let index : minus v r.vaddr_start / 4096 ≡ i = omega arith in
      let r' : VirtualAddr = record r { vaddr_bitmap = b } in
      let m' = pages m1 m1.kernel_vaddr r' in
      let frames_same = frame_of-pages m1 m1.kernel_vaddr r' in
      (
        m',
        record {
          runs =
              >>=-done (mfree_page_avoid_vaddr_remove v cnt m) (vaddr_remove pf_user v cnt) m1 run
              ∙ (rw (index, set.runs) refl);
          inv =
              Inv-pages m1 un.inv m1.kernel_vaddr r'
                (Reserved-same m1 m' frames_same m1.kernel_vaddr m1.kernel_vaddr un.inv.kernel_pages
                  refl refl un.inv.kernel_pages.bytes (λ j free. free))
                (Reserved-same m1 m' frames_same r' r' back.reserved refl refl back.reserved.bytes
                  (λ j free. free))
                (omega (arith, back.same_len));
          gone = λ k lt. frames_same (v / 4096 + k) ∙ un.gone k lt;
          old = λ page out. frames_same page ∙ un.old page out;
          free_again = λ k lt.
              ap (λ (t : ℕ). is_free b ((v - t) / 4096 + k)) (sym start) ∙ back.free_again k lt;
        },
      )

-- When the pages from `v` on lie in the bitmap's range and a frame of the pool lies behind each of
-- them, mfree_page of at least one page returns, all of them lose their frames and are free again in
-- the bitmap, the other pages are as before, and the allocator's invariant holds again.
pub mfree_page-Freed :
    (m : Mem) (pf : PoolFlags) (cnt v : ℕ)
    → Inv m
    → 0 < cnt
    → v % 4096 ≡ 0
    → low_memory ≤ m.kernel_pool.phy_addr_start
    → (pages_of pf m).vaddr_start ≤ v
    → v + cnt * 4096 ≤ (pages_of pf m).vaddr_start + bits_of (pages_of pf m) * 4096
    → ((k : ℕ) → k < cnt → Backed m (pool_of pf m) (v / 4096 + k))
    → (m' : Mem) × Freed m m' pf cnt v
mfree_page-Freed m pf_kernel cnt v inv pos al low from to backed =
    let ends = inv.kernel_pages.ends in
    let (m1, run, un) = avoid-Unmapped m pf_kernel cnt v inv pos al (omega arith) low backed in
    remove-kernel m m1 cnt v un al run from to
mfree_page-Freed m pf_user cnt v inv pos al low from to backed =
    let ends = inv.user_pages.ends in
    let (m1, run, un) = avoid-Unmapped m pf_user cnt v inv pos al (omega arith) low backed in
    remove-user m m1 cnt v un al run from to

-- malloc_page and then mfree_page of the same pages.
abbrev pub malloc_free : PoolFlags → ℕ → Mem → Outcome Mem
malloc_free pf cnt m = do r ← malloc_page pf cnt m; mfree_page pf r.0 cnt r.1
