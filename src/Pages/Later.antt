-- ===== src/Pages/Later.antt =====
-- A pool and a memory behind one round of malloc_page (kernel/memop/memory.c).
use jat_os.Prelude.{
  ℕ, ◌+◌, ◌*◌, ◌/◌, ◌^◌, ◌≤◌, ◌<◌, ◌≡◌, ◌≢◌, ap, sym, ◌∙◌, true, false, ◌==◌, ◌⊎◌, if◌then◌else◌,
  none, some, inl, inr, arith, subst,
}
use jat_os.Bitmap.Set.{is_free}
use jat_os.Pages.{Mem, Pool, PoolFlags, pf_kernel, pf_user}
use jat_os.Pages.Frames.{frame_free, frames}
use jat_os.Pages.Window.{inside}
use jat_os.Pages.Behind.{frame_of}
use jat_os.Pages.Inv.{frame_no, AddsFrame, Owned, Inv, Took, Owned-Took, Owned-free, Owned-Added}
use jat_os.Pages.Count.{free_count, free_count-Took}

abbrev pub pool_of : PoolFlags → Mem → Pool
pool_of pf_kernel m = m.kernel_pool
pool_of pf_user m = m.user_pool

-- The page is reserved: it is not free in one of the two bitmaps of pages.
pub record PageTaken (m : Mem) (v : ℕ) : Type 0 where
  pub at_page : inside (v / 2 ^ 12) ≡ true
  pub no_frame : frame_of m (v / 2 ^ 12) ≡ none
  pub kernel_bit :
      (i : ℕ)
      → i < m.kernel_vaddr.vaddr_bitmap.btmp_bytes_len * 8
      → is_free m.kernel_vaddr.vaddr_bitmap i ≡ true
      → v / 2 ^ 12 ≢ m.kernel_vaddr.vaddr_start / 4096 + i
  pub user_bit :
      (i : ℕ)
      → i < m.userprog_vaddr.vaddr_bitmap.btmp_bytes_len * 8
      → is_free m.userprog_vaddr.vaddr_bitmap i ≡ true
      → v / 2 ^ 12 ≢ m.userprog_vaddr.vaddr_start / 4096 + i

-- A round keeps the bitmaps of pages and the places of the pools.
pub record Same (m m' : Mem) : Type 0 where
  pub kernel_vaddr_same : m'.kernel_vaddr ≡ m.kernel_vaddr
  pub userprog_vaddr_same : m'.userprog_vaddr ≡ m.userprog_vaddr
  pub kernel_start : m'.kernel_pool.phy_addr_start ≡ m.kernel_pool.phy_addr_start
  pub kernel_len : frames m'.kernel_pool ≡ frames m.kernel_pool
  pub user_start : m'.user_pool.phy_addr_start ≡ m.user_pool.phy_addr_start
  pub user_len : frames m'.user_pool ≡ frames m.user_pool

-- The page at `v` has got a free frame of the pool.
pub record Grown (m m' : Mem) (pf : PoolFlags) (v : ℕ) : Type 0 where
  pub inv : Inv m'
  pub same : Same m m'
  pub frame : ℕ
  pub inside : frame < frames (pool_of pf m)
  pub was_free : frame_free (pool_of pf m) frame ≡ true
  pub frames_are :
      (page : ℕ)
      → frame_of m' page
        ≡ (if v / 2 ^ 12 == page then some (frame_no (pool_of pf m) frame) else frame_of m page)
  pub kernel_left : free_count m.kernel_pool ≤ free_count m'.kernel_pool + 2
  pub user_left : free_count m.user_pool ≤ free_count m'.user_pool + 1

-- A pool from which page_table_add may have taken one frame more.
abbrev pub Later : Pool → Pool → Type 0
Later p p' = (p' ≡ p) ⊎ ((i : ℕ) × Took p p' i)

pub Later-start : (p p' : Pool) → Later p p' → p'.phy_addr_start ≡ p.phy_addr_start
Later-start p p' (inl e) = ap (λ (t : Pool). t.phy_addr_start) e
Later-start p p' (inr (i, took)) = took.start

pub Later-len : (p p' : Pool) → Later p p' → frames p' ≡ frames p
Later-len p p' (inl e) = ap (λ (t : Pool). frames t) e
Later-len p p' (inr (i, took)) = took.len

pub Later-left : (p p' : Pool) → Later p p' → free_count p ≤ free_count p' + 1
Later-left p p' (inl e) = omega (arith, ap free_count e)
Later-left p p' (inr (i, took)) = omega (arith, free_count-Took p p' i took)

pub Later-taken :
    (p p' : Pool) (j : ℕ) → Later p p' → frame_free p j ≡ false → frame_free p' j ≡ false
Later-taken p p' j (inl e) was = ap (λ (t : Pool). frame_free t j) e ∙ was
Later-taken p p' j (inr (i, took)) was = took.reads j ∙ ground (arith, was)

Owned-Later : (m : Mem) (p p' : Pool) → Owned m p → Later p p' → Owned m p'
Owned-Later m p p' ow (inl e) = subst (λ t. Owned m t) (sym e) ow
Owned-Later m p p' ow (inr (i, took)) = Owned-Took m p p' i ow took

module _ (m m' : Mem) (v q : ℕ) (adds : AddsFrame m m' v q) where
  -- The pool that does not have the new frame.
  pub other_pool :
      (p p' : Pool)
      → Owned m p
      → Later p p'
      → ((i : ℕ) → i < frames p → q / 4096 ≢ frame_no p i)
      → Owned m' p'
  other_pool p p' ow later out =
      Owned-Added m m' v q p' (Owned-Later m p p' ow later) adds (λ i lt e. absurd (
        out i (omega (arith, Later-len p p' later))
          (e ∙ ap (λ (t : ℕ). t / 4096 + i) (Later-start p p' later))))

  -- The pool that the new frame is taken from.
  pub same_pool :
      (p p1 p2 : Pool) (i : ℕ)
      → q ≡ frame_no p i * 4096
      → Owned m p
      → Took p p1 i
      → Later p1 p2
      → Owned m' p2
  same_pool p p1 p2 i at ow took later =
      Owned-Added m m' v q p2 (Owned-Later m p1 p2 (Owned-Took m p p1 i ow took) later) adds
        (λ j lt e.
          let start : p2.phy_addr_start ≡ p.phy_addr_start = Later-start p1 p2 later ∙ took.start in
          let same : j ≡ i = omega (arith, ap (λ (t : ℕ). t / 4096 + j) start) in
          (
            Later-taken p1 p2 j later (took.reads j ∙ ground arith),
            λ page f.
                Owned-free m p i ow took.inside took.was_free page
                  (f ∙ ap some (ap (λ (t : ℕ). t / 4096 + j) start ∙ ap (frame_no p) same)),
          ))
