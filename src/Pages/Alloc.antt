-- ===== src/Pages/Alloc.antt =====
-- malloc_page of kernel/memop/memory.c on its two pools.
use jat_os.Prelude.{ℕ, ◌+◌, ◌*◌, ◌/◌, ◌%◌, ◌≤◌, ◌<◌, ◌≡◌, ◌⊎◌, none, done}
use jat_os.Pages.{Mem, PoolFlags, malloc_page}
use jat_os.Pages.Behind.{frame_of}
use jat_os.Pages.Inv.{Inv}
use jat_os.Pages.Later.{pool_of}
use jat_os.Pages.Frames.{frames}
use jat_os.Pages.Loop.{Backed}
use jat_os.Pages.Pick.{bits_of}
use jat_os.Pages.Reserve.{pages_of}

-- What malloc_page gives: `cnt` pages from `v` on.
pub record Allocated (m m' : Mem) (pf : PoolFlags) (cnt v : ℕ) : Type 0 where
  pub runs : malloc_page pf cnt m ≡ done (v, m')
  pub inv : Inv m'
  pub aligned : v % 4096 ≡ 0
  pub from : (pages_of pf m).vaddr_start ≤ v
  pub to : v + cnt * 4096 ≤ (pages_of pf m).vaddr_start + bits_of (pages_of pf m) * 4096
  pub was_unmapped : (k : ℕ) → k < cnt → frame_of m (v / 4096 + k) ≡ none
  pub new : (k : ℕ) → k < cnt → Backed m' (pool_of pf m) (v / 4096 + k)
  pub old :
      (page : ℕ) → (page < v / 4096) ⊎ (v / 4096 + cnt ≤ page) → frame_of m' page ≡ frame_of m page
  pub same_pool :
      (frames (pool_of pf m') ≡ frames (pool_of pf m))
      × ((pool_of pf m').phy_addr_start ≡ (pool_of pf m).phy_addr_start)
  pub kernel_start : m'.kernel_pool.phy_addr_start ≡ m.kernel_pool.phy_addr_start
  pub same_pages :
      ((pages_of pf m').vaddr_start ≡ (pages_of pf m).vaddr_start)
      × (bits_of (pages_of pf m') ≡ bits_of (pages_of pf m))
