-- ===== src/Pages/Boot.antt =====
-- mem_pool_init of kernel/memop/memory.c: the two pools and the kernel's pages at the start. Its
-- lock_init calls and its messages are left out.
pub mod Booted
use jat_os.Prelude.{
  ℕ, ◌+◌, ◌*◌, ◌/◌, ◌%◌, ◌^◌, ◌-◌, leb, if◌then◌else◌, Outcome, done, fault, ◌>>=◌, ◌>>◌,
}
use jat_os.Bitmap.{Bitmap, bitmap_init}
use jat_os.Pages.{Mem, Pool, VirtualAddr, u32, minus, pg_size}

abbrev pub mem_bitmap_base : ℕ
mem_bitmap_base = 0xc009a000

abbrev pub k_heap_start : ℕ
k_heap_start = 0xc0100000

-- The `bits` pointers of the three bitmaps.
pub record Places : Type 0 where
  pub kernel_bits : ℕ
  pub user_bits : ℕ
  pub vaddr_bits : ℕ

-- The page of the main thread's `task_struct`, on whose stack the boot runs (esp from 0xc009f000).
abbrev pub main_page : ℕ
main_page = 0xc009e000

below_main : ℕ → Outcome (Unit {0})
below_main bitmaps_end = if leb bitmaps_end main_page then done tt else fault

-- The bitmaps lie one behind another from MEM_BITMAP_BASE on, so each has memory of its own. Bitmaps
-- that reach into the running thread's page overwrite it, which is a fault here.
pub mem_pool_init : ℕ → Mem → Outcome (Mem × Places)
unfolding below_main
mem_pool_init all_mem m = do
  let page_table_size = pg_size * 256
  let used_mem = page_table_size + 0x100000
  let free_mem = minus all_mem used_mem
  let all_free_pages = free_mem / pg_size
  let kernel_free_pages = all_free_pages / 2
  let user_free_pages = all_free_pages - kernel_free_pages
  let kbm_length = kernel_free_pages / 8
  let ubm_length = user_free_pages / 8
  let kp_start = used_mem
  let up_start = u32 (kp_start + kernel_free_pages * pg_size)
  below_main (mem_bitmap_base + kbm_length + ubm_length + kbm_length)
  kb ← bitmap_init (record { bits = m.kernel_pool.pool_bitmap.bits; btmp_bytes_len = kbm_length })
  ub ← bitmap_init (record { bits = m.user_pool.pool_bitmap.bits; btmp_bytes_len = ubm_length })
  vb ← bitmap_init (record { bits = m.kernel_vaddr.vaddr_bitmap.bits; btmp_bytes_len = kbm_length })
  done (
    record m {
      kernel_pool = record {
        pool_bitmap = kb;
        phy_addr_start = kp_start;
        pool_size = u32 (kernel_free_pages * pg_size);
      };
      user_pool = record {
        pool_bitmap = ub;
        phy_addr_start = up_start;
        pool_size = u32 (user_free_pages * pg_size);
      };
      kernel_vaddr = record { vaddr_bitmap = vb; vaddr_start = k_heap_start };
    },
    record {
      kernel_bits = mem_bitmap_base;
      user_bits = u32 (mem_bitmap_base + kbm_length);
      vaddr_bits = u32 (mem_bitmap_base + kbm_length + ubm_length);
    },
  )
