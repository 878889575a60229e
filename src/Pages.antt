-- ===== src/Pages.antt =====
-- Pages: the part of kernel/memop/memory.c that gives out virtual pages and page frames, and keeps
-- the page tables. The locks of the pools are taken by the callers of these functions.
pub mod Masks
pub mod Frames
pub mod Window
pub mod Behind
pub mod Writes
pub mod NewTable
pub mod Link
pub mod Map
pub mod Tables
pub mod Inv
pub mod Count
pub mod Later
pub mod Apart
pub mod Entry
pub mod Grow
pub mod Loop
pub mod Pick
pub mod Reserve
pub mod Alloc
pub mod Drop
pub mod Unmap
pub mod Round
pub mod Free
pub mod Release
pub mod Boot
mod Tests
use jat_os.Prelude.{
  ℕ, zero, suc, ◌+◌, ◌-◌, ◌*◌, ◌/◌, ◌%◌, ◌^◌, Bool, true, false, not, ◌&&◌, bit_and, bit_or, leb,
  ltb, Option, none, some, ◌==◌, if◌then◌else◌, Outcome, done, ◌>>=◌, ◌>>◌, assert,
}
use jat_os.Bitmap.{Bitmap, minus_one, bitmap_scan, bitmap_set}

-- `struct pool` without its lock.
pub record Pool : Type 0 where
  pub pool_bitmap : Bitmap
  pub phy_addr_start : ℕ
  pub pool_size : ℕ

-- `struct virtual_addr`
pub record VirtualAddr : Type 0 where
  pub vaddr_bitmap : Bitmap
  pub vaddr_start : ℕ

-- The pools, the two bitmaps of virtual pages that the running thread uses, the words of the
-- physical memory by frame and index, and the frame of the page directory that the processor uses.
pub record Mem : Type 0 where
  pub kernel_pool : Pool
  pub user_pool : Pool
  pub kernel_vaddr : VirtualAddr
  pub userprog_vaddr : VirtualAddr
  pub word : ℕ → ℕ → ℕ
  pub dir : ℕ

-- `enum pool_flags`
pub data PoolFlags : Type 0 where
  pf_kernel pf_user : PoolFlags

abbrev pub pg_size : ℕ
pg_size = 4096

abbrev pub u32 : ℕ → ℕ
u32 n = n % 2 ^ 32

-- A number minus another, as `uint32_t`.
abbrev pub minus : ℕ → ℕ → ℕ
minus a b = (a + 2 ^ 32 - b) % 2 ^ 32

-- PG_US_U | PG_RW_W | PG_P_1
abbrev pub user_rw_present : ℕ
user_rw_present = bit_or (bit_or 4 2) 1

-- The address at which the directory maps itself.
pub pte_ptr : ℕ → ℕ
pte_ptr vaddr =
    u32 (0xffc00000 + bit_and vaddr 0xffc00000 / 2 ^ 10 + bit_and vaddr 0x003ff000 / 2 ^ 12 * 2 ^ 2)

pub pde_ptr : ℕ → ℕ
pde_ptr vaddr = u32 (0xfffff000 + bit_and vaddr 0xffc00000 / 2 ^ 20)

-- The frame that the processor finds behind a linear address, by the directory and a table.
pub walk : ℕ → Mem → ℕ
walk vaddr m = m.word (m.word m.dir (vaddr / 2 ^ 22) / 4096) (vaddr / 2 ^ 12 % 1024) / 4096

-- A word read and written at a linear address. That the entries on the way are present is not
-- tested here.
pub load : ℕ → Mem → ℕ
load vaddr m = m.word (walk vaddr m) (vaddr / 4 % 1024)

pub stored : ℕ → ℕ → Mem → ℕ → ℕ → ℕ
stored vaddr e m f i = if (walk vaddr m == f) && (vaddr / 4 % 1024 == i) then e else m.word f i

abbrev pub store : ℕ → ℕ → Mem → Mem
store vaddr e m = record m { word = stored vaddr e m }

abbrev pub set_pde : ℕ → ℕ → Mem → Mem
set_pde vaddr e m = store (pde_ptr vaddr) e m

abbrev pub set_pte : ℕ → ℕ → Mem → Mem
set_pte vaddr e m = store (pte_ptr vaddr) e m

-- `memset((void*)((uint32_t)pte&0xfffff000), 0, PG_SIZE)`: the frame in which the entry lies.
pub without_table : ℕ → Mem → ℕ → ℕ → ℕ
without_table vaddr m f i = if walk (pte_ptr vaddr) m == f then 0 else m.word f i

abbrev pub clear_table : ℕ → Mem → Mem
clear_table vaddr m = record m { word = without_table vaddr m }

abbrev pub present : ℕ → Bool
present e = not (bit_and e 1 == 0)

pub palloc : Pool → Outcome (ℕ × Pool)
palloc m_pool = do
  bit_idx ← bitmap_scan m_pool.pool_bitmap 1
  if bit_idx == minus_one then done (0, m_pool) else do
    b ← bitmap_set m_pool.pool_bitmap bit_idx 1
    done (u32 (bit_idx * pg_size + m_pool.phy_addr_start), record m_pool { pool_bitmap = b })

-- `*pde=(*pde)&0xffffffbf`, the end of page_table_add.
abbrev pub drop_dirty : ℕ → Mem → Mem
drop_dirty vaddr m = set_pde vaddr (bit_and (load (pde_ptr vaddr) m) 0xffffffbf) m

-- The branch that makes a new table.
pub table_add : ℕ → ℕ → Mem → Outcome Mem
table_add vaddr page_phyaddr m = do
  p ← palloc m.kernel_pool
  let m1 = record m { kernel_pool = p.1 }
  let m2 = clear_table vaddr (set_pde vaddr (bit_or p.0 user_rw_present) m1)
  assert (not (present (load (pte_ptr vaddr) m2)))
  done (drop_dirty vaddr (set_pte vaddr (bit_or page_phyaddr user_rw_present) m2))

pub page_table_add : ℕ → ℕ → Mem → Outcome Mem
unfolding table_add
page_table_add vaddr page_phyaddr m =
    if present (load (pde_ptr vaddr) m)
    then (do
      assert (not (present (load (pte_ptr vaddr) m)))
      done (drop_dirty vaddr (set_pte vaddr (bit_or page_phyaddr user_rw_present) m)))
    else table_add vaddr page_phyaddr m

-- `while(cnt<pg_cnt) bitmap_set(b, bit_idx_start+cnt++, value)`
pub set_run : ℕ → ℕ → ℕ → Bitmap → Outcome Bitmap
set_run zero bit_idx value b = done b
set_run (suc n) bit_idx value b = do
  b' ← bitmap_set b (u32 bit_idx) value
  set_run n (bit_idx + 1) value b'

-- The part of vaddr_get that is the same for both bitmaps: the address, or none.
pub reserve : ℕ → VirtualAddr → Outcome (Option (ℕ × VirtualAddr))
unfolding set_run
reserve pg_cnt v = do
  bit_idx_start ← bitmap_scan v.vaddr_bitmap pg_cnt
  if bit_idx_start == minus_one then done none else do
    b ← set_run pg_cnt bit_idx_start 1 v.vaddr_bitmap
    done (some (u32 (v.vaddr_start + bit_idx_start * pg_size), record v { vaddr_bitmap = b }))

kernel_reserved : Mem → Option (ℕ × VirtualAddr) → Outcome (ℕ × Mem)
kernel_reserved m none = done (0, m)
kernel_reserved m (some r) = done (r.0, record m { kernel_vaddr = r.1 })

user_reserved : Mem → Option (ℕ × VirtualAddr) → Outcome (ℕ × Mem)
user_reserved m none = done (0, m)
user_reserved m (some r) = do
  assert (ltb r.0 (0xc0000000 - pg_size))
  done (r.0, record m { userprog_vaddr = r.1 })

-- NULL is 0.
pub vaddr_get : PoolFlags → ℕ → Mem → Outcome (ℕ × Mem)
unfolding reserve kernel_reserved user_reserved
vaddr_get pf_kernel pg_cnt m = reserve pg_cnt m.kernel_vaddr >>= kernel_reserved m
vaddr_get pf_user pg_cnt m = reserve pg_cnt m.userprog_vaddr >>= user_reserved m

-- palloc of the pool that the flag names.
pub palloc_of : PoolFlags → Mem → Outcome (ℕ × Mem)
unfolding palloc
palloc_of pf_kernel m = do p ← palloc m.kernel_pool; done (p.0, record m { kernel_pool = p.1 })
palloc_of pf_user m = do p ← palloc m.user_pool; done (p.0, record m { user_pool = p.1 })

-- `while(cnt-->0)` of malloc_page
pub map_pages : PoolFlags → ℕ → ℕ → Mem → Outcome Mem
unfolding palloc_of page_table_add
map_pages pf zero vaddr m = done m
map_pages pf (suc cnt) vaddr m = do
  p ← palloc_of pf m
  m' ← page_table_add vaddr p.0 p.1
  map_pages pf cnt (u32 (vaddr + pg_size)) m'

pub malloc_page : PoolFlags → ℕ → Mem → Outcome (ℕ × Mem)
unfolding vaddr_get map_pages
malloc_page pf pg_cnt m = do
  v ← vaddr_get pf pg_cnt m
  if v.0 == 0 then done (0, v.1) else do m' ← map_pages pf pg_cnt v.0 v.1; done (v.0, m')

pub addr_v2p : ℕ → Mem → ℕ
addr_v2p vaddr m =
    if bit_and (load (pde_ptr vaddr) m) 0xfffff000 == 0
    then 0
    else u32 (bit_and (load (pte_ptr vaddr) m) 0xfffff000 + bit_and vaddr 0x00000fff)

pub pfree : ℕ → Mem → Outcome Mem
pfree pg_phy_addr m =
    if leb m.user_pool.phy_addr_start pg_phy_addr
    then (do
      b ←
          bitmap_set m.user_pool.pool_bitmap ((pg_phy_addr - m.user_pool.phy_addr_start) / pg_size)
            0
      done (record m { user_pool = record m.user_pool { pool_bitmap = b } }))
    else (do
      b ←
          bitmap_set m.kernel_pool.pool_bitmap
            (minus pg_phy_addr m.kernel_pool.phy_addr_start / pg_size) 0
      done (record m { kernel_pool = record m.kernel_pool { pool_bitmap = b } }))

-- `*pte&=~PG_P_1`; the invalidation of the TLB entry has no counterpart.
pub page_table_pte_remove : ℕ → Mem → Mem
page_table_pte_remove vaddr m = set_pte vaddr (bit_and (load (pte_ptr vaddr) m) 0xfffffffe) m

pub vaddr_remove : PoolFlags → ℕ → ℕ → Mem → Outcome Mem
unfolding set_run
vaddr_remove pf_kernel vaddr pg_cnt m = do
  b ←
      set_run pg_cnt (minus vaddr m.kernel_vaddr.vaddr_start / pg_size) 0
        m.kernel_vaddr.vaddr_bitmap
  done (record m { kernel_vaddr = record m.kernel_vaddr { vaddr_bitmap = b } })
vaddr_remove pf_user vaddr pg_cnt m = do
  b ←
      set_run pg_cnt (minus vaddr m.userprog_vaddr.vaddr_start / pg_size) 0
        m.userprog_vaddr.vaddr_bitmap
  done (record m { userprog_vaddr = record m.userprog_vaddr { vaddr_bitmap = b } })

-- The test in the loop, by the pool of the first frame.
abbrev pub in_pool : Bool → ℕ → Mem → Bool
in_pool user pg_phy_addr m =
    pg_phy_addr % pg_size == 0
    && (if user
        then leb m.user_pool.phy_addr_start pg_phy_addr
        else leb m.kernel_pool.phy_addr_start pg_phy_addr
          && ltb pg_phy_addr m.user_pool.phy_addr_start)

-- `while(page_cnt<pg_cnt)` of mfree_page_avoid_vaddr_remove and of mfree_page
pub unmap_pages : Bool → ℕ → ℕ → Mem → Outcome Mem
unfolding pfree page_table_pte_remove
unmap_pages user zero vaddr m = done m
unmap_pages user (suc n) vaddr m = do
  let pg_phy_addr = addr_v2p vaddr m
  assert (in_pool user pg_phy_addr m)
  m' ← pfree pg_phy_addr m
  unmap_pages user n (u32 (vaddr + pg_size)) (page_table_pte_remove vaddr m')

pub mfree_page_avoid_vaddr_remove : ℕ → ℕ → Mem → Outcome Mem
unfolding unmap_pages addr_v2p
mfree_page_avoid_vaddr_remove vaddr pg_cnt m = do
  assert (leb 1 pg_cnt && (vaddr % pg_size == 0))
  let pg_phy_addr = addr_v2p vaddr m
  assert ((pg_phy_addr % pg_size == 0) && leb 0x102000 pg_phy_addr)
  unmap_pages (leb m.user_pool.phy_addr_start pg_phy_addr) pg_cnt vaddr m

-- mfree_page between its lock_acquire and its lock_release, with the tests before them.
pub mfree_page : PoolFlags → ℕ → ℕ → Mem → Outcome Mem
unfolding mfree_page_avoid_vaddr_remove vaddr_remove
mfree_page pf vaddr pg_cnt m = do
  m' ← mfree_page_avoid_vaddr_remove vaddr pg_cnt m
  vaddr_remove pf vaddr pg_cnt m'
