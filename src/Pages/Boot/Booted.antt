-- ===== src/Pages/Boot/Booted.antt =====
-- The allocator's invariant behind mem_pool_init (kernel/memop/memory.c).
use jat_os.Prelude.{
  ℕ, ◌+◌, ◌-◌, ◌*◌, ◌/◌, ◌%◌, ◌^◌, ◌≤◌, ◌<◌, ◌≡◌, ◌≢◌, refl, sym, ◌∙◌, true, none, some, done,
  arith,
}
use jat_os.Bitmap.Init.{empty, empty-IsBytes}
use jat_os.Bitmap.Set.{IsBytes}
use jat_os.Pages.{Mem, Pool, VirtualAddr}
use jat_os.Pages.Frames.{frames, frame_free}
use jat_os.Pages.Window.{Entries}
use jat_os.Pages.Tables.{IsTable, IsTable-same}
use jat_os.Pages.Behind.{frame_of, frame_of-pools, frame_of-pages}
use jat_os.Pages.Inv.{Owned, Reserved, Inv}
use jat_os.Pages.Pick.{bits_of}
use jat_os.Pages.Boot.{mem_pool_init, Places, k_heap_start, mem_bitmap_base, main_page}

-- What the loader leaves: entries that are 32-bit numbers, a directory that maps itself, tables of
-- their own and below the pools from 4 MiB on, none of them behind a page, bytes where the bitmaps
-- will be, nothing behind the pages of the heap, and only frames below the pools behind the others.
pub record Loaded (m : Mem) : Type 0 where
  pub entries : Entries m
  pub low_tables : (f : ℕ) → IsTable m f → f < 0x200
  pub no_page : (page f : ℕ) → IsTable m f → frame_of m page ≢ some f
  pub kernel_bytes : IsBytes m.kernel_pool.pool_bitmap
  pub user_bytes : IsBytes m.user_pool.pool_bitmap
  pub page_bytes : IsBytes m.kernel_vaddr.vaddr_bitmap
  pub no_heap : (page : ℕ) → k_heap_start / 4096 ≤ page → page < 0xd0000 → frame_of m page ≡ none
  pub low_frames : (page f : ℕ) → frame_of m page ≡ some f → f < 0x200
  pub user_pages : Reserved m m.userprog_vaddr
  pub below : m.userprog_vaddr.vaddr_start + bits_of m.userprog_vaddr * 4096 ≤ k_heap_start

-- The first memory of a pool: its frames are all free, and lie behind no page.
first_Owned :
    (m : Mem) (b : ℕ → ℕ) (n start size : ℕ)
    → ((page f : ℕ) → frame_of m page ≡ some f → f < 0x200)
    → ((q : ℕ) → b q < 256)
    → start % 4096 ≡ 0
    → 0x200000 ≤ start
    → start + n * 8 * 4096 ≤ 2 ^ 32
    → Owned m (record { pool_bitmap = empty b n; phy_addr_start = start; pool_size = size })
first_Owned m b n start size low bytes al from ends = record {
  well_formed = record {
    bytes = empty-IsBytes b n bytes;
    ends = ends;
    above = omega arith;
    aligned = al;
  };
  used = λ page i lt e. absurd (let f = low page (start / 4096 + i) e in omega arith);
  single = λ x y i lt e1 e2. absurd (let f = low x (start / 4096 + i) e1 in omega arith);
}

-- What mem_pool_init sets up in a memory of `all_mem` bytes.
pub record Booted (all_mem : ℕ) (m m' : Mem) (at_bits : Places) : Type 0 where
  pub runs : mem_pool_init all_mem m ≡ done (m', at_bits)
  pub inv : Inv m'
  pub kernel_start : m'.kernel_pool.phy_addr_start ≡ 0x200000
  pub ends : m'.user_pool.phy_addr_start + frames m'.user_pool * 4096 ≤ all_mem
  pub kernel_free : (i : ℕ) → i < frames m'.kernel_pool → frame_free m'.kernel_pool i ≡ true
  pub user_free : (i : ℕ) → i < frames m'.user_pool → frame_free m'.user_pool i ≡ true
  pub lost : all_mem < m'.user_pool.phy_addr_start + frames m'.user_pool * 4096 + 8 * 4096
  pub kernel_bits :
      at_bits.kernel_bits + m'.kernel_pool.pool_bitmap.btmp_bytes_len ≡ at_bits.user_bits
  pub user_bits : at_bits.user_bits + m'.user_pool.pool_bitmap.btmp_bytes_len ≡ at_bits.vaddr_bits
  pub below_main : at_bits.vaddr_bits + m'.kernel_vaddr.vaddr_bitmap.btmp_bytes_len ≤ main_page

module _ (m : Mem) (all_mem : ℕ) (ok : Loaded m) (enough : 0x210000 ≤ all_mem)
    (most : all_mem ≤ 0x15600000) where
  abbrev pages_free : ℕ
  pages_free = (all_mem - 0x200000) / 4096

  abbrev kbm : ℕ
  kbm = pages_free / 2 / 8

  abbrev ubm : ℕ
  ubm = (pages_free - pages_free / 2) / 8

  abbrev kernel : Pool
  kernel = record {
    pool_bitmap = empty m.kernel_pool.pool_bitmap.bits kbm;
    phy_addr_start = 0x200000;
    pool_size = pages_free / 2 * 4096;
  }

  abbrev user : Pool
  user = record {
    pool_bitmap = empty m.user_pool.pool_bitmap.bits ubm;
    phy_addr_start = 0x200000 + pages_free / 2 * 4096;
    pool_size = (pages_free - pages_free / 2) * 4096;
  }

  abbrev heap : VirtualAddr
  heap = record {
    vaddr_bitmap = empty m.kernel_vaddr.vaddr_bitmap.bits kbm;
    vaddr_start = k_heap_start;
  }

  abbrev pub booted : Mem
  booted = record m { kernel_pool = kernel; user_pool = user; kernel_vaddr = heap }

  pub booted_frames : (page : ℕ) → frame_of booted page ≡ frame_of m page
  booted_frames page =
      frame_of-pages (record m { kernel_pool = kernel; user_pool = user }) heap m.userprog_vaddr
        page
      ∙ frame_of-pools m kernel user page

  booted_tables : (f : ℕ) → IsTable booted f → IsTable m f
  booted_tables f t = IsTable-same m kernel user heap m.userprog_vaddr f t

  booted_low : (page f : ℕ) → frame_of booted page ≡ some f → f < 0x200
  booted_low page f e = ok.low_frames page f (sym (booted_frames page) ∙ e)

  pub booted-Inv : Inv booted
  booted-Inv = record {
    entries = record {
      fits = ok.entries.fits;
      above = ok.entries.above;
      itself = ok.entries.itself;
      not_dir = ok.entries.not_dir;
      own = ok.entries.own;
    };
    tables = record {
      taken = λ f j t lt e. absurd (let low = ok.low_tables f (booted_tables f t) in omega arith);
      no_page = λ page f t e. ok.no_page page f (booted_tables f t) (sym (booted_frames page) ∙ e);
      below_user = λ f t. (let low = ok.low_tables f (booted_tables f t) in omega arith);
    };
    kernel =
        first_Owned booted m.kernel_pool.pool_bitmap.bits kbm 0x200000 _ booted_low ok.kernel_bytes
          refl (omega arith) (omega arith);
    user =
        first_Owned booted m.user_pool.pool_bitmap.bits ubm (0x200000 + pages_free / 2 * 4096) _
          booted_low ok.user_bytes (omega arith) (omega arith) (omega arith);
    apart = omega arith;
    kernel_pages = record {
      bytes = empty-IsBytes m.kernel_vaddr.vaddr_bitmap.bits kbm ok.page_bytes;
      ends = omega arith;
      above = omega arith;
      aligned = refl;
      no_frame = λ i lt free.
          booted_frames (k_heap_start / 4096 + i)
          ∙ ok.no_heap (k_heap_start / 4096 + i) (omega arith) (omega arith);
    };
    user_pages =
        (let u = ok.user_pages in
          record {
            bytes = u.bytes;
            ends = u.ends;
            above = u.above;
            aligned = u.aligned;
            no_frame = λ i lt free.
                booted_frames (m.userprog_vaddr.vaddr_start / 4096 + i) ∙ u.no_frame i lt free;
          });
    below_kernel = ok.below;
  }

  abbrev places : Places
  places = record {
    kernel_bits = mem_bitmap_base;
    user_bits = mem_bitmap_base + kbm;
    vaddr_bits = mem_bitmap_base + kbm + ubm;
  }
