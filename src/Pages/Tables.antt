-- ===== src/Pages/Tables.antt =====
-- The frames of the page tables (kernel/memop/memory.c): no pool gives them out again.
use jat_os.Prelude.{ℕ, ◌+◌, ◌/◌, ◌<◌, ◌≡◌, ◌≢◌, sym, ◌∙◌, true, false, some, ◌⊎◌, inl, inr, arith}
use jat_os.Pages.{Mem, Pool, VirtualAddr, present}
use jat_os.Pages.Window.{pde}
use jat_os.Pages.Frames.{frames, frame_free}
use jat_os.Pages.Behind.{frame_of}
use jat_os.Pages.Link.{KeepsTables, AddsTable}
use jat_os.Pages.Map.{FreshFrames}

-- A frame that is the directory, or a table of the pages from 4 MiB on.
pub data IsTable (m : Mem) (f : ℕ) : Type 0 where
  directory : f ≡ m.dir → IsTable m f
  at_index :
      (i : ℕ) → 0 < i → i < 1023 → present (pde m i) ≡ true → f ≡ pde m i / 4096 → IsTable m f

-- Tables of the kernel pool are taken, no page lies in a table, and none is in the user pool.
pub record TablesApart (m : Mem) : Type 0 where
  pub taken :
      (f j : ℕ)
      → IsTable m f
      → j < frames m.kernel_pool
      → f ≡ m.kernel_pool.phy_addr_start / 4096 + j
      → frame_free m.kernel_pool j ≡ false
  pub no_page : (page f : ℕ) → IsTable m f → frame_of m page ≢ some f
  pub below_user : (f : ℕ) → IsTable m f → f < m.user_pool.phy_addr_start / 4096

pub TablesApart-FreshFrames : (m : Mem) → TablesApart m → FreshFrames m
TablesApart-FreshFrames m tables j lt free f e = record {
  no_dir = λ s. (let t = tables.taken f j (directory s) lt e in absurd (ground arith));
  no_table = λ i lo hi on s.
      let t = tables.taken f j (at_index i lo hi on s) lt e in absurd (ground arith);
}

-- The tables are those of the words and the directory.
pub IsTable-same :
    (m : Mem) (k u : Pool) (a b : VirtualAddr) (f : ℕ)
    → IsTable (record m { kernel_pool = k; user_pool = u; kernel_vaddr = a; userprog_vaddr = b }) f
    → IsTable m f
IsTable-same m k u a b f (directory e) = directory e
IsTable-same m k u a b f (at_index i lo hi on e) = at_index i lo hi on e

pub IsTable-kept :
    (m m' : Mem) (f : ℕ) → m'.dir ≡ m.dir → KeepsTables m m' → IsTable m' f → IsTable m f
IsTable-kept m m' f d keeps (directory e) = directory (e ∙ d)
IsTable-kept m m' f d keeps (at_index i lo hi on e) =
    let (on', same) = keeps i on in at_index i lo hi on' (e ∙ sym same)

pub IsTable-added :
    (m m' : Mem) (q f : ℕ)
    → m'.dir ≡ m.dir
    → AddsTable m m' q
    → IsTable m' f
    → IsTable m f ⊎ (f ≡ q)
IsTable-added m m' q f d adds (directory e) = inl (directory (e ∙ d))
IsTable-added m m' q f d adds (at_index i lo hi on e) = elim (adds i on) [
  | inl old ↦ inl (at_index i lo hi old.0 (e ∙ sym old.1))
  | inr new ↦ inr (e ∙ new)
]
