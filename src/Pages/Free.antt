-- ===== src/Pages/Free.antt =====
-- mfree_page of kernel/memop/memory.c on a run of pages.
use jat_os.Prelude.{
  ℕ, ◌+◌, ◌-◌, ◌*◌, ◌/◌, ◌%◌, ◌^◌, ◌≤◌, ◌<◌, ◌≡◌, refl, ap, sym, ◌∙◌, Bool, true, ◌==◌, ◌&&◌, ◌⊎◌,
  ltb, leb, if◌then◌else◌, none, some, inl, inr, done, arith, Bool-cases,
}
use jat_os.Bitmap.{Bitmap}
use jat_os.Bitmap.Set.{is_free}
use jat_os.Pages.{
  Mem, VirtualAddr, PoolFlags, pf_kernel, pf_user, mfree_page, mfree_page_avoid_vaddr_remove,
}
use jat_os.Pages.Frames.{frames}
use jat_os.Pages.Behind.{frame_of}
use jat_os.Pages.Inv.{frame_no, Inv, Reserved}
use jat_os.Pages.Later.{pool_of}
use jat_os.Pages.Loop.{Backed}
use jat_os.Pages.Pick.{bits_of, set_run-RunSet, RunSet}
use jat_os.Pages.Reserve.{pages_of}
use jat_os.Pages.Unmap.{frame_at}
use jat_os.Pages.Drop.{is_user}
use jat_os.Pages.Round.{Unmapped, unmap_pages-Unmapped}

-- The frames below the kernel pool belong to the kernel itself.
abbrev pub low_memory : ℕ
low_memory = 0x102000

module _ (m : Mem) (pf : PoolFlags) (cnt v : ℕ) (inv : Inv m) (pos : 0 < cnt) (al : v % 4096 ≡ 0)
    (fits : v + cnt * 4096 < 2 ^ 32) (above : low_memory ≤ m.kernel_pool.phy_addr_start)
    (backed : (k : ℕ) → k < cnt → Backed m (pool_of pf m) (v / 4096 + k)) where
  which_pool :
      (i : ℕ)
      → i < frames (pool_of pf m)
      → leb m.user_pool.phy_addr_start ((pool_of pf m).phy_addr_start + i * 4096) ≡ is_user pf
  which_pool i lt =
      elim pf
          as (λ f.
            i < frames (pool_of f m)
            → leb m.user_pool.phy_addr_start ((pool_of f m).phy_addr_start + i * 4096)
              ≡ is_user f) [
                | pf_kernel ↦ λ below. (let apart = inv.apart in ground arith)
                | pf_user ↦ λ below. ground arith
              ]
        lt

  pool_above : low_memory ≤ (pool_of pf m).phy_addr_start
  pool_above = elim pf as (λ f. low_memory ≤ (pool_of f m).phy_addr_start) [
    | pf_kernel ↦ above
    | pf_user ↦ (let apart = inv.apart in omega arith)
  ]

  pool_aligned : (pool_of pf m).phy_addr_start % 4096 ≡ 0
  pool_aligned = elim pf as (λ f. (pool_of f m).phy_addr_start % 4096 ≡ 0) [
    | pf_kernel ↦ inv.kernel.well_formed.aligned
    | pf_user ↦ inv.user.well_formed.aligned
  ]

  pub avoid-Unmapped :
      (m' : Mem) × (mfree_page_avoid_vaddr_remove v cnt m ≡ done m') × Unmapped m m' v cnt
  unfolding mfree_page_avoid_vaddr_remove
  avoid-Unmapped =
      let (i, lt, e) = backed 0 pos in
      let e' : frame_of m (v / 2 ^ 12) ≡ some (frame_no (pool_of pf m) i) =
        ap (frame_of m) (omega arith) ∙ e in
      let place = frame_at m v i inv al pf lt e' in
      let (m', run, un) = unmap_pages-Unmapped m pf cnt v inv al fits backed in
      let user = which_pool i lt in
      let a1 : (leb 1 cnt && (v % 4096 == 0)) ≡ true = ground arith in
      let low = pool_above in
      let aligned = pool_aligned in
      let phys = (pool_of pf m).phy_addr_start + i * 4096 in
      let a2 : ((phys % 4096 == 0) && leb 0x102000 phys) ≡ true = ground arith in
      (m', rw (place, a1, a2, user) run, un)

-- What mfree_page does to `cnt` pages from `v` on.
pub record Freed (m m' : Mem) (pf : PoolFlags) (cnt v : ℕ) : Type 0 where
  pub runs : mfree_page pf v cnt m ≡ done m'
  pub inv : Inv m'
  pub gone : (k : ℕ) → k < cnt → frame_of m' (v / 4096 + k) ≡ none
  pub old :
      (page : ℕ) → (page < v / 4096) ⊎ (v / 4096 + cnt ≤ page) → frame_of m' page ≡ frame_of m page
  pub free_again :
      (k : ℕ)
      → k < cnt
      → is_free (pages_of pf m').vaddr_bitmap ((v - (pages_of pf m).vaddr_start) / 4096 + k) ≡ true

-- Pages given back to a bitmap, when they have no frames.
pub record GivenBack (m : Mem) (r r' : VirtualAddr) (i cnt : ℕ) : Type 0 where
  pub start : r'.vaddr_start ≡ r.vaddr_start
  pub same_len : r'.vaddr_bitmap.btmp_bytes_len ≡ r.vaddr_bitmap.btmp_bytes_len
  pub reserved : Reserved m r'
  pub free_again : (k : ℕ) → k < cnt → is_free r'.vaddr_bitmap (i + k) ≡ true

pub RunSet-GivenBack :
    (m : Mem) (r : VirtualAddr) (i cnt : ℕ)
    → Reserved m r
    → i + cnt ≤ bits_of r
    → ((k : ℕ) → k < cnt → frame_of m (r.vaddr_start / 4096 + i + k) ≡ none)
    → (b : Bitmap) × RunSet r.vaddr_bitmap b cnt i 0
      × GivenBack m r (record r { vaddr_bitmap = b }) i cnt
RunSet-GivenBack m r i cnt ok inside gone =
    let ends = ok.ends in
    let (b, set) = set_run-RunSet cnt i 0 r.vaddr_bitmap ok.bytes (omega arith) (omega arith) in
    (
      b,
      set,
      record {
        start = refl;
        same_len = set.same_len;
        reserved = record {
          bytes = set.bytes;
          ends = omega (arith, set.same_len);
          above = ok.above;
          aligned = ok.aligned;
          no_frame = λ j lt free. elim (Bool-cases (leb i j && ltb j (i + cnt))) [
            | inl e ↦ ap (frame_of m) (ground arith) ∙ gone (j - i) (ground arith)
            | inr e ↦ ok.no_frame j (omega (arith, set.same_len)) (
                sym (ap (λ (t : Bool). if t then true else is_free r.vaddr_bitmap j) e)
                ∙ sym (set.reads j)
                ∙ free)
          ];
        };
        free_again = λ k lt. set.reads (i + k) ∙ ground arith;
      },
    )
