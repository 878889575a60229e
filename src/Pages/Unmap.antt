-- ===== src/Pages/Unmap.antt =====
-- One round of the loop of mfree_page (kernel/memop/memory.c): a page gives its frame back.
use jat_os.Prelude.{
  ℕ, ◌+◌, ◌-◌, ◌*◌, ◌/◌, ◌%◌, ◌^◌, ◌<◌, ◌≡◌, ◌≢◌, refl, ap, sym, ◌∙◌, Bool, true, false, ◌==◌, leb,
  if◌then◌else◌, Option, none, some, done, arith, bit_and,
}
use jat_os.Bitmap.Set.{bitmap_set-Updated}
use jat_os.Pages.{
  Mem, Pool, PoolFlags, pf_kernel, pf_user, present, load, pte_ptr, addr_v2p, pfree,
  page_table_pte_remove, in_pool, minus,
}
use jat_os.Pages.Masks.{present_lem, and_absent}
use jat_os.Pages.Frames.{frames, frame_free}
use jat_os.Pages.Map.{addr_v2p-frame}
use jat_os.Pages.Window.{pde, table, inside, Entries, load-pte_ptr}
use jat_os.Pages.Writes.{inside_lt, set_pte-pde, frame_of-set_pte, set_pte-Entries}
use jat_os.Pages.Behind.{frame_of, frame_of-pools, frame_of-some}
use jat_os.Pages.Tables.{IsTable, directory, at_index, TablesApart}
use jat_os.Pages.Inv.{frame_no, Inv, Owned}
use jat_os.Pages.Later.{pool_of, Same}
use jat_os.Pages.Drop.{
  is_user, kept, bitmap_set-Returned, DropsFrame, Owned-Returned, Owned-Drops, Reserved-Drops,
}

-- What a round does to the page at `v`, behind which frame `i` of the pool lies.
pub record Dropped (m m' : Mem) (pf : PoolFlags) (v i : ℕ) : Type 0 where
  pub inv : Inv m'
  pub same : Same m m'
  pub drops : DropsFrame m m' v
  pub frame_back :
      (j : ℕ)
      → frame_free (pool_of pf m') j ≡ (if i == j then true else frame_free (pool_of pf m) j)

abbrev removed : Mem → ℕ → Pool → Pool → Mem
removed m v k u = page_table_pte_remove v (record m { kernel_pool = k; user_pool = u })

-- The entry of a page that had a frame, without the present bit.
module _ (m : Mem) (k u : Pool) (v f : ℕ) (ok : Entries m)
    (had : frame_of m (v / 2 ^ 12) ≡ some f) where
  abbrev m0 : Mem
  m0 = record m { kernel_pool = k; user_pool = u }

  abbrev e : ℕ
  e = bit_and (load (pte_ptr v) m0) 0xfffffffe

  ok0 : Entries m0
  ok0 = record {
    fits = ok.fits;
    above = ok.above;
    itself = ok.itself;
    not_dir = ok.not_dir;
    own = ok.own;
  }

  at : inside (v / 2 ^ 12) ≡ true
  at = (frame_of-some m (v / 2 ^ 12) f had).0

  here : present (pde m0 (v / 2 ^ 22)) ≡ true
  here =
      let d : v / 2 ^ 22 ≡ v / 2 ^ 12 / 1024 = omega arith in
      ap (λ (t : ℕ). present (pde m t)) d ∙ (frame_of-some m (v / 2 ^ 12) f had).1

  cleared : (present e ≡ false) × (e < 2 ^ 32)
  cleared =
      let w = load-pte_ptr m0 v ok0.itself (inside_lt v at) in
      let old = ok.fits (table m (v / 2 ^ 12)) (v / 2 ^ 12 % 1024) in
      let c = and_absent (load (pte_ptr v) m0) (omega arith) in
      (present_lem e ∙ ground (arith, c), omega (arith, c))

  removed-Entries : Entries (removed m v k u)
  unfolding page_table_pte_remove
  removed-Entries = set_pte-Entries m0 v e ok0 here at cleared.1

  removed-DropsFrame : DropsFrame m (removed m v k u) v
  unfolding page_table_pte_remove
  removed-DropsFrame page =
      let off = cleared.0 in
      frame_of-set_pte m0 v e ok0 here at page
      ∙ ap
          (λ (b : Bool).
            if v / 2 ^ 12 == page then (if b then some (e / 4096) else none) else frame_of m0 page)
          off
      ∙ ap (λ (t : Option ℕ). if v / 2 ^ 12 == page then none else t) (frame_of-pools m k u page)

  removed-IsTable : (g : ℕ) → IsTable (removed m v k u) g → IsTable m g
  unfolding page_table_pte_remove
  removed-IsTable g (directory at_dir) = directory at_dir
  removed-IsTable g (at_index i lo hi on at_g) =
      let same = set_pte-pde m0 v e ok0 here at i in
      at_index i lo hi (ap present (sym same) ∙ on) (at_g ∙ ap (λ (t : ℕ). t / 4096) same)

module _ (m : Mem) (v i : ℕ) (pf : PoolFlags) (inv : Inv m) (k u : Pool)
    (had : frame_of m (v / 2 ^ 12) ≡ some (frame_no (pool_of pf m) i))
    (ok : Owned (removed m v k u) k) (ou : Owned (removed m v k u) u)
    (ks : k.phy_addr_start ≡ m.kernel_pool.phy_addr_start) (kl : frames k ≡ frames m.kernel_pool)
    (us : u.phy_addr_start ≡ m.user_pool.phy_addr_start) (ul : frames u ≡ frames m.user_pool)
    (free_before : (j : ℕ)
      → frame_no (pool_of pf m) i ≢ frame_no m.kernel_pool j
      → frame_free m.kernel_pool j ≡ false
      → frame_free k j ≡ false) where
  removed-TablesApart : TablesApart (removed m v k u)
  unfolding page_table_pte_remove
  removed-TablesApart =
      let old = removed-IsTable m k u v (frame_no (pool_of pf m) i) inv.entries had in
      let drops = removed-DropsFrame m k u v (frame_no (pool_of pf m) i) inv.entries had in
      record {
        taken = λ f j t lt e.
            let e' = e ∙ ap (λ (x : ℕ). x / 4096 + j) ks in
            free_before j
              (λ s. inv.tables.no_page (v / 2 ^ 12) f (old f t) (had ∙ ap some (s ∙ sym e')))
              (inv.tables.taken f j (old f t) (omega arith) e');
        no_page = λ page f t e.
            inv.tables.no_page page f (old f t) (kept m (removed m v k u) v page f drops e).1;
        below_user = λ f t. (let b = inv.tables.below_user f (old f t) in omega (arith, us));
      }

  removed-Dropped :
      ((j : ℕ)
        → frame_free (pool_of pf (removed m v k u)) j
          ≡ (if i == j then true else frame_free (pool_of pf m) j))
      → Dropped m (removed m v k u) pf v i
  unfolding page_table_pte_remove
  removed-Dropped back =
      let drops = removed-DropsFrame m k u v (frame_no (pool_of pf m) i) inv.entries had in
      let apart = inv.apart in
      let e = removed-Entries m k u v (frame_no (pool_of pf m) i) inv.entries had in
      let t = removed-TablesApart in
      record {
        inv = record {
          entries = e;
          tables = t;
          kernel = ok;
          user = ou;
          apart = omega arith;
          kernel_pages = Reserved-Drops m (removed m v k u) v drops m.kernel_vaddr inv.kernel_pages;
          user_pages = Reserved-Drops m (removed m v k u) v drops m.userprog_vaddr inv.user_pages;
          below_kernel = inv.below_kernel;
        };
        same = record {
          kernel_vaddr_same = refl;
          userprog_vaddr_same = refl;
          kernel_start = ks;
          kernel_len = kl;
          user_start = us;
          user_len = ul;
        };
        drops = drops;
        frame_back = back;
      }

module _ (m : Mem) (v i : ℕ) (inv : Inv m) (al : v % 4096 ≡ 0) where
  -- Where the page goes.
  pub frame_at :
      (pf : PoolFlags)
      → i < frames (pool_of pf m)
      → frame_of m (v / 2 ^ 12) ≡ some (frame_no (pool_of pf m) i)
      → addr_v2p v m ≡ (pool_of pf m).phy_addr_start + i * 4096
  frame_at pf_kernel lt e =
      let a = inv.kernel.well_formed.aligned in
      omega (arith, addr_v2p-frame m v (frame_no m.kernel_pool i) inv.entries e)
  frame_at pf_user lt e =
      let a = inv.user.well_formed.aligned in
      omega (arith, addr_v2p-frame m v (frame_no m.user_pool i) inv.entries e)

  pub in_pool-frame :
      (pf : PoolFlags)
      → i < frames (pool_of pf m)
      → in_pool (is_user pf) ((pool_of pf m).phy_addr_start + i * 4096) m ≡ true
  in_pool-frame pf_kernel lt =
      (let a = inv.kernel.well_formed.aligned in let apart = inv.apart in ground arith)
  in_pool-frame pf_user lt = (let a = inv.user.well_formed.aligned in ground arith)

  pub free_frame :
      (pf : PoolFlags)
      → i < frames (pool_of pf m)
      → frame_of m (v / 2 ^ 12) ≡ some (frame_no (pool_of pf m) i)
      → (m1 : Mem) × (pfree ((pool_of pf m).phy_addr_start + i * 4096) m ≡ done m1)
        × Dropped m (page_table_pte_remove v m1) pf v i
  unfolding pfree
  free_frame pf_user lt e =
      let user = m.user_pool in
      let (b, up) =
        bitmap_set-Updated user.pool_bitmap i 0 inv.user.well_formed.bytes (omega arith) in
      let p' : Pool = record user { pool_bitmap = b } in
      let ret = bitmap_set-Returned user i b inv.user.well_formed up in
      let above : leb user.phy_addr_start (user.phy_addr_start + i * 4096) ≡ true = ground arith in
      let index : (user.phy_addr_start + i * 4096 - user.phy_addr_start) / 4096 ≡ i = omega arith in
      let drops = removed-DropsFrame m m.kernel_pool p' v (frame_no user i) inv.entries e in
      let m' = removed m v m.kernel_pool p' in
      (
        record m { user_pool = p' },
        rw (above, index, up.runs) refl,
        removed-Dropped m v i pf_user inv m.kernel_pool p' e
            (Owned-Drops m m' v drops m.kernel_pool inv.kernel)
            (Owned-Returned m m' v drops user p' i inv.user lt e ret) refl refl refl ret.len
            (λ j ne was. was) (unfold page_table_pte_remove in ret.reads),
      )
  free_frame pf_kernel lt e =
      let kernel = m.kernel_pool in
      let (b, up) =
        bitmap_set-Updated kernel.pool_bitmap i 0 inv.kernel.well_formed.bytes (omega arith) in
      let p' : Pool = record kernel { pool_bitmap = b } in
      let ret = bitmap_set-Returned kernel i b inv.kernel.well_formed up in
      let apart = inv.apart in
      let ends = inv.kernel.well_formed.ends in
      let below : leb m.user_pool.phy_addr_start (kernel.phy_addr_start + i * 4096) ≡ false =
        ground arith in
      let index : minus (kernel.phy_addr_start + i * 4096) kernel.phy_addr_start / 4096 ≡ i =
        omega arith in
      let drops = removed-DropsFrame m p' m.user_pool v (frame_no kernel i) inv.entries e in
      let m' = removed m v p' m.user_pool in
      (
        record m { kernel_pool = p' },
        rw (below, index, up.runs) refl,
        removed-Dropped m v i pf_kernel inv p' m.user_pool e
            (Owned-Returned m m' v drops kernel p' i inv.kernel lt e ret)
            (Owned-Drops m m' v drops m.user_pool inv.user) refl ret.len refl refl
            (λ j ne was.
              (let other : i ≢ j = λ s. ne (ap (frame_no kernel) s) in
                ret.reads j ∙ ground (arith, other, was)))
            (unfold page_table_pte_remove in ret.reads),
      )
