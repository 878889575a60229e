-- ===== src/Pages/Grow.antt =====
-- One round of the loop of malloc_page (kernel/memop/memory.c): a frame for a page.
use jat_os.Prelude.{
  ℕ, ◌+◌, ◌*◌, ◌/◌, ◌^◌, ◌≤◌, ◌≡◌, refl, ap, sym, ◌∙◌, ◌==◌, if◌then◌else◌, some, inl, inr, Outcome,
  done, arith, ◌>>=◌, subst,
}
use jat_os.Pages.{Mem, Pool, PoolFlags, pf_kernel, pf_user, palloc, palloc_of, page_table_add}
use jat_os.Pages.Frames.{frames}
use jat_os.Pages.Behind.{frame_of, frame_of-pools}
use jat_os.Pages.Inv.{frame_no, AddsFrame, Owned, Reserved, Inv, Took, Reserved-Added, palloc-Took}
use jat_os.Pages.Count.{free_count, free_count-Took, free_count-full}
use jat_os.Pages.Later.{
  pool_of, PageTaken, Grown, Later, Later-start, Later-len, Later-left, other_pool, same_pool,
}
use jat_os.Pages.Tables.{TablesApart}
use jat_os.Pages.Apart.{TablesApart-Grown, FreshFrames-pools, TableOf-pools}
use jat_os.Pages.Entry.{TableAdded, page_table_add-TableAdded, Reserved-pages}

-- What a round needs: two frames of the kernel pool, one of them for a table, and one of the user
-- pool.
pub record Enough (m : Mem) (cnt : ℕ) : Type 0 where
  pub in_kernel : 2 * cnt ≤ free_count m.kernel_pool
  pub in_user : cnt ≤ free_count m.user_pool

-- A round of the loop.
abbrev pub round : PoolFlags → ℕ → Mem → Outcome Mem
round pf v m = do p ← palloc_of pf m; page_table_add v p.0 p.1

module _ (m : Mem) (v : ℕ) (inv : Inv m) (page_taken : PageTaken m v) (enough : Enough m 1) where
  private_pages :
      (m' : Mem) (q : ℕ)
      → AddsFrame m m' v q
      → m'.kernel_vaddr ≡ m.kernel_vaddr
      → m'.userprog_vaddr ≡ m.userprog_vaddr
      → Reserved m' m'.kernel_vaddr × Reserved m' m'.userprog_vaddr
  private_pages m' q adds ek eu = (
    Reserved-pages m m' m.kernel_vaddr m'.kernel_vaddr ek
        (Reserved-Added m m' v q m.kernel_vaddr inv.kernel_pages adds page_taken.kernel_bit),
    Reserved-pages m m' m.userprog_vaddr m'.userprog_vaddr eu
        (Reserved-Added m m' v q m.userprog_vaddr inv.user_pages adds page_taken.user_bit),
  )

  grown :
      (pf : PoolFlags) (m1 m' : Mem) (i : ℕ)
      → Took (pool_of pf m) (pool_of pf m1) i
      → TableAdded m m1 m' v (frame_no (pool_of pf m) i * 4096)
      → TablesApart m'
      → Owned m' m'.kernel_pool
      → Owned m' m'.user_pool
      → m1.kernel_vaddr ≡ m.kernel_vaddr
      → m1.userprog_vaddr ≡ m.userprog_vaddr
      → Later m.kernel_pool m1.kernel_pool
      → Later m.user_pool m1.user_pool
      → Grown m m' pf v
  grown pf m1 m' i took ta tables kernel user ek eu lk lu =
      let kernel_start =
        Later-start m1.kernel_pool m'.kernel_pool ta.kernel_later
        ∙ Later-start m.kernel_pool m1.kernel_pool lk in
      let kernel_len =
        Later-len m1.kernel_pool m'.kernel_pool ta.kernel_later
        ∙ Later-len m.kernel_pool m1.kernel_pool lk in
      let user_start =
        ap (λ (t : Pool). t.phy_addr_start) ta.user_same
        ∙ Later-start m.user_pool m1.user_pool lu in
      let user_len =
        ap (λ (t : Pool). frames t) ta.user_same ∙ Later-len m.user_pool m1.user_pool lu in
      let ek' = ta.kernel_vaddr_same ∙ ek in
      let eu' = ta.userprog_vaddr_same ∙ eu in
      let pages = private_pages m' (frame_no (pool_of pf m) i * 4096) ta.adds ek' eu' in
      let apart = inv.apart in
      record {
        inv = record {
          entries = ta.entries;
          tables = tables;
          kernel = kernel;
          user = user;
          apart = omega (arith, kernel_start, kernel_len, user_start);
          kernel_pages = pages.0;
          user_pages = pages.1;
          below_kernel =
              subst
                (λ t.
                  t.vaddr_start + t.vaddr_bitmap.btmp_bytes_len * 8 * 4096
                  ≤ m'.kernel_vaddr.vaddr_start)
                (sym eu')
                (subst
                  (λ t.
                    m.userprog_vaddr.vaddr_start
                      + m.userprog_vaddr.vaddr_bitmap.btmp_bytes_len * 8 * 4096
                    ≤ t.vaddr_start)
                  (sym ek') inv.below_kernel);
        };
        same = record {
          kernel_vaddr_same = ek';
          userprog_vaddr_same = eu';
          kernel_start = kernel_start;
          kernel_len = kernel_len;
          user_start = user_start;
          user_len = user_len;
        };
        frame = i;
        inside = took.inside;
        was_free = took.was_free;
        frames_are = λ page.
            ta.adds page
            ∙ ap (λ (t : ℕ). if v / 2 ^ 12 == page then some t else frame_of m page) (omega arith);
        kernel_left = omega (
          arith,
          Later-left m1.kernel_pool m'.kernel_pool ta.kernel_later,
          Later-left m.kernel_pool m1.kernel_pool lk,
        );
        user_left =
            omega (arith, ap free_count ta.user_same, Later-left m.user_pool m1.user_pool lu);
      }

  round-kernel :
      (i : ℕ) (k : Pool)
      → palloc m.kernel_pool ≡ done (frame_no m.kernel_pool i * 4096, k)
      → Took m.kernel_pool k i
      → (m' : Mem) × (round pf_kernel v m ≡ done m') × Grown m m' pf_kernel v
  unfolding palloc_of
  round-kernel i k e took =
      let ok = inv.kernel.well_formed in
      let ends = ok.ends in
      let user_ok = inv.user.well_formed in
      let apart = inv.apart in
      let inside = took.inside in
      let q = frame_no m.kernel_pool i * 4096 in
      let left = free_count-Took m.kernel_pool k i took in
      let need = enough.in_kernel in
      let m1 : Mem = record m { kernel_pool = k } in
      let at_start = took.start in
      let (m', ta) =
        page_table_add-TableAdded m m1 v q
          (record {
            fits = inv.entries.fits;
            above = inv.entries.above;
            itself = inv.entries.itself;
            not_dir = inv.entries.not_dir;
            own = inv.entries.own;
          })
          (frame_of-pools m k m.user_pool) took.well_formed
          (FreshFrames-pools m k m.user_pool inv.tables (inr (i, took))) page_taken.at_page
          page_taken.no_frame (omega arith) (omega arith) (omega arith) in
      (
        m',
        (rw e ta.runs),
        grown pf_kernel m1 m' i took ta
            (TablesApart-Grown m m' k v q inv.tables inv.kernel (inr (i, took)) ta.kernel_later
              ta.adds (λ f t. TableOf-pools m k m.user_pool m'.kernel_pool f (ta.tables f t))
              (λ f t e.
                let was = inv.tables.taken f i t inside (sym e ∙ omega arith) in
                let free = took.was_free in absurd (ground arith))
              (λ j took' e.
                let r = took.reads j in
                let free = took'.was_free in
                let same : i ≡ j = omega (arith, ap (λ (t : ℕ). t / 4096) at_start) in
                absurd (ground arith))
              (ap (λ (t : Pool). t.phy_addr_start) ta.user_same) apart)
            (same_pool m m' v q ta.adds m.kernel_pool k m'.kernel_pool i refl inv.kernel took
              ta.kernel_later)
            (other_pool m m' v q ta.adds m.user_pool m'.user_pool inv.user (inl ta.user_same)
              (λ j lt s. (let al = user_ok.aligned in omega arith)))
            refl refl (inr (i, took)) (inl refl),
      )

  round-user :
      (i : ℕ) (k : Pool)
      → palloc m.user_pool ≡ done (frame_no m.user_pool i * 4096, k)
      → Took m.user_pool k i
      → (m' : Mem) × (round pf_user v m ≡ done m') × Grown m m' pf_user v
  unfolding palloc_of
  round-user i k e took =
      let ok = inv.user.well_formed in
      let ends = ok.ends in
      let kernel_ok = inv.kernel.well_formed in
      let apart = inv.apart in
      let inside = took.inside in
      let q = frame_no m.user_pool i * 4096 in
      let need = enough.in_kernel in
      let m1 : Mem = record m { user_pool = k } in
      let (m', ta) =
        page_table_add-TableAdded m m1 v q
          (record {
            fits = inv.entries.fits;
            above = inv.entries.above;
            itself = inv.entries.itself;
            not_dir = inv.entries.not_dir;
            own = inv.entries.own;
          })
          (frame_of-pools m m.kernel_pool k) inv.kernel.well_formed
          (FreshFrames-pools m m.kernel_pool k inv.tables (inl refl)) page_taken.at_page
          page_taken.no_frame (omega arith) (omega arith) (omega arith) in
      (
        m',
        (rw e ta.runs),
        grown pf_user m1 m' i took ta
            (TablesApart-Grown m m' m.kernel_pool v q inv.tables inv.kernel (inl refl)
              ta.kernel_later ta.adds
              (λ f t. TableOf-pools m m.kernel_pool k m'.kernel_pool f (ta.tables f t))
              (λ f t e. (let b = inv.tables.below_user f t in omega arith))
              (λ j took' e.
                let low = took'.inside in
                let al = kernel_ok.aligned in let au = ok.aligned in omega arith)
              (ap (λ (t : Pool). t.phy_addr_start) ta.user_same ∙ took.start) apart)
            (other_pool m m' v q ta.adds m.kernel_pool m'.kernel_pool inv.kernel ta.kernel_later
              (λ j lt s. (let al = kernel_ok.aligned in let au = ok.aligned in omega arith)))
            (subst (λ t. Owned m' t) (sym ta.user_same)
              (same_pool m m' v q ta.adds m.user_pool k k i refl inv.user took (inl refl)))
            refl refl (inl refl) (inr (i, took)),
      )

  -- A round on a reserved page, with enough frames, gives the page a frame and keeps the invariant.
  pub round-Grown : (pf : PoolFlags) → (m' : Mem) × (round pf v m ≡ done m') × Grown m m' pf v
  round-Grown pf_kernel = elim (palloc-Took m.kernel_pool inv.kernel.well_formed) [
    | inl (i, k, e, took) ↦ round-kernel i k e took
    | inr (e, all) ↦ absurd (
        let none_left = free_count-full m.kernel_pool all in
        let need = enough.in_kernel in omega arith)
  ]
  round-Grown pf_user = elim (palloc-Took m.user_pool inv.user.well_formed) [
    | inl (i, k, e, took) ↦ round-user i k e took
    | inr (e, all) ↦ absurd (
        let none_left = free_count-full m.user_pool all in let need = enough.in_user in omega arith)
  ]
