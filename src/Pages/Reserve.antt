-- ===== src/Pages/Reserve.antt =====
-- The memory behind vaddr_get of kernel/memop/memory.c.
use jat_os.Prelude.{ℕ, ◌+◌, ◌*◌, ◌/◌, ◌^◌, ◌≤◌, ◌<◌, ◌≡◌, refl, ap, sym, ◌∙◌, true, arith}
use jat_os.Bitmap.Set.{is_free}
use jat_os.Pages.{Mem, VirtualAddr, PoolFlags, pf_kernel, pf_user}
use jat_os.Pages.Behind.{frame_of, frame_of-pages}
use jat_os.Pages.Inv.{Inv, Reserved, Owned-same, Reserved-same}
use jat_os.Pages.Tables.{IsTable-same}
use jat_os.Pages.Later.{PageTaken}
use jat_os.Pages.Pick.{bits_of, Picked}

abbrev pub pages_of : PoolFlags → Mem → VirtualAddr
pages_of pf_kernel m = m.kernel_vaddr
pages_of pf_user m = m.userprog_vaddr

-- `m` with other bitmaps of pages.
abbrev pub pages : Mem → VirtualAddr → VirtualAddr → Mem
pages m k u = record m { kernel_vaddr = k; userprog_vaddr = u }

Picked-less :
    (r r' : VirtualAddr) (cnt i j : ℕ)
    → Picked r r' cnt i
    → is_free r'.vaddr_bitmap j ≡ true
    → is_free r.vaddr_bitmap j ≡ true
Picked-less r r' cnt i j picked free = let reads = picked.reads j in ground arith

module _ (m : Mem) (inv : Inv m) (k u : VirtualAddr) (kernel : Reserved (pages m k u) k)
    (user : Reserved (pages m k u) u)
    (below : u.vaddr_start + bits_of u * 4096 ≤ k.vaddr_start) where
  pub Inv-pages : Inv (pages m k u)
  Inv-pages = record {
    entries = record {
      fits = inv.entries.fits;
      above = inv.entries.above;
      itself = inv.entries.itself;
      not_dir = inv.entries.not_dir;
      own = inv.entries.own;
    };
    tables = record {
      taken = λ f j t. inv.tables.taken f j (IsTable-same m m.kernel_pool m.user_pool k u f t);
      no_page = λ page f t e.
          inv.tables.no_page page f (IsTable-same m m.kernel_pool m.user_pool k u f t)
            (sym (frame_of-pages m k u page) ∙ e);
      below_user =
          λ f t. inv.tables.below_user f (IsTable-same m m.kernel_pool m.user_pool k u f t);
    };
    kernel = Owned-same m (pages m k u) (frame_of-pages m k u) m.kernel_pool inv.kernel;
    user = Owned-same m (pages m k u) (frame_of-pages m k u) m.user_pool inv.user;
    apart = inv.apart;
    kernel_pages = kernel;
    user_pages = user;
    below_kernel = below;
  }

module _ (m : Mem) (inv : Inv m) (r : VirtualAddr) (cnt i : ℕ) where
  pub kernel_Inv : Picked m.kernel_vaddr r cnt i → Inv (pages m r m.userprog_vaddr)
  kernel_Inv picked =
      let below = inv.below_kernel in
      Inv-pages m inv r m.userprog_vaddr
        (Reserved-same m (pages m r m.userprog_vaddr) (frame_of-pages m r m.userprog_vaddr)
          m.kernel_vaddr r inv.kernel_pages picked.start picked.same_len picked.bytes
          (λ j. Picked-less m.kernel_vaddr r cnt i j picked))
        (Reserved-same m (pages m r m.userprog_vaddr) (frame_of-pages m r m.userprog_vaddr)
          m.userprog_vaddr m.userprog_vaddr inv.user_pages refl refl inv.user_pages.bytes
          (λ j free. free))
        (omega (arith, picked.start))

  pub user_Inv : Picked m.userprog_vaddr r cnt i → Inv (pages m m.kernel_vaddr r)
  user_Inv picked =
      let below = inv.below_kernel in
      Inv-pages m inv m.kernel_vaddr r
        (Reserved-same m (pages m m.kernel_vaddr r) (frame_of-pages m m.kernel_vaddr r)
          m.kernel_vaddr m.kernel_vaddr inv.kernel_pages refl refl inv.kernel_pages.bytes
          (λ j free. free))
        (Reserved-same m (pages m m.kernel_vaddr r) (frame_of-pages m m.kernel_vaddr r)
          m.userprog_vaddr r inv.user_pages picked.start picked.same_len picked.bytes
          (λ j. Picked-less m.userprog_vaddr r cnt i j picked))
        (omega (arith, picked.start, picked.same_len))

  pub kernel_PageTaken :
      Picked m.kernel_vaddr r cnt i
      → (j : ℕ) → j < cnt
      → PageTaken (pages m r m.userprog_vaddr) (m.kernel_vaddr.vaddr_start + i * 4096 + j * 4096)
  kernel_PageTaken picked j lt =
      let below = inv.below_kernel in
      let inside = picked.inside in
      let al = inv.kernel_pages.aligned in
      let au = inv.user_pages.aligned in
      let start = picked.start in
      let at_page : (m.kernel_vaddr.vaddr_start + i * 4096 + j * 4096) / 2 ^ 12
          ≡ m.kernel_vaddr.vaddr_start / 4096 + (i + j) =
        omega arith in
      let above = inv.kernel_pages.above in
      let ends = inv.kernel_pages.ends in
      record {
        at_page = ground arith;
        no_frame =
            frame_of-pages m r m.userprog_vaddr _
            ∙ ap (frame_of m) at_page
            ∙ inv.kernel_pages.no_frame (i + j) (omega arith) (picked.was_free j lt);
        kernel_bit = λ t in_bits free e.
            let reads = picked.reads t in
            let self : t ≡ i + j = omega (arith, ap (λ (t : ℕ). t / 4096) start) in ground arith;
        user_bit = λ t in_bits free e. omega arith;
      }

  pub user_PageTaken :
      Picked m.userprog_vaddr r cnt i
      → (j : ℕ) → j < cnt
      → PageTaken (pages m m.kernel_vaddr r) (m.userprog_vaddr.vaddr_start + i * 4096 + j * 4096)
  user_PageTaken picked j lt =
      let below = inv.below_kernel in
      let inside = picked.inside in
      let al = inv.kernel_pages.aligned in
      let au = inv.user_pages.aligned in
      let start = picked.start in
      let at_page : (m.userprog_vaddr.vaddr_start + i * 4096 + j * 4096) / 2 ^ 12
          ≡ m.userprog_vaddr.vaddr_start / 4096 + (i + j) =
        omega arith in
      let above = inv.user_pages.above in
      let ends = inv.user_pages.ends in
      record {
        at_page = ground arith;
        no_frame =
            frame_of-pages m m.kernel_vaddr r _
            ∙ ap (frame_of m) at_page
            ∙ inv.user_pages.no_frame (i + j) (omega arith) (picked.was_free j lt);
        kernel_bit = λ t in_bits free e. omega arith;
        user_bit = λ t in_bits free e.
            let reads = picked.reads t in
            let self : t ≡ i + j = omega (arith, ap (λ (t : ℕ). t / 4096) start) in ground arith;
      }
