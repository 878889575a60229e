-- ===== src/Pages/Loop.antt =====
-- The loop of malloc_page (kernel/memop/memory.c): frames for a run of pages.
use jat_os.Prelude.{
  ℕ, zero, suc, ◌+◌, ◌-◌, ◌*◌, ◌/◌, ◌%◌, ◌^◌, ◌≤◌, ◌<◌, ◌≡◌, ◌≢◌, refl, ap, sym, ◌∙◌, true, false,
  ◌==◌, ◌⊎◌, some, inl, Outcome, done, arith, ◌>>=◌, bind_assoc, subst,
}
use native.Mathlib.Decide.{ℕ_discrete}
use jat_os.Bitmap.Set.{is_free}
use jat_os.Pages.{
  Mem, Pool, PoolFlags, pf_kernel, pf_user, map_pages, palloc_of, page_table_add, u32, pg_size,
}
use jat_os.Pages.Frames.{frames}
use jat_os.Pages.Behind.{frame_of}
use jat_os.Pages.Inv.{frame_no, Inv}
use jat_os.Pages.Grow.{Enough, round-Grown}
use jat_os.Pages.Later.{pool_of, PageTaken, Same, Grown}

-- A frame of the pool lies behind the page.
abbrev pub Backed : Mem → Pool → ℕ → Type 0
Backed m p page = (i : ℕ) × (i < frames p) × (frame_of m page ≡ some (frame_no p i))

-- The pages from `v` on have frames of the pool; the others are as before.
pub record Mapped (m m' : Mem) (pf : PoolFlags) (v cnt : ℕ) : Type 0 where
  pub inv : Inv m'
  pub same : Same m m'
  pub new : (k : ℕ) → k < cnt → Backed m' (pool_of pf m) (v / 4096 + k)
  pub old :
      (page : ℕ) → (page < v / 4096) ⊎ (v / 4096 + cnt ≤ page) → frame_of m' page ≡ frame_of m page

pub Same-trans : (a b c : Mem) → Same a b → Same b c → Same a c
Same-trans a b c x y = record {
  kernel_vaddr_same = y.kernel_vaddr_same ∙ x.kernel_vaddr_same;
  userprog_vaddr_same = y.userprog_vaddr_same ∙ x.userprog_vaddr_same;
  kernel_start = y.kernel_start ∙ x.kernel_start;
  kernel_len = y.kernel_len ∙ x.kernel_len;
  user_start = y.user_start ∙ x.user_start;
  user_len = y.user_len ∙ x.user_len;
}

pub Same-place :
    (m m' : Mem) (pf : PoolFlags)
    → Same m m'
    → (frames (pool_of pf m') ≡ frames (pool_of pf m))
      × ((pool_of pf m').phy_addr_start ≡ (pool_of pf m).phy_addr_start)
Same-place m m' pf_kernel s = (s.kernel_len, s.kernel_start)
Same-place m m' pf_user s = (s.user_len, s.user_start)

Backed-Same :
    (m m' m2 : Mem) (pf : PoolFlags) (page : ℕ)
    → Same m m'
    → Backed m2 (pool_of pf m') page
    → Backed m2 (pool_of pf m) page
Backed-Same m m' m2 pf page s (i, lt, e) =
    let place = Same-place m m' pf s in
    (i, omega (arith, place.0), e ∙ ap some (ap (λ (t : ℕ). t / 4096 + i) place.1))

PageTaken-Grown :
    (m m' : Mem) (pf : PoolFlags) (v w : ℕ)
    → Grown m m' pf v
    → v / 2 ^ 12 ≢ w / 2 ^ 12
    → PageTaken m w
    → PageTaken m' w
PageTaken-Grown m m' pf v w g ne taken =
    let other : (v / 2 ^ 12 == w / 2 ^ 12) ≡ false = ground (arith, ne) in
    record {
      at_page = taken.at_page;
      no_frame = g.frames_are (w / 2 ^ 12) ∙ (rw other taken.no_frame);
      kernel_bit =
          subst
            (λ t.
              (i : ℕ)
              → i < t.vaddr_bitmap.btmp_bytes_len * 8
              → is_free t.vaddr_bitmap i ≡ true
              → w / 2 ^ 12 ≢ t.vaddr_start / 4096 + i)
            (sym g.same.kernel_vaddr_same) taken.kernel_bit;
      user_bit =
          subst
            (λ t.
              (i : ℕ)
              → i < t.vaddr_bitmap.btmp_bytes_len * 8
              → is_free t.vaddr_bitmap i ≡ true
              → w / 2 ^ 12 ≢ t.vaddr_start / 4096 + i)
            (sym g.same.userprog_vaddr_same) taken.user_bit;
    }

Mapped-suc :
    (m m1 m' : Mem) (pf : PoolFlags) (v cnt : ℕ)
    → Grown m m1 pf v
    → Mapped m1 m' pf (v + 4096) cnt
    → Mapped m m' pf v (suc cnt)
Mapped-suc m m1 m' pf v cnt g mapped = record {
  inv = mapped.inv;
  same = Same-trans m m1 m' g.same mapped.same;
  new = λ k lt. elim (ℕ_discrete k 0) [
    | yes z ↦
        (let self : (v / 2 ^ 12 == v / 4096 + k) ≡ true = ground arith in
          (
            g.frame,
            g.inside,
            mapped.old (v / 4096 + k) (inl (omega arith))
                ∙ g.frames_are (v / 4096 + k)
                ∙ (rw self refl),
          ))
    | no s ↦
        (let later : (v + 4096) / 4096 + (k - 1) ≡ v / 4096 + k = omega arith in
          Backed-Same m m1 m' pf (v / 4096 + k) g.same
            (subst (Backed m' (pool_of pf m1)) later (mapped.new (k - 1) (omega arith))))
  ];
  old = λ page out.
      let other : (v / 2 ^ 12 == page) ≡ false = ground arith in
      mapped.old page (omega arith) ∙ g.frames_are page ∙ (rw other refl);
}

pub map_pages-Mapped :
    (m : Mem) (pf : PoolFlags) (cnt v : ℕ)
    → Inv m
    → Enough m cnt
    → v % 4096 ≡ 0
    → v + cnt * 4096 < 2 ^ 32
    → ((k : ℕ) → k < cnt → PageTaken m (v + k * 4096))
    → (m' : Mem) × (map_pages pf cnt v m ≡ done m') × Mapped m m' pf v cnt
unfolding map_pages
map_pages-Mapped m pf zero v inv enough al fits taken = (
  m,
  refl,
  record {
    inv = inv;
    same = record {
      kernel_vaddr_same = refl;
      userprog_vaddr_same = refl;
      kernel_start = refl;
      kernel_len = refl;
      user_start = refl;
      user_len = refl;
    };
    new = λ k lt. absurd (omega arith);
    old = λ page out. refl;
  },
)
map_pages-Mapped m pf (suc cnt) v inv enough al fits taken =
    let need_kernel = enough.in_kernel in
    let need_user = enough.in_user in
    let here : v + 0 * 4096 ≡ v = omega arith in
    let (m1, run, g) =
      round-Grown m v inv (subst (PageTaken m) here (taken 0 (omega arith)))
        (record { in_kernel = omega arith; in_user = omega arith }) pf in
    let kernel_left = g.kernel_left in
    let user_left = g.user_left in
    let next : (v + 4096) % 2 ^ 32 ≡ v + 4096 = omega arith in
    let (m', rest, mapped) =
      map_pages-Mapped m1 pf cnt (v + 4096) g.inv
        (record { in_kernel = omega arith; in_user = omega arith }) (omega arith) (omega arith)
        (λ k lt.
          PageTaken-Grown m m1 pf v (v + 4096 + k * 4096) g (omega arith)
            (subst (PageTaken m) (omega arith) (taken (suc k) (omega arith)))) in
    (
      m',
      sym (
            bind_assoc (palloc_of pf m) (λ p. page_table_add v p.0 p.1)
              (λ t. map_pages pf cnt (u32 (v + pg_size)) t))
          ∙ ap (λ (t : Outcome Mem). t >>= map_pages pf cnt (u32 (v + pg_size))) run
          ∙ ap (λ (t : ℕ). map_pages pf cnt t m1) next
          ∙ rest,
      Mapped-suc m m1 m' pf v cnt g mapped,
    )
