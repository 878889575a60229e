-- ===== src/Pages/Round.antt =====
-- A run of pages without frames (kernel/memop/memory.c).
use jat_os.Prelude.{
  ℕ, zero, suc, ◌+◌, ◌-◌, ◌*◌, ◌/◌, ◌%◌, ◌^◌, ◌≤◌, ◌<◌, ◌≡◌, ◌≢◌, refl, ap, sym, ◌∙◌, Bool, true,
  false, ◌==◌, ◌⊎◌, none, some, inl, done, arith, subst,
}
use native.Mathlib.Decide.{ℕ_discrete}
use jat_os.Pages.{Mem, PoolFlags, addr_v2p, pfree, unmap_pages, page_table_pte_remove, in_pool}
use jat_os.Pages.Behind.{frame_of}
use jat_os.Pages.Inv.{frame_no, Inv}
use jat_os.Pages.Later.{pool_of, Same}
use jat_os.Pages.Loop.{Backed, Same-trans, Same-place}
use jat_os.Pages.Unmap.{Dropped, frame_at, in_pool-frame, free_frame}
use jat_os.Pages.Drop.{is_user}

-- The pages from `v` on have no frames; the others are as before.
pub record Unmapped (m m' : Mem) (v cnt : ℕ) : Type 0 where
  pub inv : Inv m'
  pub same : Same m m'
  pub gone : (k : ℕ) → k < cnt → frame_of m' (v / 4096 + k) ≡ none
  pub old :
      (page : ℕ) → (page < v / 4096) ⊎ (v / 4096 + cnt ≤ page) → frame_of m' page ≡ frame_of m page

Backed-Dropped :
    (m m' : Mem) (pf : PoolFlags) (v i page : ℕ)
    → Dropped m m' pf v i
    → v / 2 ^ 12 ≢ page
    → Backed m (pool_of pf m) page
    → Backed m' (pool_of pf m') page
Backed-Dropped m m' pf v i page d ne (j, lt, e) =
    let place = Same-place m m' pf d.same in
    let other : (v / 2 ^ 12 == page) ≡ false = ground (arith, ne) in
    (
      j,
      omega (arith, place.0),
      d.drops page ∙ (rw other (e ∙ ap (λ (t : ℕ). some (t / 4096 + j)) (sym place.1))),
    )

Unmapped-suc :
    (m m1 m' : Mem) (pf : PoolFlags) (v i cnt : ℕ)
    → Dropped m m1 pf v i
    → Unmapped m1 m' (v + 4096) cnt
    → Unmapped m m' v (suc cnt)
Unmapped-suc m m1 m' pf v i cnt d rest = record {
  inv = rest.inv;
  same = Same-trans m m1 m' d.same rest.same;
  gone = λ k lt. elim (ℕ_discrete k 0) [
    | yes z ↦
        (let self : (v / 2 ^ 12 == v / 4096 + k) ≡ true = ground arith in
          rest.old (v / 4096 + k) (inl (omega arith)) ∙ d.drops (v / 4096 + k) ∙ (rw self refl))
    | no s ↦ ap (frame_of m') (omega arith) ∙ rest.gone (k - 1) (omega arith)
  ];
  old = λ page out.
      let other : (v / 2 ^ 12 == page) ≡ false = ground arith in
      rest.old page (omega arith) ∙ d.drops page ∙ (rw other refl);
}

unmap_pages-suc :
    (user : Bool) (n v phys : ℕ) (m m1 : Mem)
    → addr_v2p v m ≡ phys
    → in_pool user phys m ≡ true
    → pfree phys m ≡ done m1
    → v + 4096 < 2 ^ 32
    → unmap_pages user (suc n) v m ≡ unmap_pages user n (v + 4096) (page_table_pte_remove v m1)
unfolding unmap_pages
unmap_pages-suc user n v phys m m1 place inside run small =
    let next : (v + 4096) % 2 ^ 32 ≡ v + 4096 = omega arith in rw (place, inside, run, next) refl

pub unmap_pages-Unmapped :
    (m : Mem) (pf : PoolFlags) (cnt v : ℕ)
    → Inv m
    → v % 4096 ≡ 0
    → v + cnt * 4096 < 2 ^ 32
    → ((k : ℕ) → k < cnt → Backed m (pool_of pf m) (v / 4096 + k))
    → (m' : Mem) × (unmap_pages (is_user pf) cnt v m ≡ done m') × Unmapped m m' v cnt
unfolding unmap_pages
unmap_pages-Unmapped m pf zero v inv al fits backed = (
  m,
  refl,
  record {
    inv = inv;
    same = record {
      kernel_vaddr_same = refl;
      userprog_vaddr_same = refl;
      kernel_start = refl;
      kernel_len = refl;
      user_start = refl;
      user_len = refl;
    };
    gone = λ k lt. absurd (omega arith);
    old = λ page out. refl;
  },
)
unmap_pages-Unmapped m pf (suc cnt) v inv al fits backed =
    let (i, lt, e) = backed 0 (omega arith) in
    let e' : frame_of m (v / 2 ^ 12) ≡ some (frame_no (pool_of pf m) i) =
      ap (frame_of m) (omega arith) ∙ e in
    let (m1, run, d) = free_frame m v i inv al pf lt e' in
    let place = frame_at m v i inv al pf lt e' in
    let inside = in_pool-frame m v i inv al pf lt in
    let (m', runs, rest) =
      unmap_pages-Unmapped (page_table_pte_remove v m1) pf cnt (v + 4096) d.inv (omega arith)
        (omega arith)
        (λ k below.
          Backed-Dropped m (page_table_pte_remove v m1) pf v i ((v + 4096) / 4096 + k) d
            (omega arith)
            (subst (Backed m (pool_of pf m)) (omega arith) (backed (suc k) (omega arith)))) in
    (
      m',
      unmap_pages-suc (is_user pf) cnt v ((pool_of pf m).phy_addr_start + i * 4096) m m1 place
            inside run (omega arith)
          ∙ runs,
      Unmapped-suc m (page_table_pte_remove v m1) m' pf v i cnt d rest,
    )
