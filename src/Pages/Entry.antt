-- ===== src/Pages/Entry.antt =====
-- page_table_add behind the palloc of a round of malloc_page (kernel/memop/memory.c).
use jat_os.Prelude.{
  ℕ, ◌*◌, ◌/◌, ◌%◌, ◌^◌, ◌≤◌, ◌<◌, ◌≡◌, ap, sym, ◌∙◌, true, ◌==◌, if◌then◌else◌, Option, none, some,
  inl, inr, done, panic, arith, done-injective, subst,
}
use jat_os.Pages.{Mem, Pool, VirtualAddr, page_table_add}
use jat_os.Pages.Frames.{WellFormed}
use jat_os.Pages.Map.{FreshFrames, Added, in_table, new_table, no_frame, page_table_add-AddedPage}
use jat_os.Pages.Window.{inside, Entries}
use jat_os.Pages.Behind.{frame_of}
use jat_os.Pages.Tables.{IsTable, IsTable-kept, IsTable-added}
use jat_os.Pages.Apart.{TableOf}
use jat_os.Pages.Inv.{frame_no, AddsFrame, Reserved, Took, palloc-Took}
use jat_os.Pages.Count.{free_count, free_count-full}
use jat_os.Pages.Later.{Later}

-- page_table_add behind the palloc of a round: `m1` is the memory with that frame taken.
pub record TableAdded (m m1 m' : Mem) (v q : ℕ) : Type 0 where
  pub runs : page_table_add v q m1 ≡ done m'
  pub adds : AddsFrame m m' v q
  pub entries : Entries m'
  pub tables : (f : ℕ) → IsTable m' f → TableOf m1 m1.kernel_pool m'.kernel_pool f
  pub kernel_later : Later m1.kernel_pool m'.kernel_pool
  pub user_same : m'.user_pool ≡ m1.user_pool
  pub kernel_vaddr_same : m'.kernel_vaddr ≡ m1.kernel_vaddr
  pub userprog_vaddr_same : m'.userprog_vaddr ≡ m1.userprog_vaddr

module _ (m m1 : Mem) (v q : ℕ) (entries : Entries m1)
    (same_frames : (page : ℕ) → frame_of m1 page ≡ frame_of m page) (ok : WellFormed m1.kernel_pool)
    (fresh : FreshFrames m1) (at : inside (v / 2 ^ 12) ≡ true)
    (free : frame_of m (v / 2 ^ 12) ≡ none) (al : q % 4096 ≡ 0) (lt : q < 2 ^ 32)
    (enough : 1 ≤ free_count m1.kernel_pool) where
  added :
      (m' : Mem)
      → page_table_add v q m1 ≡ done m'
      → Later m1.kernel_pool m'.kernel_pool
      → Added m1 m' v q
      → ((f : ℕ) → IsTable m' f → TableOf m1 m1.kernel_pool m'.kernel_pool f)
      → TableAdded m m1 m' v q
  added m' run later ad tables = record {
    runs = run;
    adds = λ page.
        ad.frames_are page
        ∙ ap (λ (t : Option ℕ). if v / 2 ^ 12 == page then some (q / 4096) else t)
            (same_frames page);
    entries = ad.entries;
    tables = tables;
    kernel_later = later;
    user_same = ad.user_same;
    kernel_vaddr_same = ad.kernel_vaddr_same;
    userprog_vaddr_same = ad.userprog_vaddr_same;
  }

  pub page_table_add-TableAdded : (m' : Mem) × TableAdded m m1 m' v q
  page_table_add-TableAdded =
      elim (page_table_add-AddedPage m1 v q entries ok fresh at (same_frames (v / 2 ^ 12) ∙ free) al
        lt) [
          | in_table m' run same ad keeps ↦ (
            m',
            added m' run (inl same) ad (λ f t. inl (IsTable-kept m1 m' f ad.same_dir keeps t)),
          )
          | new_table m' q' run taking ad adds ↦ elim (palloc-Took m1.kernel_pool ok) [
            | inl (i, k, e, took) ↦
                (let same : (frame_no m1.kernel_pool i * 4096, k) ≡ (q', m'.kernel_pool) =
                    done-injective (sym e ∙ taking) in
                  let took' : Took m1.kernel_pool m'.kernel_pool i =
                    subst (λ t. Took m1.kernel_pool t i) (ap (λ (t : ℕ × Pool). t.1) same) took in
                  let at_q : q' / 4096 ≡ frame_no m1.kernel_pool i =
                    omega (arith, ap (λ (t : ℕ × Pool). t.0) same) in
                  (
                    m',
                    added m' run (inr (i, took')) ad (λ f t.
                        elim (IsTable-added m1 m' (q' / 4096) f ad.same_dir adds t) [
                          | inl old ↦ inl old
                          | inr s ↦ inr (i, took', s ∙ at_q)
                        ]),
                  ))
            | inr (e, all) ↦
                absurd (let clash : panic ≡ done (q', m'.kernel_pool) = sym e ∙ taking in cc)
          ]
          | no_frame run all ↦
              absurd (let none_left = free_count-full m1.kernel_pool all in omega arith)
        ]

pub Reserved-pages : (m m' : Mem) (r r' : VirtualAddr) → r' ≡ r → Reserved m' r → Reserved m' r'
Reserved-pages m m' r r' e ok = subst (λ t. Reserved m' t) (sym e) ok
