-- ===== src/Pages/Apart.antt =====
-- The page tables behind one round of malloc_page (kernel/memop/memory.c).
use jat_os.Prelude.{
  ℕ, ◌+◌, ◌*◌, ◌/◌, ◌≤◌, ◌≡◌, ◌≢◌, ap, ◌∙◌, true, ◌⊎◌, some, inl, inr, arith, Bool-cases,
}
use jat_os.Pages.{Mem, Pool}
use jat_os.Pages.Frames.{frames, frame_free}
use jat_os.Pages.Inv.{frame_no, AddsFrame, added_at, Owned, Took, Owned-free}
use jat_os.Pages.Tables.{IsTable, TablesApart, TablesApart-FreshFrames, IsTable-same}
use jat_os.Pages.Map.{FreshFrames}
use jat_os.Pages.Later.{Later, Later-start, Later-len, Later-taken}

-- A table behind the round: an old one, or a frame taken from the kernel pool for it.
abbrev pub TableOf : Mem → Pool → Pool → ℕ → Type 0
TableOf m k k' f = IsTable m f ⊎ ((i : ℕ) × Took k k' i × (f ≡ frame_no k i))

Later-free : (p p' : Pool) (j : ℕ) → Later p p' → frame_free p' j ≡ true → frame_free p j ≡ true
Later-free p p' j later free = elim (Bool-cases (frame_free p j)) [
  | inl e ↦ e
  | inr e ↦ (let f = Later-taken p p' j later e in absurd (ground arith))
]

module _ (m m' : Mem) (k : Pool) (v q : ℕ) (tables : TablesApart m) (kernel : Owned m m.kernel_pool)
    (lk : Later m.kernel_pool k) (lk' : Later k m'.kernel_pool) (adds : AddsFrame m m' v q)
    (new : (f : ℕ) → IsTable m' f → TableOf m k m'.kernel_pool f)
    (page_old : (f : ℕ) → IsTable m f → q / 4096 ≢ f)
    (page_new : (i : ℕ) → Took k m'.kernel_pool i → q / 4096 ≢ frame_no k i)
    (user_start : m'.user_pool.phy_addr_start ≡ m.user_pool.phy_addr_start)
    (apart : m.kernel_pool.phy_addr_start + frames m.kernel_pool * 4096
      ≤ m.user_pool.phy_addr_start) where
  pub TablesApart-Grown : TablesApart m'
  TablesApart-Grown =
      let s = Later-start m.kernel_pool k lk in
      let s' = Later-start k m'.kernel_pool lk' in
      let l = Later-len m.kernel_pool k lk in
      let l' = Later-len k m'.kernel_pool lk' in
      let al = kernel.well_formed.aligned in
      record {
        taken = λ f j t lt e. elim (new f t) [
          | inl old ↦ Later-taken k m'.kernel_pool j lk' (
              Later-taken m.kernel_pool k j lk (
                tables.taken f j old (omega (arith, l, l'))
                  (e ∙ ap (λ (x : ℕ). x / 4096 + j) (s' ∙ s))))
          | inr (i, took, fe) ↦
              let same : i ≡ j = omega (arith, ap (λ (x : ℕ). x / 4096) s') in
              took.reads j ∙ ground arith
        ];
        no_page = λ page f t e. elim (added_at m m' v q page f adds e) [
          | inl at_page ↦ elim (new f t) [
            | inl old ↦ page_old f old at_page.1
            | inr (i, took, fe) ↦ page_new i took (at_page.1 ∙ fe)
          ]
          | inr was ↦ elim (new f t) [
            | inl old ↦ tables.no_page page f old was
            | inr (i, took, fe) ↦
                let inside = took.inside in
                Owned-free m m.kernel_pool i kernel (omega (arith, l))
                  (Later-free m.kernel_pool k i lk took.was_free) page
                  (was ∙ ap some (fe ∙ ap (λ (x : ℕ). x / 4096 + i) s))
          ]
        ];
        below_user = λ f t. elim (new f t) [
          | inl old ↦ (let b = tables.below_user f old in omega (arith, user_start))
          | inr (i, took, fe) ↦
              let inside = took.inside in omega (arith, user_start, l, ap (λ (x : ℕ). x / 4096) s)
        ];
      }

-- The memory with frames taken from the pools still has fresh frames.
pub FreshFrames-pools :
    (m : Mem) (k u : Pool)
    → TablesApart m
    → Later m.kernel_pool k
    → FreshFrames (record m { kernel_pool = k; user_pool = u })
FreshFrames-pools m k u tables later j lt free f e =
    let start = Later-start m.kernel_pool k later in
    let n =
      TablesApart-FreshFrames m tables j (omega (arith, Later-len m.kernel_pool k later))
        (Later-free m.kernel_pool k j later free) f (e ∙ ap (λ (x : ℕ). x / 4096 + j) start) in
    record { no_dir = n.no_dir; no_table = n.no_table }

pub TableOf-pools :
    (m : Mem) (k u k' : Pool) (f : ℕ)
    → TableOf (record m { kernel_pool = k; user_pool = u }) k k' f
    → TableOf m k k' f
TableOf-pools m k u k' f (inl t) = inl (IsTable-same m k u m.kernel_vaddr m.userprog_vaddr f t)
TableOf-pools m k u k' f (inr t) = inr t
