-- ===== src/Pages/Map.antt =====
-- page_table_add and addr_v2p of kernel/memop/memory.c: the frame behind each page.
use jat_os.Prelude.{
  ℕ, ◌+◌, ◌*◌, ◌/◌, ◌%◌, ◌^◌, ◌<◌, ◌≡◌, refl, ap, sym, ◌∙◌, true, false, ◌==◌, ==_iff,
  if◌then◌else◌, Option, none, some, Bool-cases, inl, inr, Outcome, done, panic, arith, ◌⊎◌,
  done-injective, subst,
}
use jat_os.Pages.{Mem, present, load, pde_ptr, pte_ptr, palloc, table_add, page_table_add, addr_v2p}
use jat_os.Pages.Masks.{and_frame, and_offset}
use jat_os.Pages.Frames.{WellFormed, taken, full, frame_free, frames, palloc-Palloced}
use jat_os.Pages.Window.{pde, pte, table, inside, Entries, load-pde_ptr, load-pte_ptr}
use jat_os.Pages.Behind.{frame_of, absent_entry, frame_of-some}
use jat_os.Pages.Writes.{inside_lt}
use jat_os.Pages.NewTable.{NoTable, tabled, tabled-present, frame_of-tabled, tabled-Entries}
use jat_os.Pages.Link.{
  KeepsTables, AddsTable, linked, frame_of-linked, linked-Entries, linked-KeepsTables,
  tabled-AddsTable,
}

-- No free frame of the kernel pool is the directory or a table.
abbrev pub FreshFrames : Mem → Type 0
FreshFrames m =
    (j : ℕ)
    → j < frames m.kernel_pool
    → frame_free m.kernel_pool j ≡ true
    → (f : ℕ) → f ≡ m.kernel_pool.phy_addr_start / 4096 + j
    → NoTable m f

-- What a new entry changes: the frame behind one page.
pub record Added (m m' : Mem) (v p : ℕ) : Type 0 where
  pub entries : Entries m'
  pub frames_are :
      (page : ℕ)
      → frame_of m' page ≡ (if v / 2 ^ 12 == page then some (p / 4096) else frame_of m page)
  pub same_dir : m'.dir ≡ m.dir
  pub user_same : m'.user_pool ≡ m.user_pool
  pub kernel_vaddr_same : m'.kernel_vaddr ≡ m.kernel_vaddr
  pub userprog_vaddr_same : m'.userprog_vaddr ≡ m.userprog_vaddr

-- How page_table_add ends on a page that has no frame.
pub data AddedPage (m : Mem) (v p : ℕ) (o : Outcome Mem) : Type 0 where
  in_table :
      (m' : Mem)
      → o ≡ done m'
      → m'.kernel_pool ≡ m.kernel_pool
      → Added m m' v p
      → KeepsTables m m'
      → AddedPage m v p o
  new_table :
      (m' : Mem) (q : ℕ)
      → o ≡ done m'
      → palloc m.kernel_pool ≡ done (q, m'.kernel_pool)
      → Added m m' v p
      → AddsTable m m' (q / 4096)
      → AddedPage m v p o
  no_frame :
      o ≡ panic
      → ((j : ℕ) → j < frames m.kernel_pool → frame_free m.kernel_pool j ≡ false)
      → AddedPage m v p o

module _ (m : Mem) (v p : ℕ) (ok : Entries m) (pool : WellFormed m.kernel_pool)
    (fresh : FreshFrames m) (at : inside (v / 2 ^ 12) ≡ true)
    (free : frame_of m (v / 2 ^ 12) ≡ none) (al : p % 4096 ≡ 0) (lt : p < 2 ^ 32) where
  reads_pde : load (pde_ptr v) m ≡ pde m (v / 2 ^ 22)
  reads_pde = load-pde_ptr m v ok.itself (inside_lt v at)

  add_present : present (pde m (v / 2 ^ 22)) ≡ true → AddedPage m v p (page_table_add v p m)
  unfolding page_table_add
  add_present here =
      let d : v / 2 ^ 12 / 1024 ≡ v / 2 ^ 22 = omega arith in
      let off = absent_entry m (v / 2 ^ 12) at (rw d here) free in
      let on : present (load (pde_ptr v) m) ≡ true = ap present reads_pde ∙ here in
      let off' : present (load (pte_ptr v) m) ≡ false =
        ap present (load-pte_ptr m v ok.itself (inside_lt v at)) ∙ off in
      in_table (linked v p m) (rw (on, off') refl) refl
        (record {
          entries = linked-Entries m v p ok here at al lt;
          frames_are = frame_of-linked m v p ok here at al lt;
          same_dir = refl;
          user_same = refl;
          kernel_vaddr_same = refl;
          userprog_vaddr_same = refl;
        })
        (linked-KeepsTables m v p ok here at al lt)

  add_absent : present (pde m (v / 2 ^ 22)) ≡ false → AddedPage m v p (page_table_add v p m)
  unfolding page_table_add table_add
  add_absent absent = elim (palloc-Palloced m.kernel_pool pool) [
    | full e all ↦ no_frame (rw (ap present reads_pde ∙ absent, e) refl) all
    | taken i k e ok' start len inside_pool first was reads ↦
        let above = pool.above in
        let ends = pool.ends in
        let aligned = pool.aligned in
        let q = m.kernel_pool.phy_addr_start + i * 4096 in
        let qa : q % 4096 ≡ 0 = omega arith in
        let ql : q < 2 ^ 32 = omega arith in
        let qp : 0 < q = omega arith in
        let m2 = tabled v q k m in
        let no_table = fresh i inside_pool was (q / 4096) (omega arith) in
        let ok2 = tabled-Entries m v q k ok absent at qa qp ql no_table in
        let here = tabled-present m v q k ok absent at qa qp ql no_table in
        let blank : present (load (pde_ptr v) m) ≡ false = ap present reads_pde ∙ absent in
        let d : v / 2 ^ 12 / 1024 ≡ v / 2 ^ 22 = omega arith in
        let same = frame_of-tabled m v q k ok absent at qa qp ql no_table in
        let off : present (load (pte_ptr v) m2) ≡ false =
          ap present (load-pte_ptr m2 v ok2.itself (inside_lt v at))
          ∙ absent_entry m2 (v / 2 ^ 12) at (ap (λ (t : ℕ). present (pde m2 t)) d ∙ here)
              (same (v / 2 ^ 12) ∙ free) in
        new_table (linked v p m2) q (rw (blank, e) (rw (off) refl)) e
          (record {
            entries = linked-Entries m2 v p ok2 here at al lt;
            frames_are = λ page.
                frame_of-linked m2 v p ok2 here at al lt page
                ∙ ap (λ (t : Option ℕ). if v / 2 ^ 12 == page then some (p / 4096) else t)
                    (same page);
            same_dir = refl;
            user_same = refl;
            kernel_vaddr_same = refl;
            userprog_vaddr_same = refl;
          })
          (tabled-AddsTable m v q k ok absent at qa qp ql no_table (linked v p m2)
            (linked-KeepsTables m2 v p ok2 here at al lt))
  ]

  -- On a page without a frame, with the kernel pool well-formed, page_table_add either gives the page
  -- the frame at the given address and leaves the frame of every other page, with the kernel pool as
  -- it was or with one frame of it taken for a new table; or it fails an ASSERT, and that only when
  -- no frame of the kernel pool is free.
  pub page_table_add-AddedPage : AddedPage m v p (page_table_add v p m)
  page_table_add-AddedPage = elim (Bool-cases (present (pde m (v / 2 ^ 22)))) [
    | inl e ↦ add_present e
    | inr e ↦ add_absent e
  ]

-- On a page that has a frame, addr_v2p returns the address in that frame.
pub addr_v2p-frame :
    (m : Mem) (v f : ℕ)
    → Entries m
    → frame_of m (v / 2 ^ 12) ≡ some f
    → addr_v2p v m ≡ f * 4096 + v % 4096
unfolding addr_v2p
addr_v2p-frame m v f ok e =
    let (at, here, on, same) = frame_of-some m (v / 2 ^ 12) f e in
    let d : v / 2 ^ 12 / 1024 ≡ v / 2 ^ 22 = omega arith in
    let above = ok.above (v / 2 ^ 22) (ap (λ (t : ℕ). present (pde m t)) (sym d) ∙ here) in
    let pd = and_frame (pde m (v / 2 ^ 22)) (ok.fits m.dir (v / 2 ^ 22)) in
    let fits = ok.fits (table m (v / 2 ^ 12)) (v / 2 ^ 12 % 1024) in
    let pt = and_frame (pte m (v / 2 ^ 12)) fits in
    let a = load-pde_ptr m v ok.itself (inside_lt v at) in
    let b = load-pte_ptr m v ok.itself (inside_lt v at) in
    let low = and_offset v in rw (a, b) (ground (arith, pd, pt, low, same, fits, above))

-- What addr_v2p says of a new page, and that it says the same as before of the others.
abbrev pub Translates : Mem → Mem → ℕ → ℕ → Type 0
Translates m m' v p =
    ((a : ℕ) → a / 4096 ≡ v / 4096 → addr_v2p a m' ≡ p + a % 4096)
    × ((a f : ℕ) → frame_of m (a / 2 ^ 12) ≡ some f → addr_v2p a m' ≡ addr_v2p a m)

Added-Translates :
    (m m' : Mem) (v p : ℕ)
    → Entries m
    → frame_of m (v / 2 ^ 12) ≡ none
    → p % 4096 ≡ 0
    → Added m m' v p
    → Translates m m' v p
Added-Translates m m' v p ok free al ad = (
  λ a s.
      let e : (v / 2 ^ 12 == a / 2 ^ 12) ≡ true = (==_iff _ _).1 (sym s) in
      addr_v2p-frame m' a (p / 4096) ad.entries (ad.frames_are (a / 2 ^ 12) ∙ (rw e refl))
      ∙ omega arith,
  λ a f s. elim (Bool-cases (v / 2 ^ 12 == a / 2 ^ 12)) [
    | inl e ↦
        (let w : v / 2 ^ 12 ≡ a / 2 ^ 12 = (==_iff _ _).0 e in
          let t : none ≡ some f = sym free ∙ ap (λ (t : ℕ). frame_of m t) w ∙ s in absurd (cc))
    | inr e ↦
        addr_v2p-frame m' a f ad.entries (ad.frames_are (a / 2 ^ 12) ∙ (rw e s))
        ∙ sym (addr_v2p-frame m a f ok s)
  ],
)

done-Translates :
    (m m' : Mem) (v p : ℕ)
    → Entries m
    → WellFormed m.kernel_pool
    → FreshFrames m
    → inside (v / 2 ^ 12) ≡ true
    → frame_of m (v / 2 ^ 12) ≡ none
    → p % 4096 ≡ 0
    → p < 2 ^ 32
    → page_table_add v p m ≡ done m'
    → Translates m m' v p
done-Translates m m' v p ok pool fresh at free al lt run =
    elim (page_table_add-AddedPage m v p ok pool fresh at free al lt) [
      | in_table m1 e same ad keeps ↦
          subst (λ t. Translates m t v p) (done-injective (sym e ∙ run))
            (Added-Translates m m1 v p ok free al ad)
      | new_table m1 q e k ad adds ↦
          subst (λ t. Translates m t v p) (done-injective (sym e ∙ run))
            (Added-Translates m m1 v p ok free al ad)
      | no_frame e all ↦ absurd (let s : done m' ≡ panic = sym run ∙ e in cc)
    ]

-- The address translation that page_table_add sets up when it returns, on a page without a frame,
-- for the aligned 32-bit address of a frame, with the kernel pool well-formed and no free frame of
-- it in use as the directory or a table: an address in the page goes to the same offset in the new
-- frame, and one in another page that had a frame goes where it went before. The pages are those
-- from 4 MiB up to the window on the tables, and no two of their tables are the same frame.
pub page_table_add-addr_v2p :
    (m m' : Mem) (v p a f : ℕ)
    → Entries m
    → WellFormed m.kernel_pool
    → FreshFrames m
    → inside (v / 2 ^ 12) ≡ true
    → frame_of m (v / 2 ^ 12) ≡ none
    → p % 4096 ≡ 0
    → p < 2 ^ 32
    → page_table_add v p m ≡ done m'
    → (a / 4096 ≡ v / 4096) ⊎ (frame_of m (a / 2 ^ 12) ≡ some f)
    → addr_v2p a m' ≡ (if a / 4096 == v / 4096 then p + a % 4096 else addr_v2p a m)
page_table_add-addr_v2p m m' v p a f ok pool fresh at free al lt run (inl e) =
    let t = done-Translates m m' v p ok pool fresh at free al lt run in
    let s : (a / 4096 == v / 4096) ≡ true = (==_iff _ _).1 e in rw s (t.0 a e)
page_table_add-addr_v2p m m' v p a f ok pool fresh at free al lt run (inr e) =
    let t = done-Translates m m' v p ok pool fresh at free al lt run in
    elim (Bool-cases (a / 4096 == v / 4096)) [
      | inl s ↦ rw s (t.0 a ((==_iff _ _).0 s))
      | inr s ↦ rw s (t.1 a f e)
    ]
