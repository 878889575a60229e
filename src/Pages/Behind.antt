-- ===== src/Pages/Behind.antt =====
-- The frame behind each page, in the page tables of kernel/memop/memory.c.
use jat_os.Prelude.{
  ℕ, ◌/◌, ◌≡◌, refl, ap, sym, ◌∙◌, Bool, true, false, ◌&&◌, if◌then◌else◌, Option, none, some,
  Bool-cases, inl, inr,
}
use jat_os.Pages.{Mem, Pool, VirtualAddr, present}
use jat_os.Pages.Window.{pde, pte, inside}

-- The frame behind a page, both by their numbers, as the processor finds it, for the pages from
-- 4 MiB up to the window on the tables.
pub frame_of : Mem → ℕ → Option ℕ
frame_of m page =
    if inside page && (present (pde m (page / 1024)) && present (pte m page))
    then some (pte m page / 4096)
    else none

pub frame_of-pools :
    (m : Mem) (k u : Pool) (page : ℕ)
    → frame_of (record m { kernel_pool = k; user_pool = u }) page ≡ frame_of m page
unfolding frame_of
frame_of-pools m k u page = refl

pub frame_of-pages :
    (m : Mem) (k u : VirtualAddr) (page : ℕ)
    → frame_of (record m { kernel_vaddr = k; userprog_vaddr = u }) page ≡ frame_of m page
unfolding frame_of
frame_of-pages m k u page = refl

-- A page with another directory entry of the same table, and another entry.
module _ (m m' : Mem) (page : ℕ) where
  pub frame_of-entries :
      present (pde m' (page / 1024)) ≡ present (pde m (page / 1024))
      → pte m' page ≡ pte m page
      → frame_of m' page ≡ frame_of m page
  unfolding frame_of
  frame_of-entries d e =
      ap
        (λ (b : Bool).
          if inside page && (b && present (pte m' page)) then some (pte m' page / 4096) else none)
        d
      ∙ ap
          (λ (t : ℕ).
            if inside page && (present (pde m (page / 1024)) && present t)
            then some (t / 4096)
            else none)
          e

  pub frame_of-both_absent :
      present (pde m' (page / 1024)) ≡ false
      → present (pde m (page / 1024)) ≡ false
      → frame_of m' page ≡ frame_of m page
  unfolding frame_of
  frame_of-both_absent d e = elim (Bool-cases (inside page)) [
    | inl i ↦ rw (i, d, e) refl
    | inr i ↦ rw i refl
  ]

pub frame_of-outside : (m : Mem) (page : ℕ) → inside page ≡ false → frame_of m page ≡ none
unfolding frame_of
frame_of-outside m page out = rw out refl

pub frame_of-absent : (m : Mem) (page : ℕ) → present (pte m page) ≡ false → frame_of m page ≡ none
unfolding frame_of
frame_of-absent m page off = elim (Bool-cases (inside page)) [
  | inr i ↦ rw i refl
  | inl i ↦ elim (Bool-cases (present (pde m (page / 1024)))) [
    | inl d ↦ rw (i, d, off) refl
    | inr d ↦ rw (i, d) refl
  ]
]

pub frame_of-none :
    (m : Mem) (page : ℕ) → present (pde m (page / 1024)) ≡ false → frame_of m page ≡ none
unfolding frame_of
frame_of-none m page off = elim (Bool-cases (inside page)) [
  | inr i ↦ rw i refl
  | inl i ↦ rw (i, off) refl
]

pub frame_of-here :
    (m : Mem) (page : ℕ)
    → inside page ≡ true
    → present (pde m (page / 1024)) ≡ true
    → frame_of m page ≡ (if present (pte m page) then some (pte m page / 4096) else none)
unfolding frame_of
frame_of-here m page i d = rw (i, d) refl

-- A page that has no frame, in a directory entry that is present, has an absent entry.
pub absent_entry :
    (m : Mem) (page : ℕ)
    → inside page ≡ true
    → present (pde m (page / 1024)) ≡ true
    → frame_of m page ≡ none
    → present (pte m page) ≡ false
absent_entry m page i here no_frame = elim (Bool-cases (present (pte m page))) [
  | inl e ↦
      let s : some (pte m page / 4096) ≡ none =
        sym (frame_of-here m page i here ∙ (rw e refl)) ∙ no_frame in
      absurd (cc)
  | inr e ↦ e
]

-- A page with a frame has two entries that are present, and the second one names the frame.
pub frame_of-some :
    (m : Mem) (page f : ℕ)
    → frame_of m page ≡ some f
    → (inside page ≡ true)
      × (present (pde m (page / 1024)) ≡ true)
      × (present (pte m page) ≡ true)
      × (pte m page / 4096 ≡ f)
frame_of-some m page f e = elim (Bool-cases (inside page)) [
  | inr i ↦ (let s : none ≡ some f = sym (frame_of-outside m page i) ∙ e in absurd (cc))
  | inl i ↦ elim (Bool-cases (present (pde m (page / 1024)))) [
    | inr d ↦ (let s : none ≡ some f = sym (frame_of-none m page d) ∙ e in absurd (cc))
    | inl d ↦ elim (Bool-cases (present (pte m page))) [
      | inr t ↦ (let s : none ≡ some f = sym (frame_of-absent m page t) ∙ e in absurd (cc))
      | inl t ↦
          let s : some (pte m page / 4096) ≡ some f =
            sym (frame_of-here m page i d ∙ (rw t refl)) ∙ e in
          (i, d, t, cc)
    ]
  ]
]
