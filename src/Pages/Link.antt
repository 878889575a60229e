-- ===== src/Pages/Link.antt =====
-- The end of page_table_add (kernel/memop/memory.c): the entry of the page, and the flags of its table.
use jat_os.Prelude.{
  ℕ, ◌/◌, ◌%◌, ◌^◌, ◌<◌, ◌≡◌, ◌⊎◌, ap, sym, ◌∙◌, Bool, true, false, ◌==◌, if◌then◌else◌, none, some,
  bit_or, inl, inr,
}
use native.Mathlib.Decide.{ℕ_discrete}
use jat_os.Pages.{Mem, Pool, present, user_rw_present, set_pte, drop_dirty}
use jat_os.Pages.Window.{pde, inside, Entries}
use jat_os.Pages.Behind.{frame_of}
use jat_os.Pages.Writes.{
  set_pte-pde, frame_of-set_pte, set_pte-Entries, drop_dirty-pde, frame_of-drop_dirty,
  drop_dirty-Entries,
}
use jat_os.Pages.NewTable.{NoTable, entry_of, tabled, tabled-tables}

-- Every table was there before, in the same entry of the directory.
abbrev pub KeepsTables : Mem → Mem → Type 0
KeepsTables m m' =
    (i : ℕ)
    → present (pde m' i) ≡ true
    → (present (pde m i) ≡ true) × (pde m i / 4096 ≡ pde m' i / 4096)

-- Or it is the one at frame `q`.
abbrev pub AddsTable : Mem → Mem → ℕ → Type 0
AddsTable m m' q =
    (i : ℕ)
    → present (pde m' i) ≡ true
    → ((present (pde m i) ≡ true) × (pde m i / 4096 ≡ pde m' i / 4096)) ⊎ (pde m' i / 4096 ≡ q)

abbrev pub linked : ℕ → ℕ → Mem → Mem
linked vaddr p m = drop_dirty vaddr (set_pte vaddr (bit_or p user_rw_present) m)

module _ (m : Mem) (v p : ℕ) (ok : Entries m) (here : present (pde m (v / 2 ^ 22)) ≡ true)
    (at : inside (v / 2 ^ 12) ≡ true) (al : p % 4096 ≡ 0) (lt : p < 2 ^ 32) where
  abbrev e : ℕ
  e = bit_or p user_rw_present

  abbrev m1 : Mem
  m1 = set_pte v e m

  still_here : present (pde m1 (v / 2 ^ 22)) ≡ true
  still_here = ap present (set_pte-pde m v e ok here at (v / 2 ^ 22)) ∙ here

  set-Entries : Entries m1
  set-Entries = set_pte-Entries m v e ok here at (entry_of p al lt).2

  pub frame_of-linked :
      (page : ℕ)
      → frame_of (linked v p m) page
        ≡ (if v / 2 ^ 12 == page then some (p / 4096) else frame_of m page)
  frame_of-linked page =
      let (on, high, fits) = entry_of p al lt in
      frame_of-drop_dirty m1 v set-Entries still_here at page
      ∙ frame_of-set_pte m v e ok here at page
      ∙ ap
          (λ (b : Bool).
            if v / 2 ^ 12 == page then (if b then some (e / 4096) else none) else frame_of m page)
          on
      ∙ ap (λ (t : ℕ). if v / 2 ^ 12 == page then some t else frame_of m page) high

  pub linked-Entries : Entries (linked v p m)
  linked-Entries = drop_dirty-Entries m1 v set-Entries still_here at

  pub linked-KeepsTables : KeepsTables m (linked v p m)
  linked-KeepsTables i on =
      let (high, same) = drop_dirty-pde m1 v set-Entries still_here at i in
      let old = set_pte-pde m v e ok here at i in
      (ap present (sym old) ∙ sym same ∙ on, ap (λ (t : ℕ). t / 4096) (sym old) ∙ sym high)

-- A new table, and then the entry of the page.
module _ (m : Mem) (v q : ℕ) (k : Pool) (ok : Entries m)
    (absent : present (pde m (v / 2 ^ 22)) ≡ false) (at : inside (v / 2 ^ 12) ≡ true)
    (al : q % 4096 ≡ 0) (pos : 0 < q) (lt : q < 2 ^ 32) (fresh : NoTable m (q / 4096)) where
  pub tabled-AddsTable : (m' : Mem) → KeepsTables (tabled v q k m) m' → AddsTable m m' (q / 4096)
  tabled-AddsTable m' keeps i on =
      let (on2, same) = keeps i on in
      elim (ℕ_discrete (pde m' i / 4096) (q / 4096)) [
        | yes s ↦ inr s
        | no ne ↦
            inl (tabled-tables m v q k ok absent at al pos lt fresh i on2 (pde m' i / 4096) same ne)
      ]
