-- ===== src/Pages/NewTable.antt =====
-- The new table of page_table_add (kernel/memop/memory.c): its frame is cleared.
use jat_os.Prelude.{
  ℕ, ◌/◌, ◌%◌, ◌^◌, ◌<◌, ◌≡◌, ◌≢◌, refl, ap, sym, ◌∙◌, true, false, ◌==◌, ◌&&◌, ==_iff, ==_refl,
  if◌then◌else◌, Bool-cases, inl, inr, bit_or, arith,
}
use jat_os.Pages.{Mem, Pool, present, user_rw_present, set_pde, clear_table}
use jat_os.Pages.Masks.{present_lem, or_flags}
use jat_os.Pages.Window.{pde, table, pte, inside, Entries, word-set_pde, word-clear_table}
use jat_os.Pages.Behind.{
  frame_of, frame_of-entries, frame_of-outside, frame_of-none, frame_of-absent,
  frame_of-both_absent,
}
use jat_os.Pages.Writes.{inside_lt, inside_index}

pub entry_of :
    (p : ℕ)
    → p % 4096 ≡ 0
    → p < 2 ^ 32
    → (present (bit_or p user_rw_present) ≡ true)
      × (bit_or p user_rw_present / 4096 ≡ p / 4096)
      × (bit_or p user_rw_present < 2 ^ 32)
entry_of p al lt =
    let e = or_flags p al in
    (present_lem (bit_or p user_rw_present) ∙ ground (arith, e), omega (arith, e), omega (arith, e))

-- The frame is neither the directory nor a table of the pages from 4 MiB on.
pub record NoTable (m : Mem) (f : ℕ) : Type 0 where
  pub no_dir : f ≢ m.dir
  pub no_table : (i : ℕ) → 0 < i → i < 1023 → present (pde m i) ≡ true → f ≢ pde m i / 4096

-- The memory behind the new table of `table_add`.
abbrev pub tabled : ℕ → ℕ → Pool → Mem → Mem
tabled v q k m = clear_table v (set_pde v (bit_or q user_rw_present) (record m { kernel_pool = k }))

module _ (m : Mem) (v q : ℕ) (k : Pool) (ok : Entries m)
    (absent : present (pde m (v / 2 ^ 22)) ≡ false) (at : inside (v / 2 ^ 12) ≡ true)
    (al : q % 4096 ≡ 0) (pos : 0 < q) (lt : q < 2 ^ 32) (fresh : NoTable m (q / 4096)) where
  abbrev m0 : Mem
  m0 = record m { kernel_pool = k }

  abbrev e : ℕ
  e = bit_or q user_rw_present

  abbrev m1 : Mem
  m1 = set_pde v e m0

  abbrev m2 : Mem
  m2 = tabled v q k m

  linked-word :
      (f i : ℕ) → m1.word f i ≡ (if (m.dir == f) && (v / 2 ^ 22 == i) then e else m.word f i)
  linked-word f i = word-set_pde m0 v ok.itself (inside_lt v at) e f i

  linked-itself : pde m1 1023 / 4096 ≡ m.dir
  linked-itself =
      let lt = inside_index (v / 2 ^ 12) at in
      let other : ((m.dir == m.dir) && (v / 2 ^ 22 == 1023)) ≡ false = ground arith in
      ap (λ (t : ℕ). t / 4096) (linked-word m.dir 1023 ∙ (rw other refl)) ∙ ok.itself

  new_frame : table m1 (v / 2 ^ 12) ≡ q / 4096
  new_frame =
      let (on, high, fits) = entry_of q al lt in
      let here : ((m.dir == m.dir) && (v / 2 ^ 22 == v / 2 ^ 12 / 1024)) ≡ true = ground arith in
      ap (λ (t : ℕ). t / 4096) (linked-word m.dir (v / 2 ^ 12 / 1024) ∙ (rw here refl)) ∙ high

  tabled-word :
      (f i : ℕ)
      → m2.word f i
        ≡ (if q / 4096 == f then 0 else if (m.dir == f) && (v / 2 ^ 22 == i) then e else m.word f i)
  tabled-word f i =
      word-clear_table m1 v linked-itself (inside_lt v at) f i
      ∙ ap (λ (t : ℕ). if t == f then 0 else m1.word f i) new_frame
      ∙ ap (λ (t : ℕ). if q / 4096 == f then 0 else t) (linked-word f i)

  pub tabled-pde : (i : ℕ) → pde m2 i ≡ (if v / 2 ^ 22 == i then e else pde m i)
  tabled-pde i =
      let ne = fresh.no_dir in
      let other : (q / 4096 == m.dir) ≡ false = ground arith in
      tabled-word m.dir i ∙ (rw (other, ==_refl m.dir) refl)

  tabled-old : (i : ℕ) → (v / 2 ^ 22 == i) ≡ false → pde m2 i ≡ pde m i
  tabled-old i s = tabled-pde i ∙ (rw s refl)

  tabled-new : (i : ℕ) → (v / 2 ^ 22 == i) ≡ true → pde m2 i ≡ e
  tabled-new i s = tabled-pde i ∙ (rw s refl)

  pub tabled-present : present (pde m2 (v / 2 ^ 22)) ≡ true
  tabled-present =
      let (on, high, fits) = entry_of q al lt in
      ap present (tabled-new (v / 2 ^ 22) (==_refl (v / 2 ^ 22))) ∙ on

  pub frame_of-tabled : (page : ℕ) → frame_of m2 page ≡ frame_of m page
  frame_of-tabled page = elim (Bool-cases (inside page)) [
    | inr i ↦ frame_of-outside m2 page i ∙ sym (frame_of-outside m page i)
    | inl i ↦ elim (Bool-cases (v / 2 ^ 22 == page / 1024)) [
      | inl s ↦
          let (on, high, fits) = entry_of q al lt in
          let w : v / 2 ^ 22 ≡ page / 1024 = (==_iff _ _).0 s in
          let place : table m2 page ≡ q / 4096 =
            ap (λ (t : ℕ). t / 4096) (tabled-new (page / 1024) s) ∙ high in
          let cleared : pte m2 page ≡ 0 =
            ap (λ (t : ℕ). m2.word t (page % 1024)) place
            ∙ tabled-word (q / 4096) (page % 1024)
            ∙ (rw (==_refl (q / 4096)) refl) in
          frame_of-absent m2 page (ap present cleared)
          ∙ sym (frame_of-none m page (ap (λ (t : ℕ). present (pde m t)) (sym w) ∙ absent))
      | inr s ↦
          let p = tabled-old (page / 1024) s in
          elim (Bool-cases (present (pde m (page / 1024)))) [
            | inr d ↦ frame_of-both_absent m m2 page (ap present p ∙ d) d
            | inl d ↦
                let idx = inside_index page i in
                let nt = fresh.no_table (page / 1024) idx.0 idx.1 d in
                let nd = ok.not_dir (page / 1024) idx.0 idx.1 d in
                let a : (q / 4096 == table m page) ≡ false = ground (arith, nt) in
                let b : (m.dir == table m page) ≡ false = ground (arith, nd) in
                frame_of-entries m m2 page (ap present p) (
                  ap (λ (t : ℕ). m2.word (t / 4096) (page % 1024)) p
                  ∙ tabled-word (table m page) (page % 1024)
                  ∙ (rw (a, b) refl))
          ]
    ]
  ]

  -- A table is an old one or the new one.
  pub tabled-tables :
      (i : ℕ)
      → present (pde m2 i) ≡ true
      → (f : ℕ) → pde m2 i / 4096 ≡ f
      → (f ≢ q / 4096)
      → (present (pde m i) ≡ true) × (pde m i / 4096 ≡ f)
  tabled-tables i on f at_f ne = elim (Bool-cases (v / 2 ^ 22 == i)) [
    | inl s ↦
        let (on', high, fits) = entry_of q al lt in
        absurd (ne (sym at_f ∙ ap (λ (t : ℕ). t / 4096) (tabled-new i s) ∙ high))
    | inr s ↦
        let p = tabled-old i s in (ap present (sym p) ∙ on, ap (λ (t : ℕ). t / 4096) (sym p) ∙ at_f)
  ]

  pub tabled-Entries : Entries m2
  tabled-Entries =
      let (on', high, small) = entry_of q al lt in
      let idx = inside_index (v / 2 ^ 12) at in
      let last : (v / 2 ^ 22 == 1023) ≡ false = ground arith in
      record {
        fits = λ f i. let w = tabled-word f i in let old = ok.fits f i in ground arith;
        above = λ i on. elim (Bool-cases (v / 2 ^ 22 == i)) [
          | inl s ↦ (let p = tabled-new i s in omega arith)
          | inr s ↦
              let p = tabled-old i s in
              let old = ok.above i (ap present (sym p) ∙ on) in omega arith
        ];
        itself = ap (λ (t : ℕ). t / 4096) (tabled-old 1023 last) ∙ ok.itself;
        not_dir = λ i lo hi on f. elim (Bool-cases (v / 2 ^ 22 == i)) [
          | inl s ↦ fresh.no_dir (sym high ∙ ap (λ (t : ℕ). t / 4096) (sym (tabled-new i s)) ∙ f)
          | inr s ↦
              let p = tabled-old i s in
              ok.not_dir i lo hi (ap present (sym p) ∙ on) (ap (λ (t : ℕ). t / 4096) (sym p) ∙ f)
        ];
        own = λ i j li hi lj hj oi oj f. elim (Bool-cases (v / 2 ^ 22 == i)) [
          | inl s ↦ elim (Bool-cases (v / 2 ^ 22 == j)) [
            | inl t ↦ sym ((==_iff _ _).0 s) ∙ (==_iff _ _).0 t
            | inr t ↦
                let p = tabled-old j t in
                absurd (
                  fresh.no_table j lj hj (ap present (sym p) ∙ oj) (
                    sym high
                    ∙ ap (λ (t : ℕ). t / 4096) (sym (tabled-new i s))
                    ∙ f
                    ∙ ap (λ (t : ℕ). t / 4096) p))
          ]
          | inr s ↦
              let p = tabled-old i s in
              elim (Bool-cases (v / 2 ^ 22 == j)) [
                | inl t ↦ absurd (
                    fresh.no_table i li hi (ap present (sym p) ∙ oi) (
                      sym high
                      ∙ ap (λ (t : ℕ). t / 4096) (sym (tabled-new j t))
                      ∙ sym f
                      ∙ ap (λ (t : ℕ). t / 4096) p))
                | inr t ↦
                    let r = tabled-old j t in
                    ok.own i j li hi lj hj (ap present (sym p) ∙ oi) (ap present (sym r) ∙ oj)
                      (ap (λ (t : ℕ). t / 4096) (sym p) ∙ f ∙ ap (λ (t : ℕ). t / 4096) r)
              ]
        ];
      }
