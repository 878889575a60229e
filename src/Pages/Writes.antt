-- ===== src/Pages/Writes.antt =====
-- What the writes of page_table_add (kernel/memop/memory.c) do to the page tables.
use jat_os.Prelude.{
  ℕ, ◌/◌, ◌%◌, ◌^◌, ◌<◌, ◌≡◌, refl, ap, sym, ◌∙◌, true, false, ◌==◌, ==_iff, ==_refl, if◌then◌else◌,
  none, some, Bool-cases, inl, inr, bit_and, arith,
}
use jat_os.Pages.{Mem, present, pde_ptr, load, set_pte, drop_dirty}
use jat_os.Pages.Masks.{present_lem, and_clean}
use jat_os.Pages.Window.{pde, table, pte, inside, Entries, load-pde_ptr, word-set_pde, word-set_pte}
use jat_os.Pages.Behind.{
  frame_of, frame_of-entries, frame_of-outside, frame_of-none, frame_of-here, frame_of-both_absent,
}

pub inside_lt : (v : ℕ) → inside (v / 2 ^ 12) ≡ true → v < 2 ^ 32
inside_lt v i = ground arith

pub inside_index : (page : ℕ) → inside page ≡ true → (0 < page / 1024) × (page / 1024 < 1023)
inside_index page i = (ground arith, ground arith)

-- A write of an entry of a page with a table.
module _ (m : Mem) (v e : ℕ) (ok : Entries m) (here : present (pde m (v / 2 ^ 22)) ≡ true)
    (at : inside (v / 2 ^ 12) ≡ true) where
  abbrev after : Mem
  after = set_pte v e m

  same_index : v / 2 ^ 12 / 1024 ≡ v / 2 ^ 22
  same_index = omega arith

  -- The directory stays.
  pub set_pte-pde : (i : ℕ) → pde after i ≡ pde m i
  set_pte-pde i =
      let lt = inside_index (v / 2 ^ 12) at in
      let ne = ok.not_dir (v / 2 ^ 22) (omega arith) (omega arith) here in
      let other : (table m (v / 2 ^ 12) == m.dir) ≡ false =
        ground (arith, ne, ap (λ (t : ℕ). pde m t / 4096) same_index) in
      word-set_pte m v ok.itself (inside_lt v at) e m.dir i ∙ (rw other refl)

  set_pte-pte :
      (page : ℕ)
      → inside page ≡ true
      → present (pde m (page / 1024)) ≡ true
      → pte after page ≡ (if v / 2 ^ 12 == page then e else pte m page)
  set_pte-pte page i d =
      let lt = inside_index (v / 2 ^ 12) at in
      let lt' = inside_index page i in
      let place : pte after page ≡ after.word (table m page) (page % 1024) =
        ap (λ (t : ℕ). after.word (t / 4096) (page % 1024)) (set_pte-pde (page / 1024)) in
      let write = word-set_pte m v ok.itself (inside_lt v at) e (table m page) (page % 1024) in
      elim (Bool-cases (v / 2 ^ 12 == page)) [
        | inl s ↦
            let w : v / 2 ^ 12 ≡ page = (==_iff _ _).0 s in
            let t : (table m (v / 2 ^ 12) == table m page) ≡ true =
              (==_iff _ _).1 (ap (table m) w) in
            let x : (v / 2 ^ 12 % 1024 == page % 1024) ≡ true =
              (==_iff _ _).1 (ap (λ (t : ℕ). t % 1024) w) in
            place ∙ write ∙ (rw (s, t, x) refl)
        | inr s ↦ elim (Bool-cases (table m (v / 2 ^ 12) == table m page)) [
          | inl t ↦
              let same : v / 2 ^ 12 / 1024 ≡ page / 1024 =
                ok.own (v / 2 ^ 12 / 1024) (page / 1024) lt.0 lt.1 lt'.0 lt'.1
                  (ap (λ (t : ℕ). present (pde m t)) same_index ∙ here) d ((==_iff _ _).0 t) in
              let x : (v / 2 ^ 12 % 1024 == page % 1024) ≡ false = ground arith in
              place ∙ write ∙ (rw (s, t, x) refl)
          | inr t ↦ place ∙ write ∙ (rw (s, t) refl)
        ]
      ]

  -- The frame behind the page follows the entry, and the other pages keep theirs.
  pub frame_of-set_pte :
      (page : ℕ)
      → frame_of after page ≡ (
          if v / 2 ^ 12 == page
          then (if present e then some (e / 4096) else none)
          else frame_of m page)
  frame_of-set_pte page = elim (Bool-cases (inside page)) [
    | inr i ↦
        let other : (v / 2 ^ 12 == page) ≡ false = ground arith in
        rw other (frame_of-outside after page i ∙ sym (frame_of-outside m page i))
    | inl i ↦ elim (Bool-cases (present (pde m (page / 1024)))) [
      | inr d ↦
          let d' = ap present (set_pte-pde (page / 1024)) ∙ d in
          let other : (v / 2 ^ 12 == page) ≡ false = elim (Bool-cases (v / 2 ^ 12 == page)) [
            | inr s ↦ s
            | inl s ↦
                let w : page / 1024 ≡ v / 2 ^ 22 = let w' = (==_iff _ _).0 s in omega arith in
                let clash : true ≡ false =
                  sym here ∙ ap (λ (t : ℕ). present (pde m t)) (sym w) ∙ d in
                absurd (cc)
          ] in
          rw other (frame_of-none after page d' ∙ sym (frame_of-none m page d))
      | inl d ↦
          let d' = ap present (set_pte-pde (page / 1024)) ∙ d in
          let entry = set_pte-pte page i d in
          frame_of-here after page i d'
          ∙ ap (λ (t : ℕ). if present t then some (t / 4096) else none) entry
          ∙ elim (Bool-cases (v / 2 ^ 12 == page)) [
            | inl s ↦ rw s refl
            | inr s ↦ rw s (sym (frame_of-here m page i d))
          ]
    ]
  ]

  pub set_pte-Entries : e < 2 ^ 32 → Entries after
  set_pte-Entries small = record {
    fits = λ f i.
        let w = word-set_pte m v ok.itself (inside_lt v at) e f i in
        let old = ok.fits f i in ground arith;
    above = λ i on.
        let s = set_pte-pde i in let old = ok.above i (ap present (sym s) ∙ on) in omega arith;
    itself = ap (λ (t : ℕ). t / 4096) (set_pte-pde 1023) ∙ ok.itself;
    not_dir = λ i lo hi on f.
        let s = set_pte-pde i in
        ok.not_dir i lo hi (ap present (sym s) ∙ on) (ap (λ (t : ℕ). t / 4096) (sym s) ∙ f);
    own = λ i j li hi lj hj oi oj f.
        let si = set_pte-pde i in
        let sj = set_pte-pde j in
        ok.own i j li hi lj hj (ap present (sym si) ∙ oi) (ap present (sym sj) ∙ oj)
          (ap (λ (t : ℕ). t / 4096) (sym si) ∙ f ∙ ap (λ (t : ℕ). t / 4096) sj);
  }

-- The entry of the directory for `v` with another flag, or without it: same table, same presence.
module _ (m : Mem) (v : ℕ) (ok : Entries m) (here : present (pde m (v / 2 ^ 22)) ≡ true)
    (at : inside (v / 2 ^ 12) ≡ true) where
  abbrev cleaned : Mem
  cleaned = drop_dirty v m

  abbrev entry : ℕ
  entry = bit_and (load (pde_ptr v) m) 0xffffffbf

  small_index : (0 < v / 2 ^ 22) × (v / 2 ^ 22 < 1023)
  small_index = let lt = inside_index (v / 2 ^ 12) at in (omega arith, omega arith)

  entry_is :
      (entry / 4096 ≡ pde m (v / 2 ^ 22) / 4096)
      × (present entry ≡ present (pde m (v / 2 ^ 22)))
      × (entry < 2 ^ 32)
  entry_is =
      let l = load-pde_ptr m v ok.itself (inside_lt v at) in
      let fits = ok.fits m.dir (v / 2 ^ 22) in
      let (high, low, small) = and_clean (pde m (v / 2 ^ 22)) fits in
      let w : entry ≡ bit_and (pde m (v / 2 ^ 22)) 0xffffffbf =
        ap (λ (t : ℕ). bit_and t 0xffffffbf) l in
      (
        ap (λ (t : ℕ). t / 4096) w ∙ high,
        ap present w
            ∙ present_lem (bit_and (pde m (v / 2 ^ 22)) 0xffffffbf)
            ∙ ground (arith, low)
            ∙ sym (present_lem (pde m (v / 2 ^ 22))),
        omega (arith, w, small),
      )

  cleaned-word : (f i : ℕ) → (m.dir == f) ≡ false → cleaned.word f i ≡ m.word f i
  cleaned-word f i other = word-set_pde m v ok.itself (inside_lt v at) entry f i ∙ (rw other refl)

  cleaned-pde : (i : ℕ) → pde cleaned i ≡ (if v / 2 ^ 22 == i then entry else pde m i)
  cleaned-pde i =
      word-set_pde m v ok.itself (inside_lt v at) entry m.dir i ∙ (rw (==_refl m.dir) refl)

  pub drop_dirty-pde :
      (i : ℕ)
      → (pde cleaned i / 4096 ≡ pde m i / 4096) × (present (pde cleaned i) ≡ present (pde m i))
  drop_dirty-pde i = elim (Bool-cases (v / 2 ^ 22 == i)) [
    | inl s ↦
        let w : v / 2 ^ 22 ≡ i = (==_iff _ _).0 s in
        let p : pde cleaned i ≡ entry = cleaned-pde i ∙ (rw s refl) in
        (
          ap (λ (t : ℕ). t / 4096) p ∙ entry_is.0 ∙ ap (λ (t : ℕ). pde m t / 4096) w,
          ap present p ∙ entry_is.1 ∙ ap (λ (t : ℕ). present (pde m t)) w,
        )
    | inr s ↦
        let p : pde cleaned i ≡ pde m i = cleaned-pde i ∙ (rw s refl) in
        (ap (λ (t : ℕ). t / 4096) p, ap present p)
  ]

  pub frame_of-drop_dirty : (page : ℕ) → frame_of cleaned page ≡ frame_of m page
  frame_of-drop_dirty page = elim (Bool-cases (inside page)) [
    | inr i ↦ frame_of-outside cleaned page i ∙ sym (frame_of-outside m page i)
    | inl i ↦
        let (high, on) = drop_dirty-pde (page / 1024) in
        elim (Bool-cases (present (pde m (page / 1024)))) [
          | inr d ↦ frame_of-both_absent m cleaned page (on ∙ d) d
          | inl d ↦
              let lt = inside_index page i in
              let ne = ok.not_dir (page / 1024) lt.0 lt.1 d in
              let other : (m.dir == table m page) ≡ false = ground (arith, ne) in
              frame_of-entries m cleaned page on (
                ap (λ (t : ℕ). cleaned.word t (page % 1024)) high
                ∙ cleaned-word (table m page) (page % 1024) other)
        ]
  ]

  pub drop_dirty-Entries : Entries cleaned
  drop_dirty-Entries = record {
    fits = λ f i.
        let w = word-set_pde m v ok.itself (inside_lt v at) entry f i in
        let old = ok.fits f i in let new = entry_is.2 in ground arith;
    above = λ i on.
        let (high, same) = drop_dirty-pde i in let old = ok.above i (sym same ∙ on) in omega arith;
    itself = (drop_dirty-pde 1023).0 ∙ ok.itself;
    not_dir = λ i lo hi on f.
        let (high, same) = drop_dirty-pde i in ok.not_dir i lo hi (sym same ∙ on) (sym high ∙ f);
    own = λ i j li hi lj hj oi oj f.
        let (a, si) = drop_dirty-pde i in
        let (b, sj) = drop_dirty-pde j in
        ok.own i j li hi lj hj (sym si ∙ oi) (sym sj ∙ oj) (sym a ∙ f ∙ b);
  }
