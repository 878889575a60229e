-- ===== src/Pages/Window.antt =====
-- The page tables behind `pde_ptr` and `pte_ptr` of kernel/memop/memory.c: the directory maps itself
-- by its last entry.
use jat_os.Prelude.{
  ℕ, ◌+◌, ◌*◌, ◌/◌, ◌%◌, ◌^◌, ◌≤◌, ◌<◌, ◌≡◌, ◌≢◌, refl, ap, ◌∙◌, Bool, true, ◌==◌, ◌&&◌, leb, ltb,
  if◌then◌else◌, arith,
}
use jat_os.Pages.{
  Mem, pte_ptr, pde_ptr, present, walk, load, stored, without_table, set_pte, set_pde, clear_table,
}
use jat_os.Pages.Masks.{and_index, and_table}

-- An entry of the directory, the frame of the table for a page, and the entry of the page.
abbrev pub pde : Mem → ℕ → ℕ
pde m i = m.word m.dir i

abbrev pub table : Mem → ℕ → ℕ
table m page = pde m (page / 1024) / 4096

abbrev pub pte : Mem → ℕ → ℕ
pte m page = m.word (table m page) (page % 1024)

-- The pages from 4 MiB up to the window on the tables. Below, the kernel's directory shares a table
-- with the kernel's first pages; in the window lie the tables themselves.
abbrev pub inside : ℕ → Bool
inside page = leb 1024 page && ltb page 0xffc00

-- Entries are 32-bit numbers, a table that is present lies in a frame other than 0, the last entry
-- of the directory is the directory itself, and every other index from 1 on has a table of its own.
pub record Entries (m : Mem) : Type 0 where
  pub fits : (f i : ℕ) → m.word f i < 2 ^ 32
  pub above : (i : ℕ) → present (pde m i) ≡ true → 4096 ≤ pde m i
  pub itself : pde m 1023 / 4096 ≡ m.dir
  pub not_dir : (i : ℕ) → 0 < i → i < 1023 → present (pde m i) ≡ true → pde m i / 4096 ≢ m.dir
  pub own :
      (i j : ℕ)
      → 0 < i
      → i < 1023
      → 0 < j
      → j < 1023
      → present (pde m i) ≡ true
      → present (pde m j) ≡ true
      → pde m i / 4096 ≡ pde m j / 4096
      → i ≡ j

pde_ptr-is : (v : ℕ) → v < 2 ^ 32 → pde_ptr v ≡ 0xfffff000 + v / 2 ^ 22 * 4
unfolding pde_ptr
pde_ptr-is v lt = let a = and_table v lt in omega arith

pte_ptr-is : (v : ℕ) → v < 2 ^ 32 → pte_ptr v ≡ 0xffc00000 + v / 2 ^ 22 * 4096 + v / 4096 % 1024 * 4
unfolding pte_ptr
pte_ptr-is v lt = let a = and_table v lt in let b = and_index v in omega arith

module _ (m : Mem) (v : ℕ) (itself : pde m 1023 / 4096 ≡ m.dir) (lt : v < 2 ^ 32) where
  pub walk-pde_ptr : walk (pde_ptr v) m ≡ m.dir
  unfolding walk
  walk-pde_ptr =
      let p = pde_ptr-is v lt in
      let a : pde_ptr v / 2 ^ 22 ≡ 1023 = omega arith in
      let b : pde_ptr v / 2 ^ 12 % 1024 ≡ 1023 = omega arith in rw (a, b, itself, itself) refl

  pub index-pde_ptr : pde_ptr v / 4 % 1024 ≡ v / 2 ^ 22
  index-pde_ptr = let p = pde_ptr-is v lt in omega arith

  pub walk-pte_ptr : walk (pte_ptr v) m ≡ table m (v / 2 ^ 12)
  unfolding walk
  walk-pte_ptr =
      let p = pte_ptr-is v lt in
      let a : pte_ptr v / 2 ^ 22 ≡ 1023 = omega arith in
      let b : pte_ptr v / 2 ^ 12 % 1024 ≡ v / 2 ^ 12 / 1024 = omega arith in rw (a, b, itself) refl

  pub index-pte_ptr : pte_ptr v / 4 % 1024 ≡ v / 2 ^ 12 % 1024
  index-pte_ptr = let p = pte_ptr-is v lt in omega arith

  pub load-pde_ptr : load (pde_ptr v) m ≡ pde m (v / 2 ^ 22)
  unfolding load
  load-pde_ptr =
      ap (λ (f : ℕ). m.word f (pde_ptr v / 4 % 1024)) walk-pde_ptr ∙ ap (m.word m.dir) index-pde_ptr

  pub load-pte_ptr : load (pte_ptr v) m ≡ pte m (v / 2 ^ 12)
  unfolding load
  load-pte_ptr =
      ap (λ (f : ℕ). m.word f (pte_ptr v / 4 % 1024)) walk-pte_ptr
      ∙ ap (m.word (table m (v / 2 ^ 12))) index-pte_ptr

  -- What a write through the pointers leaves.
  pub word-set_pde :
      (e f i : ℕ)
      → (set_pde v e m).word f i ≡ (if (m.dir == f) && (v / 2 ^ 22 == i) then e else m.word f i)
  unfolding stored
  word-set_pde e f i = rw (walk-pde_ptr, index-pde_ptr) refl

  pub word-set_pte :
      (e f i : ℕ)
      → (set_pte v e m).word f i
        ≡ (if (table m (v / 2 ^ 12) == f) && (v / 2 ^ 12 % 1024 == i) then e else m.word f i)
  unfolding stored
  word-set_pte e f i = rw (walk-pte_ptr, index-pte_ptr) refl

  pub word-clear_table :
      (f i : ℕ) → (clear_table v m).word f i ≡ (if table m (v / 2 ^ 12) == f then 0 else m.word f i)
  unfolding without_table
  word-clear_table f i = rw walk-pte_ptr refl
