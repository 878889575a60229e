-- ===== src/Pages/Tests.antt =====
-- The theorems on pages at a machine of 2 MiB and 64 KiB, with what the loader leaves.
use jat_os.Prelude.{
  ℕ, ◌+◌, ◌-◌, ◌*◌, ◌<◌, ◌&&◌, leb, ltb, Bool-cases, Option-cases, inr, false, ap, ==_iff, ◌/◌, ◌%◌,
  ◌≡◌, refl, ◌∙◌, inl, true, ◌≤◌, none, some, if◌then◌else◌, ◌==◌, arith,
}
use jat_os.Bitmap.Init.{empty_free}
use jat_os.Pages.{Mem, Pool, VirtualAddr, present, addr_v2p}
use jat_os.Pages.Map.{page_table_add-addr_v2p}
use jat_os.Pages.Behind.{frame_of, frame_of-some}
use jat_os.Pages.Writes.{inside_index}
use jat_os.Pages.Tables.{IsTable, directory, at_index, TablesApart-FreshFrames}
use jat_os.Pages.Entry.{TableAdded, page_table_add-TableAdded}
use jat_os.Pages.Inv.{Inv}
use jat_os.Pages.Count.{free_count-all}
use jat_os.Pages.Grow.{Enough}
use jat_os.Pages.Window.{pde, pte, Entries}
use jat_os.Pages.Boot.Booted.{Loaded, Booted, booted, booted-Inv, booted_frames}

abbrev no_pool : Pool
no_pool = record {
  pool_bitmap = record { bits = λ q. 0; btmp_bytes_len = 0 };
  phy_addr_start = 0;
  pool_size = 0;
}

-- A process with 16 pages.
abbrev process_pages : VirtualAddr
process_pages = record {
  vaddr_bitmap = record { bits = λ q. 0; btmp_bytes_len = 2 };
  vaddr_start = 0x8048000;
}

-- The words that the loader leaves: the directory in frame 0x100, its first table in frame 0x101,
-- for the first and for the 768th entry, and the other tables of the kernel behind it.
abbrev loaded_word : ℕ → ℕ → ℕ
loaded_word f i =
    if f == 0x100
    then (if i == 0
        then 0x101007
        else if i == 1023
        then 0x100007
        else if leb 768 i && ltb i 1023
        then (0x101 + (i - 768)) * 4096 + 7
        else 0)
    else if (f == 0x101) && ltb i 256
    then i * 4096 + 7
    else 0

abbrev loaded : Mem
loaded = record {
  kernel_pool = no_pool;
  user_pool = no_pool;
  kernel_vaddr = process_pages;
  userprog_vaddr = process_pages;
  word = loaded_word;
  dir = 0x100;
}

loaded-pde : (i : ℕ) → 768 ≤ i → i < 1023 → pde loaded i ≡ (0x101 + (i - 768)) * 4096 + 7
loaded-pde i lo hi = ground arith

loaded-high : (i : ℕ) → 0 < i → i < 1023 → present (pde loaded i) ≡ true → 768 ≤ i
loaded-high i lo hi on = elim (Bool-cases (leb 768 i)) [
  | inl e ↦ ground arith
  | inr e ↦
      let none_there : pde loaded i ≡ 0 = ground arith in
      absurd (let off : present (pde loaded i) ≡ false = ap present none_there in cc)
]

loaded-table :
    (i : ℕ)
    → 0 < i
    → i < 1023
    → present (pde loaded i) ≡ true
    → (768 ≤ i) × (pde loaded i / 4096 ≡ 0x101 + (i - 768))
loaded-table i lo hi on =
    let high = loaded-high i lo hi on in let value = loaded-pde i high hi in (high, omega arith)

loaded-IsTable : (f : ℕ) → IsTable loaded f → (0x100 ≤ f) × (f < 0x200)
loaded-IsTable f (directory e) = (omega arith, omega arith)
loaded-IsTable f (at_index i lo hi on e) =
    let (high, value) = loaded-table i lo hi on in (omega arith, omega arith)

-- The first megabyte at 0xc0000000, and nothing else.
loaded-frame :
    (page f : ℕ)
    → frame_of loaded page ≡ some f
    → (page / 1024 ≡ 768) × (page % 1024 < 0x100) × (f ≡ page % 1024)
loaded-frame page f e =
    let (at, here, on, at_f) = frame_of-some loaded page f e in
    let idx = inside_index page at in
    let (high, value) = loaded-table (page / 1024) idx.0 idx.1 here in
    let entry : pte loaded page ≡ loaded_word (0x101 + (page / 1024 - 768)) (page % 1024) =
      ap (λ (t : ℕ). loaded_word t (page % 1024)) value in
    elim (Bool-cases ((page / 1024 == 768) && ltb (page % 1024) 0x100)) [
      | inl s ↦
          let w : pte loaded page ≡ page % 1024 * 4096 + 7 = entry ∙ ground arith in
          (ground arith, ground arith, omega arith)
      | inr s ↦
          let w : pte loaded page ≡ 0 = entry ∙ ground arith in
          absurd (let off : present (pte loaded page) ≡ false = ap present w in cc)
    ]

loaded-Entries : Entries loaded
loaded-Entries = record {
  fits = λ f i. ground arith;
  above = λ i on. elim (Bool-cases (pde loaded i == 0)) [
    | inl z ↦
        absurd (let off : present (pde loaded i) ≡ false = ap present ((==_iff _ _).0 z) in cc)
    | inr z ↦ ground arith
  ];
  itself = refl;
  not_dir = λ i lo hi on e. (let t = loaded-table i lo hi on in omega arith);
  own = λ i j li hi lj hj oi oj e.
      let a = loaded-table i li hi oi in let b = loaded-table j lj hj oj in omega arith;
}

no_heap : (page : ℕ) → 0xc0100 ≤ page → page < 0xd0000 → frame_of loaded page ≡ none
no_heap page lo hi = elim (Option-cases (frame_of loaded page)) [
  | inl e ↦ e
  | inr (f, e) ↦ absurd (let t = loaded-frame page f e in omega arith)
]

no_process : (page : ℕ) → page < 0xc0000 → frame_of loaded page ≡ none
no_process page hi = elim (Option-cases (frame_of loaded page)) [
  | inl e ↦ e
  | inr (f, e) ↦ absurd (let t = loaded-frame page f e in omega arith)
]

loaded-Loaded : Loaded loaded
loaded-Loaded = record {
  entries = loaded-Entries;
  low_tables = λ f t. (loaded-IsTable f t).1;
  no_page =
      λ page f t e. let low = loaded-frame page f e in let high = loaded-IsTable f t in omega arith;
  kernel_bytes = λ q. omega arith;
  user_bytes = λ q. omega arith;
  page_bytes = λ q. omega arith;
  no_heap = λ page lo hi. no_heap page lo hi;
  low_frames = λ page f e. (let low = loaded-frame page f e in omega arith);
  user_pages = record {
    bytes = λ q. omega arith;
    ends = omega arith;
    above = omega arith;
    aligned = refl;
    no_frame = λ i lt free. no_process (0x8048000 / 4096 + i) (omega arith);
  };
  below = omega arith;
}

abbrev start : Mem
start = booted loaded 0x210000 loaded-Loaded (omega arith) (omega arith)

start-Inv : Inv start
start-Inv = booted-Inv loaded 0x210000 loaded-Loaded (omega arith) (omega arith)

no_process_start : (page : ℕ) → page < 0xc0000 → frame_of start page ≡ none
no_process_start page lt =
    booted_frames loaded 0x210000 loaded-Loaded (omega arith) (omega arith) page
    ∙ no_process page lt

start-Enough : (cnt : ℕ) → cnt ≤ 4 → Enough start cnt
start-Enough cnt le = record {
  in_kernel = omega (arith, free_count-all start.kernel_pool (empty_free (λ q. 0) 1));
  in_user = omega (arith, free_count-all start.user_pool (empty_free (λ q. 0) 1));
}

-- The memory behind page_table_add for the page at 0x8048000, with the frame at 0x208000.
abbrev added : (m' : Mem) × TableAdded start start m' 0x8048000 0x208000
added =
    page_table_add-TableAdded start start 0x8048000 0x208000 start-Inv.entries (λ page. refl)
      start-Inv.kernel.well_formed (TablesApart-FreshFrames start start-Inv.tables) refl
      (no_process_start 0x8048 (omega arith)) refl (omega arith)
      (let n = (start-Enough 1 (omega arith)).in_kernel in omega arith)

page_table_add_example : addr_v2p 0x8048123 added.0 ≡ (
    if 0x8048123 / 4096 == 0x8048000 / 4096
    then 0x208000 + 0x8048123 % 4096
    else addr_v2p 0x8048123 start)
page_table_add_example =
    page_table_add-addr_v2p start added.0 0x8048000 0x208000 0x8048123 0 start-Inv.entries
      start-Inv.kernel.well_formed (TablesApart-FreshFrames start start-Inv.tables) refl
      (no_process_start 0x8048 (omega arith)) refl (omega arith) added.1.runs (inl refl)
