-- ===== src/Pages/Inv.antt =====
-- What the page allocator of kernel/memop/memory.c keeps: the frames and the pages of the memory.
use jat_os.Prelude.{
  ℕ, ◌+◌, ◌*◌, ◌/◌, ◌%◌, ◌^◌, ◌≤◌, ◌<◌, ◌≡◌, ◌≢◌, refl, ap, sym, ◌∙◌, true, false, ◌==◌,
  if◌then◌else◌, none, some, Bool-cases, inl, inr, done, panic, arith, ==_iff, ◌⊎◌,
}
use jat_os.Bitmap.Set.{is_free, IsBytes}
use jat_os.Pages.{Mem, Pool, VirtualAddr, palloc}
use jat_os.Pages.Frames.{WellFormed, taken, full, frame_free, frames, palloc-Palloced}
use jat_os.Pages.Window.{Entries}
use jat_os.Pages.Behind.{frame_of}
use jat_os.Pages.Tables.{TablesApart}

-- The number of a pool's frame in the physical memory.
abbrev pub frame_no : Pool → ℕ → ℕ
frame_no p i = p.phy_addr_start / 4096 + i

-- A frame of the pool that lies behind a page is taken, and behind no other page.
pub record Owned (m : Mem) (p : Pool) : Type 0 where
  pub well_formed : WellFormed p
  pub used :
      (page i : ℕ) → i < frames p → frame_of m page ≡ some (frame_no p i) → frame_free p i ≡ false
  pub single :
      (a b i : ℕ)
      → i < frames p
      → frame_of m a ≡ some (frame_no p i)
      → frame_of m b ≡ some (frame_no p i)
      → a ≡ b

-- A page whose bit is free has no frame.
pub record Reserved (m : Mem) (v : VirtualAddr) : Type 0 where
  pub bytes : IsBytes v.vaddr_bitmap
  pub ends : v.vaddr_start + v.vaddr_bitmap.btmp_bytes_len * 8 * 4096 ≤ 0xffc00000
  pub above : 0x400000 ≤ v.vaddr_start
  pub aligned : v.vaddr_start % 4096 ≡ 0
  pub no_frame :
      (i : ℕ)
      → i < v.vaddr_bitmap.btmp_bytes_len * 8
      → is_free v.vaddr_bitmap i ≡ true
      → frame_of m (v.vaddr_start / 4096 + i) ≡ none

-- The pools do not overlap, and neither do the pages of a process and those of the kernel.
pub record Inv (m : Mem) : Type 0 where
  pub entries : Entries m
  pub tables : TablesApart m
  pub kernel : Owned m m.kernel_pool
  pub user : Owned m m.user_pool
  pub apart :
      m.kernel_pool.phy_addr_start + frames m.kernel_pool * 4096 ≤ m.user_pool.phy_addr_start
  pub kernel_pages : Reserved m m.kernel_vaddr
  pub user_pages : Reserved m m.userprog_vaddr
  pub below_kernel :
      m.userprog_vaddr.vaddr_start + m.userprog_vaddr.vaddr_bitmap.btmp_bytes_len * 8 * 4096
      ≤ m.kernel_vaddr.vaddr_start

-- A pool with its free frame `i` taken.
pub record Took (p p' : Pool) (i : ℕ) : Type 0 where
  pub well_formed : WellFormed p'
  pub start : p'.phy_addr_start ≡ p.phy_addr_start
  pub len : frames p' ≡ frames p
  pub inside : i < frames p
  pub was_free : frame_free p i ≡ true
  pub reads : (j : ℕ) → frame_free p' j ≡ (if i == j then false else frame_free p j)

frame_no-start :
    (p p' : Pool) (i : ℕ) → p'.phy_addr_start ≡ p.phy_addr_start → frame_no p' i ≡ frame_no p i
frame_no-start p p' i e = ap (λ (t : ℕ). t / 4096 + i) e

-- Taking a frame from a pool keeps what is behind the pages.
pub Owned-Took : (m : Mem) (p p' : Pool) (i : ℕ) → Owned m p → Took p p' i → Owned m p'
Owned-Took m p p' i ow took =
    let len = took.len in
    record {
      well_formed = took.well_formed;
      used = λ page j lt e.
          let was = ow.used page j (omega arith) (e ∙ ap some (frame_no-start p p' j took.start)) in
          took.reads j ∙ ground (arith, was);
      single = λ a b j lt e1 e2.
          ow.single a b j (omega arith) (e1 ∙ ap some (frame_no-start p p' j took.start))
            (e2 ∙ ap some (frame_no-start p p' j took.start));
    }

-- A free frame is behind no page.
pub Owned-free :
    (m : Mem) (p : Pool) (i : ℕ)
    → Owned m p
    → i < frames p
    → frame_free p i ≡ true
    → (page : ℕ) → frame_of m page ≢ some (frame_no p i)
Owned-free m p i ow lt free page e = let used = ow.used page i lt e in ground arith

-- The page at `v` has got the frame at `q`.
abbrev pub AddsFrame : Mem → Mem → ℕ → ℕ → Type 0
AddsFrame m m' v q =
    (page : ℕ)
    → frame_of m' page ≡ (if v / 2 ^ 12 == page then some (q / 4096) else frame_of m page)

pub added_at :
    (m m' : Mem) (v q a f : ℕ)
    → AddsFrame m m' v q
    → frame_of m' a ≡ some f
    → ((v / 2 ^ 12 ≡ a) × (q / 4096 ≡ f)) ⊎ (frame_of m a ≡ some f)
added_at m m' v q a f ad e = elim (Bool-cases (v / 2 ^ 12 == a)) [
  | inl s ↦
      (let t : some (q / 4096) ≡ some f = sym (ad a ∙ (rw s refl)) ∙ e in
        inl ((==_iff _ _).0 s, cc))
  | inr s ↦ inr (sym (ad a ∙ (rw s refl)) ∙ e)
]

-- A new entry keeps it, when the frame belongs to another pool, or is taken and behind no page.
pub Owned-Added :
    (m m' : Mem) (v q : ℕ) (p : Pool)
    → Owned m p
    → AddsFrame m m' v q
    → ((i : ℕ)
        → i < frames p
        → q / 4096 ≡ frame_no p i
        → (frame_free p i ≡ false) × ((page : ℕ) → frame_of m page ≢ some (frame_no p i)))
    → Owned m' p
Owned-Added m m' v q p ow ad new = record {
  well_formed = ow.well_formed;
  used = λ page i lt e. elim (added_at m m' v q page (frame_no p i) ad e) [
    | inl s ↦ (new i lt s.1).0
    | inr s ↦ ow.used page i lt s
  ];
  single = λ a b i lt e1 e2. elim (added_at m m' v q a (frame_no p i) ad e1) [
    | inl s ↦ elim (added_at m m' v q b (frame_no p i) ad e2) [
      | inl t ↦ sym s.0 ∙ t.0
      | inr t ↦ absurd ((new i lt s.1).1 b t)
    ]
    | inr s ↦ elim (added_at m m' v q b (frame_no p i) ad e2) [
      | inl t ↦ absurd ((new i lt t.1).1 a s)
      | inr t ↦ ow.single a b i lt s t
    ]
  ];
}

pub Reserved-Added :
    (m m' : Mem) (v q : ℕ) (r : VirtualAddr)
    → Reserved m r
    → AddsFrame m m' v q
    → ((i : ℕ)
        → i < r.vaddr_bitmap.btmp_bytes_len * 8
        → is_free r.vaddr_bitmap i ≡ true
        → v / 2 ^ 12 ≢ r.vaddr_start / 4096 + i)
    → Reserved m' r
Reserved-Added m m' v q r ok ad taken_bit = record {
  bytes = ok.bytes;
  ends = ok.ends;
  above = ok.above;
  aligned = ok.aligned;
  no_frame = λ i lt free.
      let other : (v / 2 ^ 12 == r.vaddr_start / 4096 + i) ≡ false =
        ground (arith, taken_bit i lt free) in
      ad (r.vaddr_start / 4096 + i) ∙ (rw other (ok.no_frame i lt free));
}

-- palloc takes a frame, or the pool is full.
pub palloc-Took :
    (p : Pool)
    → WellFormed p
    → ((i : ℕ) × (p' : Pool) × (palloc p ≡ done (frame_no p i * 4096, p')) × Took p p' i)
      ⊎ ((palloc p ≡ panic) × ((j : ℕ) → j < frames p → frame_free p j ≡ false))
palloc-Took p ok = elim (palloc-Palloced p ok) [
  | taken i p' e ok' start len inside first was reads ↦
      (let al = ok.aligned in
        let same : p.phy_addr_start + i * 4096 ≡ frame_no p i * 4096 = omega arith in
        inl (
          i,
          p',
          e ∙ ap (λ (t : ℕ). done (t, p')) same,
          record {
            well_formed = ok';
            start = start;
            len = len;
            inside = inside;
            was_free = was;
            reads = reads;
          },
        ))
  | full e all ↦ inr (e, all)
]

module _ (m m' : Mem) (same : (page : ℕ) → frame_of m' page ≡ frame_of m page) where
  pub Owned-same : (p : Pool) → Owned m p → Owned m' p
  Owned-same p ow = record {
    well_formed = ow.well_formed;
    used = λ page i lt e. ow.used page i lt (sym (same page) ∙ e);
    single = λ a b i lt e1 e2. ow.single a b i lt (sym (same a) ∙ e1) (sym (same b) ∙ e2);
  }

  -- Reserving more pages.
  pub Reserved-same :
      (r r' : VirtualAddr)
      → Reserved m r
      → r'.vaddr_start ≡ r.vaddr_start
      → r'.vaddr_bitmap.btmp_bytes_len ≡ r.vaddr_bitmap.btmp_bytes_len
      → IsBytes r'.vaddr_bitmap
      → ((i : ℕ) → is_free r'.vaddr_bitmap i ≡ true → is_free r.vaddr_bitmap i ≡ true)
      → Reserved m' r'
  Reserved-same r r' ok start len bytes less =
      let ends = ok.ends in
      let above = ok.above in
      let aligned = ok.aligned in
      record {
        bytes = bytes;
        ends = omega (arith, start, len);
        above = omega (arith, start);
        aligned = omega (arith, start);
        no_frame = λ i lt free.
            same (r'.vaddr_start / 4096 + i)
            ∙ ap (λ (t : ℕ). frame_of m (t / 4096 + i)) start
            ∙ ok.no_frame i (omega (arith, len)) (less i free);
      }
