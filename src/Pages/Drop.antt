-- ===== src/Pages/Drop.antt =====
-- A page without its frame, and the pool with the frame (kernel/memop/memory.c).
use jat_os.Prelude.{
  ℕ, ◌+◌, ◌/◌, ◌^◌, ◌<◌, ◌≡◌, ◌≢◌, refl, ap, sym, ◌∙◌, Bool, true, false, ◌==◌, if◌then◌else◌, none,
  some, inl, inr, arith, Bool-cases,
}
use jat_os.Bitmap.{Bitmap}
use jat_os.Bitmap.Set.{Updated}
use jat_os.Pages.{Mem, Pool, VirtualAddr, PoolFlags, pf_kernel, pf_user}
use jat_os.Pages.Frames.{WellFormed, frames, frame_free}
use jat_os.Pages.Behind.{frame_of}
use jat_os.Pages.Inv.{frame_no, Owned, Reserved}

abbrev pub is_user : PoolFlags → Bool
is_user pf_kernel = false
is_user pf_user = true

-- A pool with its frame `i` given back.
pub record Returned (p p' : Pool) (i : ℕ) : Type 0 where
  pub well_formed : WellFormed p'
  start : p'.phy_addr_start ≡ p.phy_addr_start
  pub len : frames p' ≡ frames p
  pub reads : (j : ℕ) → frame_free p' j ≡ (if i == j then true else frame_free p j)

pub bitmap_set-Returned :
    (p : Pool) (i : ℕ) (b : Bitmap)
    → WellFormed p
    → Updated p.pool_bitmap b i 0
    → Returned p (record p { pool_bitmap = b }) i
bitmap_set-Returned p i b ok up =
    let ends = ok.ends in
    let len = up.same_len in
    record {
      well_formed = record {
        bytes = up.bytes;
        ends = omega arith;
        above = ok.above;
        aligned = ok.aligned;
      };
      start = refl;
      len = omega arith;
      reads = up.reads;
    }

-- The page at `v` has lost its frame.
abbrev pub DropsFrame : Mem → Mem → ℕ → Type 0
DropsFrame m m' v =
    (page : ℕ) → frame_of m' page ≡ (if v / 2 ^ 12 == page then none else frame_of m page)

pub kept :
    (m m' : Mem) (v page f : ℕ)
    → DropsFrame m m' v
    → frame_of m' page ≡ some f
    → (v / 2 ^ 12 ≢ page) × (frame_of m page ≡ some f)
kept m m' v page f drops e = elim (Bool-cases (v / 2 ^ 12 == page)) [
  | inl s ↦ (let t : none ≡ some f = sym (drops page ∙ (rw s refl)) ∙ e in absurd (cc))
  | inr s ↦ (ground arith, sym (drops page ∙ (rw s refl)) ∙ e)
]

module _ (m m' : Mem) (v : ℕ) (drops : DropsFrame m m' v) where
  -- The pool that gets the frame back.
  pub Owned-Returned :
      (p p' : Pool) (i : ℕ)
      → Owned m p
      → i < frames p
      → frame_of m (v / 2 ^ 12) ≡ some (frame_no p i)
      → Returned p p' i
      → Owned m' p'
  Owned-Returned p p' i ow inside at_v ret =
      let len = ret.len in
      let same : (j : ℕ) → frame_no p' j ≡ frame_no p j =
        λ j. ap (λ (t : ℕ). t / 4096 + j) ret.start in
      record {
        well_formed = ret.well_formed;
        used = λ page j lt e.
            let (ne, was) = kept m m' v page (frame_no p' j) drops e in
            let was' = was ∙ ap some (same j) in
            let other : i ≢ j = λ s. ne (
              ow.single (v / 2 ^ 12) page i inside at_v
                (was' ∙ ap (λ (t : ℕ). some (frame_no p t)) (sym s))) in
            let used = ow.used page j (omega arith) was' in ret.reads j ∙ ground (arith, other);
        single = λ a b j lt e1 e2.
            let (ne1, was1) = kept m m' v a (frame_no p' j) drops e1 in
            let (ne2, was2) = kept m m' v b (frame_no p' j) drops e2 in
            ow.single a b j (omega arith) (was1 ∙ ap some (same j)) (was2 ∙ ap some (same j));
      }

  pub Owned-Drops : (p : Pool) → Owned m p → Owned m' p
  Owned-Drops p ow = record {
    well_formed = ow.well_formed;
    used = λ page j lt e. ow.used page j lt (kept m m' v page (frame_no p j) drops e).1;
    single = λ a b j lt e1 e2.
        ow.single a b j lt (kept m m' v a (frame_no p j) drops e1).1
          (kept m m' v b (frame_no p j) drops e2).1;
  }

  pub Reserved-Drops : (r : VirtualAddr) → Reserved m r → Reserved m' r
  Reserved-Drops r ok = record {
    bytes = ok.bytes;
    ends = ok.ends;
    above = ok.above;
    aligned = ok.aligned;
    no_frame = λ i lt free.
        let was = ok.no_frame i lt free in drops (r.vaddr_start / 4096 + i) ∙ ground (arith, was);
  }
