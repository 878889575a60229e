-- ===== src/Pages/Count.antt =====
-- How many frames of a pool are free.
use jat_os.Prelude.{
  ℕ, zero, suc, ◌+◌, ◌<◌, ◌≡◌, refl, ap, sym, ◌∙◌, Bool, true, false, ◌==◌, if◌then◌else◌,
  Bool-cases, inl, inr, ==_iff, arith,
}
use jat_os.Pages.{Pool}
use jat_os.Pages.Frames.{frames, frame_free}
use jat_os.Pages.Inv.{Took}

-- At how many numbers under the bound a test passes.
unfoldable count : (ℕ → Bool) → ℕ → ℕ
count test zero = 0
count test (suc top) = count test top + (if test top then 1 else 0)

pub free_count : Pool → ℕ
unfolding count
free_count p = count (frame_free p) (frames p)

count-cong :
    (f g : ℕ → Bool) (top : ℕ) → ((j : ℕ) → j < top → f j ≡ g j) → count f top ≡ count g top
unfolding count
count-cong f g zero h = refl
count-cong f g (suc top) h = ground (arith, h top, count-cong f g top (λ j lt. h j (omega arith)))

count-taken :
    (f g : ℕ → Bool) (top i : ℕ)
    → i < top
    → f i ≡ true
    → ((j : ℕ) → g j ≡ (if i == j then false else f j))
    → count f top ≡ count g top + 1
unfolding count
count-taken f g zero i lt was reads = absurd (omega arith)
count-taken f g (suc top) i lt was reads = elim (Bool-cases (i == top)) [
  | inl e ↦
      let s : i ≡ top = (==_iff _ _).0 e in
      let same = count-cong f g top (λ j below. let r = reads j in ground arith) in
      let at_top : f top ≡ true = ap f (sym s) ∙ was in ground (arith, same, reads top, at_top)
  | inr e ↦
      let rest = count-taken f g top i (ground arith) was reads in ground (arith, rest, reads top)
]

count-none : (f : ℕ → Bool) (top : ℕ) → ((j : ℕ) → j < top → f j ≡ false) → count f top ≡ 0
unfolding count
count-none f zero h = refl
count-none f (suc top) h = ground (arith, h top, count-none f top (λ j lt. h j (omega arith)))

pub free_count-Took : (p p' : Pool) (i : ℕ) → Took p p' i → free_count p ≡ free_count p' + 1
unfolding free_count
free_count-Took p p' i took =
    count-taken (frame_free p) (frame_free p') (frames p) i took.inside took.was_free took.reads
    ∙ ap (λ (t : ℕ). count (frame_free p') t + 1) (sym took.len)

pub free_count-full :
    (p : Pool) → ((j : ℕ) → j < frames p → frame_free p j ≡ false) → free_count p ≡ 0
unfolding free_count
free_count-full p all = count-none (frame_free p) (frames p) all

count-all : (f : ℕ → Bool) (top : ℕ) → ((j : ℕ) → j < top → f j ≡ true) → count f top ≡ top
unfolding count
count-all f zero h = refl
count-all f (suc top) h = ground (arith, h top, count-all f top (λ j lt. h j (omega arith)))

pub free_count-all :
    (p : Pool) → ((j : ℕ) → j < frames p → frame_free p j ≡ true) → free_count p ≡ frames p
unfolding free_count
free_count-all p all = count-all (frame_free p) (frames p) all
