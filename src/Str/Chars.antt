-- ===== src/Str/Chars.antt =====
-- strchr, strrchr and strchrs of kernel/memop/string.c: where a byte stands in a text.
use jat_os.Prelude.{
  ℕ, zero, suc, ◌+◌, ◌^◌, ◌<◌, ◌≡◌, ◌≢◌, ap, ◌∙◌, ◌==◌, if◌then◌else◌, Outcome, done, arith, List,
  [], ◌∷◌, ◌++◌, length,
}
use native.Mathlib.Decide.{ℕ_discrete}
use jat_os.Str.{Memory, next, strchr_loop, strchr, strrchr_loop, strrchr, strchrs_loop, strchrs}
use jat_os.Str.Text.{IsString}

abbrev pub Lacks : ℕ → List ℕ → Type 0
Lacks ch [] = Unit
Lacks ch (c ∷ s) = (c ≢ ch) × Lacks ch s

-- The result of a search for the first `ch` of the text `s` at `str`.
pub data First (ch str : ℕ) (s : List ℕ) (o : Outcome ℕ) : Type 0 where
  absent : Lacks ch s → o ≡ done 0 → First ch str s o
  first_at :
      (pre post : List ℕ)
      → s ≡ pre ++ (ch ∷ post)
      → Lacks ch pre
      → o ≡ done (str + length pre)
      → First ch str s o

First-cons :
    (ch str c : ℕ) (s : List ℕ) (o o' : Outcome ℕ)
    → c ≢ ch
    → o ≡ o'
    → First ch (str + 1) s o'
    → First ch str (c ∷ s) o
First-cons ch str c s o o' ne e (absent lacks r) = absent (ne, lacks) (e ∙ r)
First-cons ch str c s o o' ne e (first_at pre post split lacks r) =
    first_at (c ∷ pre) post (ap (λ l. c ∷ l) split) (ne, lacks) (e ∙ r ∙ ap done (omega arith))

strchr_loop-First :
    (fuel : ℕ) (m : Memory) (str ch : ℕ) (s : List ℕ)
    → ch < 128
    → IsString m str s
    → str + length s + 1 < 2 ^ 32
    → length s < fuel
    → First ch str s (strchr_loop fuel m str ch)
unfolding strchr_loop
strchr_loop-First zero m str ch s low h fits enough = absurd (omega arith)
strchr_loop-First (suc fuel) m str ch [] low h fits enough = absent tt (ground arith)
strchr_loop-First (suc fuel) m str ch (c ∷ s) low (h, nz, rest) fits enough =
    elim (ℕ_discrete c ch) [
      | yes e ↦ first_at [] s (ap (λ x. x ∷ s) e) tt (ground arith)
      | no ne ↦
          let n : next str ≡ str + 1 = omega arith in
          First-cons ch str c s _ (strchr_loop fuel m (str + 1) ch) ne (ground (arith, n))
            (strchr_loop-First fuel m (str + 1) ch s low rest (omega arith) (omega arith))
    ]

-- strchr of a text that lies in the address space, at no NULL, for a byte under 128, ends with the address of the first
-- such byte, or with NULL if the text has none.
pub strchr-First :
    (fuel : ℕ) (m : Memory) (str ch : ℕ) (s : List ℕ)
    → ch < 128
    → IsString m str s
    → str ≢ 0
    → str + length s + 1 < 2 ^ 32
    → length s < fuel
    → First ch str s (strchr fuel m str ch)
unfolding strchr
strchr-First fuel m str ch s low h ne fits enough =
    let e : strchr fuel m str ch ≡ strchr_loop fuel m str ch = ground arith in
    rw e (strchr_loop-First fuel m str ch s low h fits enough)

-- The result of a search for the last `ch`; `default` is the answer where there is none.
pub data Last (ch str default : ℕ) (s : List ℕ) (o : Outcome ℕ) : Type 0 where
  absent : Lacks ch s → o ≡ done default → Last ch str default s o
  last_at :
      (pre post : List ℕ)
      → s ≡ pre ++ (ch ∷ post)
      → Lacks ch post
      → o ≡ done (str + length pre)
      → Last ch str default s o

Last-cons :
    (ch str d c : ℕ) (s : List ℕ) (o o' : Outcome ℕ)
    → o ≡ o'
    → c ≢ ch
    → Last ch (str + 1) d s o'
    → Last ch str d (c ∷ s) o
Last-cons ch str d c s o o' e ne (absent lacks r) = absent (ne, lacks) (e ∙ r)
Last-cons ch str d c s o o' e ne (last_at pre post split lacks r) =
    last_at (c ∷ pre) post (ap (λ l. c ∷ l) split) lacks (e ∙ r ∙ ap done (omega arith))

Last-hit :
    (ch str d c : ℕ) (s : List ℕ) (o o' : Outcome ℕ)
    → o ≡ o'
    → c ≡ ch
    → Last ch (str + 1) str s o'
    → Last ch str d (c ∷ s) o
Last-hit ch str d c s o o' e same (absent lacks r) =
    last_at [] s (ap (λ x. x ∷ s) same) lacks (e ∙ r ∙ ap done (omega arith))
Last-hit ch str d c s o o' e same (last_at pre post split lacks r) =
    last_at (c ∷ pre) post (ap (λ l. c ∷ l) split) lacks (e ∙ r ∙ ap done (omega arith))

strrchr_loop-Last :
    (fuel : ℕ) (m : Memory) (str ch d : ℕ) (s : List ℕ)
    → ch < 128
    → IsString m str s
    → str + length s + 1 < 2 ^ 32
    → length s < fuel
    → Last ch str d s (strrchr_loop fuel m str ch d)
unfolding strrchr_loop
strrchr_loop-Last zero m str ch d s low h fits enough = absurd (omega arith)
strrchr_loop-Last (suc fuel) m str ch d [] low h fits enough = absent tt (ground arith)
strrchr_loop-Last (suc fuel) m str ch d (c ∷ s) low (h, nz, rest) fits enough =
    let n : next str ≡ str + 1 = omega arith in
    elim (ℕ_discrete c ch) [
      | yes e ↦
          Last-hit ch str d c s _ (strrchr_loop fuel m (str + 1) ch str) (ground (arith, n)) e
            (strrchr_loop-Last fuel m (str + 1) ch str s low rest (omega arith) (omega arith))
      | no ne ↦
          Last-cons ch str d c s _ (strrchr_loop fuel m (str + 1) ch d) (ground (arith, n)) ne
            (strrchr_loop-Last fuel m (str + 1) ch d s low rest (omega arith) (omega arith))
    ]

-- strrchr of a text that lies in the address space, at no NULL, for a byte under 128, ends with the address of the last
-- such byte, or with NULL if the text has none.
pub strrchr-Last :
    (fuel : ℕ) (m : Memory) (str ch : ℕ) (s : List ℕ)
    → ch < 128
    → IsString m str s
    → str ≢ 0
    → str + length s + 1 < 2 ^ 32
    → length s < fuel
    → Last ch str 0 s (strrchr fuel m str ch)
unfolding strrchr
strrchr-Last fuel m str ch s low h ne fits enough =
    let e : strrchr fuel m str ch ≡ strrchr_loop fuel m str ch 0 = ground arith in
    rw e (strrchr_loop-Last fuel m str ch 0 s low h fits enough)

unfoldable pub count : ℕ → List ℕ → ℕ
count ch [] = 0
count ch (c ∷ s) = (if c == ch then 1 else 0) + count ch s

strchrs_loop-count :
    (fuel : ℕ) (m : Memory) (p ch n : ℕ) (s : List ℕ)
    → ch < 128
    → IsString m p s
    → p + length s + 1 < 2 ^ 32
    → n + length s < 2 ^ 32
    → length s < fuel
    → strchrs_loop fuel m p ch n ≡ done (n + count ch s)
unfolding strchrs_loop count
strchrs_loop-count zero m p ch n s low h fits small enough = absurd (omega arith)
strchrs_loop-count (suc fuel) m p ch n [] low h fits small enough = ground arith
strchrs_loop-count (suc fuel) m p ch n (c ∷ s) low (h, nz, rest) fits small enough =
    let e : next p ≡ p + 1 = omega arith in
    elim (ℕ_discrete c ch) [
      | yes same ↦ ground (
        arith,
        e,
        strchrs_loop-count fuel m (p + 1) ch (n + 1) s low rest (omega arith) (omega arith)
            (omega arith),
      )
      | no ne ↦ ground (
        arith,
        e,
        strchrs_loop-count fuel m (p + 1) ch n s low rest (omega arith) (omega arith) (omega arith),
      )
    ]

-- strchrs of a text that lies in the address space, at no NULL, for a byte under 128, ends with the number of times that
-- the byte stands in it.
pub strchrs-count :
    (fuel : ℕ) (m : Memory) (str ch : ℕ) (s : List ℕ)
    → ch < 128
    → IsString m str s
    → str ≢ 0
    → str + length s + 1 < 2 ^ 32
    → length s < fuel
    → strchrs fuel m str ch ≡ done (count ch s)
unfolding strchrs
strchrs-count fuel m str ch s low h ne fits enough =
    ground (arith, strchrs_loop-count fuel m str ch 0 s low h fits (omega arith) enough)
