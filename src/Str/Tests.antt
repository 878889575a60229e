-- ===== src/Str/Tests.antt =====
-- Runs of the string routines on a small memory, and the theorems at it.
use jat_os.Prelude.{
  ℕ, ◌+◌, ◌-◌, ◌≡◌, ◌↔◌, refl, inl, inr, false, ◌||◌, ◌==◌, ltb, if◌then◌else◌, done, panic, arith,
  List, [], ◌∷◌, get_or,
}
use jat_os.Str.{
  Memory, store, memset, memcpy, memcmp, strcpy, strlen, strcmp, strchr, strrchr, strcat, strchrs,
}
use jat_os.Str.Block.{inside, SameBlock, memset_lem, memcpy_lem, memcmp-zero}
use jat_os.Str.Text.{IsString, Copied, strlen-length, strcpy-Copied, strcat-append}
use jat_os.Str.Compare.{compare_texts, strcmp-compare_texts, strcmp-zero}
use jat_os.Str.Chars.{First, Last, count, strchr-First, strrchr-Last, strchrs-count}

-- "aba" at 100 and "b" at 104.
abbrev memory : Memory
memory q = if ltb q 100 then 0 else get_or (97 ∷ 98 ∷ 97 ∷ 0 ∷ 98 ∷ 0 ∷ []) (q - 100) 0

abbrev aba : List ℕ
aba = 97 ∷ 98 ∷ 97 ∷ []

abbrev b : List ℕ
b = 98 ∷ []

-- A character above 127 counts as negative.
high_is_negative : strcmp 5 (store memory 100 200) 100 104 ≡ done 255
unfolding strcmp
high_is_negative = refl

-- A byte from 128 on is never found.
high_is_not_found : strchr 5 (store memory 100 200) 100 200 ≡ done 0
unfolding strchr
high_is_not_found = refl

memset_lem_example :
    memset memory 102 7 2
    ≡ (if (102 == 0) || (2 == 0) then panic else done (λ q. if inside 102 2 q then 7 else memory q))
memset_lem_example = memset_lem memory 102 7 2 (omega arith)

memcpy_lem_example : memcpy memory 101 102 3 ≡ (
    if (101 == 0) || (102 == 0)
    then panic
    else done (λ q. if inside 101 3 q then memory (102 + (q - 101)) else memory q))
memcpy_lem_example = memcpy_lem memory 101 102 3 (omega arith) (omega arith) (inl (omega arith))

memcmp-zero_example : (memcmp memory 100 102 1 ≡ done 0) ↔ SameBlock memory 100 102 1
memcmp-zero_example =
    memcmp-zero memory 100 102 1 (omega arith) (omega arith) (omega arith) (omega arith)

strlen-length_example : strlen 4 memory 100 ≡ done 3
strlen-length_example =
    strlen-length 4 memory 100 aba (omega arith) (omega arith) (omega arith) (omega arith)

strcpy-Copied_example :
    (m' : Memory) × (strcpy 4 memory 200 100 ≡ done (200, m')) × Copied memory m' 200 aba
strcpy-Copied_example =
    strcpy-Copied 4 memory 200 100 aba (omega arith) (omega arith) (omega arith) (inr (omega arith))
      (omega arith) (omega arith) (omega arith)

strcat-append_example :
    (m' : Memory) × (strcat 5 memory 104 100 ≡ done (104, m'))
    × IsString m' 104 (98 ∷ 97 ∷ 98 ∷ 97 ∷ [])
    × ((q : ℕ) → inside 105 4 q ≡ false → m' q ≡ memory q)
strcat-append_example =
    strcat-append 5 memory 104 100 b aba (omega arith) (omega arith) (omega arith) (omega arith)
      (inr (omega arith)) (omega arith) (omega arith) (omega arith)

strcmp-compare_texts_example : strcmp 4 memory 100 104 ≡ done (compare_texts aba b)
strcmp-compare_texts_example =
    strcmp-compare_texts 4 memory 100 104 aba b (omega arith) (omega arith) (omega arith)
      (omega arith) (omega arith) (omega arith) (omega arith)

strcmp-zero_example : (strcmp 4 memory 100 104 ≡ done 0) ↔ (aba ≡ b)
strcmp-zero_example =
    strcmp-zero 4 memory 100 104 aba b (omega arith) (omega arith) (omega arith) (omega arith)
      (omega arith) (omega arith) (omega arith) (omega arith) (omega arith)

strchr-First_example : First 98 100 aba (strchr 4 memory 100 98)
strchr-First_example =
    strchr-First 4 memory 100 98 aba (omega arith) (omega arith) (omega arith) (omega arith)
      (omega arith)

strrchr-Last_example : Last 97 100 0 aba (strrchr 4 memory 100 97)
strrchr-Last_example =
    strrchr-Last 4 memory 100 97 aba (omega arith) (omega arith) (omega arith) (omega arith)
      (omega arith)

strchrs-count_example : strchrs 4 memory 100 97 ≡ done (count 97 aba)
strchrs-count_example =
    strchrs-count 4 memory 100 97 aba (omega arith) (omega arith) (omega arith) (omega arith)
      (omega arith)
