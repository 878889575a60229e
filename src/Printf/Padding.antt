-- ===== src/Printf/Padding.antt =====
-- The parts of a directive of vsprintf (kernel/standard/stdio.c): padding, digits and arguments.
use jat_os.Prelude.{
  ℕ, ◌+◌, ◌-◌, ◌*◌, ◌%◌, ◌^◌, ◌≤◌, ◌<◌, ◌≡◌, refl, ap, sym, ◌∙◌, true, false, ◌==◌, ◌&&◌, ltb,
  if◌then◌else◌, List, [], ◌∷◌, ◌++◌, length, done, ◌||◌, Bool, arith, inl, inr, Bool-cases,
}
use jat_os.Printf.{itoa, peek, rest, is_digit, padding_digits, padding_of, zeros, hex}
use jat_os.Printf.Pieces.{digits, itoa-digits}

-- Arguments are 32-bit words.
pub data AreWords : List ℕ → Type 0 where
  none : AreWords []
  more : {a : ℕ} {as' : List ℕ} → a < 2 ^ 32 → AreWords as' → AreWords (a ∷ as')

pub peek_lt : (args : List ℕ) → AreWords args → peek args < 2 ^ 32
peek_lt [] none = omega arith
peek_lt (a ∷ as') (more lt are) = lt

pub rest-AreWords : (args : List ℕ) → AreWords args → AreWords (rest args)
rest-AreWords [] none = none
rest-AreWords (a ∷ as') (more lt are) = are

pub padding_digits-digit :
    (p c : ℕ) (cs : List ℕ)
    → is_digit c ≡ true
    → padding_digits p (c ∷ cs) ≡ padding_digits ((p * 10 + (c - 48)) % 2 ^ 32) cs
unfolding padding_digits
padding_digits-digit p c cs e = rw (padding_digits, e) refl

pub padding_digits-other :
    (p c : ℕ) (cs : List ℕ) → is_digit c ≡ false → padding_digits p (c ∷ cs) ≡ (p, c ∷ cs)
unfolding padding_digits
padding_digits-other p c cs e = rw (padding_digits, e) refl

abbrev left_length : ℕ × List ℕ → ℕ
left_length r = length r.1

padding_digits-length : (p : ℕ) (cs : List ℕ) → left_length (padding_digits p cs) ≤ length cs
padding_digits-length p [] = unfold padding_digits in omega arith
padding_digits-length p (c ∷ cs) = elim (Bool-cases (is_digit c)) [
  | inl e ↦ omega (
    arith,
    ap left_length (padding_digits-digit p c cs e),
    padding_digits-length ((p * 10 + (c - 48)) % 2 ^ 32) cs,
  )
  | inr e ↦ omega (arith, ap left_length (padding_digits-other p c cs e))
]

pub rest-length : (cs : List ℕ) → length (rest cs) ≤ length cs
rest-length [] = omega arith
rest-length (c ∷ cs) = omega arith

pub padding_of-length : (cs : List ℕ) → length (padding_of cs).1 ≤ length cs
unfolding padding_of
padding_of-length cs = elim (Bool-cases (peek cs == 48)) [
  | inl e ↦ rw e (omega (arith, padding_digits-length 0 (rest cs), rest-length cs))
  | inr e ↦ rw e (omega arith)
]

pub decimal-done : (value : ℕ) → value < 2 ^ 32 → itoa 32 value 10 ≡ done (digits 10 value)
decimal-done value lt = itoa-digits value 10 (omega arith) (omega arith) (omega arith)

hex-done : (value : ℕ) → value < 2 ^ 32 → itoa 32 value 16 ≡ done (digits 16 value)
hex-done value lt = itoa-digits value 16 (omega arith) (omega arith) (omega arith)

-- The digits behind the zeros of the padding.
abbrev pub padded_hex : ℕ → ℕ → List ℕ
padded_hex padding value =
    (if ltb 0 padding && ltb padding (2 ^ 31)
      then zeros (padding - length (digits 16 value))
      else [])
    ++ digits 16 value

pub hex-returns :
    (padding value : ℕ) → value < 2 ^ 32 → hex padding value ≡ done (padded_hex padding value)
unfolding hex
hex-returns padding value lt = rw (hex-done value lt) refl

-- Whether a character stands in a text.
unfoldable pub has : ℕ → List ℕ → Bool
has c [] = false
has c (d ∷ ds) = (c == d) || has c ds

pub has-peek : (cs : List ℕ) → peek cs ≡ 115 → has 115 cs ≡ true
unfolding has
has-peek [] e = absurd (omega arith)
has-peek (c ∷ cs) e = ground arith

pub has-rest : (cs : List ℕ) → has 115 (rest cs) ≡ true → has 115 cs ≡ true
unfolding has
has-rest [] e = e
has-rest (c ∷ cs) e = ground arith

pub has-padding_digits :
    (p : ℕ) (cs : List ℕ) → has 115 (padding_digits p cs).1 ≡ true → has 115 cs ≡ true
unfolding padding_digits
has-padding_digits p [] e = e
has-padding_digits p (c ∷ cs) e = elim (Bool-cases (is_digit c)) [
  | inl d ↦ has-rest (c ∷ cs) (
      has-padding_digits ((p * 10 + (c - 48)) % 2 ^ 32) cs
        (ap (λ (r : ℕ × List ℕ). has 115 r.1) (sym (padding_digits-digit p c cs d)) ∙ e))
  | inr d ↦ ap (λ (r : ℕ × List ℕ). has 115 r.1) (sym (padding_digits-other p c cs d)) ∙ e
]

pub has-padding_of : (cs : List ℕ) → has 115 (padding_of cs).1 ≡ true → has 115 cs ≡ true
unfolding padding_of
has-padding_of cs e = elim (Bool-cases (peek cs == 48)) [
  | inl z ↦ has-rest cs (has-padding_digits 0 (rest cs) (rw z at e))
  | inr z ↦ rw z at e
]
