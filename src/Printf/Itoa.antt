-- ===== src/Printf/Itoa.antt =====
-- itoa of kernel/standard/stdio.c: the digits of a number.
use native.Mathlib.Nat.{pow-suc, pow-zero, mod-lt, div-add-mod', div-lt_iff_lt-mul, div-eq_of_lt}
use jat_os.Prelude.{
  ℕ, zero, suc, ◌+◌, ◌-◌, ◌*◌, ◌/◌, ◌%◌, ◌^◌, ◌≤◌, ◌<◌, ◌≡◌, ◌≢◌, refl, ap, sym, ◌∙◌, true, false,
  ◌==◌, ltb, if◌then◌else◌, List, [], ◌∷◌, ◌++◌, length, length-append, done, arith, ◌⊎◌, inl, inr,
  Bool-cases, ==_iff,
}
use jat_os.Printf.{digit_char, itoa, peek}

-- The value of a digit.
unfoldable pub digit_value : ℕ → ℕ
digit_value c = if ltb c 65 then c - 48 else c - 65 + 10

-- The number that digits stand for, behind a number already read.
unfoldable pub number : ℕ → ℕ → List ℕ → ℕ
number base acc [] = acc
number base acc (c ∷ cs) = number base (acc * base + digit_value c) cs

-- A digit: 0 to 9, or a capital letter.
abbrev pub IsDigit : ℕ → Type 0
IsDigit c = ((48 ≤ c) × (c ≤ 57)) ⊎ ((65 ≤ c) × (c ≤ 90))

pub data AreDigits : List ℕ → Type 0 where
  nil : AreDigits []
  cons : {c : ℕ} {cs : List ℕ} → IsDigit c → AreDigits cs → AreDigits (c ∷ cs)

-- The digits of `value`.
pub record Digits (value base k : ℕ) : Type 0 where
  pub chars : List ℕ
  pub runs : itoa k value base ≡ done chars
  pub reads : number base 0 chars ≡ value
  pub are : AreDigits chars
  pub some : 0 < length chars
  pub short : length chars ≤ k
  pub no_zero : (value ≢ 0) → peek chars ≢ 48

number-snoc :
    (base acc c : ℕ) (cs : List ℕ)
    → number base acc (cs ++ c ∷ []) ≡ number base acc cs * base + digit_value c
unfolding number
number-snoc base acc c [] = refl
number-snoc base acc c (d ∷ cs) = number-snoc base (acc * base + digit_value d) c cs

AreDigits-snoc : (c : ℕ) (cs : List ℕ) → AreDigits cs → IsDigit c → AreDigits (cs ++ c ∷ [])
AreDigits-snoc c [] nil is = cons is nil
AreDigits-snoc c (d ∷ cs) (cons first are) is = cons first (AreDigits-snoc c cs are is)

char-IsDigit : (m : ℕ) → m < 36 → IsDigit (digit_char m)
unfolding digit_char
char-IsDigit m lt = ground arith

digit_value-char : (m : ℕ) → m < 36 → digit_value (digit_char m) ≡ m
unfolding digit_value digit_char
digit_value-char m lt = ground arith

digit_zero : (m : ℕ) → m < 36 → m ≢ 0 → digit_char m ≢ 48
unfolding digit_char
digit_zero m lt ne = ground arith

peek-snoc : (c : ℕ) (cs : List ℕ) → 0 < length cs → peek (cs ++ c ∷ []) ≡ peek cs
peek-snoc c [] pos = absurd (omega arith)
peek-snoc c (d ∷ cs) pos = refl

-- A number below the base has one digit.
front_digit : (k value base : ℕ) → value < base ^ suc k → (value / base == 0) ≡ false → 1 ≤ k
front_digit zero value base lt e =
    let one : base ^ 1 ≡ base =
      pow-suc base 0 ∙ ap (λ (t : ℕ). t * base) (pow-zero base) ∙ omega arith in
    let z = div-eq_of_lt {n = value} {m = base} (omega (arith, one)) in ground arith
front_digit (suc k) value base lt e = omega arith

-- The digits of the quotient and the last digit.
Digits-suc :
    (k value base : ℕ)
    → 2 ≤ base
    → base ≤ 36
    → value % base < base
    → value / base * base + value % base ≡ value
    → (value / base == 0) ≡ false
    → Digits (value / base) base k
    → Digits value base (suc k)
unfolding itoa
Digits-suc k value base lo hi small split more front = record {
  chars = front.chars ++ digit_char (value % base) ∷ [];
  runs = rw (more, front.runs) refl;
  reads =
      number-snoc base 0 (digit_char (value % base)) front.chars
      ∙ ap (λ (t : ℕ). t * base + digit_value (digit_char (value % base))) front.reads
      ∙ ap (λ (t : ℕ). value / base * base + t) (digit_value-char (value % base) (omega arith))
      ∙ split;
  are =
      AreDigits-snoc (digit_char (value % base)) front.chars front.are
        (char-IsDigit (value % base) (omega arith));
  some = omega (arith, length-append front.chars (digit_char (value % base) ∷ []));
  short =
      let le = front.short in
      omega (arith, length-append front.chars (digit_char (value % base) ∷ []));
  no_zero = λ ne e.
      front.no_zero (ground arith)
        (sym (peek-snoc (digit_char (value % base)) front.chars front.some) ∙ e);
}

Digits-one :
    (k value base : ℕ)
    → base ≤ 36
    → value % base < base
    → value % base ≡ value
    → (value / base == 0) ≡ true
    → Digits value base (suc k)
unfolding itoa number
Digits-one k value base hi small split one = record {
  chars = digit_char (value % base) ∷ [];
  runs = rw one refl;
  reads = omega (arith, digit_value-char (value % base) (omega arith));
  are = cons (char-IsDigit (value % base) (omega arith)) nil;
  some = omega arith;
  short = omega arith;
  no_zero = λ ne e. digit_zero (value % base) (omega arith) (omega arith) e;
}

-- In a base from 2 to 36, itoa of a number below the k-th power of the base, k at least 1, returns at
-- most k digits, of which there is at least one; they read as the number, and the first is not 0
-- unless the number is.
pub itoa-Digits :
    (k value base : ℕ) → 2 ≤ base → base ≤ 36 → 1 ≤ k → value < base ^ k → Digits value base k
itoa-Digits zero value base lo hi pos lt = absurd (omega arith)
itoa-Digits (suc k) value base lo hi pos lt =
    let small = mod-lt value {m = base} (omega arith) in
    let split = div-add-mod' value base in
    elim (Bool-cases (value / base == 0)) [
      | inl e ↦
          (let z : value / base ≡ 0 = (==_iff _ _).0 e in
            Digits-one k value base hi small (omega (arith, ap (λ (t : ℕ). t * base) z)) e)
      | inr e ↦
          let quotient : value / base < base ^ k =
            (div-lt_iff_lt-mul (omega arith)).1 (omega (arith, pow-suc base k)) in
          let some : 1 ≤ k = front_digit k value base lt e in
          Digits-suc k value base lo hi small split e
            (itoa-Digits k (value / base) base lo hi some quotient)
    ]
