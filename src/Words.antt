-- ===== src/Words.antt =====
-- Exclusive or, and the assembly of a word from bytes, as the C code of kernel/crypto writes them.
use Prim.Native.Nat.{max, differ, digits, bit_or-bitwise, bit_xor-bitwise}
use native.Mathlib.Nat.{pow-suc}
use jat_os.Prelude.{
  ℕ, zero, suc, ◌+◌, ◌*◌, ◌/◌, ◌%◌, ◌^◌, ◌<◌, ◌≤◌, ◌≡◌, refl, sym, ap, ◌∙◌, bit_or, bit_xor, arith,
}

-- More rounds than the first number needs change nothing.
pub digits-rounds :
    (z : ℕ → ℕ) (f : ℕ → ℕ → ℕ) (n m a b : ℕ) → a ≤ n → a ≤ m → digits z f n a b ≡ digits z f m a b
digits-rounds z f zero zero a b p q = refl
digits-rounds z f zero (suc m) zero b p q = refl
digits-rounds z f (suc n) zero zero b p q = refl
digits-rounds z f (suc n) (suc m) zero b p q = refl
digits-rounds z f zero (suc m) (suc a) b p q = absurd (omega arith)
digits-rounds z f (suc n) zero (suc a) b p q = absurd (omega arith)
digits-rounds z f (suc n) (suc m) (suc a) b p q =
    ap (λ (t : ℕ). t * 2 + f (suc a % 2) (b % 2))
      (digits-rounds z f n m (suc a / 2) (b / 2) (omega arith) (omega arith))

-- The lowest digit of an exclusive or, and the rest.
pub bit_xor-halves : (a b : ℕ) → bit_xor a b ≡ bit_xor (a / 2) (b / 2) * 2 + differ (a % 2) (b % 2)
bit_xor-halves zero b = simp bit_xor-bitwise (ground arith)
bit_xor-halves (suc a) b = simp bit_xor-bitwise (
    ap (λ (t : ℕ). t * 2 + differ (suc a % 2) (b % 2))
      (digits-rounds (λ x. x) differ a (suc a / 2) (suc a / 2) (b / 2) (omega arith) (omega arith)))

pub bit_or-halves : (a b : ℕ) → bit_or a b ≡ bit_or (a / 2) (b / 2) * 2 + max (a % 2) (b % 2)
bit_or-halves zero b = simp bit_or-bitwise (omega arith)
bit_or-halves (suc a) b = simp bit_or-bitwise (
    ap (λ (t : ℕ). t * 2 + max (suc a % 2) (b % 2))
      (digits-rounds (λ x. x) max a (suc a / 2) (suc a / 2) (b / 2) (omega arith) (omega arith)))

differ-digits : (x y : ℕ) → x < 2 → y < 2 → differ x y ≡ (x + y) % 2
differ-digits zero y p q = omega arith
differ-digits (suc zero) zero p q = refl
differ-digits (suc zero) (suc zero) p q = refl
differ-digits (suc zero) (suc (suc y)) p q = absurd (omega arith)
differ-digits (suc (suc x)) y p q = absurd (omega arith)

xor_half : (a b : ℕ) → bit_xor a b ≡ bit_xor (a / 2) (b / 2) * 2 + (a % 2 + b % 2) % 2
xor_half a b =
    omega (arith, bit_xor-halves a b, differ-digits (a % 2) (b % 2) (omega arith) (omega arith))

xor_half_div : (a b : ℕ) → bit_xor a b / 2 ≡ bit_xor (a / 2) (b / 2)
xor_half_div a b = omega (arith, xor_half a b)

xor_comm_below : (n a b : ℕ) → a ≤ n → b ≤ n → bit_xor a b ≡ bit_xor b a
xor_comm_below zero a b p q =
    let ea : a ≡ 0 = omega arith in let eb : b ≡ 0 = omega arith in rw (ea, eb) refl
xor_comm_below (suc n) a b p q = omega (
  arith,
  xor_half a b,
  xor_half b a,
  xor_comm_below n (a / 2) (b / 2) (omega arith) (omega arith),
)

pub xor_comm : (a b : ℕ) → bit_xor a b ≡ bit_xor b a
xor_comm a b = xor_comm_below (a + b) a b (omega arith) (omega arith)

pub xor_bound : (k a b : ℕ) → a < 2 ^ k → b < 2 ^ k → bit_xor a b < 2 ^ k
xor_bound zero a b p q = ground (arith)
xor_bound (suc k) a b p q = ground (arith, pow-suc 2 k, xor_half a b, xor_bound k (a / 2) (b / 2))

xor_assoc_below :
    (n a b c : ℕ) → a ≤ n → b ≤ n → c ≤ n → bit_xor (bit_xor a b) c ≡ bit_xor a (bit_xor b c)
xor_assoc_below zero a b c p q r =
    let ea : a ≡ 0 = omega arith in
    let eb : b ≡ 0 = omega arith in let ec : c ≡ 0 = omega arith in rw (ea, eb, ec) refl
xor_assoc_below (suc n) a b c p q r = omega (
  arith,
  xor_half a b,
  xor_half b c,
  xor_half (bit_xor a b) c,
  xor_half a (bit_xor b c),
  ap (λ (t : ℕ). bit_xor t (c / 2)) (xor_half_div a b),
  ap (λ (t : ℕ). bit_xor (a / 2) t) (xor_half_div b c),
  xor_assoc_below n (a / 2) (b / 2) (c / 2) (omega arith) (omega arith) (omega arith),
)

pub xor_assoc : (a b c : ℕ) → bit_xor (bit_xor a b) c ≡ bit_xor a (bit_xor b c)
xor_assoc a b c = xor_assoc_below (a + b + c) a b c (omega arith) (omega arith) (omega arith)

xor_self_below : (n a : ℕ) → a ≤ n → bit_xor a a ≡ 0
xor_self_below zero a p = let ea : a ≡ 0 = omega arith in rw ea refl
xor_self_below (suc n) a p = omega (arith, xor_half a a, xor_self_below n (a / 2) (omega arith))

xor_zero_below : (n a : ℕ) → a ≤ n → bit_xor a 0 ≡ a
xor_zero_below zero a p = let ea : a ≡ 0 = omega arith in rw ea refl
xor_zero_below (suc n) a p = omega (arith, xor_half a 0, xor_zero_below n (a / 2) (omega arith))

-- The same mask twice gives back the word.
pub xor_twice : (a b : ℕ) → bit_xor (bit_xor a b) b ≡ a
xor_twice a b =
    xor_assoc a b b
    ∙ ap (bit_xor a) (xor_self_below b b (omega arith))
    ∙ xor_zero_below a a (omega arith)

pub xor_reverse : (a b c : ℕ) → bit_xor (bit_xor a b) c ≡ bit_xor (bit_xor c b) a
xor_reverse a b c = xor_comm (bit_xor a b) c ∙ ap (bit_xor c) (xor_comm a b) ∙ sym (xor_assoc c b a)

or_zero_below : (n a : ℕ) → a ≤ n → bit_or a 0 ≡ a
or_zero_below zero a p = let ea : a ≡ 0 = omega arith in rw ea refl
or_zero_below (suc n) a p = omega (arith, bit_or-halves a 0, or_zero_below n (a / 2) (omega arith))

-- `|` joins a field and the bits below it.
pub or_join : (k high low : ℕ) → low < 2 ^ k → bit_or (high * 2 ^ k) low ≡ high * 2 ^ k + low
or_join zero high low fits =
    let e : low ≡ 0 = ground arith in
    rw e (or_zero_below (high * 2 ^ 0) (high * 2 ^ 0) (omega arith) ∙ omega arith)
or_join (suc k) high low fits =
    let shift : high * 2 ^ suc k ≡ 2 * (high * 2 ^ k) =
      omega (arith, ap (λ (t : ℕ). high * t) (pow-suc 2 k)) in
    ground
      (arith, shift, pow-suc 2 k, bit_or-halves (high * 2 ^ suc k) low, or_join k high (low / 2))
