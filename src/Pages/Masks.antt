-- ===== src/Pages/Masks.antt =====
-- The masks of page table entries in kernel/memop/memory.c, as arithmetic.
use Prim.Native.Nat.{min, bit_and-bitwise}
use native.Mathlib.Nat.{pow-suc, one-le-pow, div-one, div-div-eq-div-mul}
use jat_os.Prelude.{
  ℕ, zero, suc, ◌+◌, ◌-◌, ◌*◌, ◌/◌, ◌%◌, ◌^◌, ◌<◌, ◌≤◌, ◌≡◌, refl, sym, ap, ◌∙◌, not, ◌==◌, bit_and,
  bit_or, arith,
}
use jat_os.Words.{digits-rounds, or_join}
use jat_os.Pages.{present, user_rw_present}

pub bit_and-halves : (a b : ℕ) → bit_and a b ≡ bit_and (a / 2) (b / 2) * 2 + min (a % 2) (b % 2)
bit_and-halves zero b = simp bit_and-bitwise (omega arith)
bit_and-halves (suc a) b = simp bit_and-bitwise (
    ap (λ (t : ℕ). t * 2 + min (suc a % 2) (b % 2))
      (digits-rounds (λ x. 0) min a (suc a / 2) (suc a / 2) (b / 2) (omega arith) (omega arith)))

and_zero_below : (n a : ℕ) → a ≤ n → bit_and a 0 ≡ 0
and_zero_below zero a p = let e : a ≡ 0 = omega arith in rw e refl
and_zero_below (suc n) a p =
    omega (arith, bit_and-halves a 0, and_zero_below n (a / 2) (omega arith))

div_pow-suc : (k a : ℕ) → a / 2 ^ suc k ≡ a / 2 / 2 ^ k
div_pow-suc k a =
    let e : 2 ^ suc k ≡ 2 * 2 ^ k = omega (arith, pow-suc 2 k) in
    ap (λ (t : ℕ). a / t) e ∙ sym (div-div-eq-div-mul a 2 (2 ^ k))

-- Shifted down, a conjunction is that of the shifted numbers.
and_shift : (k a b : ℕ) → bit_and a b / 2 ^ k ≡ bit_and (a / 2 ^ k) (b / 2 ^ k)
and_shift zero a b =
    ap (λ (t : ℕ). t) (div-one (bit_and a b))
    ∙ sym (ap (λ (t : ℕ). bit_and t (b / 2 ^ 0)) (div-one a) ∙ ap (bit_and a) (div-one b))
and_shift (suc k) a b =
    let half : bit_and a b / 2 ≡ bit_and (a / 2) (b / 2) = omega (arith, bit_and-halves a b) in
    div_pow-suc k (bit_and a b)
    ∙ ap (λ (t : ℕ). t / 2 ^ k) half
    ∙ and_shift k (a / 2) (b / 2)
    ∙ sym (
        ap (λ (t : ℕ). bit_and t (b / 2 ^ suc k)) (div_pow-suc k a)
        ∙ ap (bit_and (a / 2 / 2 ^ k)) (div_pow-suc k b))

-- A mask of ones leaves what fits below it.
and_ones : (n a : ℕ) → a < 2 ^ n → bit_and a (2 ^ n - 1) ≡ a
and_ones zero a lt = let e : a ≡ 0 = ground arith in rw e refl
and_ones (suc n) a lt =
    let e : (2 ^ suc n - 1) / 2 ≡ 2 ^ n - 1 = omega (arith, pow-suc 2 n, one-le-pow n 2) in
    let o : (2 ^ suc n - 1) % 2 ≡ 1 = omega (arith, pow-suc 2 n, one-le-pow n 2) in
    omega (
      arith,
      bit_and-halves a (2 ^ suc n - 1),
      ap (bit_and (a / 2)) e,
      o,
      and_ones n (a / 2) (omega (arith, pow-suc 2 n)),
    )

-- A mask of high bits drops the bits below.
and_high : (k a m : ℕ) → bit_and a (m * 2 ^ k) ≡ bit_and (a / 2 ^ k) m * 2 ^ k
and_high zero a m =
    ap (bit_and a) (omega arith) ∙ ap (λ (t : ℕ). bit_and t m) (sym (div-one a)) ∙ omega arith
and_high (suc k) a m =
    let high = bit_and (a / 2 / 2 ^ k) m in
    let shift : m * 2 ^ suc k ≡ m * 2 ^ k * 2 =
      omega (arith, ap (λ (t : ℕ). m * t) (pow-suc 2 k)) in
    let e : m * 2 ^ suc k / 2 ≡ m * 2 ^ k = omega (arith, shift) in
    let top : high * 2 ^ suc k ≡ high * 2 ^ k * 2 =
      omega (arith, ap (λ (t : ℕ). high * t) (pow-suc 2 k)) in
    let low : min (a % 2) (m * 2 ^ suc k % 2) ≡ 0 = ground (arith, shift) in
    ground (
      arith,
      bit_and-halves a (m * 2 ^ suc k),
      ap (bit_and (a / 2)) e,
      low,
      and_high k (a / 2) m,
      top,
      ap (λ (t : ℕ). bit_and t m) (div_pow-suc k a),
    )

-- `& 0xfffff000` drops the flags of an entry.
pub and_frame : (e : ℕ) → e < 2 ^ 32 → bit_and e 0xfffff000 ≡ e / 4096 * 4096
and_frame e lt =
    and_high 12 e 0xfffff ∙ ap (λ (t : ℕ). t * 4096) (and_ones 20 (e / 4096) (omega arith))

ones_step : (m a : ℕ) → bit_and a (m * 2 + 1) ≡ bit_and (a / 2) m * 2 + a % 2
ones_step m a =
    let e : (m * 2 + 1) / 2 ≡ m = omega arith in
    ground (arith, bit_and-halves a (m * 2 + 1), ap (bit_and (a / 2)) e)

and_byte : (e : ℕ) → bit_and e 255 ≡ e % 256
and_byte e =
    let b4 : (a : ℕ) → bit_and a 15 ≡ a % 16 = λ a. omega (
      arith,
      ones_step 7 a,
      ones_step 3 (a / 2),
      ones_step 1 (a / 2 / 2),
      ones_step 0 (a / 2 / 2 / 2),
      and_zero_below (a / 2 / 2 / 2 / 2) (a / 2 / 2 / 2 / 2),
    ) in
    omega (
      arith,
      ones_step 127 e,
      ones_step 63 (e / 2),
      ones_step 31 (e / 2 / 2),
      ones_step 15 (e / 2 / 2 / 2),
      b4 (e / 2 / 2 / 2 / 2),
    )

-- `& 0x00000fff` keeps the offset in the page.
pub and_offset : (e : ℕ) → bit_and e 0xfff ≡ e % 4096
and_offset e = omega (
  arith,
  ones_step 2047 e,
  ones_step 1023 (e / 2),
  ones_step 511 (e / 2 / 2),
  ones_step 255 (e / 2 / 2 / 2),
  and_byte (e / 2 / 2 / 2 / 2),
)

-- `& 0x003ff000` keeps the index in the table.
pub and_index : (e : ℕ) → bit_and e 0x3ff000 ≡ e / 4096 % 1024 * 4096
and_index e =
    let low : bit_and (e / 4096) 0x3ff ≡ e / 4096 % 1024 = omega (
      arith,
      ones_step 511 (e / 4096),
      ones_step 255 (e / 4096 / 2),
      and_byte (e / 4096 / 2 / 2),
    ) in
    and_high 12 e 0x3ff ∙ ap (λ (t : ℕ). t * 4096) low

-- `& 0xffc00000` keeps the index in the directory.
pub and_table : (e : ℕ) → e < 2 ^ 32 → bit_and e 0xffc00000 ≡ e / 2 ^ 22 * 2 ^ 22
and_table e lt =
    and_high 22 e 0x3ff ∙ ap (λ (t : ℕ). t * 2 ^ 22) (and_ones 10 (e / 2 ^ 22) (omega arith))

-- Whether an entry is present: its lowest bit.
pub present_lem : (e : ℕ) → present e ≡ not (e % 2 == 0)
present_lem e = ground (arith, bit_and-halves e 1, and_zero_below (e / 2) (e / 2))

-- An entry for a frame.
pub or_flags : (p : ℕ) → p % 4096 ≡ 0 → bit_or p user_rw_present ≡ p + 7
or_flags p h =
    let e : p ≡ p / 8 * 2 ^ 3 = omega arith in
    ap (λ (t : ℕ). bit_or t 7) e ∙ or_join 3 (p / 8) 7 (omega arith) ∙ omega arith

-- `& 0xfffffffe` clears the lowest bit.
pub and_absent : (e : ℕ) → e < 2 ^ 32 → bit_and e 0xfffffffe ≡ e / 2 * 2
and_absent e lt =
    and_high 1 e 0x7fffffff ∙ ap (λ (t : ℕ). t * 2) (and_ones 31 (e / 2) (omega arith))

-- `& 0xffffffbf` leaves the frame and the lowest bit.
pub and_clean :
    (e : ℕ)
    → e < 2 ^ 32
    → (bit_and e 0xffffffbf / 4096 ≡ e / 4096)
      × (bit_and e 0xffffffbf % 2 ≡ e % 2)
      × (bit_and e 0xffffffbf < 2 ^ 32)
and_clean e lt =
    let high : bit_and e 0xffffffbf / 4096 ≡ e / 4096 =
      and_shift 12 e 0xffffffbf ∙ and_ones 20 (e / 4096) (omega arith) in
    (high, ground (arith, bit_and-halves e 0xffffffbf), omega (arith, high))
