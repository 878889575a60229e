-- ===== src/Bitmap/Byte.antt =====
-- The bits of one byte of a bitmap, by evaluation over all bytes.
use jat_os.Prelude.{
  ℕ, ◌-◌, ◌%◌, ◌^◌, ◌<◌, ◌≡◌, ◌≢◌, refl, Bool, true, false, not, ◌&&◌, ◌||◌, bit_and, bit_or, ◌==◌,
  ltb, if◌then◌else◌, every, every_at, Outcome, done, panic, fault, out_of_fuel, arith,
}
use jat_os.Bitmap.{first_clear}

abbrev pub clear : ℕ → ℕ → Bool
clear x k = bit_and x (2 ^ k) == 0

eqb : Bool → Bool → Bool
eqb true b = b
eqb false b = not b

eqb_sound : (a b : Bool) → eqb a b ≡ true → a ≡ b
unfolding eqb
eqb_sound a b h = ground arith

table3 : (ℕ → ℕ → ℕ → Bool) → Bool
unfolding every
table3 p = every (λ x. every (λ k. every (p x k) 8) 8) 256

table3_sound :
    (p : ℕ → ℕ → ℕ → Bool) (x k j : ℕ) → table3 p ≡ true → x < 256 → k < 8 → j < 8 → p x k j ≡ true
unfolding table3
table3_sound p x k j h hx hk hj =
    let at_x = every_at (λ x. every (λ k. every (p x k) 8) 8) 256 x hx h in
    every_at (p x k) 8 j hj (every_at (λ k. every (p x k) 8) 8 k hk at_x)

abbrev or_case : ℕ → ℕ → ℕ → Bool
or_case x k j = eqb (clear (bit_or x (2 ^ k) % 256) j) (if k == j then false else clear x j)

or_table : table3 or_case ≡ true
unfolding table3 eqb
or_table = refl

abbrev and_case : ℕ → ℕ → ℕ → Bool
and_case x k j = eqb (clear (bit_and x (255 - 2 ^ k)) j) (if k == j then true else clear x j)

and_table : table3 and_case ≡ true
unfolding table3 eqb
and_table = refl

module _ (x k j : ℕ) (hx : x < 256) (hk : k < 8) (hj : j < 8) where
  pub clear-or : clear (bit_or x (2 ^ k) % 256) j ≡ (if k == j then false else clear x j)
  clear-or = eqb_sound _ _ (table3_sound or_case x k j or_table hx hk hj)

  pub clear-and : clear (bit_and x (255 - 2 ^ k)) j ≡ (if k == j then true else clear x j)
  clear-and = eqb_sound _ _ (table3_sound and_case x k j and_table hx hk hj)

low_case : ℕ → Bool
unfolding every
low_case x = every (λ k. ltb (bit_and x (255 - 2 ^ k)) 256) 8

low_table : every low_case 256 ≡ true
unfolding low_case
low_table = refl

full_table : every (λ j. not (clear 255 j)) 8 ≡ true
unfolding every
full_table = refl

-- What the loop over one byte finds: its lowest clear bit.
finds : ℕ → Outcome ℕ → Bool
unfolding every
finds x (done k) = ltb k 8 && clear x k && every (λ j. not (clear x j)) k
finds x panic = false
finds x fault = false
finds x out_of_fuel = false

first_case : ℕ → Bool
unfolding finds first_clear
first_case x = (x == 255) || finds x (first_clear 9 x 0)

first_table : every first_case 256 ≡ true
unfolding first_case
first_table = refl

pub full_byte : (j : ℕ) → j < 8 → clear 255 j ≡ false
full_byte j h = ground (arith, every_at (λ j. not (clear 255 j)) 8 j h full_table)

pub and-lt : (x k : ℕ) → x < 256 → k < 8 → bit_and x (255 - 2 ^ k) < 256
unfolding low_case
and-lt x k hx hk = ground (
  arith,
  every_at (λ k. ltb (bit_and x (255 - 2 ^ k)) 256) 8 k hk (every_at low_case 256 x hx low_table),
)

one_case : ℕ → Bool
unfolding every
one_case x = every (λ k. not (bit_and x (2 ^ k) == 1) || (k == 0)) 8

one_table : every one_case 256 ≡ true
unfolding one_case
one_table = refl

-- Only the lowest bit gives 1 under its mask.
pub mask-one : (x k : ℕ) → x < 256 → k < 8 → bit_and x (2 ^ k) ≡ 1 → k ≡ 0
unfolding one_case
mask-one x k hx hk e = ground (
  arith,
  every_at (λ k. not (bit_and x (2 ^ k) == 1) || (k == 0)) 8 k hk
      (every_at one_case 256 x hx one_table),
)

low_bit : ℕ → Bool
low_bit x = ltb (bit_and x 1) 2

low_bits : every low_bit 256 ≡ true
unfolding low_bit every
low_bits = refl

pub mask-low : (x : ℕ) → x < 256 → bit_and x 1 < 2
unfolding low_bit
mask-low x hx = ground (arith, every_at low_bit 256 x hx low_bits)

-- A byte that is not full has a lowest clear bit, and the loop stops there.
pub record Lowest (x k : ℕ) : Type 0 where
  pub runs : first_clear 9 x 0 ≡ done k
  pub small : k < 8
  pub is_clear : clear x k ≡ true
  pub below : (j : ℕ) → j < k → clear x j ≡ false

Lowest-finds :
    (x : ℕ) (o : Outcome ℕ) → first_clear 9 x 0 ≡ o → finds x o ≡ true → (k : ℕ) × Lowest x k
unfolding finds
Lowest-finds x (done k) e h = (
  k,
  record {
    runs = e;
    small = ground arith;
    is_clear = ground arith;
    below = λ j lt. ground (arith, every_at (λ j. not (clear x j)) k j);
  },
)
Lowest-finds x panic e h = absurd (ground arith)
Lowest-finds x fault e h = absurd (ground arith)
Lowest-finds x out_of_fuel e h = absurd (ground arith)

finds_of_case : (x : ℕ) → first_case x ≡ true → x ≢ 255 → finds x (first_clear 9 x 0) ≡ true
unfolding first_case finds
finds_of_case x h ne = ground arith

pub first_clear-Lowest : (x : ℕ) → x < 256 → x ≢ 255 → (k : ℕ) × Lowest x k
first_clear-Lowest x hx ne =
    Lowest-finds x (first_clear 9 x 0) refl
      (finds_of_case x (every_at first_case 256 x hx first_table) ne)
