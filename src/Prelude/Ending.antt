-- ===== src/Prelude/Ending.antt =====
-- How a call of kernel code ends. A failed ASSERT calls `panic_spin` (kernel/debug/debug.c), which
-- turns interrupts off and loops for ever; a fault is a use of a pointer that names no object; a
-- loop of the model on fuel may run out of it.
use mathlib.Core.Path.{◌≡◌, refl}
use mathlib.Core.Bool.{Bool, true, false}

pub data Outcome {ℓ} (A : Type ℓ) : Type ℓ where
  done : A → Outcome A
  panic : Outcome A
  fault : Outcome A
  out_of_fuel : Outcome A

infixl 5 ◌>>=◌ ◌>>◌
abbrev pub ◌>>=◌ {ℓ κ} : {A : Type ℓ} {B : Type κ} → Outcome A → (A → Outcome B) → Outcome B
done a >>= k = k a
panic >>= k = panic
fault >>= k = fault
out_of_fuel >>= k = out_of_fuel

abbrev pub ◌>>◌ {ℓ} : {B : Type ℓ} → Outcome (Unit {0}) → Outcome B → Outcome B
m >> k = m >>= λ _. k

-- `ASSERT` of kernel/include/debug.h.
abbrev pub assert : Bool → Outcome (Unit {0})
assert true = done tt
assert false = panic

pub done-injective {ℓ} : {A : Type ℓ} {a b : A} → done a ≡ done b → a ≡ b
done-injective e = cc

-- A step that ends hands its value on.
pub >>=-done {ℓ κ} :
    {A : Type ℓ} {B : Type κ} (m : Outcome A) (f : A → Outcome B) (a : A)
    → m ≡ done a
    → (m >>= f) ≡ f a
>>=-done m f a e = rw e

pub assert-true {ℓ} : {B : Type ℓ} (b : Bool) (m : Outcome B) → b ≡ true → (assert b >> m) ≡ m
assert-true b m e = rw e

pub bind_assoc {ℓ κ μ} :
    {A : Type ℓ} {B : Type κ} {C : Type μ} (m : Outcome A) (f : A → Outcome B) (g : B → Outcome C)
    → ((m >>= f) >>= g) ≡ (m >>= λ a. f a >>= g)
bind_assoc (done a) f g = refl
bind_assoc panic f g = refl
bind_assoc fault f g = refl
bind_assoc out_of_fuel f g = refl
