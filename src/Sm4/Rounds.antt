-- ===== src/Sm4/Rounds.antt =====
-- The turns of kernel/crypto/sm4.c, and how they are undone.
use jat_os.Prelude.{
  ℕ, zero, suc, ◌/◌, ◌%◌, ◌^◌, ◌<◌, ◌≡◌, refl, ap, ◌∙◌, Bool, true, false, ltb, if◌then◌else◌, List,
  [], ◌∷◌, ◌++◌, get_or, bit_xor, arith,
}
use jat_os.Words.{xor_twice, xor_reverse, xor_bound}
use jat_os.Sm4.{Quad, t0, t1, t2, t3, mix, turn, rounds, backwards}

-- Every entry fits in 32 bits.
all_fit : List ℕ → Bool
all_fit [] = true
all_fit (x ∷ xs) = if ltb x (2 ^ 32) then all_fit xs else false

get_or-fits : (xs : List ℕ) (i : ℕ) → all_fit xs ≡ true → get_or xs i 0 < 2 ^ 32
unfolding all_fit
get_or-fits [] i h = omega arith
get_or-fits (x ∷ xs) zero h = ground arith
get_or-fits (x ∷ xs) (suc i) h = get_or-fits xs i (ground arith)

t0_fits : all_fit t0 ≡ true
unfolding all_fit
t0_fits = refl

t1_fits : all_fit t1 ≡ true
unfolding all_fit
t1_fits = refl

t2_fits : all_fit t2 ≡ true
unfolding all_fit
t2_fits = refl

t3_fits : all_fit t3 ≡ true
unfolding all_fit
t3_fits = refl

mix_bound : (x : ℕ) → mix x < 2 ^ 32
unfolding mix
mix_bound x =
    xor_bound 32 _ _
      (xor_bound 32 _ _
        (xor_bound 32 _ _ (get_or-fits t0 (x / 2 ^ 24 % 256) t0_fits)
          (get_or-fits t1 (x / 2 ^ 16 % 256) t1_fits))
        (get_or-fits t2 (x / 2 ^ 8 % 256) t2_fits))
      (get_or-fits t3 (x % 256) t3_fits)

pub record AreWords (x : Quad ℕ) : Type 0 where
  pub a : x.a < 2 ^ 32
  pub b : x.b < 2 ^ 32
  pub c : x.c < 2 ^ 32
  pub d : x.d < 2 ^ 32

pub rounds-AreWords : (rks : List ℕ) (x : Quad ℕ) → AreWords x → AreWords (rounds rks x)
unfolding rounds turn
rounds-AreWords [] x are = are
rounds-AreWords (rk ∷ rks) x are =
    rounds-AreWords rks (turn rk x)
      (record { a = are.b; b = are.c; c = are.d; d = xor_bound 32 _ _ are.a (mix_bound _) })

abbrev pub flip : Quad ℕ → Quad ℕ
flip x = record { a = x.d; b = x.c; c = x.b; d = x.a }

turn-flip : (rk : ℕ) (x : Quad ℕ) → turn rk (flip (turn rk x)) ≡ flip x
unfolding turn
turn-flip rk x =
    let same = xor_reverse x.d x.c x.b in
    let mixed : mix (bit_xor (bit_xor (bit_xor x.d x.c) x.b) rk)
        ≡ mix (bit_xor (bit_xor (bit_xor x.b x.c) x.d) rk) =
      ap (λ (t : ℕ). mix (bit_xor t rk)) same in
    ap (λ (t : ℕ). record { a = x.d; b = x.c; c = x.b; d = t })
      (ap (bit_xor (bit_xor x.a (mix (bit_xor (bit_xor (bit_xor x.b x.c) x.d) rk)))) mixed
        ∙ xor_twice x.a _)

rounds-append : (xs ys : List ℕ) (x : Quad ℕ) → rounds (xs ++ ys) x ≡ rounds ys (rounds xs x)
unfolding rounds
rounds-append [] ys x = refl
rounds-append (r ∷ xs) ys x = rounds-append xs ys (turn r x)

-- The turns of the keys read backwards, from the words in the opposite order, undo all turns.
pub rounds-backwards :
    (rks : List ℕ) (x : Quad ℕ) → rounds (backwards rks) (flip (rounds rks x)) ≡ flip x
unfolding rounds backwards
rounds-backwards [] x = refl
rounds-backwards (rk ∷ rks) x =
    rounds-append (backwards rks) (rk ∷ []) (flip (rounds rks (turn rk x)))
    ∙ ap (turn rk) (rounds-backwards rks (turn rk x))
    ∙ turn-flip rk x
