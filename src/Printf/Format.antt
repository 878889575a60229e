-- ===== src/Printf/Format.antt =====
-- vsprintf of kernel/standard/stdio.c on every format, and on the formats it is meant for.
use jat_os.Prelude.{
  ℕ, zero, suc, ◌%◌, ◌≤◌, ◌≡◌, refl, ap, ◌∙◌, true, false, ◌==◌, List, [], ◌∷◌, ◌++◌, length, done,
  panic, Outcome, ◌>>=◌, ◌⊎◌, arith, inl, inr, Bool-cases, ==_iff,
}
use jat_os.Printf.{peek, rest, padding_of, directive, format_loop, text_length, vsprintf}
use jat_os.Printf.Pieces.{digits}
use jat_os.Printf.Padding.{
  AreWords, peek_lt, rest-AreWords, padding_of-length, rest-length, decimal-done, padded_hex,
  hex-returns, has, has-peek, has-rest, has-padding_of,
}

-- A directive that ends leaves no more of the format than it had.
record Directed (text_at : ℕ → List ℕ) (padding : ℕ) (cs args : List ℕ) : Type 0 where
  out : List ℕ
  cs' : List ℕ
  args' : List ℕ
  runs : directive text_at padding cs args ≡ done (out, cs', args')
  shorter : length cs' ≤ length cs
  words : AreWords args'
  kept : has 115 cs' ≡ true → has 115 cs ≡ true

directive-Directed :
    (text_at : ℕ → List ℕ) (padding : ℕ) (cs args : List ℕ)
    → AreWords args
    → Directed text_at padding cs args
      ⊎ ((directive text_at padding cs args ≡ panic) × (peek cs ≡ 115))
unfolding directive
directive-Directed text_at padding cs args are =
    let h_runs = hex-returns padding (peek args) (peek_lt args are) in
    let d_runs = decimal-done (peek args) (peek_lt args are) in
    let are' = rest-AreWords args are in
    let le = rest-length cs in
    elim (Bool-cases (peek cs == 120)) [
      | inl e ↦ inl record {
        out = padded_hex padding (peek args);
        cs' = rest cs;
        args' = rest args;
        runs = rw (e, h_runs) refl;
        shorter = le;
        words = are';
        kept = has-rest cs;
      }
      | inr e ↦ elim (Bool-cases (peek cs == 115)) [
        | inl f ↦ elim (Bool-cases (peek args == 0)) [
          | inl z ↦ inr (rw (e, f, z) refl, (==_iff (peek cs) 115).0 f)
          | inr z ↦ inl record {
            out = text_at (peek args);
            cs' = rest cs;
            args' = rest args;
            runs = rw (e, f, z) refl;
            shorter = le;
            words = are';
            kept = has-rest cs;
          }
        ]
        | inr f ↦ elim (Bool-cases (peek cs == 99)) [
          | inl g ↦ inl record {
            out = peek args % 256 ∷ [];
            cs' = rest cs;
            args' = rest args;
            runs = rw (e, f, g) refl;
            shorter = le;
            words = are';
            kept = has-rest cs;
          }
          | inr g ↦ elim (Bool-cases (peek cs == 100)) [
            | inl k ↦ inl record {
              out = digits 10 (peek args);
              cs' = rest cs;
              args' = rest args;
              runs = rw (e, f, g, k, d_runs) refl;
              shorter = le;
              words = are';
              kept = has-rest cs;
            }
            | inr k ↦ inl record {
              out = [];
              cs' = cs;
              args' = args;
              runs = rw (e, f, g, k) refl;
              shorter = omega arith;
              words = are;
              kept = λ h. h;
            }
          ]
        ]
      ]
    ]

pub format_loop-plain :
    (text_at : ℕ → List ℕ) (fuel c : ℕ) (cs args : List ℕ) (m : Outcome (List ℕ))
    → (c == 37) ≡ false
    → format_loop text_at fuel cs args ≡ m
    → format_loop text_at (suc fuel) (c ∷ cs) args ≡ (m >>= λ out. done (c ∷ out))
unfolding format_loop
format_loop-plain text_at fuel c cs args m e run = rw (format_loop, e, run) refl

pub format_loop-directive :
    (text_at : ℕ → List ℕ) (fuel padding : ℕ) (cs cs1 cs2 args args2 out1 : List ℕ)
    (m : Outcome (List ℕ))
    → padding_of cs ≡ (padding, cs1)
    → directive text_at padding cs1 args ≡ done (out1, cs2, args2)
    → format_loop text_at fuel cs2 args2 ≡ m
    → format_loop text_at (suc fuel) (37 ∷ cs) args ≡ (m >>= λ out. done (out1 ++ out))
unfolding format_loop
format_loop-directive text_at fuel padding cs cs1 cs2 args args2 out1 m p d run =
    rw (format_loop, p, d, run) refl

pub format_loop-panic :
    (text_at : ℕ → List ℕ) (fuel padding : ℕ) (cs cs1 args : List ℕ)
    → padding_of cs ≡ (padding, cs1)
    → directive text_at padding cs1 args ≡ panic
    → format_loop text_at (suc fuel) (37 ∷ cs) args ≡ panic
unfolding format_loop
format_loop-panic text_at fuel padding cs cs1 args p d = rw (format_loop, p, d) refl

-- The end of a call: with a result, or in a panic, for which the format has an `s`.
abbrev pub Ends {ℓ} : {A : Type ℓ} → List ℕ → Outcome A → Type ℓ
Ends {A = A} cs m = ((a : A) × (m ≡ done a)) ⊎ ((m ≡ panic) × (has 115 cs ≡ true))

pub format_loop-Ends :
    (text_at : ℕ → List ℕ) (fuel : ℕ) (cs args : List ℕ)
    → length cs ≤ fuel
    → AreWords args
    → Ends cs (format_loop text_at fuel cs args)
format_loop-Ends text_at fuel [] args le are = inl ([], unfold format_loop in refl)
format_loop-Ends text_at zero (c ∷ cs) args le are = absurd (omega arith)
format_loop-Ends text_at (suc fuel) (c ∷ cs) args le are = elim (Bool-cases (c == 37)) [
  | inr e ↦ elim (format_loop-Ends text_at fuel cs args (omega arith) are) [
    | inl r ↦ inl (c ∷ r.0, format_loop-plain text_at fuel c cs args _ e r.1)
    | inr r ↦ inr (format_loop-plain text_at fuel c cs args _ e r.0, has-rest (c ∷ cs) r.1)
  ]
  | inl e ↦
      let p = padding_of cs in
      let short = padding_of-length cs in
      let percent : c ≡ 37 = (==_iff c 37).0 e in
      let same = ap (λ (t : ℕ). format_loop text_at (suc fuel) (t ∷ cs) args) percent in
      elim (directive-Directed text_at p.0 p.1 args are) [
        | inr r ↦ inr (
          same ∙ format_loop-panic text_at fuel p.0 cs p.1 args refl r.0,
          has-rest (c ∷ cs) (has-padding_of cs (has-peek p.1 r.1)),
        )
        | inl d ↦
            let shorter = d.shorter in
            elim (format_loop-Ends text_at fuel d.cs' d.args' (omega arith) d.words) [
              | inl r ↦ inl (
                d.out ++ r.0,
                same
                    ∙ format_loop-directive text_at fuel p.0 cs p.1 d.cs' args d.args' d.out _ refl
                        d.runs r.1,
              )
              | inr r ↦ inr (
                same
                    ∙ format_loop-directive text_at fuel p.0 cs p.1 d.cs' args d.args' d.out _ refl
                        d.runs r.0,
                has-rest (c ∷ cs) (has-padding_of cs (d.kept r.1)),
              )
            ]
      ]
]

-- With 32-bit words as arguments, vsprintf returns on every format without an `s`, whatever its
-- directives are. On a format with one it returns, or the ASSERT of strcpy fails.
pub vsprintf-returns :
    (text_at : ℕ → List ℕ) (format args : List ℕ)
    → AreWords args
    → Ends format (vsprintf text_at format args)
unfolding vsprintf
vsprintf-returns text_at format args are =
    elim (format_loop-Ends text_at (length format) format args (omega arith) are) [
      | inl r ↦ inl ((text_length r.0, r.0), rw r.1 refl)
      | inr r ↦ inr (rw r.0 refl, r.1)
    ]
