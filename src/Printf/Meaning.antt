-- ===== src/Printf/Meaning.antt =====
-- vsprintf of kernel/standard/stdio.c on formats that are put together from pieces.
use jat_os.Prelude.{
  ℕ, zero, suc, ◌+◌, ◌-◌, ◌*◌, ◌%◌, ◌^◌, ◌≤◌, ◌<◌, ◌≡◌, refl, ap, ◌∙◌, true, false, ◌==◌, ◌&&◌, ltb,
  List, [], ◌∷◌, ◌++◌, length, length-append, append-snoc, done, panic, Outcome, ◌>>=◌,
  if◌then◌else◌, Bool-cases, inl, inr, arith,
}
use jat_os.Printf.{
  peek, rest, is_digit, padding_digits, padding_of, zeros, directive, format_loop, text_length,
  vsprintf,
}
use jat_os.Printf.Itoa.{number, digit_value}
use jat_os.Printf.Pieces.{
  Piece, plain, padded, hexadecimal, decimal, string, character, spelled, format_of, digits,
  printed, left, printed_all, given, all_given, AreWidth, nil, cons, IsPiece, is_plain, is_padded,
}
use jat_os.Printf.Padding.{
  AreWords, peek_lt, rest-AreWords, decimal-done, hex-returns, padded_hex, padding_digits-digit,
  padding_digits-other,
}
use jat_os.Printf.Format.{format_loop-plain, format_loop-directive, format_loop-panic}

number-ge : (acc : ℕ) (cs : List ℕ) → acc ≤ number 10 acc cs
unfolding number
number-ge acc [] = omega arith
number-ge acc (c ∷ cs) = omega (arith, number-ge (acc * 10 + digit_value c) cs)

digit_value-digit : (c : ℕ) → is_digit c ≡ true → digit_value c ≡ c - 48
unfolding digit_value
digit_value-digit c e = ground arith

-- The width is read as the number that its digits stand for.
padding_digits-width :
    (p : ℕ) (width cs : List ℕ)
    → AreWidth width
    → number 10 p width < 2 ^ 31
    → padding_digits p (width ++ 120 ∷ cs) ≡ (number 10 p width, 120 ∷ cs)
unfolding number
padding_digits-width p [] cs nil lt = padding_digits-other p 120 cs refl
padding_digits-width p (c ∷ width) cs (cons is are) lt =
    let v = digit_value-digit c is in
    let ge = number-ge (p * 10 + digit_value c) width in
    let same : (p * 10 + (c - 48)) % 2 ^ 32 ≡ p * 10 + digit_value c = omega arith in
    padding_digits-digit p c (width ++ 120 ∷ cs) is
    ∙ ap (λ (t : ℕ). padding_digits t (width ++ 120 ∷ cs)) same
    ∙ padding_digits-width (p * 10 + digit_value c) width cs are lt

-- No width, no zeros.
padded_hex-zeros :
    (padding value : ℕ)
    → padding < 2 ^ 31
    → padded_hex padding value ≡ zeros (padding - length (digits 16 value)) ++ digits 16 value
unfolding zeros
padded_hex-zeros zero value lt = let e : 0 - length (digits 16 value) ≡ 0 = omega arith in rw e refl
padded_hex-zeros (suc n) value lt =
    let e : (ltb 0 (suc n) && ltb (suc n) (2 ^ 31)) ≡ true = ground arith in rw e refl

pub data ArePieces : List Piece → Type 0 where
  no_pieces : ArePieces []
  piece : {p : Piece} {ps : List Piece} → IsPiece p → ArePieces ps → ArePieces (p ∷ ps)

module _ (text_at : ℕ → List ℕ) where
  -- The directives, with an argument.
  hex_directive :
      (padding : ℕ) (cs args : List ℕ)
      → AreWords args
      → padding < 2 ^ 31
      → directive text_at padding (120 ∷ cs) args
        ≡ done (
          zeros (padding - length (digits 16 (peek args))) ++ digits 16 (peek args),
          cs,
          rest args,
        )
  unfolding directive
  hex_directive padding cs args are lt =
      rw
        (
          hex-returns padding (peek args) (peek_lt args are),
          padded_hex-zeros padding (peek args) lt,
        )
        refl

  plain_hex :
      (cs args : List ℕ)
      → AreWords args
      → directive text_at 0 (120 ∷ cs) args ≡ done (digits 16 (peek args), cs, rest args)
  unfolding directive
  plain_hex cs args are = rw (hex-returns 0 (peek args) (peek_lt args are)) refl

  decimal_directive :
      (cs args : List ℕ)
      → AreWords args
      → directive text_at 0 (100 ∷ cs) args ≡ done (digits 10 (peek args), cs, rest args)
  unfolding directive
  decimal_directive cs args are = rw (decimal-done (peek args) (peek_lt args are)) refl

  string_directive :
      (cs args : List ℕ)
      → (peek args == 0) ≡ false
      → directive text_at 0 (115 ∷ cs) args ≡ done (text_at (peek args), cs, rest args)
  unfolding directive
  string_directive cs args some = rw some refl

  null_directive :
      (cs args : List ℕ) → (peek args == 0) ≡ true → directive text_at 0 (115 ∷ cs) args ≡ panic
  unfolding directive
  null_directive cs args none = rw none refl

  character_directive :
      (cs args : List ℕ)
      → directive text_at 0 (99 ∷ cs) args ≡ done (peek args % 256 ∷ [], cs, rest args)
  unfolding directive
  character_directive cs args = refl

  no_padding : (c : ℕ) (cs : List ℕ) → (c == 48) ≡ false → padding_of (c ∷ cs) ≡ (0, c ∷ cs)
  unfolding padding_of
  no_padding c cs e = rw e refl

  with_padding :
      (width cs : List ℕ)
      → AreWidth width
      → number 10 0 width < 2 ^ 31
      → padding_of (48 ∷ (width ++ 120 ∷ cs)) ≡ (number 10 0 width, 120 ∷ cs)
  unfolding padding_of
  with_padding width cs are lt = padding_digits-width 0 width cs are lt

  piece_step :
      (fuel : ℕ) (p : Piece) (cs args : List ℕ) (m : Outcome (List ℕ))
      → IsPiece p
      → AreWords args
      → given p args ≡ true
      → format_loop text_at fuel cs (left p args) ≡ m
      → format_loop text_at (suc fuel) (spelled p ++ cs) args
        ≡ (m >>= λ out. done (printed text_at p (peek args) ++ out))
  unfolding spelled printed left given
  piece_step fuel (plain c) cs args m (is_plain ne) are some run =
      format_loop-plain text_at fuel c cs args m (ground arith) run
  piece_step fuel (padded width) cs args m (is_padded is lt) are some run =
      ap (λ (t : List ℕ). format_loop text_at (suc fuel) (37 ∷ 48 ∷ t) args)
        (append-snoc width 120 cs)
      ∙ format_loop-directive text_at fuel (number 10 0 width) (48 ∷ (width ++ 120 ∷ cs)) (120 ∷ cs)
          cs args (rest args) _ m (with_padding width cs is lt)
          (hex_directive (number 10 0 width) cs args are lt) run
  piece_step fuel hexadecimal cs args m is are some run =
      format_loop-directive text_at fuel 0 (120 ∷ cs) (120 ∷ cs) cs args (rest args)
        (digits 16 (peek args)) m (no_padding 120 cs refl) (plain_hex cs args are) run
  piece_step fuel decimal cs args m is are some run =
      format_loop-directive text_at fuel 0 (100 ∷ cs) (100 ∷ cs) cs args (rest args) _ m
        (no_padding 100 cs refl) (decimal_directive cs args are) run
  piece_step fuel string cs args m is are some run =
      format_loop-directive text_at fuel 0 (115 ∷ cs) (115 ∷ cs) cs args (rest args) _ m
        (no_padding 115 cs refl) (string_directive cs args (ground arith)) run
  piece_step fuel character cs args m is are some run =
      format_loop-directive text_at fuel 0 (99 ∷ cs) (99 ∷ cs) cs args (rest args) _ m
        (no_padding 99 cs refl) (character_directive cs args) run

  piece_null :
      (fuel : ℕ) (p : Piece) (cs args : List ℕ)
      → given p args ≡ false
      → format_loop text_at (suc fuel) (spelled p ++ cs) args ≡ panic
  unfolding spelled given
  piece_null fuel string cs args none =
      format_loop-panic text_at fuel 0 (115 ∷ cs) (115 ∷ cs) args (no_padding 115 cs refl)
        (null_directive cs args (ground arith))
  piece_null fuel (plain c) cs args none = absurd (ground arith)
  piece_null fuel (padded width) cs args none = absurd (ground arith)
  piece_null fuel hexadecimal cs args none = absurd (ground arith)
  piece_null fuel decimal cs args none = absurd (ground arith)
  piece_null fuel character cs args none = absurd (ground arith)

  left-AreWords : (p : Piece) (args : List ℕ) → AreWords args → AreWords (left p args)
  unfolding left
  left-AreWords (plain c) args are = are
  left-AreWords (padded width) args are = rest-AreWords args are
  left-AreWords hexadecimal args are = rest-AreWords args are
  left-AreWords decimal args are = rest-AreWords args are
  left-AreWords string args are = rest-AreWords args are
  left-AreWords character args are = rest-AreWords args are

  spelled-some : (p : Piece) → 0 < length (spelled p)
  unfolding spelled
  spelled-some (plain c) = omega arith
  spelled-some (padded width) = omega arith
  spelled-some hexadecimal = omega arith
  spelled-some decimal = omega arith
  spelled-some string = omega arith
  spelled-some character = omega arith

  -- What is written, unless a `%s` has the argument NULL.
  written : List Piece → List ℕ → Outcome (List ℕ)
  written ps args = if all_given ps args then done (printed_all text_at ps args) else panic

  written-piece :
      (p : Piece) (ps : List Piece) (args : List ℕ)
      → given p args ≡ true
      → (written ps (left p args) >>= λ out. done (printed text_at p (peek args) ++ out))
        ≡ written (p ∷ ps) args
  unfolding written all_given printed_all
  written-piece p ps args some = elim (Bool-cases (all_given ps (left p args))) [
    | inl e ↦ rw (some, e) refl
    | inr e ↦ rw (some, e) refl
  ]

  written-null :
      (p : Piece) (ps : List Piece) (args : List ℕ)
      → given p args ≡ false
      → panic ≡ written (p ∷ ps) args
  unfolding written all_given
  written-null p ps args none = rw none refl

  format_loop-written :
      (fuel : ℕ) (ps : List Piece) (args : List ℕ)
      → ArePieces ps
      → AreWords args
      → length (format_of ps) ≤ fuel
      → format_loop text_at fuel (format_of ps) args ≡ written ps args
  unfolding format_of format_loop
  format_loop-written fuel [] args are words le = unfold written all_given printed_all in refl
  format_loop-written zero (p ∷ ps) args are words le =
      absurd (omega (arith, length-append (spelled p) (format_of ps), spelled-some p))
  format_loop-written (suc fuel) (p ∷ ps) args (piece is are) words le =
      elim (Bool-cases (given p args)) [
        | inl some ↦
            piece_step fuel p (format_of ps) args (written ps (left p args)) is words some (
              format_loop-written fuel ps (left p args) are (left-AreWords p args words)
                (omega (arith, length-append (spelled p) (format_of ps), spelled-some p)))
            ∙ written-piece p ps args some
        | inr none ↦ piece_null fuel p (format_of ps) args none ∙ written-null p ps args none
      ]

  -- On a format put together from plain characters and the directives %x, %0<width>x, %d, %s and %c,
  -- with 32-bit words as arguments, vsprintf writes the text of every piece in turn: a plain character
  -- itself, the digits of an argument in base 16 or 10, with zeros in front up to the width, the text
  -- at an argument, or its low byte. It returns the length of what it wrote up to the first NUL. But
  -- when the argument of a %s is NULL, the ASSERT of strcpy fails.
  pub vsprintf-printed :
      (ps : List Piece) (args : List ℕ)
      → ArePieces ps
      → AreWords args
      → vsprintf text_at (format_of ps) args ≡ (
          if all_given ps args
          then done (text_length (printed_all text_at ps args), printed_all text_at ps args)
          else panic)
  unfolding vsprintf written
  vsprintf-printed ps args are words =
      let run = format_loop-written (length (format_of ps)) ps args are words (omega arith) in
      elim (Bool-cases (all_given ps args)) [ inl e ↦ rw (run, e) refl | inr e ↦ rw (run, e) refl ]
