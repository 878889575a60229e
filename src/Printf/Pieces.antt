-- ===== src/Printf/Pieces.antt =====
-- What a format means to kernel/standard/stdio.c, piece by piece.
use jat_os.Prelude.{
  ℕ, Bool, true, not, ◌&&◌, ◌==◌, ◌-◌, ◌%◌, ◌^◌, ◌<◌, ◌≤◌, arith, refl, ap, sym, ◌∙◌, ◌≡◌, ◌≢◌,
  List, [], ◌∷◌, ◌++◌, length, done,
}
use jat_os.Printf.{zeros, itoa, peek, rest, is_digit}
use jat_os.Printf.Itoa.{number, itoa-Digits}

-- A character that stands for itself, or a directive; `padded` is `%0<width>x`.
pub data Piece : Type 0 where
  plain : ℕ → Piece
  padded : List ℕ → Piece
  hexadecimal decimal string character : Piece

-- The format that is written for it.
unfoldable pub spelled : Piece → List ℕ
spelled (plain c) = c ∷ []
spelled (padded width) = 37 ∷ 48 ∷ (width ++ 120 ∷ [])
spelled hexadecimal = 37 ∷ 120 ∷ []
spelled decimal = 37 ∷ 100 ∷ []
spelled string = 37 ∷ 115 ∷ []
spelled character = 37 ∷ 99 ∷ []

unfoldable pub format_of : List Piece → List ℕ
unfolding spelled
format_of [] = []
format_of (p ∷ ps) = spelled p ++ format_of ps

-- The digits that itoa writes.
pub digits : ℕ → ℕ → List ℕ
digits base value = elim (itoa 32 value base) [ done cs ↦ cs | _ ↦ [] ]

pub itoa-digits :
    (value base : ℕ)
    → 2 ≤ base
    → base ≤ 36
    → value < base ^ 32
    → itoa 32 value base ≡ done (digits base value)
unfolding digits
itoa-digits value base lo hi lt =
    let d = itoa-Digits 32 value base lo hi (omega arith) lt in
    d.runs ∙ sym (ap done (rw (digits, d.runs) refl))

-- What it prints for an argument.
unfoldable pub printed : (ℕ → List ℕ) → Piece → ℕ → List ℕ
printed text_at (plain c) arg = c ∷ []
printed text_at (padded width) arg =
    zeros (number 10 0 width - length (digits 16 arg)) ++ digits 16 arg
printed text_at hexadecimal arg = digits 16 arg
printed text_at decimal arg = digits 10 arg
printed text_at string arg = text_at arg
printed text_at character arg = arg % 256 ∷ []

-- The arguments that are left behind it.
unfoldable pub left : Piece → List ℕ → List ℕ
left (plain c) args = args
left (padded width) args = rest args
left hexadecimal args = rest args
left decimal args = rest args
left string args = rest args
left character args = rest args

unfoldable pub printed_all : (ℕ → List ℕ) → List Piece → List ℕ → List ℕ
unfolding printed left
printed_all text_at [] args = []
printed_all text_at (p ∷ ps) args =
    printed text_at p (peek args) ++ printed_all text_at ps (left p args)

-- The argument of a `%s` is not NULL.
unfoldable pub given : Piece → List ℕ → Bool
given string args = not (peek args == 0)
given (plain c) args = true
given (padded width) args = true
given hexadecimal args = true
given decimal args = true
given character args = true

unfoldable pub all_given : List Piece → List ℕ → Bool
unfolding left given
all_given [] args = true
all_given (p ∷ ps) args = given p args && all_given ps (left p args)

pub data AreWidth : List ℕ → Type 0 where
  nil : AreWidth []
  cons : {c : ℕ} {cs : List ℕ} → is_digit c ≡ true → AreWidth cs → AreWidth (c ∷ cs)

-- A plain character is not `%`; the width of a padding is a number that an `int` holds, in digits.
pub data IsPiece : Piece → Type 0 where
  is_plain : {c : ℕ} → c ≢ 37 → IsPiece (plain c)
  is_padded :
      {width : List ℕ} → AreWidth width → number 10 0 width < 2 ^ 31 → IsPiece (padded width)
  is_hexadecimal : IsPiece hexadecimal
  is_decimal : IsPiece decimal
  is_string : IsPiece string
  is_character : IsPiece character
