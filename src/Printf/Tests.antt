-- ===== src/Printf/Tests.antt =====
-- The theorems on itoa and vsprintf at small formats.
use jat_os.Prelude.{ℕ, List, [], ◌∷◌, ◌≡◌, refl, done, arith}
use jat_os.Printf.{itoa, vsprintf, text_length}
use jat_os.Printf.Itoa.{Digits, itoa-Digits}
use jat_os.Printf.Pieces.{
  Piece, plain, padded, decimal, format_of, printed_all, nil, cons, is_plain, is_padded, is_decimal,
}
use jat_os.Printf.Padding.{AreWords, none, more}
use jat_os.Printf.Format.{Ends, vsprintf-returns}
use jat_os.Printf.Meaning.{ArePieces, no_pieces, piece, vsprintf-printed}

itoa_example : Digits 4095 16 8
itoa_example = itoa-Digits 8 4095 16 (omega arith) (omega arith) (omega arith) (omega arith)

no_text : ℕ → List ℕ
no_text p = []

two_args-AreWords : AreWords (255 ∷ 7 ∷ [])
two_args-AreWords = more (omega arith) (more (omega arith) none)

-- "a%08x%d"
abbrev pieces : List Piece
pieces = plain 97 ∷ padded (56 ∷ []) ∷ decimal ∷ []

pieces-ArePieces : ArePieces pieces
unfolding jat_os.Printf.Itoa.number jat_os.Printf.Itoa.digit_value
pieces-ArePieces =
    piece (is_plain (λ e. absurd (omega arith)))
      (piece (is_padded (cons refl nil) (omega arith)) (piece is_decimal no_pieces))

vsprintf_example :
    vsprintf no_text (format_of pieces) (255 ∷ 7 ∷ [])
    ≡ done (
      text_length (printed_all no_text pieces (255 ∷ 7 ∷ [])),
      printed_all no_text pieces (255 ∷ 7 ∷ []),
    )
unfolding jat_os.Printf.Pieces.all_given
vsprintf_example = vsprintf-printed no_text pieces (255 ∷ 7 ∷ []) pieces-ArePieces two_args-AreWords

-- "%%d" does not print a percent sign.
vsprintf-returns_example :
    Ends (37 ∷ 37 ∷ 100 ∷ []) (vsprintf no_text (37 ∷ 37 ∷ 100 ∷ []) (255 ∷ 7 ∷ []))
vsprintf-returns_example =
    vsprintf-returns no_text (37 ∷ 37 ∷ 100 ∷ []) (255 ∷ 7 ∷ []) two_args-AreWords

percent_d : vsprintf no_text (37 ∷ 37 ∷ 100 ∷ []) (12 ∷ []) ≡ done (2, 49 ∷ 50 ∷ [])
unfolding vsprintf
percent_d = refl

-- "%d" of -1
minus_one :
    vsprintf no_text (37 ∷ 100 ∷ []) (0xffffffff ∷ [])
    ≡ done (10, 52 ∷ 50 ∷ 57 ∷ 52 ∷ 57 ∷ 54 ∷ 55 ∷ 50 ∷ 57 ∷ 53 ∷ [])
unfolding vsprintf
minus_one = refl
