-- ===== src/Printf.antt =====
-- itoa and vsprintf of kernel/standard/stdio.c. The format is the characters up to its NUL. The words
-- of the argument list are a sequence, and `text_at` gives the text that a pointer leads to; what is
-- written does not overlap what is read.
pub mod Itoa
pub mod Pieces
pub mod Padding
pub mod Format
pub mod Meaning
mod Tests
use jat_os.Prelude.{
  ℕ, zero, suc, ◌+◌, ◌-◌, ◌*◌, ◌/◌, ◌%◌, ◌^◌, Bool, true, false, ◌==◌, ◌&&◌, leb, ltb,
  if◌then◌else◌, List, [], ◌∷◌, ◌++◌, length, Outcome, done, out_of_fuel, ◌>>=◌, ◌>>◌, assert, not,
}

-- m+'0' or m-10+'A'
pub digit_char : ℕ → ℕ
digit_char m = if ltb m 10 then m + 48 else m - 10 + 65

-- The characters that itoa writes. Its calls of itself number at most 32 for a 32-bit value.
pub itoa : ℕ → ℕ → ℕ → Outcome (List ℕ)
unfolding digit_char
itoa zero value base = out_of_fuel
itoa (suc fuel) value base = do
  front ← elim (value / base == 0) [ true ↦ done [] | false ↦ itoa fuel (value / base) base ]
  done (front ++ digit_char (value % base) ∷ [])

-- The first character that is left, or the NUL.
abbrev pub peek : List ℕ → ℕ
peek [] = 0
peek (c ∷ cs) = c

abbrev pub rest : List ℕ → List ℕ
rest [] = []
rest (c ∷ cs) = cs

abbrev pub is_digit : ℕ → Bool
is_digit c = leb 48 c && leb c 57

-- The digits of the padding, and what is left.
pub padding_digits : ℕ → List ℕ → ℕ × List ℕ
padding_digits padding [] = (padding, [])
padding_digits padding (c ∷ cs) = elim (is_digit c) [
  | true ↦ padding_digits ((padding * 10 + (c - 48)) % 2 ^ 32) cs
  | false ↦ (padding, c ∷ cs)
]

-- A padding behind `%`, when a `0` comes first.
pub padding_of : List ℕ → ℕ × List ℕ
unfolding padding_digits
padding_of cs = if peek cs == 48 then padding_digits 0 (rest cs) else (0, cs)

-- `while (len < padding)`, with both as `int`.
pub zeros : ℕ → List ℕ
zeros zero = []
zeros (suc n) = 48 ∷ zeros n

pub hex : ℕ → ℕ → Outcome (List ℕ)
unfolding itoa zeros
hex padding arg = do
  digits ← itoa 32 arg 16
  let wide = ltb 0 padding && ltb padding (2 ^ 31)
  done ((if wide then zeros (padding - length digits) else []) ++ digits)

-- What a directive writes, and what it leaves of the format and of the arguments. An unknown one
-- writes nothing and takes no argument, and its character is left. The text of `%s` is copied by
-- strcpy, which asserts that its source is not NULL.
pub directive : (ℕ → List ℕ) → ℕ → List ℕ → List ℕ → Outcome (List ℕ × List ℕ × List ℕ)
unfolding hex
directive text_at padding cs args =
    if peek cs == 120
    then (do out ← hex padding (peek args); done (out, rest cs, rest args))
    else if peek cs == 115
    then (do assert (not (peek args == 0)); done (text_at (peek args), rest cs, rest args))
    else if peek cs == 99
    then done (peek args % 256 ∷ [], rest cs, rest args)
    else if peek cs == 100
    then (do out ← itoa 32 (peek args) 10; done (out, rest cs, rest args))
    else done ([], cs, args)

-- The loop over the format, whose fuel counts the characters that are left.
pub format_loop : (ℕ → List ℕ) → ℕ → List ℕ → List ℕ → Outcome (List ℕ)
unfolding padding_of directive
format_loop text_at fuel [] args = done []
format_loop text_at zero (c ∷ cs) args = out_of_fuel
format_loop text_at (suc fuel) (c ∷ cs) args = elim (c == 37) [
  | false ↦ (do out ← format_loop text_at fuel cs args; done (c ∷ out))
  | true ↦ (do
    let p = padding_of cs
    d ← directive text_at p.0 p.1 args
    out ← format_loop text_at fuel d.1 d.2
    done (d.0 ++ out))
]

-- The `strlen` at the end.
pub text_length : List ℕ → ℕ
text_length [] = 0
text_length (c ∷ cs) = if c == 0 then 0 else suc (text_length cs)

pub vsprintf : (ℕ → List ℕ) → List ℕ → List ℕ → Outcome (ℕ × List ℕ)
unfolding format_loop text_length
vsprintf text_at format args = do
  out ← format_loop text_at (length format) format args
  done (text_length out, out)
