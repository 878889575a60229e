-- ===== src/Keyboard/Decode.antt =====
-- The keys that stand for letters and digits in kernel/device/keyboard.c.
use jat_os.Prelude.{
  ℕ, zero, suc, ◌-◌, ◌<◌, ◌≡◌, refl, ap, ◌∙◌, Bool, true, false, not, ◌==◌, ◌&&◌, ◌||◌, ltb, leb,
  if◌then◌else◌, bit_and, get_or, some, every, every_at, ==_iff, arith,
}
use jat_os.Keyboard.{Keys, keymap, key_char, shifted, decode, decode_code, key_of_table}

-- A small letter of the alphabet.
abbrev pub is_letter : ℕ → Bool
is_letter c = leb 97 c && leb c 122

abbrev row : ℕ → ℕ × ℕ
row code = get_or keymap code (0, 0)

pub exclusive_or : Bool → Bool → Bool
exclusive_or true b = not b
exclusive_or false b = b

-- What a key of the table with a character writes: a letter is a capital when just one of shift and
-- caps lock is on, and any other character only looks at shift.
pub written : Keys → ℕ → ℕ
unfolding exclusive_or
written keys code =
    let small = (row code).0 in
    if is_letter small
    then (if exclusive_or keys.shift_status keys.caps_lock_status then small - 32 else small)
    else if keys.shift_status
    then (row code).1
    else small

-- The variables that a character depends on.
abbrev modifiers : Bool → Bool → Keys
modifiers shift caps = record {
  ctrl_status = false;
  shift_status = shift;
  alt_status = false;
  caps_lock_status = caps;
  ext_scancode = false;
}

-- A code without a character, or one whose character is the one that is written.
abbrev agrees : Bool → Bool → ℕ → Bool
agrees shift caps code =
    ((row code).0 == 0)
    || ((key_char (bit_and code 0x00ff) (shifted (modifiers shift caps) code)
          == written (modifiers shift caps) code)
        && not (written (modifiers shift caps) code == 0)
        && (bit_and code 0x0080 == 0))

all_agree : (shift caps : Bool) → every (agrees shift caps) 0x3b ≡ true
unfolding every key_char shifted written
all_agree true true = refl
all_agree true false = refl
all_agree false true = refl
all_agree false false = refl

split_test :
    (a b c d : Bool)
    → a ≡ false
    → (a || (b && not c && d)) ≡ true
    → (b ≡ true) × (c ≡ false) × (d ≡ true)
split_test a b c d no_a e = ground arith

table_char :
    (keys : Keys) (code : ℕ)
    → code < 0x3b
    → ((row code).0 == 0) ≡ false
    → (key_char (bit_and code 0x00ff) (shifted keys code) ≡ written keys code)
      × ((written keys code == 0) ≡ false)
      × ((bit_and code 0x0080 == 0) ≡ true)
unfolding shifted written
table_char keys code lt some_char =
    let all =
      every_at (agrees keys.shift_status keys.caps_lock_status) 0x3b code lt
        (all_agree keys.shift_status keys.caps_lock_status) in
    let parts =
      split_test ((row code).0 == 0)
        (key_char (bit_and code 0x00ff) (shifted keys code) == written keys code)
        (written keys code == 0) (bit_and code 0x0080 == 0) some_char all in
    ((==_iff _ _).0 parts.0, parts.1, parts.2)

code_pos : (code : ℕ) → ((row code).0 == 0) ≡ false → 0 < code
code_pos zero e = absurd (let clash : true ≡ false = e in cc)
code_pos (suc code) e = omega arith

key_of_table-written :
    (keys : Keys) (code : ℕ)
    → code < 0x3b
    → ((row code).0 == 0) ≡ false
    → key_of_table keys code
      ≡ record { keys = keys; char = some (written keys code); returns = false }
unfolding key_of_table
key_of_table-written keys code lt some_char =
    let (same, not_zero, make) = table_char keys code lt some_char in rw (same, not_zero) refl

decode_code-written :
    (keys : Keys) (code : ℕ)
    → code < 0x3b
    → ((row code).0 == 0) ≡ false
    → decode_code keys code
      ≡ record { keys = keys; char = some (written keys code); returns = false }
unfolding decode_code
decode_code-written keys code lt some_char =
    let (same, not_zero, make) = table_char keys code lt some_char in
    let pos = code_pos code some_char in
    let inside : (ltb 0 code && ltb code 0x3b) ≡ true = ground arith in
    rw (make, inside) (key_of_table-written keys code lt some_char)

written-ext :
    (keys : Keys) (code : ℕ)
    → written (record keys { ext_scancode = false }) code ≡ written keys code
unfolding written
written-ext keys code = refl

-- A key of the table that has a character, with no extension pending, writes that character and
-- changes no other variable: a letter is a capital when just one of shift and caps lock is on, and
-- every other key only looks at shift.
pub decode-written :
    (keys : Keys) (code : ℕ)
    → code < 0x3b
    → ((row code).0 == 0) ≡ false
    → keys.ext_scancode ≡ false
    → decode keys code ≡ record {
      keys = record keys { ext_scancode = false };
      char = some (written keys code);
      returns = false;
    }
unfolding decode written
decode-written keys code lt some_char no_ext =
    let plain : (code == 0xe0) ≡ false = ground arith in
    rw (plain, no_ext)
      (decode_code-written (record keys { ext_scancode = false }) code lt some_char
        ∙ ap
            (λ (t : ℕ). record {
              keys = record keys { ext_scancode = false };
              char = some t;
              returns = false;
            })
            (written-ext keys code))
