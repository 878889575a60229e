-- ===== src/Keyboard.antt =====
-- The keyboard: kernel/device/keyboard.c. The bytes that wait in the controller are a sequence; the
-- status port tells whether it is empty, and the data port takes its first byte.
mod Keymap
pub mod Decode
pub mod Typed
mod Tests
pub use Keymap.{keymap}
use jat_os.Prelude.{
  ℕ, ◌+◌, ◌/◌, ◌%◌, ◌^◌, ◌-◌, Bool, true, false, not, ◌==◌, ◌&&◌, ◌||◌, ltb, if◌then◌else◌, bit_and,
  bit_or, List, [], ◌∷◌, get_or, Option, none, some, Outcome, done, ◌>>=◌,
}
use jat_os.Kernel.{Kernel}
use jat_os.IoQueue.{Ioqueue, Progress, ioq_full, putchar_round}

-- `ctrl_status` and the other variables.
pub record Keys : Type 0 where
  pub ctrl_status : Bool
  pub shift_status : Bool
  pub alt_status : Bool
  pub caps_lock_status : Bool
  pub ext_scancode : Bool

-- The test before the letters' rule: keys that caps lock does not change.
pub no_letter : ℕ → Bool
no_letter code =
    ltb code 0x0e
    || (code == 0x29)
    || (code == 0x1a)
    || (code == 0x1b)
    || (code == 0x2b)
    || (code == 0x27)
    || (code == 0x28)
    || (code == 0x33)
    || (code == 0x34)
    || (code == 0x35)

-- `shift`
pub shifted : Keys → ℕ → Bool
unfolding no_letter
shifted keys code =
    if no_letter code
    then keys.shift_status
    else if keys.shift_status && keys.caps_lock_status
    then false
    else keys.shift_status || keys.caps_lock_status

-- `keymap[index][shift]`
pub key_char : ℕ → Bool → ℕ
key_char index shift = let row = get_or keymap index (0, 0) in if shift then row.1 else row.0

-- The branch of a break code.
pub key_up : Keys → ℕ → Keys
key_up keys make_code =
    if (make_code == 0x1d) || (make_code == 0xe01d)
    then record keys { ctrl_status = false }
    else if (make_code == 0x2a) || (make_code == 0x36)
    then record keys { shift_status = false }
    else if (make_code == 0x38) || (make_code == 0xe038)
    then record keys { alt_status = false }
    else keys

-- A make code whose character is 0.
pub key_down : Keys → ℕ → Keys
key_down keys code =
    if (code == 0x1d) || (code == 0xe01d)
    then record keys { ctrl_status = true }
    else if (code == 0x2a) || (code == 0x36)
    then record keys { shift_status = true }
    else if (code == 0x38) || (code == 0xe038)
    then record keys { alt_status = true }
    else if code == 0x3a
    then record keys { caps_lock_status = not keys.caps_lock_status }
    else keys

-- The `switch` on the arrows.
pub other_char : ℕ → ℕ
other_char code =
    if code == 0xe048
    then 0x80
    else if code == 0xe050
    then 0x81
    else if code == 0xe04b
    then 60
    else if code == 0xe04d
    then 62
    else 63

-- `if(!ioq_full(&kbd_buf)) ioq_putchar(&kbd_buf, c)`
pub offer : ℕ → Ioqueue × Kernel → Outcome (Ioqueue × Kernel)
offer c s = if ioq_full s.0 then done s else (do r ← putchar_round s.0 c s.1; done (r.1, r.2))

-- What one byte does: the variables behind it, the character for the queue, and whether the handler
-- returns.
pub record Decoded : Type 0 where
  pub keys : Keys
  pub char : Option ℕ
  pub returns : Bool

-- The branch of the make codes that the table has.
pub key_of_table : Keys → ℕ → Decoded
unfolding shifted key_char key_down
key_of_table keys scancode =
    let index = bit_and scancode 0x00ff in
    let cur_char = key_char index (shifted keys scancode) in
    if cur_char == 0
    then record { keys = key_down keys index; char = none; returns = false }
    else record { keys = keys; char = some cur_char; returns = false }

-- The rest of the loop body, for a complete code.
pub decode_code : Keys → ℕ → Decoded
unfolding key_of_table key_up other_char
decode_code keys scancode =
    if not (bit_and scancode 0x0080 == 0)
    then record { keys = key_up keys (bit_and scancode 0xff7f); char = none; returns = true }
    else if (ltb 0 scancode && ltb scancode 0x3b) || (scancode == 0xe038) || (scancode == 0xe01d)
    then key_of_table keys scancode
    else record { keys = keys; char = some (other_char scancode); returns = false }

pub decode : Keys → ℕ → Decoded
unfolding decode_code
decode keys byte =
    if byte == 0xe0
    then record { keys = record keys { ext_scancode = true }; char = none; returns = false }
    else let code = if keys.ext_scancode then bit_or 0xe000 byte else byte in
      decode_code (record keys { ext_scancode = false }) code

offer_some : Option ℕ → Ioqueue × Kernel → Outcome (Ioqueue × Kernel)
unfolding offer
offer_some none s = done s
offer_some (some c) s = offer c s

-- `intr_keyboard_handler`: the bytes that are left in the controller, and the state behind it.
pub intr_keyboard_handler :
    List ℕ → Keys → Ioqueue × Kernel → Outcome (List ℕ × Keys × Ioqueue × Kernel)
unfolding decode offer_some
intr_keyboard_handler [] keys s = done ([], keys, s.0, s.1)
intr_keyboard_handler (byte ∷ bytes) keys s = do
  let d = decode keys byte
  s' ← offer_some d.char s
  elim d.returns [
    | true ↦ done (bytes, d.keys, s'.0, s'.1)
    | false ↦ intr_keyboard_handler bytes d.keys s'
  ]
