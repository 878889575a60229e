-- ===== src/Keyboard/Tests.antt =====
-- The theorems on the keyboard at the queue of IoQueue.Demo.
use jat_os.Prelude.{[], ◌∷◌, ◌≡◌, refl, true, false, some, arith}
use jat_os.Sched.Demo.{demo}
use jat_os.IoQueue.Demo.{letters, waited-IoInv}
use jat_os.Keyboard.{Keys, decode}
use jat_os.Keyboard.Decode.{written, decode-written}
use jat_os.Keyboard.Typed.{Typed, intr_keyboard_handler-Typed}

-- Shift is down and caps lock is off.
abbrev shift_down : Keys
shift_down = record {
  ctrl_status = false;
  shift_status = true;
  alt_status = false;
  caps_lock_status = false;
  ext_scancode = false;
}

-- The key "a", an arrow, and the key "b" going up.
intr_keyboard_handler_example : Typed (0x1e ∷ 0xe0 ∷ 0x48 ∷ 0xb0 ∷ []) shift_down (letters 5 5) demo
intr_keyboard_handler_example =
    intr_keyboard_handler-Typed (0x1e ∷ 0xe0 ∷ 0x48 ∷ 0xb0 ∷ []) shift_down (letters 5 5) demo
      waited-IoInv

decode-written_example :
    decode shift_down 0x1e
    ≡ record { keys = shift_down; char = some (written shift_down 0x1e); returns = false }
decode-written_example = decode-written shift_down 0x1e (omega arith) refl refl
