-- ===== src/Sha256/Tests.antt =====
-- SHA-256 of three bytes.
use jat_os.Prelude.{[], ◌∷◌, done, panic, ◌≡◌, refl, arith}
use jat_os.Sha256.Message.{message_digest, last_read}
use jat_os.Sha256.Whole.{sha256-message_digest}
use jat_os.Sha256.{sha256, sha256_transform, zero_bytes}

-- The digest that the standard publishes for "abc".
abc_digest :
    sha256 3 (zero_bytes 64) ((97 ∷ 98 ∷ 99 ∷ []) ∷ [])
    ≡ done (
        0xba ∷ 0x78 ∷ 0x16 ∷ 0xbf ∷ 0x8f ∷ 0x01 ∷ 0xcf ∷ 0xea ∷ 0x41 ∷ 0x41 ∷ 0x40 ∷ 0xde ∷ 0x5d
        ∷ 0xae ∷ 0x22 ∷ 0x23 ∷ 0xb0 ∷ 0x03 ∷ 0x61 ∷ 0xa3 ∷ 0x96 ∷ 0x17 ∷ 0x7a ∷ 0x9c ∷ 0xb4 ∷ 0x10
        ∷ 0xff ∷ 0x61 ∷ 0xf2 ∷ 0x00 ∷ 0x15 ∷ 0xad ∷ [])
unfolding sha256 sha256_transform
abc_digest = refl

sha256_example :
    sha256 3 (zero_bytes 64) ((97 ∷ 98 ∷ 99 ∷ []) ∷ []) ≡ done (message_digest (97 ∷ 98 ∷ 99 ∷ []))
unfolding jat_os.Sha256.Message.concat jat_os.Sha256.Whole.clears_nothing
sha256_example =
    sha256-message_digest 3 (zero_bytes 64) ((97 ∷ 98 ∷ 99 ∷ []) ∷ []) (last_read (omega arith))
      refl (omega arith)

-- 55 bytes
panic_at_55 : sha256 55 (zero_bytes 64) (zero_bytes 55 ∷ []) ≡ panic
unfolding jat_os.Sha256.Message.concat jat_os.Sha256.Whole.clears_nothing
panic_at_55 =
    sha256-message_digest 55 (zero_bytes 64) (zero_bytes 55 ∷ []) (last_read (omega arith)) refl
      (omega arith)
