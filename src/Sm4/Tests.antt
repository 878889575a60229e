-- ===== src/Sm4/Tests.antt =====
-- The cipher at the key and the block of the example in the SM4 standard.
use jat_os.Prelude.{ℕ, ◌≡◌, refl, arith}
use jat_os.Sm4.{Quad, mix, key_schedule, encrypt, decrypt}
use jat_os.Sm4.RoundTrip.{IsBlock, decrypt-encrypt}

abbrev quad : ℕ → ℕ → ℕ → ℕ → Quad ℕ
quad a b c d = record { a = a; b = b; c = c; d = d }

abbrev sample : Quad (Quad ℕ)
sample = record {
  a = quad 0x01 0x23 0x45 0x67;
  b = quad 0x89 0xab 0xcd 0xef;
  c = quad 0xfe 0xdc 0xba 0x98;
  d = quad 0x76 0x54 0x32 0x10;
}

sample-IsBlock : IsBlock sample
sample-IsBlock = record {
  a = record { a = omega arith; b = omega arith; c = omega arith; d = omega arith };
  b = record { a = omega arith; b = omega arith; c = omega arith; d = omega arith };
  c = record { a = omega arith; b = omega arith; c = omega arith; d = omega arith };
  d = record { a = omega arith; b = omega arith; c = omega arith; d = omega arith };
}

decrypt-encrypt_example :
    decrypt (key_schedule sample) (encrypt (key_schedule sample) sample) ≡ sample
decrypt-encrypt_example = decrypt-encrypt (key_schedule sample) sample sample-IsBlock

-- The ciphertext that the standard publishes for this key and block.
published : encrypt (key_schedule sample) sample ≡ record {
  a = quad 0x68 0x1e 0xdf 0x34;
  b = quad 0xd2 0x06 0x96 0x5e;
  c = quad 0x86 0xb3 0xe9 0x4f;
  d = quad 0x53 0x6e 0x42 0x46;
}
unfolding encrypt key_schedule mix
published = refl
