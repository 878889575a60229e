-- ===== src/XorCipher.antt =====
-- The XOR cipher: kernel/crypto/xor.c. The key is the text before its terminator, as bytes.
pub mod RoundTrip
mod Tests
use jat_os.Prelude.{
  ℕ, zero, suc, ◌+◌, ◌%◌, List, [], ◌∷◌, length, get_or, bit_xor, Outcome, done, fault, ◌>>=◌,
}

-- `data[i] ^= key[i % key_len]`, for the bytes from `i` on. The remainder by 0 is a fault of the
-- processor.
pub masked : List ℕ → ℕ → List ℕ → List ℕ
masked key i [] = []
masked key i (byte ∷ plain) =
    bit_xor byte (get_or key (i % length key) 0) ∷ masked key (i + 1) plain

pub encrypt_data : List ℕ → List ℕ → Outcome (List ℕ)
unfolding masked
encrypt_data [] [] = done []
encrypt_data (byte ∷ plain) [] = fault
encrypt_data plain (c ∷ key) = done (masked (c ∷ key) 0 plain)

pub decrypt_data : List ℕ → List ℕ → Outcome (List ℕ)
decrypt_data plain key = encrypt_data plain key
