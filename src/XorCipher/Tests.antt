-- ===== src/XorCipher/Tests.antt =====
-- The round trip of the XOR cipher at a short key.
use jat_os.Prelude.{ℕ, ◌<◌, ◌%◌, bit_xor, get_or, ◌≡◌, List, [], ◌∷◌, length, done, arith}
use jat_os.XorCipher.{encrypt_data, decrypt_data}
use jat_os.XorCipher.RoundTrip.{decrypt_data-encrypt_data}

decrypt_data-encrypt_data_example :
    (cipher : List ℕ) × (encrypt_data (1 ∷ 2 ∷ 3 ∷ []) (65 ∷ 66 ∷ []) ≡ done cipher)
    × (length cipher ≡ 3)
    × ((i : ℕ)
        → i < 3
        → get_or cipher i 0
          ≡ bit_xor (get_or (1 ∷ 2 ∷ 3 ∷ []) i 0) (get_or (65 ∷ 66 ∷ []) (i % 2) 0))
    × (decrypt_data cipher (65 ∷ 66 ∷ []) ≡ done (1 ∷ 2 ∷ 3 ∷ []))
decrypt_data-encrypt_data_example =
    decrypt_data-encrypt_data (65 ∷ 66 ∷ []) (1 ∷ 2 ∷ 3 ∷ []) (λ e. ground arith)
