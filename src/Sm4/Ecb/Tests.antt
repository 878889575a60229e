-- ===== src/Sm4/Ecb/Tests.antt =====
-- The theorem on messages at one of five bytes.
use jat_os.Prelude.{[], ◌∷◌, ◌%◌, arith}
use jat_os.Sm4.Ecb.{Buffer}
use jat_os.Sm4.Ecb.Both.{Restored, sm4_ecb_decrypt-encrypt}

abbrev message : Buffer
message j = j % 256

sm4_ecb_example : Restored message 5 32 (1 ∷ 2 ∷ [])
sm4_ecb_example =
    sm4_ecb_decrypt-encrypt message 5 32 (1 ∷ 2 ∷ []) (λ j. omega arith) (omega arith) (omega arith)
