-- ===== src/XorCipher/RoundTrip.antt =====
-- What kernel/crypto/xor.c encrypts and decrypts again.
use jat_os.Prelude.{
  ℕ, zero, suc, ◌+◌, ◌%◌, ◌<◌, bit_xor, arith, ◌≡◌, ◌≢◌, refl, ap, ◌∙◌, List, [], ◌∷◌, length,
  get_or, done,
}
use jat_os.Words.{xor_twice}
use jat_os.XorCipher.{masked, encrypt_data, decrypt_data}

masked-masked : (key : List ℕ) (i : ℕ) (plain : List ℕ) → masked key i (masked key i plain) ≡ plain
unfolding masked
masked-masked key i [] = refl
masked-masked key i (byte ∷ plain) =
    ap (λ (b : ℕ). b ∷ masked key (i + 1) (masked key (i + 1) plain))
      (xor_twice byte (get_or key (i % length key) 0))
    ∙ ap (λ t. byte ∷ t) (masked-masked key (i + 1) plain)

length-masked : (key : List ℕ) (i : ℕ) (plain : List ℕ) → length (masked key i plain) ≡ length plain
unfolding masked
length-masked key i [] = refl
length-masked key i (byte ∷ plain) = ap suc (length-masked key (i + 1) plain)

masked-get_or :
    (key : List ℕ) (j : ℕ) (plain : List ℕ) (i : ℕ)
    → i < length plain
    → get_or (masked key j plain) i 0
      ≡ bit_xor (get_or plain i 0) (get_or key ((j + i) % length key) 0)
unfolding masked
masked-get_or key j [] i lt = absurd (omega arith)
masked-get_or key j (byte ∷ plain) zero lt =
    let same : j ≡ j + 0 = omega arith in
    ap (λ (n : ℕ). bit_xor byte (get_or key (n % length key) 0)) same
masked-get_or key j (byte ∷ plain) (suc i) lt =
    let same : j + 1 + i ≡ j + suc i = omega arith in
    masked-get_or key (j + 1) plain i (omega arith)
    ∙ ap (λ (n : ℕ). bit_xor (get_or plain i 0) (get_or key (n % length key) 0)) same

-- With a key that is not empty, the encryption ends with as many bytes, the one at `i` being that
-- of the data, exclusive or the byte of the key at `i` modulo its length, and their decryption ends
-- with the data.
pub decrypt_data-encrypt_data :
    (key plain : List ℕ)
    → key ≢ []
    → (cipher : List ℕ) × (encrypt_data plain key ≡ done cipher)
      × (length cipher ≡ length plain)
      × ((i : ℕ)
          → i < length plain
          → get_or cipher i 0 ≡ bit_xor (get_or plain i 0) (get_or key (i % length key) 0))
      × (decrypt_data cipher key ≡ done plain)
unfolding encrypt_data decrypt_data
decrypt_data-encrypt_data [] plain some = absurd (some refl)
decrypt_data-encrypt_data (c ∷ key) [] some = ([], refl, refl, λ i lt. absurd (omega arith), refl)
decrypt_data-encrypt_data (c ∷ key) (byte ∷ plain) some = (
  _,
  refl,
  length-masked (c ∷ key) 0 (byte ∷ plain),
  λ i lt.
      masked-get_or (c ∷ key) 0 (byte ∷ plain) i lt
      ∙ ap
          (λ (n : ℕ).
            bit_xor (get_or (byte ∷ plain) i 0) (get_or (c ∷ key) (n % length (c ∷ key)) 0))
          (omega arith),
  ap done (masked-masked (c ∷ key) 0 (byte ∷ plain)),
)
