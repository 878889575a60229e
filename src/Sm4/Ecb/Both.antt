-- ===== src/Sm4/Ecb/Both.antt =====
-- A message of kernel/crypto/sm4.c that is padded, encrypted and decrypted again.
use jat_os.Prelude.{
  ℕ, ◌+◌, ◌-◌, ◌*◌, ◌/◌, ◌%◌, ◌^◌, ◌≤◌, ◌<◌, ◌≡◌, refl, sym, ◌∙◌, true, false, ◌==◌, ltb,
  if◌then◌else◌, List, none, some, arith, subst, Bool-cases, inl, inr,
}
use jat_os.Sm4.{encrypt, decrypt}
use jat_os.Sm4.RoundTrip.{decrypt-encrypt}
use jat_os.Sm4.Ecb.{
  Buffer, negative, write_from, each_block, pkcs7_padding, pkcs7_unpadding, sm4_ecb_encrypt,
  sm4_ecb_decrypt,
}
use jat_os.Sm4.Ecb.Blocks.{each_block-undoes, each_block-above}

-- The length of the padding.
abbrev pub pad_of : ℕ → ℕ
pad_of len = 16 - len % 16

-- The message behind both calls.
pub record Restored (d : Buffer) (len size : ℕ) (rk : List ℕ) : Type 0 where
  pub cipher : Buffer
  pub plain : Buffer
  pub encrypted :
      sm4_ecb_encrypt true d len size rk
      ≡ record { ret = 0; buffer = cipher; output_len = some (len + pad_of len) }
  pub decrypted : sm4_ecb_decrypt true cipher (len + pad_of len) rk ≡ record {
    ret = if len == 0 then negative 2 else 0;
    buffer = plain;
    output_len = if len == 0 then none else some len;
  }
  pub same : (j : ℕ) → j < len → plain j ≡ d j
  pub padded_only : (j : ℕ) → len + pad_of len ≤ j → cipher j ≡ d j

module _ (d : Buffer) (len size : ℕ) (rk : List ℕ) (bytes : (j : ℕ) → d j < 256)
    (fits : size < 2 ^ 32) where
  abbrev padded : Buffer
  padded = write_from d len (pad_of len) (pad_of len)

  abbrev blocks : ℕ
  blocks = (len + pad_of len + 15) / 16

  module _ (room : len + 16 ≤ size) where
    padding-runs : pkcs7_padding d len size ≡ (len + pad_of len, padded)
    unfolding pkcs7_padding
    padding-runs =
        let e : ltb size ((len + 16) % 2 ^ 32) ≡ false = ground arith in
        let s : (len + (16 - len % 16)) % 2 ^ 32 ≡ len + (16 - len % 16) = omega arith in
        rw (e, s) refl

    encrypt-runs : sm4_ecb_encrypt true d len size rk ≡ record {
      ret = 0;
      buffer = each_block (encrypt rk) blocks 0 padded;
      output_len = some (len + pad_of len);
    }
    unfolding sm4_ecb_encrypt
    encrypt-runs =
        let e : ltb size ((len + 15) % 2 ^ 32 / 16 * 16) ≡ false = ground arith in
        let z : (len + (16 - len % 16) == 0) ≡ false = ground arith in rw (e, padding-runs, z) refl

    undone :
        (j : ℕ)
        → each_block (decrypt rk) blocks 0 (each_block (encrypt rk) blocks 0 padded) j ≡ padded j
    undone j =
        each_block-undoes (encrypt rk) (decrypt rk) blocks 0 j padded (decrypt-encrypt rk)
          (λ t le. ground (arith, bytes t))

    unpadding-runs :
        (plain : Buffer)
        → ((j : ℕ) → plain j ≡ padded j)
        → pkcs7_unpadding plain (len + pad_of len) ≡ len
    unfolding pkcs7_unpadding
    unpadding-runs plain same =
        let last : plain (len + (16 - len % 16) - 1) ≡ 16 - len % 16 =
          same (len + (16 - len % 16) - 1) ∙ ground arith in
        rw last (ground arith)

    decrypt-runs :
        (cipher plain : Buffer)
        → plain ≡ each_block (decrypt rk) blocks 0 cipher
        → pkcs7_unpadding plain (len + pad_of len) ≡ len
        → sm4_ecb_decrypt true cipher (len + pad_of len) rk ≡ record {
          ret = if len == 0 then negative 2 else 0;
          buffer = plain;
          output_len = if len == 0 then none else some len;
        }
    unfolding sm4_ecb_decrypt
    decrypt-runs cipher plain e un =
        let whole : ((len + (16 - len % 16)) % 16 == 0) ≡ true = ground arith in
        let un' = subst (λ t. pkcs7_unpadding t (len + pad_of len) ≡ len) e un in
        subst
          (λ t. sm4_ecb_decrypt true cipher (len + pad_of len) rk ≡ record {
            ret = if len == 0 then negative 2 else 0;
            buffer = t;
            output_len = if len == 0 then none else some len;
          })
          (sym e)
          (rw (whole, un') (elim (Bool-cases (len == 0)) [ inl z ↦ rw z refl | inr z ↦ rw z refl ]))

    -- With 16 bytes of room behind a message of bytes, SM4_ECB_Encrypt returns 0 and a length that is
    -- the next multiple of 16 above the message's, and leaves what is behind. SM4_ECB_Decrypt with
    -- the same round keys then brings the message back, with its length and 0, except for the empty
    -- message, for which it returns -2 and no length.
    pub sm4_ecb_decrypt-encrypt : Restored d len size rk
    sm4_ecb_decrypt-encrypt =
        let cipher = each_block (encrypt rk) blocks 0 padded in
        let plain = each_block (decrypt rk) blocks 0 cipher in
        record {
          cipher = cipher;
          plain = plain;
          encrypted = encrypt-runs;
          decrypted = decrypt-runs cipher plain refl (unpadding-runs plain undone);
          same = λ j lt. undone j ∙ ground arith;
          padded_only =
              λ j le. each_block-above (encrypt rk) blocks 0 j padded (omega arith) ∙ ground arith;
        }
