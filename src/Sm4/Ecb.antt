-- ===== src/Sm4/Ecb.antt =====
-- The padding and the mode ECB of kernel/crypto/sm4.c. A buffer is the memory from its pointer on.
pub mod Blocks
pub mod Both
mod Tests
use jat_os.Prelude.{
  ℕ, zero, suc, ◌+◌, ◌-◌, ◌*◌, ◌/◌, ◌%◌, ◌^◌, Bool, true, false, not, ◌==◌, ◌&&◌, ◌||◌, leb, ltb,
  if◌then◌else◌, List, [], ◌∷◌, get_or, Option, none, some,
}
use jat_os.Sm4.{Quad, encrypt, decrypt}

abbrev pub Buffer : Type 0
Buffer = ℕ → ℕ

-- What a call leaves: the `int`, the buffer, and the number written to `*outputLen`, if any.
pub record Returned : Type 0 where
  pub ret : ℕ
  pub buffer : Buffer
  pub output_len : Option ℕ

-- A negative `int` as a bit pattern.
abbrev pub negative : ℕ → ℕ
negative n = 2 ^ 32 - n

-- The 16 bytes from `i` on.
abbrev pub block_at : Buffer → ℕ → Quad (Quad ℕ)
block_at d i = record {
  a = record { a = d (i + 0); b = d (i + 1); c = d (i + 2); d = d (i + 3) };
  b = record { a = d (i + 4); b = d (i + 5); c = d (i + 6); d = d (i + 7) };
  c = record { a = d (i + 8); b = d (i + 9); c = d (i + 10); d = d (i + 11) };
  d = record { a = d (i + 12); b = d (i + 13); c = d (i + 14); d = d (i + 15) };
}

abbrev pub sixteen : Quad (Quad ℕ) → List ℕ
sixteen q =
    q.a.a ∷ q.a.b ∷ q.a.c ∷ q.a.d ∷ q.b.a ∷ q.b.b ∷ q.b.c ∷ q.b.d ∷ q.c.a ∷ q.c.b ∷ q.c.c ∷ q.c.d
    ∷ q.d.a ∷ q.d.b ∷ q.d.c ∷ q.d.d ∷ []

-- The writes of a block at `i`.
abbrev pub put_block : Buffer → ℕ → Quad (Quad ℕ) → Buffer
put_block d i q j = if leb i j && ltb j (i + 16) then get_or (sixteen q) (j - i) 0 else d j

abbrev pub write_from : Buffer → ℕ → ℕ → ℕ → Buffer
write_from d start n v j = if leb start j && ltb j (start + n) then v else d j

-- `PKCS7_Padding`: the padded length, or 0.
pub pkcs7_padding : Buffer → (input_len buffer_size : ℕ) → ℕ × Buffer
pkcs7_padding buffer input_len buffer_size =
    if ltb buffer_size ((input_len + 16) % 2 ^ 32)
    then (0, buffer)
    else let pad = 16 - input_len % 16 in
      ((input_len + pad) % 2 ^ 32, write_from buffer input_len pad pad)

-- `PKCS7_Unpadding`
pub pkcs7_unpadding : Buffer → ℕ → ℕ
pkcs7_unpadding buffer input_len =
    if input_len == 0
    then 0
    else let pad = buffer (input_len - 1) in
      if ltb 16 pad || (pad == 0) then 0 else (input_len + 2 ^ 32 - pad) % 2 ^ 32

-- `for (i = 0; i < len; i += 16)` over the blocks, of which `n` are left.
unfoldable pub each_block : (Quad (Quad ℕ) → Quad (Quad ℕ)) → ℕ → ℕ → Buffer → Buffer
each_block f zero i d = d
each_block f (suc n) i d = each_block f n (i + 16) (put_block d i (f (block_at d i)))

-- `SM4_ECB_Encrypt`; `given` tells whether no pointer is NULL.
pub sm4_ecb_encrypt : (given : Bool) → Buffer → (data_len buffer_size : ℕ) → List ℕ → Returned
unfolding pkcs7_padding each_block
sm4_ecb_encrypt given d data_len buffer_size rk =
    if not given
    then record { ret = negative 1; buffer = d; output_len = none }
    else let padded_len = (data_len + 15) % 2 ^ 32 / 16 * 16 in
      if ltb buffer_size padded_len
      then record { ret = negative 2; buffer = d; output_len = none }
      else let padded = pkcs7_padding d data_len buffer_size in
        if padded.0 == 0
        then record { ret = negative 3; buffer = padded.1; output_len = none }
        else record {
          ret = 0;
          buffer = each_block (encrypt rk) ((padded.0 + 15) / 16) 0 padded.1;
          output_len = some padded.0;
        }

-- `SM4_ECB_Decrypt`
pub sm4_ecb_decrypt : (given : Bool) → Buffer → (data_len : ℕ) → List ℕ → Returned
unfolding pkcs7_unpadding each_block
sm4_ecb_decrypt given d data_len rk =
    if not given || not (data_len % 16 == 0)
    then record { ret = negative 1; buffer = d; output_len = none }
    else let plain = each_block (decrypt rk) ((data_len + 15) / 16) 0 d in
      let unpadded_len = pkcs7_unpadding plain data_len in
      if unpadded_len == 0
      then record { ret = negative 2; buffer = plain; output_len = none }
      else record { ret = 0; buffer = plain; output_len = some unpadded_len }
