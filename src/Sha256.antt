-- ===== src/Sha256.antt =====
-- SHA-256: kernel/crypto/sha256.c. The bytes of a file are a sequence; the file calls around the
-- loop are left out, and read is asked for full chunks.
mod Constants
pub mod Blocks
pub mod Message
pub mod Whole
mod Tests
pub use Constants.{k_table}
use jat_os.Prelude.{
  ℕ, zero, suc, ◌+◌, ◌-◌, ◌*◌, ◌/◌, ◌%◌, ◌^◌, bit_and, bit_or, bit_xor, List, [], ◌∷◌, ◌++◌, get_or,
  take, drop, length, if◌then◌else◌, ltb, ◌==◌, Outcome, done, assert, ◌>>=◌, ◌>>◌,
}

abbrev pub u32 : ℕ → ℕ
u32 n = n % 2 ^ 32

-- `~x`
abbrev pub complement : ℕ → ℕ
complement x = 2 ^ 32 - 1 - x

-- The eight words of `state`, or A to H.
pub record State : Type 0 where
  pub a : ℕ
  pub b : ℕ
  pub c : ℕ
  pub d : ℕ
  pub e : ℕ
  pub f : ℕ
  pub g : ℕ
  pub h : ℕ

-- SHA256_ROTL, for a shift from 1 to 31
pub sha256_rotl : ℕ → ℕ → ℕ
sha256_rotl a b = bit_or (bit_and (a / 2 ^ (32 - b)) (0x7fffffff / 2 ^ (31 - b))) (u32 (a * 2 ^ b))

-- SHA256_SR, for a shift of at least 1
pub sha256_sr : ℕ → ℕ → ℕ
sha256_sr a b = bit_and (a / 2 ^ b) (0x7fffffff / 2 ^ (b - 1))

pub sha256_ch : ℕ → ℕ → ℕ → ℕ
sha256_ch x y z = bit_xor (bit_and x y) (bit_and (complement x) z)

pub sha256_maj : ℕ → ℕ → ℕ → ℕ
sha256_maj x y z = bit_xor (bit_xor (bit_and x y) (bit_and x z)) (bit_and y z)

pub sha256_e0 : ℕ → ℕ
unfolding sha256_rotl
sha256_e0 x = bit_xor (bit_xor (sha256_rotl x 30) (sha256_rotl x 19)) (sha256_rotl x 10)

pub sha256_e1 : ℕ → ℕ
unfolding sha256_rotl
sha256_e1 x = bit_xor (bit_xor (sha256_rotl x 26) (sha256_rotl x 21)) (sha256_rotl x 7)

pub sha256_o0 : ℕ → ℕ
unfolding sha256_rotl sha256_sr
sha256_o0 x = bit_xor (bit_xor (sha256_rotl x 25) (sha256_rotl x 14)) (sha256_sr x 3)

pub sha256_o1 : ℕ → ℕ
unfolding sha256_rotl sha256_sr
sha256_o1 x = bit_xor (bit_xor (sha256_rotl x 15) (sha256_rotl x 13)) (sha256_sr x 10)

-- `sha256_init`
abbrev pub sha256_init : State
sha256_init = record {
  a = 0x6a09e667;
  b = 0xbb67ae85;
  c = 0x3c6ef372;
  d = 0xa54ff53a;
  e = 0x510e527f;
  f = 0x9b05688c;
  g = 0x1f83d9ab;
  h = 0x5be0cd19;
}

-- The first loop of `sha256_transform`, over the words of a block.
pub load_words : ℕ → List ℕ → List ℕ
load_words zero data_left = []
load_words (suc n) data_left =
    bit_or
      (bit_or (bit_or (get_or data_left 0 0 * 2 ^ 24) (get_or data_left 1 0 * 2 ^ 16))
        (get_or data_left 2 0 * 2 ^ 8))
      (get_or data_left 3 0)
    ∷ load_words n (drop 4 data_left)

-- The second loop: `w` holds W up to now.
pub expand_words : ℕ → ℕ → List ℕ → List ℕ
unfolding sha256_o0 sha256_o1
expand_words zero i w = w
expand_words (suc n) i w =
    let next = u32 (
      u32 (
        u32 (sha256_o1 (get_or w (i - 2) 0) + get_or w (i - 7) 0) + sha256_o0 (get_or w (i - 15) 0))
      + get_or w (i - 16) 0) in
    expand_words n (i + 1) (w ++ next ∷ [])

-- One turn of the third loop.
pub round_step : State → ℕ → ℕ → State
unfolding sha256_e0 sha256_e1 sha256_ch sha256_maj
round_step s k w =
    let t1 = u32 (u32 (u32 (u32 (s.h + sha256_e1 s.e) + sha256_ch s.e s.f s.g) + k) + w) in
    let t2 = u32 (sha256_e0 s.a + sha256_maj s.a s.b s.c) in
    record {
      a = u32 (t1 + t2);
      b = s.a;
      c = s.b;
      d = s.c;
      e = u32 (s.d + t1);
      f = s.e;
      g = s.f;
      h = s.g;
    }

pub all_rounds : State → List ℕ → List ℕ → State
unfolding round_step
all_rounds s (k ∷ ks) (w ∷ ws) = all_rounds (round_step s k w) ks ws
all_rounds s (k ∷ ks) [] = s
all_rounds s [] ws = s

-- `sha256_transform`
pub sha256_transform : State → List ℕ → State
unfolding load_words expand_words all_rounds
sha256_transform s block =
    let w = expand_words 48 16 (load_words 16 block) in
    let t = all_rounds s k_table w in
    record {
      a = u32 (s.a + t.a);
      b = u32 (s.b + t.b);
      c = u32 (s.c + t.c);
      d = u32 (s.d + t.d);
      e = u32 (s.e + t.e);
      f = u32 (s.f + t.f);
      g = u32 (s.g + t.g);
      h = u32 (s.h + t.h);
    }

-- The context without the digest; `buffer` has 64 bytes.
pub record Sha256Ctx : Type 0 where
  pub state : State
  pub count : ℕ
  pub buffer : List ℕ

-- `for (i = 0; i < block_count; i++)`
unfoldable pub transform_blocks : ℕ → State → List ℕ → State
transform_blocks zero s bytes = s
transform_blocks (suc n) s bytes =
    transform_blocks n (sha256_transform s (take 64 bytes)) (drop 64 bytes)

-- The body of the loop of `SHA256` on the bytes of one read.
pub hash_chunk : Sha256Ctx → List ℕ → Sha256Ctx
unfolding transform_blocks
hash_chunk ctx chunk =
    let block_count = length chunk / 64 in
    let tail = drop (block_count * 64) chunk in
    record {
      state = transform_blocks block_count ctx.state chunk;
      count = (ctx.count + length chunk) % 2 ^ 64;
      buffer = tail ++ drop (length tail) ctx.buffer;
    }

-- The loop, over what the calls of `read` return.
pub read_loop : ℕ → ℕ → Sha256Ctx → List (List ℕ) → Sha256Ctx
unfolding hash_chunk
read_loop hash_size total_read ctx [] = ctx
read_loop hash_size total_read ctx ([] ∷ reads) = ctx
read_loop hash_size total_read ctx ((byte ∷ bytes) ∷ reads) =
    let ctx' = hash_chunk ctx (byte ∷ bytes) in
    let total = u32 (total_read + length (byte ∷ bytes)) in
    let rest = read_loop hash_size total ctx' reads in if ltb total hash_size then rest else ctx'

abbrev pub zero_bytes : ℕ → List ℕ
zero_bytes zero = []
zero_bytes (suc n) = 0 ∷ zero_bytes n

-- `buffer[56]` to `buffer[63]`
abbrev pub length_bytes : ℕ → List ℕ
length_bytes bits =
    bits / 2 ^ 56 % 256
    ∷ bits / 2 ^ 48 % 256
    ∷ bits / 2 ^ 40 % 256
    ∷ bits / 2 ^ 32 % 256
    ∷ bits / 2 ^ 24 % 256
    ∷ bits / 2 ^ 16 % 256
    ∷ bits / 2 ^ 8 % 256
    ∷ bits % 256
    ∷ []

abbrev pub word_bytes : ℕ → List ℕ
word_bytes w = w / 2 ^ 24 % 256 ∷ w / 2 ^ 16 % 256 ∷ w / 2 ^ 8 % 256 ∷ w % 256 ∷ []

-- The loop that fills `digest`, and the copy of it.
pub digest_of : State → List ℕ
digest_of s =
    word_bytes s.a
    ++ word_bytes s.b
    ++ word_bytes s.c
    ++ word_bytes s.d
    ++ word_bytes s.e
    ++ word_bytes s.f
    ++ word_bytes s.g
    ++ word_bytes s.h

-- `memset(p, 0, size)`, which asserts `size > 0`.
pub cleared : ℕ → Outcome (List ℕ)
cleared size = do assert (ltb 0 size); done (zero_bytes size)

-- The padding behind the loop: the last one or two blocks. The length is written over the last
-- eight bytes of the buffer.
pub finish_padding : Sha256Ctx → Outcome State
unfolding cleared
finish_padding ctx =
    let remaining = ctx.count % 64 + 1 in
    let front = take (ctx.count % 64) ctx.buffer ++ 0x80 ∷ [] in
    let bits = ctx.count * 8 % 2 ^ 64 in
    if ltb 56 remaining
    then (do
      zeros ← cleared (64 - remaining)
      let state = sha256_transform ctx.state (front ++ zeros)
      zeros' ← cleared (64 - 8)
      done (sha256_transform state (zeros' ++ length_bytes bits)))
    else (do
      zeros ← cleared (64 - remaining - 8)
      done (sha256_transform ctx.state (front ++ zeros ++ length_bytes bits)))

-- `SHA256` between the opening of the file and the copy of the digest. `buffer` is what `ctx.buffer`
-- holds at the start.
pub sha256 : ℕ → List ℕ → List (List ℕ) → Outcome (List ℕ)
unfolding read_loop finish_padding digest_of
sha256 hash_size buffer reads = do
  let start : Sha256Ctx = record { state = sha256_init; count = 0; buffer = buffer }
  state ← finish_padding (read_loop hash_size 0 start reads)
  done (digest_of state)
