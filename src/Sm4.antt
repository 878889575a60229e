-- ===== src/Sm4.antt =====
-- The block cipher of kernel/crypto/sm4.c: the key schedule, and a block encrypted and decrypted.
-- A block is four words, and a word four bytes, the highest first. The arrays K and X of the source
-- are the four entries that the loop still reads; the arrays rk and CK are sequences.
mod Tables
pub mod Rounds
pub mod Bytes
pub mod RoundTrip
pub mod Ecb
mod Tests
pub use Tables.{sbox, t0, t1, t2, t3, fk, ck}
use jat_os.Prelude.{ℕ, ◌+◌, ◌-◌, ◌*◌, ◌/◌, ◌%◌, ◌^◌, List, [], ◌∷◌, ◌++◌, get_or, bit_or, bit_xor}

-- Four bytes, or four words.
pub record Quad {ℓ} (A : Type ℓ) : Type ℓ where
  pub a : A
  pub b : A
  pub c : A
  pub d : A

-- `((uint32_t)a << 24) | ((uint32_t)b << 16) | ((uint32_t)c << 8) | (uint32_t)d`
pub word : Quad ℕ → ℕ
word q = bit_or (bit_or (bit_or (q.a * 2 ^ 24) (q.b * 2 ^ 16)) (q.c * 2 ^ 8)) q.d

-- `(w >> 24) & 0xFF` and so on
pub bytes : ℕ → Quad ℕ
bytes w = record { a = w / 2 ^ 24 % 256; b = w / 2 ^ 16 % 256; c = w / 2 ^ 8 % 256; d = w % 256 }

pub rotl : ℕ → ℕ → ℕ
rotl x n = bit_or (x * 2 ^ n % 2 ^ 32) (x / 2 ^ (32 - n))

-- `T`
pub mix : ℕ → ℕ
mix x =
    bit_xor
      (bit_xor (bit_xor (get_or t0 (x / 2 ^ 24 % 256) 0) (get_or t1 (x / 2 ^ 16 % 256) 0))
        (get_or t2 (x / 2 ^ 8 % 256) 0))
      (get_or t3 (x % 256) 0)

pub tau : ℕ → ℕ
unfolding word bytes
tau x =
    let q = bytes x in
    word (record {
      a = get_or sbox q.a 0;
      b = get_or sbox q.b 0;
      c = get_or sbox q.c 0;
      d = get_or sbox q.d 0;
    })

pub l_prime : ℕ → ℕ
unfolding rotl
l_prime x = bit_xor (bit_xor x (rotl x 13)) (rotl x 23)

pub t_prime : ℕ → ℕ
unfolding tau l_prime
t_prime x = l_prime (tau x)

-- The loop of `SM4_KeySchedule` over the rest of CK.
pub expand : List ℕ → Quad ℕ → List ℕ
unfolding t_prime
expand [] k = []
expand (c ∷ cs) k =
    let next = bit_xor k.a (t_prime (bit_xor (bit_xor (bit_xor k.b k.c) k.d) c)) in
    next ∷ expand cs (record { a = k.b; b = k.c; c = k.d; d = next })

-- `SM4_KeySchedule`
pub key_schedule : Quad (Quad ℕ) → List ℕ
unfolding word expand
key_schedule mk = expand ck (record {
  a = bit_xor (word mk.a) (get_or fk 0 0);
  b = bit_xor (word mk.b) (get_or fk 1 0);
  c = bit_xor (word mk.c) (get_or fk 2 0);
  d = bit_xor (word mk.d) (get_or fk 3 0);
})

-- One turn of the loop of `SM4_Encrypt` and of `SM4_Decrypt`.
unfoldable pub turn : ℕ → Quad ℕ → Quad ℕ
turn rk x = record {
  a = x.b;
  b = x.c;
  c = x.d;
  d = bit_xor x.a (mix (bit_xor (bit_xor (bit_xor x.b x.c) x.d) rk));
}

unfoldable pub rounds : List ℕ → Quad ℕ → Quad ℕ
rounds [] x = x
rounds (rk ∷ rks) x = rounds rks (turn rk x)

abbrev pub load : Quad (Quad ℕ) → Quad ℕ
load block = record { a = word block.a; b = word block.b; c = word block.c; d = word block.d }

-- The last word is stored first.
abbrev pub store : Quad ℕ → Quad (Quad ℕ)
store x = record { a = bytes x.d; b = bytes x.c; c = bytes x.b; d = bytes x.a }

-- The reading of rk from its end.
unfoldable pub backwards : List ℕ → List ℕ
backwards [] = []
backwards (rk ∷ rks) = backwards rks ++ rk ∷ []

pub encrypt : List ℕ → Quad (Quad ℕ) → Quad (Quad ℕ)
unfolding word bytes rounds turn
encrypt rk block = store (rounds rk (load block))

pub decrypt : List ℕ → Quad (Quad ℕ) → Quad (Quad ℕ)
unfolding word bytes rounds turn backwards
decrypt rk block = store (rounds (backwards rk) (load block))
