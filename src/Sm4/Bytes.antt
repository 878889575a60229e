-- ===== src/Sm4/Bytes.antt =====
-- Bytes and words of kernel/crypto/sm4.c.
use jat_os.Prelude.{ℕ, ◌+◌, ◌*◌, ◌^◌, ◌<◌, ◌≡◌, ap, ◌∙◌, bit_or, arith}
use jat_os.Words.{or_join}
use jat_os.Sm4.{Quad, word, bytes}

pub record AreBytes (q : Quad ℕ) : Type 0 where
  pub a : q.a < 256
  pub b : q.b < 256
  pub c : q.c < 256
  pub d : q.d < 256

pub word-sum : (q : Quad ℕ) → AreBytes q → word q ≡ q.a * 2 ^ 24 + q.b * 2 ^ 16 + q.c * 2 ^ 8 + q.d
unfolding word
word-sum q are =
    let ab : bit_or (q.a * 2 ^ 24) (q.b * 2 ^ 16) ≡ (q.a * 256 + q.b) * 2 ^ 16 =
      or_join 24 q.a (q.b * 2 ^ 16) (omega (arith, are.b)) ∙ omega arith in
    let abc : bit_or ((q.a * 256 + q.b) * 2 ^ 16) (q.c * 2 ^ 8)
        ≡ ((q.a * 256 + q.b) * 256 + q.c) * 2 ^ 8 =
      or_join 16 (q.a * 256 + q.b) (q.c * 2 ^ 8) (omega (arith, are.c)) ∙ omega arith in
    ap (λ (t : ℕ). bit_or (bit_or t (q.c * 2 ^ 8)) q.d) ab
    ∙ ap (λ (t : ℕ). bit_or t q.d) abc
    ∙ or_join 8 ((q.a * 256 + q.b) * 256 + q.c) q.d are.d
    ∙ omega arith

pub bytes-word : (q : Quad ℕ) → AreBytes q → bytes (word q) ≡ q
unfolding bytes
bytes-word q are = let e = word-sum q are in ground (arith, are.a, are.b, are.c, are.d)

pub bytes-AreBytes : (w : ℕ) → AreBytes (bytes w)
unfolding bytes
bytes-AreBytes w = record { a = omega arith; b = omega arith; c = omega arith; d = omega arith }

pub word-bytes : (w : ℕ) → w < 2 ^ 32 → word (bytes w) ≡ w
unfolding bytes
word-bytes w fits = word-sum (bytes w) (bytes-AreBytes w) ∙ omega arith

pub word_bound : (q : Quad ℕ) → AreBytes q → word q < 2 ^ 32
word_bound q are = omega (arith, word-sum q are, are.a, are.b, are.c, are.d)
