-- ===== src/Sm4/RoundTrip.antt =====
-- A block of kernel/crypto/sm4.c that is encrypted and decrypted again.
use jat_os.Prelude.{ℕ, ◌≡◌, refl, ap, ◌∙◌, List}
use jat_os.Sm4.{Quad, rounds, backwards, load, store, encrypt, decrypt}
use jat_os.Sm4.Bytes.{AreBytes, bytes-word, word-bytes, word_bound}
use jat_os.Sm4.Rounds.{AreWords, rounds-AreWords, flip, rounds-backwards}

pub record IsBlock (p : Quad (Quad ℕ)) : Type 0 where
  pub a : AreBytes p.a
  pub b : AreBytes p.b
  pub c : AreBytes p.c
  pub d : AreBytes p.d

load-AreWords : (p : Quad (Quad ℕ)) → IsBlock p → AreWords (load p)
load-AreWords p is = record {
  a = word_bound p.a is.a;
  b = word_bound p.b is.b;
  c = word_bound p.c is.c;
  d = word_bound p.d is.d;
}

load-store : (x : Quad ℕ) → AreWords x → load (store x) ≡ flip x
load-store x are =
    rw (word-bytes x.a are.a, word-bytes x.b are.b, word-bytes x.c are.c, word-bytes x.d are.d) refl

store-load : (p : Quad (Quad ℕ)) → IsBlock p → store (flip (load p)) ≡ p
store-load p is =
    rw (bytes-word p.a is.a, bytes-word p.b is.b, bytes-word p.c is.c, bytes-word p.d is.d) refl

-- Whatever the round keys are, the decryption of an encrypted block of bytes is the block.
pub decrypt-encrypt : (rk : List ℕ) (p : Quad (Quad ℕ)) → IsBlock p → decrypt rk (encrypt rk p) ≡ p
unfolding encrypt decrypt
decrypt-encrypt rk p is =
    let x = rounds rk (load p) in
    let fits = rounds-AreWords rk (load p) (load-AreWords p is) in
    ap (λ y. store (rounds (backwards rk) y)) (load-store x fits)
    ∙ ap store (rounds-backwards rk (load p))
    ∙ store-load p is
