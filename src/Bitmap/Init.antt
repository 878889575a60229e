-- ===== src/Bitmap/Init.antt =====
-- bitmap_init of kernel/memop/bitmap.c: every bit of the bitmap reads as free behind it.
use Prim.Native.Nat.{bit_and-bitwise}
use jat_os.Prelude.{
  ℕ, ◌*◌, ◌/◌, ◌%◌, ◌^◌, ◌<◌, ◌≡◌, refl, true, ltb, bit_and, if◌then◌else◌, done, arith,
}
use jat_os.Bitmap.{Bitmap, bitmap_init, bitmap_scan_test}
use jat_os.Bitmap.Set.{is_free, IsBytes}

-- An empty bitmap of `n` bytes.
abbrev pub empty : (ℕ → ℕ) → ℕ → Bitmap
empty b n = record { bits = λ q. if ltb q n then 0 else b q; btmp_bytes_len = n }

pub bitmap_init-empty :
    (b : ℕ → ℕ) (n : ℕ)
    → 0 < n
    → bitmap_init (record { bits = b; btmp_bytes_len = n }) ≡ done (empty b n)
unfolding bitmap_init
bitmap_init-empty b n pos = let e : ltb 0 n ≡ true = ground arith in rw e refl

zero_and : (k : ℕ) → bit_and 0 k ≡ 0
zero_and k = simp bit_and-bitwise (refl)

pub empty_free : (b : ℕ → ℕ) (n i : ℕ) → i < n * 8 → is_free (empty b n) i ≡ true
unfolding bitmap_scan_test
empty_free b n i lt =
    let e : ltb (i / 8) n ≡ true = ground arith in rw (e, zero_and (2 ^ (i % 8))) refl

pub empty-IsBytes : (b : ℕ → ℕ) (n : ℕ) → ((q : ℕ) → b q < 256) → IsBytes (empty b n)
empty-IsBytes b n bytes q = ground (arith, bytes q)

-- Bits of memory that is all zero.
pub zero_free : (n i : ℕ) → is_free (record { bits = λ q. 0; btmp_bytes_len = n }) i ≡ true
unfolding bitmap_scan_test
zero_free n i = rw (zero_and (2 ^ (i % 8))) refl
