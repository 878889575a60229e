-- ===== src/Bitmap/Set.antt =====
-- bitmap_set of kernel/memop/bitmap.c, and what bitmap_scan_test reads behind it.
use jat_os.Prelude.{
  ℕ, zero, suc, ==_iff, bit_or, bit_and, ◌-◌, ◌/◌, ◌%◌, ◌^◌, ◌<◌, ◌≡◌, refl, inl, inr, Bool, true,
  false, ◌==◌, if◌then◌else◌, Bool-cases, done, arith,
}
use jat_os.Bitmap.{Bitmap, bitmap_scan_test, bitmap_set, write_byte}
use jat_os.Bitmap.Byte.{clear, clear-or, clear-and, and-lt, mask-one}

abbrev pub is_free : Bitmap → ℕ → Bool
is_free b i = bitmap_scan_test b i == 0

-- `uint8_t* bits`
abbrev pub IsBytes : Bitmap → Type 0
IsBytes b = (q : ℕ) → b.bits q < 256

pub record Updated (b b' : Bitmap) (i value : ℕ) : Type 0 where
  pub runs : bitmap_set b i value ≡ done b'
  pub bytes : IsBytes b'
  pub same_len : b'.btmp_bytes_len ≡ b.btmp_bytes_len
  pub reads : (j : ℕ) → is_free b' j ≡ (if i == j then value == 0 else is_free b j)

same_bit : (i j : ℕ) → i / 8 ≡ j / 8 → (i % 8 == j % 8) ≡ (i == j)
same_bit i j h = ground arith

other_byte : (i j : ℕ) → (i / 8 == j / 8) ≡ false → (i == j) ≡ false
other_byte i j h = ground arith

module _ (b : Bitmap) (i j : ℕ) (bytes : IsBytes b) where
  abbrev written : ℕ → Bool
  written v = is_free (record b { bits = write_byte b.bits (i / 8) v }) j

  reads_same : (v : ℕ) → i / 8 ≡ j / 8 → written v ≡ clear v (j % 8)
  unfolding bitmap_scan_test
  reads_same v e = ground arith

  reads_other : (v : ℕ) → (i / 8 == j / 8) ≡ false → written v ≡ is_free b j
  unfolding bitmap_scan_test
  reads_other v e = ground arith

  reads_set :
      written (bit_or (b.bits (i / 8)) (2 ^ (i % 8)) % 256)
      ≡ (if i == j then false else is_free b j)
  unfolding bitmap_scan_test
  reads_set = elim (Bool-cases (i / 8 == j / 8)) [
    | inl e ↦
        let e' : i / 8 ≡ j / 8 = (==_iff _ _).0 e in
        rw (
          reads_same _ e',
          clear-or (b.bits (i / 8)) (i % 8) (j % 8) (bytes (i / 8)) (omega arith) (omega arith),
          same_bit i j e',
          e',
        )
    | inr e ↦ rw (reads_other _ e, other_byte i j e)
  ]

  reads_clear :
      written (bit_and (b.bits (i / 8)) (255 - 2 ^ (i % 8)))
      ≡ (if i == j then true else is_free b j)
  unfolding bitmap_scan_test
  reads_clear = elim (Bool-cases (i / 8 == j / 8)) [
    | inl e ↦
        let e' : i / 8 ≡ j / 8 = (==_iff _ _).0 e in
        rw (
          reads_same _ e',
          clear-and (b.bits (i / 8)) (i % 8) (j % 8) (bytes (i / 8)) (omega arith) (omega arith),
          same_bit i j e',
          e',
        )
    | inr e ↦ rw (reads_other _ e, other_byte i j e)
  ]

-- bitmap_set writes one bit: behind it the given bit reads as the value, and every other bit of
-- the memory as before.
pub bitmap_set-Updated :
    (b : Bitmap) (i value : ℕ) → IsBytes b → value < 2 → (b' : Bitmap) × Updated b b' i value
unfolding bitmap_set
bitmap_set-Updated b i zero bytes h = (
  b',
  record {
    runs = refl;
    bytes =
        λ q. ground (arith, bytes q, and-lt (b.bits (i / 8)) (i % 8) (bytes (i / 8)) (omega arith));
    same_len = refl;
    reads = λ j. reads_clear b i j bytes;
  },
)
  where
    b' : Bitmap
    b' = record b {
      bits = write_byte b.bits (i / 8) (bit_and (b.bits (i / 8)) (255 - 2 ^ (i % 8)));
    }
bitmap_set-Updated b i (suc zero) bytes h = (
  b',
  record {
    runs = refl;
    bytes = λ q. ground (arith, bytes q);
    same_len = refl;
    reads = λ j. reads_set b i j bytes;
  },
)
  where
    b' : Bitmap
    b' = record b { bits = write_byte b.bits (i / 8) (bit_or (b.bits (i / 8)) (2 ^ (i % 8)) % 256) }
bitmap_set-Updated b i (suc (suc v)) bytes h = absurd (omega arith)

-- A write of 0 or 1 never fails the ASSERT.
pub bitmap_set-done : (b : Bitmap) (i v : ℕ) → v < 2 → (b' : Bitmap) × (bitmap_set b i v ≡ done b')
unfolding bitmap_set
bitmap_set-done b i zero h = (_, refl)
bitmap_set-done b i (suc zero) h = (_, refl)
bitmap_set-done b i (suc (suc v)) h = absurd (omega arith)

-- A scan test is 1 only at the lowest bit of a byte.
pub scan_test-one : (b : Bitmap) (i : ℕ) → IsBytes b → bitmap_scan_test b i ≡ 1 → i % 8 ≡ 0
unfolding bitmap_scan_test
scan_test-one b i bytes e = mask-one (b.bits (i / 8)) (i % 8) (bytes (i / 8)) (omega arith) e

-- The test of the first bit of a byte.
pub scan_test-start :
    (b : Bitmap) (i byte : ℕ)
    → i % 8 ≡ 0
    → b.bits (i / 8) ≡ byte
    → bitmap_scan_test b i ≡ bit_and byte 1
unfolding bitmap_scan_test
scan_test-start b i byte h e = rw (h, e) refl
