-- ===== src/Bitmap.antt =====
-- kernel/memop/bitmap.c: one bit for each page, sector or inode; a set bit means taken.
pub mod Byte
pub mod Set
pub mod Run
pub mod Scan
pub mod Init
mod Tests
use jat_os.Prelude.{
  ℕ, zero, suc, ◌+◌, ◌-◌, ◌*◌, ◌/◌, ◌%◌, ◌^◌, Bool, true, false, not, ◌&&◌, ◌||◌, bit_and, bit_or,
  ltb, ◌==◌, if◌then◌else◌, Outcome, done, out_of_fuel, ◌>>=◌, ◌>>◌, assert,
}

-- `struct bitmap`. `bits` is the memory from the pointer on, also behind the last byte.
pub record Bitmap : Type 0 where
  pub bits : ℕ → ℕ
  pub btmp_bytes_len : ℕ

-- The `int` -1 as a bit pattern.
abbrev pub minus_one : ℕ
minus_one = 2 ^ 32 - 1

abbrev pub u32 : ℕ → ℕ
u32 n = n % 2 ^ 32

abbrev pub write_byte : (ℕ → ℕ) → ℕ → ℕ → ℕ → ℕ
write_byte m p v q = if p == q then v else m q

-- `memset(bits, 0, len)`, whose ASSERT wants a length above 0.
pub bitmap_init : Bitmap → Outcome Bitmap
bitmap_init b = do
  assert (ltb 0 b.btmp_bytes_len)
  done (record b { bits = λ q. if ltb q b.btmp_bytes_len then 0 else b.bits q })

-- The masked byte itself, not 0 or 1.
pub bitmap_scan_test : Bitmap → ℕ → ℕ
bitmap_scan_test b bit_idx = bit_and (b.bits (bit_idx / 8)) (2 ^ (bit_idx % 8))

-- `while ((0xff == bits[idx_byte]) && (idx_byte < len)) idx_byte++`
pub skip_full : ℕ → Bitmap → ℕ → Outcome ℕ
skip_full zero b idx_byte = out_of_fuel
skip_full (suc fuel) b idx_byte =
    elim ((0xff == b.bits idx_byte) && ltb idx_byte b.btmp_bytes_len) [
      | true ↦ skip_full fuel b (u32 (idx_byte + 1))
      | false ↦ done idx_byte
    ]

-- `while ((uint8_t)(BITMAP_MASK << idx_bit) & byte) idx_bit++`
pub first_clear : ℕ → ℕ → ℕ → Outcome ℕ
first_clear zero byte idx_bit = out_of_fuel
first_clear (suc fuel) byte idx_bit = elim (bit_and (2 ^ idx_bit % 256) byte == 0) [
  | true ↦ done idx_bit
  | false ↦ first_clear fuel byte ((idx_bit + 1) % 256)
]

-- The loop on `bit_left`: the start of the run, or -1, and `bit_left` behind the loop, which has
-- wrapped when the test failed.
pub find_run : Bitmap → (cnt bit_left next_bit count : ℕ) → ℕ × ℕ
find_run b cnt zero next_bit count = (minus_one, 2 ^ 32 - 1)
find_run b cnt (suc bit_left) next_bit count =
    let count' = if bitmap_scan_test b next_bit == 0 then u32 (count + 1) else 0 in
    let rest = find_run b cnt bit_left (u32 (next_bit + 1)) count' in
    if count' == cnt then (u32 (next_bit + 2 ^ 32 - cnt + 1), bit_left) else rest

-- The loops run on one round more than there are bytes, and on nine rounds: `2 ^ 8 % 256` is 0.
pub bitmap_scan : Bitmap → ℕ → Outcome ℕ
unfolding bitmap_scan_test skip_full first_clear find_run
bitmap_scan b cnt = do
  idx_byte ← skip_full (b.btmp_bytes_len + 1) b 0
  assert (ltb idx_byte b.btmp_bytes_len)
  if idx_byte == b.btmp_bytes_len then done minus_one else do
    idx_bit ← first_clear 9 (b.bits idx_byte) 0
    let start = u32 (idx_byte * 8 + idx_bit)
    if cnt == 1 then done start else do
      let bit_left = u32 (b.btmp_bytes_len * 8 + 2 ^ 32 - start)
      let found = find_run b cnt bit_left (u32 (start + 1)) 1
      assert (not (found.1 == 0))
      done found.0

pub bitmap_set : Bitmap → ℕ → ℕ → Outcome Bitmap
bitmap_set b bit_idx value = do
  assert ((value == 0) || (value == 1))
  let byte_idx = bit_idx / 8
  let mask = 2 ^ (bit_idx % 8)
  let old = b.bits byte_idx
  let new = if value == 0 then bit_and old (255 - mask) else bit_or old mask % 256
  done (record b { bits = write_byte b.bits byte_idx new })
