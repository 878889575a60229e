-- ===== src/Bitmap/Tests.antt =====
-- Scans and writes of small bitmaps, and the theorems at such bitmaps.
use jat_os.Prelude.{ℕ, ◌≡◌, refl, ◌==◌, if◌then◌else◌, done, panic, arith}
use jat_os.Bitmap.{Bitmap, minus_one, bitmap_scan}
use jat_os.Bitmap.Set.{IsBytes, Updated, bitmap_set-Updated}
use jat_os.Bitmap.Scan.{Scanned, bitmap_scan-Scanned}

-- One byte with bits 0, 1 and 3 taken; the memory behind it holds `next`.
abbrev one_byte : ℕ → Bitmap
one_byte next = record { bits = λ q. if q == 0 then 0b00001011 else next; btmp_bytes_len = 1 }

abbrev last_free : ℕ → Bitmap
last_free next = record { bits = λ q. if q == 0 then 0b01111111 else next; btmp_bytes_len = 1 }

one_byte-IsBytes : IsBytes (one_byte 0xff)
one_byte-IsBytes q = ground arith

scan_one : bitmap_scan (one_byte 0xff) 1 ≡ done 2
unfolding bitmap_scan
scan_one = refl

scan_two : bitmap_scan (one_byte 0xff) 2 ≡ done 4
unfolding bitmap_scan
scan_two = refl

scan_five : bitmap_scan (one_byte 0xff) 5 ≡ done minus_one
unfolding bitmap_scan
scan_five = refl

-- The last bit and a clear bit of the memory behind the bitmap.
scan_past_end : bitmap_scan (last_free 0) 2 ≡ panic
unfolding bitmap_scan
scan_past_end = refl

scan_full : bitmap_scan (record (one_byte 0) { btmp_bytes_len = 0 }) 1 ≡ panic
unfolding bitmap_scan
scan_full = refl

bitmap_scan-Scanned_example : Scanned (one_byte 0xff) 2 (bitmap_scan (one_byte 0xff) 2)
bitmap_scan-Scanned_example =
    bitmap_scan-Scanned (one_byte 0xff) 2 (omega arith) one_byte-IsBytes (omega arith) (omega arith)

bitmap_set-Updated_example : (b' : Bitmap) × Updated (one_byte 0xff) b' 2 1
bitmap_set-Updated_example = bitmap_set-Updated (one_byte 0xff) 2 1 one_byte-IsBytes (omega arith)
