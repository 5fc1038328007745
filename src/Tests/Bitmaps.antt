-- ===== src/Tests/Bitmaps.antt =====
-- lib/bitmap.c at two small bitmaps.
use enix.Base.{
  ℕ, ◌≡◌, refl, true, false, Option, none, some, arith, ◌==◌, if◌then◌else◌, for_all_lt,
  for_all_lt_lem, done,
}
use enix.Bitmap.{
  Bitmap, bitmap_scan_test, bitmap_scan, bit_test, scan_bytes, scan_bits, scan_run, IsValid,
  FirstFit,
}
use enix.Bitmap.Search.{scan_limit, bitmap_scan-FirstFit, bitmap_scan_overrun}

-- Two bytes: all set, then 0b00000101.
abbrev two_bytes : Bitmap
two_bytes = record {
  btmp_bytes_len = 2;
  bits = λ i. if i == 0 then 0xFF else (if i == 1 then 0x05 else 0);
}

-- One byte in which only the last bit is free, and a free byte behind it.
abbrev last_free : Bitmap
last_free = record { btmp_bytes_len = 1; bits = λ i. if i == 0 then 0x7F else 0 }

abbrev full : Bitmap
full = record { btmp_bytes_len = 1; bits = λ i. if i == 0 then 0xFF else 0 }

two_bytes-IsValid : IsValid two_bytes
two_bytes-IsValid = record { bytes = λ i. ground arith; small = omega arith }

last_free-IsValid : IsValid last_free
last_free-IsValid = record { bytes = λ i. ground arith; small = omega arith }

full-IsValid : IsValid full
full-IsValid = record { bytes = λ i. ground arith; small = omega arith }

scan_one : bitmap_scan two_bytes 1 ≡ done (some 9)
unfolding bitmap_scan scan_bytes scan_bits
scan_one = refl

scan_pair : bitmap_scan two_bytes 2 ≡ done (some 11)
unfolding bitmap_scan scan_bytes scan_bits scan_run bitmap_scan_test bit_test
scan_pair = refl

scan_nine : bitmap_scan two_bytes 9 ≡ done none
unfolding bitmap_scan scan_bytes scan_bits scan_run bitmap_scan_test bit_test
scan_nine = refl

bitmap_scan-FirstFit_example :
    (r : Option ℕ) × (bitmap_scan two_bytes 2 ≡ done r)
    × FirstFit two_bytes 2 (scan_limit two_bytes 2) r
bitmap_scan-FirstFit_example =
    bitmap_scan-FirstFit two_bytes two_bytes-IsValid 2 1 (omega arith) (omega arith) (omega arith)

below_last : for_all_lt (bitmap_scan_test last_free) 7 ≡ true
unfolding for_all_lt bitmap_scan_test bit_test
below_last = refl

last_bits : (bitmap_scan_test last_free 7 ≡ false) × (bitmap_scan_test last_free 8 ≡ false)
unfolding bitmap_scan_test bit_test
last_bits = (refl, refl)

bitmap_scan_overrun_example : bitmap_scan last_free 2 ≡ done (some 7)
bitmap_scan_overrun_example =
    bitmap_scan_overrun last_free last_free-IsValid 7 refl
      (λ s h. for_all_lt_lem (bitmap_scan_test last_free) 7 s h below_last) last_bits.0 last_bits.1
