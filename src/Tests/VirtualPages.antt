-- ===== src/Tests/VirtualPages.antt =====
-- Three pages of a user pool whose first two are in use.
use enix.Base.{ℕ, zero, suc, ◌≡◌, refl, true, some, arith, if◌then◌else◌, ◌==◌, done}
use enix.Bitmap.{
  scan_bytes, scan_run, scan_bits, bit_test, bitmap_scan, bitmap_scan_test, IsValid, Free,
}
use enix.Memory.{pf_user}
use enix.Virtual.{VirtualAddr, vaddr_get, vaddr_remove}
use enix.Virtual.Pages.{in_run, vaddr_get-vaddr_remove}

abbrev user_pages : VirtualAddr
user_pages = record {
  vaddr_bitmap = record { btmp_bytes_len = 4; bits = λ i. if i == 0 then 3 else 0 };
  vaddr_start = 134512640;
}

user_pages-IsValid : IsValid user_pages.vaddr_bitmap
user_pages-IsValid = record { bytes = λ i. ground arith; small = omega arith }

scanned : bitmap_scan user_pages.vaddr_bitmap 3 ≡ done (some 2)
unfolding bitmap_scan scan_bytes scan_run scan_bits bitmap_scan_test bit_test
scanned = refl

run_of_three : Free user_pages.vaddr_bitmap 2 3
unfolding bitmap_scan_test bit_test
run_of_three zero h = refl
run_of_three (suc zero) h = refl
run_of_three (suc (suc zero)) h = refl
run_of_three (suc (suc (suc j))) h = absurd (omega (arith, h))

vaddr_get-vaddr_remove_example :
    (v1 : VirtualAddr) × (vaddr_get pf_user 3 user_pages ≡ done (134520832, v1))
    × ((p : ℕ)
        → bitmap_scan_test v1.vaddr_bitmap p
          ≡ (if in_run 2 3 p then true else bitmap_scan_test user_pages.vaddr_bitmap p))
    × (v2 : VirtualAddr) × (vaddr_remove 134520832 3 v1 ≡ done v2)
    × ((p : ℕ) → bitmap_scan_test v2.vaddr_bitmap p ≡ bitmap_scan_test user_pages.vaddr_bitmap p)
vaddr_get-vaddr_remove_example =
    vaddr_get-vaddr_remove pf_user 3 2 user_pages user_pages-IsValid scanned run_of_three
      (omega arith) refl
