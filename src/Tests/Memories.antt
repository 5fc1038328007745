-- ===== src/Tests/Memories.antt =====
-- kernel/memory.c at two pools of eight pages, the first kernel page shared by two.
use enix.Base.{
  ℕ, not, ◌≡◌, refl, ◌<◌, ◌-◌, ◌+◌, ◌⊎◌, true, if◌then◌else◌, ◌==◌, ltb, update, done, panicked,
  arith, for_all_lt, for_all_lt_lem,
}
use enix.Bitmap.{
  scan_bytes, scan_bits, write_bit, set_byte, Bitmap, bitmap_scan_test, bit_test, IsValid,
}
use enix.Memory.{set_mem, set_bitmap, Frames, pf_kernel, pf_user, palloc, free_a_phy_page}
use enix.Memory.References.{IsConsistent, first, page}
use enix.Memory.Pages.{palloc_lem, free_a_phy_page_lem}

abbrev kernel_bitmap : Bitmap
kernel_bitmap = record { btmp_bytes_len = 1; bits = λ i. if i == 0 then 3 else 0 }

abbrev user_bitmap : Bitmap
user_bitmap = record { btmp_bytes_len = 1; bits = λ i. 0 }

abbrev pub two_pools : Frames
two_pools = record {
  kernel_pool = record {
    pool_bitmap = kernel_bitmap;
    phy_addr_start = 0x200000;
    pool_size = 0x8000;
  };
  user_pool = record { pool_bitmap = user_bitmap; phy_addr_start = 0x208000; pool_size = 0x8000 };
  mem = λ a. if a == 0 then 2 else (if a == 1 then 1 else 0);
}

kernel_bitmap-IsValid : IsValid kernel_bitmap
kernel_bitmap-IsValid = record { bytes = λ i. ground arith; small = omega arith }

user_bitmap-IsValid : IsValid user_bitmap
user_bitmap-IsValid = record { bytes = λ i. omega arith; small = omega arith }

kernel_table :
    for_all_lt (λ k. if bitmap_scan_test kernel_bitmap k then ltb k 2 else not (ltb k 2)) 8 ≡ true
unfolding for_all_lt bitmap_scan_test bit_test
kernel_table = refl

user_table : for_all_lt (λ k. not (bitmap_scan_test user_bitmap k)) 8 ≡ true
unfolding for_all_lt bitmap_scan_test bit_test
user_table = refl

two_pools-IsConsistent : IsConsistent two_pools
two_pools-IsConsistent = record {
  valid = elim [ pf_kernel ↦ kernel_bitmap-IsValid | pf_user ↦ user_bitmap-IsValid ];
  start = elim [ pf_kernel ↦ refl | pf_user ↦ refl ];
  within = elim [ pf_kernel ↦ omega arith | pf_user ↦ omega arith ];
  apart = omega arith;
  counts = elim [
    | pf_kernel ↦ λ k h. ground (
      arith,
      for_all_lt_lem (λ k. if bitmap_scan_test kernel_bitmap k then ltb k 2 else not (ltb k 2)) 8 k
          h kernel_table,
    )
    | pf_user ↦ λ k h.
        ground (arith, for_all_lt_lem (λ k. not (bitmap_scan_test user_bitmap k)) 8 k h user_table)
  ];
}

-- The lowest free page of the kernel pool is its third.
abbrev pub one_more : Frames
unfolding write_bit set_byte
one_more = set_mem 2 1 (set_bitmap pf_kernel (write_bit kernel_bitmap 2 1) two_pools)

pub palloc_test : palloc pf_kernel two_pools ≡ done (0x202000, one_more)
unfolding palloc write_bit set_byte scan_bytes scan_bits
palloc_test = refl

palloc_lem_example :
    ((palloc pf_kernel two_pools ≡ panicked)
      × ((k : ℕ) → k < 8 → 0 < two_pools.mem (first pf_kernel two_pools + k)))
    ⊎ ((k : ℕ) × (f' : Frames) × (palloc pf_kernel two_pools
          ≡ done (page pf_kernel k two_pools, f'))
        × (k < 8)
        × (two_pools.mem (first pf_kernel two_pools + k) ≡ 0)
        × ((a : ℕ) → f'.mem a ≡ update two_pools.mem (first pf_kernel two_pools + k) 1 a)
        × IsConsistent f')
palloc_lem_example = palloc_lem two_pools two_pools-IsConsistent pf_kernel

free_a_phy_page_lem_example :
    ((two_pools.mem 1 ≡ 0) × (free_a_phy_page 0x201000 two_pools ≡ panicked))
    ⊎ ((f' : Frames) × (0 < two_pools.mem 1)
        × (free_a_phy_page 0x201000 two_pools ≡ done f')
        × ((a : ℕ) → f'.mem a ≡ update two_pools.mem 1 (two_pools.mem 1 - 1) a)
        × IsConsistent f')
free_a_phy_page_lem_example =
    free_a_phy_page_lem two_pools two_pools-IsConsistent pf_kernel 1 (omega arith)
