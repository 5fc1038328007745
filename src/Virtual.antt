-- ===== src/Virtual.antt =====
-- kernel/memory.c: the pools of virtual pages, vaddr_get and vaddr_remove.
--
-- The pool is the kernel's or that of the running process, as the flag says.
pub mod Pages
use enix.Base.{
  ℕ, zero, suc, ◌+◌, ◌-◌, ◌*◌, ◌/◌, ◌%◌, Bool, true, false, Option, none, some, ltb, add32, sub32,
  u32_mod, Run, done, ◌>>=◌, ◌>>◌, assert,
}
use enix.Bitmap.{Bitmap, bitmap_scan, bitmap_set}
use enix.Memory.{PoolFlags, pf_kernel, pf_user, pg_size}

-- struct virtual_addr
pub record VirtualAddr : Type 0 where
  pub vaddr_bitmap : Bitmap
  pub vaddr_start : ℕ

-- while (cnt < pg_cnt) bitmap_set(..., bit_idx_start + cnt++, value), by the rounds left
unfoldable pub set_pages : ℕ → ℕ → ℕ → Bitmap → Run Bitmap
set_pages zero bit_idx value b = done b
set_pages (suc left) bit_idx value b = do
  b' ← bitmap_set b bit_idx value
  set_pages left (add32 bit_idx 1) value b'

-- The ASSERT that keeps the page of the user's stack free.
abbrev pub below_stack : PoolFlags → ℕ → Bool
below_stack pf_kernel vaddr_start = true
below_stack pf_user vaddr_start = ltb vaddr_start (0xC0000000 - pg_size)

-- vaddr_get behind the search; NULL, which is 0, where that returns -1.
unfoldable pub take_pages : PoolFlags → ℕ → Option ℕ → VirtualAddr → Run (ℕ × VirtualAddr)
unfolding set_pages
take_pages pf pg_cnt none v = done (0, v)
take_pages pf pg_cnt (some bit_idx_start) v = do
  b ← set_pages pg_cnt bit_idx_start 1 v.vaddr_bitmap
  let vaddr_start = add32 v.vaddr_start (bit_idx_start * pg_size % u32_mod)
  assert (below_stack pf vaddr_start)
  done (vaddr_start, record v { vaddr_bitmap = b })

unfoldable pub vaddr_get : PoolFlags → ℕ → VirtualAddr → Run (ℕ × VirtualAddr)
unfolding take_pages
vaddr_get pf pg_cnt v = do
  bit_idx_start ← bitmap_scan v.vaddr_bitmap pg_cnt
  take_pages pf pg_cnt bit_idx_start v

unfoldable pub vaddr_remove : ℕ → ℕ → VirtualAddr → Run VirtualAddr
unfolding set_pages
vaddr_remove vaddr pg_cnt v = do
  b ← set_pages pg_cnt (sub32 vaddr v.vaddr_start / pg_size) 0 v.vaddr_bitmap
  done (record v { vaddr_bitmap = b })
