-- ===== src/Memory.antt =====
-- kernel/memory.c: the physical pages, two pools of them and a count of the references to each.
--
-- The pools' mutex is left out: these functions run under it and do not touch it.
pub mod References
pub mod Pages
use enix.Base.{
  ℕ, ◌+◌, ◌-◌, ◌*◌, ◌/◌, ◌%◌, Option, none, some, ltb, leb, ◌==◌, if◌then◌else◌, add32, sub32,
  u32_mod, update, Run, done, ◌>>=◌, ◌>>◌, assert,
}
use enix.Bitmap.{Bitmap, bitmap_scan, bitmap_set}

abbrev pub pg_size : ℕ
pg_size = 4096

-- enum pool_flags
pub data PoolFlags : Type 0 where
  pf_kernel pf_user : PoolFlags

-- struct pool
pub record Pool : Type 0 where
  pub pool_bitmap : Bitmap
  pub phy_addr_start : ℕ
  pub pool_size : ℕ

-- The pools and the array `mem`, which counts the references to each page.
pub record Frames : Type 0 where
  pub kernel_pool : Pool
  pub user_pool : Pool
  pub mem : ℕ → ℕ

abbrev pub pool : PoolFlags → Frames → Pool
pool pf_kernel f = f.kernel_pool
pool pf_user f = f.user_pool

abbrev pub set_bitmap : PoolFlags → Bitmap → Frames → Frames
set_bitmap pf_kernel b f =
    let p = f.kernel_pool in record f { kernel_pool = record p { pool_bitmap = b } }
set_bitmap pf_user b f =
    let p = f.user_pool in record f { user_pool = record p { pool_bitmap = b } }

-- mem_idx(addr)
abbrev pub mem_idx : ℕ → ℕ
mem_idx addr = sub32 addr 0x200000 / pg_size

abbrev pub set_mem : ℕ → ℕ → Frames → Frames
set_mem idx count f = record f { mem = update f.mem idx count }

-- palloc behind the search: the page of a free bit, or NULL, which is 0.
unfoldable pub take_page : PoolFlags → Option ℕ → Frames → Run (ℕ × Frames)
unfolding bitmap_set
take_page pf none f = done (0, f)
take_page pf (some bit_idx) f = do
  b ← bitmap_set (pool pf f).pool_bitmap bit_idx 1
  let page_phyaddr = add32 (bit_idx * pg_size % u32_mod) (pool pf f).phy_addr_start
  done (page_phyaddr, set_mem (mem_idx page_phyaddr) 1 (set_bitmap pf b f))

unfoldable pub palloc : PoolFlags → Frames → Run (ℕ × Frames)
unfolding bitmap_scan take_page
palloc pf f = do bit_idx ← bitmap_scan (pool pf f).pool_bitmap 1; take_page pf bit_idx f

-- The pool that an address lies in: all from the start of the user pool on are the user's.
abbrev pub pool_of : ℕ → Frames → PoolFlags
pool_of pg_phy_page f = if leb f.user_pool.phy_addr_start pg_phy_page then pf_user else pf_kernel

-- The last reference goes: the page's bit is cleared, and then its count.
unfoldable pub release_page : ℕ → Frames → Run Frames
unfolding bitmap_set
release_page pg_phy_page f =
    let pf = pool_of pg_phy_page f in
    let bit_idx = sub32 pg_phy_page (pool pf f).phy_addr_start / pg_size in
    do
      b ← bitmap_set (pool pf f).pool_bitmap bit_idx 0
      done (set_mem (mem_idx pg_phy_page) 0 (set_bitmap pf b f))

unfoldable pub free_a_phy_page : ℕ → Frames → Run Frames
unfolding release_page
free_a_phy_page pg_phy_page f =
    let count = f.mem (mem_idx pg_phy_page) in
    let shared = set_mem (mem_idx pg_phy_page) (count - 1) f in
    if ltb 1 count then done shared else (assert (count == 1) >> release_page pg_phy_page f)

-- mem[mem_idx(pvaddr)]++ when a fork shares the page, modulo 2 ^ 8.
unfoldable pub share_page : ℕ → Frames → Frames
share_page pvaddr f = set_mem (mem_idx pvaddr) ((f.mem (mem_idx pvaddr) + 1) % 256) f
