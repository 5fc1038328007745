-- ===== src/Memory/References.antt =====
-- What it means that the bitmaps and the reference counts are in step, and which changes keep it.
use enix.Base.{ℕ, ◌+◌, ◌-◌, ◌*◌, ◌/◌, ◌≤◌, ◌<◌, ◌≡◌, refl, ap, true, false, arith, ltb, leb, update}
use enix.Bitmap.{Bitmap, bitmap_scan_test, IsValid}
use enix.Bitmap.Bytes.{put}
use enix.Memory.{
  pg_size, PoolFlags, pf_kernel, pf_user, Frames, pool, set_bitmap, mem_idx, set_mem, pool_of,
}

abbrev pub pages : PoolFlags → Frames → ℕ
pages pf f = 8 * (pool pf f).pool_bitmap.btmp_bytes_len

-- The index of the pool's first page in `mem`.
abbrev pub first : PoolFlags → Frames → ℕ
first pf f = ((pool pf f).phy_addr_start - 0x200000) / pg_size

-- The address of a page of a pool.
abbrev pub page : PoolFlags → ℕ → Frames → ℕ
page pf k f = (pool pf f).phy_addr_start + k * pg_size

-- The pools lie one behind the other, all their pages have a place in `mem`, and a page's bit is set
-- exactly where its count is not 0.
pub record IsConsistent (f : Frames) : Type 0 where
  pub valid : (pf : PoolFlags) → IsValid (pool pf f).pool_bitmap
  pub start : (pf : PoolFlags) → (pool pf f).phy_addr_start ≡ 0x200000 + first pf f * pg_size
  pub within : (pf : PoolFlags) → first pf f + pages pf f ≤ 7800
  pub apart : first pf_kernel f + pages pf_kernel f ≤ first pf_user f
  pub counts :
      (pf : PoolFlags) (k : ℕ)
      → k < pages pf f
      → bitmap_scan_test (pool pf f).pool_bitmap k ≡ ltb 0 (f.mem (first pf f + k))

pub set_bitmap-mem : (pf : PoolFlags) (b : Bitmap) (f : Frames) → (set_bitmap pf b f).mem ≡ f.mem
set_bitmap-mem pf_kernel b f = refl
set_bitmap-mem pf_user b f = refl

-- The state with a new bitmap for a pool and a new count for its page `i`.
abbrev pub changed : PoolFlags → ℕ → ℕ → Bitmap → Frames → Frames
changed pf i count b f = set_mem (first pf f + i) count (set_bitmap pf b f)

pub changed-mem :
    (pf : PoolFlags) (i count : ℕ) (b : Bitmap) (f : Frames) (a : ℕ)
    → (changed pf i count b f).mem a ≡ update f.mem (first pf f + i) count a
changed-mem pf i count b f a = ap (λ m. update m (first pf f + i) count a) (set_bitmap-mem pf b f)

module _ (f : Frames) (c : IsConsistent f) where
  -- One bit and the count of its page change together.
  pub change-IsConsistent :
      (pf : PoolFlags) (i count : ℕ) (b : Bitmap)
      → i < pages pf f
      → IsValid b
      → b.btmp_bytes_len ≡ (pool pf f).pool_bitmap.btmp_bytes_len
      → ((k : ℕ)
          → bitmap_scan_test b k ≡ put (bitmap_scan_test (pool pf f).pool_bitmap) i (ltb 0 count) k)
      → IsConsistent (changed pf i count b f)
  change-IsConsistent pf_kernel i count b lt v len bits =
      let e : 8 * b.btmp_bytes_len ≡ pages pf_kernel f = ap (λ l. 8 * l) len in
      record {
        valid = elim [ pf_kernel ↦ v | pf_user ↦ c.valid pf_user ];
        start = elim [ pf_kernel ↦ c.start pf_kernel | pf_user ↦ c.start pf_user ];
        within = elim [
          | pf_kernel ↦ omega (arith, e, c.within pf_kernel)
          | pf_user ↦ c.within pf_user
        ];
        apart = omega (arith, e, c.apart);
        counts = elim [
          | pf_kernel ↦ λ k h. ground (arith, bits k, c.counts pf_kernel k)
          | pf_user ↦ λ k h. ground (arith, c.counts pf_user k h, c.apart)
        ];
      }
  change-IsConsistent pf_user i count b lt v len bits =
      let e : 8 * b.btmp_bytes_len ≡ pages pf_user f = ap (λ l. 8 * l) len in
      record {
        valid = elim [ pf_kernel ↦ c.valid pf_kernel | pf_user ↦ v ];
        start = elim [ pf_kernel ↦ c.start pf_kernel | pf_user ↦ c.start pf_user ];
        within = elim [
          | pf_kernel ↦ c.within pf_kernel
          | pf_user ↦ omega (arith, e, c.within pf_user)
        ];
        apart = c.apart;
        counts = elim [
          | pf_kernel ↦ λ k h. ground (arith, c.counts pf_kernel k h, c.apart)
          | pf_user ↦ λ k h. ground (arith, bits k, c.counts pf_user k)
        ];
      }

  -- The count of a page changes, and stays on its side of 0.
  pub recount-IsConsistent :
      (pf : PoolFlags) (i count : ℕ)
      → i < pages pf f
      → ltb 0 count ≡ ltb 0 (f.mem (first pf f + i))
      → IsConsistent (set_mem (first pf f + i) count f)
  recount-IsConsistent pf i count lt same = record {
    valid = elim [ pf_kernel ↦ c.valid pf_kernel | pf_user ↦ c.valid pf_user ];
    start = elim [ pf_kernel ↦ c.start pf_kernel | pf_user ↦ c.start pf_user ];
    within = elim [ pf_kernel ↦ c.within pf_kernel | pf_user ↦ c.within pf_user ];
    apart = c.apart;
    counts = elim [
      | pf_kernel ↦ λ k h. ground (arith, c.counts pf_kernel k h, same)
      | pf_user ↦ λ k h. ground (arith, c.counts pf_user k h, same)
    ];
  }

  pub mem_idx-page :
      (pf : PoolFlags) (k : ℕ) → k < pages pf f → mem_idx (page pf k f) ≡ first pf f + k
  mem_idx-page pf k h = omega (arith, c.start pf, c.within pf)

  pub pool_of-page : (pf : PoolFlags) (k : ℕ) → k < pages pf f → pool_of (page pf k f) f ≡ pf
  pool_of-page pf_kernel k h =
      let past : leb f.user_pool.phy_addr_start (page pf_kernel k f) ≡ false =
        ground (arith, c.start pf_kernel, c.start pf_user, c.apart) in
      rw past refl
  pool_of-page pf_user k h =
      let user : leb f.user_pool.phy_addr_start (page pf_user k f) ≡ true = ground arith in
      rw user refl
