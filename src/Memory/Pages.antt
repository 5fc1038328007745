-- ===== src/Memory/Pages.antt =====
-- palloc, free_a_phy_page and share_page keep the bitmaps and the reference counts in step.
use enix.Base.{
  ℕ, ◌+◌, ◌-◌, ◌*◌, ◌/◌, ◌%◌, ◌<◌, ◌≡◌, refl, ◌⊎◌, inl, inr, ◌∙◌, true, some, arith, ltb, add32,
  sub32, u32_mod, update, done, panicked,
}
use enix.Bitmap.{set_byte, write_bit}
use enix.Bitmap.Bytes.{bitmap_set_lem}
use enix.Bitmap.OneBit.{bitmap_scan-OneBit}
use enix.Memory.{
  pg_size, PoolFlags, Frames, pool, set_mem, take_page, palloc, release_page, free_a_phy_page,
  share_page,
}
use enix.Memory.References.{
  pages, first, page, IsConsistent, changed, changed-mem, change-IsConsistent, recount-IsConsistent,
  mem_idx-page, pool_of-page,
}

references : (count : ℕ) → ((count ≡ 0) ⊎ (count ≡ 1)) ⊎ (1 < count)
references count = ground arith

module _ (f : Frames) (c : IsConsistent f) where
  take_page_lem :
      (pf : PoolFlags) (i : ℕ)
      → i < pages pf f
      → take_page pf (some i) f
        ≡ done (page pf i f, changed pf i 1 (write_bit (pool pf f).pool_bitmap i 1) f)
  unfolding take_page write_bit set_byte
  take_page_lem pf i lt =
      let addr : add32 (i * pg_size % u32_mod) (pool pf f).phy_addr_start ≡ page pf i f =
        omega (arith, c.start pf, c.within pf) in
      rw (addr, mem_idx-page f c pf i lt) refl

  release_page_lem :
      (pf : PoolFlags) (i : ℕ)
      → i < pages pf f
      → release_page (page pf i f) f
        ≡ done (changed pf i 0 (write_bit (pool pf f).pool_bitmap i 0) f)
  unfolding release_page write_bit set_byte
  release_page_lem pf i lt =
      let bit : sub32 (page pf i f) (pool pf f).phy_addr_start / pg_size ≡ i =
        omega (arith, c.start pf, c.within pf) in
      rw (pool_of-page f c pf i lt, bit, mem_idx-page f c pf i lt) refl

  -- From a consistent state palloc stops the kernel if all pages of the pool are in use. Otherwise it
  -- returns the address of a page that nobody uses, now with one reference; all other counts are as
  -- before, and the state is consistent again.
  pub palloc_lem :
      (pf : PoolFlags)
      → ((palloc pf f ≡ panicked) × ((k : ℕ) → k < pages pf f → 0 < f.mem (first pf f + k)))
        ⊎ ((k : ℕ) × (f' : Frames) × (palloc pf f ≡ done (page pf k f, f'))
            × (k < pages pf f)
            × (f.mem (first pf f + k) ≡ 0)
            × ((a : ℕ) → f'.mem a ≡ update f.mem (first pf f + k) 1 a)
            × IsConsistent f')
  unfolding palloc
  palloc_lem pf = elim (bitmap_scan-OneBit (pool pf f).pool_bitmap (c.valid pf)) [
    | inl (run, full) ↦ inl (rw run refl, λ k h. ground (arith, c.counts pf k h, full k h))
    | inr (i, run, lt, free, below) ↦
        let b = write_bit (pool pf f).pool_bitmap i 1 in
        let (set, v, len, bits) =
          bitmap_set_lem (pool pf f).pool_bitmap i 1 (c.valid pf) (omega arith) in
        inr (
          i,
          changed pf i 1 b f,
          rw run (take_page_lem pf i lt),
          lt,
          ground (arith, c.counts pf i lt, free),
          changed-mem pf i 1 b f,
          change-IsConsistent f c pf i 1 b lt v len bits,
        )
  ]

  last_reference :
      (pf : PoolFlags) (k : ℕ)
      → k < pages pf f
      → f.mem (first pf f + k) ≡ 1
      → free_a_phy_page (page pf k f) f ≡ release_page (page pf k f) f
  unfolding free_a_phy_page
  last_reference pf k lt one = rw (mem_idx-page f c pf k lt, one) refl

  -- From a consistent state free_a_phy_page of a page of a pool stops the kernel if the page is not in
  -- use. Otherwise the page has one reference less, all other counts are as before, and the state is
  -- consistent again: with the last reference the page's bit is cleared.
  pub free_a_phy_page_lem :
      (pf : PoolFlags) (k : ℕ)
      → k < pages pf f
      → ((f.mem (first pf f + k) ≡ 0) × (free_a_phy_page (page pf k f) f ≡ panicked))
        ⊎ ((f' : Frames) × (0 < f.mem (first pf f + k))
            × (free_a_phy_page (page pf k f) f ≡ done f')
            × ((a : ℕ) → f'.mem a ≡ update f.mem (first pf f + k) (f.mem (first pf f + k) - 1) a)
            × IsConsistent f')
  unfolding free_a_phy_page release_page
  free_a_phy_page_lem pf k lt = elim (references (f.mem (first pf f + k))) [
    | inl (inl none_left) ↦ inl (none_left, rw (mem_idx-page f c pf k lt, none_left) refl)
    | inl (inr one) ↦
        let b = write_bit (pool pf f).pool_bitmap k 0 in
        let (set, v, len, bits) =
          bitmap_set_lem (pool pf f).pool_bitmap k 0 (c.valid pf) (omega arith) in
        inr (
          changed pf k 0 b f,
          omega arith,
          last_reference pf k lt one ∙ release_page_lem pf k lt,
          (λ a. changed-mem pf k 0 b f a ∙ ground (arith, one)),
          change-IsConsistent f c pf k 0 b lt v len bits,
        )
    | inr more ↦
        let several : ltb 1 (f.mem (first pf f + k)) ≡ true = ground arith in
        inr (
          set_mem (first pf f + k) (f.mem (first pf f + k) - 1) f,
          omega arith,
          rw (mem_idx-page f c pf k lt, several) refl,
          (λ a. refl),
          recount-IsConsistent f c pf k (f.mem (first pf f + k) - 1) lt (ground arith),
        )
  ]

  -- A fork's share_page of a page that has from 1 to 254 references adds one, leaves all other counts
  -- as they are, and keeps the state consistent.
  share_page_lem :
      (pf : PoolFlags) (k : ℕ)
      → k < pages pf f
      → 0 < f.mem (first pf f + k)
      → f.mem (first pf f + k) < 255
      → ((a : ℕ)
          → (share_page (page pf k f) f).mem a
            ≡ update f.mem (first pf f + k) (f.mem (first pf f + k) + 1) a)
        × IsConsistent (share_page (page pf k f) f)
  unfolding share_page
  share_page_lem pf k lt used small =
      let next : (f.mem (first pf f + k) + 1) % 256 ≡ f.mem (first pf f + k) + 1 = omega arith in
      rw (mem_idx-page f c pf k lt, next)
        ((λ a. refl), recount-IsConsistent f c pf k (f.mem (first pf f + k) + 1) lt (ground arith))
