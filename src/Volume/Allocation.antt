-- ===== src/Volume/Allocation.antt =====
-- Bits that are allocated in memory and then brought to the disk.
use enix.Base.{
  ℕ, ◌*◌, ◌≡◌, ◌<◌, ◌⊎◌, inl, inr, refl, true, false, some, arith, add32, done, panicked,
}
use enix.Bitmap.{Bitmap, bitmap_scan_test, write_bit}
use enix.Bitmap.Bytes.{put, bitmap_set_lem}
use enix.Bitmap.OneBit.{bitmap_scan-OneBit}
use enix.Volume.{
  Volume, BitmapType, of_inodes, of_blocks, bitmap_of, set_bitmap, take_bit, inode_bitmap_alloc,
  block_bitmap_alloc, bitmap_sync,
}
use enix.Volume.Synced.{IsSynced, written-IsSynced}

-- All bits of a bitmap are set.
abbrev pub IsFull : Bitmap → Type 0
IsFull b = (p : ℕ) → p < 8 * b.btmp_bytes_len → bitmap_scan_test b p ≡ true

-- Bit `i`, the lowest that is free, is taken in `v1`: one bit changes, and bitmap_sync of it brings
-- memory and disk together again.
pub record IsTaken (kind : BitmapType) (i : ℕ) (v v1 : Volume) : Type 0 where
  pub inside : i < 8 * (bitmap_of kind v).btmp_bytes_len
  pub was_free : bitmap_scan_test (bitmap_of kind v) i ≡ false
  pub lowest : (p : ℕ) → p < i → bitmap_scan_test (bitmap_of kind v) p ≡ true
  pub bits :
      (p : ℕ)
      → bitmap_scan_test (bitmap_of kind v1) p ≡ put (bitmap_scan_test (bitmap_of kind v)) i true p
  pub same_super : v1.sb ≡ v.sb
  pub synced : IsSynced (bitmap_sync i kind v1)

-- From bitmaps that agree with the disk, inode_bitmap_alloc stops the kernel if all inodes are in use.
-- Otherwise it takes the lowest free inode and returns its number, and bitmap_sync of that bit makes
-- memory and disk agree again.
inode_bitmap_alloc-bitmap_sync :
    (v : Volume)
    → IsSynced v
    → ((inode_bitmap_alloc v ≡ panicked) × IsFull v.inode_bitmap)
      ⊎ ((i : ℕ) × (v1 : Volume) × (inode_bitmap_alloc v ≡ done (some i, v1))
          × IsTaken of_inodes i v v1
          × (v1.block_bitmap ≡ v.block_bitmap)
          × (v1.disk ≡ v.disk))
unfolding inode_bitmap_alloc take_bit
inode_bitmap_alloc-bitmap_sync v s = elim (bitmap_scan-OneBit v.inode_bitmap (s.valid of_inodes)) [
  | inl (run, full) ↦ inl (rw run refl, full)
  | inr (i, run, lt, free, below) ↦
      let w = bitmap_set_lem v.inode_bitmap i 1 (s.valid of_inodes) (omega arith) in
      inr (
        i,
        set_bitmap of_inodes (write_bit v.inode_bitmap i 1) v,
        rw run refl,
        record {
          inside = lt;
          was_free = free;
          lowest = below;
          bits = w.3;
          same_super = refl;
          synced = written-IsSynced v s i 1 (omega arith) of_inodes lt;
        },
        refl,
        refl,
      )
]

-- From bitmaps that agree with the disk, block_bitmap_alloc stops the kernel if all blocks are in use.
-- Otherwise it takes the lowest free block and returns its sector, and bitmap_sync of that bit makes
-- memory and disk agree again.
pub block_bitmap_alloc-bitmap_sync :
    (v : Volume)
    → IsSynced v
    → ((block_bitmap_alloc v ≡ panicked) × IsFull v.block_bitmap)
      ⊎ ((i : ℕ) × (v1 : Volume) × (block_bitmap_alloc v
            ≡ done (some (add32 v.sb.data_start_lba i), v1))
          × IsTaken of_blocks i v v1
          × (v1.inode_bitmap ≡ v.inode_bitmap)
          × (v1.disk ≡ v.disk))
unfolding block_bitmap_alloc take_bit
block_bitmap_alloc-bitmap_sync v s = elim (bitmap_scan-OneBit v.block_bitmap (s.valid of_blocks)) [
  | inl (run, full) ↦ inl (rw run refl, full)
  | inr (i, run, lt, free, below) ↦
      let w = bitmap_set_lem v.block_bitmap i 1 (s.valid of_blocks) (omega arith) in
      inr (
        i,
        set_bitmap of_blocks (write_bit v.block_bitmap i 1) v,
        rw run refl,
        record {
          inside = lt;
          was_free = free;
          lowest = below;
          bits = w.3;
          same_super = refl;
          synced = written-IsSynced v s i 1 (omega arith) of_blocks lt;
        },
        refl,
        refl,
      )
]
