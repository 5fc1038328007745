-- ===== src/Tests/Volumes.antt =====
-- A small partition with its root directory, and a file of two blocks.
use enix.Base.{
  ℕ, ◌*◌, ◌<◌, ◌≡◌, ◌≢◌, ◌⊎◌, refl, false, some, arith, ◌==◌, if◌then◌else◌, add32, done, panicked,
  ltb, Bool-cases, inl, inr, ℕ_discrete, ◌+◌, ◌-◌,
}
use enix.Bitmap.{bitmap_scan_test}
use enix.Bitmap.Bytes.{put}
use enix.Inode.{Bytes}
use enix.Volume.{
  SuperBlock, Volume, of_blocks, mount_partition, block_bitmap_alloc, release_bits, all_blocks,
  disk_word,
}
use enix.Volume.Synced.{IsSynced, mount_partition-IsSynced}
use enix.Volume.Allocation.{IsFull, IsTaken, block_bitmap_alloc-bitmap_sync}
use enix.Volume.Release.{AreBlocks, IsBlock, held, release_bits_lem}

abbrev super : SuperBlock
super = record {
  block_bitmap_lba = 2;
  block_bitmap_sects = 1;
  inode_bitmap_lba = 3;
  inode_bitmap_sects = 1;
  data_start_lba = 100;
}

-- Blocks 0 to 4 and inodes 0 and 1 are in use, and block 3 is an indirect table that leads to block 4.
abbrev disk : Bytes
disk a = if a == 1024 then 31 else (if a == 1536 then 3 else (if a == 52736 then 104 else 0))

abbrev volume : Volume
volume = mount_partition super disk

disk_bytes : (a : ℕ) → disk a < 256
disk_bytes a = ground arith

volume-IsSynced : IsSynced volume
volume-IsSynced =
    mount_partition-IsSynced super disk disk_bytes (omega arith) (omega arith) (omega arith)

block_bitmap_alloc-bitmap_sync_example :
    ((block_bitmap_alloc volume ≡ panicked) × IsFull volume.block_bitmap)
    ⊎ ((i : ℕ) × (v1 : Volume) × (block_bitmap_alloc volume
          ≡ done (some (add32 volume.sb.data_start_lba i), v1))
        × IsTaken of_blocks i volume v1
        × (v1.inode_bitmap ≡ volume.inode_bitmap)
        × (v1.disk ≡ volume.disk))
block_bitmap_alloc-bitmap_sync_example = block_bitmap_alloc-bitmap_sync volume volume-IsSynced

-- A file of block 1, and of block 4 in the indirect table that is block 3.
abbrev i_sectors : ℕ → ℕ
i_sectors j = if j == 0 then 101 else (if j == 12 then 103 else 0)

rest_of_table : (a : ℕ) → 52736 < a → a < 53248 → disk a ≡ 0
rest_of_table a lo hi = ground arith

no_more : (j : ℕ) → 12 < j → j < 140 → disk_word disk (103 * 512 + 4 * (j - 12)) ≡ 0
no_more j lo hi =
    rw
      (
        rest_of_table (103 * 512 + 4 * (j - 12)) (omega arith) (omega arith),
        rest_of_table (103 * 512 + 4 * (j - 12) + 1) (omega arith) (omega arith),
        rest_of_table (103 * 512 + 4 * (j - 12) + 2) (omega arith) (omega arith),
        rest_of_table (103 * 512 + 4 * (j - 12) + 3) (omega arith) (omega arith),
      )
      refl

direct-IsBlock : (j : ℕ) → j < 12 → i_sectors j ≢ 0 → IsBlock 100 (8 * 512) (i_sectors j)
direct-IsBlock j lt ne = ground (arith, ne)

indirect-IsBlock :
    (j : ℕ)
    → ¬ (j < 12)
    → j < 140
    → disk_word disk (103 * 512 + 4 * (j - 12)) ≢ 0
    → IsBlock 100 (8 * 512) (disk_word disk (103 * 512 + 4 * (j - 12)))
indirect-IsBlock j hi lt ne = elim (ℕ_discrete j 12) [
  | yes e ↦ rw e (omega arith, omega arith, omega arith)
  | no n ↦ absurd (ne (no_more j (omega arith) lt))
]

two_blocks : AreBlocks 100 (8 * 512) (all_blocks disk i_sectors)
two_blocks j lt = elim (Bool-cases (ltb j 12)) [
  | inl t ↦ rw t (direct-IsBlock j (ground (arith, t)))
  | inr f ↦ rw f (indirect-IsBlock j (λ h. ground (arith, f, h)) lt)
]

table-IsBlock : i_sectors 12 ≢ 0 → IsBlock 100 (8 * 512) (i_sectors 12)
table-IsBlock ne = (omega arith, omega arith, omega arith)

release_bits_lem_example :
    (v' : Volume) × (release_bits 1 i_sectors volume ≡ done v')
    × IsSynced v'
    × ((p : ℕ)
        → bitmap_scan_test v'.block_bitmap p ≡ (
            if held volume.disk i_sectors 100 p
            then false
            else bitmap_scan_test volume.block_bitmap p))
    × ((p : ℕ)
        → bitmap_scan_test v'.inode_bitmap p ≡ put (bitmap_scan_test volume.inode_bitmap) 1 false p)
unfolding mount_partition
release_bits_lem_example =
    release_bits_lem i_sectors volume volume-IsSynced two_blocks table-IsBlock 1 (omega arith)
