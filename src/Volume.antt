-- ===== src/Volume.antt =====
-- fs/file.c, fs/inode.c and fs/fs.c: the bitmaps of a partition in memory and on its disk.
--
-- A disk is that of Inode; what a bitmap holds behind its last byte is 0 after the mount. The current
-- partition is the one that is worked on.
pub mod Synced
pub mod Allocation
pub mod Release
use enix.Base.{
  ℕ, zero, suc, ◌+◌, ◌-◌, ◌*◌, ◌/◌, ◌%◌, Bool, true, false, not, Option, none, some, List, [], ◌∷◌,
  ltb, ◌==◌, if◌then◌else◌, add32, sub32, update, Run, done, ◌>>=◌, ◌>>◌, assert,
}
use enix.Bitmap.{Bitmap, bitmap_scan, bitmap_set}
use enix.Inode.{Bytes, ide_read, ide_write}

-- The fields of struct super_block that are used here.
pub record SuperBlock : Type 0 where
  pub block_bitmap_lba : ℕ
  pub block_bitmap_sects : ℕ
  pub inode_bitmap_lba : ℕ
  pub inode_bitmap_sects : ℕ
  pub data_start_lba : ℕ

-- The bitmaps of struct partition, and its disk.
pub record Volume : Type 0 where
  pub sb : SuperBlock
  pub block_bitmap : Bitmap
  pub inode_bitmap : Bitmap
  pub disk : Bytes

-- enum bitmap_type
pub data BitmapType : Type 0 where
  of_inodes of_blocks : BitmapType

abbrev pub bitmap_of : BitmapType → Volume → Bitmap
bitmap_of of_inodes v = v.inode_bitmap
bitmap_of of_blocks v = v.block_bitmap

abbrev pub lba_of : BitmapType → Volume → ℕ
lba_of of_inodes v = v.sb.inode_bitmap_lba
lba_of of_blocks v = v.sb.block_bitmap_lba

abbrev pub set_bitmap : BitmapType → Bitmap → Volume → Volume
set_bitmap of_inodes b v = record v { inode_bitmap = b }
set_bitmap of_blocks b v = record v { block_bitmap = b }

-- A bitmap read from the disk into fresh memory.
abbrev pub load_bitmap : Bytes → ℕ → ℕ → Bitmap
load_bitmap disk lba sects = record {
  btmp_bytes_len = sects * 512;
  bits = ide_read disk lba sects (λ i. 0);
}

-- mount_partition behind the reading of the super block.
unfoldable pub mount_partition : SuperBlock → Bytes → Volume
mount_partition sb disk = record {
  sb = sb;
  block_bitmap = load_bitmap disk sb.block_bitmap_lba sb.block_bitmap_sects;
  inode_bitmap = load_bitmap disk sb.inode_bitmap_lba sb.inode_bitmap_sects;
  disk = disk;
}

-- The bit that was found is set; -1 stays -1.
unfoldable pub take_bit : BitmapType → Option ℕ → Volume → Run (Option ℕ × Volume)
unfolding bitmap_set
take_bit kind none v = done (none, v)
take_bit kind (some bit_idx) v = do
  b ← bitmap_set (bitmap_of kind v) bit_idx 1
  done (some bit_idx, set_bitmap kind b v)

unfoldable pub inode_bitmap_alloc : Volume → Run (Option ℕ × Volume)
unfolding take_bit
inode_bitmap_alloc v = do r ← bitmap_scan v.inode_bitmap 1; take_bit of_inodes r v

abbrev pub block_lba : SuperBlock → Option ℕ × Volume → Option ℕ × Volume
block_lba sb (none, v) = (none, v)
block_lba sb (some bit_idx, v) = (some (add32 sb.data_start_lba bit_idx), v)

unfoldable pub block_bitmap_alloc : Volume → Run (Option ℕ × Volume)
unfolding take_bit
block_bitmap_alloc v = do
  r ← bitmap_scan v.block_bitmap 1
  p ← take_bit of_blocks r v
  done (block_lba v.sb p)

-- There is no third type, so the PANIC of the default case is left out.
unfoldable pub bitmap_sync : ℕ → BitmapType → Volume → Volume
bitmap_sync bit_idx btmp v =
    let off_sec = bit_idx / 4096 in
    let off_size = off_sec * 512 in
    let b = bitmap_of btmp v in
    record v { disk = ide_write v.disk (lba_of btmp v + off_sec) 1 (λ j. b.bits (off_size + j)) }

-- One of the blocks that inode_release gives back; `lba` is not 0.
unfoldable pub release_block : ℕ → Volume → Run Volume
unfolding bitmap_set bitmap_sync
release_block lba v =
    let blocks_bitmap_idx = sub32 lba v.sb.data_start_lba in
    do
      assert (ltb 0 blocks_bitmap_idx)
      b ← bitmap_set v.block_bitmap blocks_bitmap_idx 0
      done (bitmap_sync blocks_bitmap_idx of_blocks (set_bitmap of_blocks b v))

-- The loop over all_blocks, by the entries left.
unfoldable pub release_loop : ℕ → ℕ → (ℕ → ℕ) → Volume → Run Volume
release_loop zero block_idx all_blocks v = done v
release_loop (suc left) block_idx all_blocks v = elim (all_blocks block_idx == 0) [
  | true ↦ release_loop left (block_idx + 1) all_blocks v
  | false ↦ do
    v' ← release_block (all_blocks block_idx) v
    release_loop left (block_idx + 1) all_blocks v'
]

-- A little-endian word of the disk.
abbrev pub disk_word : Bytes → ℕ → ℕ
disk_word disk a = disk a + disk (a + 1) * 0x100 + disk (a + 2) * 0x10000 + disk (a + 3) * 0x1000000

-- all_blocks: the direct blocks, and those of the indirect table.
abbrev pub all_blocks : Bytes → (ℕ → ℕ) → ℕ → ℕ
all_blocks disk i_sectors idx =
    if ltb idx 12
    then i_sectors idx
    else (if i_sectors 12 == 0 then 0 else disk_word disk (i_sectors 12 * 512 + 4 * (idx - 12)))

-- The part of inode_release that gives back the blocks.
unfoldable pub release_blocks : (ℕ → ℕ) → Volume → Run Volume
unfolding release_block release_loop
release_blocks i_sectors v = elim (i_sectors 12 == 0) [
  | true ↦ release_loop 12 0 (all_blocks v.disk i_sectors) v
  | false ↦ do
    v' ← release_block (i_sectors 12) v
    release_loop 140 0 (all_blocks v.disk i_sectors) v'
]

-- And up to inode_delete, behind which the disk's inode table and the open inodes change alone.
unfoldable pub release_bits : ℕ → (ℕ → ℕ) → Volume → Run Volume
unfolding release_blocks bitmap_set bitmap_sync
release_bits inode_no i_sectors v = do
  v' ← release_blocks i_sectors v
  b ← bitmap_set v'.inode_bitmap inode_no 0
  done (bitmap_sync inode_no of_inodes (set_bitmap of_inodes b v'))
