-- ===== src/Directory/Adding/Growth.antt =====
-- sync_dir_entry takes a new direct block when the blocks before it are full.
use enix.Base.{
  ℕ, suc, ◌-◌, ◌%◌, ◌≡◌, ◌<◌, ◌⊎◌, inl, inr, refl, ap, ◌∙◌, arith, true, some, ◌==◌, add32, sub32,
  update, u32_mod, done, panicked, lt→ltb, ==_iff,
}
use enix.Inode.{Bytes, ide_write}
use enix.Volume.{Volume, of_blocks, block_bitmap_alloc, bitmap_sync}
use enix.Volume.Synced.{IsSynced}
use enix.Volume.Allocation.{IsFull, IsTaken, block_bitmap_alloc-bitmap_sync}
use enix.Directory.{Dir}
use enix.Directory.Adding.{
  put_entry, alloc_block, place, Synced, set_sector, grow_dir, add_block, fill_blocks, sync_loop,
  direct_blocks, sync_dir_entry,
}
use enix.Directory.Adding.Reuse.{
  AreFull, fill_blocks-direct_blocks, fill_blocks-here, sync_dir_entry-skip,
}

-- The state behind the first entry of a new direct block: bit `i` is taken, and its block is zeros
-- behind the entry.
abbrev pub grown : ℕ → ℕ → Bytes → Dir → Volume → Volume → Synced
grown b i p_de dir v v1 =
    let lba = add32 v.sb.data_start_lba i in
    let v2 = bitmap_sync i of_blocks v1 in
    record {
      value = true;
      dir = grow_dir (set_sector b lba dir);
      all = update (direct_blocks dir.i_sectors) b lba;
      vol = record v2 { disk = ide_write v2.disk lba 1 (put_entry 0 p_de (λ j. 0)) };
    }

sync_loop-grow :
    (left b : ℕ) (p_de : Bytes) (dir : Dir) (v : Volume)
    → b < 12
    → dir.i_sectors b ≡ 0
    → sync_loop (suc left) b p_de (direct_blocks dir.i_sectors) dir v
      ≡ add_block b p_de (direct_blocks dir.i_sectors) dir v
unfolding sync_loop
sync_loop-grow left b p_de dir v lt free =
    let z : (fill_blocks b (direct_blocks dir.i_sectors) dir v b == 0) ≡ true =
      ap (λ x. x == 0) (fill_blocks-here b dir v lt ∙ free) in
    rw (sync_loop, z) (ap (λ g. add_block b p_de g dir v) (fill_blocks-direct_blocks b dir v lt))

alloc_block-IsTaken :
    (v v1 : Volume) (i : ℕ)
    → IsSynced v
    → v.sb.data_start_lba < u32_mod
    → block_bitmap_alloc v ≡ done (some (add32 v.sb.data_start_lba i), v1)
    → IsTaken of_blocks i v v1
    → alloc_block v ≡ done (some (add32 v.sb.data_start_lba i), bitmap_sync i of_blocks v1)
unfolding alloc_block
alloc_block-IsTaken v v1 i synced word e taken =
    let valid = synced.valid of_blocks in
    let small : i < u32_mod = omega (arith, taken.inside, valid.small) in
    let lba = add32 v.sb.data_start_lba i in
    let back : sub32 lba v.sb.data_start_lba ≡ i = omega arith in
    let same : sub32 lba v1.sb.data_start_lba ≡ i =
      ap (λ b. sub32 lba b.data_start_lba) taken.same_super ∙ back in
    rw (e, same) refl

add_block-taken :
    (b i : ℕ) (p_de : Bytes) (dir : Dir) (v v1 : Volume)
    → b < 12
    → alloc_block v ≡ done (some (add32 v.sb.data_start_lba i), bitmap_sync i of_blocks v1)
    → add_block b p_de (direct_blocks dir.i_sectors) dir v ≡ done (grown b i p_de dir v v1)
unfolding add_block place
add_block-taken b i p_de dir v v1 lt e =
    let here : (b == b) ≡ true = (==_iff b b).1 refl in rw (e, lt→ltb b 12 lt, here) refl

-- Into a directory whose first direct blocks are there and full, up to one that is not there, on a
-- partition whose bitmaps agree with the disk, sync_dir_entry takes the lowest free block, if there is
-- one, and else stops the kernel. The bit is set in memory and on the disk, the inode gets the block,
-- the entry is the first of it, and the size grows by an entry.
pub sync_dir_entry-grow :
    (b : ℕ) (p_de : Bytes) (dir : Dir) (v : Volume)
    → IsSynced v
    → v.sb.data_start_lba < u32_mod
    → b < 12
    → dir.i_size % 24 ≡ 0
    → AreFull b dir v
    → dir.i_sectors b ≡ 0
    → ((sync_dir_entry p_de dir v ≡ panicked) × IsFull v.block_bitmap)
      ⊎ ((i : ℕ) × (v1 : Volume) × (sync_dir_entry p_de dir v ≡ done (grown b i p_de dir v v1))
          × IsTaken of_blocks i v v1
          × (v1.disk ≡ v.disk)
          × (v1.inode_bitmap ≡ v.inode_bitmap))
unfolding add_block alloc_block place
sync_dir_entry-grow b p_de dir v synced word lt whole full free =
    let left = 139 - b in
    let all = direct_blocks dir.i_sectors in
    let start =
      sync_dir_entry-skip b (suc left) p_de dir v (omega arith) (omega arith) whole full
      ∙ sync_loop-grow left b p_de dir v lt free in
    elim (block_bitmap_alloc-bitmap_sync v synced) [
      | inl (e, none_free) ↦ inl (start ∙ rw e refl, none_free)
      | inr (i, v1, e, taken, same_inodes, same_disk) ↦ inr (
        i,
        v1,
        start
            ∙ add_block-taken b i p_de dir v v1 lt (alloc_block-IsTaken v v1 i synced word e taken),
        taken,
        same_disk,
        same_inodes,
      )
    ]
