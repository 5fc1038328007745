-- ===== src/Directory/Adding.antt =====
-- fs/dir.c: sync_dir_entry, which writes an entry into a directory.
use enix.Base.{
  ℕ, zero, suc, ◌+◌, ◌-◌, ◌*◌, ◌/◌, ◌%◌, ◌^◌, Bool, true, false, not, ◌&&◌, Option, none, some, ltb,
  leb, ◌==◌, if◌then◌else◌, add32, sub32, update, Run, done, ◌>>=◌, ◌>>◌, assert,
}
use enix.Bitmap.{bitmap_set}
use enix.Inode.{Bytes, ide_write}
use enix.Volume.{Volume, of_blocks, set_bitmap, block_bitmap_alloc, bitmap_sync}
use enix.Contents.{table_read}
use enix.Directory.{Dir, is_unknown, sector, free_block}
pub mod Reuse
pub mod Growth

-- memcpy(dir_e + dir_entry_idx, p_de, dir_entry_size)
abbrev pub put_entry : ℕ → Bytes → Bytes → Bytes
put_entry dir_entry_idx p_de buf i =
    if leb (24 * dir_entry_idx) i && ltb i (24 * dir_entry_idx + 24)
    then p_de (i - 24 * dir_entry_idx)
    else buf i

-- The bytes of all_blocks_lba + 12.
abbrev pub table_bytes : (ℕ → ℕ) → Bytes
table_bytes all i = all (12 + i / 4) / 256 ^ (i % 4) % 256

abbrev pub write_table : ℕ → (ℕ → ℕ) → Volume → Volume
write_table lba all v = record v { disk = ide_write v.disk lba 1 (table_bytes all) }

abbrev pub sync_taken : Option ℕ × Volume → Option ℕ × Volume
sync_taken (none, v) = (none, v)
sync_taken (some block_lba, v) =
    (some block_lba, bitmap_sync (sub32 block_lba v.sb.data_start_lba) of_blocks v)

-- A block is allocated, and its bit written to the disk.
unfoldable pub alloc_block : Volume → Run (Option ℕ × Volume)
alloc_block v = do p ← block_bitmap_alloc v; done (sync_taken p)

-- What sync_dir_entry leaves: its result, the directory, all_blocks_lba and the partition.
pub record Synced : Type 0 where
  pub value : Bool
  pub dir : Dir
  pub all : ℕ → ℕ
  pub vol : Volume

abbrev pub set_sector : ℕ → ℕ → Dir → Dir
set_sector block_idx lba dir = record dir { i_sectors = update dir.i_sectors block_idx lba }

-- The indirect table's block goes back, as there is none for the entry.
unfoldable pub give_back : ℕ → (ℕ → ℕ) → Dir → Volume → Run Synced
give_back lba all dir v = do
  v' ← free_block lba v
  done record { value = false; dir = set_sector 12 0 dir; all = all; vol = v' }

-- The first block becomes the indirect table, and a second one is taken for the entry.
unfoldable pub place_table : ℕ → (ℕ → ℕ) → Dir → Volume → Run Synced
place_table lba all dir v = do
  p ← alloc_block v
  let taken : Option ℕ = p.0
  let v1 : Volume = p.1
  elim taken [
    | none ↦ give_back lba all dir v1
    | some block_lba ↦
        let all' = update all 12 block_lba in
        done record {
          value = true;
          dir = set_sector 12 lba dir;
          all = all';
          vol = write_table lba all' v1;
        }
  ]

-- A new block gets its place in the inode or in the indirect table.
unfoldable pub place : ℕ → ℕ → (ℕ → ℕ) → Dir → Volume → Run Synced
place block_idx lba all dir v =
    let all' = update all block_idx lba in
    if ltb block_idx 12
    then done record { value = true; dir = set_sector block_idx lba dir; all = all'; vol = v }
    else (if block_idx == 12
        then place_table lba all dir v
        else done record {
          value = true;
          dir = dir;
          all = all';
          vol = write_table (dir.i_sectors 12) all' v;
        })

abbrev pub grow_dir : Dir → Dir
grow_dir dir = record dir { i_size = add32 dir.i_size 24 }

-- The entry is the first one of its new block.
abbrev pub write_first : ℕ → Bytes → Synced → Synced
write_first block_idx p_de s =
    if s.value
    then record s {
      dir = grow_dir s.dir;
      vol = record (s.vol) {
        disk = ide_write s.vol.disk (s.all block_idx) 1 (put_entry 0 p_de (λ i. 0));
      };
    }
    else s

-- Case 2 of the loop: the block is not there yet.
unfoldable pub add_block : ℕ → Bytes → (ℕ → ℕ) → Dir → Volume → Run Synced
add_block block_idx p_de all dir v = do
  p ← alloc_block v
  let taken : Option ℕ = p.0
  let v1 : Volume = p.1
  elim taken [
    | none ↦ done record { value = false; dir = dir; all = all; vol = v1 }
    | some lba ↦ do s ← place block_idx lba all dir v1; done (write_first block_idx p_de s)
  ]

-- The search for an unused entry of a sector, by the entries left.
unfoldable pub free_entry : ℕ → ℕ → Bytes → Option ℕ
free_entry zero dir_entry_idx buf = none
free_entry (suc left) dir_entry_idx buf =
    let rest = free_entry left (dir_entry_idx + 1) buf in
    if is_unknown buf dir_entry_idx then some dir_entry_idx else rest

-- Case 1: the entry goes into an unused one.
abbrev pub write_entry : ℕ → ℕ → Bytes → (ℕ → ℕ) → Dir → Volume → Synced
write_entry lba dir_entry_idx p_de all dir v = record {
  value = true;
  dir = grow_dir dir;
  all = all;
  vol = record v {
    disk = ide_write v.disk lba 1 (put_entry dir_entry_idx p_de (sector v.disk lba));
  };
}

-- all_blocks_lba in a round of the loop: the indirect table is read in the round of block 12.
abbrev pub fill_blocks : ℕ → (ℕ → ℕ) → Dir → Volume → ℕ → ℕ
fill_blocks block_idx all dir v =
    if block_idx == 12 then table_read v.disk (dir.i_sectors 12) all else all

unfoldable pub sync_loop : ℕ → ℕ → Bytes → (ℕ → ℕ) → Dir → Volume → Run Synced
sync_loop zero block_idx p_de all dir v =
    done record { value = false; dir = dir; all = all; vol = v }
sync_loop (suc left) block_idx p_de all dir v =
    let all' = fill_blocks block_idx all dir v in
    elim (all' block_idx == 0) [
      | true ↦ add_block block_idx p_de all' dir v
      | false ↦ elim (free_entry 21 0 (sector v.disk (all' block_idx))) [
        | some dir_entry_idx ↦ done (write_entry (all' block_idx) dir_entry_idx p_de all' dir v)
        | none ↦ sync_loop left (block_idx + 1) p_de all' dir v
      ]
    ]

-- all_blocks_lba at first
abbrev pub direct_blocks : (ℕ → ℕ) → ℕ → ℕ
direct_blocks i_sectors block_idx = if ltb block_idx 12 then i_sectors block_idx else 0

unfoldable pub sync_dir_entry : Bytes → Dir → Volume → Run Synced
sync_dir_entry p_de dir v = do
  assert (dir.i_size % 24 == 0)
  sync_loop 140 0 p_de (direct_blocks dir.i_sectors) dir v
