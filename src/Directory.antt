-- ===== src/Directory.antt =====
-- fs/dir.c: the entries of a directory, searched and read.
--
-- An entry is its 24 bytes: the name in 16 bytes, i_no at 16 and f_type at 20, in little-endian words;
-- dir_entry_size of the super block is that size. The sectors of a directory are all_blocks of Volume.
-- sys_malloc clears what it gives, and a sector that is read fills its buffer. In memory the buffer of a
-- sector stands at 512 and the name that is looked for at 1024.
pub mod Searching
pub mod Listing
pub mod Adding
pub mod Deleting
use enix.Base.{
  ℕ, zero, suc, ◌+◌, ◌-◌, ◌*◌, ◌/◌, ◌%◌, Bool, true, false, not, ◌&&◌, Option, none, some, ltb, leb,
  ◌==◌, if◌then◌else◌, add32, sub32, Run, done, spins, ◌>>=◌, ◌>>◌, assert,
}
use enix.Strings.{Memory, Sign, nought, plus, minus, strcmp}
use enix.Inode.{Bytes, ide_read}
use enix.Files.{word}
use enix.Bitmap.{bitmap_set}
use enix.Volume.{Volume, of_blocks, set_bitmap, bitmap_sync, all_blocks}

-- struct dir, with the directory's inode in place of the pointer to it; the buffer is left out.
pub record Dir : Type 0 where
  pub i_no : ℕ
  pub i_size : ℕ
  pub i_sectors : ℕ → ℕ
  pub dir_pos : ℕ

-- The bytes of one entry of a sector.
abbrev pub entry_at : Bytes → ℕ → Bytes
entry_at buf dir_entry_idx j = buf (24 * dir_entry_idx + j)

-- FT_UNKNOWN is 0.
abbrev pub is_unknown : Bytes → ℕ → Bool
is_unknown buf dir_entry_idx = word buf (24 * dir_entry_idx + 20) == 0

abbrev pub sector : Bytes → ℕ → Bytes
sector disk lba = ide_read disk lba 1 (λ i. 0)

-- A sector and a name in one memory.
abbrev pub beside : Bytes → Bytes → Memory
beside buf name a = if ltb a 1024 then buf (a - 512) else name (a - 1024)

abbrev pub is_nought : Sign → Bool
is_nought nought = true
is_nought plus = false
is_nought minus = false

-- !strcmp((dir_e + dir_entry_idx)->filename, name)
unfoldable pub has_name : Bytes → ℕ → Bytes → Run Bool
has_name buf dir_entry_idx name = do
  c ← strcmp 512 (beside buf name) (512 + 24 * dir_entry_idx) 1024
  done (is_nought c)

-- The entries of one sector, by those left.
unfoldable pub search_entries : ℕ → ℕ → Bytes → Bytes → Run (Option ℕ)
search_entries zero dir_entry_idx buf name = done none
search_entries (suc left) dir_entry_idx buf name = do
  same ← has_name buf dir_entry_idx name
  elim same [
    | true ↦ done (some dir_entry_idx)
    | false ↦ search_entries left (dir_entry_idx + 1) buf name
  ]

unfoldable pub search_loop : ℕ → ℕ → Bytes → (ℕ → ℕ) → Bytes → Run (Option Bytes)
search_loop zero block_idx disk all name = done none
search_loop (suc left) block_idx disk all name = elim (all block_idx == 0) [
  | true ↦ search_loop left (block_idx + 1) disk all name
  | false ↦ do
    r ← search_entries 21 0 (sector disk (all block_idx)) name
    elim r [
      | some dir_entry_idx ↦ done (some (entry_at (sector disk (all block_idx)) dir_entry_idx))
      | none ↦ search_loop left (block_idx + 1) disk all name
    ]
]

-- The entry that is copied to dir_e, or `none` for false. `memory` tells whether sys_malloc gave any.
unfoldable pub search_dir_entry : Bool → Bytes → Dir → Bytes → Run (Option Bytes)
search_dir_entry false disk pdir name = done none
search_dir_entry true disk pdir name = search_loop 140 0 disk (all_blocks disk pdir.i_sectors) name

-- What a pass over one sector leaves: the entry that was found, and cur_dir_entry_pos.
pub record Pass : Type 0 where
  pub at : Option ℕ
  pub cur_dir_entry_pos : ℕ

-- The entries of one sector in dir_read, by those left.
unfoldable pub read_entries : ℕ → ℕ → Bytes → ℕ → ℕ → Run Pass
read_entries zero dir_entry_idx buf cur dir_pos = done record { at = none; cur_dir_entry_pos = cur }
read_entries (suc left) dir_entry_idx buf cur dir_pos = elim (is_unknown buf dir_entry_idx) [
  | true ↦ read_entries left (dir_entry_idx + 1) buf cur dir_pos
  | false ↦ elim (ltb cur dir_pos) [
    | true ↦ read_entries left (dir_entry_idx + 1) buf (add32 cur 24) dir_pos
    | false ↦
        assert (cur == dir_pos) >> done record { at = some dir_entry_idx; cur_dir_entry_pos = cur }
  ]
]

-- The loop of dir_read over the sectors. Past the 140 of them the code reads behind its array, and the
-- model stops.
unfoldable pub read_sectors : ℕ → ℕ → Bytes → (ℕ → ℕ) → ℕ → ℕ → Run Bytes
read_sectors zero block_idx disk all cur dir_pos = spins
read_sectors (suc left) block_idx disk all cur dir_pos = elim (all block_idx == 0) [
  | true ↦ read_sectors left (block_idx + 1) disk all cur dir_pos
  | false ↦ do
    p ← read_entries 21 0 (sector disk (all block_idx)) cur dir_pos
    elim p.at [
      | some dir_entry_idx ↦ done (entry_at (sector disk (all block_idx)) dir_entry_idx)
      | none ↦ read_sectors left (block_idx + 1) disk all p.cur_dir_entry_pos dir_pos
    ]
]

-- The next entry, or NULL, and the directory with its new position.
unfoldable pub dir_read : Bytes → Dir → Run (Option Bytes × Dir)
dir_read disk dir = elim (ltb dir.dir_pos dir.i_size) [
  | false ↦ done (none, dir)
  | true ↦ do
    e ← read_sectors 140 0 disk (all_blocks disk dir.i_sectors) 0 dir.dir_pos
    done (some e, record dir { dir_pos = add32 dir.dir_pos 24 })
]

-- The block of a sector is free again, in memory and on the disk.
unfoldable pub free_block : ℕ → Volume → Run Volume
free_block lba v =
    let block_bitmap_idx = sub32 lba v.sb.data_start_lba in
    do
      b ← bitmap_set v.block_bitmap block_bitmap_idx 0
      done (bitmap_sync block_bitmap_idx of_blocks (set_bitmap of_blocks b v))

unfoldable pub dir_is_empty : Dir → Bool
dir_is_empty dir = dir.i_size == 24 * 2
