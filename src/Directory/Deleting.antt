-- ===== src/Directory/Deleting.antt =====
-- fs/dir.c: delete_dir_entry and dir_remove.
--
-- The inode that is written back is its bytes without what inode_sync clears. `part` is the current
-- partition. dir_remove releases the child's inode up to inode_delete, as in Volume.
use enix.Base.{
  ℕ, zero, suc, ◌+◌, ◌-◌, ◌*◌, ◌/◌, ◌%◌, ◌^◌, Bool, true, false, not, ◌&&◌, ◌||◌, Option, none,
  some, ltb, leb, ◌==◌, if◌then◌else◌, add32, sub32, update, Run, done, spins, ◌>>=◌, ◌>>◌, assert,
}
use enix.Inode.{Bytes, Partition, ide_write, inode_sync}
use enix.Files.{word}
use enix.Volume.{Volume, all_blocks, release_bits}
use enix.Directory.{Dir, is_unknown, sector, has_name, free_block}
use enix.Directory.Adding.{put_entry, write_table, set_sector}
pub mod Endless
pub mod Scanning
pub mod Clearing

-- "." and ".."
abbrev pub dot : Bytes
dot i = if i == 0 then 46 else 0

abbrev pub dot_dot : Bytes
dot_dot i = if ltb i 2 then 46 else 0

-- dir_entry_found, dir_entry_cnt and is_dir_first_block
pub record Scan : Type 0 where
  pub dir_entry_found : Option ℕ
  pub dir_entry_cnt : ℕ
  pub is_dir_first_block : Bool

abbrev pub no_scan : Scan
no_scan = record { dir_entry_found = none; dir_entry_cnt = 0; is_dir_first_block = false }

abbrev pub is_none : Option ℕ → Bool
is_none none = true
is_none (some _) = false

-- An entry that is neither "." nor "..".
unfoldable pub count_entry : ℕ → Bytes → ℕ → Scan → Run Scan
count_entry dir_entry_idx buf inode_no s =
    let s1 = record s { dir_entry_cnt = s.dir_entry_cnt + 1 } in
    if word buf (24 * dir_entry_idx + 16) == inode_no
    then assert (is_none s.dir_entry_found)
      >> done (record s1 { dir_entry_found = some dir_entry_idx })
    else done s1

unfoldable pub scan_entry : ℕ → Bytes → ℕ → Scan → Run Scan
scan_entry dir_entry_idx buf inode_no s = do
  is_dot ← has_name buf dir_entry_idx dot
  elim is_dot [
    | true ↦ done (record s { is_dir_first_block = true })
    | false ↦ do
      is_dot_dot ← has_name buf dir_entry_idx dot_dot
      elim is_dot_dot [ true ↦ done s | false ↦ count_entry dir_entry_idx buf inode_no s ]
  ]

-- The entries of one sector, by those left.
unfoldable pub scan_entries : ℕ → ℕ → Bytes → ℕ → Scan → Run Scan
scan_entries zero dir_entry_idx buf inode_no s = done s
scan_entries (suc left) dir_entry_idx buf inode_no s = elim (is_unknown buf dir_entry_idx) [
  | true ↦ scan_entries left (dir_entry_idx + 1) buf inode_no s
  | false ↦ do
    s1 ← scan_entry dir_entry_idx buf inode_no s
    scan_entries left (dir_entry_idx + 1) buf inode_no s1
]

-- The loop that counts the blocks in the indirect table, on fuel.
unfoldable pub count_indirect : ℕ → ℕ → (ℕ → ℕ) → ℕ → Run ℕ
count_indirect zero indirect_block_idx all indirect_blocks = spins
count_indirect (suc fuel) indirect_block_idx all indirect_blocks =
    elim (ltb indirect_block_idx 140) [
      | true ↦
          count_indirect fuel indirect_block_idx all
            (if all indirect_block_idx == 0 then indirect_blocks else add32 indirect_blocks 1)
      | false ↦ done indirect_blocks
    ]

-- The directory and the partition behind a deletion.
pub record Removed : Type 0 where
  pub dir : Dir
  pub vol : Volume

-- The block leaves the indirect table, or the table goes with it.
unfoldable pub drop_indirect : ℕ → ℕ → (ℕ → ℕ) → Dir → Volume → Run Removed
drop_indirect fuel block_idx all dir v = do
  indirect_blocks ← count_indirect fuel 12 all 0
  assert (ltb 0 indirect_blocks)
  elim (ltb 1 indirect_blocks) [
    | true ↦
        done record { dir = dir; vol = write_table (dir.i_sectors 12) (update all block_idx 0) v }
    | false ↦ do
      v' ← free_block (dir.i_sectors 12) v
      done record { dir = set_sector 12 0 dir; vol = v' }
  ]

-- The block holds nothing but the entry.
unfoldable pub drop_block : ℕ → ℕ → (ℕ → ℕ) → Dir → Volume → Run Removed
drop_block fuel block_idx all dir v = do
  v' ← free_block (all block_idx) v
  if ltb block_idx 12
      then done record { dir = set_sector block_idx 0 dir; vol = v' }
      else drop_indirect fuel block_idx all dir v'

-- The entry is cleared in its sector.
abbrev pub clear_entry : ℕ → ℕ → Dir → Volume → Removed
clear_entry lba dir_entry_idx dir v = record {
  dir = dir;
  vol = record v {
    disk = ide_write v.disk lba 1 (put_entry dir_entry_idx (λ i. 0) (sector v.disk lba));
  };
}

-- Byte `i` of a word.
abbrev pub byte_of : ℕ → ℕ → ℕ
byte_of w i = w / 256 ^ i % 256

-- The bytes of the directory's inode.
abbrev pub inode_bytes : Dir → Bytes
inode_bytes dir i =
    if ltb i 4
    then byte_of dir.i_no i
    else (if ltb i 8
        then byte_of dir.i_size (i - 4)
        else (if leb 16 i && ltb i 68 then byte_of (dir.i_sectors ((i - 16) / 4)) (i % 4) else 0))

-- The inode is an entry smaller, and written to the disk.
unfoldable pub shrink : Partition → Removed → Run Removed
shrink part r =
    let dir1 = record (r.dir) { i_size = sub32 r.dir.i_size 24 } in
    do
      assert (leb 24 r.dir.i_size)
      disk ← inode_sync part (inode_bytes dir1) (λ i. 0) r.vol.disk
      done record { dir = dir1; vol = record (r.vol) { disk = disk } }

-- A sector in which the entry was found.
unfoldable pub remove_entry : ℕ → Partition → ℕ → ℕ → Scan → (ℕ → ℕ) → Dir → Volume → Run Removed
remove_entry fuel part block_idx dir_entry_idx s all dir v = do
  assert (ltb 0 s.dir_entry_cnt)
  r ← elim ((s.dir_entry_cnt == 1) && not s.is_dir_first_block) [
    | true ↦ drop_block fuel block_idx all dir v
    | false ↦ done (clear_entry (all block_idx) dir_entry_idx dir v)
  ]
  shrink part r

-- `none` is false.
unfoldable pub delete_loop :
    ℕ → Partition → ℕ → ℕ → ℕ → (ℕ → ℕ) → Dir → Volume → Run (Option Removed)
delete_loop fuel part zero block_idx inode_no all dir v = done none
delete_loop fuel part (suc left) block_idx inode_no all dir v = elim (all block_idx == 0) [
  | true ↦ delete_loop fuel part left (block_idx + 1) inode_no all dir v
  | false ↦ do
    s ← scan_entries 21 0 (sector v.disk (all block_idx)) inode_no no_scan
    elim s.dir_entry_found [
      | none ↦ delete_loop fuel part left (block_idx + 1) inode_no all dir v
      | some dir_entry_idx ↦ do
        r ← remove_entry fuel part block_idx dir_entry_idx s all dir v
        done (some r)
    ]
]

unfoldable pub delete_dir_entry : ℕ → Partition → Dir → ℕ → Volume → Run (Option Removed)
delete_dir_entry fuel part pdir inode_no v =
    delete_loop fuel part 140 0 inode_no (all_blocks v.disk pdir.i_sectors) pdir v

-- Are the direct blocks from `block_idx` on not there?
unfoldable pub no_blocks : ℕ → ℕ → (ℕ → ℕ) → Bool
no_blocks zero block_idx i_sectors = true
no_blocks (suc left) block_idx i_sectors =
    let rest = no_blocks left (block_idx + 1) i_sectors in (i_sectors block_idx == 0) && rest

-- The result is -1 (`none`) or 0, with the parent. `memory` tells whether sys_malloc gave any. What
-- delete_dir_entry returns is not looked at.
abbrev pub after_delete : Dir → Volume → Option Removed → Removed
after_delete parent v none = record { dir = parent; vol = v }
after_delete parent v (some r) = r

unfoldable pub dir_remove : ℕ → Partition → Bool → Dir → Dir → Volume → Run (Option ℕ × Removed)
dir_remove fuel part memory parent child v =
    assert (no_blocks 11 1 child.i_sectors) >> elim memory [
      | false ↦ done (none, record { dir = parent; vol = v })
      | true ↦ do
        d ← delete_dir_entry fuel part parent child.i_no v
        let r = after_delete parent v d
        v' ← release_bits child.i_no child.i_sectors r.vol
        done (some 0, record r { vol = v' })
    ]
