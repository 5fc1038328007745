-- ===== src/Writing.antt =====
-- fs/file.c: file_write, which appends to a file.
--
-- The disk and the bitmaps are those of a Volume, the open file and its inode those of Files. What
-- sys_malloc gave is `none` for NULL; memory holds anything at first. In the first of the three
-- situations of the code all new blocks are direct ones, and in the third none is, so that one loop
-- stands for the three that allocate. Freeing is left out.
pub mod Rounds
pub mod Loop
pub mod Appending
use enix.Base.{
  ℕ, zero, suc, ◌+◌, ◌-◌, ◌*◌, ◌/◌, ◌%◌, Bool, true, false, not, ◌&&◌, Option, none, some, ltb, leb,
  ◌==◌, if◌then◌else◌, add32, sub32, update, Run, done, spins, ◌>>=◌, ◌>>◌, assert,
}
use enix.Inode.{Bytes, Partition, ide_read, ide_write, inode_sync}
use enix.Files.{Inode, File}
use enix.Volume.{Volume, of_blocks, block_bitmap_alloc, bitmap_sync}
use enix.Contents.{table_read, chunk_of}
use enix.Directory.Adding.{write_table}
use enix.Directory.Deleting.{inode_bytes}

-- (12 + 512 / 4) * BLOCK_SIZE
abbrev pub max_bytes : ℕ
max_bytes = 71680

-- all_blocks, the inode's sectors and the partition; `ok` is false when an allocation failed.
pub record Blocks : Type 0 where
  pub ok : Bool
  pub all : ℕ → ℕ
  pub i_sectors : ℕ → ℕ
  pub vol : Volume

abbrev pub sync_block : ℕ → Volume → Volume
sync_block block_lba v = bitmap_sync (sub32 block_lba v.sb.data_start_lba) of_blocks v

-- The first block of a file that has none.
unfoldable pub first_block : Blocks → Run Blocks
first_block g = elim (g.i_sectors 0 == 0) [
  | false ↦ done g
  | true ↦ do
    p ← block_bitmap_alloc g.vol
    let taken : Option ℕ = p.0
    let v : Volume = p.1
    elim taken [
      | none ↦ done (record g { ok = false; vol = v })
      | some block_lba ↦
          assert (not (sub32 block_lba v.sb.data_start_lba == 0))
          >> done (record g {
            i_sectors = update g.i_sectors 0 block_lba;
            vol = sync_block block_lba v;
          })
    ]
]

-- A new block enters all_blocks, and the inode if it is a direct one.
unfoldable pub store_block : ℕ → ℕ → Blocks → Run Blocks
store_block block_idx block_lba g =
    let all' = update g.all block_idx block_lba in
    if ltb block_idx 12
    then assert (g.i_sectors block_idx == 0)
      >> done (record g { all = all'; i_sectors = update g.i_sectors block_idx block_lba })
    else done (record g { all = all' })

-- The loop that allocates, by the blocks left.
unfoldable pub take_loop : ℕ → ℕ → Blocks → Run Blocks
take_loop zero block_idx g = done g
take_loop (suc left) block_idx g = do
  p ← block_bitmap_alloc g.vol
  let taken : Option ℕ = p.0
  let v : Volume = p.1
  elim taken [
    | none ↦ done (record g { ok = false; vol = v })
    | some block_lba ↦ do
      g1 ← store_block block_idx block_lba (record g { vol = v })
      take_loop left (block_idx + 1) (record g1 { vol = sync_block block_lba g1.vol })
  ]

-- all_blocks with the direct block of that index.
abbrev pub gather_direct : ℕ → Blocks → Blocks
gather_direct block_idx g = record g { all = update g.all block_idx (g.i_sectors block_idx) }

abbrev pub gather_table : Blocks → Blocks
gather_table g = record g { all = table_read g.vol.disk (g.i_sectors 12) g.all }

-- ide_write of the indirect table, which a failure skips.
abbrev pub save_table : ℕ → Blocks → Blocks
save_table lba g = if g.ok then record g { vol = write_table lba g.all g.vol } else g

-- No new block is needed.
unfoldable pub same_blocks : ℕ → Blocks → Run Blocks
same_blocks has_used g =
    if leb has_used 12
    then done (gather_direct (has_used - 1) g)
    else assert (not (g.i_sectors 12 == 0)) >> done (gather_table g)

-- Situation 1: the direct blocks are enough.
unfoldable pub more_direct : ℕ → ℕ → Blocks → Run Blocks
more_direct has_used will_use g =
    assert (not (g.i_sectors (has_used - 1) == 0))
    >> take_loop (will_use - has_used) has_used (gather_direct (has_used - 1) g)

-- Situation 2: the indirect table is new. Its own bit is not written to the disk.
unfoldable pub new_table : ℕ → ℕ → Blocks → Run Blocks
new_table has_used will_use g = do
  p ← block_bitmap_alloc g.vol
  let taken : Option ℕ = p.0
  let v : Volume = p.1
  elim taken [
    | none ↦ done (record (gather_direct (has_used - 1) g) { ok = false; vol = v })
    | some block_lba ↦ do
      assert (g.i_sectors 12 == 0)
      let g1 = record (gather_direct (has_used - 1) g) {
        i_sectors = update g.i_sectors 12 block_lba;
        vol = v;
      }
      g2 ← take_loop (will_use - has_used) has_used g1
      done (save_table block_lba g2)
  ]

-- Situation 3: the indirect table is there.
unfoldable pub more_indirect : ℕ → ℕ → Blocks → Run Blocks
more_indirect has_used will_use g = do
  assert (not (g.i_sectors 12 == 0))
  g2 ← take_loop (will_use - has_used) has_used (gather_table g)
  done (save_table (g.i_sectors 12) g2)

unfoldable pub gather_blocks : ℕ → ℕ → Blocks → Run Blocks
gather_blocks has_used will_use g =
    if sub32 will_use has_used == 0
    then same_blocks has_used g
    else (if leb will_use 12
        then more_direct has_used will_use g
        else (if leb has_used 12
            then new_table has_used will_use g
            else more_indirect has_used will_use g))

-- The disk, i_size, fd_pos and bytes_written in the loop.
pub record Progress : Type 0 where
  pub disk : Bytes
  pub i_size : ℕ
  pub fd_pos : ℕ
  pub bytes_written : ℕ

-- memcpy(io_buf + sec_off_bytes, src, chunk_size), `src` being the buffer behind the bytes written.
abbrev pub put_chunk : ℕ → ℕ → (ℕ → ℕ) → ℕ → Bytes → Bytes
put_chunk sec_off_bytes chunk_size buf from io_buf i =
    if leb sec_off_bytes i && ltb i (sec_off_bytes + chunk_size)
    then buf (from + (i - sec_off_bytes))
    else io_buf i

-- The sector as it was in the first round, and zeros later.
abbrev pub io_buf_of : Bool → Bytes → ℕ → Bytes
io_buf_of first disk sec_lba = if first then ide_read disk sec_lba 1 (λ i. 0) else (λ i. 0)

-- One round.
abbrev pub write_chunk : (ℕ → ℕ) → (ℕ → ℕ) → Bool → ℕ → Progress → Progress
write_chunk all buf first chunk_size w =
    let sec_lba = all (w.i_size / 512) in
    let io_buf =
      put_chunk (w.i_size % 512) chunk_size buf w.bytes_written (io_buf_of first w.disk sec_lba) in
    record {
      disk = ide_write w.disk sec_lba 1 io_buf;
      i_size = add32 w.i_size chunk_size;
      fd_pos = add32 w.fd_pos chunk_size;
      bytes_written = add32 w.bytes_written chunk_size;
    }

-- The loop, on fuel.
unfoldable pub write_loop : ℕ → (ℕ → ℕ) → (ℕ → ℕ) → ℕ → Bool → ℕ → Progress → Run Progress
write_loop zero all buf count first size_left w = elim (ltb w.bytes_written count) [
  | true ↦ spins
  | false ↦ done w
]
write_loop (suc fuel) all buf count first size_left w = elim (ltb w.bytes_written count) [
  | true ↦
      let chunk_size = chunk_of w.i_size size_left in
      write_loop fuel all buf count false (sub32 size_left chunk_size)
        (write_chunk all buf first chunk_size w)
  | false ↦ done w
]

-- What file_write leaves: its result, `none` for -1, the file, its inode and the partition.
pub record Written : Type 0 where
  pub value : Option ℕ
  pub file : File
  pub inode : Inode
  pub vol : Volume

-- The bytes of the inode, as those of a directory's.
abbrev pub bytes_of : Inode → Bytes
bytes_of i =
    inode_bytes record { i_no = i.i_no; i_size = i.i_size; i_sectors = i.i_sectors; dir_pos = 0 }

-- Part e: the inode goes to the disk if there is memory.
unfoldable pub save_inode : Partition → Option Bytes → Inode → Bytes → Run Bytes
save_inode part none i disk = done disk
save_inode part (some inode_buf) i disk = inode_sync part (bytes_of i) inode_buf disk

-- Parts d and e.
unfoldable pub write_blocks :
    Partition → Option Bytes → Option Bytes → (ℕ → ℕ) → ℕ → Inode → File → Blocks → Run Written
write_blocks part none inode_buf buf count i f g =
    done record { value = none; file = f; inode = i; vol = g.vol }
write_blocks part (some io_buf) inode_buf buf count i f g = do
  w ←
      write_loop count g.all buf count true count record {
        disk = g.vol.disk;
        i_size = i.i_size;
        fd_pos = sub32 i.i_size 1;
        bytes_written = 0;
      }
  let i1 = record i { i_size = w.i_size }
  disk ← save_inode part inode_buf i1 w.disk
  done record {
    value = some w.bytes_written;
    file = record f { fd_pos = w.fd_pos };
    inode = i1;
    vol = record (g.vol) { disk = disk };
  }

-- The inode with the sectors that it was given.
abbrev pub with_sectors : Inode → Blocks → Inode
with_sectors i g = record i { i_sectors = g.i_sectors }

-- Parts b and c: a round of the loop writes a byte at least.
unfoldable pub write_gathered :
    Partition → Option Bytes → Option Bytes → (ℕ → ℕ) → ℕ → Inode → File → Blocks → Run Written
write_gathered part io_buf inode_buf buf count i f g = elim g.ok [
  | false ↦ done record { value = none; file = f; inode = with_sectors i g; vol = g.vol }
  | true ↦ do
    let has_used = i.i_size / 512 + 1
    let will_use = add32 i.i_size count / 512 + 1
    assert (leb will_use 140)
    g1 ← gather_blocks has_used will_use g
    elim g1.ok [
      | false ↦ done record { value = none; file = f; inode = with_sectors i g1; vol = g1.vol }
      | true ↦ write_blocks part io_buf inode_buf buf count (with_sectors i g1) f g1
    ]
]

unfoldable pub file_write :
    Partition
    → Option (ℕ → ℕ)
    → Option Bytes
    → Option Bytes
    → (ℕ → ℕ)
    → ℕ
    → Inode
    → File
    → Volume
    → Run Written
file_write part all_blocks io_buf inode_buf buf count i f v =
    let failed : Written = record { value = none; file = f; inode = i; vol = v } in
    if ltb max_bytes (add32 i.i_size count) then done failed else elim all_blocks [
      | none ↦ done failed
      | some all ↦ do
        g ← first_block record { ok = true; all = all; i_sectors = i.i_sectors; vol = v }
        write_gathered part io_buf inode_buf buf count i f g
    ]
