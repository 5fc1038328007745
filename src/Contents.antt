-- ===== src/Contents.antt =====
-- fs/file.c: how the bytes of a file are read.
--
-- A disk is that of Inode, the open file and its inode are those of Files. `io_buf` and `all_blocks`
-- are what sys_malloc gave: `none` is NULL, and memory holds anything at first. The bytes that go to
-- the caller's buffer are a list, in the order in which they are copied. Freeing is left out.
pub mod Gathering
pub mod Reading
use enix.Base.{
  ℕ, zero, suc, ◌+◌, ◌-◌, ◌*◌, ◌/◌, ◌%◌, Bool, true, false, not, ◌&&◌, Option, none, some, List, [],
  ◌∷◌, ◌++◌, ltb, leb, ◌==◌, if◌then◌else◌, add32, sub32, update, Run, done, spins, ◌>>=◌, ◌>>◌,
  assert, block,
}
use enix.Inode.{Bytes, ide_read}
use enix.Files.{Inode, File}
use enix.Volume.{disk_word}

-- The loop that copies the direct blocks' addresses, by the rounds left.
unfoldable pub direct_loop : ℕ → ℕ → (ℕ → ℕ) → (ℕ → ℕ) → ℕ → ℕ
direct_loop zero block_idx i_sectors all = all
direct_loop (suc left) block_idx i_sectors all =
    direct_loop left (block_idx + 1) i_sectors (update all block_idx (i_sectors block_idx))

-- ide_read of one sector to all_blocks + 12
unfoldable pub table_read : Bytes → ℕ → (ℕ → ℕ) → ℕ → ℕ
table_read disk indirect_block_table all idx =
    if leb 12 idx && ltb idx 140
    then disk_word disk (indirect_block_table * 512 + 4 * (idx - 12))
    else all idx

-- Data that stands in one block.
unfoldable pub gather_one : Bytes → (ℕ → ℕ) → ℕ → (ℕ → ℕ) → ℕ → ℕ
unfolding table_read
gather_one disk i_sectors last all =
    if ltb last 12 then update all last (i_sectors last) else table_read disk (i_sectors 12) all

-- Data in several blocks: in direct blocks, in both kinds, or behind the direct ones.
unfoldable pub gather_some : Bytes → (ℕ → ℕ) → ℕ → ℕ → (ℕ → ℕ) → Run (ℕ → ℕ)
unfolding direct_loop table_read
gather_some disk i_sectors start last all =
    if ltb last 12
    then done (direct_loop (last + 1 - start) start i_sectors all)
    else assert (not (i_sectors 12 == 0))
      >> done (
          table_read disk (i_sectors 12)
            (if ltb start 12 then direct_loop (12 - start) start i_sectors all else all))

-- The part of file_read that fills all_blocks.
unfoldable pub gather : Bytes → (ℕ → ℕ) → ℕ → ℕ → (ℕ → ℕ) → Run (ℕ → ℕ)
unfolding gather_one gather_some
gather disk i_sectors start last all =
    if sub32 start last == 0
    then assert (last == start) >> done (gather_one disk i_sectors last all)
    else gather_some disk i_sectors start last all

-- What the loop leaves: the bytes copied, bytes_read and fd_pos.
pub record Copied : Type 0 where
  pub bytes : List ℕ
  pub bytes_read : ℕ
  pub pos : ℕ

abbrev pub behind : List ℕ → Copied → Copied
behind chunk c = record c { bytes = chunk ++ c.bytes }

-- chunk_size
abbrev pub chunk_of : ℕ → ℕ → ℕ
chunk_of fd_pos size_left =
    if ltb size_left (512 - fd_pos % 512) then size_left else 512 - fd_pos % 512

-- The chunk of one round.
abbrev pub chunk_at : Bytes → (ℕ → ℕ) → ℕ → ℕ → List ℕ
chunk_at disk all fd_pos chunk_size =
    block chunk_size (fd_pos % 512) (ide_read disk (all (fd_pos / 512)) 1 (λ i. 0))

-- The loop of file_read, on fuel.
unfoldable pub read_loop : ℕ → Bytes → (ℕ → ℕ) → ℕ → ℕ → ℕ → ℕ → Run Copied
read_loop zero disk all size fd_pos bytes_read size_left = elim (ltb bytes_read size) [
  | true ↦ spins
  | false ↦ done record { bytes = []; bytes_read = bytes_read; pos = fd_pos }
]
read_loop (suc fuel) disk all size fd_pos bytes_read size_left = elim (ltb bytes_read size) [
  | true ↦
      let chunk_size = chunk_of fd_pos size_left in
      do
        rest ←
            read_loop fuel disk all size (add32 fd_pos chunk_size) (add32 bytes_read chunk_size)
              (sub32 size_left chunk_size)
        done (behind (chunk_at disk all fd_pos chunk_size) rest)
  | false ↦ done record { bytes = []; bytes_read = bytes_read; pos = fd_pos }
]

-- file_read once the size is known and the memory is there; a round reads a byte at least.
unfoldable pub read_blocks : Bytes → Inode → File → ℕ → (ℕ → ℕ) → Run Copied
unfolding gather read_loop
read_blocks disk i f size all =
    let start = f.fd_pos / 512 in
    let last = add32 f.fd_pos size / 512 in
    do
      assert (ltb start 139 && ltb last 139)
      all' ← gather disk i.i_sectors start last all
      read_loop size disk all' size f.fd_pos 0 size

-- What file_read returns, `none` for -1, with the bytes it copied and the file behind it.
pub record ReadResult : Type 0 where
  pub value : Option ℕ
  pub bytes : List ℕ
  pub file : File

abbrev pub read_failed : File → ReadResult
read_failed f = record { value = none; bytes = []; file = f }

abbrev pub read_done : File → Copied → ReadResult
read_done f c = record {
  value = some c.bytes_read;
  bytes = c.bytes;
  file = record f { fd_pos = c.pos };
}

-- The two calls of sys_malloc.
unfoldable pub read_sized :
    Bytes → Option Bytes → Option (ℕ → ℕ) → Inode → File → ℕ → Run ReadResult
unfolding read_blocks
read_sized disk none all_blocks i f size = done (read_failed f)
read_sized disk (some io_buf) none i f size = done (read_failed f)
read_sized disk (some io_buf) (some all) i f size = do
  c ← read_blocks disk i f size all
  done (read_done f c)

-- Are more bytes asked for than the file has behind the position?
abbrev pub is_over : Inode → File → ℕ → Bool
is_over i f count = ltb i.i_size (add32 f.fd_pos count)

unfoldable pub file_read : Bytes → Option Bytes → Option (ℕ → ℕ) → Inode → File → ℕ → Run ReadResult
unfolding read_sized
file_read disk io_buf all_blocks i f count =
    if is_over i f count
    then (if sub32 i.i_size f.fd_pos == 0
        then done (read_failed f)
        else read_sized disk io_buf all_blocks i f (sub32 i.i_size f.fd_pos))
    else read_sized disk io_buf all_blocks i f count
