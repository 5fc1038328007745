-- ===== src/Writing/Appending.antt =====
-- file_write into the last block of a file, and at the largest size.
use enix.Base.{
  ℕ, ◌+◌, ◌-◌, ◌*◌, ◌/◌, ◌%◌, ◌≡◌, ◌≢◌, ◌≤◌, ◌<◌, ◌⊎◌, inl, inr, refl, sym, ap, ◌∙◌, arith, true,
  false, none, some, Option, ltb, leb, ◌==◌, if◌then◌else◌, add32, sub32, update, u32_mod, Run,
  done, panicked, ◌>>=◌, Bool-cases, ltb→lt, ==_iff, subst, ℕ_discrete,
}
use enix.Inode.{Bytes, Partition}
use enix.Files.{Inode, File}
use enix.Volume.{Volume}
use enix.Contents.{table_read}
use enix.Contents.Gathering.{block_of, block_of-direct, table_read_lem}
use enix.Writing.{
  Blocks, first_block, same_blocks, gather_blocks, Progress, write_loop, Written, save_inode,
  write_blocks, write_gathered, file_write,
}
use enix.Writing.Rounds.{byte_at, appended}
use enix.Writing.Loop.{write_loop-Appends}

is_not_zero : (a : ℕ) → a ≢ 0 → (a == 0) ≡ false
is_not_zero a ne = ground arith

-- all_blocks has the address of block `b`.
same_blocks_lem :
    (b : ℕ) (g : Blocks)
    → b < 140
    → (12 ≤ b → g.i_sectors 12 ≢ 0)
    → (all' : ℕ → ℕ) × (same_blocks (b + 1) g ≡ done (record g { all = all' }))
      × (all' b ≡ block_of g.vol.disk g.i_sectors b)
unfolding same_blocks
same_blocks_lem b g lt table =
    let last : b + 1 - 1 ≡ b = omega arith in
    elim (Bool-cases (ltb b 12)) [
      | inl t ↦
          let few : leb (b + 1) 12 ≡ true = ground (arith, t) in
          let here : (b == b) ≡ true = (==_iff b b).1 refl in
          (
            update g.all b (g.i_sectors b),
            rw (few, last) refl,
            rw here (sym (block_of-direct g.vol.disk g.i_sectors b (ltb→lt b 12 t))),
          )
      | inr n ↦
          let many : leb (b + 1) 12 ≡ false = ground (arith, n) in
          let behind : 12 ≤ b = ground (arith, n) in
          let z = is_not_zero (g.i_sectors 12) (table behind) in
          (
            table_read g.vol.disk (g.i_sectors 12) g.all,
            rw (many, z) refl,
            table_read_lem g.vol.disk g.i_sectors g.all b behind lt,
          )
    ]

-- The file's inode, its position and the disk that file_write leaves, when the inode is saved to it.
abbrev pub saved : Partition → Option Bytes → ℕ → Inode → File → Volume → Bytes → Run Written
saved part inode_buf count i f v written =
    let i1 = record i { i_size = i.i_size + count } in
    save_inode part inode_buf i1 written >>= λ disk. done record {
      value = some count;
      file = record f { fd_pos = sub32 (i.i_size + count) 1 };
      inode = i1;
      vol = record v { disk = disk };
    }

-- The loop's state at first.
abbrev begin : ℕ → Bytes → Progress
begin i_size disk = record {
  disk = disk;
  i_size = i_size;
  fd_pos = sub32 i_size 1;
  bytes_written = 0;
}

write_blocks-saved :
    (part : Partition) (io_buf : Bytes) (inode_buf : Option Bytes) (buf : ℕ → ℕ) (count : ℕ)
    (i : Inode) (f : File) (g : Blocks) (w : Progress)
    → write_loop count g.all buf count true count (begin i.i_size g.vol.disk) ≡ done w
    → w.i_size ≡ i.i_size + count
    → w.bytes_written ≡ count
    → w.fd_pos ≡ sub32 (i.i_size + count) 1
    → write_blocks part (some io_buf) inode_buf buf count i f g
      ≡ saved part inode_buf count i f g.vol w.disk
unfolding write_blocks
write_blocks-saved part io_buf inode_buf buf count i f g w run size written pos =
    rw (run, size, written, pos) refl

first_block-there : (g : Blocks) → g.i_sectors 0 ≢ 0 → first_block g ≡ done g
unfolding first_block
first_block-there g ne = rw (first_block, is_not_zero (g.i_sectors 0) ne) refl

-- Is there room in the last block of the file for `count` bytes?
pub record HasRoom (i : Inode) (count : ℕ) : Type 0 where
  pub first : i.i_sectors 0 ≢ 0
  pub table : 12 * 512 ≤ i.i_size → i.i_sectors 12 ≢ 0
  pub room : i.i_size % 512 + count < 512
  pub small : i.i_size + count < 71680

write_gathered-one :
    (part : Partition) (io_buf inode_buf : Option Bytes) (buf : ℕ → ℕ) (count : ℕ) (i : Inode)
    (f : File) (v : Volume) (all all' : ℕ → ℕ)
    → add32 i.i_size count / 512 ≡ i.i_size / 512
    → i.i_size < 71680
    → same_blocks
        (i.i_size / 512 + 1)
        (record { ok = true; all = all; i_sectors = i.i_sectors; vol = v })
      ≡ done (record { ok = true; all = all'; i_sectors = i.i_sectors; vol = v })
    → write_gathered part io_buf inode_buf buf count i f
        (record { ok = true; all = all; i_sectors = i.i_sectors; vol = v })
      ≡ write_blocks part io_buf inode_buf buf count i f
          (record { ok = true; all = all'; i_sectors = i.i_sectors; vol = v })
unfolding write_gathered gather_blocks
write_gathered-one part io_buf inode_buf buf count i f v all all' same small run =
    let b = i.i_size / 512 in
    let few : leb (b + 1) 140 ≡ true = ground arith in
    let none_new : (sub32 (b + 1) (b + 1) == 0) ≡ true = ground arith in
    rw (same, few, none_new, run) refl

write_gathered-same :
    (part : Partition) (io_buf inode_buf : Option Bytes) (buf : ℕ → ℕ) (count : ℕ) (i : Inode)
    (f : File) (v : Volume) (all : ℕ → ℕ)
    → HasRoom i count
    → (all' : ℕ → ℕ) × (write_gathered part io_buf inode_buf buf count i f
          (record { ok = true; all = all; i_sectors = i.i_sectors; vol = v })
        ≡ write_blocks part io_buf inode_buf buf count i f
            (record { ok = true; all = all'; i_sectors = i.i_sectors; vol = v }))
      × (all' (i.i_size / 512) ≡ block_of v.disk i.i_sectors (i.i_size / 512))
write_gathered-same part io_buf inode_buf buf count i f v all h =
    let b = i.i_size / 512 in
    let g : Blocks = record { ok = true; all = all; i_sectors = i.i_sectors; vol = v } in
    let room = h.room in
    let small = h.small in
    let same : add32 i.i_size count / 512 ≡ b = omega arith in
    let (all', run, here) = same_blocks_lem b g (omega arith) (λ le. h.table (omega (arith, le))) in
    (
      all',
      write_gathered-one part io_buf inode_buf buf count i f v all all' same (omega arith) run,
      here,
    )

file_write-gathered :
    (part : Partition) (io_buf inode_buf : Option Bytes) (buf : ℕ → ℕ) (count : ℕ) (i : Inode)
    (f : File) (v : Volume) (all : ℕ → ℕ)
    → HasRoom i count
    → file_write part (some all) io_buf inode_buf buf count i f v
      ≡ write_gathered part io_buf inode_buf buf count i f
          (record { ok = true; all = all; i_sectors = i.i_sectors; vol = v })
unfolding file_write
file_write-gathered part io_buf inode_buf buf count i f v all h =
    let room = h.small in
    let g : Blocks = record { ok = true; all = all; i_sectors = i.i_sectors; vol = v } in
    let fits : ltb 71680 (add32 i.i_size count) ≡ false = ground arith in
    rw (fits, first_block-there g h.first) refl

byte_at-agree :
    (all all' : ℕ → ℕ) (disk : Bytes) (p : ℕ)
    → all (p / 512) ≡ all' (p / 512)
    → byte_at all disk p ≡ byte_at all' disk p
byte_at-agree all all' disk p e = ap (λ a. disk (a * 512 + p % 512)) e

appended-agree :
    (old old' : ℕ → ℕ) (size from : ℕ) (buf : ℕ → ℕ) (p : ℕ)
    → old p ≡ old' p
    → appended old size from buf p ≡ appended old' size from buf p
appended-agree old old' size from buf p e =
    ap (λ x. if ltb p size then x else buf (from + (p - size))) e

-- Where the file's last block has room for all bytes and one more, file_write puts them behind the
-- file's bytes in that block, found through the inode or its indirect table, without taking a block.
-- No other sector changes before the inode, whose size has grown by the bytes, is written back. The
-- result is their number, and the position is left in front of the last byte of the file.
pub file_write-same_block :
    (part : Partition) (io_buf : Bytes) (inode_buf : Option Bytes) (buf : ℕ → ℕ) (count : ℕ)
    (i : Inode) (f : File) (v : Volume) (all : ℕ → ℕ)
    → HasRoom i count
    → (disk' : Bytes) × (file_write part (some all) (some io_buf) inode_buf buf count i f v
        ≡ saved part inode_buf count i f v disk')
      × ((p : ℕ)
          → i.i_size / 512 * 512 ≤ p
          → p < i.i_size + count
          → byte_at (block_of v.disk i.i_sectors) disk' p
            ≡ appended (byte_at (block_of v.disk i.i_sectors) v.disk) i.i_size 0 buf p)
      × ((x : ℕ)
          → (x < block_of v.disk i.i_sectors (i.i_size / 512) * 512)
            ⊎ (block_of v.disk i.i_sectors (i.i_size / 512) * 512 + 512 ≤ x)
          → disk' x ≡ v.disk x)
file_write-same_block part io_buf inode_buf buf count i f v all h =
    let b = i.i_size / 512 in
    let room = h.room in
    let small = h.small in
    let file = block_of v.disk i.i_sectors in
    let (all', run, here) =
      write_gathered-same part (some io_buf) inode_buf buf count i f v all h in
    let (w, loop, r) =
      write_loop-Appends count all' buf b count true count (begin i.i_size v.disk) (omega arith)
        (omega arith) (omega arith) (omega arith) (omega arith) (inr (inl refl))
        (λ x y gx gy lx ly e. omega arith) (omega arith) in
    let g : Blocks = record { ok = true; all = all'; i_sectors = i.i_sectors; vol = v } in
    let pos : w.fd_pos ≡ sub32 (i.i_size + count) 1 = r.pos ∙ omega arith in
    let written : w.bytes_written ≡ count = omega (arith, r.written) in
    (
      w.disk,
      file_write-gathered part (some io_buf) inode_buf buf count i f v all h
          ∙ run
          ∙ write_blocks-saved part io_buf inode_buf buf count i f g w loop r.size written pos,
      λ p ge lt.
          let one : p / 512 ≡ b = omega arith in
          let e : all' (p / 512) ≡ file (p / 512) = ap all' one ∙ here ∙ ap file (sym one) in
          sym (byte_at-agree all' file w.disk p e)
          ∙ r.bytes p ge lt
          ∙ appended-agree (byte_at all' v.disk) (byte_at file v.disk) i.i_size 0 buf p
              (byte_at-agree all' file v.disk p e),
      λ x out. r.others x (λ c ge lt.
          let one : b ≡ c = omega arith in
          let e : file b ≡ all' c = sym here ∙ ap all' one in
          subst (λ a. (x < a * 512) ⊎ (a * 512 + 512 ≤ x)) e out),
    )

-- A write that brings a file with a first block to exactly the 71680 bytes that the code's test admits
-- stops the kernel at the ASSERT on the number of blocks; one that would bring it behind them returns
-- -1 and changes nothing.
pub file_write-largest :
    (part : Partition) (io_buf inode_buf : Option Bytes) (buf : ℕ → ℕ) (count : ℕ) (i : Inode)
    (f : File) (v : Volume) (all : ℕ → ℕ)
    → i.i_sectors 0 ≢ 0
    → i.i_size + count < u32_mod
    → 71680 ≤ i.i_size + count
    → ((i.i_size + count ≡ 71680)
        × (file_write part (some all) io_buf inode_buf buf count i f v ≡ panicked))
      ⊎ ((71680 < i.i_size + count)
          × (file_write part (some all) io_buf inode_buf buf count i f v
              ≡ done (record { value = none; file = f; inode = i; vol = v })))
unfolding file_write write_gathered
file_write-largest part io_buf inode_buf buf count i f v all ne small ge =
    let g : Blocks = record { ok = true; all = all; i_sectors = i.i_sectors; vol = v } in
    elim (ℕ_discrete (i.i_size + count) 71680) [
      | yes e ↦
          let sum : add32 i.i_size count ≡ 71680 = omega (arith, e) in
          inl (e, rw (sum, first_block-there g ne, write_gathered, sum) refl)
      | no other ↦
          let more : ltb 71680 (add32 i.i_size count) ≡ true = ground arith in
          inr (omega arith, rw more refl)
    ]
