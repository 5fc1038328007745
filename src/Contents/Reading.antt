-- ===== src/Contents/Reading.antt =====
-- file_read returns the bytes of the file from its position on.
use enix.Base.{
  ℕ, zero, suc, ◌+◌, ◌-◌, ◌*◌, ◌/◌, ◌%◌, ◌≡◌, ◌≢◌, ◌≤◌, ◌<◌, refl, ap, ◌∙◌, arith, min, true, false,
  ◌&&◌, inl, inr, some, ltb, ◌==◌, if◌then◌else◌, add32, sub32, u32_mod, done, Bool-cases, lt→ltb,
  ℕ_discrete, block, block-same, block-append,
}
use enix.Inode.{Bytes, ide_read}
use enix.Files.{Inode, File}
use enix.Contents.Gathering.{block_of, gather_lem}
use enix.Contents.{
  Copied, behind, chunk_of, chunk_at, read_loop, read_blocks, ReadResult, read_failed, read_sized,
  is_over, file_read,
}

-- The byte of a file at a position.
abbrev pub content : Bytes → (ℕ → ℕ) → ℕ → ℕ
content disk i_sectors p = disk (block_of disk i_sectors (p / 512) * 512 + p % 512)

chunk_at_lem :
    (disk : Bytes) (i_sectors all : ℕ → ℕ) (p n : ℕ)
    → p % 512 + n ≤ 512
    → all (p / 512) ≡ block_of disk i_sectors (p / 512)
    → chunk_at disk all p n ≡ block n p (content disk i_sectors)
chunk_at_lem disk i_sectors all p n fits e =
    block-same n (p % 512) p (ide_read disk (all (p / 512)) 1 (λ i. 0)) (content disk i_sectors)
      (λ k b.
        let inside : ltb (p % 512 + k) (1 * 512) ≡ true = lt→ltb (p % 512 + k) 512 (omega arith) in
        let same_block : (p + k) / 512 ≡ p / 512 = omega arith in
        let offset : (p + k) % 512 ≡ p % 512 + k = omega arith in
        rw (inside, same_block, offset, e) (ap disk (omega arith)))

module _ (disk : Bytes) (i_sectors all : ℕ → ℕ) (size : ℕ) where
  -- What is left behind the last byte.
  abbrev copied : ℕ → ℕ → Copied
  copied pos left = record {
    bytes = block left pos (content disk i_sectors);
    bytes_read = size;
    pos = pos + left;
  }

  read_loop-end :
      (fuel pos left : ℕ)
      → left ≡ 0
      → read_loop fuel disk all size pos size left ≡ done (copied pos left)
  unfolding read_loop
  read_loop-end zero pos left e =
      let n : ltb size size ≡ false = ground arith in
      let z : pos + 0 ≡ pos = omega arith in rw (e, read_loop, n, z) refl
  read_loop-end (suc fuel) pos left e =
      let n : ltb size size ≡ false = ground arith in
      let z : pos + 0 ≡ pos = omega arith in rw (e, read_loop, n, z) refl

  behind-copied :
      (pos n left : ℕ)
      → pos % 512 + n ≤ 512
      → all (pos / 512) ≡ block_of disk i_sectors (pos / 512)
      → behind (chunk_at disk all pos n) (copied (pos + n) left) ≡ copied pos (n + left)
  behind-copied pos n left fits e =
      let c = chunk_at_lem disk i_sectors all pos n fits e in
      let b = block-append n left pos (content disk i_sectors) in
      let z : pos + n + left ≡ pos + (n + left) = omega arith in rw (c, b, z) refl

  read_loop_lem :
      (fuel pos bytes_read left : ℕ)
      → bytes_read + left ≡ size
      → left ≤ fuel
      → size < u32_mod
      → pos + left < u32_mod
      → ((b : ℕ) → pos / 512 ≤ b → b * 512 < pos + left → all b ≡ block_of disk i_sectors b)
      → read_loop fuel disk all size pos bytes_read left ≡ done (copied pos left)
  unfolding read_loop
  read_loop_lem zero pos bytes_read left e l small m g =
      let z : left ≡ 0 = omega (arith, l) in
      let all_read : bytes_read ≡ size = omega (arith, e, z) in
      rw all_read (read_loop-end 0 pos left z)
  read_loop_lem (suc fuel) pos bytes_read left e l small m g = elim (ℕ_discrete left 0) [
    | yes z ↦
        let all_read : bytes_read ≡ size = omega (arith, e, z) in
        rw all_read (read_loop-end (suc fuel) pos left z)
    | no ne ↦
        let n = chunk_of pos left in
        let some_left : 0 < left = omega arith in
        let fits : (pos % 512 + n ≤ 512) × (0 < n) × (n ≤ left) = ground arith in
        let more : ltb bytes_read size ≡ true = lt→ltb bytes_read size (omega arith) in
        let p : add32 pos n ≡ pos + n = omega arith in
        let b : add32 bytes_read n ≡ bytes_read + n = omega arith in
        let s : sub32 left n ≡ left - n = omega arith in
        let run =
          read_loop_lem fuel (pos + n) (bytes_read + n) (left - n) (omega arith) (omega arith) small
            (omega arith) (λ k h1 h2. g k (omega (arith, h1)) (omega (arith, h2))) in
        let z : n + (left - n) ≡ left = omega arith in
        let here = g (pos / 512) (omega arith) (omega arith) in
        rw (read_loop, more, p, b, s, run)
          (ap done (behind-copied pos n (left - n) fits.0 here ∙ ap (copied pos) z))
  ]

-- Are the addresses of the file's blocks where file_read looks for them? A file has a block for the
-- byte behind its last one, too.
pub record IsReadable (i : Inode) (f : File) : Type 0 where
  pub inside : f.fd_pos ≤ i.i_size
  pub size_bound : i.i_size < 139 * 512
  pub table : 12 * 512 ≤ i.i_size → i.i_sectors 12 ≢ 0

read_blocks_lem :
    (disk : Bytes) (i : Inode) (f : File) (size : ℕ) (all : ℕ → ℕ)
    → IsReadable i f
    → f.fd_pos + size ≤ i.i_size
    → read_blocks disk i f size all ≡ done (copied disk i.i_sectors all size f.fd_pos size)
unfolding read_blocks
read_blocks_lem disk i f size all v l =
    let start = f.fd_pos / 512 in
    let last = (f.fd_pos + size) / 512 in
    let inside = v.inside in
    let bound = v.size_bound in
    let no_wrap : add32 f.fd_pos size ≡ f.fd_pos + size = omega arith in
    let a : ltb start 139 ≡ true = lt→ltb start 139 (omega arith) in
    let b : ltb last 139 ≡ true = lt→ltb last 139 (omega arith) in
    let (all', e, g) =
      gather_lem disk i.i_sectors all start last (omega arith) (omega arith)
        (λ t. v.table (omega (arith, t))) in
    let run =
      read_loop_lem disk i.i_sectors all' size size f.fd_pos 0 size (omega arith) (omega arith)
        (omega arith) (omega arith) (λ k h1 h2. g k h1 (omega (arith, h2))) in
    rw (no_wrap, a, b, e) run

-- What a read of `n` bytes from the position of an open file leaves.
abbrev pub read_of : Bytes → Inode → File → ℕ → ReadResult
read_of disk i f n = record {
  value = some n;
  bytes = block n f.fd_pos (content disk i.i_sectors);
  file = record f { fd_pos = f.fd_pos + n };
}

read_sized_lem :
    (disk io_buf : Bytes) (all : ℕ → ℕ) (i : Inode) (f : File) (n : ℕ)
    → IsReadable i f
    → f.fd_pos + n ≤ i.i_size
    → read_sized disk (some io_buf) (some all) i f n ≡ done (read_of disk i f n)
unfolding read_sized
read_sized_lem disk io_buf all i f n v l = rw (read_blocks_lem disk i f n all v l) refl

-- With memory at hand, file_read of a file of less than 139 blocks whose position is inside returns
-- -1 at the file's end when a byte or more is asked for. Else it returns the file's bytes from the
-- position on, taken through the direct and the indirect blocks, as many as were asked for or as
-- there are, and moves the position behind them.
pub file_read_lem :
    (disk : Bytes) (io_buf : Bytes) (all : ℕ → ℕ) (i : Inode) (f : File) (count : ℕ)
    → IsReadable i f
    → f.fd_pos + count < u32_mod
    → file_read disk (some io_buf) (some all) i f count
      ≡ done (
          if (f.fd_pos == i.i_size) && ltb 0 count
          then read_failed f
          else read_of disk i f (min count (i.i_size - f.fd_pos)))
unfolding file_read
file_read_lem disk io_buf all i f count v small =
    let inside = v.inside in
    let bound = v.size_bound in
    let no_wrap : add32 f.fd_pos count ≡ f.fd_pos + count = omega arith in
    let rest : sub32 i.i_size f.fd_pos ≡ i.i_size - f.fd_pos = omega arith in
    elim (Bool-cases (is_over i f count)) [
      | inr n ↦
          let fits : f.fd_pos + count ≤ i.i_size = ground (arith, n, no_wrap) in
          let m : min count (i.i_size - f.fd_pos) ≡ count = ground arith in
          let run = read_sized_lem disk io_buf all i f count v fits in
          let c : ((f.fd_pos == i.i_size) && ltb 0 count) ≡ false = ground arith in rw (n, c, m) run
      | inl t ↦
          let over : i.i_size < f.fd_pos + count = ground (arith, t, no_wrap) in
          elim (ℕ_discrete f.fd_pos i.i_size) [
            | yes e ↦
                let z : (i.i_size - f.fd_pos == 0) ≡ true = ground arith in
                let c : ((f.fd_pos == i.i_size) && ltb 0 count) ≡ true = ground arith in
                rw (t, c, rest, z) refl
            | no ne ↦
                let m : min count (i.i_size - f.fd_pos) ≡ i.i_size - f.fd_pos = ground arith in
                let c : ((f.fd_pos == i.i_size) && ltb 0 count) ≡ false = ground arith in
                let z : (i.i_size - f.fd_pos == 0) ≡ false = ground arith in
                let run =
                  read_sized_lem disk io_buf all i f (i.i_size - f.fd_pos) v (omega arith) in
                rw (t, c, rest, z, m) run
          ]
    ]
