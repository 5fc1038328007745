-- ===== src/Volume/Synced.antt =====
-- The bitmaps on the disk are those in memory.
use enix.Base.{
  ℕ, ◌+◌, ◌-◌, ◌*◌, ◌/◌, ◌^◌, ◌≡◌, ◌≢◌, ◌≤◌, ◌<◌, ◌⊎◌, inl, inr, refl, ◌∙◌, sym, false, ◌&&◌, arith,
  ltb, leb, ◌==◌, Bool-cases,
}
use enix.Bitmap.{Bitmap, write_bit, IsValid}
use enix.Bitmap.Bytes.{bitmap_set_lem}
use enix.Inode.{Bytes, ide_write}
use enix.Volume.{
  SuperBlock, Volume, BitmapType, of_inodes, of_blocks, bitmap_of, lba_of, set_bitmap,
  mount_partition, bitmap_sync,
}

abbrev pub sects_of : BitmapType → Volume → ℕ
sects_of of_inodes v = v.sb.inode_bitmap_sects
sects_of of_blocks v = v.sb.block_bitmap_sects

pub record IsSynced (v : Volume) : Type 0 where
  pub valid : (kind : BitmapType) → IsValid (bitmap_of kind v)
  pub sized : (kind : BitmapType) → (bitmap_of kind v).btmp_bytes_len ≡ sects_of kind v * 512
  pub apart : v.sb.block_bitmap_lba + v.sb.block_bitmap_sects ≤ v.sb.inode_bitmap_lba
  pub same :
      (kind : BitmapType) (k : ℕ)
      → k < sects_of kind v * 512
      → v.disk (lba_of kind v * 512 + k) ≡ (bitmap_of kind v).bits k

-- The disk behind the writing of the sector of bit `i`, where all other bytes are right already.
sector-same :
    (disk bits : Bytes) (lba i k : ℕ)
    → (k ≢ i / 8 → disk (lba * 512 + k) ≡ bits k)
    → ide_write disk (lba + i / 4096) 1 (λ j. bits (i / 4096 * 512 + j)) (lba * 512 + k) ≡ bits k
sector-same disk bits lba i k other =
    elim (Bool-cases (
      leb ((lba + i / 4096) * 512) (lba * 512 + k)
      && ltb (lba * 512 + k) ((lba + i / 4096) * 512 + 1 * 512))) [
        | inl t ↦
            let e : i / 4096 * 512 + (lba * 512 + k - (lba + i / 4096) * 512) ≡ k =
              ground (arith, t) in
            rw (t, e) refl
        | inr f ↦ let ne : k ≢ i / 8 = ground (arith, f) in rw f (other ne)
      ]

sector-other :
    (disk buf : Bytes) (lba i a sects : ℕ)
    → i < 8 * (sects * 512)
    → (a < lba * 512) ⊎ ((lba + sects) * 512 ≤ a)
    → ide_write disk (lba + i / 4096) 1 buf a ≡ disk a
sector-other disk buf lba i a sects h out =
    let f : (leb ((lba + i / 4096) * 512) a && ltb a ((lba + i / 4096) * 512 + 1 * 512)) ≡ false =
      ground (arith, h, out) in
    rw f refl

write_bit-other : (b : Bitmap) (i value k : ℕ) → k ≢ i / 8 → (write_bit b i value).bits k ≡ b.bits k
unfolding write_bit
write_bit-other b i value k ne = let f : (k == i / 8) ≡ false = ground arith in rw f refl

-- A bit set or cleared in memory and then on the disk.
abbrev pub written : BitmapType → ℕ → ℕ → Volume → Volume
written kind i value v =
    bitmap_sync i kind (set_bitmap kind (write_bit (bitmap_of kind v) i value) v)

module _ (v : Volume) (s : IsSynced v) (i value : ℕ) (bit : value < 2) where
  inside_sects :
      (kind : BitmapType)
      → i < 8 * (bitmap_of kind v).btmp_bytes_len
      → i < 8 * (sects_of kind v * 512)
  inside_sects kind h = omega (arith, h, s.sized kind)

  written_blocks : i < 8 * v.block_bitmap.btmp_bytes_len → IsSynced (written of_blocks i value v)
  unfolding bitmap_sync
  written_blocks h =
      let b = write_bit v.block_bitmap i value in
      let w = bitmap_set_lem v.block_bitmap i value (s.valid of_blocks) bit in
      record {
        valid = elim [ of_inodes ↦ s.valid of_inodes | of_blocks ↦ w.1 ];
        sized = elim [ of_inodes ↦ s.sized of_inodes | of_blocks ↦ w.2 ∙ s.sized of_blocks ];
        apart = s.apart;
        same = elim [
          | of_inodes ↦ λ k lt.
              sector-other v.disk (λ j. b.bits (i / 4096 * 512 + j)) v.sb.block_bitmap_lba i
                (v.sb.inode_bitmap_lba * 512 + k) v.sb.block_bitmap_sects (inside_sects of_blocks h)
                (inr (omega (arith, s.apart)))
              ∙ s.same of_inodes k lt
          | of_blocks ↦ λ k lt.
              sector-same v.disk b.bits v.sb.block_bitmap_lba i k
                (λ ne. s.same of_blocks k lt ∙ sym (write_bit-other v.block_bitmap i value k ne))
        ];
      }

  written_inodes : i < 8 * v.inode_bitmap.btmp_bytes_len → IsSynced (written of_inodes i value v)
  unfolding bitmap_sync
  written_inodes h =
      let b = write_bit v.inode_bitmap i value in
      let w = bitmap_set_lem v.inode_bitmap i value (s.valid of_inodes) bit in
      record {
        valid = elim [ of_inodes ↦ w.1 | of_blocks ↦ s.valid of_blocks ];
        sized = elim [ of_inodes ↦ w.2 ∙ s.sized of_inodes | of_blocks ↦ s.sized of_blocks ];
        apart = s.apart;
        same = elim [
          | of_inodes ↦ λ k lt.
              sector-same v.disk b.bits v.sb.inode_bitmap_lba i k
                (λ ne. s.same of_inodes k lt ∙ sym (write_bit-other v.inode_bitmap i value k ne))
          | of_blocks ↦ λ k lt.
              sector-other v.disk (λ j. b.bits (i / 4096 * 512 + j)) v.sb.inode_bitmap_lba i
                (v.sb.block_bitmap_lba * 512 + k) v.sb.inode_bitmap_sects (inside_sects of_inodes h)
                (inl (omega (arith, s.apart, lt)))
              ∙ s.same of_blocks k lt
        ];
      }

  pub written-IsSynced :
      (kind : BitmapType)
      → i < 8 * (bitmap_of kind v).btmp_bytes_len
      → IsSynced (written kind i value v)
  written-IsSynced of_inodes h = written_inodes h
  written-IsSynced of_blocks h = written_blocks h

-- mount_partition reads both bitmaps as they are on the disk, when the second lies behind the first
-- and the sectors hold bytes.
pub mount_partition-IsSynced :
    (sb : SuperBlock) (disk : Bytes)
    → ((a : ℕ) → disk a < 256)
    → sb.block_bitmap_lba + sb.block_bitmap_sects ≤ sb.inode_bitmap_lba
    → sb.block_bitmap_sects < 2 ^ 19
    → sb.inode_bitmap_sects < 2 ^ 19
    → IsSynced (mount_partition sb disk)
unfolding mount_partition
mount_partition-IsSynced sb disk bytes apart blocks inodes = record {
  valid = elim [
    | of_inodes ↦ record {
      bytes = λ i. ground (arith, bytes (sb.inode_bitmap_lba * 512 + i));
      small = omega arith;
    }
    | of_blocks ↦ record {
      bytes = λ i. ground (arith, bytes (sb.block_bitmap_lba * 512 + i));
      small = omega arith;
    }
  ];
  sized = elim [ of_inodes ↦ refl | of_blocks ↦ refl ];
  apart = apart;
  same = elim [ of_inodes ↦ λ k h. ground (arith, h) | of_blocks ↦ λ k h. ground (arith, h) ];
}
