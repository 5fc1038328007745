-- ===== src/Volume/Release.antt =====
-- inode_release gives back the blocks of an inode, and the inode.
use enix.Base.{
  ℕ, zero, suc, ◌+◌, ◌-◌, ◌*◌, ◌≡◌, ◌≢◌, ◌<◌, ◌≤◌, refl, ◌∙◌, ap, sym, Bool, true, false, not, ◌&&◌,
  ◌||◌, inl, inr, arith, ltb, ◌==◌, if◌then◌else◌, u32_mod, sub32, done, Bool-cases,
}
use enix.Bitmap.{bitmap_scan_test, write_bit}
use enix.Bitmap.Bytes.{put, bitmap_set_lem}
use enix.Inode.{Bytes}
use enix.Volume.{
  Volume, of_inodes, of_blocks, bitmap_sync, release_block, release_loop, all_blocks,
  release_blocks, release_bits,
}
use enix.Volume.Synced.{IsSynced, written, written-IsSynced}

-- The sector of one of `len` blocks behind the first one, which is the root directory's.
abbrev pub IsBlock : ℕ → ℕ → ℕ → Type 0
IsBlock start len lba = (start < lba) × (lba - start < len) × (lba < u32_mod)

-- The state behind the release of the blocks that `freed` tells.
pub record Frees (freed : ℕ → Bool) (v v' : Volume) : Type 0 where
  pub synced : IsSynced v'
  pub same_super : v'.sb ≡ v.sb
  pub same_len : v'.block_bitmap.btmp_bytes_len ≡ v.block_bitmap.btmp_bytes_len
  pub same_inodes : v'.inode_bitmap ≡ v.inode_bitmap
  pub bits :
      (p : ℕ)
      → bitmap_scan_test v'.block_bitmap p
        ≡ (if freed p then false else bitmap_scan_test v.block_bitmap p)

Frees-none : (v : Volume) → IsSynced v → Frees (λ p. false) v v
Frees-none v s = record {
  synced = s;
  same_super = refl;
  same_len = refl;
  same_inodes = refl;
  bits = λ p. refl;
}

Frees-same : (f g : ℕ → Bool) (v v' : Volume) → ((p : ℕ) → f p ≡ g p) → Frees f v v' → Frees g v v'
Frees-same f g v v' h x = record {
  synced = x.synced;
  same_super = x.same_super;
  same_len = x.same_len;
  same_inodes = x.same_inodes;
  bits = λ p. rw (sym (h p)) (x.bits p);
}

Frees-both :
    (f g : ℕ → Bool) (v v1 v2 : Volume)
    → Frees f v v1
    → Frees g v1 v2
    → Frees (λ p. f p || g p) v v2
Frees-both f g v v1 v2 x y = record {
  synced = y.synced;
  same_super = y.same_super ∙ x.same_super;
  same_len = y.same_len ∙ x.same_len;
  same_inodes = y.same_inodes ∙ x.same_inodes;
  bits = λ p. ground (arith, x.bits p, y.bits p);
}

release_block-Frees :
    (lba : ℕ) (v : Volume)
    → IsSynced v
    → IsBlock v.sb.data_start_lba (8 * v.block_bitmap.btmp_bytes_len) lba
    → (release_block lba v ≡ done (written of_blocks (lba - v.sb.data_start_lba) 0 v))
      × Frees
          (λ p. lba - v.sb.data_start_lba == p)
          v
          (written of_blocks (lba - v.sb.data_start_lba) 0 v)
unfolding release_block bitmap_sync write_bit
release_block-Frees lba v s (after, inside, small) =
    let i = lba - v.sb.data_start_lba in
    let e : sub32 lba v.sb.data_start_lba ≡ i = omega arith in
    let t : ltb 0 i ≡ true = ground arith in
    let w = bitmap_set_lem v.block_bitmap i 0 (s.valid of_blocks) (omega arith) in
    (
      rw (e, t) refl,
      record {
        synced = written-IsSynced v s i 0 (omega arith) of_blocks inside;
        same_super = refl;
        same_len = refl;
        same_inodes = refl;
        bits = λ p. w.3 p;
      },
    )

-- Is the block of index `p` among the `left` entries from one on?
abbrev pub among : ℕ → ℕ → (ℕ → ℕ) → ℕ → ℕ → Bool
among zero idx all start p = false
among (suc left) idx all start p =
    (not (all idx == 0) && (all idx - start == p)) || among left (idx + 1) all start p

-- All of the 140 entries that are not 0 are blocks.
abbrev pub AreBlocks : ℕ → ℕ → (ℕ → ℕ) → Type 0
AreBlocks start len all = (j : ℕ) → j < 140 → all j ≢ 0 → IsBlock start len (all j)

release_loop-Frees :
    (left idx : ℕ) (all : ℕ → ℕ) (v : Volume) (start len : ℕ)
    → v.sb.data_start_lba ≡ start
    → 8 * v.block_bitmap.btmp_bytes_len ≡ len
    → IsSynced v
    → AreBlocks start len all
    → idx + left ≤ 140
    → (v' : Volume) × (release_loop left idx all v ≡ done v')
      × Frees (among left idx all start) v v'
unfolding release_loop
release_loop-Frees zero idx all v start len es el s blocks bd = (v, refl, Frees-none v s)
release_loop-Frees (suc left) idx all v start len es el s blocks bd =
    elim (Bool-cases (all idx == 0)) [
      | inl t ↦
          let (v', e, f) =
            release_loop-Frees left (idx + 1) all v start len es el s blocks (omega (arith, bd)) in
          (
            v',
            rw (t, release_loop) e,
            Frees-same (among left (idx + 1) all start) (among (suc left) idx all start) v v'
                (λ p. rw t refl) f,
          )
      | inr n ↦
          let is : IsBlock v.sb.data_start_lba (8 * v.block_bitmap.btmp_bytes_len) (all idx) =
            rw (es, el) (blocks idx (omega (arith, bd)) (ground (arith, n))) in
          let (e1, f1) = release_block-Frees (all idx) v s is in
          let v1 = written of_blocks (all idx - v.sb.data_start_lba) 0 v in
          let (v', e, f) =
            release_loop-Frees left (idx + 1) all v1 start len
              (ap (λ b. b.data_start_lba) f1.same_super ∙ es) (ap (λ x. 8 * x) f1.same_len ∙ el)
              f1.synced blocks (omega (arith, bd)) in
          (
            v',
            rw (n, release_loop, e1) e,
            Frees-same
                (λ p. (all idx - v.sb.data_start_lba == p) || among left (idx + 1) all start p)
                (among (suc left) idx all start) v v' (λ p. rw (n, es) refl)
                (Frees-both (λ p. all idx - v.sb.data_start_lba == p)
                  (among left (idx + 1) all start) v v1 v' f1 f),
          )
    ]

-- The blocks of an inode, the one of its indirect table included.
abbrev pub held : Bytes → (ℕ → ℕ) → ℕ → ℕ → Bool
held disk i_sectors start p =
    if i_sectors 12 == 0
    then among 12 0 (all_blocks disk i_sectors) start p
    else (i_sectors 12 - start == p) || among 140 0 (all_blocks disk i_sectors) start p

module _ (i_sectors : ℕ → ℕ) (v : Volume) (s : IsSynced v)
    (blocks : AreBlocks v.sb.data_start_lba
      (8 * v.block_bitmap.btmp_bytes_len)
      (all_blocks v.disk i_sectors))
    (table : i_sectors 12 ≢ 0
      → IsBlock v.sb.data_start_lba (8 * v.block_bitmap.btmp_bytes_len) (i_sectors 12)) where
  abbrev pub start : ℕ
  start = v.sb.data_start_lba

  abbrev len : ℕ
  len = 8 * v.block_bitmap.btmp_bytes_len

  abbrev all : ℕ → ℕ
  all = all_blocks v.disk i_sectors

  release_blocks-Frees :
      (v' : Volume) × (release_blocks i_sectors v ≡ done v')
      × Frees (held v.disk i_sectors start) v v'
  unfolding release_blocks
  release_blocks-Frees = elim (Bool-cases (i_sectors 12 == 0)) [
    | inl t ↦
        let (v', e, f) = release_loop-Frees 12 0 all v start len refl refl s blocks (omega arith) in
        (
          v',
          rw (t, release_blocks) e,
          Frees-same (among 12 0 all start) (held v.disk i_sectors start) v v' (λ p. rw t refl) f,
        )
    | inr n ↦
        let (e1, f1) = release_block-Frees (i_sectors 12) v s (table (ground (arith, n))) in
        let v1 = written of_blocks (i_sectors 12 - start) 0 v in
        let (v', e, f) =
          release_loop-Frees 140 0 all v1 start len (ap (λ b. b.data_start_lba) f1.same_super)
            (ap (λ x. 8 * x) f1.same_len) f1.synced blocks (omega arith) in
        (
          v',
          rw (n, release_blocks, e1) e,
          Frees-same (λ p. (i_sectors 12 - start == p) || among 140 0 all start p)
              (held v.disk i_sectors start) v v' (λ p. rw n refl)
              (Frees-both (λ p. i_sectors 12 - start == p) (among 140 0 all start) v v1 v' f1 f),
        )
  ]

  -- Where all of an inode's sectors are blocks of the partition, the release of its bits ends, with
  -- bitmaps that agree with the disk again: exactly the bits of its blocks, its indirect table among
  -- them, and its own bit are cleared, and all others are as before.
  pub release_bits_lem :
      (inode_no : ℕ)
      → inode_no < 8 * v.inode_bitmap.btmp_bytes_len
      → (v' : Volume) × (release_bits inode_no i_sectors v ≡ done v')
        × IsSynced v'
        × ((p : ℕ)
            → bitmap_scan_test v'.block_bitmap p ≡ (
                if held v.disk i_sectors start p then false else bitmap_scan_test v.block_bitmap p))
        × ((p : ℕ)
            → bitmap_scan_test v'.inode_bitmap p
              ≡ put (bitmap_scan_test v.inode_bitmap) inode_no false p)
  unfolding release_bits bitmap_sync
  release_bits_lem inode_no inside =
      let (v1, e, f) = release_blocks-Frees in
      let bound : inode_no < 8 * v1.inode_bitmap.btmp_bytes_len = rw f.same_inodes inside in
      let w = bitmap_set_lem v1.inode_bitmap inode_no 0 (f.synced.valid of_inodes) (omega arith) in
      (
        written of_inodes inode_no 0 v1,
        rw (e, release_bits) refl,
        written-IsSynced v1 f.synced inode_no 0 (omega arith) of_inodes bound,
        f.bits,
        λ p. w.3 p ∙ rw f.same_inodes refl,
      )
