-- ===== src/Directory/Adding/Reuse.antt =====
-- Where sync_dir_entry writes an entry of a directory of direct blocks.
use enix.Base.{
  ℕ, zero, suc, ◌+◌, ◌-◌, ◌*◌, ◌%◌, ◌≡◌, ◌≢◌, ◌≤◌, ◌<◌, refl, sym, ap, ◌∙◌, arith, true, false, inl,
  inr, ◌&&◌, Option, none, some, ltb, leb, ◌==◌, if◌then◌else◌, done, Bool-cases, lt→ltb, ==_iff,
}
use enix.Inode.{Bytes, ide_write}
use enix.Volume.{Volume}
use enix.Directory.{Dir, is_unknown, sector}
use enix.Directory.Adding.{
  put_entry, Synced, grow_dir, free_entry, write_entry, fill_blocks, sync_loop, direct_blocks,
  sync_dir_entry,
}

is_not_zero : (a : ℕ) → a ≢ 0 → (a == 0) ≡ false
is_not_zero a ne = ground arith

-- All entries of a sector are in use.
abbrev pub IsFullSector : Bytes → Type 0
IsFullSector buf = (k : ℕ) → k < 21 → is_unknown buf k ≡ false

free_entry-none :
    (left idx : ℕ) (buf : Bytes)
    → idx + left ≤ 21
    → IsFullSector buf
    → free_entry left idx buf ≡ none
unfolding free_entry
free_entry-none zero idx buf b full = refl
free_entry-none (suc left) idx buf b full =
    rw (full idx (omega (arith, b))) (free_entry-none left (idx + 1) buf (omega (arith, b)) full)

free_entry-some :
    (n left idx : ℕ) (buf : Bytes)
    → ((k : ℕ) → idx ≤ k → k < idx + n → is_unknown buf k ≡ false)
    → is_unknown buf (idx + n) ≡ true
    → free_entry (n + suc left) idx buf ≡ some (idx + n)
unfolding free_entry
free_entry-some zero left idx buf used free =
    let z : idx + 0 ≡ idx = omega arith in
    let n : 0 + suc left ≡ suc left = omega arith in
    let f : is_unknown buf idx ≡ true = ap (is_unknown buf) (sym z) ∙ free in rw (n, z, f) refl
free_entry-some (suc n) left idx buf used free =
    let z : idx + suc n ≡ idx + 1 + n = omega arith in
    let m : suc n + suc left ≡ suc (n + suc left) = omega arith in
    let u : is_unknown buf idx ≡ false = used idx (omega arith) (omega arith) in
    let f : is_unknown buf (idx + 1 + n) ≡ true = ap (is_unknown buf) (sym z) ∙ free in
    rw (m, z, free_entry, u)
      (free_entry-some n left (idx + 1) buf (λ k l h. used k (omega arith) (omega arith)) f)

-- The first `b` direct blocks of a directory are there and full.
abbrev pub AreFull : ℕ → Dir → Volume → Type 0
AreFull b dir v =
    (j : ℕ) → j < b → (dir.i_sectors j ≢ 0) × IsFullSector (sector v.disk (dir.i_sectors j))

pub fill_blocks-direct_blocks :
    (idx : ℕ) (dir : Dir) (v : Volume)
    → idx < 12
    → fill_blocks idx (direct_blocks dir.i_sectors) dir v ≡ direct_blocks dir.i_sectors
fill_blocks-direct_blocks idx dir v lt = let e : (idx == 12) ≡ false = ground arith in rw e refl

direct_blocks_lem :
    (idx : ℕ) (i_sectors : ℕ → ℕ) → idx < 12 → direct_blocks i_sectors idx ≡ i_sectors idx
direct_blocks_lem idx i_sectors lt = rw (lt→ltb idx 12 lt) refl

pub fill_blocks-here :
    (idx : ℕ) (dir : Dir) (v : Volume)
    → idx < 12
    → fill_blocks idx (direct_blocks dir.i_sectors) dir v idx ≡ dir.i_sectors idx
fill_blocks-here idx dir v lt =
    ap (λ g. g idx) (fill_blocks-direct_blocks idx dir v lt)
    ∙ direct_blocks_lem idx dir.i_sectors lt

module _ (left idx : ℕ) (p_de : Bytes) (dir : Dir) (v : Volume) (direct : idx < 12)
    (ne : dir.i_sectors idx ≢ 0) where
  abbrev all : ℕ → ℕ
  all = direct_blocks dir.i_sectors

  abbrev buf : Bytes
  buf = sector v.disk (dir.i_sectors idx)

  same_blocks : fill_blocks idx all dir v ≡ all
  same_blocks = fill_blocks-direct_blocks idx dir v direct

  here : fill_blocks idx all dir v idx ≡ dir.i_sectors idx
  here = fill_blocks-here idx dir v direct

  there : (fill_blocks idx all dir v idx == 0) ≡ false
  there = ap (λ x. x == 0) here ∙ is_not_zero (dir.i_sectors idx) ne

  entry_here :
      (r : Option ℕ)
      → free_entry 21 0 buf ≡ r
      → free_entry 21 0 (sector v.disk (fill_blocks idx all dir v idx)) ≡ r
  entry_here r f = ap (λ x. free_entry 21 0 (sector v.disk x)) here ∙ f

  sync_loop-next :
      IsFullSector buf
      → sync_loop (suc left) idx p_de all dir v ≡ sync_loop left (idx + 1) p_de all dir v
  unfolding sync_loop
  sync_loop-next full =
      let f = entry_here none (free_entry-none 21 0 buf (omega arith) full) in
      rw (sync_loop, there, f) (ap (λ g. sync_loop left (idx + 1) p_de g dir v) same_blocks)

  sync_loop-entry :
      (k : ℕ)
      → free_entry 21 0 buf ≡ some k
      → sync_loop (suc left) idx p_de all dir v
        ≡ done (write_entry (dir.i_sectors idx) k p_de all dir v)
  unfolding sync_loop
  sync_loop-entry k f =
      rw (sync_loop, there, entry_here (some k) f)
        (ap (λ g. done (write_entry (g idx) k p_de g dir v)) same_blocks
          ∙ ap (λ x. done (write_entry x k p_de all dir v))
              (direct_blocks_lem idx dir.i_sectors direct))

sync_loop-skip :
    (n left idx : ℕ) (p_de : Bytes) (dir : Dir) (v : Volume)
    → idx + n ≤ 12
    → AreFull (idx + n) dir v
    → sync_loop (n + left) idx p_de (direct_blocks dir.i_sectors) dir v
      ≡ sync_loop left (idx + n) p_de (direct_blocks dir.i_sectors) dir v
unfolding sync_loop
sync_loop-skip zero left idx p_de dir v b full =
    let z : idx + 0 ≡ idx = omega arith in let n : 0 + left ≡ left = omega arith in rw (n, z) refl
sync_loop-skip (suc n) left idx p_de dir v b full =
    let z : idx + suc n ≡ idx + 1 + n = omega arith in
    let m : suc n + left ≡ suc (n + left) = omega arith in
    let (ne, all_used) = full idx (omega arith) in
    ap (λ k. sync_loop k idx p_de (direct_blocks dir.i_sectors) dir v) m
    ∙ sync_loop-next (n + left) idx p_de dir v (omega arith) ne all_used
    ∙ sync_loop-skip n left (idx + 1) p_de dir v (omega arith) (λ j h. full j (omega arith))
    ∙ ap (λ k. sync_loop left k p_de (direct_blocks dir.i_sectors) dir v) (sym z)

-- Where the round of block `b` of sync_dir_entry begins, with full blocks before it.
pub sync_dir_entry-skip :
    (b left : ℕ) (p_de : Bytes) (dir : Dir) (v : Volume)
    → b + left ≡ 140
    → b ≤ 12
    → dir.i_size % 24 ≡ 0
    → AreFull b dir v
    → sync_dir_entry p_de dir v ≡ sync_loop left b p_de (direct_blocks dir.i_sectors) dir v
unfolding sync_dir_entry
sync_dir_entry-skip b left p_de dir v rounds le whole full =
    let g : (dir.i_size % 24 == 0) ≡ true = (==_iff (dir.i_size % 24) 0).1 whole in
    let z : 0 + b ≡ b = omega arith in
    rw (sync_dir_entry, g)
      (ap (λ k. sync_loop k 0 p_de (direct_blocks dir.i_sectors) dir v) (sym rounds)
        ∙ sync_loop-skip b left 0 p_de dir v (omega arith) (λ j h. full j (omega arith))
        ∙ ap (λ k. sync_loop left k p_de (direct_blocks dir.i_sectors) dir v) z)

-- A disk on which one entry of a sector was written anew.
abbrev pub with_entry : ℕ → ℕ → Bytes → Bytes → Bytes
with_entry lba k p_de disk a =
    if leb (lba * 512 + 24 * k) a && ltb a (lba * 512 + 24 * k + 24)
    then p_de (a - (lba * 512 + 24 * k))
    else disk a

pub write_entry-with_entry :
    (lba k : ℕ) (p_de disk : Bytes) (a : ℕ)
    → k < 21
    → ide_write disk lba 1 (put_entry k p_de (sector disk lba)) a ≡ with_entry lba k p_de disk a
write_entry-with_entry lba k p_de disk a lt =
    elim (Bool-cases (leb (lba * 512 + 24 * k) a && ltb a (lba * 512 + 24 * k + 24))) [
      | inl t ↦
          let s : (leb (lba * 512) a && ltb a (lba * 512 + 1 * 512)) ≡ true = ground arith in
          let e : (leb (24 * k) (a - lba * 512) && ltb (a - lba * 512) (24 * k + 24)) ≡ true =
            ground arith in
          let i : a - lba * 512 - 24 * k ≡ a - (lba * 512 + 24 * k) = omega arith in
          rw (s, e, t, i) refl
      | inr f ↦ elim (Bool-cases (leb (lba * 512) a && ltb a (lba * 512 + 1 * 512))) [
        | inr g ↦ rw (g, f) refl
        | inl s ↦
            let e : (leb (24 * k) (a - lba * 512) && ltb (a - lba * 512) (24 * k + 24)) ≡ false =
              ground (arith, f, s) in
            let l : ltb (a - lba * 512) (1 * 512) ≡ true = ground arith in
            let i : lba * 512 + (a - lba * 512) ≡ a = ground arith in rw (s, e, l, i, f) refl
      ]
    ]

-- Into a directory whose first direct blocks are there and full, up to one that has an unused entry,
-- sync_dir_entry writes the entry over the first unused one of that block: it returns true, the size
-- grows by an entry, no other byte of the disk changes, and neither do the bitmaps and the sectors.
pub sync_dir_entry-reuse :
    (b k : ℕ) (p_de : Bytes) (dir : Dir) (v : Volume)
    → b < 12
    → k < 21
    → dir.i_size % 24 ≡ 0
    → AreFull b dir v
    → dir.i_sectors b ≢ 0
    → ((m : ℕ) → m < k → is_unknown (sector v.disk (dir.i_sectors b)) m ≡ false)
    → is_unknown (sector v.disk (dir.i_sectors b)) k ≡ true
    → (s : Synced) × (sync_dir_entry p_de dir v ≡ done s)
      × (s.value ≡ true)
      × (s.dir ≡ grow_dir dir)
      × (s.vol.sb ≡ v.sb)
      × (s.vol.block_bitmap ≡ v.block_bitmap)
      × (s.vol.inode_bitmap ≡ v.inode_bitmap)
      × ((a : ℕ) → s.vol.disk a ≡ with_entry (dir.i_sectors b) k p_de v.disk a)
unfolding sync_loop
sync_dir_entry-reuse b k p_de dir v lt inside whole full ne used free =
    let left = 139 - b in
    let all = direct_blocks dir.i_sectors in
    let lba = dir.i_sectors b in
    let rounds : b + suc left ≡ 140 = omega arith in
    let slots : k + suc (20 - k) ≡ 21 = omega arith in
    let z : 0 + k ≡ k = omega arith in
    let buf = sector v.disk lba in
    let first : free_entry 21 0 buf ≡ some k =
      ap (λ n. free_entry n 0 buf) (sym slots)
      ∙ free_entry-some k (20 - k) 0 buf (λ m _ h. used m (omega arith))
          (ap (is_unknown buf) z ∙ free)
      ∙ ap some z in
    (
      write_entry lba k p_de all dir v,
      sync_dir_entry-skip b (suc left) p_de dir v rounds (omega arith) whole full
          ∙ sync_loop-entry left b p_de dir v lt ne k first,
      refl,
      refl,
      refl,
      refl,
      refl,
      λ a. write_entry-with_entry lba k p_de v.disk a inside,
    )
