-- ===== src/Directory/Deleting/Clearing.antt =====
-- delete_dir_entry of an entry whose sector stays.
use enix.Base.{
  ℕ, ◌+◌, ◌-◌, ◌%◌, ◌≡◌, ◌≢◌, ◌≤◌, ◌<◌, refl, ap, ◌∙◌, arith, Bool, true, false, not, ◌&&◌, some,
  ltb, leb, ◌==◌, if◌then◌else◌, sub32, u32_mod, done, ◌>>=◌, lt→ltb, List, ◌⊎◌, inl, inr,
  ℕ_discrete,
}
use enix.Inode.{Bytes, Partition, inode_size, pure, inode_sync}
use enix.Inode.Sync.{slot, inode_sync_lem}
use enix.Volume.{Volume, all_blocks}
use enix.Directory.{Dir, sector}
use enix.Directory.Adding.Reuse.{with_entry, write_entry-with_entry}
use enix.Directory.Deleting.{
  Removed, no_scan, scan_entries, inode_bytes, shrink, remove_entry, clear_entry, delete_dir_entry,
}
use enix.Directory.Deleting.Scanning.{
  AreStrings, is_sought, ordinaries, has_self, scan_entries-found_one, scan_entries-not_found,
}
use enix.Directory.Deleting.Endless.{IsPassed, found_one, delete_loop-found}

abbrev pub smaller_dir : Dir → Dir
smaller_dir dir = record dir { i_size = dir.i_size - 24 }

shrink_lem :
    (part : Partition) (r : Removed) (disk' : Bytes)
    → 24 ≤ r.dir.i_size
    → r.dir.i_size < u32_mod
    → inode_sync part (inode_bytes (smaller_dir r.dir)) (λ i. 0) r.vol.disk ≡ done disk'
    → shrink part r
      ≡ done (record { dir = smaller_dir r.dir; vol = record (r.vol) { disk = disk' } })
unfolding shrink
shrink_lem part r disk' size small run =
    let enough : leb 24 r.dir.i_size ≡ true = ground arith in
    let less : sub32 r.dir.i_size 24 ≡ r.dir.i_size - 24 = omega arith in
    let run' : inode_sync part (inode_bytes (record (r.dir) { i_size = sub32 r.dir.i_size 24 }))
          (λ i. 0) r.vol.disk
        ≡ done disk' =
      ap (λ n. inode_sync part (inode_bytes (record (r.dir) { i_size = n })) (λ i. 0) r.vol.disk)
        less
      ∙ run in
    rw (enough, run')
      (ap
        (λ n.
          done
            (record { dir = record (r.dir) { i_size = n }; vol = record (r.vol) { disk = disk' } }))
        less)

remove_entry-clear :
    (fuel : ℕ) (part : Partition) (b k count : ℕ) (first : Bool) (all : ℕ → ℕ) (dir : Dir)
    (v : Volume)
    → 0 < count
    → ((count == 1) && not first) ≡ false
    → remove_entry fuel part b k (found_one k count first) all dir v
      ≡ shrink part (clear_entry (all b) k dir v)
unfolding remove_entry
remove_entry-clear fuel part b k count first all dir v some_count stays =
    let t : ltb 0 count ≡ true = lt→ltb 0 count some_count in rw (t, stays) refl

-- The same from what the passes over the sectors leave.
cleared_after_scan :
    (fuel : ℕ) (part : Partition) (pdir : Dir) (inode_no b k count : ℕ) (first : Bool) (v : Volume)
    → b < 140
    → k < 21
    → ((j : ℕ) → j < b → IsPassed inode_no (all_blocks v.disk pdir.i_sectors) v j)
    → all_blocks v.disk pdir.i_sectors b ≢ 0
    → scan_entries 21 0 (sector v.disk (all_blocks v.disk pdir.i_sectors b)) inode_no no_scan
      ≡ done (found_one k count first)
    → 0 < count
    → ((count == 1) && not first) ≡ false
    → 24 ≤ pdir.i_size
    → pdir.i_size < u32_mod
    → part.inode_table_lba + 38 ≤ part.start_lba + part.sec_cnt
    → part.start_lba + part.sec_cnt < u32_mod
    → (r : Removed) × (delete_dir_entry fuel part pdir inode_no v ≡ done (some r))
      × (r.dir ≡ smaller_dir pdir)
      × (r.vol.block_bitmap ≡ v.block_bitmap)
      × (r.vol.inode_bitmap ≡ v.inode_bitmap)
      × ((a : ℕ)
          → r.vol.disk a ≡ (
              if leb (slot part (pdir.i_no % 256)) a
                && ltb a (slot part (pdir.i_no % 256) + inode_size)
              then pure (inode_bytes (smaller_dir pdir)) (a - slot part (pdir.i_no % 256))
              else with_entry (all_blocks v.disk pdir.i_sectors b) k (λ i. 0) v.disk a))
unfolding delete_dir_entry
cleared_after_scan fuel part pdir inode_no b k count first v lt inside passed ne scan some_count
      stays size small within bound =
    let all = all_blocks v.disk pdir.i_sectors in
    let cleared = clear_entry (all b) k pdir v in
    let inode = inode_bytes (smaller_dir pdir) in
    let start = delete_loop-found fuel part inode_no all pdir v b k count first lt passed ne scan in
    let (disk', run, change) =
      inode_sync_lem part inode (λ i. 0) cleared.vol.disk (omega arith) within bound in
    let low : inode 0 ≡ pdir.i_no % 256 = omega arith in
    let all_done =
      remove_entry-clear fuel part b k count first all pdir v some_count stays
      ∙ shrink_lem part cleared disk' size small run in
    (
      record { dir = smaller_dir pdir; vol = record v { disk = disk' } },
      start ∙ ap (λ r. r >>= λ x. done (some x)) all_done,
      refl,
      refl,
      refl,
      λ a. change a ∙ rw (low, write_entry-with_entry (all b) k (λ i. 0) v.disk a inside) refl,
    )

-- The names of the entries in the sectors up to the one of index `b` are strings of at most 15 bytes,
-- where `names` gives them by sector and entry.
abbrev pub NamedUpTo : ℕ → (ℕ → ℕ → List ℕ) → Bytes → (ℕ → ℕ) → Type 0
NamedUpTo b names disk all =
    (j : ℕ) → j ≤ b → all j ≢ 0 → AreStrings (sector disk (all j)) (names (all j))

stays_if : (n : ℕ) (first : Bool) → (1 < n) ⊎ (first ≡ true) → ((n == 1) && not first) ≡ false
stays_if n first (inl h) = let f : (n == 1) ≡ false = ground arith in rw f refl
stays_if n first (inr t) = rw t (and_false (n == 1))
  where
    and_false : (b : Bool) → (b && false) ≡ false
    and_false true = refl
    and_false false = refl

-- An entry is sought if it is in use, has another name than "." and ".." and the inode's number. Where
-- no entry in front of the sector of index `b` is sought and entry `k` alone in that sector, and another
-- such entry stands there with it, whatever its inode, or one in use of the name ".", delete_dir_entry
-- clears entry `k` and returns true. The size shrinks by an entry, and the inode is written to the
-- table's entry of its number's lowest byte; besides these two places the disk is as it was, and so are
-- the bitmaps and the sectors.
pub delete_dir_entry-clear :
    (fuel : ℕ) (part : Partition) (pdir : Dir) (inode_no b k : ℕ) (names : ℕ → ℕ → List ℕ)
    (v : Volume)
    → b < 140
    → k < 21
    → NamedUpTo b names v.disk (all_blocks v.disk pdir.i_sectors)
    → ((j : ℕ)
        → j < b
        → all_blocks v.disk pdir.i_sectors j ≢ 0
        → (i : ℕ) → i < 21
        → is_sought
            (sector v.disk (all_blocks v.disk pdir.i_sectors j))
            (names (all_blocks v.disk pdir.i_sectors j))
            inode_no
            i
          ≡ false)
    → all_blocks v.disk pdir.i_sectors b ≢ 0
    → is_sought
        (sector v.disk (all_blocks v.disk pdir.i_sectors b))
        (names (all_blocks v.disk pdir.i_sectors b))
        inode_no
        k
      ≡ true
    → ((i : ℕ)
        → i ≢ k
        → i < 21
        → is_sought
            (sector v.disk (all_blocks v.disk pdir.i_sectors b))
            (names (all_blocks v.disk pdir.i_sectors b))
            inode_no
            i
          ≡ false)
    → (1
        < ordinaries
            (sector v.disk (all_blocks v.disk pdir.i_sectors b))
            (names (all_blocks v.disk pdir.i_sectors b))
            21
            0)
      ⊎ (has_self
            (sector v.disk (all_blocks v.disk pdir.i_sectors b))
            (names (all_blocks v.disk pdir.i_sectors b))
            21
            0
          ≡ true)
    → 24 ≤ pdir.i_size
    → pdir.i_size < u32_mod
    → part.inode_table_lba + 38 ≤ part.start_lba + part.sec_cnt
    → part.start_lba + part.sec_cnt < u32_mod
    → (r : Removed) × (delete_dir_entry fuel part pdir inode_no v ≡ done (some r))
      × (r.dir ≡ smaller_dir pdir)
      × (r.vol.block_bitmap ≡ v.block_bitmap)
      × (r.vol.inode_bitmap ≡ v.inode_bitmap)
      × ((a : ℕ)
          → r.vol.disk a ≡ (
              if leb (slot part (pdir.i_no % 256)) a
                && ltb a (slot part (pdir.i_no % 256) + inode_size)
              then pure (inode_bytes (smaller_dir pdir)) (a - slot part (pdir.i_no % 256))
              else with_entry (all_blocks v.disk pdir.i_sectors b) k (λ i. 0) v.disk a))
delete_dir_entry-clear fuel part pdir inode_no b k names v lt inside named before ne sought others
      kept size small within bound =
    let all = all_blocks v.disk pdir.i_sectors in
    let (scan, some_count) =
      scan_entries-found_one (sector v.disk (all b)) (names (all b)) inode_no
        (named b (omega arith) ne) k inside sought others in
    let passed : (j : ℕ) → j < b → IsPassed inode_no all v j = λ j h. elim (ℕ_discrete (all j) 0) [
      | yes z ↦ inl z
      | no nz ↦
          let (s, e, f) =
            scan_entries-not_found (sector v.disk (all j)) (names (all j)) inode_no
              (named j (omega arith) nz) (before j h nz) in
          inr (s, nz, e, f)
    ] in
    cleared_after_scan fuel part pdir inode_no b k
      (ordinaries (sector v.disk (all b)) (names (all b)) 21 0)
      (has_self (sector v.disk (all b)) (names (all b)) 21 0) v lt inside passed ne scan some_count
      (stays_if (ordinaries (sector v.disk (all b)) (names (all b)) 21 0)
        (has_self (sector v.disk (all b)) (names (all b)) 21 0) kept)
      size small within bound
