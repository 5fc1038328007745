-- ===== src/Tests/Directories.antt =====
-- A directory of the entries "a" and "b" in sector 101, one without sectors, and one whose only entry
-- stands in the first sector of its indirect table.
use enix.Base.{
  ℕ, zero, suc, ◌+◌, ◌-◌, ◌<◌, ◌≤◌, ◌≡◌, ◌≢◌, ◌⊎◌, inl, refl, sym, subst, true, false, none, some,
  List, [], ◌∷◌, length, get_elem?, ◌==◌, ◌&&◌, leb, ltb, if◌then◌else◌, done, spins, panicked,
  arith, ℕ_discrete, Bool-cases, inr, ◌*◌,
}
use enix.Bitmap.{bitmap_set, write_bit}
use enix.Strings.{strcmp, strcmp_loop, IsString}
use enix.Inode.{Bytes, Partition, inode_size, pure}
use enix.Inode.Sync.{slot}
use enix.Volume.{
  SuperBlock, Volume, of_blocks, set_bitmap, mount_partition, bitmap_sync, all_blocks, disk_word,
}
use enix.Volume.Synced.{IsSynced, mount_partition-IsSynced}
use enix.Volume.Allocation.{IsFull, IsTaken}
use enix.Directory.{
  Dir, entry_at, is_unknown, sector, has_name, free_block, search_dir_entry, dir_read,
}
use enix.Directory.Searching.{AreNamed, find, listing, search_dir_entry-find}
use enix.Directory.Listing.{used_in, used, dir_read_lem}
use enix.Directory.Adding.{Synced, grow_dir, sync_dir_entry}
use enix.Directory.Adding.Reuse.{with_entry, sync_dir_entry-reuse}
use enix.Directory.Adding.Growth.{grown, sync_dir_entry-grow}
use enix.Directory.Deleting.{
  Removed, no_scan, scan_entries, scan_entry, count_entry, inode_bytes, delete_dir_entry,
}
use enix.Directory.Deleting.Endless.{found_one, delete_dir_entry-spins}
use enix.Directory.Deleting.Scanning.{is_sought, ordinaries}
use enix.Directory.Deleting.Clearing.{NamedUpTo, smaller_dir, delete_dir_entry-clear}

abbrev super : SuperBlock
super = record {
  block_bitmap_lba = 2;
  block_bitmap_sects = 1;
  inode_bitmap_lba = 3;
  inode_bitmap_sects = 1;
  data_start_lba = 100;
}

-- "a" is inode 5 and "b" inode 6; the indirect table in sector 200 leads to sector 103.
abbrev disk : Bytes
disk a =
    if a == 51712
    then 97
    else (if a == 51728
        then 5
        else (if a == 51732
            then 1
            else (if a == 51736
                then 98
                else (if a == 51752
                    then 6
                    else (if a == 51756
                        then 1
                        else (if a == 102400
                            then 103
                            else (if a == 52736
                                then 97
                                else (if a == 52752
                                    then 5
                                    else (if a == 52756 then 1 else 0)))))))))

abbrev volume : Volume
volume = mount_partition super disk

disk_bytes : (a : ℕ) → disk a < 256
disk_bytes a = ground arith

synced : IsSynced volume
synced = mount_partition-IsSynced super disk disk_bytes (omega arith) (omega arith) (omega arith)

abbrev dir : Dir
dir = record { i_no = 3; i_size = 48; i_sectors = λ j. if j == 0 then 101 else 0; dir_pos = 24 }

abbrev new_dir : Dir
new_dir = record { i_no = 3; i_size = 0; i_sectors = λ j. 0; dir_pos = 0 }

abbrev far_dir : Dir
far_dir = record { i_no = 3; i_size = 24; i_sectors = λ j. if j == 12 then 200 else 0; dir_pos = 0 }

abbrev part : Partition
part = record { start_lba = 63; sec_cnt = 10000; inode_table_lba = 300 }

-- The name "b", and an entry of it.
abbrev name_b : Bytes
name_b j = if j == 0 then 98 else 0

order : (b : ℕ) → (b < 12) ⊎ ((b ≡ 12) ⊎ (12 < b))
order b = elim (ℕ_discrete b 12) [
  | yes e ↦ inr (inl e)
  | no n ↦ elim (Bool-cases (ltb b 12)) [
    | inl t ↦ inl (ground (arith, t))
    | inr f ↦ inr (inr (ground (arith, f)))
  ]
]

abbrev all : ℕ → ℕ
all = all_blocks disk dir.i_sectors

both_used : (m : ℕ) → m < 2 → is_unknown (sector disk 101) m ≡ false
both_used zero lt = refl
both_used (suc zero) lt = refl
both_used (suc (suc m)) lt = absurd (omega (arith, lt))

abbrev far_all : ℕ → ℕ
far_all = all_blocks disk far_dir.i_sectors

-- The directory of the indirect table holds "a" alone.
abbrev far_names : ℕ → ℕ → List ℕ
far_names lba zero = 97 ∷ []
far_names lba (suc k) = []

abbrev name_a : Bytes
name_a j = if j == 0 then 97 else 0

rest_of_table : (a : ℕ) → 102400 < a → a < 102912 → disk a ≡ 0
rest_of_table a lo hi = ground arith

no_more : (j : ℕ) → 12 < j → j < 140 → disk_word disk (200 * 512 + 4 * (j - 12)) ≡ 0
no_more j lo hi =
    rw
      (
        rest_of_table (200 * 512 + 4 * (j - 12)) (omega arith) (omega arith),
        rest_of_table (200 * 512 + 4 * (j - 12) + 1) (omega arith) (omega arith),
        rest_of_table (200 * 512 + 4 * (j - 12) + 2) (omega arith) (omega arith),
        rest_of_table (200 * 512 + 4 * (j - 12) + 3) (omega arith) (omega arith),
      )
      refl

only_far : (b : ℕ) → b < 140 → far_all b ≢ 0 → b ≡ 12
only_far b lt ne = elim (order b) [
  | inl lo ↦ absurd (ground (arith, ne))
  | inr (inl e) ↦ e
  | inr (inr hi) ↦ absurd (ne (ground (arith, no_more b hi lt)))
]

far_strings : (k : ℕ) → k < 21 → IsString (entry_at (sector disk 103) k) 0 (far_names 103 k)
far_strings zero lt = (refl, omega arith, refl)
far_strings (suc k) lt = ground arith

short_names : (lba k : ℕ) → length (far_names lba k) < 16
short_names lba zero = omega arith
short_names lba (suc k) = omega arith

named : AreNamed far_names disk far_all
named = record {
  bytes = disk_bytes;
  strings = λ b k lt ne below.
      subst (λ x. IsString (entry_at (sector disk (far_all x)) k) 0 (far_names (far_all x) k))
        (sym (only_far b lt ne)) (far_strings k below);
  short = λ b k lt. short_names (far_all b) k;
}

search_dir_entry-find_example :
    search_dir_entry true disk far_dir name_a
    ≡ done (find (97 ∷ []) (listing far_names disk far_all 140 0))
search_dir_entry-find_example =
    search_dir_entry-find disk name_a (97 ∷ []) (λ a. ground arith) (refl, omega arith, refl)
      far_dir far_names named

two_used : length (used disk all 140 0) ≡ 2
unfolding used_in
two_used = refl

dir_read_lem_example :
    ((2 ≤ 1) × (dir_read disk dir ≡ done (none, dir)))
    ⊎ ((e : Bytes) × (get_elem? (used disk all 140 0) 1 ≡ some e)
        × (dir_read disk dir ≡ done (some e, record dir { dir_pos = 48 })))
dir_read_lem_example = dir_read_lem disk dir 1 2 refl refl (omega (arith, two_used)) (omega arith)

sync_dir_entry-reuse_example :
    (s : Synced) × (sync_dir_entry name_b dir volume ≡ done s)
    × (s.value ≡ true)
    × (s.dir ≡ grow_dir dir)
    × (s.vol.sb ≡ volume.sb)
    × (s.vol.block_bitmap ≡ volume.block_bitmap)
    × (s.vol.inode_bitmap ≡ volume.inode_bitmap)
    × ((a : ℕ) → s.vol.disk a ≡ with_entry 101 2 name_b volume.disk a)
unfolding mount_partition
sync_dir_entry-reuse_example =
    sync_dir_entry-reuse 0 2 name_b dir volume (omega arith) (omega arith) refl
      (λ j h. absurd (omega (arith, h))) (omega arith) both_used refl

sync_dir_entry-grow_example :
    ((sync_dir_entry name_b new_dir volume ≡ panicked) × IsFull volume.block_bitmap)
    ⊎ ((i : ℕ) × (v1 : Volume) × (sync_dir_entry name_b new_dir volume
          ≡ done (grown 0 i name_b new_dir volume v1))
        × IsTaken of_blocks i volume v1
        × (v1.disk ≡ volume.disk)
        × (v1.inode_bitmap ≡ volume.inode_bitmap))
unfolding mount_partition
sync_dir_entry-grow_example =
    sync_dir_entry-grow 0 name_b new_dir volume synced (omega arith) (omega arith) refl
      (λ j h. absurd (omega (arith, h))) refl

abbrev dir_names : ℕ → ℕ → List ℕ
dir_names lba zero = 97 ∷ []
dir_names lba (suc zero) = 98 ∷ []
dir_names lba (suc (suc k)) = []

dir_strings : (k : ℕ) → k < 21 → IsString (entry_at (sector disk 101) k) 0 (dir_names 101 k)
dir_strings zero lt = (refl, omega arith, refl)
dir_strings (suc zero) lt = (refl, omega arith, refl)
dir_strings (suc (suc k)) lt = ground arith

short_dir_names : (lba k : ℕ) → length (dir_names lba k) < 16
short_dir_names lba zero = omega arith
short_dir_names lba (suc zero) = omega arith
short_dir_names lba (suc (suc k)) = omega arith

dir_named : NamedUpTo 0 dir_names disk all
dir_named zero le ne = record {
  bytes = λ a. ground (arith, disk_bytes (101 * 512 + a));
  strings = dir_strings;
  short = λ k lt. short_dir_names 101 k;
}
dir_named (suc j) le ne = absurd (omega (arith, le))

unused : (i : ℕ) → 2 ≤ i → i < 21 → is_unknown (sector disk 101) i ≡ true
unused i lo hi = ground arith

b_alone : (i : ℕ) → i ≢ 1 → i < 21 → is_sought (sector disk 101) (dir_names 101) 6 i ≡ false
b_alone zero ne lt = refl
b_alone (suc zero) ne lt = absurd (ne refl)
b_alone (suc (suc i)) ne lt =
    let u : is_unknown (sector disk 101) (suc (suc i)) ≡ true =
      unused (suc (suc i)) (omega arith) lt in
    rw u refl

two_ordinary : ordinaries (sector disk 101) (dir_names 101) 21 0 ≡ 2
two_ordinary = refl

delete_dir_entry-clear_example :
    (r : Removed) × (delete_dir_entry 0 part dir 6 volume ≡ done (some r))
    × (r.dir ≡ smaller_dir dir)
    × (r.vol.block_bitmap ≡ volume.block_bitmap)
    × (r.vol.inode_bitmap ≡ volume.inode_bitmap)
    × ((a : ℕ)
        → r.vol.disk a ≡ (
            if leb (slot part 3) a && ltb a (slot part 3 + inode_size)
            then pure (inode_bytes (smaller_dir dir)) (a - slot part 3)
            else with_entry 101 1 (λ i. 0) volume.disk a))
unfolding mount_partition
delete_dir_entry-clear_example =
    delete_dir_entry-clear 0 part dir 6 0 1 dir_names volume (omega arith) (omega arith) dir_named
      (λ j h. absurd (omega (arith, h))) (omega arith) refl b_alone
      (inl (omega (arith, two_ordinary))) (omega arith) (omega arith) (omega arith) (omega arith)

scan_far : scan_entries 21 0 (sector disk 103) 5 no_scan ≡ done (found_one 0 1 false)
unfolding scan_entries scan_entry has_name strcmp strcmp_loop count_entry
scan_far = refl

not_there : (j : ℕ) → j < 12 → all_blocks disk far_dir.i_sectors j ≡ 0
not_there j lt = ground arith

abbrev without_103 : Volume
without_103 =
    bitmap_sync 3 of_blocks (set_bitmap of_blocks (write_bit volume.block_bitmap 3 0) volume)

freed : free_block 103 volume ≡ done without_103
unfolding free_block bitmap_set write_bit bitmap_sync mount_partition
freed = refl

delete_dir_entry-spins_example : delete_dir_entry 100 part far_dir 5 volume ≡ spins
unfolding mount_partition
delete_dir_entry-spins_example =
    delete_dir_entry-spins 100 part far_dir 5 12 0 volume without_103 (omega arith) (omega arith)
      (λ j h. inl (not_there j h)) (omega arith) scan_far freed
