-- ===== src/Directory/Deleting/Endless.antt =====
-- The sectors that delete_dir_entry passes over, and the loop that it does not leave.
use enix.Base.{
  ℕ, zero, suc, ◌+◌, ◌-◌, ◌≡◌, ◌≢◌, ◌≤◌, ◌<◌, ◌⊎◌, inl, inr, refl, sym, ap, ◌∙◌, arith, Bool, false,
  none, some, ltb, ◌==◌, if◌then◌else◌, add32, done, spins, ◌>>=◌,
}
use enix.Inode.{Partition}
use enix.Volume.{Volume, all_blocks}
use enix.Directory.{Dir, sector, free_block}
use enix.Directory.Deleting.{
  Scan, no_scan, scan_entries, count_indirect, drop_indirect, drop_block, remove_entry, delete_loop,
  delete_dir_entry,
}

-- What the pass over the sector of the entry leaves: its index, how many entries but "." and ".."
-- there are, and whether "." is among the sector's.
abbrev pub found_one : ℕ → ℕ → Bool → Scan
found_one k count first = record {
  dir_entry_found = some k;
  dir_entry_cnt = count;
  is_dir_first_block = first;
}

-- Block `j` is not there, or the entry is not in it.
abbrev pub IsPassed : ℕ → (ℕ → ℕ) → Volume → ℕ → Type 0
IsPassed inode_no all v j =
    (all j ≡ 0)
    ⊎ ((s : Scan) × (all j ≢ 0)
        × (scan_entries 21 0 (sector v.disk (all j)) inode_no no_scan ≡ done s)
        × (s.dir_entry_found ≡ none))

module _ (fuel : ℕ) (part : Partition) (inode_no : ℕ) (all : ℕ → ℕ) (dir : Dir) (v : Volume) where
  delete_loop-next :
      (left idx : ℕ)
      → IsPassed inode_no all v idx
      → delete_loop fuel part (suc left) idx inode_no all dir v
        ≡ delete_loop fuel part left (idx + 1) inode_no all dir v
  unfolding delete_loop
  delete_loop-next left idx (inl z) = rw (delete_loop, z) refl
  delete_loop-next left idx (inr (s, ne, scan, none_found)) =
      let z : (all idx == 0) ≡ false = ground arith in rw (delete_loop, z, scan, none_found) refl

  delete_loop-skip :
      (n left idx : ℕ)
      → ((j : ℕ) → j < idx + n → IsPassed inode_no all v j)
      → delete_loop fuel part (n + left) idx inode_no all dir v
        ≡ delete_loop fuel part left (idx + n) inode_no all dir v
  delete_loop-skip zero left idx passed =
      let z : idx + 0 ≡ idx = omega arith in let n : 0 + left ≡ left = omega arith in rw (n, z) refl
  delete_loop-skip (suc n) left idx passed =
      let z : idx + suc n ≡ idx + 1 + n = omega arith in
      let m : suc n + left ≡ suc (n + left) = omega arith in
      ap (λ k. delete_loop fuel part k idx inode_no all dir v) m
      ∙ delete_loop-next (n + left) idx (passed idx (omega arith))
      ∙ delete_loop-skip n left (idx + 1) (λ j h. passed j (omega arith))
      ∙ ap (λ k. delete_loop fuel part left k inode_no all dir v) (sym z)

  -- The sector of the entry, behind those that are passed over.
  pub delete_loop-found :
      (b k count : ℕ) (first : Bool)
      → b < 140
      → ((j : ℕ) → j < b → IsPassed inode_no all v j)
      → all b ≢ 0
      → scan_entries 21 0 (sector v.disk (all b)) inode_no no_scan ≡ done (found_one k count first)
      → delete_loop fuel part 140 0 inode_no all dir v
        ≡ (remove_entry fuel part b k (found_one k count first) all dir v >>= λ r. done (some r))
  unfolding delete_loop
  delete_loop-found b k count first lt passed ne scan =
      let left = 139 - b in
      let rounds : b + suc left ≡ 140 = omega arith in
      let start : 0 + b ≡ b = omega arith in
      let z : (all b == 0) ≡ false = ground arith in
      let round : delete_loop fuel part (suc left) b inode_no all dir v ≡ (
          remove_entry fuel part b k (found_one k count first) all dir v >>= λ r. done (some r)) =
        rw (delete_loop, z, scan) refl in
      ap (λ n. delete_loop fuel part n 0 inode_no all dir v) (sym rounds)
      ∙ delete_loop-skip b (suc left) 0 (λ j h. passed j (omega arith))
      ∙ ap (λ n. delete_loop fuel part (suc left) n inode_no all dir v) start
      ∙ round

count_indirect-spins : (fuel : ℕ) (all : ℕ → ℕ) (n : ℕ) → count_indirect fuel 12 all n ≡ spins
unfolding count_indirect
count_indirect-spins zero all n = refl
count_indirect-spins (suc fuel) all n =
    count_indirect-spins fuel all (if all 12 == 0 then n else add32 n 1)

-- When the entry to delete is alone in its sector, and this is one of the indirect table, not the
-- first, delete_dir_entry does not end: the loop that counts the blocks of the table never moves on,
-- however many rounds it is given.
pub delete_dir_entry-spins :
    (fuel : ℕ) (part : Partition) (pdir : Dir) (inode_no b k : ℕ) (v v' : Volume)
    → 12 ≤ b
    → b < 140
    → ((j : ℕ) → j < b → IsPassed inode_no (all_blocks v.disk pdir.i_sectors) v j)
    → all_blocks v.disk pdir.i_sectors b ≢ 0
    → scan_entries 21 0 (sector v.disk (all_blocks v.disk pdir.i_sectors b)) inode_no no_scan
      ≡ done (found_one k 1 false)
    → free_block (all_blocks v.disk pdir.i_sectors b) v ≡ done v'
    → delete_dir_entry fuel part pdir inode_no v ≡ spins
unfolding delete_dir_entry remove_entry drop_block drop_indirect
delete_dir_entry-spins fuel part pdir inode_no b k v v' indirect lt passed ne scan free =
    let all = all_blocks v.disk pdir.i_sectors in
    let f : ltb b 12 ≡ false = ground arith in
    let gone : remove_entry fuel part b k (found_one k 1 false) all pdir v ≡ spins =
      rw (free, f, count_indirect-spins fuel all 0) refl in
    delete_loop-found fuel part inode_no all pdir v b k 1 false lt passed ne scan ∙ rw gone refl
