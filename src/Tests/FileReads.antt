-- ===== src/Tests/FileReads.antt =====
-- A file of 600 bytes in the sectors 101 and 102, read from byte 500 on and written behind its end.
use enix.Base.{
  ℕ, ◌+◌, ◌*◌, ◌<◌, ◌≤◌, ◌≡◌, ◌⊎◌, inl, inr, refl, true, false, none, some, ◌==◌, if◌then◌else◌,
  done, panicked, arith,
}
use enix.Inode.{Bytes, Partition}
use enix.Files.{Inode, File}
use enix.Volume.{Volume, mount_partition}
use enix.Writing.{file_write, Progress, write_loop}
use enix.Writing.Rounds.{byte_at, appended}
use enix.Writing.Loop.{Appends, write_loop-Appends}
use enix.Writing.Appending.{HasRoom, saved, file_write-same_block, file_write-largest}
use enix.Contents.{file_read}
use enix.Contents.Reading.{IsReadable, read_of, file_read_lem}
use enix.Contents.Gathering.{block_of}

abbrev disk : Bytes
disk a = a

abbrev inode : Inode
inode = record {
  i_no = 7;
  i_size = 600;
  i_open_cnts = 1;
  write_deny = false;
  i_sectors = λ j. if j == 0 then 101 else (if j == 1 then 102 else 0);
}

abbrev file : File
file = record { fd_pos = 500; fd_flag = 0; fd_inode = 4096 }

readable : IsReadable inode file
readable = record {
  inside = omega arith;
  size_bound = omega arith;
  table = λ h. absurd (omega (arith, h));
}

file_read_lem_example :
    file_read disk (some (λ i. 0)) (some (λ i. 0)) inode file 200
    ≡ done (read_of disk inode file 100)
file_read_lem_example = file_read_lem disk (λ i. 0) (λ i. 0) inode file 200 readable (omega arith)

abbrev volume : Volume
volume =
    mount_partition
      (record {
        block_bitmap_lba = 2;
        block_bitmap_sects = 1;
        inode_bitmap_lba = 3;
        inode_bitmap_sects = 1;
        data_start_lba = 100;
      })
      disk

abbrev part : Partition
part = record { start_lba = 63; sec_cnt = 10000; inode_table_lba = 300 }

has_room : HasRoom inode 10
has_room = record {
  first = omega arith;
  table = λ h. absurd (omega (arith, h));
  room = omega arith;
  small = omega arith;
}

file_write-same_block_example :
    (disk' : Bytes) × (file_write part
        (some (λ j. 0))
        (some (λ j. 0))
        none
        (λ j. 65 + j)
        10
        inode
        file
        volume
      ≡ saved part none 10 inode file volume disk')
    × ((p : ℕ)
        → 512 ≤ p
        → p < 610
        → byte_at (block_of disk inode.i_sectors) disk' p
          ≡ appended (byte_at (block_of disk inode.i_sectors) disk) 600 0 (λ j. 65 + j) p)
    × ((x : ℕ) → (x < 102 * 512) ⊎ (102 * 512 + 512 ≤ x) → disk' x ≡ disk x)
unfolding mount_partition
file_write-same_block_example =
    file_write-same_block part (λ j. 0) none (λ j. 65 + j) 10 inode file volume (λ j. 0) has_room

file_write-largest_example :
    ((inode.i_size + 71080 ≡ 71680)
      × (file_write part (some (λ j. 0)) none none (λ j. 0) 71080 inode file volume ≡ panicked))
    ⊎ ((71680 < inode.i_size + 71080)
        × (file_write part (some (λ j. 0)) none none (λ j. 0) 71080 inode file volume
            ≡ done (record { value = none; file = file; inode = inode; vol = volume })))
file_write-largest_example =
    file_write-largest part none none (λ j. 0) 71080 inode file volume (λ j. 0) (omega arith)
      (omega arith) (omega arith)

-- Three rounds behind the 600 bytes, in the sectors 102 to 104.
abbrev begun : Progress
begun = record { disk = disk; i_size = 600; fd_pos = 599; bytes_written = 0 }

write_loop-Appends_example :
    (w' : Progress) × (write_loop 1000 (λ b. 101 + b) (λ j. 65) 1000 true 1000 begun ≡ done w')
    × Appends (λ b. 101 + b) (λ j. 65) 1 1000 begun w'
write_loop-Appends_example =
    write_loop-Appends 1000 (λ b. 101 + b) (λ j. 65) 1 1000 true 1000 begun (omega arith)
      (omega arith) (omega arith) (omega arith) (omega arith) (inr (inl refl))
      (λ a b ga gb la lb e. omega (arith, e)) (omega arith)
