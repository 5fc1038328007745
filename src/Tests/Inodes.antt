-- ===== src/Tests/Inodes.antt =====
-- fs/inode.c at inode 261 of a partition of 10000 sectors.
use enix.Base.{ℕ, ◌+◌, ◌-◌, ◌<◌, ◌≡◌, ◌&&◌, leb, ltb, if◌then◌else◌, ◌==◌, done, arith}
use enix.Inode.{Bytes, Partition, inode_size, pure, inode_sync}
use enix.Inode.Sync.{slot, inode_sync_lem, inode_sync-wrong_slot}

abbrev partition : Partition
partition = record { start_lba = 63; sec_cnt = 10000; inode_table_lba = 100 }

abbrev inode_261 : Bytes
inode_261 i = if i == 0 then 5 else (if i == 1 then 1 else 0)

abbrev disk : Bytes
disk a = 255

inode_sync_lem_example :
    (disk' : Bytes) × (inode_sync partition inode_261 disk disk ≡ done disk')
    × ((a : ℕ)
        → disk' a ≡ (
            if leb (slot partition 5) a && ltb a (slot partition 5 + 76)
            then pure inode_261 (a - slot partition 5)
            else disk a))
inode_sync_lem_example =
    inode_sync_lem partition inode_261 disk disk (omega arith) (omega arith) (omega arith)

inode_sync-wrong_slot_example :
    (disk' : Bytes) × (inode_sync partition inode_261 disk disk ≡ done disk')
    × ((j : ℕ) → j < inode_size → disk' (slot partition 261 + j) ≡ disk (slot partition 261 + j))
    × (disk' (slot partition 5) ≡ 5)
inode_sync-wrong_slot_example =
    inode_sync-wrong_slot partition inode_261 disk disk (omega arith) (omega arith) (omega arith)
      (omega arith) (omega arith)
