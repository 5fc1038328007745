-- ===== src/Inode.antt =====
-- fs/inode.c: where an inode lies in a partition's inode table, and how it is written there.
--
-- A disk is a function from byte addresses to bytes, sector `lba` being the 512 bytes from `lba * 512`
-- on; ide_read and ide_write move whole sectors. An inode in memory is its 76 bytes: i_no at 0, i_size
-- at 4, i_open_cnts at 8, write_deny at 12, i_sectors at 16, inode_tag at 68, words little-endian.
pub mod Sync
use enix.Base.{
  ℕ, ◌+◌, ◌-◌, ◌*◌, ◌/◌, ◌%◌, Bool, true, false, not, ◌&&◌, ◌||◌, ltb, leb, ◌==◌, if◌then◌else◌,
  add32, Run, done, ◌>>=◌, ◌>>◌, assert,
}

abbrev pub Bytes : Type 0
Bytes = ℕ → ℕ

-- The fields of struct partition that are used here, with the super block's inode_table_lba.
pub record Partition : Type 0 where
  pub start_lba : ℕ
  pub sec_cnt : ℕ
  pub inode_table_lba : ℕ

-- struct inode_position
pub record InodePosition : Type 0 where
  pub two_sec : Bool
  pub sec_lba : ℕ
  pub off_size : ℕ

-- sizeof(struct inode)
abbrev pub inode_size : ℕ
inode_size = 76

unfoldable pub inode_locate : Partition → ℕ → Run InodePosition
inode_locate part inode_no =
    let off_size = inode_no * inode_size in
    let off_sec = off_size / 512 in
    let off_size_in_sec = off_size % 512 in
    do
      assert (ltb inode_no 4096)
      done record {
        two_sec = if ltb (512 - off_size_in_sec) inode_size then true else false;
        sec_lba = add32 part.inode_table_lba off_sec;
        off_size = off_size_in_sec;
      }

abbrev pub ide_read : Bytes → ℕ → ℕ → Bytes → Bytes
ide_read disk lba sec_cnt buf i = if ltb i (sec_cnt * 512) then disk (lba * 512 + i) else buf i

abbrev pub ide_write : Bytes → ℕ → ℕ → Bytes → Bytes
ide_write disk lba sec_cnt buf a =
    if leb (lba * 512) a && ltb a (lba * 512 + sec_cnt * 512) then buf (a - lba * 512) else disk a

-- memcpy(inode_buf + off_size, &pure_inode, sizeof(struct inode))
abbrev pub splice : ℕ → Bytes → Bytes → Bytes
splice off_size pure_inode buf i =
    if leb off_size i && ltb i (off_size + inode_size) then pure_inode (i - off_size) else buf i

-- The inode without what only memory needs: i_open_cnts, write_deny and inode_tag are cleared.
unfoldable pub pure : Bytes → Bytes
pure inode i = if (leb 8 i && ltb i 16) || (leb 68 i && ltb i inode_size) then 0 else inode i

-- `uint8_t inode_no = inode->i_no`: the lowest byte of the number.
unfoldable pub inode_sync : Partition → Bytes → Bytes → Bytes → Run Bytes
unfolding inode_locate pure
inode_sync part inode io_buf disk =
    let inode_no = inode 0 in
    do
      inode_pos ← inode_locate part inode_no
      assert (leb inode_pos.sec_lba (add32 part.start_lba part.sec_cnt))
      let sec_cnt = if inode_pos.two_sec then 2 else 1
      let inode_buf = ide_read disk inode_pos.sec_lba sec_cnt io_buf
      let inode_buf' = splice inode_pos.off_size (pure inode) inode_buf
      done (ide_write disk inode_pos.sec_lba sec_cnt inode_buf')
