-- ===== src/Inode/Sync.antt =====
-- What inode_sync changes on the disk.
use enix.Base.{
  ℕ, subst, ◌+◌, ◌-◌, ◌*◌, ◌/◌, ◌%◌, ◌≤◌, ◌<◌, ◌≡◌, refl, ◌∙◌, true, false, ◌&&◌, arith, ltb, leb,
  if◌then◌else◌, add32, u32_mod, done, Bool-cases, inl, inr,
}
use enix.Inode.{Bytes, Partition, inode_size, ide_read, ide_write, splice, pure, inode_sync}

-- The address on the disk of the entry of an inode.
abbrev pub slot : Partition → ℕ → ℕ
slot part inode_no = part.inode_table_lba * 512 + inode_no * inode_size

-- Writing back the sectors with a splice in them changes just the spliced bytes.
splice-sectors :
    (disk buf p : Bytes) (lba sec_cnt off a : ℕ)
    → off + inode_size ≤ sec_cnt * 512
    → ide_write disk lba sec_cnt (splice off p (ide_read disk lba sec_cnt buf)) a ≡ (
        if leb (lba * 512 + off) a && ltb a (lba * 512 + off + inode_size)
        then p (a - (lba * 512 + off))
        else disk a)
splice-sectors disk buf p lba sec_cnt off a fits =
    elim (Bool-cases (leb (lba * 512 + off) a && ltb a (lba * 512 + off + inode_size))) [
      | inl t ↦
          let written : (leb (lba * 512) a && ltb a (lba * 512 + sec_cnt * 512)) ≡ true =
            ground arith in
          let spliced : (leb off (a - lba * 512) && ltb (a - lba * 512) (off + inode_size)) ≡ true =
            ground arith in
          let same : a - lba * 512 - off ≡ a - (lba * 512 + off) = omega arith in
          rw (t, written, spliced, same) refl
      | inr f ↦ elim (Bool-cases (leb (lba * 512) a && ltb a (lba * 512 + sec_cnt * 512))) [
        | inl written ↦
            let kept : (leb off (a - lba * 512) && ltb (a - lba * 512) (off + inode_size)) ≡ false =
              ground arith in
            let read : ltb (a - lba * 512) (sec_cnt * 512) ≡ true = ground arith in
            let same : lba * 512 + (a - lba * 512) ≡ a = ground arith in
            rw (f, written, kept, read, same) refl
        | inr outside ↦ rw (f, outside) refl
      ]
    ]

abbrev sectors : ℕ → ℕ
sectors inode_no =
    if (if ltb (512 - inode_no * inode_size % 512) inode_size then true else false) then 2 else 1

sectors_enough : (inode_no : ℕ) → inode_no * inode_size % 512 + inode_size ≤ sectors inode_no * 512
sectors_enough inode_no = ground arith

-- inode_sync of an inode whose table entry lies inside the partition runs to its end. Afterwards the
-- entry of the number's lowest byte holds the inode, without the fields that only memory needs, and
-- all other bytes of the disk are as before, whether the entry spans two sectors or not.
pub inode_sync_lem :
    (part : Partition) (inode io_buf disk : Bytes)
    → inode 0 < 256
    → part.inode_table_lba + 38 ≤ part.start_lba + part.sec_cnt
    → part.start_lba + part.sec_cnt < u32_mod
    → (disk' : Bytes) × (inode_sync part inode io_buf disk ≡ done disk')
      × ((a : ℕ)
          → disk' a ≡ (
              if leb (slot part (inode 0)) a && ltb a (slot part (inode 0) + inode_size)
              then pure inode (a - slot part (inode 0))
              else disk a))
unfolding inode_sync
inode_sync_lem part inode io_buf disk byte within small =
    let off = inode 0 * inode_size % 512 in
    let lba = part.inode_table_lba + inode 0 * inode_size / 512 in
    let first : add32 part.inode_table_lba (inode 0 * inode_size / 512) ≡ lba = omega arith in
    let number : ltb (inode 0) 4096 ≡ true = ground arith in
    let inside : leb lba (add32 part.start_lba part.sec_cnt) ≡ true = ground arith in
    let here : lba * 512 + off ≡ slot part (inode 0) = omega arith in
    (
      ide_write disk lba (sectors (inode 0))
          (splice off (pure inode) (ide_read disk lba (sectors (inode 0)) io_buf)),
      rw (number, first, inside) refl,
      (λ a.
          subst
            (λ x.
              ide_write disk lba (sectors (inode 0))
                (splice off (pure inode) (ide_read disk lba (sectors (inode 0)) io_buf)) a
              ≡ (if leb x a && ltb a (x + inode_size) then pure inode (a - x) else disk a))
            here
            (splice-sectors disk io_buf (pure inode) lba (sectors (inode 0)) off a
              (sectors_enough (inode 0)))),
    )

-- The field i_no of an inode.
abbrev pub i_no : Bytes → ℕ
i_no inode = inode 0 + inode 1 * 0x100 + inode 2 * 0x10000 + inode 3 * 0x1000000

-- inode_sync of an inode with a number from 256 to 4095 leaves the inode's own entry as it was, and
-- writes the first byte of the inode to the start of the entry of the number's lowest byte.
pub inode_sync-wrong_slot :
    (part : Partition) (inode io_buf disk : Bytes)
    → inode 0 < 256
    → 256 ≤ i_no inode
    → i_no inode < 4096
    → part.inode_table_lba + 38 ≤ part.start_lba + part.sec_cnt
    → part.start_lba + part.sec_cnt < u32_mod
    → (disk' : Bytes) × (inode_sync part inode io_buf disk ≡ done disk')
      × ((j : ℕ)
          → j < inode_size
          → disk' (slot part (i_no inode) + j) ≡ disk (slot part (i_no inode) + j))
      × (disk' (slot part (i_no inode % 256)) ≡ inode 0)
unfolding pure
inode_sync-wrong_slot part inode io_buf disk byte high low within small =
    let (disk', run, change) = inode_sync_lem part inode io_buf disk byte within small in
    let lowest : i_no inode % 256 ≡ inode 0 = omega arith in
    let start : (leb (slot part (inode 0)) (slot part (inode 0))
          && ltb (slot part (inode 0)) (slot part (inode 0) + inode_size))
        ≡ true =
      ground arith in
    let first : slot part (inode 0) - slot part (inode 0) ≡ 0 = omega arith in
    (
      disk',
      run,
      (λ j h.
          let past : ltb (slot part (i_no inode) + j) (slot part (inode 0) + inode_size) ≡ false =
            ground arith in
          change (slot part (i_no inode) + j) ∙ ground (arith, past)),
      rw lowest (change (slot part (inode 0)) ∙ rw (start, first) refl),
    )
