-- ===== src/Files.antt =====
-- fs/file.c, fs/inode.c and fs/fs.c: the open inodes, the table of open files, and the descriptors of
-- the running process.
--
-- Inodes in memory are known by their addresses, and 0 is NULL. The list of open inodes is kept by its
-- contents. -1 is `none`, and a descriptor is not negative. What sys_malloc returns is an argument where the code does not test it.
pub mod Descriptors
pub mod Closing
pub mod Sharing
use enix.Base.{
  ℕ, zero, suc, ◌+◌, ◌-◌, ◌*◌, ◌/◌, ◌%◌, ◌^◌, Bool, true, false, not, ◌&&◌, ◌||◌, Option, none,
  some, List, [], ◌∷◌, ltb, leb, ◌==◌, if◌then◌else◌, add32, sub32, update, Run, done, panicked,
  ◌>>=◌, ◌>>◌, assert,
}
use enix.Inode.{Bytes, Partition, InodePosition, inode_size, inode_locate, ide_read}

-- struct inode, but for its list node
pub record Inode : Type 0 where
  pub i_no : ℕ
  pub i_size : ℕ
  pub i_open_cnts : ℕ
  pub write_deny : Bool
  pub i_sectors : ℕ → ℕ

-- struct file
pub record File : Type 0 where
  pub fd_pos : ℕ
  pub fd_flag : ℕ
  pub fd_inode : ℕ

-- The inodes by address, the list of the open ones, the table of open files, fd_table of the running
-- process, and the kernel pages that mfree_page was called on, the last one first.
pub record Opened : Type 0 where
  pub inodes : ℕ → Inode
  pub open_inodes : List ℕ
  pub file_table : ℕ → File
  pub fd_table : ℕ → Option ℕ
  pub freed_pages : List ℕ

abbrev pub max_file_open : ℕ
max_file_open = 32

abbrev pub max_files_open_per_proc : ℕ
max_files_open_per_proc = 8

abbrev pub is_null : File → Bool
is_null f = f.fd_inode == 0

-- The loop of get_free_slot_in_global, by the slots left.
unfoldable pub slot_loop : ℕ → ℕ → (ℕ → File) → Option ℕ
slot_loop zero fd_idx table = none
slot_loop (suc left) fd_idx table =
    let rest = slot_loop left (fd_idx + 1) table in
    if is_null (table fd_idx) then some fd_idx else rest

unfoldable pub get_free_slot_in_global : Opened → Option ℕ
unfolding slot_loop
get_free_slot_in_global s = slot_loop 29 3 s.file_table

abbrev pub is_free : Option ℕ → Bool
is_free none = true
is_free (some _) = false

unfoldable pub install_loop : ℕ → ℕ → (ℕ → Option ℕ) → Option ℕ
install_loop zero local_fd_idx table = none
install_loop (suc left) local_fd_idx table =
    let rest = install_loop left (local_fd_idx + 1) table in
    if is_free (table local_fd_idx) then some local_fd_idx else rest

abbrev pub set_fd : ℕ → Option ℕ → Opened → Opened
set_fd fd g s = record s { fd_table = update s.fd_table fd g }

unfoldable pub pcb_fd_install : ℕ → Opened → Opened × Option ℕ
unfolding install_loop
pcb_fd_install global_fd_idx s = elim (install_loop 5 3 s.fd_table) [
  | none ↦ (s, none)
  | some local_fd_idx ↦ (set_fd local_fd_idx (some global_fd_idx) s, some local_fd_idx)
]

-- -1 fails the ASSERT, as does an index past the table.
unfoldable pub fd_local2global : ℕ → Opened → Run ℕ
fd_local2global local_fd s = elim (s.fd_table local_fd) [
  | none ↦ panicked
  | some global_fd ↦ assert (ltb global_fd max_file_open) >> done global_fd
]

abbrev pub set_inode : ℕ → Inode → Opened → Opened
set_inode a i s = record s { inodes = update s.inodes a i }

abbrev pub set_file : ℕ → File → Opened → Opened
set_file g f s = record s { file_table = update s.file_table g f }

-- The search of inode_open in the list of open inodes.
unfoldable pub find_open : ℕ → (ℕ → Inode) → List ℕ → Option ℕ
find_open inode_no inodes [] = none
find_open inode_no inodes (a ∷ l) =
    let rest = find_open inode_no inodes l in
    let i = inodes a in if i.i_no == inode_no then some a else rest

-- A little-endian word.
abbrev pub word : Bytes → ℕ → ℕ
word b a = b a + b (a + 1) * 0x100 + b (a + 2) * 0x10000 + b (a + 3) * 0x1000000

-- The struct that the bytes of an inode are.
abbrev pub decode : Bytes → Inode
decode b = record {
  i_no = word b 0;
  i_size = word b 4;
  i_open_cnts = word b 8;
  write_deny = not (word b 12 == 0);
  i_sectors = λ k. word b (16 + 4 * k);
}

-- inode_open of an inode that is not in the list. The new inode stands at the address that sys_malloc
-- gave; the inode's bytes are taken out of one or two sectors.
unfoldable pub load_inode : Partition → Bytes → ℕ → ℕ → Opened → Run (ℕ × Opened)
unfolding inode_locate
load_inode part disk inode_found inode_no s = do
  pos ← inode_locate part inode_no
  let inode_buf = ide_read disk pos.sec_lba (if pos.two_sec then 2 else 1) (λ i. 0)
  let i = decode (λ j. inode_buf (pos.off_size + j))
  let s1 = set_inode inode_found (record i { i_open_cnts = 1 }) s
  done (inode_found, record s1 { open_inodes = inode_found ∷ s1.open_inodes })

unfoldable pub inode_open : Partition → Bytes → ℕ → ℕ → Opened → Run (ℕ × Opened)
unfolding find_open load_inode
inode_open part disk fresh inode_no s = elim (find_open inode_no s.inodes s.open_inodes) [
  | some a ↦
      let i = s.inodes a in
      done (a, set_inode a (record i { i_open_cnts = add32 i.i_open_cnts 1 }) s)
  | none ↦ load_inode part disk fresh inode_no s
]

abbrev pub without : ℕ → List ℕ → List ℕ
without a [] = []
without a (x ∷ l) = let rest = without a l in if x == a then l else x ∷ rest

-- The memory of the last one's inode is given back, which the model leaves out.
unfoldable pub inode_close : ℕ → Opened → Opened
inode_close a s =
    let i = s.inodes a in
    let count = sub32 i.i_open_cnts 1 in
    let s1 = set_inode a (record i { i_open_cnts = count }) s in
    if count == 0 then record s1 { open_inodes = without a s1.open_inodes } else s1

-- flag & O_WRONLY or flag & O_RDWR: bits 0 and 1
abbrev pub writes : ℕ → Bool
writes flag = (flag % 2 == 1) || (flag / 2 % 2 == 1)

-- file_open behind inode_open: a writer takes the inode, or is refused if it has one.
unfoldable pub claim : ℕ → ℕ → ℕ → Opened → Opened × Option ℕ
unfolding pcb_fd_install
claim fd_idx flag a s =
    let i = s.inodes a in
    let taken = set_inode a (record i { write_deny = true }) s in
    if writes flag
    then (if not i.write_deny then pcb_fd_install fd_idx taken else (s, none))
    else pcb_fd_install fd_idx s

unfoldable pub file_open : Partition → Bytes → ℕ → ℕ → ℕ → Opened → Run (Opened × Option ℕ)
unfolding get_free_slot_in_global inode_open claim
file_open part disk fresh inode_no flag s = elim (get_free_slot_in_global s) [
  | none ↦ done (s, none)
  | some fd_idx ↦ do
    (a, s1) ← inode_open part disk fresh inode_no s
    done (
        claim fd_idx flag a
          (set_file fd_idx (record { fd_pos = 0; fd_flag = flag; fd_inode = a }) s1))
]

-- `file` is an element of the table, so it is not NULL.
unfoldable pub file_close : ℕ → Opened → Opened
unfolding inode_close
file_close g s =
    let f = s.file_table g in
    let i = s.inodes f.fd_inode in
    let s1 = inode_close f.fd_inode (set_inode f.fd_inode (record i { write_deny = false }) s) in
    set_file g (record f { fd_inode = 0 }) s1

-- file_table[fd_local2global(fd)].fd_flag == PIPE_FLAG
unfoldable pub is_pipe : ℕ → Opened → Run Bool
unfolding fd_local2global
is_pipe fd s = do g ← fd_local2global fd s; let f = s.file_table g; done (f.fd_flag == 0xffff)

-- A descriptor of a pipe goes, and the ring's page with the last one.
unfoldable pub close_pipe : ℕ → Opened → Opened
close_pipe g s =
    let f = s.file_table g in
    let left = sub32 f.fd_pos 1 in
    let f1 = record f { fd_pos = left } in
    if left == 0
    then set_file g (record f1 { fd_inode = 0 })
        (record s { freed_pages = f.fd_inode ∷ s.freed_pages })
    else set_file g f1 s

unfoldable pub close_fd : ℕ → Opened → Run (Opened × Option ℕ)
unfolding fd_local2global is_pipe close_pipe file_close
close_fd fd s = do
  g ← fd_local2global fd s
  pipe ← is_pipe fd s
  done (set_fd fd none (if pipe then close_pipe g s else file_close g s), some 0)

-- The result is the one of the code: 0, or -1 for the standard descriptors.
unfoldable pub sys_close : ℕ → Opened → Run (Opened × Option ℕ)
unfolding close_fd
sys_close fd s = if ltb 2 fd then close_fd fd s else done (s, none)

-- The new position in the three cases of `whence`; an int32_t is its bit pattern.
abbrev pub seek_from : ℕ → ℕ → ℕ → ℕ → ℕ
seek_from whence offset fd_pos file_size =
    if whence == 1
    then offset
    else (if whence == 2 then add32 fd_pos offset else add32 file_size offset)

-- Is the position not negative and, as signed numbers, at most file_size - 1?
abbrev pub is_inside : ℕ → ℕ → Bool
is_inside new_pos file_size = ltb new_pos file_size && ltb file_size (2 ^ 31)

unfoldable pub sys_iseek : ℕ → ℕ → ℕ → Opened → Run (Opened × Option ℕ)
unfolding fd_local2global
sys_iseek fd offset whence s = do
  assert (ltb 0 whence && ltb whence 4)
  g ← fd_local2global fd s
  let pf = s.file_table g
  let i = s.inodes pf.fd_inode
  let new_pos = seek_from whence offset pf.fd_pos i.i_size
  done (
      if is_inside new_pos i.i_size
      then (set_file g (record pf { fd_pos = new_pos }) s, some new_pos)
      else (s, none))
