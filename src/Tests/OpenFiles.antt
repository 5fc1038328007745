-- ===== src/Tests/OpenFiles.antt =====
-- An inode that one writer has open.
use enix.Base.{
  ℕ, ◌<◌, ◌≡◌, ◌≢◌, ◌≤◌, ◌⊎◌, ◌==◌, refl, true, false, none, some, [], ◌∷◌, if◌then◌else◌, done,
  arith,
}
use enix.Inode.{Partition, Bytes}
use enix.Files.{
  Inode, Opened, set_file, get_free_slot_in_global, install_loop, find_open, fd_local2global,
  file_open, sys_close, sys_iseek,
}
use enix.Files.Descriptors.{IsAsked, sys_iseek-inside}
use enix.Files.Sharing.{opened, file_open-denied, file_open-sys_close}

abbrev part : Partition
part = record { start_lba = 63; sec_cnt = 10000; inode_table_lba = 100 }

abbrev disk : Bytes
disk a = 0

abbrev written : Inode
written = record { i_no = 7; i_size = 100; i_open_cnts = 1; write_deny = true; i_sectors = λ i. 0 }

abbrev one_writer : Opened
one_writer = record {
  inodes = λ a. written;
  open_inodes = 4096 ∷ [];
  file_table = λ g. record { fd_pos = 10; fd_flag = 2; fd_inode = if g == 3 then 4096 else 0 };
  fd_table = λ fd. if fd == 3 then some 3 else none;
  freed_pages = [];
}

slot : get_free_slot_in_global one_writer ≡ some 4
unfolding get_free_slot_in_global
slot = refl

desc : install_loop 5 3 one_writer.fd_table ≡ some 4
unfolding install_loop
desc = refl

cached : find_open 7 one_writer.inodes one_writer.open_inodes ≡ some 4096
unfolding find_open
cached = refl

file_open-denied_example :
    (s' : Opened) × (file_open part disk 8192 7 2 one_writer ≡ done (s', none))
    × ((s'.file_table 4).fd_inode ≡ 4096)
    × ((s'.inodes 4096).i_open_cnts ≡ 2)
    × (s'.fd_table ≡ one_writer.fd_table)
file_open-denied_example =
    file_open-denied part disk 8192 7 2 4 4 4096 one_writer slot desc cached (omega arith) refl refl

abbrev shared_file : Opened
shared_file = opened part disk 8192 7 0 4 4 4096 one_writer slot desc cached (omega arith)

file_open-sys_close_example :
    (file_open part disk 8192 7 0 one_writer ≡ done (shared_file, some 4))
    × (s' : Opened) × (sys_close 4 shared_file ≡ done (s', some 0))
    × (s'.open_inodes ≡ 4096 ∷ [])
    × ((k : ℕ) → s'.fd_table k ≡ one_writer.fd_table k)
    × ((s'.file_table 4).fd_inode ≡ 0)
    × ((k : ℕ) → k ≢ 4 → s'.file_table k ≡ one_writer.file_table k)
    × ((s'.inodes 4096).i_open_cnts ≡ 1)
    × ((s'.inodes 4096).write_deny ≡ false)
    × ((x : ℕ) → x ≢ 4096 → s'.inodes x ≡ written)
file_open-sys_close_example =
    file_open-sys_close part disk 8192 7 0 4 4 4096 one_writer slot desc cached (omega arith) refl
      (omega arith) (omega arith)

sys_iseek-inside_example :
    (p : ℕ) × IsAsked 3 4294967290 10 100 p
    × (((p < 100)
          × (sys_iseek 3 4294967290 3 one_writer
              ≡ done (
                set_file 3 (record { fd_pos = p; fd_flag = 2; fd_inode = 4096 }) one_writer,
                some p,
              )))
        ⊎ ((100 ≤ p) × (sys_iseek 3 4294967290 3 one_writer ≡ done (one_writer, none))))
unfolding fd_local2global
sys_iseek-inside_example =
    sys_iseek-inside 3 4294967290 3 3 one_writer (omega arith) (omega arith) refl (omega arith)
