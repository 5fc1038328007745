-- ===== src/Pipe.antt =====
-- shell/pipe.c: pipes, and the redirection of descriptors.
--
-- A pipe is an entry of the table of open files whose fd_inode is the address of a ring, whose fd_flag
-- is PIPE_FLAG and whose fd_pos counts the descriptors. The page of a new pipe is an argument, 0 when
-- get_kernel_pages has none.
pub mod Transfer
pub mod Making
use enix.Base.{
  ℕ, zero, suc, ◌+◌, ◌-◌, ◌==◌, Bool, true, false, Option, none, some, List, [], ◌∷◌, ltb,
  if◌then◌else◌, update, Run, done, ◌>>=◌,
}
use enix.Interrupt.{IntrStatus}
use enix.Files.{
  File, Opened, set_fd, set_file, get_free_slot_in_global, pcb_fd_install, fd_local2global,
}
use enix.IoQueue.{
  IoQueue, Round, returns, sleeps, awaits, bufsize, ioqueue_init, ioq_getchar, ioq_putchar,
  ioq_length,
}

-- The open files, and the rings by address.
pub record Pipes : Type 0 where
  pub files : Opened
  pub rings : ℕ → IoQueue

abbrev pub pipe_flag : ℕ
pipe_flag = 0xffff

-- How a loop of pipe_read or pipe_write ends: the bytes that it moved and the threads that it woke,
-- or the bytes that it moved before the caller went to sleep, as in a round of the queue.
pub data Transferred : Type 0 where
  finished : List ℕ → List ℕ → IoQueue → Transferred
  asleep : List ℕ → IoQueue → Transferred
  waiting : List ℕ → IoQueue → Transferred

-- The byte and the thread woken of one round before those of the others.
abbrev pub after : ℕ → Option ℕ → Transferred → Transferred
after byte none (finished bytes woken ioq) = finished (byte ∷ bytes) woken ioq
after byte (some t) (finished bytes woken ioq) = finished (byte ∷ bytes) (t ∷ woken) ioq
after byte woken (asleep bytes ioq) = asleep (byte ∷ bytes) ioq
after byte woken (waiting bytes ioq) = waiting (byte ∷ bytes) ioq

-- The loops, by the bytes left.
unfoldable pub read_loop : ℕ → IntrStatus → ℕ → IoQueue → Run Transferred
read_loop zero intr cur ioq = done (finished [] [] ioq)
read_loop (suc left) intr cur ioq = do
  round ← ioq_getchar intr cur ioq
  elim round [
    | returns byte woken ioq' ↦ do rest ← read_loop left intr cur ioq'; done (after byte woken rest)
    | sleeps ioq' ↦ done (asleep [] ioq')
    | awaits ioq' ↦ done (waiting [] ioq')
  ]

unfoldable pub write_loop : ℕ → IntrStatus → ℕ → (ℕ → ℕ) → ℕ → IoQueue → Run Transferred
write_loop zero intr cur buf bytes_write ioq = done (finished [] [] ioq)
write_loop (suc left) intr cur buf bytes_write ioq = do
  round ← ioq_putchar intr cur (buf bytes_write) ioq
  elim round [
    | returns _ woken ioq' ↦ do
      rest ← write_loop left intr cur buf (bytes_write + 1) ioq'
      done (after (buf bytes_write) woken rest)
    | sleeps ioq' ↦ done (asleep [] ioq')
    | awaits ioq' ↦ done (waiting [] ioq')
  ]

-- `a > b ? b : a`
abbrev pub smaller : ℕ → ℕ → ℕ
smaller a b = if ltb b a then b else a

-- file_table[fd_local2global(fd)].fd_inode
abbrev pub ring_of : ℕ → Pipes → Run ℕ
ring_of fd s = do g ← fd_local2global fd s.files; let f = s.files.file_table g; done f.fd_inode

-- The result is the number of the bytes.
unfoldable pub pipe_read : IntrStatus → ℕ → ℕ → ℕ → Pipes → Run Transferred
unfolding read_loop
pipe_read intr cur fd count s = do
  a ← ring_of fd s
  read_loop (smaller (ioq_length (s.rings a)) count) intr cur (s.rings a)

unfoldable pub pipe_write : IntrStatus → ℕ → ℕ → (ℕ → ℕ) → ℕ → Pipes → Run Transferred
unfolding write_loop
pipe_write intr cur fd buf count s = do
  a ← ring_of fd s
  write_loop (smaller (bufsize - ioq_length (s.rings a)) count) intr cur buf 0 (s.rings a)

unfoldable pub sys_fd_redirect : ℕ → ℕ → Opened → Opened
sys_fd_redirect old_local_fd new_local_fd pcb =
    if ltb new_local_fd 3
    then set_fd old_local_fd (some new_local_fd) pcb
    else set_fd old_local_fd (pcb.fd_table new_local_fd) pcb

-- -1 without a page, 0 with the two descriptors, each -1 when there is none; `stray` is a write in
-- front of the table, to entry -1, of whose effect nothing is said.
pub data Made : Type 0 where
  failed : Pipes → Made
  made : Option ℕ → Option ℕ → Pipes → Made
  stray : Made

-- The entry of the table for a new pipe.
abbrev pub new_pipe : ℕ → ℕ → Pipes → Pipes
new_pipe global_fd page s = record {
  files = set_file global_fd (record { fd_pos = 2; fd_flag = pipe_flag; fd_inode = page }) s.files;
  rings = update s.rings page (ioqueue_init (s.rings page));
}

unfoldable pub install_both : ℕ → Pipes → Made
unfolding pcb_fd_install
install_both global_fd s =
    let first = pcb_fd_install global_fd s.files in
    let second = pcb_fd_install global_fd first.0 in
    made first.1 second.1 (record s { files = second.0 })

unfoldable pub sys_pipe : ℕ → Pipes → Made
unfolding install_both
sys_pipe page s = elim (get_free_slot_in_global s.files) [
  | none ↦ stray
  | some global_fd ↦
      let f = s.files.file_table global_fd in
      if page == 0
      then failed (record s { files = set_file global_fd (record f { fd_inode = 0 }) s.files })
      else install_both global_fd (new_pipe global_fd page s)
]
