-- ===== src/Lib.antt =====
-- Enix, a small x86 kernel in C: a model of its core and what the model is proved to do.
--
-- The parts and how they interact. The kernel keeps its threads, its open inodes and its free memory
-- blocks on doubly linked lists (src/lib/list.c), and its pages, pids, inodes and disk blocks in
-- bitmaps (src/lib/bitmap.c). The scheduler (src/thread/thread.c) moves threads between the ready
-- list and the waiting lists of the semaphores, and the clock interrupt (src/device/timer.c) calls it.
-- Critical sections switch the interrupt flag (src/kernel/interrupt.c). Threads wait for each other at
-- locks (src/thread/sync.c) and at the ring of the keyboard and of pipes (src/device/ioqueue.c,
-- src/shell/pipe.c). A descriptor of a process leads through the table of open files
-- (src/fs/file.c) to an inode (src/fs/inode.c) or to a pipe.
--
--   Base: shared names; Base/Tests (Boolean tests), Base/Lists, Base/Membership (membership and
--     distinctness), Base/Machine (words, memory, runs that a failed ASSERT ends), Base/Table (byte
--     tables), Base/Bits (bitwise or).
--   Bitmap: bitmap_init, bitmap_scan_test, bitmap_scan and bitmap_set of src/lib/bitmap.c, over the
--     bytes from the pointer on. Its children: Bytes (one bit of a byte), Loops (the loops of
--     bitmap_scan), Search (bitmap_scan), OneBit (bitmap_scan for one bit).
--   Contents: file_read of src/fs/file.c over a disk of bytes. Its children:
--     Gathering (the addresses of the blocks), Reading.
--   Directory: search_dir_entry, dir_read and dir_is_empty of src/fs/dir.c over the bytes of the entries.
--     Its children: Searching, Listing (dir_read), Adding (sync_dir_entry; below it Reuse and Growth),
--     Deleting (delete_dir_entry and dir_remove; below it Endless, Scanning, Clearing).
--   Files: the open inodes, the table of open files and the descriptors of a process: inode_open and
--     inode_close of src/fs/inode.c, src/fs/file.c up to file_close, fd_local2global, sys_close and
--     sys_Iseek of src/fs/fs.c. Its children: Descriptors, Closing, Sharing (opening an inode in memory).
--   Inode: inode_locate and inode_sync of src/fs/inode.c over a disk of bytes, where ide_read and
--     ide_write move whole sectors. Its child: Sync.
--   Interrupt: intr_enable, intr_disable and intr_set_status of src/kernel/interrupt.c.
--   IoQueue: src/device/ioqueue.c, a call being a row of rounds between which the caller sleeps, as the
--     consumer or the producer with the queue's lock, or among the lock's waiters. Its children: Ring
--     (the bytes in the queue as a list), Refine.
--   LinkedList: the functions of src/lib/list.c over a store of the two node fields. Its children:
--     Segment (pieces of a list), Insert, Remove, Walk (the loops).
--   Keyboard: the key map and intr_keyboard_handler of src/device/keyboard.c up to the call of the
--     queue. Its child: Keys.
--   Memory: the physical page pools and reference counts of src/kernel/memory.c. Its children:
--     References (the invariant), Pages (palloc, free_a_phy_page, share_page).
--   Paging: pte_ptr, pde_ptr, addr_v2p, page_table_add, Modify_PTE and page_table_pte_remove of
--     src/kernel/memory.c, over the words of the page tables and the pools of Memory. Its children:
--     Tables (new entries), Changes (new flags and removed entries).
--   Pathname: path_parse and path_depth_cnt of src/fs/fs.c. Its child: Depth.
--   Pids: the pid pool of src/thread/thread.c. Its child: Pool.
--   Pipe: src/shell/pipe.c over IoQueue and Files. Its children: Transfer (pipe_read, pipe_write), Making
--     (sys_pipe and the closing of its ends).
--   Stdio: itoa and vsprintf of src/lib/stdio.c. Its children: Numerals (itoa), Text (what stands in the
--     buffer, and the text of a format), Format (vsprintf).
--   Strings: the functions of src/lib/string.c over a memory of bytes. Its children: Blocks (memset,
--     memcpy, memcmp), Copy (strcpy, strcat), Scan (strlen, strchr, strrchr), Order (strcmp, strchrs).
--   Sync: src/thread/sync.c as the steps of threads that share one lock. Its children: Invariant, Steps
--     (each step keeps it), Exclusion.
--   Thread: schedule, thread_block, thread_unblock, thread_yield of src/thread/thread.c and
--     intr_timer_handler of src/device/timer.c. Its children: Abstract (the scheduler over a queue),
--     Invariant, Refine (the code against Abstract), Safety.
--   Virtual: vaddr_get and vaddr_remove of src/kernel/memory.c. Its child: Pages.
--   Volume: the bitmaps of a partition in memory and on its disk: mount_partition of src/fs/fs.c,
--     the allocations and bitmap_sync of src/fs/file.c, and inode_release of src/fs/inode.c up to
--     inode_delete. Its children: Synced (disk and memory agree), Allocation, Release.
--   Writing: file_write of src/fs/file.c. Its children: Rounds and Loop (the
--     bytes that its loop writes), Appending.
--   Tests: runs at concrete inputs, and each theorem at an input that meets its hypotheses.
--
-- Numbers. A uint32_t is a native number and its sums are taken modulo 2 ^ 32 where they can wrap. A
-- pointer is a number, NULL is 0. A failed ASSERT or a PANIC is the result `panicked`.
--
-- Loops. The walks of a list and the byte search of a bitmap take fuel; the theorems say how much
-- is enough: more than the elements of the list, more than the bytes of the bitmap (bitmap_scan
-- gives that itself). file_read and file_write give
-- themselves a round for each byte. path_depth_cnt gives itself two rounds more than the path has bytes. itoa of
-- a value makes at most that many calls. The loops over a string need more than its length. The
-- scheduler's walks have enough where the fuel exceeds the number of threads by three.
--
-- Not modelled: assembly (boot, context switch, interrupt entry), port I/O, printing, page table
-- activation at a thread switch, and the stacks of the threads: that a stack runs over its mark
-- stack_magic is a condition where the mark is checked, and a name that overruns the buffer of
-- path_depth_cnt is its result `none`. Sectors are taken to lie on the disk. What a thread runs after it is
-- switched to is one step in the model: it restores the interrupt status that it kept. The arenas
-- of the memory manager, processes, the disk driver, the other
-- system calls and the shell have no model here.
pub mod Base
pub mod Bitmap
pub mod Contents
pub mod Directory
pub mod Files
pub mod Inode
pub mod Interrupt
pub mod IoQueue
pub mod Keyboard
pub mod LinkedList
pub mod Memory
pub mod Paging
pub mod Pathname
pub mod Pids
pub mod Pipe
pub mod Stdio
pub mod Strings
pub mod Sync
pub mod Thread
pub mod Virtual
pub mod Volume
pub mod Writing
pub mod Tests
