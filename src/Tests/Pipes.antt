-- ===== src/Tests/Pipes.antt =====
-- A pipe with two bytes, and one with 60.
use enix.Base.{
  block, ℕ, ◌+◌, ◌<◌, ◌≤◌, ◌≡◌, ◌≢◌, update, refl, ◌⊎◌, inr, ◌∷◌, done, arith, List, [], ◌++◌,
  length, Option, none, some, if◌then◌else◌, ◌==◌, false,
}
use enix.Interrupt.{intr_off}
use enix.Files.{Opened, fd_local2global, get_free_slot_in_global, install_loop, sys_close}
use enix.Sync.{lock_init, sema_init}
use enix.IoQueue.{IoQueue}
use enix.IoQueue.Refine.{IsReady}
use enix.IoQueue.Ring.{contents, IsRing}
use enix.Pipe.{Pipes, finished, smaller, pipe_read, pipe_write, ring_of, made, sys_pipe}
use enix.Pipe.Making.{both, piped, sys_pipe-sys_close}
use enix.Pipe.Transfer.{IsPipe, Sleeps, pipe_read_lem, pipe_write_lem}

abbrev open_files : Opened
open_files = record {
  inodes =
      λ a. record { i_no = 0; i_size = 0; i_open_cnts = 0; write_deny = false; i_sectors = λ i. 0 };
  open_inodes = [];
  file_table = λ g. record { fd_pos = 2; fd_flag = 0xffff; fd_inode = if g == 5 then 8192 else 0 };
  fd_table = λ fd. if fd == 4 then some 5 else none;
  freed_pages = [];
}

abbrev ring : ℕ → IoQueue
ring head = record {
  lock = lock_init;
  producer = 0;
  consumer = 0;
  buf = λ i. i;
  head = head;
  tail = 2;
}

abbrev with_ring : ℕ → Pipes
with_ring head = record { files = open_files; rings = λ a. ring head }

leads_to_ring : (head : ℕ) → ring_of 4 (with_ring head) ≡ done 8192
unfolding fd_local2global
leads_to_ring head = refl

IsPipe-ring : (head : ℕ) → head < 64 → IsPipe 4 (with_ring head) (ring head)
IsPipe-ring head h = record {
  ring = 8192;
  leads = leads_to_ring head;
  here = refl;
  sound = record { head_inside = h; tail_inside = omega arith };
}

abbrev no_pipe : Pipes
no_pipe = record { files = open_files; rings = λ a. ring 4 }

slot : get_free_slot_in_global open_files ≡ some 3
unfolding get_free_slot_in_global
slot = refl

first_end : install_loop 5 3 open_files.fd_table ≡ some 3
unfolding install_loop
first_end = refl

second_end : install_loop 5 3 (update open_files.fd_table 3 (some 3)) ≡ some 5
unfolding install_loop
second_end = refl

abbrev new_files : Opened
new_files = both 8192 3 3 5 no_pipe slot first_end second_end

abbrev new_pipes : Pipes
new_pipes = piped 8192 3 3 5 no_pipe slot first_end second_end

sys_pipe-sys_close_example :
    (¬ (◌≡◌ {A = ℕ} 3 5))
    × (sys_pipe 8192 no_pipe ≡ made (some 3) (some 5) new_pipes)
    × (contents (new_pipes.rings 8192) ≡ [])
    × (fd_local2global 3 new_files ≡ done 3)
    × (fd_local2global 5 new_files ≡ done 3)
    × ((new_files.file_table 3).fd_inode ≡ 8192)
    × (s1 : Opened) × (sys_close 3 new_files ≡ done (s1, some 0))
    × (fd_local2global 5 s1 ≡ done 3)
    × ((s1.file_table 3).fd_inode ≡ 8192)
    × (s1.freed_pages ≡ [])
    × (s2 : Opened) × (sys_close 5 s1 ≡ done (s2, some 0))
    × ((s2.file_table 3).fd_inode ≡ 0)
    × ((k : ℕ) → s2.fd_table k ≡ open_files.fd_table k)
    × ((k : ℕ) → k ≢ 3 → s2.file_table k ≡ open_files.file_table k)
    × (s2.inodes ≡ open_files.inodes)
    × (s2.freed_pages ≡ 8192 ∷ [])
sys_pipe-sys_close_example =
    sys_pipe-sys_close 8192 3 3 5 no_pipe slot first_end second_end (omega arith)

abbrev one_descriptor : ℕ → Option ℕ
one_descriptor fd = if fd == 6 then none else some 5

abbrev crowded : Pipes
crowded = record no_pipe { files = record open_files { fd_table = one_descriptor } }

one_free : install_loop 5 3 crowded.files.fd_table ≡ some 6
unfolding install_loop
one_free = refl

none_free : install_loop 5 3 (update crowded.files.fd_table 6 (some 3)) ≡ none
unfolding install_loop
none_free = refl

crowded_slot : get_free_slot_in_global crowded.files ≡ some 3
unfolding get_free_slot_in_global
crowded_slot = refl

pipe_read_lem_example :
    (bytes woken : List ℕ) × (q' : IoQueue) × (pipe_read intr_off 16 4 10 (with_ring 4)
      ≡ done (finished bytes woken q'))
    × (contents (ring 4) ≡ bytes ++ contents q')
    × (length bytes ≡ smaller (length (contents (ring 4))) 10)
    × IsRing q'
pipe_read_lem_example = pipe_read_lem 4 16 10 (with_ring 4) (ring 4) (IsPipe-ring 4 (omega arith))

new_lock-IsReady : IsReady 16 lock_init
unfolding lock_init sema_init
new_lock-IsReady = record {
  other = omega arith;
  value = inr refl;
  idle = λ e. refl;
  fresh = λ e. absurd (omega (arith, e));
}

pipe_write_lem_example :
    ((length (contents (ring 62)) + 10 ≤ 63)
      × (woken : List ℕ) × (q' : IoQueue) × (pipe_write intr_off 16 4
            (λ i. i + 65)
            10
            (with_ring 62)
          ≡ done (finished (block 10 0 (λ i. i + 65)) woken q'))
      × (contents q' ≡ contents (ring 62) ++ block 10 0 (λ i. i + 65))
      × IsRing q')
    ⊎ ((63 < length (contents (ring 62)) + 10)
        × (k : ℕ) × (length (contents (ring 62)) + k ≡ 63)
        × (q' : IoQueue) × (contents q' ≡ contents (ring 62) ++ block k 0 (λ i. i + 65))
        × Sleeps 16
            (block k 0 (λ i. i + 65))
            (ring 62)
            q'
            (pipe_write intr_off 16 4 (λ i. i + 65) 10 (with_ring 62)))
pipe_write_lem_example =
    pipe_write_lem 4 16 10 (λ i. i + 65) (with_ring 62) (ring 62) (IsPipe-ring 62 (omega arith))
      new_lock-IsReady (λ e. refl)
