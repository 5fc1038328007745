-- ===== src/Pids.antt =====
-- thread/thread.c: the numbers of the processes.
--
-- The pool's lock is that of Sync, so that a call is one step here. A pid is not negative.
pub mod Pool
use enix.Base.{ℕ, ◌-◌, ◌^◌, Option, none, some, add32, sub32, Run, done, ◌>>=◌}
use enix.Bitmap.{Bitmap, bitmap_init, bitmap_scan, bitmap_set}

-- struct pid_pool, without its lock
pub record PidPool : Type 0 where
  pub pid_bitmap : Bitmap
  pub pid_start : ℕ

-- The pool over whatever the array pid_bitmap_bits holds.
unfoldable pub pid_pool_init : (ℕ → ℕ) → PidPool
pid_pool_init pid_bitmap_bits = record {
  pid_bitmap = bitmap_init record { btmp_bytes_len = 128; bits = pid_bitmap_bits };
  pid_start = 1;
}

-- An int32_t: -1 is its bit pattern.
abbrev pub bit_of : Option ℕ → ℕ
bit_of none = 2 ^ 32 - 1
bit_of (some bit_idx) = bit_idx

unfoldable pub allocate_pid : PidPool → Run (ℕ × PidPool)
allocate_pid p = do
  r ← bitmap_scan p.pid_bitmap 1
  b ← bitmap_set p.pid_bitmap (bit_of r) 1
  done (add32 (bit_of r) p.pid_start, record p { pid_bitmap = b })

unfoldable pub release_pid : ℕ → PidPool → Run PidPool
release_pid pid p = do
  b ← bitmap_set p.pid_bitmap (sub32 pid p.pid_start) 0
  done (record p { pid_bitmap = b })

unfoldable pub fork_pid : PidPool → Run (ℕ × PidPool)
fork_pid p = allocate_pid p
