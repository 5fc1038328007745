-- ===== src/Tests/ProcessIds.antt =====
-- The pids of a fresh pool.
use enix.Base.{ℕ, ◌<◌, ◌≤◌, ◌≡◌, ◌⊎◌, true, done, panicked, arith}
use enix.Pids.{PidPool, pid_pool_init, allocate_pid, release_pid}
use enix.Pids.Pool.{IsPool, IsGiven, is_taken, pid_pool_init-IsPool, allocate_pid-release_pid}

abbrev fresh : PidPool
fresh = pid_pool_init (λ k. 255)

fresh-IsPool : IsPool fresh
fresh-IsPool = (pid_pool_init-IsPool (λ k. 255) (λ k. omega arith)).0

allocate_pid-release_pid_example :
    ((allocate_pid fresh ≡ panicked) × ((q : ℕ) → 0 < q → q ≤ 1024 → is_taken fresh q ≡ true))
    ⊎ ((pid : ℕ) × (p1 : PidPool) × (allocate_pid fresh ≡ done (pid, p1))
        × IsGiven fresh pid p1
        × (p2 : PidPool) × (release_pid pid p1 ≡ done p2)
        × IsPool p2
        × ((q : ℕ) → is_taken p2 q ≡ is_taken fresh q))
allocate_pid-release_pid_example = allocate_pid-release_pid fresh fresh-IsPool
