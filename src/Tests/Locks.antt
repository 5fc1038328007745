-- ===== src/Tests/Locks.antt =====
-- A lock that one thread holds while another waits for it.
use enix.Base.{ℕ, List, ◌++◌, ◌≡◌, refl, ◌⊎◌, done, arith, [], ◌∷◌}
use enix.Sync.{
  System, outside, asleep, woken, behind, holding, leaving, lock_acquire, lock_release, down_round,
  become_holder, goes, Reach, start, later, lock_init, move, set_semaphore, with_holder,
}
use enix.Sync.Exclusion.{mutual_exclusion, next_step-Reach, asleep-wakeful, MovesUp}

abbrev unlocked : System
unlocked = record { lock = lock_init; place = λ t. outside }

abbrev passed_by_8 : System
passed_by_8 = move 8 behind (set_semaphore (record { value = 0; waiters = [] }) unlocked)

abbrev held_by_8 : System
held_by_8 = move 8 holding (with_holder 8 1 passed_by_8)

abbrev contended : System
contended = move 16 asleep (set_semaphore (record { value = 0; waiters = 16 ∷ [] }) held_by_8)

contended-Reach : Reach contended
unfolding lock_acquire become_holder lock_init
contended-Reach =
    later
      (later (later start (goes 8 passed_by_8 (omega arith) refl))
        (goes 8 held_by_8 (omega arith) refl))
      (goes 16 contended (omega arith) refl)

mutual_exclusion_example : ◌≡◌ {A = ℕ} 8 8
mutual_exclusion_example = mutual_exclusion contended 8 8 contended-Reach refl refl

next_step-Reach_example : (s' : System) × (lock_release 8 contended ≡ done s') × Reach s'
next_step-Reach_example = next_step-Reach contended 8 contended-Reach (omega arith)

asleep-wakeful_example :
    (before : List ℕ) × (rest : List ℕ) × (◌≡◌ {A = List ℕ} (16 ∷ []) (before ++ 16 ∷ rest))
    × (((u : ℕ) × ((contended.place u ≡ behind) ⊎ (contended.place u ≡ holding)))
        ⊎ ((u : ℕ) × (contended.place u ≡ leaving) × MovesUp u 16 before rest contended)
        ⊎ ((u : ℕ) × (s' : System) × (contended.place u ≡ woken)
            × (down_round u contended ≡ done s')
            × (s'.place u ≡ behind)))
asleep-wakeful_example = asleep-wakeful contended 16 contended-Reach refl
