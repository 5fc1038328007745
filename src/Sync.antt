-- ===== src/Sync.antt =====
-- thread/sync.c: semaphores and locks, and the threads that call them.
--
-- A thread is the address of its PCB, never 0; 0 is NULL. The list of waiters is kept by its contents.
-- Interrupts are off inside sema_down and sema_up, so a round of the loop of sema_down and a whole
-- sema_up are one step each; between the steps any other thread may run.
pub mod Invariant
pub mod Steps
pub mod Exclusion
use enix.Base.{
  ℕ, ◌+◌, ◌-◌, ◌≡◌, ◌≢◌, Bool, true, false, not, Option, none, some, List, [], ◌∷◌, ◌++◌, ltb,
  u32_mod, ◌<◌, ◌==◌, if◌then◌else◌, add32, update, Run, done, ◌>>=◌, ◌>>◌, assert, has,
}

-- struct semaphore
pub record Semaphore : Type 0 where
  pub value : ℕ
  pub waiters : List ℕ

-- struct lock
pub record Lock : Type 0 where
  pub holder : ℕ
  pub semaphore : Semaphore
  pub holder_repeat_nr : ℕ

unfoldable pub sema_init : ℕ → Semaphore
sema_init value = record { value = value; waiters = [] }

unfoldable pub lock_init : Lock
unfolding sema_init
lock_init = record { holder = 0; semaphore = sema_init 1; holder_repeat_nr = 0 }

-- Where a round of sema_down leaves the caller: behind the loop, or asleep among the waiters. One that
-- is woken runs the next round.
pub data DownRound : Type 0 where
  passed : Semaphore → DownRound
  slept : Semaphore → DownRound

unfoldable pub sema_down : ℕ → Semaphore → Run DownRound
sema_down cur psema =
    if psema.value == 0
    then (assert (not (has cur psema.waiters))
        >> done (slept (record psema { waiters = psema.waiters ++ cur ∷ [] })))
    else (assert (psema.value - 1 == 0) >> done (passed (record psema { value = psema.value - 1 })))

-- The first waiter goes, and is woken.
unfoldable pub wake_first : Semaphore → Semaphore × Option ℕ
wake_first psema = elim psema.waiters [
  | [] ↦ (psema, none)
  | thread_blocked ∷ rest ↦ (record psema { waiters = rest }, some thread_blocked)
]

unfoldable pub sema_up : Semaphore → Run (Semaphore × Option ℕ)
unfolding wake_first
sema_up psema = do
  assert (psema.value == 0)
  let (s, woken) = wake_first psema
  assert (s.value + 1 == 1)
  done (record s { value = s.value + 1 }, woken)

-- How far a thread is: outside the lock, asleep in sema_down, woken there, behind sema_down but not
-- yet the holder, the holder, or no longer the holder but before its sema_up.
pub data Place : Type 0 where
  outside asleep woken behind holding leaving : Place

pub record System : Type 0 where
  pub lock : Lock
  pub place : ℕ → Place

abbrev pub move : ℕ → Place → System → System
move t p s = record s { place = update s.place t p }

abbrev pub set_semaphore : Semaphore → System → System
set_semaphore psema s = let l = s.lock in record s { lock = record l { semaphore = psema } }

-- lock_acquire calls sema_down, or the woken thread goes round its loop.
abbrev pub after_round : ℕ → DownRound → System → System
after_round t (passed psema) s = move t behind (set_semaphore psema s)
after_round t (slept psema) s = move t asleep (set_semaphore psema s)

unfoldable pub down_round : ℕ → System → Run System
unfolding sema_down
down_round t s = do r ← sema_down t s.lock.semaphore; done (after_round t r s)

abbrev pub with_holder : ℕ → ℕ → System → System
with_holder holder nr s =
    let l = s.lock in record s { lock = record l { holder = holder; holder_repeat_nr = nr } }

-- lock_acquire behind sema_down.
unfoldable pub become_holder : ℕ → System → Run System
become_holder t s = do
  assert (s.lock.holder_repeat_nr == 0)
  done (move t holding (with_holder t 1 s))

unfoldable pub lock_acquire : ℕ → System → Run System
unfolding down_round
lock_acquire t s =
    if not (s.lock.holder == t)
    then down_round t s
    else done (with_holder s.lock.holder (add32 s.lock.holder_repeat_nr 1) s)

-- lock_release up to sema_up.
unfoldable pub lock_release : ℕ → System → Run System
lock_release t s =
    assert (s.lock.holder == t)
    >> (if ltb 1 s.lock.holder_repeat_nr
        then done (with_holder s.lock.holder (s.lock.holder_repeat_nr - 1) s)
        else (assert (s.lock.holder_repeat_nr == 1) >> done (move t leaving (with_holder 0 0 s))))

abbrev pub wake : Option ℕ → System → System
wake none s = s
wake (some t) s = move t woken s

-- The sema_up of lock_release.
unfoldable pub up_round : ℕ → System → Run System
unfolding sema_up
up_round t s = do
  (psema, first) ← sema_up s.lock.semaphore
  done (wake first (move t outside (set_semaphore psema s)))

-- What a thread does next at each place. A thread outside or inside may do nothing as well.
abbrev pub next_step : Place → ℕ → System → Run System
next_step outside = lock_acquire
next_step woken = down_round
next_step behind = become_holder
next_step holding = lock_release
next_step leaving = up_round
next_step asleep = λ t s. done s

-- One step of some thread; the holder may also acquire the lock again, while the count has room.
pub data Step (s : System) : System → Type 0 where
  goes : (t : ℕ) (s' : System) → t ≢ 0 → next_step (s.place t) t s ≡ done s' → Step s s'
  again :
      (t : ℕ) (s' : System)
      → t ≢ 0
      → s.place t ≡ holding
      → s.lock.holder_repeat_nr + 1 < u32_mod
      → lock_acquire t s ≡ done s'
      → Step s s'

-- All states from the lock's start, with all threads outside.
pub data Reach : System → Type 0 where
  start : Reach (record { lock = lock_init; place = λ t. outside })
  later : {s s' : System} → Reach s → Step s s' → Reach s'
