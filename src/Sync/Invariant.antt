-- ===== src/Sync/Invariant.antt =====
-- What holds of a lock and the threads around it.
use enix.Base.{
  ℕ, ◌<◌, ◌≡◌, ◌≢◌, refl, ◌⊎◌, inl, Bool, true, false, not, ◌&&◌, [], ◌==◌, if◌then◌else◌, has,
  Distinct,
}
use enix.Sync.{System, Place, outside, asleep, woken, behind, holding, leaving, lock_init}

-- The thread has passed sema_down and not yet done its sema_up.
abbrev pub is_critical : Place → Bool
is_critical behind = true
is_critical holding = true
is_critical leaving = true
is_critical _ = false

abbrev pub is_holding : Place → Bool
is_holding holding = true
is_holding _ = false

abbrev pub is_asleep : Place → Bool
is_asleep asleep = true
is_asleep _ = false

-- `owner` is the one thread that is past sema_down, or 0.
pub record IsSound (s : System) : Type 0 where
  pub owner : ℕ
  pub value : s.lock.semaphore.value ≡ (if owner == 0 then 1 else 0)
  pub critical : (t : ℕ) → is_critical (s.place t) ≡ (not (owner == 0) && (t == owner))
  pub holder : s.lock.holder ≡ (if is_holding (s.place owner) then owner else 0)
  pub unheld : s.lock.holder ≡ 0 → s.lock.holder_repeat_nr ≡ 0
  pub held : s.lock.holder ≢ 0 → 0 < s.lock.holder_repeat_nr
  pub waiting : (t : ℕ) → has t s.lock.semaphore.waiters ≡ is_asleep (s.place t)
  pub distinct : Distinct s.lock.semaphore.waiters
  pub wakeful : owner ≡ 0 → (s.lock.semaphore.waiters ≡ []) ⊎ ((t : ℕ) × (s.place t ≡ woken))
  pub null : s.place 0 ≡ outside

pub start-IsSound : IsSound (record { lock = lock_init; place = λ t. outside })
unfolding lock_init
start-IsSound = record {
  owner = 0;
  value = refl;
  critical = λ t. refl;
  holder = refl;
  unheld = λ e. refl;
  held = λ ne. absurd (ne refl);
  waiting = λ t. refl;
  distinct = tt;
  wakeful = λ e. inl refl;
  null = refl;
}
