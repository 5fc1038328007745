-- ===== src/Sync/Exclusion.antt =====
-- What a lock promises: one holder at a time, no failing ASSERT, and no waiter that is forgotten.
use enix.Base.{
  ℕ, ◌+◌, ◌<◌, ◌≡◌, ◌≢◌, refl, ◌⊎◌, inl, inr, true, arith, ◌==◌, u32_mod, Run, done, done-injective,
  ◌∙◌, sym, subst, ℕ_discrete, ap, add32, ltb, ◌-◌, List, [], ◌∷◌, ◌++◌, has, has-append, Distinct,
  false,
}
use enix.Sync.{
  System, Place, outside, asleep, woken, behind, holding, leaving, next_step, lock_acquire,
  down_round, up_round, lock_release, Step, goes, again, Reach, start, later, move, set_semaphore,
  with_holder,
}
use enix.Sync.Invariant.{is_critical, is_asleep, IsSound, start-IsSound}
use enix.Sync.Steps.{
  become_holder-IsSound, again-IsSound, lock_release-IsSound, down_round-IsSound, up_round-IsSound,
  lock_acquire-IsSound,
}

module _ (s : System) (v : IsSound s) (t : ℕ) (ne : t ≢ 0) where
  next-IsSound :
      (p : Place) → s.place t ≡ p → (s' : System) × (next_step p t s ≡ done s') × IsSound s'
  next-IsSound outside e = lock_acquire-IsSound s v t ne e
  next-IsSound asleep e = (s, refl, v)
  next-IsSound woken e = down_round-IsSound s v t ne (ap is_critical e) (ap is_asleep e)
  next-IsSound behind e = become_holder-IsSound s v t ne e
  next-IsSound holding e = lock_release-IsSound s v t ne e
  next-IsSound leaving e = up_round-IsSound s v t ne e

  same_result :
      (s' : System) (r : Run System)
      → (x : System) × (r ≡ done x) × IsSound x
      → r ≡ done s'
      → IsSound s'
  same_result s' r (x, run, sound) e = subst IsSound (done-injective (sym run ∙ e)) sound

Step-IsSound : (s s' : System) → IsSound s → Step s s' → IsSound s'
Step-IsSound s s' v (goes t _ ne e) =
    same_result s v t ne s' (next_step (s.place t) t s) (next-IsSound s v t ne (s.place t) refl) e
Step-IsSound s s' v (again t _ ne held small e) =
    same_result s v t ne s' (lock_acquire t s) (again-IsSound s v t ne held small) e

pub Reach-IsSound : {s : System} → Reach s → IsSound s
Reach-IsSound start = start-IsSound
Reach-IsSound (later {s} {s'} r st) = Step-IsSound s s' (Reach-IsSound r) st

-- In every state that the threads can reach from a new lock, in any interleaving, at most one thread
-- has come through the sema_down of lock_acquire and not yet through the sema_up of lock_release, be it
-- still before it becomes the holder, the holder, or no longer the holder.
pub mutual_exclusion :
    (s : System) (i j : ℕ)
    → Reach s
    → is_critical (s.place i) ≡ true
    → is_critical (s.place j) ≡ true
    → i ≡ j
mutual_exclusion s i j r hi hj =
    let v = Reach-IsSound r in ground (arith, v.critical i, v.critical j)

-- In every reachable state, whatever a thread that is not 0 does next goes through: no ASSERT of
-- sema_down, sema_up, lock_acquire or lock_release fails, and the state after it is reachable.
pub next_step-Reach :
    (s : System) (t : ℕ)
    → Reach s
    → t ≢ 0
    → (s' : System) × (next_step (s.place t) t s ≡ done s') × Reach s'
next_step-Reach s t r ne =
    let (s', run, sound) = next-IsSound s (Reach-IsSound r) t ne (s.place t) refl in
    (s', run, later r (goes t s' ne run))

critical-cases : (p : Place) → is_critical p ≡ true → (p ≡ behind) ⊎ ((p ≡ holding) ⊎ (p ≡ leaving))
critical-cases behind h = inl refl
critical-cases holding h = inr (inl refl)
critical-cases leaving h = inr (inr refl)
critical-cases outside h = absurd (ground arith)
critical-cases asleep h = absurd (ground arith)
critical-cases woken h = absurd (ground arith)

has-split :
    (t : ℕ) (l : List ℕ)
    → has t l ≡ true
    → (before : List ℕ) × (rest : List ℕ) × (l ≡ before ++ t ∷ rest)
has-split t [] h = absurd (ground arith)
has-split t (x ∷ l) h = elim (ℕ_discrete t x) [
  | yes e ↦ ([], l, rw e refl)
  | no n ↦
      let (before, rest, e) = has-split t l (ground (arith, h, n)) in
      (x ∷ before, rest, ap (λ k. x ∷ k) e)
]

-- What the sema_up of `u` does for a sleeper behind the waiters `before`: it is woken if it is the
-- first, and moves up by one otherwise.
abbrev pub MovesUp : ℕ → ℕ → List ℕ → List ℕ → System → Type 0
MovesUp u t before rest s =
    (s' : System) × (up_round u s ≡ done s')
    × (((before ≡ []) × (s'.place t ≡ woken))
        ⊎ ((x : ℕ) × (ahead : List ℕ) × (before ≡ x ∷ ahead)
            × (s'.place t ≡ asleep)
            × (s'.lock.semaphore.waiters ≡ ahead ++ t ∷ rest)))

up_round-MovesUp :
    (s : System) (u t : ℕ) (before rest : List ℕ)
    → IsSound s
    → s.place u ≡ leaving
    → s.place t ≡ asleep
    → s.lock.semaphore.waiters ≡ before ++ t ∷ rest
    → MovesUp u t before rest s
unfolding up_round
up_round-MovesUp s u t [] rest v hu ht w =
    let zero_value : s.lock.semaphore.value ≡ 0 = ground (arith, v.value, v.critical u) in
    (
      move t woken (move u outside (set_semaphore (record { value = 1; waiters = rest }) s)),
      rw (zero_value, w) refl,
      inl (refl, ground arith),
    )
up_round-MovesUp s u t (x ∷ ahead) rest v hu ht w =
    let zero_value : s.lock.semaphore.value ≡ 0 = ground (arith, v.value, v.critical u) in
    let alone : Distinct (x ∷ ahead ++ t ∷ rest) = subst Distinct w v.distinct in
    let apart : (t == x) ≡ false = ground (arith, alone.0, has-append x ahead (t ∷ rest)) in
    let other : (t == u) ≡ false = elim (ℕ_discrete t u) [
      | yes e ↦ absurd (ground (arith, ap is_asleep (sym ht ∙ ap s.place e ∙ hu)))
      | no n ↦ ground (arith, n)
    ] in
    (
      move x woken
          (move u outside (set_semaphore (record { value = 1; waiters = ahead ++ t ∷ rest }) s)),
      rw (zero_value, w) refl,
      inr (x, ahead, refl, rw (apart, other) ht, refl),
    )

-- In every reachable state in which some thread sleeps on the lock, it stands in the queue of waiters,
-- and one of three holds. A thread is past sema_down and still has lock_release before it; or a
-- thread's next step is its sema_up, which wakes the sleeper if it is the first in the queue, and
-- otherwise takes the first one out in front of it and leaves it asleep; or a thread is woken, and its
-- next round passes sema_down.
pub asleep-wakeful :
    (s : System) (t : ℕ)
    → Reach s
    → s.place t ≡ asleep
    → (before : List ℕ) × (rest : List ℕ) × (s.lock.semaphore.waiters ≡ before ++ t ∷ rest)
      × (((u : ℕ) × ((s.place u ≡ behind) ⊎ (s.place u ≡ holding)))
          ⊎ ((u : ℕ) × (s.place u ≡ leaving) × MovesUp u t before rest s)
          ⊎ ((u : ℕ) × (s' : System) × (s.place u ≡ woken)
              × (down_round u s ≡ done s')
              × (s'.place u ≡ behind)))
unfolding down_round
asleep-wakeful s t r e =
    let v = Reach-IsSound r in
    let (before, rest, w) = has-split t s.lock.semaphore.waiters (v.waiting t ∙ ap is_asleep e) in
    (
      before,
      rest,
      w,
      elim (ℕ_discrete v.owner 0) [
        | no taken ↦ elim (critical-cases (s.place v.owner) (v.critical v.owner ∙ ground arith)) [
          | inl b ↦ inl (v.owner, inl b)
          | inr (inl h) ↦ inl (v.owner, inr h)
          | inr (inr l) ↦ inr (inl (v.owner, l, up_round-MovesUp s v.owner t before rest v l e w))
        ]
        | yes free ↦ elim (v.wakeful free) [
          | inl none_wait ↦ absurd (ground (arith, v.waiting t, none_wait))
          | inr (u, wu) ↦
              let psema = s.lock.semaphore in
              let one : psema.value ≡ 1 = ground (arith, v.value) in
              inr (
                inr (
                  u,
                  move u behind (set_semaphore (record psema { value = 0 }) s),
                  wu,
                  rw one refl,
                  ground arith,
                ))
        ]
      ],
    )

-- A holder that acquires the lock again and releases it once is where it was, as long as the count
-- has room: it still holds the lock.
lock_acquire-lock_release :
    (s : System) (t : ℕ)
    → Reach s
    → t ≢ 0
    → s.place t ≡ holding
    → s.lock.holder_repeat_nr + 1 < u32_mod
    → (s' : System) × (lock_acquire t s ≡ done s') × (lock_release t s' ≡ done s)
unfolding lock_acquire lock_release
lock_acquire-lock_release s t r ne e small =
    let v = Reach-IsSound r in
    let mine : s.lock.holder ≡ t = ground (arith, v.holder, v.critical t) in
    let test : (s.lock.holder == t) ≡ true = ground arith in
    let some_nr : 0 < s.lock.holder_repeat_nr = v.held (ground arith) in
    let nr : add32 s.lock.holder_repeat_nr 1 ≡ s.lock.holder_repeat_nr + 1 = omega arith in
    let more : ltb 1 (s.lock.holder_repeat_nr + 1) ≡ true = ground arith in
    let back : s.lock.holder_repeat_nr + 1 - 1 ≡ s.lock.holder_repeat_nr = omega arith in
    (
      with_holder s.lock.holder (s.lock.holder_repeat_nr + 1) s,
      rw (test, nr) refl,
      rw (test, more, back) refl,
    )
