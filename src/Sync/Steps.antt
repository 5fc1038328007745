-- ===== src/Sync/Steps.antt =====
-- Each step of a thread goes through, and keeps what holds of the lock.
use enix.Base.{
  ℕ, ◌+◌, ◌-◌, ◌<◌, ◌≡◌, ◌≢◌, refl, inl, inr, true, false, List, [], ◌∷◌, ◌++◌, arith, ltb, ◌==◌,
  add32, u32_mod, Run, done, has, Distinct, ℕ_discrete, Bool-cases, has-append, Distinct-insert,
  ◌∙◌, ap, sym, subst,
}
use enix.Sync.{
  System, outside, asleep, woken, behind, holding, leaving, move, with_holder, set_semaphore,
  down_round, become_holder, lock_acquire, lock_release, up_round,
}
use mathlib.Core.List.{append-nil}
use enix.Sync.Invariant.{is_critical, is_asleep, IsSound}

module _ (s : System) (v : IsSound s) (t : ℕ) (ne : t ≢ 0) where
  -- The result of a step that goes through.
  abbrev pub Goes : Run System → Type 0
  Goes r = (s' : System) × (r ≡ done s') × IsSound s'

  pub become_holder-IsSound : s.place t ≡ behind → Goes (become_holder t s)
  unfolding become_holder
  become_holder-IsSound e =
      let own : v.owner ≡ t = ground (arith, v.critical t) in
      let free : s.lock.holder ≡ 0 = ground (arith, v.holder) in
      let zero_nr : s.lock.holder_repeat_nr ≡ 0 = v.unheld free in
      (
        move t holding (with_holder t 1 s),
        rw zero_nr refl,
        record {
          owner = t;
          value = ground (arith, v.value);
          critical = λ u. ground (arith, v.critical u, v.critical t);
          holder = ground arith;
          unheld = λ h. absurd (ne h);
          held = λ h. omega arith;
          waiting = λ u. ground (arith, v.waiting u);
          distinct = v.distinct;
          wakeful = λ h. absurd (ne h);
          null = ground (arith, v.null);
        },
      )

  pub again-IsSound :
      s.place t ≡ holding → s.lock.holder_repeat_nr + 1 < u32_mod → Goes (lock_acquire t s)
  unfolding lock_acquire
  again-IsSound e small =
      let own : v.owner ≡ t = ground (arith, v.critical t) in
      let mine : s.lock.holder ≡ t = ground (arith, v.holder) in
      let test : (s.lock.holder == t) ≡ true = ground arith in
      let nr : add32 s.lock.holder_repeat_nr 1 ≡ s.lock.holder_repeat_nr + 1 = omega arith in
      (
        with_holder s.lock.holder (s.lock.holder_repeat_nr + 1) s,
        rw (test, nr) refl,
        record {
          owner = v.owner;
          value = v.value;
          critical = v.critical;
          holder = v.holder;
          unheld = λ h. absurd (omega arith);
          held = λ h. omega arith;
          waiting = v.waiting;
          distinct = v.distinct;
          wakeful = v.wakeful;
          null = v.null;
        },
      )

  pub lock_release-IsSound : s.place t ≡ holding → Goes (lock_release t s)
  unfolding lock_release
  lock_release-IsSound e =
      let own : v.owner ≡ t = ground (arith, v.critical t) in
      let mine : s.lock.holder ≡ t = ground (arith, v.holder) in
      let test : (s.lock.holder == t) ≡ true = ground arith in
      let some_nr : 0 < s.lock.holder_repeat_nr = v.held (ground arith) in
      elim (Bool-cases (ltb 1 s.lock.holder_repeat_nr)) [
        | inl more ↦ (
          with_holder s.lock.holder (s.lock.holder_repeat_nr - 1) s,
          rw (test, more) refl,
          record {
            owner = v.owner;
            value = v.value;
            critical = v.critical;
            holder = v.holder;
            unheld = λ h. absurd (omega arith);
            held = λ h. ground arith;
            waiting = v.waiting;
            distinct = v.distinct;
            wakeful = v.wakeful;
            null = v.null;
          },
        )
        | inr last ↦
            let one : s.lock.holder_repeat_nr ≡ 1 = ground arith in
            (
              move t leaving (with_holder 0 0 s),
              rw (test, last, one) refl,
              record {
                owner = t;
                value = ground (arith, v.value);
                critical = λ u. ground (arith, v.critical u, v.critical t);
                holder = ground arith;
                unheld = λ h. refl;
                held = λ h. absurd (h refl);
                waiting = λ u. ground (arith, v.waiting u);
                distinct = v.distinct;
                wakeful = λ h. absurd (ne h);
                null = ground (arith, v.null);
              },
            )
      ]

  pass-IsSound :
      is_critical (s.place t) ≡ false
      → is_asleep (s.place t) ≡ false
      → v.owner ≡ 0
      → Goes (down_round t s)
  unfolding down_round
  pass-IsSound out awake free =
      let one : s.lock.semaphore.value ≡ 1 = ground (arith, v.value) in
      let psema = s.lock.semaphore in
      (
        move t behind (set_semaphore (record psema { value = 0 }) s),
        rw one refl,
        record {
          owner = t;
          value = ground arith;
          critical = λ u. ground (arith, v.critical u, v.critical t);
          holder = ground (arith, v.holder, v.critical t, v.null);
          unheld = v.unheld;
          held = v.held;
          waiting = λ u. ground (arith, v.waiting u);
          distinct = v.distinct;
          wakeful = λ h. absurd (ne h);
          null = ground (arith, v.null);
        },
      )

  sleep-IsSound :
      is_critical (s.place t) ≡ false
      → is_asleep (s.place t) ≡ false
      → v.owner ≢ 0
      → Goes (down_round t s)
  unfolding down_round
  sleep-IsSound out awake taken =
      let psema = s.lock.semaphore in
      let zero_value : psema.value ≡ 0 = ground (arith, v.value) in
      let fresh : has t psema.waiters ≡ false = v.waiting t ∙ awake in
      (
        move t asleep (set_semaphore (record psema { waiters = psema.waiters ++ t ∷ [] }) s),
        rw (zero_value, fresh) refl,
        record {
          owner = v.owner;
          value = v.value;
          critical = λ u. ground (arith, v.critical u, v.critical t);
          holder = ground (arith, v.holder, v.critical t);
          unheld = v.unheld;
          held = v.held;
          waiting = λ u. ground (arith, v.waiting u, has-append u psema.waiters (t ∷ []));
          distinct =
              Distinct-insert psema.waiters [] t (rw append-nil v.distinct) (rw append-nil fresh);
          wakeful = λ h. absurd (taken h);
          null = ground (arith, v.null);
        },
      )

  pub down_round-IsSound :
      is_critical (s.place t) ≡ false → is_asleep (s.place t) ≡ false → Goes (down_round t s)
  down_round-IsSound out awake = elim (ℕ_discrete v.owner 0) [
    | yes free ↦ pass-IsSound out awake free
    | no taken ↦ sleep-IsSound out awake taken
  ]

  up-IsSound :
      (ws : List ℕ) → s.place t ≡ leaving → s.lock.semaphore.waiters ≡ ws → Goes (up_round t s)
  unfolding up_round
  up-IsSound [] e none_wait =
      let psema = s.lock.semaphore in
      let own : v.owner ≡ t = ground (arith, v.critical t) in
      let zero_value : psema.value ≡ 0 = ground (arith, v.value) in
      (
        move t outside (set_semaphore (record { value = 1; waiters = [] }) s),
        rw (zero_value, none_wait) refl,
        record {
          owner = 0;
          value = refl;
          critical = λ u. ground (arith, v.critical u, v.critical t);
          holder = ground (arith, v.holder, v.null);
          unheld = v.unheld;
          held = v.held;
          waiting = λ u. ground (arith, v.waiting u, none_wait);
          distinct = tt;
          wakeful = λ h. inl refl;
          null = ground (arith, v.null);
        },
      )
  up-IsSound (x ∷ rest) e waits =
      let psema = s.lock.semaphore in
      let own : v.owner ≡ t = ground (arith, v.critical t) in
      let zero_value : psema.value ≡ 0 = ground (arith, v.value) in
      let all : (u : ℕ) → has u (x ∷ rest) ≡ is_asleep (s.place u) =
        λ u. ap (has u) (sym waits) ∙ v.waiting u in
      let alone : Distinct (x ∷ rest) = subst Distinct waits v.distinct in
      (
        move x woken (move t outside (set_semaphore (record { value = 1; waiters = rest }) s)),
        rw (zero_value, waits) refl,
        record {
          owner = 0;
          value = refl;
          critical = λ u. ground (arith, v.critical u, v.critical t, all x, all u);
          holder = ground (arith, v.holder, v.null);
          unheld = v.unheld;
          held = v.held;
          waiting = λ u. ground (arith, all u, all t, alone);
          distinct = alone.1;
          wakeful = λ h. inr (x, ground arith);
          null = ground (arith, v.null, all x, all 0);
        },
      )

  pub up_round-IsSound : s.place t ≡ leaving → Goes (up_round t s)
  up_round-IsSound e = up-IsSound s.lock.semaphore.waiters e refl

  -- Outside, the thread is not the holder, so lock_acquire goes to sema_down.
  pub lock_acquire-IsSound : s.place t ≡ outside → Goes (lock_acquire t s)
  unfolding lock_acquire
  lock_acquire-IsSound e =
      let test : (s.lock.holder == t) ≡ false = ground (arith, v.holder, v.critical t) in
      rw test (down_round-IsSound (ground arith) (ground arith))
