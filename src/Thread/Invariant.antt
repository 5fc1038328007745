-- ===== src/Thread/Invariant.antt =====
-- The scheduler over a queue keeps its invariant, in any order of its calls.
use enix.Base.{
  ℕ, ◌≡◌, refl, sym, ◌∙◌, ◌≢◌, true, false, List, [], ◌∷◌, ◌++◌, arith, ◌==◌, Bool-cases, inl, inr,
  has, has-append, Distinct, Distinct-insert, is_nil, ap, subst,
}
use mathlib.Core.List.{append-nil}
use enix.Thread.{
  Status, running, ready, blocked, waiting, hanging, died, is_running, is_ready, is_asleep,
  general_tag,
}
use enix.Thread.Abstract.{
  Sched, unblock, requeue, run_first, requeue_running, wake_idle, schedule, fall_asleep, give_way,
  count_tick, block, yield_cpu, tick, Consistent, IsValid,
}

pub asleep_facts :
    (st : Status)
    → is_asleep st ≡ true
    → (is_running st ≡ false) × (is_ready st ≡ false) × (st ≢ died)
asleep_facts st h = ground arith

running_of : (st : Status) → is_running st ≡ true → st ≡ running
running_of st h = ground arith

Distinct-snoc : (q : List ℕ) (x : ℕ) → Distinct q → has x q ≡ false → Distinct (q ++ x ∷ [])
Distinct-snoc q x d h = Distinct-insert q [] x (rw append-nil d) (rw append-nil h)

module _ (a : Sched) (c : Consistent a) where
  -- A thread outside the queue joins it at either end; no thread runs then but maybe the current.
  Consistent-unblock : (t : ℕ) → is_asleep (a.status t) ≡ true → Consistent (unblock t a)
  unfolding unblock
  Consistent-unblock t h =
      let (nr, ny, nd) = asleep_facts (a.status t) h in
      record {
        exact = λ u. ground (arith, c.exact u);
        once = (c.exact t ∙ ny, c.once);
        only = λ u r. ground (arith, c.only u);
        idle_lives = ground (arith, c.idle_lives);
        placed = λ u l. ground (arith, c.placed u, c.placed t);
        known = λ u l. ground (arith, c.known u, c.known t);
      }

  module _ (runs : a.status a.current ≡ running) where
    out : has a.current a.queue ≡ false
    out = let e = c.exact a.current in ground arith

    live : a.status a.current ≢ died
    live e = ground arith

    pub Consistent-give_way : Consistent (give_way a)
    Consistent-give_way = record {
      exact = λ u. ground (arith, c.exact u, has-append u a.queue (a.current ∷ []));
      once = Distinct-snoc a.queue a.current c.once out;
      only = λ u r. ground (arith, c.only u);
      idle_lives = ground (arith, c.idle_lives);
      placed = λ u l. ground (arith, c.placed u, c.placed a.current live);
      known = λ u l. ground (arith, c.known u, c.known a.current live);
    }

    Consistent-requeue : Consistent (requeue a)
    unfolding requeue
    Consistent-requeue = record {
      exact = Consistent-give_way.exact;
      once = Consistent-give_way.once;
      only = Consistent-give_way.only;
      idle_lives = Consistent-give_way.idle_lives;
      placed = Consistent-give_way.placed;
      known = Consistent-give_way.known;
    }

    pub Consistent-fall_asleep : (st : Status) → is_asleep st ≡ true → Consistent (fall_asleep st a)
    Consistent-fall_asleep st h =
        let (nr, ny, nd) = asleep_facts st h in
        record {
          exact = λ u. ground (arith, c.exact u);
          once = c.once;
          only = λ u r. ground (arith, c.only u);
          idle_lives = ground (arith, c.idle_lives);
          placed = λ u l. ground (arith, c.placed u, c.placed a.current live);
          known = λ u l. ground (arith, c.known u, c.known a.current live);
        }

-- Nothing runs any more, but the first of the queue.
IsValid-run_first :
    (a : Sched) (x : ℕ) (q : List ℕ)
    → a.queue ≡ x ∷ q
    → Consistent a
    → is_running (a.status a.current) ≡ false
    → IsValid (run_first (x ∷ q) a)
unfolding run_first
IsValid-run_first a x q e c f =
    let ex = λ (u : ℕ). ap (has u) (sym e) ∙ c.exact u in
    let d : Distinct (x ∷ q) = subst Distinct e c.once in
    let was : is_ready (a.status x) ≡ true = let h = ex x in ground arith in
    let live : a.status x ≢ died = λ z. ground arith in
    record {
      consistent = record {
        exact = λ u. ground (arith, ex u);
        once = d.1;
        only = λ u r. ground (arith, c.only u);
        idle_lives = ground (arith, c.idle_lives);
        placed = λ u l. ground (arith, c.placed u, c.placed x live);
        known = λ u l. ground (arith, c.known u, c.known x live);
      };
      runs = ground arith;
    }

-- What the statuses say of one another.
pub running_lem : (st : Status) → is_running st ≡ true → (is_ready st ≡ false) × (st ≢ died)
running_lem st h = ground arith

asleep_lem :
    (st : Status) → is_running st ≡ false → is_ready st ≡ false → st ≢ died → is_asleep st ≡ true
asleep_lem running h r d = cc
asleep_lem ready h r d = cc
asleep_lem died h r d = absurd (d refl)
asleep_lem blocked h r d = refl
asleep_lem waiting h r d = refl
asleep_lem hanging h r d = refl

-- Where the queue is empty the idle thread can be woken.
abbrev pub IdleReady : Sched → Type 0
IdleReady a =
    (is_nil a.queue ≡ true)
    → (is_asleep (a.status a.idle_thread) ≡ true)
      × (general_tag a.idle_thread ≢ a.ready_list.head)
      × (general_tag a.idle_thread ≢ a.ready_list.tail)

-- After the first part of schedule the idle thread can be woken if nothing else can run.
is_nil-snoc : (q : List ℕ) (x : ℕ) → is_nil (q ++ x ∷ []) ≡ false
is_nil-snoc [] x = refl
is_nil-snoc (y ∷ q) x = refl

pub IdleReady-requeue_running : (a : Sched) → Consistent a → IdleReady (requeue_running a)
unfolding requeue_running requeue
IdleReady-requeue_running a c = elim (Bool-cases (is_running (a.status a.current))) [
  | inl t ↦ rw t (λ h. absurd (ground (arith, is_nil-snoc a.queue a.current)))
  | inr f ↦ let (p, q) = c.placed a.idle_thread c.idle_lives in rw f (λ h. (idle_asleep f h, p, q))
]
  where
    empty_lem : (q : List ℕ) → is_nil q ≡ true → has a.idle_thread q ≡ false
    empty_lem [] h = refl
    empty_lem (x ∷ q) h = cc

    idle_asleep :
        is_running (a.status a.current) ≡ false
        → is_nil a.queue ≡ true
        → is_asleep (a.status a.idle_thread) ≡ true
    idle_asleep f h = elim (Bool-cases (is_running (a.status a.idle_thread))) [
      | inl t ↦ let e = c.only a.idle_thread t in absurd (ground arith)
      | inr f' ↦
          asleep_lem (a.status a.idle_thread) f' (sym (c.exact a.idle_thread) ∙ empty_lem a.queue h)
            c.idle_lives
    ]

pub is_nil-wake_idle : (a : Sched) → is_nil (wake_idle a).queue ≡ false
unfolding wake_idle unblock
is_nil-wake_idle a = ground arith

-- The parts of schedule keep the state consistent, and leave nothing running.
Consistent-requeue_running : (a : Sched) → Consistent a → Consistent (requeue_running a)
unfolding requeue_running
Consistent-requeue_running a c = elim (Bool-cases (is_running (a.status a.current))) [
  | inl t ↦ rw t (Consistent-requeue a c (running_of (a.status a.current) t))
  | inr f ↦ rw f c
]

rested : (a : Sched) → is_running ((requeue_running a).status (requeue_running a).current) ≡ false
unfolding requeue_running requeue
rested a = elim (Bool-cases (is_running (a.status a.current))) [
  | inl t ↦ rw t (ground arith)
  | inr f ↦ rw f f
]

Consistent-wake_idle : (a : Sched) → Consistent a → IdleReady a → Consistent (wake_idle a)
unfolding wake_idle
Consistent-wake_idle a c r = elim (Bool-cases (is_nil a.queue)) [
  | inl t ↦ rw t (Consistent-unblock a c a.idle_thread (r t).0)
  | inr f ↦ rw f c
]

rested_wake :
    (a : Sched)
    → is_running (a.status a.current) ≡ false
    → is_running ((wake_idle a).status (wake_idle a).current) ≡ false
unfolding wake_idle unblock
rested_wake a f = ground arith

-- From a consistent state schedule leads to a valid one.
pub IsValid-schedule : (a : Sched) → Consistent a → IsValid (schedule a)
unfolding schedule
IsValid-schedule a c = first (wake_idle (requeue_running a)).queue refl
  where
    a1 : Sched
    a1 = requeue_running a

    c1 : Consistent a1
    c1 = Consistent-requeue_running a c

    f1 : is_running (a1.status a1.current) ≡ false
    f1 = rested a

    first : (q : List ℕ) → (wake_idle a1).queue ≡ q → IsValid (run_first q (wake_idle a1))
    first [] e = absurd (ground (arith, is_nil-wake_idle a1))
    first (x ∷ q) e =
        IsValid-run_first (wake_idle a1) x q e
          (Consistent-wake_idle a1 c1 (IdleReady-requeue_running a c)) (rested_wake a1 f1)

-- The calls, in any order.
pub data Step : Sched → Sched → Type 0 where
  blocks : (a : Sched) (st : Status) → is_asleep st ≡ true → Step a (block st a)
  yields : (a : Sched) → Step a (yield_cpu a)
  ticks : (a : Sched) → Step a (tick a)
  wakes : (a : Sched) (t : ℕ) → is_asleep (a.status t) ≡ true → Step a (unblock t a)

pub data Reach (a : Sched) : Sched → Type 0 where
  here : Reach a a
  next : {b c : Sched} → Reach a b → Step b c → Reach a c

pub Consistent-count_tick : (a : Sched) → Consistent a → Consistent (count_tick a)
Consistent-count_tick a c = record {
  exact = c.exact;
  once = c.once;
  only = c.only;
  idle_lives = c.idle_lives;
  placed = c.placed;
  known = c.known;
}

IsValid-tick : (a : Sched) → IsValid a → IsValid (tick a)
unfolding tick
IsValid-tick a v = elim (Bool-cases (a.ticks a.current == 0)) [
  | inl t ↦ rw t (IsValid-schedule (count_tick a) (Consistent-count_tick a v.consistent))
  | inr f ↦
      let c = v.consistent in
      rw f (record {
        consistent = record {
          exact = c.exact;
          once = c.once;
          only = c.only;
          idle_lives = c.idle_lives;
          placed = c.placed;
          known = c.known;
        };
        runs = v.runs;
      })
]

IsValid-unblock :
    (a : Sched) (t : ℕ) → is_asleep (a.status t) ≡ true → IsValid a → IsValid (unblock t a)
unfolding unblock
IsValid-unblock a t h v = record {
  consistent = Consistent-unblock a v.consistent t h;
  runs = let r = v.runs in ground arith;
}

pub Step-IsValid : {a b : Sched} → Step a b → IsValid a → IsValid b
unfolding block yield_cpu
Step-IsValid (blocks a st h) v =
    IsValid-schedule (fall_asleep st a) (Consistent-fall_asleep a v.consistent v.runs st h)
Step-IsValid (yields a) v =
    IsValid-schedule (give_way a) (Consistent-give_way a v.consistent v.runs)
Step-IsValid (ticks a) v = IsValid-tick a v
Step-IsValid (wakes a t h) v = IsValid-unblock a t h v

-- Whatever calls a valid scheduler goes through, in whatever order, it stays valid: the queue holds
-- exactly the ready threads, each once, and exactly one thread runs, the current one.
pub Reach-IsValid : {a b : Sched} → IsValid a → Reach a b → IsValid b
Reach-IsValid v here = v
Reach-IsValid v (next r s) = Step-IsValid s (Reach-IsValid v r)
