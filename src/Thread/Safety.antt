-- ===== src/Thread/Safety.antt =====
-- No ASSERT and no PANIC of the scheduler fires in a row of calls.
use enix.Base.{
  ℕ, ◌+◌, ◌≤◌, ◌<◌, ◌≡◌, refl, sym, ◌∙◌, ap, subst, true, List, [], ◌∷◌, arith, length, has,
  length-le_of_has, Run, done, done-injective,
}
use enix.Thread.{
  Kernel, Status, is_asleep, thread_unblock, thread_block, thread_yield, intr_timer_handler,
  stack_mark,
}
use enix.Thread.Abstract
use enix.Thread.Abstract.{Sched, sched_of, fall_asleep, give_way, count_tick, Consistent, IsValid}
use enix.Thread.Invariant.{blocks, yields, ticks, wakes, Step-IsValid}
use enix.Thread.Refine.{
  View, Refines, thread_block-Refines, thread_yield-Refines, intr_timer_handler-Refines,
  thread_unblock-Refines,
}

-- The ready list holds a queue that makes the state valid, the walks can cover all threads, and no
-- thread's stack has run over its mark.
pub record IsGood (fuel : ℕ) (k : Kernel) : Type 0 where
  pub queue : List ℕ
  pub view : View k queue
  pub valid : IsValid (sched_of k queue)
  pub covered : length k.thread_all_list + 2 < fuel
  pub intact : (t : ℕ) → has t k.thread_all_list ≡ true → k.stack_magic t ≡ stack_mark

-- The calls that can come next: the current thread blocks with one of the statuses of a sleeper or
-- yields, the clock ticks, or a thread that sleeps is unblocked.
pub data Call (fuel : ℕ) (k : Kernel) : Run Kernel → Type 0 where
  block : (st : Status) → is_asleep st ≡ true → Call fuel k (thread_block fuel st k)
  yield_cpu : Call fuel k (thread_yield fuel k)
  tick : Call fuel k (intr_timer_handler fuel k)
  unblock : (t : ℕ) → is_asleep (k.status t) ≡ true → Call fuel k (thread_unblock fuel t k)

-- Some calls, one after another.
pub data Calls (fuel : ℕ) (k : Kernel) : Kernel → Type 0 where
  start : Calls fuel k k
  call :
      {a b : Kernel} {m : Run Kernel} → Calls fuel k a → Call fuel a m → m ≡ done b → Calls fuel k b

-- The queue is no longer than the list of all threads.
length-queue : (a : Sched) → Consistent a → length a.queue ≤ length a.thread_all_list
length-queue a c =
    length-le_of_has a.queue a.thread_all_list c.once
      λ t h. c.known t (λ e. let x = c.exact t in ground arith)

-- The calls leave the list of all threads and the marks alone.
abbrev threads_of : Sched → List ℕ × (ℕ → ℕ)
threads_of a = (a.thread_all_list, a.stack_magic)

abbrev SameThreads : Sched → Sched → Type 0
SameThreads a b = threads_of a ≡ threads_of b

-- A call that refines a step of the scheduler over a queue.
Good_of_Refines :
    (fuel : ℕ) (k : Kernel) (q : List ℕ) (m : Run Kernel) (a : Sched)
    → IsValid a
    → SameThreads a (sched_of k q)
    → length k.thread_all_list + 2 < fuel
    → ((t : ℕ) → has t k.thread_all_list ≡ true → k.stack_magic t ≡ stack_mark)
    → Refines m a
    → (k' : Kernel) × (m ≡ done k') × IsGood fuel k'
Good_of_Refines fuel k q m a v all f marks (k', e, view, s) =
    let same : SameThreads (sched_of k' a.queue) (sched_of k q) = ap threads_of s ∙ all in
    let list : k'.thread_all_list ≡ k.thread_all_list = ap (λ p. p.0) same in
    let mark : k'.stack_magic ≡ k.stack_magic = ap (λ p. p.1) same in
    (
      k',
      e,
      record {
        queue = a.queue;
        view = view;
        valid = subst IsValid (sym s) v;
        covered = rw list f;
        intact = rw (list, mark) marks;
      },
    )

all-run_first : (q : List ℕ) (a : Sched) → SameThreads (Abstract.run_first q a) a
unfolding Abstract.run_first
all-run_first [] a = refl
all-run_first (x ∷ q) a = refl

all-wake_idle : (a : Sched) → SameThreads (Abstract.wake_idle a) a
unfolding Abstract.wake_idle Abstract.unblock
all-wake_idle a = ground arith

all-requeue_running : (a : Sched) → SameThreads (Abstract.requeue_running a) a
unfolding Abstract.requeue_running Abstract.requeue
all-requeue_running a = ground arith

all-schedule : (a : Sched) → SameThreads (Abstract.schedule a) a
unfolding Abstract.schedule
all-schedule a =
    all-run_first (Abstract.wake_idle (Abstract.requeue_running a)).queue _
    ∙ all-wake_idle (Abstract.requeue_running a)
    ∙ all-requeue_running a

all-tick : (a : Sched) → SameThreads (Abstract.tick a) a
unfolding Abstract.tick
all-tick a = ground (arith, all-schedule (count_tick a))

module _ (fuel : ℕ) (k : Kernel) (g : IsGood fuel k) where
  abbrev state : Sched
  state = sched_of k g.queue

  room : length g.queue + 2 < fuel
  room = omega (arith, length-queue state g.valid.consistent, g.covered)

  mark : k.stack_magic k.current ≡ stack_mark
  mark = g.intact k.current (g.valid.consistent.known k.current (λ e. cc))

  good :
      (m : Run Kernel) (a : Sched)
      → IsValid a
      → SameThreads a state
      → Refines m a
      → (k' : Kernel) × (m ≡ done k') × IsGood fuel k'
  good m a v all r = Good_of_Refines fuel k g.queue m a v all g.covered g.intact r

  -- In a good state every call runs to its end and leads to a good state.
  Call-IsGood : (m : Run Kernel) → Call fuel k m → (k' : Kernel) × (m ≡ done k') × IsGood fuel k'
  unfolding Abstract.block Abstract.yield_cpu Abstract.unblock
  Call-IsGood _ (block st h) =
      good (thread_block fuel st k) (Abstract.block st state)
        (Step-IsValid (blocks state st h) g.valid) (all-schedule (fall_asleep st state))
        (thread_block-Refines fuel k g.queue g.view g.valid st h (omega (arith, room)))
  Call-IsGood _ yield_cpu =
      good (thread_yield fuel k) (Abstract.yield_cpu state) (Step-IsValid (yields state) g.valid)
        (all-schedule (give_way state)) (thread_yield-Refines fuel k g.queue g.view g.valid room)
  Call-IsGood _ tick =
      good (intr_timer_handler fuel k) (Abstract.tick state) (Step-IsValid (ticks state) g.valid)
        (all-tick state)
        (intr_timer_handler-Refines fuel k g.queue g.view g.valid mark (omega (arith, room)))
  Call-IsGood _ (unblock t h) =
      good (thread_unblock fuel t k) (Abstract.unblock t state)
        (Step-IsValid (wakes state t h) g.valid) refl
        (thread_unblock-Refines fuel k g.queue g.view g.valid t h (omega (arith, room)))

module _ (fuel : ℕ) where
  Calls-IsGood : {k l : Kernel} → IsGood fuel k → Calls fuel k l → IsGood fuel l
  Calls-IsGood g start = g
  Calls-IsGood g (call {b = b} cs c e) =
      let (k', e', g') = Call-IsGood fuel _ (Calls-IsGood g cs) _ c in
      subst (IsGood fuel) (done-injective (sym e' ∙ e)) g'

  -- From a good state, after any row of calls in which a thread blocks only with one of the three
  -- statuses of a sleeper and only a sleeping thread is unblocked, the next such call runs to its end
  -- in a good state again: no ASSERT and no PANIC on the way fires, that of the clock interrupt on
  -- stack_magic included, and no walk of the ready list goes on.
  pub Calls-safe :
      {k l : Kernel} {m : Run Kernel}
      → IsGood fuel k
      → Calls fuel k l
      → Call fuel l m
      → (l' : Kernel) × (m ≡ done l') × IsGood fuel l'
  Calls-safe g cs c = Call-IsGood fuel _ (Calls-IsGood g cs) _ c
