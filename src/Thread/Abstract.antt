-- ===== src/Thread/Abstract.antt =====
-- What the scheduler promises: the ready list as a queue of threads, and the calls as functions.
use enix.Base.{
  ℕ, ◌-◌, ◌≡◌, ◌≢◌, true, List, [], ◌∷◌, ◌++◌, ◌==◌, if◌then◌else◌, add32, update, has, Distinct,
  is_nil,
}
use enix.Interrupt.{IntrStatus, intr_off}
use enix.LinkedList.{ListHead}
use enix.Thread.{Kernel, Status, running, ready, died, is_running, is_ready, general_tag}

-- The state of the kernel with the queue of threads in place of the linked nodes.
pub record Sched : Type 0 where
  pub queue : List ℕ
  pub intr : IntrStatus
  pub ready_list : ListHead
  pub thread_all_list : List ℕ
  pub current : ℕ
  pub idle_thread : ℕ
  pub status : ℕ → Status
  pub priority : ℕ → ℕ
  pub ticks : ℕ → ℕ
  pub elapsed_ticks : ℕ → ℕ
  pub saved : ℕ → IntrStatus
  pub total_ticks : ℕ
  pub stack_magic : ℕ → ℕ

-- The abstract state of a kernel whose ready list holds `queue`.
abbrev pub sched_of : Kernel → List ℕ → Sched
sched_of k queue = record {
  queue = queue;
  intr = k.store.intr;
  ready_list = k.thread_ready_list;
  thread_all_list = k.thread_all_list;
  current = k.current;
  idle_thread = k.idle_thread;
  status = k.status;
  priority = k.priority;
  ticks = k.ticks;
  elapsed_ticks = k.elapsed_ticks;
  saved = k.saved;
  total_ticks = k.total_ticks;
  stack_magic = k.stack_magic;
}

unfoldable pub unblock : ℕ → Sched → Sched
unblock t a = record a { queue = t ∷ a.queue; status = update a.status t ready }

unfoldable pub requeue : Sched → Sched
requeue a = record a {
  queue = a.queue ++ a.current ∷ [];
  status = update a.status a.current ready;
  ticks = update a.ticks a.current (a.priority a.current);
}

unfoldable pub run_first : List ℕ → Sched → Sched
run_first [] a = a
run_first (x ∷ rest) a = record a {
  queue = rest;
  current = x;
  status = update a.status x running;
  intr = a.saved x;
}

unfoldable pub requeue_running : Sched → Sched
unfolding requeue
requeue_running a = if is_running (a.status a.current) then requeue a else a

unfoldable pub wake_idle : Sched → Sched
unfolding unblock
wake_idle a = if is_nil a.queue then unblock a.idle_thread a else a

unfoldable pub schedule : Sched → Sched
unfolding requeue_running wake_idle run_first
schedule a = let a2 = wake_idle (requeue_running a) in run_first a2.queue a2

-- The current thread before the switch: asleep, or at the end of the queue, or with its time up.
abbrev pub fall_asleep : Status → Sched → Sched
fall_asleep stat a = record a {
  saved = update a.saved a.current a.intr;
  intr = intr_off;
  status = update a.status a.current stat;
}

abbrev pub give_way : Sched → Sched
give_way a = record a {
  saved = update a.saved a.current a.intr;
  intr = intr_off;
  queue = a.queue ++ a.current ∷ [];
  status = update a.status a.current ready;
}

abbrev pub count_tick : Sched → Sched
count_tick a = record a {
  elapsed_ticks = update a.elapsed_ticks a.current (add32 (a.elapsed_ticks a.current) 1);
  total_ticks = add32 a.total_ticks 1;
  saved = update a.saved a.current a.intr;
  intr = intr_off;
}

unfoldable pub block : Status → Sched → Sched
unfolding schedule
block stat a = schedule (fall_asleep stat a)

unfoldable pub yield_cpu : Sched → Sched
unfolding schedule
yield_cpu a = schedule (give_way a)

unfoldable pub tick : Sched → Sched
unfolding schedule
tick a =
    let left = update a.ticks a.current (a.ticks a.current - 1) in
    let on_time = count_tick a in
    if a.ticks a.current == 0
    then schedule (count_tick a)
    else record on_time { ticks = left; intr = a.intr }

-- The queue holds the ready threads, each once; at most the current thread runs; the idle thread is
-- alive; the tag of no live thread is a node of the list itself; and every live thread is in the list
-- of all threads.
pub record Consistent (a : Sched) : Type 0 where
  pub exact : (t : ℕ) → has t a.queue ≡ is_ready (a.status t)
  pub once : Distinct a.queue
  pub only : (t : ℕ) → is_running (a.status t) ≡ true → t ≡ a.current
  pub idle_lives : a.status a.idle_thread ≢ died
  pub placed :
      (t : ℕ)
      → a.status t ≢ died
      → (general_tag t ≢ a.ready_list.head) × (general_tag t ≢ a.ready_list.tail)
  pub known : (t : ℕ) → a.status t ≢ died → has t a.thread_all_list ≡ true

-- Between the calls the current thread runs.
pub record IsValid (a : Sched) : Type 0 where
  pub consistent : Consistent a
  pub runs : a.status a.current ≡ running
