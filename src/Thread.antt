-- ===== src/Thread.antt =====
-- thread/thread.c (the scheduler) and the clock interrupt of device/timer.c.
--
-- A thread is the address of its PCB (struct task_struct). The fields of all PCBs are functions of
-- that address; the ready list is a list of their `general_tag` nodes in the store of LinkedList.
pub mod Abstract
pub mod Refine
pub mod Invariant
pub mod Safety
use enix.Base.{
  ℕ, ◌+◌, ◌-◌, ◌≡◌, ◌≢◌, Bool, true, false, not, ◌||◌, Option, none, some, List, map, ◌==◌,
  if◌then◌else◌, add32, update, Run, done, panicked, ◌>>=◌, ◌>>◌, assert, ended,
}
use enix.Interrupt.{IntrStatus, intr_off, intr_on, intr_disable, intr_set_status}
use enix.LinkedList.{
  Store, ListHead, list_push, list_append, list_pop, list_empty, elem_find, IsList,
}

-- enum task_status
pub data Status : Type 0 where
  running ready blocked waiting hanging died : Status

abbrev pub is_running : Status → Bool
is_running running = true
is_running _ = false

abbrev pub is_ready : Status → Bool
is_ready ready = true
is_ready _ = false

-- The three states from which a thread is woken.
abbrev pub is_asleep : Status → Bool
is_asleep blocked = true
is_asleep waiting = true
is_asleep hanging = true
is_asleep _ = false

abbrev pub is_off : IntrStatus → Bool
is_off intr_off = true
is_off intr_on = false

-- `saved t` is the interrupt status that the code of `t` sets when it runs again: the old_status of
-- thread_block and thread_yield, or the flags that the return from an interrupt restores. The list of
-- all threads is kept by its contents: the scheduler does not touch it.
pub record Kernel : Type 0 where
  pub store : Store
  pub thread_ready_list : ListHead
  pub thread_all_list : List ℕ
  pub current : ℕ
  pub idle_thread : ℕ
  pub status : ℕ → Status
  pub priority : ℕ → ℕ
  pub ticks : ℕ → ℕ
  pub elapsed_ticks : ℕ → ℕ
  pub saved : ℕ → IntrStatus
  pub total_ticks : ℕ
  pub stack_magic : ℕ → ℕ

-- The mark below the stack of each thread, written by init_thread.
abbrev pub stack_mark : ℕ
stack_mark = 0x19870916

-- The offset of general_tag in struct task_struct, and elem2entry, its inverse.
abbrev pub general_tag : ℕ → ℕ
general_tag t = t + 68

abbrev pub elem2entry : ℕ → ℕ
elem2entry elem = elem - 68

abbrev pub set_status : Kernel → ℕ → Status → Kernel
set_status k t st = record k { status = update k.status t st }

abbrev pub set_intr : Kernel → IntrStatus → Kernel
set_intr k flag = let s = k.store in record k { store = record s { intr = flag } }

-- esp & 0xfffff000
abbrev pub running_thread : Kernel → ℕ
running_thread k = k.current

-- process_activate loads page tables and the stack of the TSS, which the model leaves out. After the
-- switch the code of `next` goes on and restores its interrupt status.
unfoldable pub switch_to : ℕ → Kernel → Kernel
switch_to next k = set_intr (record k { current = next }) (k.saved next)

-- The thread goes to the front of the ready list, in a critical section.
unfoldable pub push_ready : ℕ → Kernel → Kernel
unfolding list_push intr_disable intr_set_status
push_ready pthread k =
    let (old_status, off) = intr_disable k.store.intr in
    let k1 = set_intr k off in
    let s = list_push k1.thread_ready_list (general_tag pthread) k1.store in
    set_intr (record k1 { store = s; status = update k1.status pthread ready })
      (intr_set_status old_status s.intr).1

-- The thread whose time is up goes to the end of the ready list, with a new time slice.
unfoldable pub append_ready : Kernel → Kernel
unfolding list_append
append_ready k =
    let cur = running_thread k in
    record k {
      store = list_append k.thread_ready_list (general_tag cur) k.store;
      ticks = update k.ticks cur (k.priority cur);
      status = update k.status cur ready;
    }

-- thread_yield up to its call of schedule: no new time slice here.
unfoldable pub queue_up : Kernel → Kernel
unfolding list_append intr_disable
queue_up k =
    let cur = running_thread k in
    let (old_status, off) = intr_disable k.store.intr in
    let k1 = set_intr (record k { saved = update k.saved cur old_status }) off in
    record k1 {
      store = list_append k1.thread_ready_list (general_tag cur) k1.store;
      status = update k1.status cur ready;
    }

-- The first thread of the ready list leaves it and runs.
unfoldable pub run_first : Kernel → Kernel
unfolding list_pop switch_to
run_first k =
    let (thread_tag, s) = list_pop k.thread_ready_list k.store in
    let next = elem2entry thread_tag in
    switch_to next (set_status (record k { store = s }) next running)

-- `fuel` bounds the walks of elem_find over the ready list.
module _ (fuel : ℕ) where
  unfoldable pub in_ready_list : ℕ → Kernel → Run Bool
  unfolding elem_find
  in_ready_list t k = ended (elem_find fuel k.thread_ready_list (general_tag t) k.store)

  -- The ASSERT admits no ready thread, so the test for one always goes to the search.
  unfoldable pub thread_unblock : ℕ → Kernel → Run Kernel
  unfolding in_ready_list push_ready
  thread_unblock pthread k = do
    assert (is_asleep (k.status pthread))
    found ← in_ready_list pthread k
    (if is_ready (k.status pthread)
        then done k
        else (if found then panicked else done (push_ready pthread k)))

  unfoldable pub requeue : Kernel → Run Kernel
  unfolding in_ready_list append_ready
  requeue k = do
    found ← in_ready_list (running_thread k) k
    assert (not found)
    done (append_ready k)

  unfoldable pub dispatch : Kernel → Run Kernel
  unfolding list_empty run_first
  dispatch k = do assert (not (list_empty k.thread_ready_list k.store)); done (run_first k)

  -- The three parts of schedule.
  unfoldable pub requeue_running : Kernel → Run Kernel
  unfolding requeue
  requeue_running k = if is_running (k.status (running_thread k)) then requeue k else done k

  unfoldable pub wake_idle : Kernel → Run Kernel
  unfolding thread_unblock list_empty
  wake_idle k =
      if list_empty k.thread_ready_list k.store then thread_unblock k.idle_thread k else done k

  unfoldable pub schedule : Kernel → Run Kernel
  unfolding requeue_running wake_idle dispatch
  schedule k = do
    assert (is_off k.store.intr)
    k1 ← requeue_running k
    k2 ← wake_idle k1
    dispatch k2

  -- The old status is kept for the rest of thread_block, which runs after the thread is woken.
  unfoldable pub thread_block : Status → Kernel → Run Kernel
  unfolding schedule intr_disable
  thread_block stat k =
      let cur = running_thread k in
      let (old_status, off) = intr_disable k.store.intr in
      let k1 = set_intr (record k { saved = update k.saved cur old_status }) off in
      do assert (is_asleep stat); schedule (set_status k1 cur stat)

  unfoldable pub thread_yield : Kernel → Run Kernel
  unfolding schedule in_ready_list queue_up
  thread_yield k = do
    found ← in_ready_list (running_thread k) k
    assert (not found)
    schedule (queue_up k)

  -- The CPU enters the handler with interrupts off and keeps the flags for the return. The stack that
  -- may run over stack_magic is left out.
  unfoldable pub intr_timer_handler : Kernel → Run Kernel
  unfolding schedule
  intr_timer_handler k =
      let cur = running_thread k in
      let k1 =
        set_intr
          (record k {
            elapsed_ticks = update k.elapsed_ticks cur (add32 (k.elapsed_ticks cur) 1);
            total_ticks = add32 k.total_ticks 1;
            saved = update k.saved cur k.store.intr;
          })
          intr_off in
      let counted = record k1 { ticks = update k1.ticks cur (k1.ticks cur - 1) } in
      assert (k.stack_magic cur == stack_mark)
      >> (if k1.ticks cur == 0 then schedule k1 else done (set_intr counted k.store.intr))
