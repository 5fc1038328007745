-- ===== src/Thread/Refine.antt =====
-- The scheduler over linked nodes refines the one over a queue.
use enix.Base.{
  ℕ, ◌+◌, ◌<◌, ◌≡◌, refl, sym, ◌∙◌, ap, subst, ◌≢◌, true, false, List, [], ◌∷◌, ◌++◌, map, arith,
  ◌==◌, Bool-cases, inl, inr, length, length-append, ◌≤◌, update, has, has-append, suc, is_nil, Run,
  done, ◌>>=◌,
}
use mathlib.Core.List.{map-append}
use enix.Interrupt.{intr_off, intr_set_status, intr_set_status-disable}
use enix.LinkedList.{Store, list_pop, nodes, IsList}
use enix.LinkedList.Segment.{IsList-same}
use enix.LinkedList.Insert.{list_push_lem, list_append_lem}
use enix.LinkedList.Remove.{list_pop_lem}
use enix.LinkedList.Walk.{elem_find-has, list_empty-is_nil}
use enix.Thread.{
  Kernel, Status, running, is_running, is_ready, is_asleep, is_off, general_tag, elem2entry,
  in_ready_list, thread_unblock, requeue, requeue_running, wake_idle, dispatch, schedule,
  thread_block, thread_yield, intr_timer_handler, stack_mark, push_ready, append_ready, queue_up,
  run_first,
}
use enix.Thread.Invariant.{
  running_lem, IdleReady, IdleReady-requeue_running, is_nil-wake_idle, Consistent-give_way,
  Consistent-fall_asleep, Consistent-count_tick, asleep_facts,
}
use enix.Thread.Abstract
use enix.Thread.Abstract.{Sched, sched_of, fall_asleep, give_way, count_tick, Consistent, IsValid}

-- The ready list of the kernel holds the threads of the queue.
abbrev pub View : Kernel → List ℕ → Type 0
View k q = IsList k.store k.thread_ready_list (map general_tag q)

-- The run ends in a kernel that shows the abstract state `a`.
abbrev pub Refines : Run Kernel → Sched → Type 0
Refines m a = (k : Kernel) × (m ≡ done k) × View k a.queue × (sched_of k a.queue ≡ a)

has-map : (t : ℕ) (q : List ℕ) → has (general_tag t) (map general_tag q) ≡ has t q
has-map t [] = refl
has-map t (x ∷ q) = ground (arith, has-map t q)

length-map : (q : List ℕ) → length (map general_tag q) ≡ length q
length-map [] = refl
length-map (x ∷ q) = ap suc (length-map q)

-- A thread outside the queue has a tag that is new to the list.
module _ (k : Kernel) (q : List ℕ) (t : ℕ) where
  new_tag :
      (has t q ≡ false)
      → general_tag t ≢ k.thread_ready_list.head
      → general_tag t ≢ k.thread_ready_list.tail
      → has (general_tag t) (nodes k.thread_ready_list (map general_tag q)) ≡ false
  new_tag f h l = ground (
    arith,
    has-map t q,
    has-append (general_tag t) (map general_tag q) (k.thread_ready_list.tail ∷ []),
  )

  in_ready_list-has :
      (fuel : ℕ) → View k q → length q < fuel → in_ready_list fuel t k ≡ done (has t q)
  unfolding in_ready_list
  in_ready_list-has fuel v f = rw (
    elem_find-has k.store k.thread_ready_list (map general_tag q) v fuel (general_tag t)
        (rw (length-map q) f),
    has-map t q,
  )

module _ (fuel : ℕ) (k : Kernel) (q : List ℕ) (v : View k q) (short : length q < fuel) where
  off : Store
  off = let s = k.store in record s { intr = intr_off }

  unblock-Refines :
      (t : ℕ)
      → is_asleep (k.status t) ≡ true
      → has t q ≡ false
      → (general_tag t ≢ k.thread_ready_list.head) × (general_tag t ≢ k.thread_ready_list.tail)
      → Refines (thread_unblock fuel t k) (Abstract.unblock t (sched_of k q))
  unfolding thread_unblock Abstract.unblock push_ready off
  unblock-Refines t asleep out place =
      let l = k.thread_ready_list in
      let v' = IsList-same k.store off l (map general_tag q) v (λ a. refl) (λ a. refl) in
      let (is, same) =
        list_push_lem off l (general_tag t) (map general_tag q) v'
          (new_tag k q t out place.0 place.1) in
      let not_ready : is_ready (k.status t) ≡ false = ground arith in
      (
        push_ready t k,
        rw (asleep, in_ready_list-has k q t fuel v short, not_ready, out) refl,
        IsList-same _ _ l _ is (λ a. refl) (λ a. refl),
        ap (λ f. record (Abstract.unblock t (sched_of k q)) { intr = f })
            (ap (λ f. (intr_set_status k.store.intr f).1) same.intr
              ∙ intr_set_status-disable k.store.intr),
      )

  requeue-Refines :
      has k.current q ≡ false
      → (general_tag k.current ≢ k.thread_ready_list.head)
        × (general_tag k.current ≢ k.thread_ready_list.tail)
      → Refines (requeue fuel k) (Abstract.requeue (sched_of k q))
  unfolding requeue Abstract.requeue append_ready
  requeue-Refines out place =
      let l = k.thread_ready_list in
      let (is, same) =
        list_append_lem k.store l (general_tag k.current) (map general_tag q) v
          (new_tag k q k.current out place.0 place.1) in
      (
        append_ready k,
        rw (in_ready_list-has k q k.current fuel v short, out) refl,
        rw map-append is,
        ap (λ f. record (Abstract.requeue (sched_of k q)) { intr = f }) same.intr,
      )

dispatch-Refines :
    (fuel : ℕ) (k : Kernel) (x : ℕ) (q : List ℕ)
    → View k (x ∷ q)
    → Refines (dispatch fuel k) (Abstract.run_first (x ∷ q) (sched_of k (x ∷ q)))
unfolding dispatch Abstract.run_first run_first
dispatch-Refines fuel k x q v =
    let (e, is, same) =
      list_pop_lem k.store k.thread_ready_list (general_tag x) (map general_tag q) v in
    let here : elem2entry (list_pop k.thread_ready_list k.store).0 ≡ x = omega (arith, e) in
    (
      run_first k,
      rw (list_empty-is_nil k.store k.thread_ready_list (general_tag x ∷ map general_tag q) v) refl,
      IsList-same _ _ _ _ is (λ a. refl) (λ a. refl),
      ap
          (λ t. record (sched_of k (x ∷ q)) {
            queue = q;
            current = t;
            status = update k.status t running;
            intr = k.saved t;
          })
          here,
    )

-- Runs in sequence refine functions in sequence.
bind-Refines :
    (m : Run Kernel) (f : Kernel → Run Kernel) (a b : Sched)
    → Refines m a
    → ((k : Kernel) → View k a.queue → sched_of k a.queue ≡ a → Refines (f k) b)
    → Refines (m >>= f) b
bind-Refines m f a b (k, e, v, s) next = rw e (next k v s)

length-requeue_running :
    (a : Sched) → length (Abstract.requeue_running a).queue ≤ length a.queue + 1
unfolding Abstract.requeue_running Abstract.requeue
length-requeue_running a = ground (arith, length-append a.queue (a.current ∷ []))

module _ (fuel : ℕ) where
  requeue_running-Refines :
      (k : Kernel) (q : List ℕ)
      → View k q
      → Consistent (sched_of k q)
      → length q < fuel
      → Refines (requeue_running fuel k) (Abstract.requeue_running (sched_of k q))
  unfolding requeue_running Abstract.requeue_running
  requeue_running-Refines k q v c short = elim (Bool-cases (is_running (k.status k.current))) [
    | inl t ↦
        let (nr, nd) = running_lem (k.status k.current) t in
        rw t (requeue-Refines fuel k q v short (c.exact k.current ∙ nr) (c.placed k.current nd))
    | inr f ↦ rw f (k, refl, v, refl)
  ]

  wake_idle-Refines :
      (k : Kernel) (q : List ℕ)
      → View k q
      → IdleReady (sched_of k q)
      → length q < fuel
      → Refines (wake_idle fuel k) (Abstract.wake_idle (sched_of k q))
  unfolding wake_idle Abstract.wake_idle
  wake_idle-Refines k [] v r short =
      let (s, h, t) = r refl in
      rw (list_empty-is_nil k.store k.thread_ready_list [] v)
        (unblock-Refines fuel k [] v short k.idle_thread s refl (h, t))
  wake_idle-Refines k (x ∷ q) v r short =
      rw (list_empty-is_nil k.store k.thread_ready_list (map general_tag (x ∷ q)) v)
        (k, refl, v, refl)

  -- schedule, called with interrupts off on a consistent kernel whose ready list the walks can
  -- cover, runs to its end and does what the scheduler over a queue does.
  pub schedule-Refines :
      (k : Kernel) (q : List ℕ)
      → View k q
      → Consistent (sched_of k q)
      → k.store.intr ≡ intr_off
      → length q + 1 < fuel
      → Refines (schedule fuel k) (Abstract.schedule (sched_of k q))
  unfolding schedule Abstract.schedule
  schedule-Refines k q v c off short =
      let enter : is_off k.store.intr ≡ true = rw off refl in
      rw enter (
        bind-Refines (requeue_running fuel k) (λ k1. wake_idle fuel k1 >>= dispatch fuel) a1
          (Abstract.run_first a2.queue a2) (requeue_running-Refines k q v c (omega arith))
          (λ k1 v1 e1.
            bind-Refines (wake_idle fuel k1) (dispatch fuel) a2 (Abstract.run_first a2.queue a2)
              (wake k1 v1 e1)
              (λ k2 v2 e2.
                subst (λ a. Refines (dispatch fuel k2) (Abstract.run_first a2.queue a)) e2
                  (dispatch_any k2 a2.queue (is_nil-wake_idle a1) v2))))
    where
      a1 : Sched
      a1 = Abstract.requeue_running (sched_of k q)

      a2 : Sched
      a2 = Abstract.wake_idle a1

      dispatch_any :
          (k2 : Kernel) (q2 : List ℕ)
          → is_nil q2 ≡ false
          → View k2 q2
          → Refines (dispatch fuel k2) (Abstract.run_first q2 (sched_of k2 q2))
      dispatch_any k2 [] n v2 = absurd (ground arith)
      dispatch_any k2 (x ∷ q2) n v2 = dispatch-Refines fuel k2 x q2 v2

      wake :
          (k1 : Kernel)
          → View k1 a1.queue
          → sched_of k1 a1.queue ≡ a1
          → Refines (wake_idle fuel k1) a2
      wake k1 v1 e1 =
          subst (λ a. Refines (wake_idle fuel k1) (Abstract.wake_idle a)) e1
            (wake_idle-Refines k1 a1.queue v1
              (subst IdleReady (sym e1) (IdleReady-requeue_running (sched_of k q) c))
              (omega (arith, length-requeue_running (sched_of k q))))

-- The calls of the scheduler, on a valid kernel whose ready list the walks can cover.
module _ (fuel : ℕ) (k : Kernel) (q : List ℕ) (v : View k q) (valid : IsValid (sched_of k q)) where
  -- thread_block with one of its three statuses puts the current thread to sleep, and the next
  -- thread of the queue runs, or the idle thread.
  pub thread_block-Refines :
      (stat : Status)
      → is_asleep stat ≡ true
      → length q + 1 < fuel
      → Refines (thread_block fuel stat k) (Abstract.block stat (sched_of k q))
  unfolding thread_block Abstract.block
  thread_block-Refines stat h short = rw h (
      schedule-Refines fuel _ q
        (IsList-same k.store _ k.thread_ready_list _ v (λ a. refl) (λ a. refl))
        (Consistent-fall_asleep (sched_of k q) valid.consistent valid.runs stat h) refl short)

  -- thread_yield puts the current thread behind the queue, and the first of the queue runs.
  pub thread_yield-Refines :
      length q + 2 < fuel → Refines (thread_yield fuel k) (Abstract.yield_cpu (sched_of k q))
  unfolding thread_yield queue_up Abstract.yield_cpu off
  thread_yield-Refines short =
      let l = k.thread_ready_list in
      let out : has k.current q ≡ false =
        let e = valid.consistent.exact k.current in let r = valid.runs in ground arith in
      let place = valid.consistent.placed k.current (λ e. let r = valid.runs in ground arith) in
      let s0 : Store = off fuel k q v (omega arith) in
      let v' = IsList-same k.store s0 l (map general_tag q) v (λ a. refl) (λ a. refl) in
      let (is, same) =
        list_append_lem s0 l (general_tag k.current) (map general_tag q) v'
          (new_tag k q k.current out place.0 place.1) in
      let same_sched : sched_of (queue_up k) (q ++ k.current ∷ []) ≡ give_way (sched_of k q) =
        ap (λ f. record (give_way (sched_of k q)) { intr = f }) same.intr in
      let consistent = Consistent-give_way (sched_of k q) valid.consistent valid.runs in
      let run =
        schedule-Refines fuel (queue_up k) (q ++ k.current ∷ []) (rw map-append is)
          (subst Consistent (sym same_sched) consistent) same.intr
          (omega (arith, length-append q (k.current ∷ []))) in
      rw (in_ready_list-has k q k.current fuel v (omega arith), out)
        (subst (λ a. Refines (schedule fuel (queue_up k)) (Abstract.schedule a)) same_sched run)

  -- The clock interrupt counts the tick. A thread with ticks left goes on with one less; a thread
  -- without goes behind the queue with a new time slice, and the first of the queue runs.
  pub intr_timer_handler-Refines :
      k.stack_magic k.current ≡ stack_mark
      → length q + 1 < fuel
      → Refines (intr_timer_handler fuel k) (Abstract.tick (sched_of k q))
  unfolding intr_timer_handler Abstract.tick
  intr_timer_handler-Refines intact short = elim (Bool-cases (k.ticks k.current == 0)) [
    | inl t ↦
        rw (intact, t)
          (schedule-Refines fuel _ q
            (IsList-same k.store _ k.thread_ready_list _ v (λ a. refl) (λ a. refl))
            (Consistent-count_tick (sched_of k q) valid.consistent) refl short)
    | inr f ↦
        rw (intact, f)
          (_, refl, IsList-same k.store _ k.thread_ready_list _ v (λ a. refl) (λ a. refl), refl)
  ]

  -- thread_unblock of a sleeping thread puts it in front of the queue.
  pub thread_unblock-Refines :
      (t : ℕ)
      → is_asleep (k.status t) ≡ true
      → length q < fuel
      → Refines (thread_unblock fuel t k) (Abstract.unblock t (sched_of k q))
  thread_unblock-Refines t h short =
      let (nr, ny, nd) = asleep_facts (k.status t) h in
      unblock-Refines fuel k q v short t h (valid.consistent.exact t ∙ ny)
        (valid.consistent.placed t nd)
