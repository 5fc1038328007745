-- ===== src/Tests/Threads.antt =====
-- The scheduler at three threads: one runs, one is ready, and the idle thread sleeps.
use enix.Base.{ℕ, ◌+◌, ◌≡◌, refl, [], ◌∷◌, arith, ◌==◌, if◌then◌else◌, done}
use enix.Interrupt.{intr_off, intr_on}
use enix.LinkedList.{list_append}
use enix.LinkedList.Segment.{IsList-same}
use enix.LinkedList.Insert.{list_append_lem}
use enix.Thread.{Kernel, running, ready, blocked, died, schedule, thread_yield}
use enix.Thread.Abstract
use enix.Thread.Abstract.{sched_of, Consistent, IsValid}
use enix.Thread.Refine.{View, Refines, schedule-Refines}
use enix.Thread.Safety.{IsGood, yield_cpu, start, Calls-safe}
use enix.Tests.Lists.{l, none_in, none_in-IsList}

abbrev main_thread : ℕ
main_thread = 0x1000

abbrev idle : ℕ
idle = 0x2000

abbrev worker : ℕ
worker = 0x3000

abbrev kernel : Kernel
kernel = record {
  store = list_append l (worker + 68) none_in;
  thread_ready_list = l;
  thread_all_list = main_thread ∷ idle ∷ worker ∷ [];
  current = main_thread;
  idle_thread = idle;
  status = λ t.
      if t == main_thread
      then running
      else (if t == idle then blocked else (if t == worker then ready else died));
  priority = λ t. 31;
  ticks = λ t. 0;
  elapsed_ticks = λ t. 0;
  saved = λ t. intr_on;
  total_ticks = 0;
  stack_magic = λ t. 0x19870916;
}

abbrev off_kernel : Kernel
off_kernel = let s = kernel.store in record kernel { store = record s { intr = intr_off } }

view : View kernel (worker ∷ [])
view = (list_append_lem none_in l (worker + 68) [] none_in-IsList refl).0

off-View : View off_kernel (worker ∷ [])
off-View =
    IsList-same kernel.store off_kernel.store l ((worker + 68) ∷ []) view (λ a. refl) (λ a. refl)

valid : IsValid (sched_of kernel (worker ∷ []))
valid = record {
  consistent = record {
    exact = λ t. ground arith;
    once = (refl, tt);
    only = λ t r. ground arith;
    idle_lives = λ e. cc;
    placed = λ t a. ground arith;
    known = λ t a. ground arith;
  };
  runs = refl;
}

off-Consistent : Consistent (sched_of off_kernel (worker ∷ []))
off-Consistent = record {
  exact = valid.consistent.exact;
  once = valid.consistent.once;
  only = valid.consistent.only;
  idle_lives = valid.consistent.idle_lives;
  placed = valid.consistent.placed;
  known = valid.consistent.known;
}

good : IsGood 10 kernel
good = record {
  queue = worker ∷ [];
  view = view;
  valid = valid;
  covered = omega arith;
  intact = λ t h. refl;
}

schedule-Refines_example :
    Refines (schedule 10 off_kernel) (Abstract.schedule (sched_of off_kernel (worker ∷ [])))
schedule-Refines_example =
    schedule-Refines 10 off_kernel (worker ∷ []) off-View off-Consistent refl (omega arith)

Calls-safe_example : (k : Kernel) × (thread_yield 10 kernel ≡ done k) × IsGood 10 k
Calls-safe_example = Calls-safe 10 good start yield_cpu
