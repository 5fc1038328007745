-- ===== src/IoQueue.antt =====
-- device/ioqueue.c: the ring of 64 bytes between a producer and a consumer.
--
-- A thread is the address of its PCB, and 0 is NULL. A reader of an empty queue and a writer of a full
-- one go to sleep and try again when they are woken, so a call is a row of rounds. The queue's lock is
-- held around the sleep alone: a caller that finds it taken sleeps in lock_acquire instead. Woken there,
-- it goes on with sleep_consumer or sleep_producer; woken as the consumer or the producer, it leaves the
-- lock with leave_lock, which may wake another, and its next round begins.
pub mod Ring
pub mod Refine
use enix.Base.{
  ℕ, zero, suc, ◌+◌, ◌-◌, ◌*◌, ◌%◌, Bool, true, false, not, Option, none, some, List, [], ◌∷◌, leb,
  ◌==◌, if◌then◌else◌, update, Run, done, ◌>>=◌, ◌>>◌, assert, ltb, add32,
}
use enix.Interrupt.{IntrStatus}
use enix.Sync.{Lock, DownRound, passed, slept, lock_init, sema_down, sema_up}
use enix.Thread.{is_off}

abbrev pub bufsize : ℕ
bufsize = 64

-- struct ioqueue
pub record IoQueue : Type 0 where
  pub lock : Lock
  pub producer : ℕ
  pub consumer : ℕ
  pub buf : ℕ → ℕ
  pub head : ℕ
  pub tail : ℕ

unfoldable pub ioqueue_init : IoQueue → IoQueue
unfolding lock_init
ioqueue_init ioq = record ioq { lock = lock_init; producer = 0; consumer = 0; head = 0; tail = 0 }

abbrev pub next_pos : ℕ → ℕ
next_pos pos = (pos + 1) % bufsize

unfoldable pub ioq_full : IntrStatus → IoQueue → Run Bool
ioq_full intr ioq = do assert (is_off intr); done (next_pos ioq.head == ioq.tail)

unfoldable pub ioq_empty : IntrStatus → IoQueue → Run Bool
ioq_empty intr ioq = do assert (is_off intr); done (ioq.head == ioq.tail)

-- The field of a waiter behind ioq_wait; the caller sleeps from there on.
unfoldable pub ioq_wait : ℕ → ℕ → Run ℕ
ioq_wait cur waiter = do assert (waiter == 0); done cur

-- The field of a waiter behind wakeup, and the thread that is woken.
unfoldable pub wakeup : ℕ → Run (ℕ × ℕ)
wakeup waiter = do assert (not (waiter == 0)); done (0, waiter)

-- `if (waiter != NULL) wakeup(&waiter)`
unfoldable pub wakeup_any : ℕ → Run (ℕ × Option ℕ)
unfolding wakeup
wakeup_any waiter =
    if not (waiter == 0) then (wakeup waiter >>= λ p. done (p.0, some p.1)) else done (0, none)

-- The end of a round: the call returns, with a thread woken or not, or the caller sleeps as the consumer
-- or the producer, or it sleeps among the waiters of the queue's lock.
pub data Round (A : Type 0) : Type 0 where
  returns : A → Option ℕ → IoQueue → Round A
  sleeps : IoQueue → Round A
  awaits : IoQueue → Round A

-- lock_acquire of the queue's lock: the caller has it, or sleeps among its waiters.
pub data Acquired : Type 0 where
  entered : Lock → Acquired
  queued : Lock → Acquired

unfoldable pub behind_down : ℕ → Lock → DownRound → Run Acquired
behind_down cur l (passed psema) =
    assert (l.holder_repeat_nr == 0)
    >> done (entered (record { holder = cur; semaphore = psema; holder_repeat_nr = 1 }))
behind_down cur l (slept psema) = done (queued (record l { semaphore = psema }))

unfoldable pub acquire : ℕ → Lock → Run Acquired
unfolding sema_down behind_down
acquire cur l =
    if not (l.holder == cur)
    then (sema_down cur l.semaphore >>= λ r. behind_down cur l r)
    else done (entered (record l { holder_repeat_nr = add32 l.holder_repeat_nr 1 }))

-- lock_release of the queue's lock, and the waiter that it wakes.
unfoldable pub leave_lock : ℕ → IoQueue → Run (IoQueue × Option ℕ)
unfolding sema_up
leave_lock cur ioq =
    let l = ioq.lock in
    assert (l.holder == cur)
    >> (if ltb 1 l.holder_repeat_nr
        then done
            (record ioq { lock = record l { holder_repeat_nr = l.holder_repeat_nr - 1 } }, none)
        else (assert (l.holder_repeat_nr == 1)
            >> (sema_up l.semaphore >>= λ p. done (
              record ioq { lock = record { holder = 0; semaphore = p.0; holder_repeat_nr = 0 } },
              p.1,
            ))))

unfoldable pub take_byte : IoQueue → Run (Round ℕ)
unfolding wakeup_any
take_byte ioq = do
  let byte = ioq.buf ioq.tail
  (producer, woken) ← wakeup_any ioq.producer
  done (returns byte woken (record ioq { tail = next_pos ioq.tail; producer = producer }))

unfoldable pub sleep_consumer : ℕ → IoQueue → Run (Round ℕ)
unfolding acquire ioq_wait
sleep_consumer cur ioq = do
  a ← acquire cur ioq.lock
  elim a [
    | entered l ↦ do
      consumer ← ioq_wait cur ioq.consumer
      done (sleeps (record ioq { lock = l; consumer = consumer }))
    | queued l ↦ done (awaits (record ioq { lock = l }))
  ]

unfoldable pub ioq_getchar : IntrStatus → ℕ → IoQueue → Run (Round ℕ)
unfolding ioq_empty take_byte sleep_consumer
ioq_getchar intr cur ioq = do
  assert (is_off intr)
  empty ← ioq_empty intr ioq
  (if empty then sleep_consumer cur ioq else take_byte ioq)

unfoldable pub put_byte : ℕ → IoQueue → Run (Round (Unit {0}))
unfolding wakeup_any
put_byte byte ioq = do
  (consumer, woken) ← wakeup_any ioq.consumer
  done (
      returns tt woken (record ioq {
        buf = update ioq.buf ioq.head byte;
        head = next_pos ioq.head;
        consumer = consumer;
      }))

unfoldable pub sleep_producer : ℕ → IoQueue → Run (Round (Unit {0}))
unfolding acquire ioq_wait
sleep_producer cur ioq = do
  a ← acquire cur ioq.lock
  elim a [
    | entered l ↦ do
      producer ← ioq_wait cur ioq.producer
      done (sleeps (record ioq { lock = l; producer = producer }))
    | queued l ↦ done (awaits (record ioq { lock = l }))
  ]

unfoldable pub ioq_putchar : IntrStatus → ℕ → ℕ → IoQueue → Run (Round (Unit {0}))
unfolding ioq_full put_byte sleep_producer
ioq_putchar intr cur byte ioq = do
  assert (is_off intr)
  full ← ioq_full intr ioq
  (if full then sleep_producer cur ioq else put_byte byte ioq)

unfoldable pub ioq_length : IoQueue → ℕ
ioq_length ioq =
    if leb ioq.tail ioq.head then ioq.head - ioq.tail else bufsize - (ioq.tail - ioq.head)
