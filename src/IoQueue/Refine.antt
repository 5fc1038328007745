-- ===== src/IoQueue/Refine.antt =====
-- The ring is a bounded queue of 63 bytes.
use enix.Base.{
  ℕ, suc, ◌+◌, ◌%◌, ◌<◌, ◌≡◌, ◌≢◌, refl, ◌∙◌, ap, ◌⊎◌, inl, inr, true, false, Option, none, some,
  [], ◌∷◌, ◌++◌, arith, ◌==◌, if◌then◌else◌, update, length, done, ℕ_discrete, has,
}
use enix.Interrupt.{intr_off}
use enix.IoQueue.{
  IoQueue, bufsize, next_pos, ioq_length, returns, sleeps, awaits, ioq_getchar, ioq_putchar,
  take_byte, put_byte, entered, queued, acquire, sleep_consumer, sleep_producer,
}
use enix.Sync.{Lock, System, Reach, outside}
use enix.Sync.Invariant.{is_asleep}
use enix.Sync.Exclusion.{Reach-IsSound}
use enix.IoQueue.Ring.{bytes, contents, IsRing, length-bytes, bytes-append}

-- The thread that a call wakes.
abbrev pub awaited : ℕ → Option ℕ
awaited waiter = if waiter == 0 then none else some waiter

pub length-contents : (q : IoQueue) → length (contents q) ≡ ioq_length q
length-contents q = length-bytes (ioq_length q) q.tail q.buf

-- What a thread that may call lock_acquire finds: it is not the holder, the semaphore is 0 or 1, a free
-- lock counts nothing, and the thread is not among the waiters of a taken one.
pub record IsReady (cur : ℕ) (l : Lock) : Type 0 where
  pub other : l.holder ≢ cur
  pub value : (l.semaphore.value ≡ 0) ⊎ (l.semaphore.value ≡ 1)
  pub idle : l.semaphore.value ≡ 1 → l.holder_repeat_nr ≡ 0
  pub fresh : l.semaphore.value ≡ 0 → has cur l.semaphore.waiters ≡ false

-- A lock is ready for every thread that is outside of it, in all states that the threads can reach.
Reach-IsReady : (s : System) (t : ℕ) → Reach s → t ≢ 0 → s.place t ≡ outside → IsReady t s.lock
Reach-IsReady s t r ne out =
    let v = Reach-IsSound r in
    record {
      other = λ e. ground (arith, v.holder, v.critical t, out, e, ne);
      value = elim (ℕ_discrete v.owner 0) [
        | yes free ↦ inr (ground (arith, v.value))
        | no taken ↦ inl (ground (arith, v.value))
      ];
      idle = λ one. v.unheld (ground (arith, v.holder, v.value, one));
      fresh = λ zero_value. v.waiting t ∙ ap is_asleep out;
    }

-- The lock that the caller has taken, and the one that it waits for.
abbrev pub got : ℕ → Lock → Lock
got cur l = record {
  holder = cur;
  semaphore = record (l.semaphore) { value = 0 };
  holder_repeat_nr = 1;
}

abbrev pub waited : ℕ → Lock → Lock
waited cur l =
    let psema = l.semaphore in
    record l { semaphore = record psema { waiters = psema.waiters ++ cur ∷ [] } }

acquire-free :
    (cur : ℕ) (l : Lock)
    → IsReady cur l
    → l.semaphore.value ≡ 1
    → acquire cur l ≡ done (entered (got cur l))
unfolding acquire
acquire-free cur l v one =
    let f : (l.holder == cur) ≡ false = ground (arith, v.other) in
    let nr : l.holder_repeat_nr ≡ 0 = v.idle one in rw (f, one, nr) refl

acquire-taken :
    (cur : ℕ) (l : Lock)
    → IsReady cur l
    → l.semaphore.value ≡ 0
    → acquire cur l ≡ done (queued (waited cur l))
unfolding acquire
acquire-taken cur l v none_left =
    let f : (l.holder == cur) ≡ false = ground (arith, v.other) in
    rw (f, none_left, v.fresh none_left) refl

-- The ring behind a byte taken out or put in.
abbrev pub taken : IoQueue → IoQueue
taken q = record q { tail = next_pos q.tail; producer = 0 }

abbrev pub put : ℕ → IoQueue → IoQueue
put byte q = record q { buf = update q.buf q.head byte; head = next_pos q.head; consumer = 0 }

module _ (q : IoQueue) (v : IsRing q) where
  length-taken : q.head ≢ q.tail → ioq_length q ≡ suc (ioq_length (taken q))
  unfolding ioq_length
  length-taken ne = ground (arith, v.head_inside, v.tail_inside)

  length-put : (byte : ℕ) → next_pos q.head ≢ q.tail → ioq_length (put byte q) ≡ suc (ioq_length q)
  unfolding ioq_length
  length-put byte ne = ground (arith, v.head_inside, v.tail_inside)

  pub length-lt : ioq_length q < bufsize
  unfolding ioq_length
  length-lt = ground (arith, v.head_inside, v.tail_inside)

  head_behind : q.head ≡ (q.tail + ioq_length q) % bufsize
  unfolding ioq_length
  head_behind = ground (arith, v.head_inside, v.tail_inside)

  contents-taken : q.head ≢ q.tail → contents q ≡ q.buf q.tail ∷ contents (taken q)
  contents-taken ne = ap (λ n. bytes n q.tail q.buf) (length-taken ne)

  contents-put :
      (byte : ℕ) → next_pos q.head ≢ q.tail → contents (put byte q) ≡ contents q ++ byte ∷ []
  contents-put byte ne =
      ap (λ n. bytes n q.tail (update q.buf q.head byte)) (length-put byte ne)
      ∙ bytes-append (ioq_length q) q.tail q.buf byte q.head v.tail_inside length-lt head_behind

  pub length-empty : q.head ≡ q.tail → ioq_length q ≡ 0
  unfolding ioq_length
  length-empty e = ground (arith, v.head_inside, v.tail_inside)

  pub length-full : next_pos q.head ≡ q.tail → ioq_length q ≡ 63
  unfolding ioq_length
  length-full e = ground (arith, v.head_inside, v.tail_inside)

  length-not_full : next_pos q.head ≢ q.tail → ioq_length q < 63
  unfolding ioq_length
  length-not_full ne = ground (arith, v.head_inside, v.tail_inside)

  take_byte_lem : take_byte q ≡ done (returns (q.buf q.tail) (awaited q.producer) (taken q))
  unfolding take_byte
  take_byte_lem = ground arith

  put_byte_lem : (byte : ℕ) → put_byte byte q ≡ done (returns tt (awaited q.consumer) (put byte q))
  unfolding put_byte
  put_byte_lem byte = ground arith

  pub ioq_getchar-taken :
      (cur : ℕ)
      → q.head ≢ q.tail
      → (ioq_getchar intr_off cur q ≡ done (returns (q.buf q.tail) (awaited q.producer) (taken q)))
        × (contents q ≡ q.buf q.tail ∷ contents (taken q))
        × IsRing (taken q)
  unfolding ioq_getchar
  ioq_getchar-taken cur ne =
      let f : (q.head == q.tail) ≡ false = ground arith in
      (
        rw f take_byte_lem,
        contents-taken ne,
        record { head_inside = v.head_inside; tail_inside = omega arith },
      )

  pub ioq_putchar-put :
      (cur byte : ℕ)
      → next_pos q.head ≢ q.tail
      → (ioq_putchar intr_off cur byte q ≡ done (returns tt (awaited q.consumer) (put byte q)))
        × (length (contents q) < 63)
        × (contents (put byte q) ≡ contents q ++ byte ∷ [])
        × IsRing (put byte q)
  unfolding ioq_putchar
  ioq_putchar-put cur byte ne =
      let f : (next_pos q.head == q.tail) ≡ false = ground arith in
      (
        rw f (put_byte_lem byte),
        omega (arith, length-contents q, length-not_full ne),
        contents-put byte ne,
        record { head_inside = omega arith; tail_inside = v.tail_inside },
      )

  -- Where the caller of an empty queue sleeps.
  abbrev pub SleepsOnEmpty : ℕ → Type 0
  SleepsOnEmpty cur =
      ((q.lock.semaphore.value ≡ 1)
        × (ioq_getchar intr_off cur q
            ≡ done (sleeps (record q { lock = got cur q.lock; consumer = cur }))))
      ⊎ ((q.lock.semaphore.value ≡ 0)
          × (ioq_getchar intr_off cur q ≡ done (awaits (record q { lock = waited cur q.lock }))))

  -- And of a full one.
  abbrev pub SleepsOnFull : ℕ → ℕ → Type 0
  SleepsOnFull cur byte =
      ((q.lock.semaphore.value ≡ 1)
        × (ioq_putchar intr_off cur byte q
            ≡ done (sleeps (record q { lock = got cur q.lock; producer = cur }))))
      ⊎ ((q.lock.semaphore.value ≡ 0)
          × (ioq_putchar intr_off cur byte q
              ≡ done (awaits (record q { lock = waited cur q.lock }))))

  ioq_getchar-asleep :
      (cur : ℕ)
      → IsReady cur q.lock
      → (q.lock.semaphore.value ≡ 1 → q.consumer ≡ 0)
      → q.head ≡ q.tail
      → SleepsOnEmpty cur
  unfolding ioq_getchar sleep_consumer
  ioq_getchar-asleep cur ready h e =
      let t : (q.head == q.tail) ≡ true = ground arith in
      elim ready.value [
        | inr one ↦
            let idle : (q.consumer == 0) ≡ true = ground (arith, h one) in
            inl (one, rw (t, acquire-free cur q.lock ready one, idle) refl)
        | inl none_left ↦ inr (none_left, rw (t, acquire-taken cur q.lock ready none_left) refl)
      ]

  pub ioq_putchar-asleep :
      (cur byte : ℕ)
      → IsReady cur q.lock
      → (q.lock.semaphore.value ≡ 1 → q.producer ≡ 0)
      → next_pos q.head ≡ q.tail
      → SleepsOnFull cur byte
  unfolding ioq_putchar sleep_producer
  ioq_putchar-asleep cur byte ready h e =
      let t : (next_pos q.head == q.tail) ≡ true = ground arith in
      elim ready.value [
        | inr one ↦
            let idle : (q.producer == 0) ≡ true = ground (arith, h one) in
            inl (one, rw (t, acquire-free cur q.lock ready one, idle) refl)
        | inl none_left ↦ inr (none_left, rw (t, acquire-taken cur q.lock ready none_left) refl)
      ]

  -- With interrupts off, no consumer where the lock is free and a caller that is outside of the lock, a
  -- round of ioq_getchar on an empty queue leaves the caller asleep: as the consumer that holds the
  -- lock, if this was free, and otherwise as the last of the lock's waiters. On any other queue it
  -- returns the first byte of the queue, which is gone then, and wakes the producer if one is waiting.
  pub ioq_getchar-contents :
      (cur : ℕ)
      → IsReady cur q.lock
      → (q.lock.semaphore.value ≡ 1 → q.consumer ≡ 0)
      → ((contents q ≡ []) × SleepsOnEmpty cur)
        ⊎ ((byte : ℕ) × (ioq_getchar intr_off cur q
              ≡ done (returns byte (awaited q.producer) (taken q)))
            × (contents q ≡ byte ∷ contents (taken q))
            × IsRing (taken q))
  ioq_getchar-contents cur ready h = elim (ℕ_discrete q.head q.tail) [
    | yes e ↦
        inl (ap (λ n. bytes n q.tail q.buf) (length-empty e), ioq_getchar-asleep cur ready h e)
    | no ne ↦ let (e, c, w) = ioq_getchar-taken cur ne in inr (q.buf q.tail, e, c, w)
  ]

  -- With interrupts off, no producer where the lock is free and a caller that is outside of the lock, a
  -- round of ioq_putchar on a queue of 63 bytes leaves the caller asleep: as the producer that holds
  -- the lock, if this was free, and otherwise as the last of the lock's waiters. On any other queue,
  -- which has fewer, the byte is the last of the queue then, and the consumer is woken if one is
  -- waiting.
  pub ioq_putchar-contents :
      (cur byte : ℕ)
      → IsReady cur q.lock
      → (q.lock.semaphore.value ≡ 1 → q.producer ≡ 0)
      → ((length (contents q) ≡ 63) × SleepsOnFull cur byte)
        ⊎ ((ioq_putchar intr_off cur byte q ≡ done (returns tt (awaited q.consumer) (put byte q)))
            × (length (contents q) < 63)
            × (contents (put byte q) ≡ contents q ++ byte ∷ [])
            × IsRing (put byte q))
  ioq_putchar-contents cur byte ready h = elim (ℕ_discrete (next_pos q.head) q.tail) [
    | yes e ↦ inl (length-contents q ∙ length-full e, ioq_putchar-asleep cur byte ready h e)
    | no ne ↦ inr (ioq_putchar-put cur byte ne)
  ]
