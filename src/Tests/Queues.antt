-- ===== src/Tests/Queues.antt =====
-- Two bytes in the ring, and a ring without room.
use enix.Base.{ℕ, ◌+◌, ◌<◌, ◌≡◌, refl, ◌⊎◌, inl, inr, done, arith, [], ◌∷◌, ◌++◌, length}
use enix.Interrupt.{intr_off}
use enix.Sync.{lock_init, sema_init}
use enix.IoQueue.{IoQueue, returns, ioq_getchar, ioq_putchar}
use enix.IoQueue.Ring.{contents, IsRing}
use enix.IoQueue.Refine.{
  IsReady, SleepsOnEmpty, SleepsOnFull, got, awaited, taken, put, ioq_getchar-contents,
  ioq_putchar-contents,
}

-- The bytes stand at the end and at the beginning of the ring.
abbrev two_bytes : IoQueue
two_bytes = record {
  lock = lock_init;
  producer = 0;
  consumer = 0;
  buf = λ i. i + 65;
  head = 1;
  tail = 63;
}

abbrev two_bytes-IsRing : IsRing two_bytes
two_bytes-IsRing = record { head_inside = omega arith; tail_inside = omega arith }

-- And a ring without room, while 16 sleeps as its producer and so has the lock.
abbrev full : IoQueue
full = record {
  lock = got 16 lock_init;
  producer = 16;
  consumer = 0;
  buf = λ i. i;
  head = 1;
  tail = 2;
}

full-IsRing : IsRing full
full-IsRing = record { head_inside = omega arith; tail_inside = omega arith }

two_bytes-IsReady : IsReady 8 lock_init
unfolding lock_init sema_init
two_bytes-IsReady = record {
  other = omega arith;
  value = inr refl;
  idle = λ e. refl;
  fresh = λ e. absurd (omega (arith, e));
}

full-IsReady : IsReady 8 (got 16 lock_init)
unfolding lock_init sema_init
full-IsReady = record {
  other = omega arith;
  value = inl refl;
  idle = λ e. absurd (omega (arith, e));
  fresh = λ e. refl;
}

ioq_getchar-contents_example :
    ((contents two_bytes ≡ []) × SleepsOnEmpty two_bytes two_bytes-IsRing 8)
    ⊎ ((byte : ℕ) × (ioq_getchar intr_off 8 two_bytes
          ≡ done (returns byte (awaited two_bytes.producer) (taken two_bytes)))
        × (contents two_bytes ≡ byte ∷ contents (taken two_bytes))
        × IsRing (taken two_bytes))
ioq_getchar-contents_example =
    ioq_getchar-contents two_bytes two_bytes-IsRing 8 two_bytes-IsReady (λ e. refl)

ioq_putchar-contents_example :
    ((length (contents full) ≡ 63) × SleepsOnFull full full-IsRing 8 10)
    ⊎ ((ioq_putchar intr_off 8 10 full ≡ done (returns tt (awaited full.consumer) (put 10 full)))
        × (length (contents full) < 63)
        × (contents (put 10 full) ≡ contents full ++ 10 ∷ [])
        × IsRing (put 10 full))
ioq_putchar-contents_example =
    ioq_putchar-contents full full-IsRing 8 10 full-IsReady (λ e. absurd (omega (arith, e)))
