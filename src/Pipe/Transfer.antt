-- ===== src/Pipe/Transfer.antt =====
-- How many bytes pipe_read and pipe_write move, and when they sleep.
use enix.Base.{
  block, ℕ, zero, suc, ◌+◌, ◌-◌, ◌≡◌, ◌≤◌, ◌<◌, refl, ◌∙◌, ap, sym, ◌⊎◌, inl, inr, Option, none,
  some, List, [], ◌∷◌, ◌++◌, length, length-append, arith, ltb, done, Bool-cases, ℕ_discrete, Run,
  ◌>>=◌, subst,
}
use mathlib.Core.List.{append_assoc, append-nil}
use enix.Interrupt.{intr_off}
use enix.Sync.{Lock}
use enix.IoQueue.{IoQueue, bufsize, ioq_length, next_pos, ioq_putchar, returns}
use enix.IoQueue.Ring.{contents, IsRing}
use enix.IoQueue.Refine.{
  awaited, taken, put, length-contents, length-lt, length-empty, length-full, IsReady, got, waited,
  ioq_getchar-taken, ioq_putchar-put, ioq_putchar-asleep,
}
use enix.Pipe.{
  Pipes, Transferred, finished, asleep, waiting, after, read_loop, write_loop, smaller, ring_of,
  pipe_read, pipe_write,
}

after-finished :
    (byte : ℕ) (r : Option ℕ) (bytes woken : List ℕ) (q : IoQueue)
    → (woken' : List ℕ) × (after byte r (finished bytes woken q) ≡ finished (byte ∷ bytes) woken' q)
after-finished byte none bytes woken q = (woken, refl)
after-finished byte (some t) bytes woken q = (t ∷ woken, refl)

after-asleep :
    (byte : ℕ) (r : Option ℕ) (bytes : List ℕ) (q : IoQueue)
    → after byte r (asleep bytes q) ≡ asleep (byte ∷ bytes) q
after-asleep byte none bytes q = refl
after-asleep byte (some t) bytes q = refl

after-waiting :
    (byte : ℕ) (r : Option ℕ) (bytes : List ℕ) (q : IoQueue)
    → after byte r (waiting bytes q) ≡ waiting (byte ∷ bytes) q
after-waiting byte none bytes q = refl
after-waiting byte (some t) bytes q = refl

read_loop_lem :
    (n cur : ℕ) (q : IoQueue)
    → IsRing q
    → n ≤ length (contents q)
    → (bytes woken : List ℕ) × (q' : IoQueue) × (read_loop n intr_off cur q
        ≡ done (finished bytes woken q'))
      × (contents q ≡ bytes ++ contents q')
      × (length bytes ≡ n)
      × IsRing q'
unfolding read_loop
read_loop_lem zero cur q v b = ([], [], q, refl, refl, refl, v)
read_loop_lem (suc n) cur q v b = elim (ℕ_discrete q.head q.tail) [
  | yes none_left ↦ absurd (omega (arith, length-contents q, length-empty q v none_left, b))
  | no ne ↦
      let byte = q.buf q.tail in
      let (e, c, v') = ioq_getchar-taken q v cur ne in
      let (bytes, woken, q', e2, c2, l, v2) =
        read_loop_lem n cur (taken q) v' (omega (arith, ap length c, b)) in
      let (woken', e3) = after-finished byte (awaited q.producer) bytes woken q' in
      (
        byte ∷ bytes,
        woken',
        q',
        rw (e, read_loop, e2, e3) refl,
        c ∙ ap (λ l. byte ∷ l) c2,
        omega (arith, l),
        v2,
      )
]

write_loop-finished :
    (n cur i : ℕ) (buf : ℕ → ℕ) (q : IoQueue)
    → IsRing q
    → length (contents q) + n ≤ 63
    → (woken : List ℕ) × (q' : IoQueue) × (write_loop n intr_off cur buf i q
        ≡ done (finished (block n i buf) woken q'))
      × (contents q' ≡ contents q ++ block n i buf)
      × IsRing q'
unfolding write_loop
write_loop-finished zero cur i buf q v b = ([], q, refl, sym (append-nil (contents q)), v)
write_loop-finished (suc n) cur i buf q v b = elim (ℕ_discrete (next_pos q.head) q.tail) [
  | yes full ↦ absurd (omega (arith, length-contents q, length-full q v full, b))
  | no ne ↦
      let (e, l, c, v') = ioq_putchar-put q v cur (buf i) ne in
      let (woken, q', e2, c2, v2) =
        write_loop-finished n cur (i + 1) buf (put (buf i) q) v'
          (omega (arith, ap length c, b, length-append (contents q) (buf i ∷ []))) in
      let (woken', e3) =
        after-finished (buf i) (awaited q.consumer) (block n (i + 1) buf) woken q' in
      (
        woken',
        q',
        rw (e, write_loop, e2, e3) refl,
        c2
            ∙ ap (λ l. l ++ block n (i + 1) buf) c
            ∙ append_assoc (contents q) (buf i ∷ []) (block n (i + 1) buf),
        v2,
      )
]

contents-producer :
    (q : IoQueue) (l : Lock) (cur : ℕ)
    → contents (record q { lock = l; producer = cur }) ≡ contents q
unfolding ioq_length
contents-producer q l cur = refl

contents-lock : (q : IoQueue) (l : Lock) → contents (record q { lock = l }) ≡ contents q
unfolding ioq_length
contents-lock q l = refl

-- A writer that has put `bytes` sleeps as the producer with the lock, or among the lock's waiters.
abbrev pub Sleeps : ℕ → List ℕ → IoQueue → IoQueue → Run Transferred → Type 0
Sleeps cur bytes q q' run =
    ((q.lock.semaphore.value ≡ 1)
      × (run ≡ done (asleep bytes q'))
      × (q'.producer ≡ cur)
      × (q'.lock ≡ got cur q.lock))
    ⊎ ((q.lock.semaphore.value ≡ 0)
        × (run ≡ done (waiting bytes q'))
        × (q'.producer ≡ q.producer)
        × (q'.lock ≡ waited cur q.lock))

write_loop-full :
    (n cur i : ℕ) (buf : ℕ → ℕ) (q : IoQueue)
    → IsRing q
    → IsReady cur q.lock
    → (q.lock.semaphore.value ≡ 1 → q.producer ≡ 0)
    → next_pos q.head ≡ q.tail
    → (q' : IoQueue) × (contents q' ≡ contents q ++ [])
      × Sleeps cur [] q q' (write_loop (suc n) intr_off cur buf i q)
unfolding write_loop
write_loop-full n cur i buf q v ready h full =
    let nil = sym (append-nil (contents q)) in
    elim (ioq_putchar-asleep q v cur (buf i) ready h full) [
      | inl (one, e) ↦ (
        record q { lock = got cur q.lock; producer = cur },
        contents-producer q (got cur q.lock) cur ∙ nil,
        inl (one, rw e refl, refl, refl),
      )
      | inr (none_left, e) ↦ (
        record q { lock = waited cur q.lock },
        contents-lock q (waited cur q.lock) ∙ nil,
        inr (none_left, rw e refl, refl, refl),
      )
    ]

Sleeps-after :
    (byte cur : ℕ) (bytes : List ℕ) (q q' : IoQueue) (woken : Option ℕ) (run : Run Transferred)
    → Sleeps cur bytes q q' run
    → Sleeps cur (byte ∷ bytes) q q' (run >>= λ rest. done (after byte woken rest))
Sleeps-after byte cur bytes q q' woken run (inl (one, e, p, l)) =
    inl (one, rw (e, after-asleep byte woken bytes q') refl, p, l)
Sleeps-after byte cur bytes q q' woken run (inr (none_left, e, p, l)) =
    inr (none_left, rw (e, after-waiting byte woken bytes q') refl, p, l)

write_loop-round :
    (n cur i : ℕ) (buf : ℕ → ℕ) (q : IoQueue)
    → ioq_putchar intr_off cur (buf i) q ≡ done (returns tt (awaited q.consumer) (put (buf i) q))
    → write_loop (suc n) intr_off cur buf i q ≡ (
        write_loop n intr_off cur buf (i + 1) (put (buf i) q) >>= λ rest.
        done (after (buf i) (awaited q.consumer) rest))
unfolding write_loop
write_loop-round n cur i buf q e = rw (e, write_loop) refl

write_loop-asleep :
    (k n cur i : ℕ) (buf : ℕ → ℕ) (q : IoQueue)
    → IsRing q
    → IsReady cur q.lock
    → (q.lock.semaphore.value ≡ 1 → q.producer ≡ 0)
    → length (contents q) + k ≡ 63
    → k < n
    → (q' : IoQueue) × (contents q' ≡ contents q ++ block k i buf)
      × Sleeps cur (block k i buf) q q' (write_loop n intr_off cur buf i q)
write_loop-asleep k zero cur i buf q v ready h b c = absurd (omega arith)
write_loop-asleep zero (suc n) cur i buf q v ready h b c =
    elim (ℕ_discrete (next_pos q.head) q.tail) [
      | yes full ↦ write_loop-full n cur i buf q v ready h full
      | no ne ↦
          let (e, l, d, v') = ioq_putchar-put q v cur (buf i) ne in absurd (omega (arith, l, b))
    ]
write_loop-asleep (suc k) (suc n) cur i buf q v ready h b c =
    elim (ℕ_discrete (next_pos q.head) q.tail) [
      | yes full ↦ absurd (omega (arith, length-contents q, length-full q v full, b))
      | no ne ↦
          let (e, l, d, v') = ioq_putchar-put q v cur (buf i) ne in
          let (q', c2, asleep_then) =
            write_loop-asleep k n cur (i + 1) buf (put (buf i) q) v' ready h
              (omega (arith, ap length d, b, length-append (contents q) (buf i ∷ [])))
              (omega arith) in
          let later =
            Sleeps-after (buf i) cur (block k (i + 1) buf) (put (buf i) q) q' (awaited q.consumer)
              (write_loop n intr_off cur buf (i + 1) (put (buf i) q)) asleep_then in
          (
            q',
            c2
                ∙ ap (λ l. l ++ block k (i + 1) buf) d
                ∙ append_assoc (contents q) (buf i ∷ []) (block k (i + 1) buf),
            subst (Sleeps cur (block (suc k) i buf) q q') (sym (write_loop-round n cur i buf q e))
                later,
          )
    ]

-- The queue that a descriptor of a pipe leads to.
pub record IsPipe (fd : ℕ) (s : Pipes) (q : IoQueue) : Type 0 where
  pub ring : ℕ
  pub leads : ring_of fd s ≡ done ring
  pub here : s.rings ring ≡ q
  pub sound : IsRing q

-- With interrupts off, pipe_read takes the first bytes out of the pipe, as many as it was asked for or
-- as there are, and never sleeps.
pub pipe_read_lem :
    (fd cur count : ℕ) (s : Pipes) (q : IoQueue)
    → IsPipe fd s q
    → (bytes woken : List ℕ) × (q' : IoQueue) × (pipe_read intr_off cur fd count s
        ≡ done (finished bytes woken q'))
      × (contents q ≡ bytes ++ contents q')
      × (length bytes ≡ smaller (length (contents q)) count)
      × IsRing q'
unfolding pipe_read
pipe_read_lem fd cur count s q p =
    let n = smaller (length (contents q)) count in
    let fits : n ≤ length (contents q) = ground arith in
    let (bytes, woken, q', e, c, l, v) = read_loop_lem n cur q p.sound fits in
    (bytes, woken, q', rw (p.leads, p.here, sym (length-contents q), pipe_read) e, c, l, v)

-- With interrupts off, a caller that is outside of the queue's lock and no producer where this is free,
-- pipe_write appends all of its bytes when they fit into 63 bytes with those of the pipe. Otherwise it
-- appends as many as fit and then sleeps at the full pipe: as the producer that holds the lock, if this
-- was free, and as the last of the lock's waiters if it was taken.
pub pipe_write_lem :
    (fd cur count : ℕ) (buf : ℕ → ℕ) (s : Pipes) (q : IoQueue)
    → IsPipe fd s q
    → IsReady cur q.lock
    → (q.lock.semaphore.value ≡ 1 → q.producer ≡ 0)
    → ((length (contents q) + count ≤ 63)
        × (woken : List ℕ) × (q' : IoQueue) × (pipe_write intr_off cur fd buf count s
            ≡ done (finished (block count 0 buf) woken q'))
        × (contents q' ≡ contents q ++ block count 0 buf)
        × IsRing q')
      ⊎ ((63 < length (contents q) + count)
          × (k : ℕ) × (length (contents q) + k ≡ 63)
          × (q' : IoQueue) × (contents q' ≡ contents q ++ block k 0 buf)
          × Sleeps cur (block k 0 buf) q q' (pipe_write intr_off cur fd buf count s))
unfolding pipe_write
pipe_write_lem fd cur count buf s q p ready h =
    let len = length-contents q in
    let below = length-lt q p.sound in
    elim (Bool-cases (ltb 63 (length (contents q) + count))) [
      | inr f ↦
          let fits : length (contents q) + count ≤ 63 = ground (arith, f) in
          let n : smaller (bufsize - ioq_length q) count ≡ count = ground (arith, len, fits) in
          let (woken, q', e, c, v) = write_loop-finished count cur 0 buf q p.sound fits in
          inl (fits, woken, q', rw (p.leads, p.here, n, pipe_write) e, c, v)
      | inl t ↦
          let over : 63 < length (contents q) + count = ground (arith, t) in
          let k = 63 - length (contents q) in
          let room : length (contents q) + k ≡ 63 = omega (arith, len, below) in
          let n = smaller (bufsize - ioq_length q) count in
          let more : k < n = ground (arith, len, over, room) in
          let run : pipe_write intr_off cur fd buf count s ≡ write_loop n intr_off cur buf 0 q =
            rw (p.leads, p.here, pipe_write) refl in
          let (q', c, sleeping) = write_loop-asleep k n cur 0 buf q p.sound ready h room more in
          inr (over, k, room, q', c, subst (Sleeps cur (block k 0 buf) q q') (sym run) sleeping)
    ]
