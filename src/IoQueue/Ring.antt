-- ===== src/IoQueue/Ring.antt =====
-- The bytes in the ring as a list.
use enix.Base.{
  ℕ, zero, suc, ◌+◌, ◌%◌, ◌<◌, ◌≡◌, refl, ap, List, [], ◌∷◌, ◌++◌, false, arith, ◌==◌, update,
  length,
}
use enix.IoQueue.{IoQueue, bufsize, next_pos, ioq_length}

-- The `n` bytes from a position on, around the end of the buffer.
abbrev pub bytes : ℕ → ℕ → (ℕ → ℕ) → List ℕ
bytes zero pos buf = []
bytes (suc n) pos buf = buf pos ∷ bytes n (next_pos pos) buf

abbrev pub contents : IoQueue → List ℕ
contents ioq = bytes (ioq_length ioq) ioq.tail ioq.buf

pub record IsRing (ioq : IoQueue) : Type 0 where
  pub head_inside : ioq.head < bufsize
  pub tail_inside : ioq.tail < bufsize

pub length-bytes : (n pos : ℕ) (buf : ℕ → ℕ) → length (bytes n pos buf) ≡ n
length-bytes zero pos buf = refl
length-bytes (suc n) pos buf = omega (arith, length-bytes n (next_pos pos) buf)

-- A write behind the last byte appends.
pub bytes-append :
    (n pos : ℕ) (buf : ℕ → ℕ) (byte at : ℕ)
    → pos < bufsize
    → n < bufsize
    → at ≡ (pos + n) % bufsize
    → bytes (suc n) pos (update buf at byte) ≡ bytes n pos buf ++ byte ∷ []
bytes-append zero pos buf byte at h k e = ground (arith, h)
bytes-append (suc n) pos buf byte at h k e =
    let away : (pos == at) ≡ false = ground arith in
    let ih = bytes-append n (next_pos pos) buf byte at (omega arith) (omega arith) (omega arith) in
    rw away (ap (λ l. buf pos ∷ l) ih)
