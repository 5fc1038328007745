-- ===== src/Pids/Pool.antt =====
-- Pids are handed out once, and come back.
use enix.Base.{
  ℕ, ◌+◌, ◌-◌, ◌/◌, ◌%◌, ◌≡◌, ◌≤◌, ◌<◌, ◌⊎◌, inl, inr, refl, sym, ap, ◌∙◌, arith, Bool, true, false,
  not, for_all_lt, for_all_lt_lem, ltb, ◌==◌, if◌then◌else◌, add32, sub32, done, panicked,
  Bool-cases, ==_iff,
}
use enix.Bitmap.{bit_test, bitmap_init, bitmap_scan_test, write_bit, IsValid}
use enix.Bitmap.Bytes.{bitmap_set_lem}
use enix.Bitmap.OneBit.{bitmap_scan-OneBit}
use enix.Pids.{PidPool, pid_pool_init, allocate_pid, release_pid}

pub record IsPool (p : PidPool) : Type 0 where
  pub valid : IsValid p.pid_bitmap
  pub len : p.pid_bitmap.btmp_bytes_len ≡ 128
  pub start : p.pid_start ≡ 1

-- Is the pid in use?
abbrev pub is_taken : PidPool → ℕ → Bool
is_taken p pid = bitmap_scan_test p.pid_bitmap (pid - 1)

-- What allocate_pid leaves with a pid.
pub record IsGiven (p : PidPool) (pid : ℕ) (p' : PidPool) : Type 0 where
  pub positive : 0 < pid
  pub bound : pid ≤ 1024
  pub was_free : is_taken p pid ≡ false
  pub lowest : (q : ℕ) → 0 < q → q < pid → is_taken p q ≡ true
  pub pool : IsPool p'
  pub taken : (q : ℕ) → 0 < q → is_taken p' q ≡ (if q == pid then true else is_taken p q)

written-IsPool :
    (p : PidPool) (i value : ℕ)
    → IsPool p
    → value < 2
    → IsPool (record p { pid_bitmap = write_bit p.pid_bitmap i value })
written-IsPool p i value v small =
    let w = bitmap_set_lem p.pid_bitmap i value v.valid small in
    record { valid = w.1; len = w.2 ∙ v.len; start = v.start }

release_pid-restores :
    (p : PidPool) (i : ℕ)
    → IsPool p
    → i < 1024
    → bitmap_scan_test p.pid_bitmap i ≡ false
    → let p1 : PidPool = record p { pid_bitmap = write_bit p.pid_bitmap i 1 } in
      (p2 : PidPool) × (release_pid (i + 1) p1 ≡ done p2)
      × IsPool p2
      × ((q : ℕ) → is_taken p2 q ≡ is_taken p q)
unfolding release_pid
release_pid-restores p i v lt free =
    let p1 : PidPool = record p { pid_bitmap = write_bit p.pid_bitmap i 1 } in
    let v1 = written-IsPool p i 1 v (omega arith) in
    let w = bitmap_set_lem p.pid_bitmap i 1 v.valid (omega arith) in
    let w1 = bitmap_set_lem p1.pid_bitmap i 0 v1.valid (omega arith) in
    let at : sub32 (i + 1) p.pid_start ≡ i = ap (sub32 (i + 1)) v.start ∙ omega arith in
    (
      record p1 { pid_bitmap = write_bit p1.pid_bitmap i 0 },
      rw (at, w1.0) refl,
      written-IsPool p1 i 0 v1 (omega arith),
      λ q. elim (Bool-cases (i == q - 1)) [
        | inl t ↦
            let e : i ≡ q - 1 = (==_iff i (q - 1)).0 t in
            w1.3 (q - 1) ∙ rw t (sym free ∙ ap (bitmap_scan_test p.pid_bitmap) e)
        | inr n ↦ w1.3 (q - 1) ∙ rw n (w.3 (q - 1) ∙ rw n refl)
      ],
    )

no_bits : for_all_lt (λ n. not (bit_test 0 n)) 8 ≡ true
unfolding for_all_lt bit_test
no_bits = refl

clear : (n : ℕ) → n < 8 → bit_test 0 n ≡ false
clear n lt = ground (arith, for_all_lt_lem (λ k. not (bit_test 0 k)) 8 n lt no_bits)

-- A fresh pool has no pid in use, whatever the bytes of its array were.
pub pid_pool_init-IsPool :
    (bits : ℕ → ℕ)
    → ((k : ℕ) → bits k < 256)
    → IsPool (pid_pool_init bits)
      × ((pid : ℕ) → 0 < pid → pid ≤ 1024 → is_taken (pid_pool_init bits) pid ≡ false)
unfolding pid_pool_init bitmap_init bitmap_scan_test
pid_pool_init-IsPool bits bytes = (
  record {
    valid = record { bytes = λ k. ground (arith, bytes k); small = omega arith };
    len = refl;
    start = refl;
  },
  λ pid pos le.
      let t : ltb ((pid - 1) / 8) 128 ≡ true = ground arith in
      rw t (clear ((pid - 1) % 8) (omega arith)),
)

-- From a pool that is well formed, allocate_pid stops the kernel if all 1024 pids are in use. Else it
-- gives the smallest free one, from 1 to 1024, and exactly that one is in use more; release_pid of it
-- then leads back to a well-formed pool in which the same pids are in use as at first.
pub allocate_pid-release_pid :
    (p : PidPool)
    → IsPool p
    → ((allocate_pid p ≡ panicked) × ((q : ℕ) → 0 < q → q ≤ 1024 → is_taken p q ≡ true))
      ⊎ ((pid : ℕ) × (p1 : PidPool) × (allocate_pid p ≡ done (pid, p1))
          × IsGiven p pid p1
          × (p2 : PidPool) × (release_pid pid p1 ≡ done p2)
          × IsPool p2
          × ((q : ℕ) → is_taken p2 q ≡ is_taken p q))
unfolding allocate_pid
allocate_pid-release_pid p v = elim (bitmap_scan-OneBit p.pid_bitmap v.valid) [
  | inl (run, full) ↦ inl (rw run refl, λ q pos le. full (q - 1) (omega (arith, v.len)))
  | inr (i, run, lt, free, below) ↦
      let bound : i < 1024 = omega (arith, v.len) in
      let w = bitmap_set_lem p.pid_bitmap i 1 v.valid (omega arith) in
      let pid : add32 i p.pid_start ≡ i + 1 = ap (add32 i) v.start ∙ omega arith in
      let (p2, back, v2, same) = release_pid-restores p i v bound free in
      let index : i + 1 - 1 ≡ i = omega arith in
      inr (
        i + 1,
        record p { pid_bitmap = write_bit p.pid_bitmap i 1 },
        rw (run, w.0, pid) refl,
        record {
          positive = omega arith;
          bound = omega arith;
          was_free = ap (bitmap_scan_test p.pid_bitmap) index ∙ free;
          lowest = λ q pos less. below (q - 1) (omega arith);
          pool = written-IsPool p i 1 v (omega arith);
          taken = λ q pos.
              let e : (i == q - 1) ≡ (q == i + 1) = ground arith in w.3 (q - 1) ∙ rw e refl;
        },
        p2,
        back,
        v2,
        same,
      )
]
