-- ===== src/Bitmap/Loops.antt =====
-- The three loops of bitmap_scan: the first byte that is not full, its lowest free bit, and a run.
use enix.Base.{
  ℕ, zero, suc, ◌+◌, ◌-◌, ◌≤◌, ◌<◌, ◌≡◌, refl, ◌≢◌, ◌⊎◌, inl, inr, Bool, true, false, not, ◌&&◌,
  some, arith, ltb, ◌==◌, Bool-cases, if◌then◌else◌, for_all_lt, for_all_lt_lem, ℕ_discrete, dec_lt,
  u32_mod, add32, sub32, subst,
}
use enix.Bitmap.{
  Bitmap, bit_test, scan_bytes, scan_bits, scan_run, bitmap_scan_test, Free, FirstFit,
}

-- What the second loop finds in a byte: eight set bits, or the lowest free one.
abbrev lowest_free : ℕ → Bool
lowest_free x =
    let k = scan_bits 9 x 0 in
    if x == 0xFF
    then for_all_lt (bit_test x) 8
    else ltb k 8 && not (bit_test x k) && for_all_lt (bit_test x) k

lowest_free_table : for_all_lt lowest_free 256 ≡ true
unfolding for_all_lt scan_bits bit_test
lowest_free_table = refl

module _ (x : ℕ) (h : x < 256) where
  pub full_byte : (k : ℕ) → x ≡ 0xFF → k < 8 → bit_test x k ≡ true
  full_byte k e hk =
      for_all_lt_lem (bit_test x) 8 k hk
        (ground (arith, for_all_lt_lem lowest_free 256 x h lowest_free_table))

  pub free_bit :
      x ≢ 0xFF
      → (scan_bits 9 x 0 < 8)
        × (bit_test x (scan_bits 9 x 0) ≡ false)
        × (for_all_lt (bit_test x) (scan_bits 9 x 0) ≡ true)
  free_bit ne = ground (arith, for_all_lt_lem lowest_free 256 x h lowest_free_table)

-- The first loop stops at the first byte that is not full, or at the end.
abbrev pub FirstByte : Bitmap → ℕ → ℕ → Type 0
FirstByte b from r =
    (from ≤ r)
    × (r ≤ b.btmp_bytes_len)
    × ((i : ℕ) → from ≤ i → i < r → b.bits i ≡ 0xFF)
    × ((r ≡ b.btmp_bytes_len) ⊎ (b.bits r ≢ 0xFF))

pub scan_bytes_lem :
    (fuel : ℕ) (b : Bitmap) (from : ℕ)
    → from ≤ b.btmp_bytes_len
    → b.btmp_bytes_len < fuel + from
    → FirstByte b from (scan_bytes fuel b from)
unfolding scan_bytes
scan_bytes_lem zero b from h k = absurd (omega arith)
scan_bytes_lem (suc fuel) b from h k =
    elim (Bool-cases ((b.bits from == 0xFF) && ltb from b.btmp_bytes_len)) [
      | inl t ↦
          let ih = scan_bytes_lem fuel b (from + 1) (ground arith) (omega arith) in
          rw t (
            omega (arith, ih.0),
            ih.1,
            λ i p q. elim (ℕ_discrete i from) [
              | yes e ↦ ground arith
              | no ne ↦ ih.2 i (omega arith) q
            ],
            ih.3,
          )
      | inr f ↦ rw f (omega arith, h, λ i p q. absurd (omega arith), ground arith)
    ]

module _ (b : Bitmap) where
  -- A set bit inside a window rules the window out.
  pub not-Free_of_set :
      (s cnt p : ℕ) → s ≤ p → p < s + cnt → bitmap_scan_test b p ≡ true → ¬ Free b s cnt
  not-Free_of_set s cnt p h k t f =
      let e : s + (p - s) ≡ p = omega arith in
      let g : bitmap_scan_test b p ≡ false = rw e at (f (p - s) (omega arith)) in cc

  pub Free-suc :
      (lo n next : ℕ)
      → next ≡ lo + n
      → Free b lo n
      → bitmap_scan_test b next ≡ false
      → Free b lo (n + 1)
  Free-suc lo n next e f t j h = elim (ℕ_discrete j n) [
    | yes q ↦ ground arith
    | no ne ↦ f j (omega arith)
  ]

  -- The state of the third loop: the free bits from `lo` up to the next bit, after a set bit or at
  -- the start, and no window that ends before the next bit.
  pub record Running (cnt lo count : ℕ) : Type 0 where
    pub free : Free b lo count
    pub starts : (lo ≡ 0) ⊎ (bitmap_scan_test b (lo - 1) ≡ true)
    pub short : count < cnt
    pub none_yet : (s : ℕ) → s + cnt ≤ lo + count → ¬ Free b s cnt

  module _ (cnt lo count next : ℕ) (r : Running cnt lo count) (e : next ≡ lo + count) where
    Running-reset : bitmap_scan_test b next ≡ true → Running cnt (next + 1) 0
    Running-reset t = record {
      free = λ j h. absurd (omega arith);
      starts = inr (let q : next + 1 - 1 ≡ next = omega arith in rw q t);
      short = omega (arith, r.short);
      none_yet = λ s h. elim (dec_lt next (s + cnt)) [
        | yes p ↦ not-Free_of_set s cnt next (omega (arith, r.short)) p t
        | no p ↦ r.none_yet s (omega arith)
      ];
    }

    Running-grow : bitmap_scan_test b next ≡ false → count + 1 ≢ cnt → Running cnt lo (count + 1)
    Running-grow t ne = record {
      free = Free-suc lo count next e r.free t;
      starts = r.starts;
      short = omega (arith, r.short);
      none_yet = λ s h. elim (dec_lt next (s + cnt)) [
        | yes p ↦ elim r.starts [
          | inl z ↦ absurd (omega (arith, r.short))
          | inr t' ↦ not-Free_of_set s cnt (lo - 1) (omega (arith, r.short)) (omega arith) t'
        ]
        | no p ↦ r.none_yet s (omega arith)
      ];
    }

  -- One round of the third loop: a set bit, a free bit that does not suffice, and the last one.
  module _ (cnt left count next : ℕ) (h : next + suc left < u32_mod) where
    scan_run-set :
        bitmap_scan_test b next ≡ true
        → 0 < cnt
        → scan_run b cnt (suc left) next count ≡ scan_run b cnt left (next + 1) 0
    unfolding scan_run
    scan_run-set t p = let e : add32 next 1 ≡ next + 1 = omega arith in rw (t, e) (ground arith)

    scan_run-free :
        bitmap_scan_test b next ≡ false
        → count ≤ next
        → count + 1 ≢ cnt
        → scan_run b cnt (suc left) next count ≡ scan_run b cnt left (next + 1) (count + 1)
    unfolding scan_run
    scan_run-free f k ne =
        let e : add32 next 1 ≡ next + 1 = omega arith in
        let c : add32 count 1 ≡ count + 1 = omega arith in rw (f, e, c) (ground arith)

    scan_run-found :
        (lo : ℕ)
        → bitmap_scan_test b next ≡ false
        → next ≡ lo + count
        → count + 1 ≡ cnt
        → scan_run b cnt (suc left) next count ≡ some lo
    unfolding scan_run
    scan_run-found lo f k e =
        let c : add32 count 1 ≡ cnt = omega arith in
        let d : add32 (sub32 next cnt) 1 ≡ lo = omega arith in rw (f, c, d) (ground arith)

  pub scan_run_lem :
      (cnt left lo count next : ℕ)
      → Running cnt lo count
      → next ≡ lo + count
      → next + left < u32_mod
      → FirstFit b cnt (next + left) (scan_run b cnt left next count)
  unfolding scan_run
  scan_run_lem cnt zero lo count next r e h = λ s k. r.none_yet s (omega arith)
  scan_run_lem cnt (suc left) lo count next r e h = elim (Bool-cases (bitmap_scan_test b next)) [
    | inl t ↦
        rw (scan_run-set cnt left count next h t (omega (arith, r.short)), limit)
          (scan_run_lem cnt left (next + 1) 0 (next + 1) (Running-reset cnt lo count next r e t)
            (omega arith) (omega arith))
    | inr f ↦ elim (ℕ_discrete (count + 1) cnt) [
      | yes q ↦ rw (scan_run-found cnt left count next h lo f e q) (
        subst (Free b lo) q (Free-suc lo count next e r.free f),
        omega arith,
        λ s k. r.none_yet s (omega arith),
      )
      | no ne ↦
          rw (scan_run-free cnt left count next h f (omega arith) ne, limit)
            (scan_run_lem cnt left lo (count + 1) (next + 1)
              (Running-grow cnt lo count next r e f ne) (omega arith) (omega arith))
    ]
  ]
    where
      limit : next + suc left ≡ next + 1 + left
      limit = omega arith
