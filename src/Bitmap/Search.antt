-- ===== src/Bitmap/Search.antt =====
-- bitmap_scan returns the first run of free bits, or says that there is none.
use enix.Base.{
  ℕ, ◌+◌, ◌-◌, ◌*◌, ◌/◌, ◌%◌, ◌<◌, ◌≡◌, refl, ◌≢◌, inl, inr, true, false, Option, none, some, arith,
  ltb, ◌==◌, if◌then◌else◌, for_all_lt, for_all_lt_lem, ℕ_discrete, dec_lt, ap, done, panicked,
  sub32,
}
use enix.Bitmap.{
  Bitmap, bit_test, scan_bytes, scan_bits, scan_run, bitmap_scan, bitmap_scan_test, IsValid, Free,
  FirstFit,
}
use enix.Bitmap.Loops.{
  full_byte, free_bit, FirstByte, scan_bytes_lem, not-Free_of_set, Free-suc, Running, scan_run_lem,
}

-- Where the search stops looking: at the end of the bitmap for one bit, one bit later for a run.
abbrev pub scan_limit : Bitmap → ℕ → ℕ
scan_limit b cnt = if cnt == 1 then 8 * b.btmp_bytes_len else 8 * b.btmp_bytes_len + 1

module _ (b : Bitmap) (v : IsValid b) where
  -- What the first two loops find: every bit below is set, and the bit itself is free.
  module _ (idx : ℕ) (first : FirstByte b 0 idx) (inside : idx < b.btmp_bytes_len) where
    abbrev start : ℕ
    start = idx * 8 + scan_bits 9 (b.bits idx) 0

    byte_found :
        (scan_bits 9 (b.bits idx) 0 < 8)
        × (bit_test (b.bits idx) (scan_bits 9 (b.bits idx) 0) ≡ false)
        × (for_all_lt (bit_test (b.bits idx)) (scan_bits 9 (b.bits idx) 0) ≡ true)
    byte_found = free_bit (b.bits idx) (v.bytes idx) (ground (arith, first.3))

    set_below : (p : ℕ) → p < start → bitmap_scan_test b p ≡ true
    unfolding bitmap_scan_test
    set_below p h = elim (dec_lt (p / 8) idx) [
      | yes q ↦
          full_byte (b.bits (p / 8)) (v.bytes (p / 8)) (p % 8) (first.2 (p / 8) (omega arith) q)
            (omega arith)
      | no q ↦
          let e : p / 8 ≡ idx = omega (arith, byte_found.0) in
          rw e (
            for_all_lt_lem (bit_test (b.bits idx)) _ (p % 8) (omega (arith, byte_found.0))
              byte_found.2)
    ]

    start_free : bitmap_scan_test b start ≡ false
    unfolding bitmap_scan_test
    start_free =
        let e : start / 8 ≡ idx = omega (arith, byte_found.0) in
        let f : start % 8 ≡ scan_bits 9 (b.bits idx) 0 = omega (arith, byte_found.0) in
        rw (e, f) byte_found.1

    not-Free_below : (s cnt : ℕ) → 0 < cnt → s < start → ¬ Free b s cnt
    not-Free_below s cnt c h = not-Free_of_set b s cnt s (omega arith) (omega arith) (set_below s h)

    Free-one : Free b start 1
    Free-one j h = let e : start + j ≡ start = omega arith in rw e start_free

    Running-start : (cnt : ℕ) → 1 < cnt → Running b cnt start 1
    Running-start cnt h = record {
      free = Free-one;
      starts = elim (ℕ_discrete start 0) [
        | yes e ↦ inl e
        | no ne ↦ inr (set_below (start - 1) (omega arith))
      ];
      short = h;
      none_yet = λ s k. not-Free_below s cnt (omega arith) (omega arith);
    }

    -- What the scan returns once the first free bit is known.
    FirstFit-start :
        (cnt : ℕ)
        → 0 < cnt
        → FirstFit b cnt (scan_limit b cnt) (
            if cnt == 1
            then some start
            else scan_run b cnt (sub32 (b.btmp_bytes_len * 8) start) (start + 1) 1)
    FirstFit-start cnt h = elim (ℕ_discrete cnt 1) [
      | yes e ↦
          rw e (Free-one, omega (arith, byte_found.0), λ s k. not-Free_below s 1 (omega arith) k)
      | no ne ↦
          let t : (cnt == 1) ≡ false = ground arith in
          let left : sub32 (b.btmp_bytes_len * 8) start ≡ b.btmp_bytes_len * 8 - start =
            omega (arith, byte_found.0, v.small) in
          let lim : 8 * b.btmp_bytes_len + 1 ≡ start + 1 + (b.btmp_bytes_len * 8 - start) =
            omega (arith, byte_found.0) in
          rw (t, left, lim)
            (scan_run_lem b cnt (b.btmp_bytes_len * 8 - start) start 1 (start + 1)
              (Running-start cnt (omega arith)) refl (omega (arith, byte_found.0, v.small)))
    ]

  pub first_byte : FirstByte b 0 (scan_bytes (b.btmp_bytes_len + 1) b 0)
  first_byte = scan_bytes_lem (b.btmp_bytes_len + 1) b 0 (omega arith) (omega arith)

  -- If some byte of the bitmap is not full, bitmap_scan returns, and its result for a positive `cnt`
  -- is the first run of `cnt` free bits, or -1 where there is none. For one bit the search ends with
  -- the bitmap; for a run it takes in one bit past the end.
  pub bitmap_scan-FirstFit :
      (cnt k : ℕ)
      → 0 < cnt
      → k < b.btmp_bytes_len
      → b.bits k ≢ 0xFF
      → (r : Option ℕ) × (bitmap_scan b cnt ≡ done r) × FirstFit b cnt (scan_limit b cnt) r
  unfolding bitmap_scan
  bitmap_scan-FirstFit cnt k c h ne =
      let idx = scan_bytes (b.btmp_bytes_len + 1) b 0 in
      let inside : idx < b.btmp_bytes_len = elim (dec_lt idx b.btmp_bytes_len) [
        | yes p ↦ p
        | no p ↦ absurd (ne (first_byte.2 k (omega arith) (omega (arith, first_byte.1))))
      ] in
      let t : ltb idx b.btmp_bytes_len ≡ true = ground arith in
      let f : (idx == b.btmp_bytes_len) ≡ false = ground arith in
      (_, rw (t, f), FirstFit-start idx first_byte inside cnt c)

  -- If every byte of the bitmap is full, the ASSERT of bitmap_scan fails: it never returns -1 here.
  pub bitmap_scan-full :
      (cnt : ℕ) → ((k : ℕ) → k < b.btmp_bytes_len → b.bits k ≡ 0xFF) → bitmap_scan b cnt ≡ panicked
  unfolding bitmap_scan
  bitmap_scan-full cnt full =
      let idx = scan_bytes (b.btmp_bytes_len + 1) b 0 in
      let past : ltb idx b.btmp_bytes_len ≡ false = elim (dec_lt idx b.btmp_bytes_len) [
        | yes p ↦ ground (arith, full idx p, first_byte)
        | no p ↦ ground arith
      ] in
      rw past

  no_bit_of_full : (p : ℕ) → b.bits (p / 8) ≡ 0xFF → bitmap_scan_test b p ≢ false
  unfolding bitmap_scan_test
  no_bit_of_full p f at =
      let t = full_byte (b.bits (p / 8)) (v.bytes (p / 8)) (p % 8) f (omega arith) in cc

  -- If only the last bit of the bitmap is free, a search for two bits returns that bit, whenever the
  -- bit behind the bitmap happens to be 0: the run it hands out ends outside.
  pub bitmap_scan_overrun :
      (p : ℕ)
      → p + 1 ≡ 8 * b.btmp_bytes_len
      → ((s : ℕ) → s < p → bitmap_scan_test b s ≡ true)
      → bitmap_scan_test b p ≡ false
      → bitmap_scan_test b (p + 1) ≡ false
      → bitmap_scan b 2 ≡ done (some p)
  bitmap_scan_overrun p e below at past =
      let (r, run, fit) = bitmap_scan-FirstFit 2 (p / 8) (omega arith) (omega arith) not_full in
      rw run (ap done (only r fit))
    where
      not_full : b.bits (p / 8) ≢ 0xFF
      not_full f = no_bit_of_full p f at

      pair : Free b p 2
      pair =
          Free-suc b p 1 (p + 1) refl
            (Free-suc b p 0 p (omega arith) (λ j h. absurd (omega arith)) at) past

      only : (r : Option ℕ) → FirstFit b 2 (scan_limit b 2) r → r ≡ some p
      only none fit = absurd (fit p (omega arith) pair)
      only (some i) fit = elim (dec_lt i p) [
        | yes q ↦ absurd (not-Free_of_set b i 2 i (omega arith) (omega arith) (below i q) fit.0)
        | no q ↦ elim (dec_lt p i) [
          | yes q' ↦ absurd (fit.2 p q' pair)
          | no q' ↦ ap some (omega arith)
        ]
      ]
