-- ===== src/Bitmap/OneBit.antt =====
-- The search for one bit, as the memory pools and the tables of the file system use it.
use enix.Base.{
  ℕ, ◌+◌, ◌*◌, ◌/◌, ◌%◌, ◌<◌, ◌≡◌, ◌≢◌, ◌⊎◌, inl, inr, true, false, Option, none, some, arith,
  Bool-cases, dec_lt, Run, done, panicked, sym,
}
use enix.Bitmap.{
  Bitmap, bitmap_scan, bitmap_scan_test, scan_bytes, scan_bits, IsValid, Free, FirstFit,
}
use enix.Bitmap.Loops.{full_byte, free_bit}
use enix.Bitmap.Search.{first_byte, bitmap_scan-FirstFit, bitmap_scan-full}

-- The lowest free bit, or a panic where all bits are set.
abbrev pub OneBit : Bitmap → Run (Option ℕ) → Type 0
OneBit b r =
    ((r ≡ panicked) × ((p : ℕ) → p < 8 * b.btmp_bytes_len → bitmap_scan_test b p ≡ true))
    ⊎ ((i : ℕ) × (r ≡ done (some i))
        × (i < 8 * b.btmp_bytes_len)
        × (bitmap_scan_test b i ≡ false)
        × ((p : ℕ) → p < i → bitmap_scan_test b p ≡ true))

module _ (b : Bitmap) (v : IsValid b) where
  Free-zero : (p : ℕ) → bitmap_scan_test b p ≡ false → Free b p 1
  Free-zero p f j h = let e : p + j ≡ p = omega arith in rw e f

  set_of_not-Free : (p : ℕ) → ¬ Free b p 1 → bitmap_scan_test b p ≡ true
  set_of_not-Free p h = elim (Bool-cases (bitmap_scan_test b p)) [
    | inl t ↦ t
    | inr f ↦ absurd (h (Free-zero p f))
  ]

  free_in_byte :
      (k : ℕ) → b.bits k ≢ 0xFF → bitmap_scan_test b (k * 8 + scan_bits 9 (b.bits k) 0) ≡ false
  unfolding bitmap_scan_test
  free_in_byte k ne =
      let (low, free, below) = free_bit (b.bits k) (v.bytes k) ne in
      let q : (k * 8 + scan_bits 9 (b.bits k) 0) / 8 ≡ k = omega arith in
      let r : (k * 8 + scan_bits 9 (b.bits k) 0) % 8 ≡ scan_bits 9 (b.bits k) 0 = omega arith in
      rw (q, r) free

  found :
      (k : ℕ) (r : Option ℕ)
      → k < b.btmp_bytes_len
      → b.bits k ≢ 0xFF
      → bitmap_scan b 1 ≡ done r
      → FirstFit b 1 (8 * b.btmp_bytes_len) r
      → OneBit b (bitmap_scan b 1)
  found k none lt ne run fit =
      let low = (free_bit (b.bits k) (v.bytes k) ne).0 in
      absurd (
        fit (k * 8 + scan_bits 9 (b.bits k) 0) (omega arith)
          (Free-zero (k * 8 + scan_bits 9 (b.bits k) 0) (free_in_byte k ne)))
  found k (some i) lt ne run (free, within, first) =
      let e : i + 0 ≡ i = omega arith in
      let z : bitmap_scan_test b i ≡ false = rw (sym e) (free 0 (omega arith)) in
      inr (i, run, omega arith, z, λ p h. set_of_not-Free p (first p h))

  set_of_full :
      ((k : ℕ) → k < b.btmp_bytes_len → b.bits k ≡ 0xFF)
      → (p : ℕ) → p < 8 * b.btmp_bytes_len
      → bitmap_scan_test b p ≡ true
  unfolding bitmap_scan_test
  set_of_full full p h =
      full_byte (b.bits (p / 8)) (v.bytes (p / 8)) (p % 8) (full (p / 8) (omega arith))
        (omega arith)

  pub bitmap_scan-OneBit : OneBit b (bitmap_scan b 1)
  bitmap_scan-OneBit =
      let idx = scan_bytes (b.btmp_bytes_len + 1) b 0 in
      let (low, high, full, stop) = first_byte b v in
      elim (dec_lt idx b.btmp_bytes_len) [
        | yes inside ↦
            let ne : b.bits idx ≢ 0xFF = elim stop [ inl e ↦ absurd (omega arith) | inr ne ↦ ne ] in
            let (r, run, fit) = bitmap_scan-FirstFit b v 1 idx (omega arith) inside ne in
            found idx r inside ne run fit
        | no past ↦
            let all : (k : ℕ) → k < b.btmp_bytes_len → b.bits k ≡ 0xFF =
              λ k h. full k (omega arith) (omega arith) in
            inl (bitmap_scan-full b v 1 all, set_of_full all)
      ]
