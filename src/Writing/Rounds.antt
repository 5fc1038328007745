-- ===== src/Writing/Rounds.antt =====
-- One round of the loop of file_write.
use enix.Base.{
  ℕ, ◌+◌, ◌-◌, ◌*◌, ◌/◌, ◌%◌, ◌≡◌, ◌≢◌, ◌≤◌, ◌<◌, ◌⊎◌, inl, inr, refl, arith, Bool, true, false,
  ◌&&◌, ltb, leb, if◌then◌else◌, Bool-cases, lt→ltb, ltb→lt, ℕ_discrete,
}
use enix.Inode.{Bytes}
use enix.Writing.{Progress, write_chunk}

-- The byte of a file at a position, by the addresses of its blocks.
abbrev pub byte_at : (ℕ → ℕ) → Bytes → ℕ → ℕ
byte_at all disk p = disk (all (p / 512) * 512 + p % 512)

-- The bytes of a file of `size` bytes with those of `buf` from `from` on behind them.
abbrev pub appended : (ℕ → ℕ) → ℕ → ℕ → (ℕ → ℕ) → ℕ → ℕ
appended old size from buf p = if ltb p size then old p else buf (from + (p - size))

-- Different blocks of the file, from `base` up to the one of the last byte, lie in different sectors.
abbrev pub AreApart : (ℕ → ℕ) → ℕ → ℕ → Type 0
AreApart all base size =
    (a b : ℕ) → base ≤ a → base ≤ b → a * 512 < size → b * 512 < size → all a ≡ all b → a ≡ b

-- One round, in a file that is `size` bytes long.
pub write_chunk-appended :
    (all buf : ℕ → ℕ) (base : ℕ) (first : Bool) (n : ℕ) (w : Progress) (p : ℕ)
    → 0 < n
    → w.i_size % 512 + n ≤ 512
    → (first ≡ true) ⊎ (w.i_size % 512 ≡ 0)
    → AreApart all base (w.i_size + n)
    → base * 512 ≤ w.i_size
    → base * 512 ≤ p
    → p < w.i_size + n
    → byte_at all (write_chunk all buf first n w).disk p
      ≡ appended (byte_at all w.disk) w.i_size w.bytes_written buf p
write_chunk-appended all buf base first n w p some_bytes fits whole apart from_base ge lt =
    elim (ℕ_discrete (p / 512) (w.i_size / 512)) [
      | no other ↦
          let ne : all (p / 512) ≢ all (w.i_size / 512) = λ e. other (
            apart (p / 512) (w.i_size / 512) (omega arith) (omega arith) (omega arith) (omega arith)
              e) in
          let before : ltb p w.i_size ≡ true = ground arith in
          let out : (leb (all (w.i_size / 512) * 512) (all (p / 512) * 512 + p % 512)
                && ltb (all (p / 512) * 512 + p % 512) (all (w.i_size / 512) * 512 + 1 * 512))
              ≡ false =
            ground (arith, ne) in
          rw (out, before) refl
      | yes same ↦
          let lba = all (w.i_size / 512) in
          let inside : (leb (lba * 512) (lba * 512 + p % 512)
                && ltb (lba * 512 + p % 512) (lba * 512 + 1 * 512))
              ≡ true =
            ground arith in
          let off : lba * 512 + p % 512 - lba * 512 ≡ p % 512 = omega arith in
          rw (same, inside, off)
            (elim (Bool-cases (ltb p w.i_size)) [
              | inl t ↦
                  let below = ltb→lt p w.i_size t in
                  let kept : (leb (w.i_size % 512) (p % 512) && ltb (p % 512) (w.i_size % 512 + n))
                      ≡ false =
                    ground arith in
                  let read : ltb (p % 512) (1 * 512) ≡ true = lt→ltb (p % 512) 512 (omega arith) in
                  elim whole [ inl f ↦ rw (t, kept, f, read) refl | inr z ↦ absurd (omega arith) ]
              | inr g ↦
                  let behind : w.i_size ≤ p = ground (arith, g) in
                  let put : (leb (w.i_size % 512) (p % 512) && ltb (p % 512) (w.i_size % 512 + n))
                      ≡ true =
                    ground arith in
                  let same_byte : p % 512 - w.i_size % 512 ≡ p - w.i_size = omega arith in
                  rw (g, put, same_byte) refl
            ])
    ]

pub appended-append :
    (old buf : ℕ → ℕ) (base size from n m p : ℕ) (now : ℕ → ℕ)
    → ((q : ℕ) → base * 512 ≤ q → q < size + n → now q ≡ appended old size from buf q)
    → base * 512 ≤ p
    → p < size + n + m
    → appended now (size + n) (from + n) buf p ≡ appended old size from buf p
appended-append old buf base size from n m p now h ge lt = elim (Bool-cases (ltb p (size + n))) [
  | inl t ↦ rw t (h p ge (ltb→lt p (size + n) t))
  | inr f ↦
      let out : ltb p size ≡ false = ground (arith, f) in
      let same : from + n + (p - (size + n)) ≡ from + (p - size) = ground (arith, f) in
      rw (f, out, same) refl
]

pub write_chunk-others :
    (all buf : ℕ → ℕ) (first : Bool) (n : ℕ) (w : Progress) (x : ℕ)
    → (x < all (w.i_size / 512) * 512) ⊎ (all (w.i_size / 512) * 512 + 512 ≤ x)
    → (write_chunk all buf first n w).disk x ≡ w.disk x
write_chunk-others all buf first n w x out =
    let lba = all (w.i_size / 512) in
    let f : (leb (lba * 512) x && ltb x (lba * 512 + 1 * 512)) ≡ false = ground arith in rw f refl
