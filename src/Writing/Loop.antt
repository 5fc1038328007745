-- ===== src/Writing/Loop.antt =====
-- The loop of file_write puts the bytes behind those of the file.
use enix.Base.{
  ℕ, zero, suc, ◌+◌, ◌-◌, ◌*◌, ◌/◌, ◌%◌, ◌≡◌, ◌≤◌, ◌<◌, ◌⊎◌, inl, inr, refl, ap, ◌∙◌, arith, Bool,
  true, false, ltb, add32, sub32, u32_mod, done, lt→ltb,
}
use enix.Contents.{chunk_of}
use enix.Writing.{Progress, write_chunk, write_loop}
use enix.Writing.Rounds.{
  byte_at, appended, AreApart, write_chunk-appended, appended-append, write_chunk-others,
}

-- What the loop leaves of a file of `size` bytes to which `left` bytes are still to be written.
pub record Appends (all buf : ℕ → ℕ) (base left : ℕ) (w w' : Progress) : Type 0 where
  pub size : w'.i_size ≡ w.i_size + left
  pub written : w'.bytes_written ≡ w.bytes_written + left
  pub pos : w'.fd_pos ≡ add32 w.fd_pos left
  pub bytes :
      (p : ℕ)
      → base * 512 ≤ p
      → p < w.i_size + left
      → byte_at all w'.disk p ≡ appended (byte_at all w.disk) w.i_size w.bytes_written buf p
  pub others :
      (x : ℕ)
      → ((b : ℕ)
          → base ≤ b
          → b * 512 < w.i_size + left
          → (x < all b * 512) ⊎ (all b * 512 + 512 ≤ x))
      → w'.disk x ≡ w.disk x

Appends-none :
    (all buf : ℕ → ℕ) (base : ℕ) (w : Progress) → w.fd_pos < u32_mod → Appends all buf base 0 w w
Appends-none all buf base w small = record {
  size = omega arith;
  written = omega arith;
  pos = omega arith;
  bytes =
      λ p _ lt. let t : ltb p w.i_size ≡ true = lt→ltb p w.i_size (omega (arith, lt)) in rw t refl;
  others = λ x h. refl;
}

-- May a round begin here? The rounds behind the first one begin at a sector's start.
abbrev pub MayBegin : Bool → ℕ → ℕ → Type 0
MayBegin first size left = (left ≡ 0) ⊎ (first ≡ true) ⊎ (size % 512 ≡ 0)

Appends-chunk :
    (all buf : ℕ → ℕ) (base : ℕ) (first : Bool) (n left : ℕ) (w w' : Progress)
    → 0 < n
    → n ≤ left
    → w.i_size % 512 + n ≤ 512
    → w.i_size + left < u32_mod
    → w.bytes_written + left < u32_mod
    → (first ≡ true) ⊎ (w.i_size % 512 ≡ 0)
    → AreApart all base (w.i_size + left)
    → base * 512 ≤ w.i_size
    → Appends all buf base (left - n) (write_chunk all buf first n w) w'
    → Appends all buf base left w w'
Appends-chunk all buf base first n left w w' some_bytes le fits s c whole apart from_base r =
    let size : add32 w.i_size n ≡ w.i_size + n = omega arith in
    let written : add32 w.bytes_written n ≡ w.bytes_written + n = omega arith in
    let old = byte_at all w.disk in
    let w1 = write_chunk all buf first n w in
    let round : (q : ℕ)
        → base * 512 ≤ q
        → q < w.i_size + n
        → byte_at all w1.disk q ≡ appended old w.i_size w.bytes_written buf q =
      λ q ge lt.
        write_chunk-appended all buf base first n w q some_bytes fits whole
          (λ a b ga gb la lb. apart a b ga gb (omega arith) (omega arith)) from_base ge lt in
    record {
      size = omega (arith, r.size);
      written = omega (arith, r.written);
      pos = r.pos ∙ omega arith;
      bytes = λ p ge lt.
          let later : byte_at all w'.disk p
              ≡ appended (byte_at all w1.disk) (w.i_size + n) (w.bytes_written + n) buf p =
            r.bytes p ge (omega arith)
            ∙ ap (λ x. appended (byte_at all w1.disk) x (add32 w.bytes_written n) buf p) size
            ∙ ap (λ x. appended (byte_at all w1.disk) (w.i_size + n) x buf p) written in
          later
          ∙ appended-append old buf base w.i_size w.bytes_written n (left - n) p
              (byte_at all w1.disk) round ge (omega arith);
      others = λ x h.
          r.others x (λ b ge lb. h b ge (omega arith))
          ∙ write_chunk-others all buf first n w x (h (w.i_size / 512) (omega arith) (omega arith));
    }

write_loop-end :
    (fuel : ℕ) (all buf : ℕ → ℕ) (count : ℕ) (first : Bool) (left : ℕ) (w : Progress)
    → w.bytes_written ≡ count
    → write_loop fuel all buf count first left w ≡ done w
unfolding write_loop
write_loop-end zero all buf count first left w e =
    let n : ltb w.bytes_written count ≡ false = ground arith in rw (write_loop, n) refl
write_loop-end (suc fuel) all buf count first left w e =
    let n : ltb w.bytes_written count ≡ false = ground arith in rw (write_loop, n) refl

write_loop-next :
    (fuel : ℕ) (all buf : ℕ → ℕ) (count : ℕ) (first : Bool) (left rest : ℕ) (w : Progress)
    → ltb w.bytes_written count ≡ true
    → sub32 left (chunk_of w.i_size left) ≡ rest
    → write_loop (suc fuel) all buf count first left w
      ≡ write_loop fuel all buf count false rest
          (write_chunk all buf first (chunk_of w.i_size left) w)
unfolding write_loop
write_loop-next fuel all buf count first left rest w more e = rw (write_loop, more, e) refl

-- Where the blocks of the file from `base` on lie in different sectors, the loop of file_write ends after
-- as many bytes as are left. The bytes of the file are then those from before with the ones of the
-- buffer behind them, across all blocks; the size and fd_pos have moved on by that many, and no sector
-- of another block has changed.
pub write_loop-Appends :
    (fuel : ℕ) (all buf : ℕ → ℕ) (base count : ℕ) (first : Bool) (left : ℕ) (w : Progress)
    → w.bytes_written + left ≡ count
    → left ≤ fuel
    → count < u32_mod
    → w.fd_pos < u32_mod
    → w.i_size + left < u32_mod
    → MayBegin first w.i_size left
    → AreApart all base (w.i_size + left)
    → base * 512 ≤ w.i_size
    → (w' : Progress) × (write_loop fuel all buf count first left w ≡ done w')
      × Appends all buf base left w w'
unfolding write_loop
write_loop-Appends fuel all buf base count first zero w e enough c f s whole apart from_base = (
  w,
  write_loop-end fuel all buf count first 0 w (omega (arith, e)),
  Appends-none all buf base w f,
)
write_loop-Appends zero all buf base count first (suc left) w e enough c f s whole apart from_base =
    absurd (omega (arith, enough))
write_loop-Appends (suc fuel) all buf base count first (suc left) w e enough c f s whole apart
      from_base =
    let n = chunk_of w.i_size (suc left) in
    let bounds : (w.i_size % 512 + n ≤ 512)
        × (0 < n)
        × (n ≤ suc left)
        × ((suc left - n ≡ 0) ⊎ ((w.i_size + n) % 512 ≡ 0)) =
      ground arith in
    let more : ltb w.bytes_written count ≡ true = lt→ltb w.bytes_written count (omega arith) in
    let rest : sub32 (suc left) n ≡ suc left - n = omega arith in
    let size : add32 w.i_size n ≡ w.i_size + n = omega arith in
    let begun : (first ≡ true) ⊎ (w.i_size % 512 ≡ 0) = elim whole [
      | inl z ↦ absurd (omega (arith, z))
      | inr x ↦ x
    ] in
    let next : MayBegin false (add32 w.i_size n) (suc left - n) = elim (bounds.3) [
      | inl z ↦ inl z
      | inr z ↦ inr (inr (ap (λ x. x % 512) size ∙ z))
    ] in
    let (w', run, r) =
      write_loop-Appends fuel all buf base count false (suc left - n)
        (write_chunk all buf first n w) (omega arith) (omega arith) c (omega arith) (omega arith)
        next (λ a b ga gb la lb. apart a b ga gb (omega arith) (omega arith)) (omega arith) in
    (
      w',
      write_loop-next fuel all buf count first (suc left) (suc left - n) w more rest ∙ run,
      Appends-chunk all buf base first n (suc left) w w' (bounds.1) (bounds.2) (bounds.0) s
          (omega arith) begun apart from_base r,
    )
