-- ===== src/Strings/Scan.antt =====
-- strlen, strcmp, strchr, strrchr and strchrs: what they find in a string.
use enix.Base.{
  ℕ, zero, suc, ◌+◌, ◌-◌, ◌<◌, ◌≡◌, refl, ◌∙◌, ◌≢◌, ◌⊎◌, inl, inr, true, false, not, arith, ◌==◌,
  done, ℕ_discrete, some, List, [], ◌∷◌, length, has, ◌++◌, ap, sym,
}
use enix.Strings.{
  Memory, char_eq_u8, end_loop, strlen, strchr_loop, strchr, strrchr_loop, strrchr, IsString,
}

pub end_loop-length :
    (fuel : ℕ) (m : Memory) (p : ℕ) (s : List ℕ)
    → IsString m p s
    → length s < fuel
    → end_loop fuel m p ≡ some (p + length s + 1)
unfolding end_loop
end_loop-length zero m p s h k = absurd (omega arith)
end_loop-length (suc fuel) m p [] h k =
    let z : (m p == 0) ≡ true = ground arith in
    let q : p + 1 ≡ p + 0 + 1 = omega arith in rw z (ap some q)
end_loop-length (suc fuel) m p (c ∷ s) h k =
    let (e, ne, rest) = h in
    let z : (m p == 0) ≡ false = ground arith in
    let q : p + 1 + length s + 1 ≡ p + suc (length s) + 1 = omega arith in
    rw z (end_loop-length fuel m (p + 1) s rest (omega arith) ∙ ap some q)

-- strlen of a string that does not stand at NULL runs to its end, and the result is the number of the
-- string's bytes.
pub strlen-length :
    (fuel : ℕ) (m : Memory) (p : ℕ) (s : List ℕ)
    → p ≢ 0
    → IsString m p s
    → length s < fuel
    → strlen fuel m p ≡ done (length s)
unfolding strlen
strlen-length fuel m p s np h k =
    let t : (not (p == 0)) ≡ true = ground arith in
    let q : p + length s + 1 - p - 1 ≡ length s = omega arith in
    rw (t, end_loop-length fuel m p s h k) (ap done q)

-- `r` is where the byte `ch` stands first in the string at `p`, or NULL when it does not stand there.
abbrev pub FirstByte : ℕ → List ℕ → ℕ → ℕ → Type 0
FirstByte p s ch r =
    ((r ≡ 0) × (has ch s ≡ false))
    ⊎ ((u : List ℕ) × (v : List ℕ) × (s ≡ u ++ ch ∷ v) × (has ch u ≡ false) × (r ≡ p + length u))

FirstByte-later :
    (p c : ℕ) (s : List ℕ) (ch r : ℕ)
    → (ch == c) ≡ false
    → FirstByte (p + 1) s ch r
    → FirstByte p (c ∷ s) ch r
FirstByte-later p c s ch r ne (inl (z, n)) = inl (z, ground (arith, ne, n))
FirstByte-later p c s ch r ne (inr (u, v, e, n, q)) =
    inr (c ∷ u, v, ap (λ l. c ∷ l) e, ground (arith, ne, n), omega (arith, q))

-- The comparison of a signed char with an unsigned byte is the one of the numbers, below 128.
char_eq_u8_lem : (c ch : ℕ) → ch < 128 → char_eq_u8 c ch ≡ (ch == c)
char_eq_u8_lem c ch b = ground arith

strchr_loop-FirstByte :
    (fuel : ℕ) (m : Memory) (p : ℕ) (s : List ℕ) (ch : ℕ)
    → ch < 128
    → IsString m p s
    → length s < fuel
    → (r : ℕ) × (strchr_loop fuel m p ch ≡ some r) × FirstByte p s ch r
unfolding strchr_loop
strchr_loop-FirstByte zero m p s ch b h k = absurd (omega arith)
strchr_loop-FirstByte (suc fuel) m p [] ch b h k =
    let z : (m p == 0) ≡ true = ground arith in (0, rw z refl, inl (refl, refl))
strchr_loop-FirstByte (suc fuel) m p (c ∷ s) ch b h k =
    let (e, ne, rest) = h in
    let z : (c == 0) ≡ false = ground arith in
    elim (ℕ_discrete ch c) [
      | yes same ↦
          let t : char_eq_u8 c ch ≡ true = ground arith in
          (p, rw (e, z, t) refl, inr ([], s, ap (λ x. x ∷ s) (sym same), refl, omega arith))
      | no other ↦
          let f : char_eq_u8 c ch ≡ false = ground arith in
          let g : (ch == c) ≡ false = ground arith in
          let (r, run, first) = strchr_loop-FirstByte fuel m (p + 1) s ch b rest (omega arith) in
          (r, rw (e, z, f) run, FirstByte-later p c s ch r g first)
    ]

-- strchr of a string that does not stand at NULL and of a byte below 128 runs to its end and returns
-- the address of the first such byte, or NULL when the string has none.
strchr-FirstByte :
    (fuel : ℕ) (m : Memory) (p : ℕ) (s : List ℕ) (ch : ℕ)
    → p ≢ 0
    → ch < 128
    → IsString m p s
    → length s < fuel
    → (r : ℕ) × (strchr fuel m p ch ≡ done r) × FirstByte p s ch r
unfolding strchr
strchr-FirstByte fuel m p s ch np b h k =
    let t : (not (p == 0)) ≡ true = ground arith in
    let (r, run, first) = strchr_loop-FirstByte fuel m p s ch b h k in (r, rw (t, run) refl, first)

-- `r` is where the byte `ch` stands last in the string at `p`, or `before` when it does not stand there.
abbrev pub LastByte : ℕ → List ℕ → ℕ → ℕ → ℕ → Type 0
LastByte p s ch before r =
    ((r ≡ before) × (has ch s ≡ false))
    ⊎ ((u : List ℕ) × (v : List ℕ) × (s ≡ u ++ ch ∷ v) × (has ch v ≡ false) × (r ≡ p + length u))

LastByte-later :
    (p c : ℕ) (s : List ℕ) (ch before r : ℕ)
    → (ch == c) ≡ false
    → LastByte (p + 1) s ch before r
    → LastByte p (c ∷ s) ch before r
LastByte-later p c s ch before r ne (inl (z, n)) = inl (z, ground (arith, ne, n))
LastByte-later p c s ch before r ne (inr (u, v, e, n, q)) =
    inr (c ∷ u, v, ap (λ l. c ∷ l) e, n, omega (arith, q))

LastByte-here :
    (p : ℕ) (s : List ℕ) (ch before r : ℕ)
    → LastByte (p + 1) s ch p r
    → LastByte p (ch ∷ s) ch before r
LastByte-here p s ch before r (inl (z, n)) = inr ([], s, refl, n, omega (arith, z))
LastByte-here p s ch before r (inr (u, v, e, n, q)) =
    inr (ch ∷ u, v, ap (λ l. ch ∷ l) e, n, omega (arith, q))

strrchr_loop-LastByte :
    (fuel : ℕ) (m : Memory) (p : ℕ) (s : List ℕ) (ch before : ℕ)
    → ch < 128
    → IsString m p s
    → length s < fuel
    → (r : ℕ) × (strrchr_loop fuel m p ch before ≡ some r) × LastByte p s ch before r
unfolding strrchr_loop
strrchr_loop-LastByte zero m p s ch before b h k = absurd (omega arith)
strrchr_loop-LastByte (suc fuel) m p [] ch before b h k =
    let z : (m p == 0) ≡ true = ground arith in (before, rw z refl, inl (refl, refl))
strrchr_loop-LastByte (suc fuel) m p (c ∷ s) ch before b h k =
    let (e, ne, rest) = h in
    let z : (c == 0) ≡ false = ground arith in
    elim (ℕ_discrete ch c) [
      | yes same ↦
          let t : char_eq_u8 c ch ≡ true = ground arith in
          let (r, run, last) = strrchr_loop-LastByte fuel m (p + 1) s ch p b rest (omega arith) in
          (r, rw (e, z, t) run, rw (sym same) (LastByte-here p s ch before r last))
      | no other ↦
          let f : char_eq_u8 c ch ≡ false = ground arith in
          let g : (ch == c) ≡ false = ground arith in
          let (r, run, last) =
            strrchr_loop-LastByte fuel m (p + 1) s ch before b rest (omega arith) in
          (r, rw (e, z, f) run, LastByte-later p c s ch before r g last)
    ]

-- strrchr of a string that does not stand at NULL and of a byte below 128 runs to its end and returns
-- the address of the last such byte, or NULL when the string has none.
strrchr-LastByte :
    (fuel : ℕ) (m : Memory) (p : ℕ) (s : List ℕ) (ch : ℕ)
    → p ≢ 0
    → ch < 128
    → IsString m p s
    → length s < fuel
    → (r : ℕ) × (strrchr fuel m p ch ≡ done r) × LastByte p s ch 0 r
unfolding strrchr
strrchr-LastByte fuel m p s ch np b h k =
    let t : (not (p == 0)) ≡ true = ground arith in
    let (r, run, last) = strrchr_loop-LastByte fuel m p s ch 0 b h k in (r, rw (t, run) refl, last)
