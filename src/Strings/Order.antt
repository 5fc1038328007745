-- ===== src/Strings/Order.antt =====
-- strcmp and strchrs: the order of two strings, and how often a byte stands in one.
use enix.Base.{
  ℕ, zero, suc, ◌+◌, ◌≤◌, ◌<◌, ◌≡◌, refl, ◌∙◌, ◌≢◌, ◌↔◌, true, false, not, ◌&&◌, arith, ◌==◌,
  if◌then◌else◌, done, ℕ_discrete, some, List, [], ◌∷◌, length, ap, sym, subst, Bool-cases, inl,
  inr, add32, u32_mod,
}
use enix.Strings.{
  Memory, Sign, nought, plus, minus, char_lt, char_eq_u8, strcmp_loop, strcmp, strchrs_loop,
  strchrs, IsString,
}

-- The order of two strings by their first difference, as signed chars; the end of a string counts
-- as the char 0.
abbrev pub compare : List ℕ → List ℕ → Sign
compare [] [] = nought
compare [] (d ∷ t) = if char_lt 0 d then minus else plus
compare (c ∷ s) [] = if char_lt c 0 then minus else plus
compare (c ∷ s) (d ∷ t) =
    let rest = compare s t in if c == d then rest else (if char_lt c d then minus else plus)

char_lt-total : (c d : ℕ) → c < 256 → d < 256 → c ≢ d → char_lt c d ≡ false → char_lt d c ≡ true
char_lt-total c d bc bd ne f = ground arith

strcmp_loop-compare :
    (fuel : ℕ) (m : Memory) (a b : ℕ) (s t : List ℕ)
    → ((x : ℕ) → m x < 256)
    → IsString m a s
    → IsString m b t
    → length s < fuel
    → strcmp_loop fuel m a b ≡ some (compare s t)
unfolding strcmp_loop
strcmp_loop-compare zero m a b s t bytes hs ht k = absurd (omega arith)
strcmp_loop-compare (suc fuel) m a b [] [] bytes hs ht k = rw (hs, ht) refl
strcmp_loop-compare (suc fuel) m a b [] (d ∷ t) bytes hs (e, ne, rest) k =
    let bd : d < 256 = subst (λ x. x < 256) e (bytes b) in
    rw (hs, e)
      (elim (Bool-cases (char_lt 0 d)) [
        | inl y ↦ rw y refl
        | inr n ↦
            let g : char_lt d 0 ≡ true = char_lt-total 0 d (omega arith) bd (λ q. ne (sym q)) n in
            rw (n, g) refl
      ])
strcmp_loop-compare (suc fuel) m a b (c ∷ s) [] bytes (e, ne, rest) ht k =
    let bc : c < 256 = subst (λ x. x < 256) e (bytes a) in
    let z : (not (c == 0) && (c == 0)) ≡ false = ground arith in
    rw (ht, e, z)
      (elim (Bool-cases (char_lt c 0)) [
        | inl y ↦ rw y refl
        | inr n ↦
            let g : char_lt 0 c ≡ true = char_lt-total c 0 bc (omega arith) ne n in rw (n, g) refl
      ])
strcmp_loop-compare (suc fuel) m a b (c ∷ s) (d ∷ t) bytes (e, ne, hs) (e', ne', ht) k =
    let bc : c < 256 = subst (λ x. x < 256) e (bytes a) in
    let bd : d < 256 = subst (λ x. x < 256) e' (bytes b) in
    rw (e, e')
      (elim (ℕ_discrete c d) [
        | yes same ↦
            let y : (c == d) ≡ true = ground arith in
            let z : (c == 0) ≡ false = ground arith in
            rw (z, y) (strcmp_loop-compare fuel m (a + 1) (b + 1) s t bytes hs ht (omega arith))
        | no other ↦
            let n : (c == d) ≡ false = ground arith in
            let z : (c == 0) ≡ false = ground arith in
            rw (z, n)
              (elim (Bool-cases (char_lt c d)) [
                | inl l ↦ rw l refl
                | inr g ↦
                    let h : char_lt d c ≡ true = char_lt-total c d bc bd other g in rw (g, h) refl
              ])
      ])

compare_self : (s : List ℕ) → compare s s ≡ nought
compare_self [] = refl
compare_self (c ∷ s) = let y : (c == c) ≡ true = ground arith in rw y (compare_self s)

compare-nought : (s t : List ℕ) → compare s t ≡ nought → s ≡ t
compare-nought [] [] h = refl
compare-nought [] (d ∷ t) h = absurd (ground arith)
compare-nought (c ∷ s) [] h = absurd (ground arith)
compare-nought (c ∷ s) (d ∷ t) h = elim (ℕ_discrete c d) [
  | yes same ↦ let same' : s ≡ t = compare-nought s t (ground (arith, h)) in cc
  | no other ↦ absurd (ground arith)
]

-- strcmp of two strings of bytes that do not stand at NULL runs to its end and returns their order by
-- the first difference, as signed chars; it returns 0 exactly for equal strings.
pub strcmp-compare :
    (fuel : ℕ) (m : Memory) (a b : ℕ) (s t : List ℕ)
    → a ≢ 0
    → b ≢ 0
    → ((x : ℕ) → m x < 256)
    → IsString m a s
    → IsString m b t
    → length s < fuel
    → (strcmp fuel m a b ≡ done (compare s t)) × ((compare s t ≡ nought) ↔ (s ≡ t))
unfolding strcmp
strcmp-compare fuel m a b s t na nb bytes hs ht k =
    let g : (not (a == 0) && not (b == 0)) ≡ true = ground arith in
    (
      rw (g, strcmp_loop-compare fuel m a b s t bytes hs ht k) refl,
      (compare-nought s t, λ e. subst (λ u. compare s u ≡ nought) e (compare_self s)),
    )

-- How often a number stands in a list.
abbrev pub count : ℕ → List ℕ → ℕ
count ch [] = 0
count ch (c ∷ s) = let rest = count ch s in if ch == c then suc rest else rest

strchrs_loop-count :
    (fuel : ℕ) (m : Memory) (p : ℕ) (s : List ℕ) (ch before : ℕ)
    → ch < 128
    → IsString m p s
    → length s < fuel
    → before + length s < u32_mod
    → strchrs_loop fuel m p ch before ≡ some (before + count ch s)
unfolding strchrs_loop
strchrs_loop-count zero m p s ch before b h k small = absurd (omega arith)
strchrs_loop-count (suc fuel) m p [] ch before b h k small =
    let q : before ≡ before + 0 = omega arith in rw h (ap some q)
strchrs_loop-count (suc fuel) m p (c ∷ s) ch before b (e, ne, rest) k small =
    let z : (c == 0) ≡ false = ground arith in
    elim (ℕ_discrete ch c) [
      | yes same ↦
          let t : char_eq_u8 c ch ≡ true = ground arith in
          let y : (ch == c) ≡ true = ground arith in
          let one : add32 before 1 ≡ before + 1 = omega arith in
          let q : before + 1 + count ch s ≡ before + suc (count ch s) = omega arith in
          rw (e, z, t, y, one)
            (strchrs_loop-count fuel m (p + 1) s ch (before + 1) b rest (omega arith) (omega arith)
              ∙ ap some q)
      | no other ↦
          let f : char_eq_u8 c ch ≡ false = ground arith in
          let g : (ch == c) ≡ false = ground arith in
          rw (e, z, f, g)
            (strchrs_loop-count fuel m (p + 1) s ch before b rest (omega arith) (omega arith))
    ]

-- strchrs of a string of fewer than 2 ^ 32 bytes that does not stand at NULL, and of a byte below 128,
-- runs to its end and returns how often the byte stands in the string.
strchrs-count :
    (fuel : ℕ) (m : Memory) (p : ℕ) (s : List ℕ) (ch : ℕ)
    → p ≢ 0
    → ch < 128
    → IsString m p s
    → length s < fuel
    → length s < u32_mod
    → strchrs fuel m p ch ≡ done (count ch s)
unfolding strchrs
strchrs-count fuel m p s ch np b h k small =
    let t : (not (p == 0)) ≡ true = ground arith in
    rw (t, strchrs_loop-count fuel m p s ch 0 b h k (omega arith)) (ap done (omega arith))

strchrs_loop-high :
    (fuel : ℕ) (m : Memory) (p : ℕ) (s : List ℕ) (ch before : ℕ)
    → 128 ≤ ch
    → IsString m p s
    → length s < fuel
    → strchrs_loop fuel m p ch before ≡ some before
unfolding strchrs_loop
strchrs_loop-high zero m p s ch before b h k = absurd (omega arith)
strchrs_loop-high (suc fuel) m p [] ch before b h k = rw h refl
strchrs_loop-high (suc fuel) m p (c ∷ s) ch before b (e, ne, rest) k =
    let z : (c == 0) ≡ false = ground arith in
    let f : char_eq_u8 c ch ≡ false = ground arith in
    rw (e, z, f) (strchrs_loop-high fuel m (p + 1) s ch before b rest (omega arith))

-- strchrs never counts a byte from 128 on: whatever the string, it returns 0, since the chars of the
-- string are signed and the byte that it looks for is not.
strchrs-high :
    (fuel : ℕ) (m : Memory) (p : ℕ) (s : List ℕ) (ch : ℕ)
    → p ≢ 0
    → 128 ≤ ch
    → IsString m p s
    → length s < fuel
    → strchrs fuel m p ch ≡ done 0
unfolding strchrs
strchrs-high fuel m p s ch np b h k =
    let t : (not (p == 0)) ≡ true = ground arith in
    rw (t, strchrs_loop-high fuel m p s ch 0 b h k) refl
