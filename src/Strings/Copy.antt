-- ===== src/Strings/Copy.antt =====
-- strcpy and strcat: the string that stands at the destination afterwards, and what is as before.
use enix.Base.{
  ℕ, zero, suc, ◌+◌, ◌-◌, ◌≤◌, ◌<◌, ◌≡◌, refl, ◌∙◌, ◌≢◌, ◌⊎◌, inl, true, false, not, ◌&&◌, arith,
  ◌==◌, update, done, some, List, [], ◌∷◌, length, ◌++◌, subst,
}
use enix.Strings.{Memory, copy_string, strcpy, strcat, IsString}
use enix.Strings.Scan.{end_loop-length}

-- The memory is changed at most at the `n` addresses from `p` on.
abbrev pub ChangedWithin : Memory → Memory → ℕ → ℕ → Type 0
ChangedWithin m m' p n = (a : ℕ) → (a < p) ⊎ (p + n ≤ a) → m' a ≡ m a

IsString-frame :
    (m m' : Memory) (p : ℕ) (s : List ℕ)
    → IsString m p s
    → ((a : ℕ) → p ≤ a → a ≤ p + length s → m' a ≡ m a)
    → IsString m' p s
IsString-frame m m' p [] h same = same p (omega arith) (omega arith) ∙ h
IsString-frame m m' p (c ∷ s) (e, ne, rest) same = (
  same p (omega arith) (omega arith) ∙ e,
  ne,
  IsString-frame m m' (p + 1) s rest (λ a h k. same a (omega arith) (omega arith)),
)

copy_string-IsString :
    (fuel : ℕ) (m : Memory) (dst src : ℕ) (s : List ℕ)
    → IsString m src s
    → length s < fuel
    → (dst < src) ⊎ (src + length s < dst)
    → (m' : Memory) × (copy_string fuel m dst src ≡ some m')
      × IsString m' dst s
      × ChangedWithin m m' dst (length s + 1)
unfolding copy_string
copy_string-IsString zero m dst src s h k apart = absurd (omega arith)
copy_string-IsString (suc fuel) m dst src [] h k apart =
    let z : (m src == 0) ≡ true = ground arith in
    (update m dst (m src), rw z refl, ground (arith, h), λ a o. ground arith)
copy_string-IsString (suc fuel) m dst src (c ∷ s) (e, ne, rest) k apart =
    let m1 = update m dst (m src) in
    let z : (m src == 0) ≡ false = ground arith in
    let moved : IsString m1 (src + 1) s =
      IsString-frame m m1 (src + 1) s rest (λ a p q. ground arith) in
    let (m2, run, there, same) =
      copy_string-IsString fuel m1 (dst + 1) (src + 1) s moved (omega arith) (ground arith) in
    let first : m2 dst ≡ c = same dst (inl (omega arith)) ∙ ground arith in
    (m2, rw z run, (first, ne, there), λ a o. same a (ground arith) ∙ ground arith)

-- strcpy of a string to a destination that does not lie inside it runs to its end; afterwards the
-- string stands at the destination, and all other addresses hold what they held.
strcpy-IsString :
    (fuel : ℕ) (m : Memory) (dst src : ℕ) (s : List ℕ)
    → dst ≢ 0
    → src ≢ 0
    → IsString m src s
    → length s < fuel
    → (dst < src) ⊎ (src + length s < dst)
    → (m' : Memory) × (strcpy fuel m dst src ≡ done m')
      × IsString m' dst s
      × ChangedWithin m m' dst (length s + 1)
unfolding strcpy
strcpy-IsString fuel m dst src s nd ns h k apart =
    let t : (not (dst == 0) && not (src == 0)) ≡ true = ground arith in
    let (m', run, there, same) = copy_string-IsString fuel m dst src s h k apart in
    (m', rw (t, run) refl, there, same)

IsString-append :
    (m m' : Memory) (p : ℕ) (s t : List ℕ)
    → IsString m p s
    → IsString m' (p + length s) t
    → ((a : ℕ) → a < p + length s → m' a ≡ m a)
    → IsString m' p (s ++ t)
IsString-append m m' p [] t h k same = subst (λ q. IsString m' q t) (omega arith) k
IsString-append m m' p (c ∷ s) t (e, ne, rest) k same = (
  same p (omega arith) ∙ e,
  ne,
  IsString-append m m' (p + 1) s t rest (subst (λ q. IsString m' q t) (omega arith) k)
      (λ a h. same a (omega arith)),
)

-- strcat of two strings, where the bytes that it writes lie apart from the second one, runs to its end;
-- afterwards the two strings stand one behind the other at the destination, and all addresses but
-- those behind the first string hold what they held.
pub strcat-IsString :
    (fuel : ℕ) (m : Memory) (dst src : ℕ) (s t : List ℕ)
    → dst ≢ 0
    → src ≢ 0
    → IsString m dst s
    → IsString m src t
    → length s < fuel
    → length t < fuel
    → (dst + length s < src) ⊎ (src + length t < dst + length s)
    → (m' : Memory) × (strcat fuel m dst src ≡ done m')
      × IsString m' dst (s ++ t)
      × ChangedWithin m m' (dst + length s) (length t + 1)
unfolding strcat
strcat-IsString fuel m dst src s t nd ns hs ht ks kt apart =
    let b : (not (dst == 0) && not (src == 0)) ≡ true = ground arith in
    let back : dst + length s + 1 - 1 ≡ dst + length s = omega arith in
    let (m', run, there, same) = copy_string-IsString fuel m (dst + length s) src t ht kt apart in
    (
      m',
      rw (b, end_loop-length fuel m dst s hs ks, back, run) refl,
      IsString-append m m' dst s t hs there (λ a h. same a (inl h)),
      same,
    )
