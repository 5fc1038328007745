-- ===== src/Stdio/Numerals.antt =====
-- The numerals that itoa writes, and reading them back.
use enix.Base.{
  ℕ, zero, suc, ◌+◌, ◌-◌, ◌*◌, ◌/◌, ◌%◌, ◌≡◌, ◌≢◌, ◌≤◌, ◌<◌, refl, ◌∙◌, ap, sym, List, [], ◌∷◌,
  ◌++◌, arith, ltb, if◌then◌else◌, Run, done,
}
use native.Mathlib.Nat.{div-add-mod', mod-lt, mul-div-le, mul-le-mul_right}
use enix.Stdio.{Writer, emit, digit, itoa_call, itoa}

-- Several bytes one after the other.
abbrev pub emit_all : List ℕ → Writer → Writer
emit_all [] w = w
emit_all (c ∷ cs) w = emit_all cs (emit c w)

pub emit_all-append :
    (cs ds : List ℕ) (w : Writer) → emit_all (cs ++ ds) w ≡ emit_all ds (emit_all cs w)
emit_all-append [] ds w = refl
emit_all-append (c ∷ cs) ds w = emit_all-append cs ds (emit c w)

-- The value of a digit, and of a numeral with `acc` in front of it.
abbrev pub digit_value : ℕ → ℕ
digit_value c = if ltb c 58 then c - 48 else c - 65 + 10

abbrev pub read_numeral : ℕ → ℕ → List ℕ → ℕ
read_numeral base acc [] = acc
read_numeral base acc (c ∷ cs) = read_numeral base (acc * base + digit_value c) cs

read_numeral-append :
    (base acc : ℕ) (cs ds : List ℕ)
    → read_numeral base acc (cs ++ ds) ≡ read_numeral base (read_numeral base acc cs) ds
read_numeral-append base acc [] ds = refl
read_numeral-append base acc (c ∷ cs) ds =
    read_numeral-append base (acc * base + digit_value c) cs ds

digit_value-digit : (m : ℕ) → m < 16 → digit_value (digit m) ≡ m
digit_value-digit m h = ground arith

-- No 0 in front of other digits.
abbrev pub IsPlain : List ℕ → Type 0
IsPlain [] = ⊥
IsPlain (c ∷ []) = Unit {0}
IsPlain (c ∷ d ∷ cs) = c ≢ 48

IsPlain-append : (c : ℕ) (cs : List ℕ) → IsPlain cs → cs ≢ 48 ∷ [] → IsPlain (cs ++ c ∷ [])
IsPlain-append c [] p ne = absurd p
IsPlain-append c (d ∷ []) p ne = λ e. ne (ap (λ x. x ∷ []) e)
IsPlain-append c (d ∷ x ∷ cs) p ne = p

-- The numeral of a value, by the digits left.
abbrev pub numeral_call : ℕ → ℕ → ℕ → List ℕ
numeral_call zero value base = []
numeral_call (suc fuel) value base = elim (value / base) [
  | zero ↦ digit (value % base) ∷ []
  | suc i ↦ numeral_call fuel (suc i) base ++ digit (value % base) ∷ []
]

abbrev pub numeral : ℕ → ℕ → List ℕ
numeral value base = numeral_call (value + 1) value base

-- A run of itoa wrote the digits `cs`, a plain numeral of the value.
abbrev pub Writes : ℕ → ℕ → Writer → List ℕ → Run Writer → Type 0
Writes base value w cs result =
    (result ≡ done (emit_all cs w)) × (read_numeral base 0 cs ≡ value) × IsPlain cs

last_digit :
    (base value q : ℕ)
    → 2 ≤ base
    → base ≤ 16
    → value / base ≡ q
    → q * base + digit_value (digit (value % base)) ≡ value
last_digit base value q lo hi e =
    let small : value % base < base = mod-lt value (omega arith) in
    let d = digit_value-digit (value % base) (omega (arith, small)) in
    ap (λ x. q * base + x) d ∙ ap (λ x. x * base + value % base) (sym e) ∙ div-add-mod' value base

itoa_call-step :
    (fuel value base q : ℕ) (w : Writer)
    → 2 ≤ base
    → base ≤ 16
    → value / base ≡ q
    → ((i : ℕ) → q ≡ suc i → Writes base q w (numeral_call fuel q base) (itoa_call fuel q base w))
    → Writes base value w (numeral_call (suc fuel) value base) (itoa_call (suc fuel) value base w)
unfolding itoa_call
itoa_call-step fuel value base zero w lo hi e below =
    let d = digit (value % base) in
    rw (e, itoa_call, numeral_call) (refl, last_digit base value 0 lo hi e, tt)
itoa_call-step fuel value base (suc i) w lo hi e below =
    let d = digit (value % base) in
    let (e2, v, p) = below i refl in
    let cs = numeral_call fuel (suc i) base in
    rw (e, itoa_call, numeral_call, e2)
      (
        ap done (sym (emit_all-append cs (d ∷ []) w)),
        read_numeral-append base 0 cs (d ∷ [])
            ∙ ap (λ x. x * base + digit_value d) v
            ∙ last_digit base value (suc i) lo hi e,
        IsPlain-append d cs p (λ z. absurd (omega (arith, v, ap (read_numeral base 0) z))),
      )

-- A quotient that is not 0 is less than the number.
quotient_lt :
    (value base fuel i : ℕ)
    → 2 ≤ base
    → value < suc fuel
    → value / base ≡ suc i
    → value / base < fuel
quotient_lt value base fuel i lo h e =
    let twice : 2 * (value / base) ≤ base * (value / base) = mul-le-mul_right (value / base) lo in
    omega (arith, e, h, twice, mul-div-le value base)

itoa_call_lem :
    (fuel value base : ℕ) (w : Writer)
    → value < fuel
    → 2 ≤ base
    → base ≤ 16
    → Writes base value w (numeral_call fuel value base) (itoa_call fuel value base w)
itoa_call_lem zero value base w h lo hi = absurd (omega arith)
itoa_call_lem (suc fuel) value base w h lo hi =
    itoa_call-step fuel value base (value / base) w lo hi refl
      (λ i e. itoa_call_lem fuel (value / base) base w (quotient_lt value base fuel i lo h e) lo hi)

-- itoa in a base from 2 to 16 ends and writes the numeral of the value: digits that read in that base give the value
-- back, without a 0 in front of another digit.
pub itoa_lem :
    (value base : ℕ) (w : Writer)
    → 2 ≤ base
    → base ≤ 16
    → Writes base value w (numeral value base) (itoa value base w)
unfolding itoa
itoa_lem value base w lo hi = itoa_call_lem (value + 1) value base w (omega arith) lo hi
