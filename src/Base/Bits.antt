-- ===== src/Base/Bits.antt =====
-- The bitwise or of a number whose low bits are 0 and a number below: their sum.
use Prim.Native.Nat.{
  ℕ, zero, suc, ◌+◌, ◌*◌, ◌/◌, ◌%◌, ◌≤◌, ◌<◌, max, bit_or, digits, bit_or-bitwise,
}
use mathlib.Core.Path.{◌≡◌, refl, sym, ◌∙◌}
use native.Mathlib.Omega.{arith}

abbrev or_digits : ℕ → ℕ → ℕ → ℕ
or_digits fuel a b = digits (λ d. d) max fuel a b

or_digits_none : (k b : ℕ) → or_digits k 0 b ≡ b
or_digits_none zero b = refl
or_digits_none (suc k) b = refl

-- More digits than the first number has change nothing.
or_digits_enough : (k l a b : ℕ) → a ≤ k → a ≤ l → or_digits k a b ≡ or_digits l a b
or_digits_enough k l zero b p q = or_digits_none k b ∙ sym (or_digits_none l b)
or_digits_enough zero l (suc a) b p q = absurd (omega arith)
or_digits_enough (suc k) zero (suc a) b p q = absurd (omega arith)
or_digits_enough (suc k) (suc l) (suc a) b p q =
    omega (arith, or_digits_enough k l (suc a / 2) (b / 2) (omega arith) (omega arith))

pub zero-bit_or : (b : ℕ) → bit_or 0 b ≡ b
zero-bit_or b = bit_or-bitwise 0 b

-- The lowest digit apart from the others.
pub bit_or-split : (a b : ℕ) → bit_or a b ≡ bit_or (a / 2) (b / 2) * 2 + max (a % 2) (b % 2)
bit_or-split zero b = omega (arith, zero-bit_or b, zero-bit_or (b / 2))
bit_or-split (suc a) b = omega (
  arith,
  bit_or-bitwise (suc a) b,
  bit_or-bitwise (suc a / 2) (b / 2),
  or_digits_enough a (suc a / 2) (suc a / 2) (b / 2) (omega arith) (omega arith),
)

bit_or-nothing : (fuel a : ℕ) → a ≤ fuel → bit_or a 0 ≡ a
bit_or-nothing fuel zero h = zero-bit_or 0
bit_or-nothing zero (suc a) h = absurd (omega arith)
bit_or-nothing (suc fuel) (suc a) h =
    omega (arith, bit_or-split (suc a) 0, bit_or-nothing fuel (suc a / 2) (omega arith))

-- Three free digits.
pub bit_or-flags : (q flags : ℕ) → flags < 8 → bit_or (q * 8) flags ≡ q * 8 + flags
bit_or-flags q flags h = omega (
  arith,
  bit_or-split (q * 8) flags,
  bit_or-split (q * 8 / 2) (flags / 2),
  bit_or-split (q * 8 / 2 / 2) (flags / 2 / 2),
  bit_or-nothing q q (omega arith),
  e,
  z,
)
  where
    e : bit_or (q * 8 / 2 / 2 / 2) (flags / 2 / 2 / 2) ≡ bit_or q 0
    e =
        let a : q * 8 / 2 / 2 / 2 ≡ q = omega arith in
        let b : flags / 2 / 2 / 2 ≡ 0 = omega arith in rw (a, b) refl

    z : bit_or q 0 ≡ q
    z = bit_or-nothing q q (omega arith)
