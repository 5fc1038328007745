-- ===== src/Base/Machine.antt =====
-- Machine words, memory as a function from addresses to cells, and runs that a failed ASSERT ends.
use Prim.Native.Nat.{ℕ, ◌+◌, ◌-◌, ◌%◌, ◌^◌}
use mathlib.Core.Bool.{Bool, true, false}
use mathlib.Core.Option.{Option, none, some}
use mathlib.Core.Path.{◌≡◌}
use enix.Base.Tests.{◌==◌, if◌then◌else◌}

-- uint32_t and int arithmetic on non-negative values: the sum and the difference modulo 2 ^ 32.
abbrev pub u32_mod : ℕ
u32_mod = 2 ^ 32

abbrev pub add32 : ℕ → ℕ → ℕ
add32 a b = (a + b) % u32_mod

abbrev pub sub32 : ℕ → ℕ → ℕ
sub32 a b = (a + u32_mod - b) % u32_mod

-- A write of one cell.
abbrev pub update {ℓ} : {A : Type ℓ} → (ℕ → A) → ℕ → A → ℕ → A
update m a v i = if i == a then v else m i

-- `panicked` is a failed ASSERT or a PANIC: panic_spin() prints and never returns. `spins` is a loop
-- that did not end within the rounds that it was given.
pub data Run {ℓ} (A : Type ℓ) : Type ℓ where
  done : A → Run A
  panicked : Run A
  spins : Run A

infixl 5 ◌>>=◌ ◌>>◌
abbrev pub ◌>>=◌ {ℓ κ} : {A : Type ℓ} {B : Type κ} → Run A → (A → Run B) → Run B
done a >>= f = f a
panicked >>= f = panicked
spins >>= f = spins

abbrev pub ◌>>◌ {ℓ} : {B : Type ℓ} → Run (Unit {0}) → Run B → Run B
m >> k = m >>= λ _. k

-- ASSERT(condition)
abbrev pub assert : Bool → Run (Unit {0})
assert true = done tt
assert false = panicked

-- The result of a loop on fuel.
abbrev pub ended {ℓ} : {A : Type ℓ} → Option A → Run A
ended none = spins
ended (some a) = done a

pub done-injective {ℓ} : {A : Type ℓ} {a b : A} → done a ≡ done b → a ≡ b
done-injective e = cc
