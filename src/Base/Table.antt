-- ===== src/Base/Table.antt =====
-- Facts about bytes, by evaluation at every value.
use Prim.Native.Nat.{ℕ, zero, suc, ◌<◌}
use mathlib.Core.Path.{◌≡◌}
use mathlib.Core.Bool.{Bool, true, ◌&&◌}
use native.Mathlib.Omega.{arith}

-- Does the test pass at every number below the bound?
unfoldable pub for_all_lt : (ℕ → Bool) → ℕ → Bool
for_all_lt test zero = true
for_all_lt test (suc bound) = for_all_lt test bound && test bound

pub for_all_lt_lem :
    (test : ℕ → Bool) (bound i : ℕ) → i < bound → for_all_lt test bound ≡ true → test i ≡ true
unfolding for_all_lt
for_all_lt_lem test zero i lt t = elim lt [ ]
for_all_lt_lem test (suc bound) i lt t = ground (arith, for_all_lt_lem test bound i)
