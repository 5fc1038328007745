-- ===== src/Base/Membership.antt =====
-- Membership of a number in a list as a test, and lists without repetition.
use Prim.Native.Nat.{ℕ, suc, ◌≤◌}
use enix.Base.Lists.{length}
use mathlib.Core.Path.{◌≡◌, refl}
use mathlib.Core.Logic.{◌≢◌}
use mathlib.Core.Bool.{Bool, true, false, ◌||◌}
use mathlib.Core.List.{List, [], ◌∷◌, ◌++◌}
use native.Mathlib.Omega.{arith}
use enix.Base.Tests.{◌==◌, if◌then◌else◌}

abbrev pub has : ℕ → List ℕ → Bool
has a [] = false
has a (x ∷ xs) = (a == x) || has a xs

abbrev pub Distinct : List ℕ → Type 0
Distinct [] = Unit {0}
Distinct (x ∷ xs) = (has x xs ≡ false) × Distinct xs

pub has-append : (a : ℕ) (xs ys : List ℕ) → has a (xs ++ ys) ≡ (has a xs || has a ys)
has-append a [] ys = refl
has-append a (x ∷ xs) ys = ground (arith, has-append a xs ys)

pub Distinct-append :
    (xs ys : List ℕ)
    → Distinct (xs ++ ys)
    → Distinct xs × Distinct ys × ((a : ℕ) → has a xs ≡ true → has a ys ≡ false)
Distinct-append [] ys d = (tt, d, λ a h. ground arith)
Distinct-append (x ∷ xs) ys d =
    let (dx, dy, apart) = Distinct-append xs ys d.1 in
    let h = has-append x xs ys in ((ground arith, dx), dy, λ a i. ground (arith, apart a))

pub Distinct-insert :
    (xs ys : List ℕ) (e : ℕ)
    → Distinct (xs ++ ys)
    → has e (xs ++ ys) ≡ false
    → Distinct (xs ++ e ∷ ys)
Distinct-insert [] ys e d h = (h, d)
Distinct-insert (x ∷ xs) ys e d h =
    let p = has-append x xs ys in
    let q = has-append x xs (e ∷ ys) in (ground arith, Distinct-insert xs ys e d.1 (ground arith))

pub Distinct-erase :
    (xs ys : List ℕ) (e : ℕ)
    → Distinct (xs ++ e ∷ ys)
    → Distinct (xs ++ ys) × (has e (xs ++ ys) ≡ false)
Distinct-erase [] ys e d = (d.1, d.0)
Distinct-erase (x ∷ xs) ys e d =
    let p = has-append x xs ys in
    let q = has-append x xs (e ∷ ys) in
    let (d', h) = Distinct-erase xs ys e d.1 in ((ground arith, d'), ground arith)

pub ne_of_has : (x y : ℕ) (l : List ℕ) → has x l ≡ true → has y l ≡ false → x ≢ y
ne_of_has x y [] h k = ground arith
ne_of_has x y (z ∷ l) h k =
    λ e. ground (arith, λ (i : has x l ≡ true) (j : has y l ≡ false). ne_of_has x y l i j e)

-- A list without repetition is no longer than any list that has all its members.
module _ (x : ℕ) where
  abbrev erase : List ℕ → List ℕ
  erase [] = []
  erase (y ∷ l) = if x == y then l else y ∷ erase l

  length-erase : (l : List ℕ) → has x l ≡ true → suc (length (erase l)) ≡ length l
  length-erase [] h = ground arith
  length-erase (y ∷ l) h = ground (arith, length-erase l)

  has-erase : (t : ℕ) (l : List ℕ) → t ≢ x → has t l ≡ true → has t (erase l) ≡ true
  has-erase t [] ne h = h
  has-erase t (y ∷ l) ne h = ground (arith, has-erase t l ne)

pub length-le_of_has :
    (q l : List ℕ) → Distinct q → ((t : ℕ) → has t q ≡ true → has t l ≡ true) → length q ≤ length l
length-le_of_has [] l d sub = omega arith
length-le_of_has (x ∷ q) l d sub =
    let here : has x l ≡ true = sub x (ground arith) in
    let rest =
      length-le_of_has q (erase x l) d.1
        (λ t h. has-erase x t l (ne_of_has t x q h d.0) (sub t (ground arith))) in
    omega (arith, length-erase x l here, rest)
