-- ===== src/Base/Lists.antt =====
-- Lists measured and indexed by native numbers, under the library's names.
use Prim.Native.Nat.{ℕ, zero, suc, ◌+◌, ◌<◌}
use mathlib.Core.Path.{◌≡◌, refl, ap, ◌∙◌, sym}
use mathlib.Core.List.{List, [], ◌∷◌, ◌++◌}
use mathlib.Core.Bool.{Bool, true, false}
use mathlib.Core.Option.{Option, none, some}
use native.Mathlib.Omega.{arith}

module _ {ℓ} {A : Type ℓ} where
  abbrev pub length : List A → ℕ
  length [] = 0
  length (x ∷ xs) = suc (length xs)

  abbrev pub is_nil : List A → Bool
  is_nil [] = true
  is_nil (x ∷ xs) = false

  abbrev pub get_elem? : List A → ℕ → Option A
  get_elem? [] i = none
  get_elem? (x ∷ xs) zero = some x
  get_elem? (x ∷ xs) (suc i) = get_elem? xs i

  pub length-append : (xs ys : List A) → length (xs ++ ys) ≡ length xs + length ys
  length-append [] ys = omega arith
  length-append (x ∷ xs) ys = omega (arith, length-append xs ys)

-- `n` values of a function from an index on.
abbrev pub block {ℓ} : {A : Type ℓ} → ℕ → ℕ → (ℕ → A) → List A
block zero i f = []
block (suc n) i f = f i ∷ block n (i + 1) f

pub block-same {ℓ} :
    {A : Type ℓ} (n i j : ℕ) (f g : ℕ → A)
    → ((k : ℕ) → k < n → f (i + k) ≡ g (j + k))
    → block n i f ≡ block n j g
block-same zero i j f g h = refl
block-same (suc n) i j f g h =
    let ei : i + 0 ≡ i = omega arith in
    let ej : j + 0 ≡ j = omega arith in
    let here : f i ≡ g j = ap f (sym ei) ∙ h 0 (omega arith) ∙ ap g ej in
    let next : (k : ℕ) → k < n → f (i + 1 + k) ≡ g (j + 1 + k) = λ k b.
      let e1 : i + 1 + k ≡ i + suc k = omega arith in
      let e2 : j + suc k ≡ j + 1 + k = omega arith in
      ap f e1 ∙ h (suc k) (omega (arith, b)) ∙ ap g e2 in
    ap (λ x. x ∷ block n (i + 1) f) here ∙ ap (λ l. g j ∷ l) (block-same n (i + 1) (j + 1) f g next)

pub block-append {ℓ} :
    {A : Type ℓ} (m n i : ℕ) (f : ℕ → A) → block m i f ++ block n (i + m) f ≡ block (m + n) i f
block-append zero n i f =
    let e : i + 0 ≡ i = omega arith in let z : 0 + n ≡ n = omega arith in rw (e, z) refl
block-append (suc m) n i f =
    let e : i + suc m ≡ i + 1 + m = omega arith in
    let s : suc m + n ≡ suc (m + n) = omega arith in
    rw (e, s) (ap (λ l. f i ∷ l) (block-append m n (i + 1) f))
