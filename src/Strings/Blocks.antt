-- ===== src/Strings/Blocks.antt =====
-- memset, memcpy and memcmp: what they write, what they leave, and when two blocks are equal.
use enix.Base.{
  ℕ, zero, suc, ◌+◌, ◌-◌, ◌≤◌, ◌<◌, ◌≡◌, refl, ◌∙◌, ◌≢◌, Bool-cases, ◌⊎◌, inl, inr, Bool, true,
  false, not, ◌&&◌, ◌||◌, arith, ltb, leb, ◌==◌, if◌then◌else◌, update, done, ℕ_discrete,
}
use enix.Strings.{
  Memory, Sign, char_lt, nought, plus, minus, set_loop, memset, copy_loop, memcpy, cmp_loop, memcmp,
}

-- Is the address among the `size` bytes from `p` on?
abbrev pub inside : ℕ → ℕ → ℕ → Bool
inside p size a = leb p a && ltb a (p + size)

set_loop_lem :
    (m : Memory) (dst value size a : ℕ)
    → set_loop m dst value size a ≡ (if inside dst size a then value else m a)
unfolding set_loop
set_loop_lem m dst value zero a = ground arith
set_loop_lem m dst value (suc size) a =
    ground (arith, set_loop_lem (update m dst value) (dst + 1) value size a)

-- memset of a pointer that is not NULL runs to its end; afterwards the `size` bytes from `dst` on
-- are `value`, and all others are as before.
pub memset_lem :
    (m : Memory) (dst value size : ℕ)
    → dst ≢ 0
    → (m' : Memory) × (memset m dst value size ≡ done m')
      × ((a : ℕ) → m' a ≡ (if inside dst size a then value else m a))
unfolding memset
memset_lem m dst value size h =
    let t : (dst == 0) ≡ false = ground arith in
    (set_loop m dst value size, rw t refl, set_loop_lem m dst value size)

copy_loop_lem :
    (m : Memory) (dst src size a : ℕ)
    → (dst ≤ src) ⊎ (src + size ≤ dst)
    → copy_loop m dst src size a ≡ (if inside dst size a then m (src + (a - dst)) else m a)
unfolding copy_loop
copy_loop_lem m dst src zero a h = ground arith
copy_loop_lem m dst src (suc size) a h =
    copy_loop_lem (update m dst (m src)) (dst + 1) (src + 1) size a next ∙ elim (ℕ_discrete a dst) [
      | yes e ↦ let z : src + (a - dst) ≡ src = omega arith in rw z (ground arith)
      | no ne ↦ elim (Bool-cases (inside (dst + 1) size a)) [
        | inl t ↦
            let z : src + 1 + (a - (dst + 1)) ≡ src + (a - dst) = ground arith in
            let t' : inside dst (suc size) a ≡ true = ground arith in
            let away : (src + (a - dst) == dst) ≡ false = ground arith in rw (t, t', z, away) refl
        | inr f ↦ ground arith
      ]
    ]
  where
    next : (dst + 1 ≤ src + 1) ⊎ (src + 1 + size ≤ dst + 1)
    next = ground arith

-- memcpy of two pointers that are not NULL, to a block in front of the source or apart from it, runs
-- to its end; afterwards the `size` bytes from `dst` on are those that stood from `src` on before,
-- and all others are as before.
memcpy_lem :
    (m : Memory) (dst src size : ℕ)
    → dst ≢ 0
    → src ≢ 0
    → (dst ≤ src) ⊎ (src + size ≤ dst)
    → (m' : Memory) × (memcpy m dst src size ≡ done m')
      × ((a : ℕ) → m' a ≡ (if inside dst size a then m (src + (a - dst)) else m a))
unfolding memcpy
memcpy_lem m dst src size h k apart =
    let t : (not (dst == 0) && not (src == 0)) ≡ true = ground arith in
    (copy_loop m dst src size, rw t refl, λ a. copy_loop_lem m dst src size a apart)

-- The blocks are equal up to an index where they differ; there the byte of `a` is the greater `char`
-- or not.
abbrev pub Differs : Memory → ℕ → ℕ → ℕ → Bool → Type 0
Differs m a b size greater =
    (i : ℕ) × (i < size)
    × ((j : ℕ) → j < i → m (a + j) ≡ m (b + j))
    × (m (a + i) ≢ m (b + i))
    × (char_lt (m (b + i)) (m (a + i)) ≡ greater)

-- The sign of the first difference of two blocks, or nought.
abbrev pub Compares : Memory → ℕ → ℕ → ℕ → Sign → Type 0
Compares m a b size nought = (i : ℕ) → i < size → m (a + i) ≡ m (b + i)
Compares m a b size plus = Differs m a b size true
Compares m a b size minus = Differs m a b size false

cmp_loop_lem : (m : Memory) (a b size : ℕ) → Compares m a b size (cmp_loop m a b size)
unfolding cmp_loop
cmp_loop_lem m a b zero = λ i h. absurd (omega arith)
cmp_loop_lem m a b (suc size) = elim (ℕ_discrete (m a) (m b)) [
  | yes e ↦
      let t : (m a == m b) ≡ true = ground arith in
      rw t (shift (cmp_loop m (a + 1) (b + 1) size) e (cmp_loop_lem m (a + 1) (b + 1) size))
  | no ne ↦ let t : (m a == m b) ≡ false = ground arith in rw t (first ne)
]
  where
    at_zero : (x : ℕ) → x + 0 ≡ x
    at_zero x = omega arith

    differs : (g : Bool) → m a ≢ m b → char_lt (m b) (m a) ≡ g → Differs m a b (suc size) g
    differs g ne t =
        let za : a + 0 ≡ a = at_zero a in
        let zb : b + 0 ≡ b = at_zero b in
        (0, omega arith, (λ j h. absurd (omega arith)), rw (za, zb) ne, rw (za, zb) t)

    first : m a ≢ m b → Compares m a b (suc size) (if char_lt (m b) (m a) then plus else minus)
    first ne = elim (Bool-cases (char_lt (m b) (m a))) [
      | inl t ↦ rw t (differs true ne t)
      | inr f ↦ rw f (differs false ne f)
    ]

    step : (x i : ℕ) → x + suc i ≡ x + 1 + i
    step x i = omega arith

    same_up_to :
        (n : ℕ)
        → m a ≡ m b
        → ((j : ℕ) → suc j < n → m (a + 1 + j) ≡ m (b + 1 + j))
        → (i : ℕ) → i < n
        → m (a + i) ≡ m (b + i)
    same_up_to n e h zero k = rw (at_zero a, at_zero b) e
    same_up_to n e h (suc i) k = rw (step a i, step b i) (h i k)

    later : (g : Bool) → m a ≡ m b → Differs m (a + 1) (b + 1) size g → Differs m a b (suc size) g
    later g e d =
        let (i, lt, same, ne, t) = d in
        (
          suc i,
          omega arith,
          same_up_to (suc i) e (λ j k. same j (omega arith)),
          rw (step a i, step b i) ne,
          rw (step a i, step b i) t,
        )

    shift : (r : Sign) → m a ≡ m b → Compares m (a + 1) (b + 1) size r → Compares m a b (suc size) r
    shift nought e h = λ i k. same_up_to (suc size) e (λ j k'. h j (omega arith)) i k
    shift plus e h = later true e h
    shift minus e h = later false e h

-- memcmp of two pointers, at least one of them not NULL, runs to its end and returns 0 exactly for
-- equal blocks, and otherwise the order of the first two bytes that differ, as signed chars.
memcmp-Compares :
    (m : Memory) (a b size : ℕ)
    → (a ≢ 0) ⊎ (b ≢ 0)
    → (r : Sign) × (memcmp m a b size ≡ done r) × Compares m a b size r
unfolding memcmp
memcmp-Compares m a b size h =
    let t : (not (a == 0) || not (b == 0)) ≡ true = ground arith in
    (cmp_loop m a b size, rw t refl, cmp_loop_lem m a b size)
