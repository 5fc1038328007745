-- ===== src/Pathname/Depth.antt =====
-- The depth of a path is the number of its names.
use enix.Base.{
  ℕ, zero, suc, ◌+◌, ◌==◌, ◌≡◌, ◌≤◌, ◌<◌, ◌⊎◌, inl, inr, refl, ◌∙◌, ap, sym, Bool, true, false,
  Option, none, some, List, [], ◌∷◌, length, has, arith, if◌then◌else◌, done, Bool-cases, leb, not,
  ◌&&◌, ◌-◌,
}
use enix.Pathname.{
  skip_slashes, name_of, behind_name, behind_slashes, unless_empty, path_parse, first_byte,
  depth_loop, path_depth_cnt, max_file_name_len,
}

-- The names in a path: the bytes other than '/' that stand behind a '/', or first.
abbrev pub names : Bool → List ℕ → ℕ
names behind_slash [] = 0
names behind_slash (c ∷ s) =
    if c == 47 then names true s else (if behind_slash then 1 else 0) + names false s

names-skip_slashes : (s : List ℕ) → names true (skip_slashes s) ≡ names true s
names-skip_slashes [] = refl
names-skip_slashes (c ∷ s) = elim (Bool-cases (c == 47)) [
  | inl t ↦ rw t (names-skip_slashes s)
  | inr f ↦ rw (f, f) refl
]

names-behind_slashes : (s : List ℕ) → names true (behind_slashes s) ≡ names true s
names-behind_slashes [] = refl
names-behind_slashes (c ∷ s) = elim (Bool-cases (c == 47)) [
  | inl t ↦ rw t (names-skip_slashes s)
  | inr f ↦ rw (f, f) refl
]

names-behind_name : (s : List ℕ) → names true (behind_name s) ≡ names false s
names-behind_name [] = refl
names-behind_name (c ∷ s) = elim (Bool-cases (c == 47)) [
  | inl t ↦ rw (t, t) refl
  | inr f ↦ rw f (omega (arith, names-behind_name s))
]

-- The names of at most 16 bytes each, the first one of at most `room`.
abbrev pub fits : ℕ → List ℕ → Bool
fits room [] = true
fits room (c ∷ s) =
    let behind_slash = fits max_file_name_len s in
    let on = fits (room - 1) s in if c == 47 then behind_slash else not (room == 0) && on

fits-skip_slashes : (s : List ℕ) → fits 16 s ≡ true → fits 16 (skip_slashes s) ≡ true
fits-skip_slashes [] h = refl
fits-skip_slashes (c ∷ s) h = elim (Bool-cases (c == 47)) [
  | inl t ↦
      rw t (fits-skip_slashes s (let e : fits 16 (c ∷ s) ≡ fits 16 s = rw t refl in sym e ∙ h))
  | inr f ↦ let e : skip_slashes (c ∷ s) ≡ c ∷ s = rw f refl in rw e h
]

fits-behind_slashes : (s : List ℕ) → fits 16 s ≡ true → fits 16 (behind_slashes s) ≡ true
fits-behind_slashes [] h = refl
fits-behind_slashes (c ∷ s) h = elim (Bool-cases (c == 47)) [
  | inl t ↦
      rw t (fits-skip_slashes s (let e : fits 16 (c ∷ s) ≡ fits 16 s = rw t refl in sym e ∙ h))
  | inr f ↦ let e : behind_slashes (c ∷ s) ≡ c ∷ s = rw f refl in rw e h
]

fits-cons :
    (room c : ℕ) (s : List ℕ)
    → (c == 47) ≡ false
    → fits room (c ∷ s) ≡ true
    → (0 < room) × (fits (room - 1) s ≡ true)
fits-cons room c s f h =
    let e : fits room (c ∷ s) ≡ (not (room == 0) && fits (room - 1) s) = rw f refl in
    room_left room (fits (room - 1) s) (sym e ∙ h)
  where
    room_left : (room : ℕ) (on : Bool) → (not (room == 0) && on) ≡ true → (0 < room) × (on ≡ true)
    room_left zero on h = absurd (ground (arith, h))
    room_left (suc room) on h =
        let some_room : (suc room == 0) ≡ false = ground arith in
        let e : (not (suc room == 0) && on) ≡ on = rw some_room refl in (omega arith, sym e ∙ h)

length-name_of : (room : ℕ) (s : List ℕ) → fits room s ≡ true → length (name_of s) ≤ room
length-name_of room [] h = omega arith
length-name_of room (c ∷ s) h = elim (Bool-cases (c == 47)) [
  | inl t ↦ rw t (omega arith)
  | inr f ↦
      let (more, on) = fits-cons room c s f h in
      rw f (omega (arith, more, length-name_of (room - 1) s on))
]

fits-behind_name : (room : ℕ) (s : List ℕ) → fits room s ≡ true → fits 16 (behind_name s) ≡ true
fits-behind_name room [] h = refl
fits-behind_name room (c ∷ s) h = elim (Bool-cases (c == 47)) [
  | inl t ↦ let e : fits room (c ∷ s) ≡ fits 16 s = rw t refl in rw (t, t) (sym e ∙ h)
  | inr f ↦ let (more, on) = fits-cons room c s f h in rw f (fits-behind_name (room - 1) s on)
]

name_fits : (s : List ℕ) → fits 16 s ≡ true → leb (length (path_parse s).0) 16 ≡ true
unfolding path_parse
name_fits s h =
    let short = length-name_of 16 (behind_slashes s) (fits-behind_slashes s h) in
    ground (arith, short)

abbrev pub left_fits : Option (List ℕ) → Bool
left_fits none = true
left_fits (some s) = fits 16 s

left_fits-unless_empty : (s : List ℕ) → left_fits (unless_empty s) ≡ fits 16 s
left_fits-unless_empty [] = refl
left_fits-unless_empty (c ∷ s) = refl

-- What path_parse leaves: no slash in front, one name less, and a shorter path.
abbrev pub left_names : Option (List ℕ) → ℕ
left_names none = 0
left_names (some s) = names true s

abbrev pub left_length : Option (List ℕ) → ℕ
left_length none = 0
left_length (some s) = length s

-- The list in front of which no slash stands.
abbrev pub NoSlash : List ℕ → Type 0
NoSlash [] = Unit {0}
NoSlash (c ∷ s) = (c == 47) ≡ false

skip_slashes-NoSlash : (s : List ℕ) → NoSlash (skip_slashes s)
skip_slashes-NoSlash [] = tt
skip_slashes-NoSlash (c ∷ s) = elim (Bool-cases (c == 47)) [
  | inl t ↦ rw t (skip_slashes-NoSlash s)
  | inr f ↦ rw f f
]

behind_slashes-NoSlash : (s : List ℕ) → NoSlash (behind_slashes s)
behind_slashes-NoSlash [] = tt
behind_slashes-NoSlash (c ∷ s) = elim (Bool-cases (c == 47)) [
  | inl t ↦ rw t (skip_slashes-NoSlash s)
  | inr f ↦ rw f f
]

length-skip_slashes : (s : List ℕ) → length (skip_slashes s) ≤ length s
length-skip_slashes [] = omega arith
length-skip_slashes (c ∷ s) = elim (Bool-cases (c == 47)) [
  | inl t ↦ rw t (omega (arith, length-skip_slashes s))
  | inr f ↦ rw f (omega arith)
]

length-behind_slashes : (s : List ℕ) → length (behind_slashes s) ≤ length s
length-behind_slashes [] = omega arith
length-behind_slashes (c ∷ s) = elim (Bool-cases (c == 47)) [
  | inl t ↦ rw t (omega (arith, length-skip_slashes s))
  | inr f ↦ rw f (omega arith)
]

length-behind_name : (s : List ℕ) → length (behind_name s) ≤ length s
length-behind_name [] = omega arith
length-behind_name (c ∷ s) = elim (Bool-cases (c == 47)) [
  | inl t ↦ rw t (omega arith)
  | inr f ↦ rw f (omega (arith, length-behind_name s))
]

left_names-unless_empty : (s : List ℕ) → left_names (unless_empty s) ≡ names true s
left_names-unless_empty [] = refl
left_names-unless_empty (c ∷ s) = refl

left_length-unless_empty : (s : List ℕ) → left_length (unless_empty s) ≡ length s
left_length-unless_empty [] = refl
left_length-unless_empty (c ∷ s) = refl

-- What path_parse does to a path without 0 bytes and no slash in front: no name and nothing left, or a
-- name, and the path behind it with one name less.
parsed :
    (old : ℕ) (p : List ℕ)
    → NoSlash p
    → has 0 p ≡ false
    → ((p ≡ []) × (first_byte old (name_of p) ≡ old))
      ⊎ (((first_byte old (name_of p) == 0) ≡ false)
          × (suc (left_names (unless_empty (behind_name p))) ≡ names true p)
          × (left_length (unless_empty (behind_name p)) < length p))
parsed old [] n z = inl (refl, refl)
parsed old (c ∷ s) n z =
    let nonzero : (c == 0) ≡ false = ground (arith, z) in
    inr (
      rw n nonzero,
      rw n (omega (arith, left_names-unless_empty (behind_name s), names-behind_name s)),
      rw n (omega (arith, left_length-unless_empty (behind_name s), length-behind_name s)),
    )

has-skip_slashes : (s : List ℕ) → has 0 s ≡ false → has 0 (skip_slashes s) ≡ false
has-skip_slashes [] z = refl
has-skip_slashes (c ∷ s) z = elim (Bool-cases (c == 47)) [
  | inl t ↦ rw t (has-skip_slashes s (ground (arith, z)))
  | inr f ↦ rw f z
]

has-behind_slashes : (s : List ℕ) → has 0 s ≡ false → has 0 (behind_slashes s) ≡ false
has-behind_slashes [] z = refl
has-behind_slashes (c ∷ s) z = elim (Bool-cases (c == 47)) [
  | inl t ↦ rw t (has-skip_slashes s (ground (arith, z)))
  | inr f ↦ rw f z
]

has-behind_name : (s : List ℕ) → has 0 s ≡ false → has 0 (behind_name s) ≡ false
has-behind_name [] z = refl
has-behind_name (c ∷ s) z = elim (Bool-cases (c == 47)) [
  | inl t ↦ rw t z
  | inr f ↦ rw f (has-behind_name s (ground (arith, z)))
]

-- No 0 stands in what is left.
abbrev pub left_has : Option (List ℕ) → Bool
left_has none = false
left_has (some s) = has 0 s

left_has-unless_empty : (s : List ℕ) → left_has (unless_empty s) ≡ has 0 s
left_has-unless_empty [] = refl
left_has-unless_empty (c ∷ s) = refl

-- A round of path_depth_cnt, from what holds of the next one.
depth_round :
    (fuel depth : ℕ) (s : List ℕ)
    → has 0 s ≡ false
    → fits 16 s ≡ true
    → length s < fuel
    → ((c : ℕ) (p : Option (List ℕ))
        → left_has p ≡ false
        → left_fits p ≡ true
        → left_length p + (if c == 0 then 0 else 1) < fuel
        → depth_loop fuel c p (depth + 1)
          ≡ done (some (depth + 1 + (if c == 0 then 0 else 1 + left_names p))))
    → depth_loop fuel (first_byte 0 (path_parse s).0) (path_parse s).1 (depth + 1)
      ≡ done (some (depth + (1 + names true s)))
unfolding path_parse
depth_round fuel depth s z fit bound next =
    let q = behind_slashes s in
    let zq = has-behind_slashes s z in
    elim (parsed 0 q (behind_slashes-NoSlash s) zq) [
      | inl (e, first) ↦
          let no_name : names true s ≡ 0 = sym (names-behind_slashes s) ∙ ap (names true) e in
          rw e (
            next 0 none refl refl (omega (arith, bound))
            ∙ ap (λ k. done (some k)) (omega (arith, no_name)))
      | inr (more, count, shorter) ↦
          let c = first_byte 0 (name_of q) in
          let p = unless_empty (behind_name q) in
          let one : (if c == 0 then 0 else 1 + left_names p) ≡ 1 + left_names p = rw more refl in
          next c p (left_has-unless_empty (behind_name q) ∙ has-behind_name q zq)
            (left_fits-unless_empty (behind_name q)
              ∙ fits-behind_name 16 q (fits-behind_slashes s fit))
            (rw more (omega (arith, shorter, length-behind_slashes s, bound)))
          ∙ ap (λ k. done (some k)) (omega (arith, one, count, names-behind_slashes s))
    ]

depth_loop_lem :
    (fuel c : ℕ) (p : Option (List ℕ)) (depth : ℕ)
    → left_has p ≡ false
    → left_fits p ≡ true
    → left_length p + (if c == 0 then 0 else 1) < fuel
    → depth_loop fuel c p depth ≡ done (some (depth + (if c == 0 then 0 else 1 + left_names p)))
unfolding depth_loop
depth_loop_lem zero c p depth z fit h = absurd (omega arith)
depth_loop_lem (suc fuel) c none depth z fit h = elim (Bool-cases (c == 0)) [
  | inl t ↦ rw (t, depth_loop) (ap (λ k. done (some k)) (omega arith))
  | inr f ↦
      rw (f, depth_loop)
        (depth_loop_lem fuel 0 none (depth + 1) refl refl (ground (arith, f, h))
          ∙ ap (λ k. done (some k)) (omega arith))
]
depth_loop_lem (suc fuel) c (some s) depth z fit h = elim (Bool-cases (c == 0)) [
  | inl t ↦ rw (t, depth_loop) (ap (λ k. done (some k)) (omega arith))
  | inr f ↦
      rw (f, depth_loop, name_fits s fit)
        (depth_round fuel depth s z fit (ground (arith, f, h))
          (λ c p. depth_loop_lem fuel c p (depth + 1)))
]

first_round :
    (old : ℕ) (s : List ℕ)
    → has 0 s ≡ false
    → fits 16 s ≡ true
    → ((0 < names true s)
        × (depth_loop (length s + 2) (first_byte old (path_parse s).0) (path_parse s).1 0
            ≡ done (some (names true s))))
      ⊎ ((names true s ≡ 0)
          × (depth_loop (length s + 2) (first_byte old (path_parse s).0) (path_parse s).1 0
              ≡ done (some (if old == 0 then 0 else 1))))
unfolding path_parse
first_round old s z fit =
    let q = behind_slashes s in
    let zq = has-behind_slashes s z in
    let same = names-behind_slashes s in
    elim (parsed old q (behind_slashes-NoSlash s) zq) [
      | inl (e, first) ↦
          let no_name : names true s ≡ 0 = sym same ∙ ap (names true) e in
          inr (
            no_name,
            rw e (
                depth_loop_lem (length s + 2) old none 0 refl refl (ground arith)
                ∙ ap (λ k. done (some k)) (ground arith)),
          )
      | inr (more, count, shorter) ↦
          let c = first_byte old (name_of q) in
          let p = unless_empty (behind_name q) in
          let one : (if c == 0 then 0 else 1 + left_names p) ≡ 1 + left_names p = rw more refl in
          inl (
            omega (arith, count, same),
            depth_loop_lem (length s + 2) c p 0
                  (left_has-unless_empty (behind_name q) ∙ has-behind_name q zq)
                  (left_fits-unless_empty (behind_name q)
                    ∙ fits-behind_name 16 q (fits-behind_slashes s fit))
                  (rw more (omega (arith, shorter, length-behind_slashes s)))
                ∙ ap (λ k. done (some k)) (omega (arith, one, count, same)),
          )
    ]

-- path_depth_cnt of a path that holds a name, and none of more than 16 bytes, ends, and the result is
-- the number of its names, however many slashes stand between, before or behind them. For a path of
-- slashes alone it is whatever the uncleared byte on the stack makes of it: 0 if that byte is 0, and 1
-- otherwise.
pub path_depth_cnt_lem :
    (old : ℕ) (s : List ℕ)
    → has 0 s ≡ false
    → fits 16 s ≡ true
    → ((0 < names true s) × (path_depth_cnt old s ≡ done (some (names true s))))
      ⊎ ((names true s ≡ 0) × (path_depth_cnt old s ≡ done (some (if old == 0 then 0 else 1))))
unfolding path_depth_cnt
path_depth_cnt_lem old s z fit = rw (name_fits s fit) (first_round old s z fit)
