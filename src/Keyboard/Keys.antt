-- ===== src/Keyboard/Keys.antt =====
-- What the keys type, and that a key that goes down and up leaves no modifier behind.
use enix.Base.{
  ℕ, ◌+◌, ◌<◌, ◌≡◌, refl, ◌≢◌, Bool, true, false, not, ◌&&◌, ◌||◌, Option, none, some, arith, leb,
  ◌==◌, if◌then◌else◌, for_all_lt, for_all_lt_lem, List, [], ◌∷◌,
}
use enix.Keyboard.{KeyStatus, keymap_at, intr_keyboard_handler}

-- What a key types by its two characters: caps lock reverses shift for the letters, and only for them.
abbrev pub typed : ℕ → Bool → Bool → Option ℕ
typed key shift caps =
    let plain = keymap_at key false in
    let is_letter = leb 97 plain && leb plain 122 in
    let second = if is_letter then (if caps then not shift else shift) else shift in
    if plain == 0 then none else some (keymap_at key second)

abbrev same_char : Option ℕ → Option ℕ → Bool
same_char none none = true
same_char (some a) (some b) = a == b
same_char _ _ = false

same_char_lem : (a b : Option ℕ) → same_char a b ≡ true → a ≡ b
same_char_lem none none e = refl
same_char_lem none (some b) e = absurd (ground arith)
same_char_lem (some a) none e = absurd (ground arith)
same_char_lem (some a) (some b) e = let h : a ≡ b = ground arith in rw h refl

-- The keys with ctrl up and no prefix pending.
abbrev pub idle : Bool → Bool → Bool → KeyStatus
idle shift alt caps = record {
  ctrl_status = false;
  shift_status = shift;
  alt_status = alt;
  caps_lock_status = caps;
  ext_scancode = false;
}

abbrev types : Bool → Bool → Bool → ℕ → Bool
types shift alt caps key =
    (key == 0)
    || same_char (intr_keyboard_handler key (idle shift alt caps)).1 (typed key shift caps)

types_table : (shift alt caps : Bool) → for_all_lt (types shift alt caps) 0x3b ≡ true
unfolding intr_keyboard_handler for_all_lt
types_table true true true = refl
types_table true true false = refl
types_table true false true = refl
types_table true false false = refl
types_table false true true = refl
types_table false true false = refl
types_table false false true = refl
types_table false false false = refl

-- With ctrl up and no prefix pending, a letter key types its second character where just one of shift
-- and caps lock is on, every other key of the map where shift is down, and otherwise the first one; a
-- key for which the map has no character types nothing.
pub intr_keyboard_handler-typed :
    (shift alt caps : Bool) (key : ℕ)
    → 0 < key
    → key < 0x3b
    → (intr_keyboard_handler key (idle shift alt caps)).1 ≡ typed key shift caps
intr_keyboard_handler-typed shift alt caps key p h =
    same_char_lem (intr_keyboard_handler key (idle shift alt caps)).1 (typed key shift caps) (
      ground (arith, for_all_lt_lem (types shift alt caps) 0x3b key h (types_table shift alt caps)))

-- The state after some scan codes.
abbrev pub after : List ℕ → KeyStatus → KeyStatus
after [] k = k
after (code ∷ codes) k = after codes (intr_keyboard_handler code k).0

abbrev same_bool : Bool → Bool → Bool
same_bool true b = b
same_bool false b = not b

abbrev same_keys : KeyStatus → KeyStatus → Bool
same_keys k l =
    same_bool k.ctrl_status l.ctrl_status
    && same_bool k.shift_status l.shift_status
    && same_bool k.alt_status l.alt_status
    && same_bool k.caps_lock_status l.caps_lock_status
    && same_bool k.ext_scancode l.ext_scancode

same_bool_lem : (a b : Bool) → same_bool a b ≡ true → a ≡ b
same_bool_lem true true e = refl
same_bool_lem false false e = refl
same_bool_lem true false e = absurd (ground arith)
same_bool_lem false true e = absurd (ground arith)

same_keys_lem : (k l : KeyStatus) → same_keys k l ≡ true → k ≡ l
same_keys_lem k l e =
    let c = same_bool_lem k.ctrl_status l.ctrl_status (ground (arith, e)) in
    let s = same_bool_lem k.shift_status l.shift_status (ground (arith, e)) in
    let a = same_bool_lem k.alt_status l.alt_status (ground (arith, e)) in
    let o = same_bool_lem k.caps_lock_status l.caps_lock_status (ground (arith, e)) in
    let x = same_bool_lem k.ext_scancode l.ext_scancode (ground (arith, e)) in
    λ i. record {
      ctrl_status = c i;
      shift_status = s i;
      alt_status = a i;
      caps_lock_status = o i;
      ext_scancode = x i;
    }

abbrev restores : Bool → ℕ → Bool
restores caps key =
    (key == 0x60)
    || same_keys (after (key ∷ (key + 128) ∷ []) (idle false false caps))
        (idle false false (if key == 0x3a then not caps else caps))
      && same_keys (after (0xe0 ∷ key ∷ 0xe0 ∷ (key + 128) ∷ []) (idle false false caps))
          (idle false false caps)

restores_table : (caps : Bool) → for_all_lt (restores caps) 128 ≡ true
unfolding intr_keyboard_handler for_all_lt
restores_table true = refl
restores_table false = refl

-- From the state with all modifiers up, any key that goes down and up again, whether its codes have
-- the prefix or not, leads back to that state; only caps lock, without the prefix, is reversed. The
-- code whose break code would be the prefix itself is left out.
after-idle :
    (caps : Bool) (key : ℕ)
    → key < 128
    → key ≢ 0x60
    → (after (key ∷ (key + 128) ∷ []) (idle false false caps)
        ≡ idle false false (if key == 0x3a then not caps else caps))
      × (after (0xe0 ∷ key ∷ 0xe0 ∷ (key + 128) ∷ []) (idle false false caps)
          ≡ idle false false caps)
after-idle caps key h ne =
    let t = for_all_lt_lem (restores caps) 128 key h (restores_table caps) in
    (
      same_keys_lem (after (key ∷ (key + 128) ∷ []) (idle false false caps))
          (idle false false (if key == 0x3a then not caps else caps)) (ground (arith, t)),
      same_keys_lem (after (0xe0 ∷ key ∷ 0xe0 ∷ (key + 128) ∷ []) (idle false false caps))
          (idle false false caps) (ground (arith, t)),
    )
