-- ===== src/Keyboard.antt =====
-- device/keyboard.c: the scan codes of the keyboard, and the characters and key states they make.
--
-- The handler's character for the queue is its second result, `none` where it puts none; a full queue
-- drops it there. A key code is a number, its masks are written as division and remainder.
pub mod Keys
use enix.Base.{
  ℕ, ◌+◌, ◌-◌, ◌*◌, ◌/◌, ◌%◌, Bool, true, false, not, ◌&&◌, ◌||◌, Option, none, some, List, [], ◌∷◌,
  get_elem?, ltb, ◌==◌, if◌then◌else◌,
}

pub record KeyStatus : Type 0 where
  pub ctrl_status : Bool
  pub shift_status : Bool
  pub alt_status : Bool
  pub caps_lock_status : Bool
  pub ext_scancode : Bool

-- The characters of each key without shift and with it, by the key's make code.
abbrev pub keymap : List (ℕ × ℕ)
keymap =
    (0, 0)
    ∷ (27, 27)
    ∷ (49, 33)
    ∷ (50, 64)
    ∷ (51, 35)
    ∷ (52, 36)
    ∷ (53, 37)
    ∷ (54, 94)
    ∷ (55, 38)
    ∷ (56, 42)
    ∷ (57, 40)
    ∷ (48, 41)
    ∷ (45, 95)
    ∷ (61, 43)
    ∷ (8, 8)
    ∷ (9, 9)
    ∷ (113, 81)
    ∷ (119, 87)
    ∷ (101, 69)
    ∷ (114, 82)
    ∷ (116, 84)
    ∷ (121, 89)
    ∷ (117, 85)
    ∷ (105, 73)
    ∷ (111, 79)
    ∷ (112, 80)
    ∷ (91, 123)
    ∷ (93, 125)
    ∷ (13, 13)
    ∷ (0, 0)
    ∷ (97, 65)
    ∷ (115, 83)
    ∷ (100, 68)
    ∷ (102, 70)
    ∷ (103, 71)
    ∷ (104, 72)
    ∷ (106, 74)
    ∷ (107, 75)
    ∷ (108, 76)
    ∷ (59, 58)
    ∷ (39, 34)
    ∷ (96, 126)
    ∷ (0, 0)
    ∷ (92, 124)
    ∷ (122, 90)
    ∷ (120, 88)
    ∷ (99, 67)
    ∷ (118, 86)
    ∷ (98, 66)
    ∷ (110, 78)
    ∷ (109, 77)
    ∷ (44, 60)
    ∷ (46, 62)
    ∷ (47, 63)
    ∷ (0, 0)
    ∷ (42, 42)
    ∷ (0, 0)
    ∷ (32, 32)
    ∷ (0, 0)
    ∷ []

abbrev entry : Option (ℕ × ℕ) → ℕ × ℕ
entry none = (0, 0)
entry (some p) = p

-- keymap[index][shift]
abbrev pub keymap_at : ℕ → Bool → ℕ
keymap_at index shift = let p = entry (get_elem? keymap index) in if shift then p.1 else p.0

-- The keys with two characters that are no letters.
abbrev pub is_two_char_key : ℕ → Bool
is_two_char_key code =
    ltb code 0x0e
    || (code == 0x29)
    || (code == 0x1a)
    || (code == 0x1b)
    || (code == 0x2b)
    || (code == 0x27)
    || (code == 0x28)
    || (code == 0x33)
    || (code == 0x34)
    || (code == 0x35)

-- Is the second character of the key meant?
abbrev pub with_shift : ℕ → KeyStatus → Bool
with_shift code k =
    if is_two_char_key code
    then k.shift_status
    else (if k.shift_status && k.caps_lock_status
        then false
        else (if k.shift_status || k.caps_lock_status then true else false))

-- ctrl+l and ctrl+u
abbrev pub shortcut : ℕ → KeyStatus → ℕ
shortcut c k = if (k.ctrl_status && (c == 108)) || (k.ctrl_status && (c == 117)) then c - 97 else c

-- A key without a character goes down; `code` has lost its high byte here.
unfoldable pub press_control : ℕ → KeyStatus → KeyStatus
press_control code k =
    if (code == 0x1d) || (code == 0xe01d)
    then record k { ctrl_status = true }
    else (if (code == 0x2a) || (code == 0x36)
        then record k { shift_status = true }
        else (if (code == 0x38) || (code == 0xe038)
            then record k { alt_status = true }
            else (if code == 0x3a
                then record k { caps_lock_status = not k.caps_lock_status }
                else k)))

unfoldable pub press : ℕ → KeyStatus → KeyStatus × Option ℕ
unfolding press_control
press code k =
    let index = code % 256 in
    let cur_char = keymap_at index (with_shift code k) in
    if not (cur_char == 0) then (k, some (shortcut cur_char k)) else (press_control index k, none)

-- A key comes up.
unfoldable pub release : ℕ → KeyStatus → KeyStatus
release make_code k =
    if (make_code == 0x1d) || (make_code == 0xe01d)
    then record k { ctrl_status = false }
    else (if (make_code == 0x2a) || (make_code == 0x36)
        then record k { shift_status = false }
        else (if (make_code == 0x38) || (make_code == 0xe038)
            then record k { alt_status = false }
            else k))

-- A whole scan code, its prefix included. The break code has bit 7, which the make code has not.
unfoldable pub key_event : ℕ → KeyStatus → KeyStatus × Option ℕ
unfolding press release
key_event code k =
    if code / 128 % 2 == 1
    then (release (code - 128) k, none)
    else (if (ltb 0 code && ltb code 0x3b) || (code == 0xe038) || (code == 0xe01d)
        then press code k
        else (k, none))

unfoldable pub intr_keyboard_handler : ℕ → KeyStatus → KeyStatus × Option ℕ
unfolding key_event
intr_keyboard_handler scancode k =
    let k1 = record k { ext_scancode = false } in
    if scancode == 0xe0
    then (record k { ext_scancode = true }, none)
    else key_event (if k.ext_scancode then 0xe000 + scancode else scancode) k1
