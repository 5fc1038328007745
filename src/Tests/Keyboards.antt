-- ===== src/Tests/Keyboards.antt =====
-- device/keyboard.c at a letter and at the shift key.
use enix.Base.{◌≡◌, some, true, false, arith}
use enix.Keyboard.{intr_keyboard_handler}
use enix.Keyboard.Keys.{idle, intr_keyboard_handler-typed}

intr_keyboard_handler-typed_example :
    (intr_keyboard_handler 0x1e (idle true false false)).1 ≡ some 65
intr_keyboard_handler-typed_example =
    intr_keyboard_handler-typed true false false 0x1e (omega arith) (omega arith)
