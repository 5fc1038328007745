-- ===== src/Interrupt.antt =====
-- kernel/interrupt.c: the interrupt flag of the CPU, EFLAGS.IF, and the functions that switch it.
-- Each returns the status from before beside the new flag.
use enix.Base.{◌≡◌, refl}

-- enum intr_status
pub data IntrStatus : Type 0 where
  intr_off intr_on : IntrStatus

unfoldable pub intr_enable : IntrStatus → IntrStatus × IntrStatus
intr_enable flag = (flag, intr_on)

unfoldable pub intr_disable : IntrStatus → IntrStatus × IntrStatus
intr_disable flag = (flag, intr_off)

unfoldable pub intr_set_status : IntrStatus → IntrStatus → IntrStatus × IntrStatus
unfolding intr_enable intr_disable
intr_set_status intr_on flag = intr_enable flag
intr_set_status intr_off flag = intr_disable flag

-- A critical section: what intr_set_status leaves is the status that intr_disable returned.
pub intr_set_status-disable :
    (flag : IntrStatus) → (intr_set_status (intr_disable flag).0 (intr_disable flag).1).1 ≡ flag
unfolding intr_set_status
intr_set_status-disable intr_on = refl
intr_set_status-disable intr_off = refl
