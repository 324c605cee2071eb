-- ===== src/Firmware/Slots.antt =====
-- firmware/slots.rs, the writes of `SlotManager`. The lock, which every operation takes, makes the
-- operations run one after another.
pub mod Journal
pub mod Change
pub mod Sound
use minimalrouter.Firmware.Disk.{
  Disk, Link, Operation, SlotOperation, SlotState, absent, fail, holds, missing, on_error, points,
  reading, write, ◌>>◌,
}
use minimalrouter.Firmware.State.{require_slot}
use minimalrouter.Firmware.Version.{merged}
use minimalrouter.Prelude.{Bytes, if◌then◌else◌, is_empty}

-- The writes: each takes one fault.
unfoldable pub save_state : SlotState → Operation (Unit {0})
save_state s = write (λ d. record d { state = holds s })

unfoldable pub clear_operation : Operation (Unit {0})
clear_operation = write (λ d. record d { journal = absent })

unfoldable pub write_journal : SlotOperation → Operation (Unit {0})
write_journal op = write (λ d. record d { journal = holds op })

pub data LinkName : Type 0 where
  current_link previous_link : LinkName

unfoldable pub set_link : LinkName → Link → Disk → Disk
set_link current_link l d = record d { current = l }
set_link previous_link l d = record d { previous = l }

unfoldable pub swap_link : LinkName → Bytes → Operation (Unit {0})
swap_link name v = reading (λ d. require_slot d v) >> write (set_link name (points v))

unfoldable pub remove_link : LinkName → Operation (Unit {0})
remove_link name = write (set_link name missing)

-- One pointer of `restore_links`.
unfoldable pub restore_link : LinkName → Bytes → Operation (Unit {0})
restore_link name v = if is_empty v then remove_link name else swap_link name v

-- Both pointers are restored, also when the first one fails.
unfoldable pub restore_links : SlotState → Operation (Unit {0})
restore_links s =
    on_error (restore_link current_link s.current)
      (λ e. on_error (restore_link previous_link s.previous) (λ e'. fail (merged e e')) >> fail e)
    >> restore_link previous_link s.previous
