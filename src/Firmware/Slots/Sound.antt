-- ===== src/Firmware/Slots/Sound.antt =====
-- firmware/slots.rs. When the disk of the slot manager is sound: it reports a state, also in the middle of an operation.
pub mod Reading
pub mod Project
pub mod Settle
pub mod Restore
pub mod Recover
pub mod Finish
pub mod Commit
pub mod Links
pub mod Reread
pub mod Switch
pub mod Activation
pub mod Rollback
use minimalrouter.Firmware.Disk.{
  Disk, Link, SlotOperation, SlotState, absent, holds, missing, points,
}
use minimalrouter.Firmware.Slots.Journal.{
  project_operation_state, validate_journal_version, validate_operation,
}
use minimalrouter.Firmware.State.{state_without_operation}
use minimalrouter.Prelude.{
  Bytes, Option, [], bytes_eq, false, if◌then◌else◌, is_empty, none, ok, some, ◌≡◌, ◌⊎◌,
}

abbrev pub link_of : Bytes → Link
link_of v = if is_empty v then missing else points v

abbrev pub version_of : Bytes → Option Bytes
version_of v = if is_empty v then none else some v

-- No version, or one whose slot is there.
abbrev pub Staged : Disk → Bytes → Type 0
Staged d v = validate_journal_version d v ≡ ok tt

-- A state as the pointers yield it.
pub record Normal (s : SlotState) : Type 0 where
  pub finished : s.installation_pending ≡ false
  pub settled : (s.pending ≡ []) ⊎ (bytes_eq s.pending s.current ≡ false)

-- No operation is open and the disk says `s`.
pub record Rest (s : SlotState) (d : Disk) : Type 0 where
  pub no_journal : d.journal ≡ absent
  pub no_installation : d.installation ≡ absent
  pub seen : state_without_operation d ≡ ok s
  pub anchored : d.current ≡ link_of s.current

-- The operation is open, with the current pointer on either side of it.
pub record Underway (op : SlotOperation) (d : Disk) : Type 0 where
  pub journalled : d.journal ≡ holds op
  pub no_installation : d.installation ≡ absent
  pub valid : validate_operation d op ≡ ok tt
  pub side : (d.current ≡ link_of op.old.current) ⊎ (d.current ≡ link_of op.next.current)
  pub old_normal : Normal op.old
  pub next_normal : Normal op.next

-- The operation is open and belongs to `s`.
pub record UnderwayAt (op : SlotOperation) (s : SlotState) (d : Disk) : Type 0 where
  pub underway : Underway op d
  pub projected : project_operation_state op d ≡ ok s
  pub linked : d.current ≡ link_of s.current
  pub target : (s ≡ op.old) ⊎ (s ≡ op.next)

-- The disk is sound and stands for `s`.
pub data Sound (s : SlotState) (d : Disk) : Type 0 where
  resting : Rest s d → Sound s d
  interrupted : (op : SlotOperation) → UnderwayAt op s d → Sound s d
