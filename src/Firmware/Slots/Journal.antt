-- ===== src/Firmware/Slots/Journal.antt =====
-- firmware/slots.rs, the journal that makes a swap of the pointers recoverable after an interruption.

use Prim.Native.Nat.{Ordering}
use minimalrouter.Firmware.Disk.{
  Disk, OperationKind, SlotOperation, SlotState, absent, activate, holds, install, rollback,
  unknown_kind, unreadable,
}
use minimalrouter.Firmware.State.{
  apply_installation_floor, link_version, require_slot, state_without_operation, upgrade_floor,
}
use minimalrouter.Firmware.Version.{
  SlotError, compare_release_versions, is_release_version, parse_release_version, told,
  unknown_installed_version, validate_forward_upgrade, wrapped,
}
use minimalrouter.Prelude.{
  Bool, Bytes, Option, Result, [], bytes_eq, err, if◌then◌else◌, is_empty, map_err, none, not, ok,
  quoted, some, text, ◌&&◌, ◌<>◌, ◌>>=◌, ◌||◌,
}
use minimalrouter.Prelude.Int.{ltb_ℤ, pos, ℤ}

abbrev pub operation_journal_version : ℤ
operation_journal_version = pos 1

-- Equality of two `i64`.
abbrev pub eq_ℤ : ℤ → ℤ → Bool
eq_ℤ a b = not (ltb_ℤ a b) && not (ltb_ℤ b a)

infixl 10 ◌>>◌
abbrev ◌>>◌ {ℓ} :
    {B : Type ℓ} → Result SlotError (Unit {0}) → Result SlotError B → Result SlotError B
m >> k = m >>= λ _. k

unfoldable pub validate_floor_text : Bytes → Result SlotError (Unit {0})
validate_floor_text v = if is_empty v then ok tt else (parse_release_version v >>= λ _. ok tt)

-- One version that a journal names.
unfoldable pub validate_journal_version : Disk → Bytes → Result SlotError (Unit {0})
validate_journal_version d v =
    if is_empty v
    then ok tt
    else if not (is_release_version v)
    then err (told (text "journal contains an invalid release version"))
    else elim (require_slot d v) [
      | ok _ ↦ ok tt
      | err _ ↦ err (told (text "journal references an unavailable slot " <> quoted v))
    ]

unfoldable pub validate_journal_state : Disk → SlotState → Result SlotError (Unit {0})
validate_journal_state d s = do
  validate_floor_text s.minimum_version
  validate_journal_version d s.current
  validate_journal_version d s.previous
  validate_journal_version d s.pending
  if not (is_empty s.current) && bytes_eq s.current s.previous
      then err (told (text "current and previous journal slots must differ"))
      else ok tt

unfoldable pub validate_kind : OperationKind → SlotState → SlotState → Result SlotError (Unit {0})
validate_kind install old next =
    if is_empty next.current || not (is_empty next.previous)
    then err (told (text "invalid full installation journal"))
    else ok tt
validate_kind activate old next =
    if is_empty next.current
      || (bytes_eq next.current old.current || not (bytes_eq next.previous old.current))
    then err (told (text "invalid activation slot operation journal"))
    else ok tt
validate_kind rollback old next =
    if is_empty old.previous
      || (not (bytes_eq next.current old.previous) || not (bytes_eq next.previous old.current))
    then err (told (text "invalid rollback slot operation journal"))
    else ok tt
validate_kind (unknown_kind k) old next = err (told (text "unknown slot operation journal kind"))

-- The floor that a journal must respect: a full installation starts anew from an unknown version.
unfoldable pub journal_floor : OperationKind → SlotState → Result SlotError Bytes
journal_floor install old = elim (upgrade_floor old) [
  | ok floor ↦ ok floor
  | err unknown_installed_version ↦ ok []
  | err e ↦ err e
]
journal_floor kind old = upgrade_floor old

unfoldable pub keeps_floor : Bytes → Bytes → Result SlotError (Unit {0})
keeps_floor floor minimum =
    let lowered =
      told (text "slot operation journal cannot lower or erase the recorded version floor") in
    if is_empty floor
    then ok tt
    else if is_empty minimum
    then err lowered
    else elim (compare_release_versions minimum floor) [
      | err e ↦ err e
      | ok Ordering.lt ↦ err lowered
      | ok _ ↦ ok tt
    ]

unfoldable pub validate_direction : OperationKind → Bytes → Bytes → Result SlotError (Unit {0})
validate_direction activate candidate floor = validate_forward_upgrade candidate floor
validate_direction _ candidate floor = ok tt

unfoldable pub validate_operation : Disk → SlotOperation → Result SlotError (Unit {0})
validate_operation d op = do
  if eq_ℤ op.version operation_journal_version
      then ok tt
      else err (told (text "unsupported slot operation journal"))
  map_err (wrapped "invalid old slot operation state") (validate_journal_state d op.old)
  map_err (wrapped "invalid next slot operation state") (validate_journal_state d op.next)
  if is_empty op.next.pending
      then ok tt
      else err (told (text "completed slot operation state cannot remain pending"))
  validate_kind op.kind op.old op.next
  floor ← journal_floor op.kind op.old
  keeps_floor floor op.next.minimum_version
  validate_direction op.kind op.next.current floor

-- `read_operation`: the journal, checked again.
unfoldable pub read_operation : Disk → Result SlotError (Option SlotOperation)
read_operation d = elim d.journal [
  | absent ↦ ok none
  | unreadable ↦ err (wrapped "decode slot operation journal" (told (text "unreadable")))
  | holds op ↦ elim (validate_operation d op) [ ok _ ↦ ok (some op) | err e ↦ err e ]
]

-- The state that the pointer in force belongs to.
unfoldable pub project_pointer : Option Bytes → SlotOperation → Result SlotError SlotState
project_pointer (some c) op =
    if bytes_eq c op.next.current
    then ok op.next
    else if bytes_eq c op.old.current
    then ok op.old
    else err (told (text "slot operation journal does not match the current runtime pointer"))
project_pointer none op =
    if is_empty op.old.current
    then ok op.old
    else if is_empty op.next.current
    then ok op.next
    else err (told (text "slot operation journal does not match the current runtime pointer"))

unfoldable pub project_operation_state : SlotOperation → Disk → Result SlotError SlotState
project_operation_state op d = do
  validate_operation d op
  current ← link_version d d.current
  project_pointer current op

-- `SlotManager::state`: what the pointers say, also in the middle of an interrupted operation.
unfoldable pub current_state : Disk → Result SlotError SlotState
current_state d = elim (read_operation d) [
  | err e ↦ err e
  | ok none ↦ state_without_operation d
  | ok (some op) ↦ elim (project_operation_state op d) [
    | err e ↦ err e
    | ok s ↦ apply_installation_floor d s
  ]
]
