-- ===== src/Firmware/Slots/Change.antt =====
-- firmware/slots.rs, the changes of the pointers: activation, rollback, and the recovery of an
-- interrupted one.
use minimalrouter.Firmware.Disk.{
  Disk, Operation, OperationKind, SlotOperation, SlotState, activate, fail, on_error, reading,
  return, rollback, wrap, ◌>>=◌, ◌>>◌,
}
use minimalrouter.Firmware.Slots.{
  clear_operation, current_link, previous_link, remove_link, restore_links, save_state, swap_link,
  write_journal,
}
use minimalrouter.Firmware.Slots.Journal.{
  operation_journal_version, project_operation_state, read_operation, validate_operation,
}
use minimalrouter.Firmware.State.{
  check_forward, check_installation, check_version, require_slot, state_without_operation,
  upgrade_floor,
}
use minimalrouter.Firmware.Version.{SlotError, followed, told, wrapped}
use minimalrouter.Prelude.{
  Bytes, Option, Result, [], bytes_eq, err, if◌then◌else◌, is_empty, none, ok, some, text,
}

abbrev nothing : Operation (Unit {0})
nothing = return tt

unfoldable pub begin_operation : SlotOperation → Operation (Unit {0})
begin_operation op = reading (λ d. validate_operation d op) >> write_journal op

-- `abort_operation`: the error that it returns is what the operation fails with.
unfoldable pub abort_operation : SlotState → SlotError → Operation (Unit {0})
abort_operation old primary =
    on_error (restore_links old) (λ e. fail (followed primary "restore slot pointers" e))
    >> on_error (save_state old) (λ e. fail (followed primary "restore slot state" e))
    >> on_error clear_operation
        (λ e. fail (followed primary "clear aborted slot operation journal" e))
    >> fail primary

abbrev pub make_operation : OperationKind → SlotState → SlotState → SlotOperation
make_operation kind old next = record {
  version = operation_journal_version;
  kind = kind;
  old = old;
  next = next;
}

unfoldable pub commit_operation :
    OperationKind → SlotState → SlotState → Operation (Unit {0}) → Operation (Unit {0})
commit_operation kind old next mutate =
    wrap "persist slot operation journal" (begin_operation (make_operation kind old next))
    >> on_error mutate (abort_operation old)
    >> on_error (save_state next) (λ e. abort_operation old (wrapped "persist slot state" e))
    >> wrap "clear completed slot operation journal" clear_operation

-- What `recover_operation` writes for the state that the pointer in force belongs to.
unfoldable pub finish_operation : SlotState → Operation (Unit {0})
finish_operation target =
    wrap "recover slot pointers" (restore_links target)
    >> wrap "recover slot state" (save_state target)
    >> wrap "clear recovered slot operation journal" clear_operation

unfoldable pub recover_found : Option SlotOperation → Operation (Unit {0})
recover_found none = nothing
recover_found (some op) = reading (project_operation_state op) >>= finish_operation

unfoldable pub recover_operation : Operation (Unit {0})
recover_operation = reading read_operation >>= recover_found

-- The writes between the journal and the new state of an activation.
unfoldable pub activate_links : SlotState → Bytes → Operation (Unit {0})
activate_links old v =
    (if is_empty old.current
      then remove_link previous_link
      else wrap "prepare previous slot pointer" (swap_link previous_link old.current))
    >> wrap "activate slot pointer" (swap_link current_link v)

abbrev pub activated : SlotState → Bytes → SlotState
activated old v = record old {
  previous = old.current;
  current = v;
  pending = [];
  minimum_version = v;
}

-- The part of `activate` behind the recovery and the checks of the version.
unfoldable pub activate_from : Bytes → SlotState → Operation (Unit {0})
activate_from v s =
    if bytes_eq s.current v
    then save_state (record s { pending = [] })
    else (reading (λ d. check_forward v s)
        >> commit_operation activate s (activated s v) (activate_links s v))

-- What every operation does first.
unfoldable pub prepare : Operation (Unit {0})
prepare = reading check_installation >> wrap "recover interrupted slot operation" recover_operation

unfoldable pub activate_version : Bytes → Operation (Unit {0})
activate_version v =
    prepare
    >> reading (λ d. check_version d v)
    >> reading state_without_operation
    >>= activate_from v

unfoldable pub rollback_links : SlotState → Operation (Unit {0})
rollback_links next =
    wrap "restore current slot pointer" (swap_link current_link next.current)
    >> (if is_empty next.previous
        then remove_link previous_link
        else wrap "preserve rollback slot pointer" (swap_link previous_link next.previous))

abbrev pub rolled_back : SlotState → Bytes → SlotState
rolled_back old floor = record old {
  current = old.previous;
  previous = old.current;
  pending = [];
  minimum_version = floor;
}

unfoldable pub check_previous : Disk → SlotState → Result SlotError Bytes
check_previous d s =
    if is_empty s.previous
    then err (told (text "no previous release slot is available"))
    else elim (require_slot d s.previous) [
      | err _ ↦ err (told (text "previous release slot is missing"))
      | ok _ ↦ upgrade_floor s
    ]

unfoldable pub rollback_from : SlotState → Operation (Unit {0})
rollback_from s = reading (λ d. check_previous d s) >>= λ floor.
    let next = rolled_back s floor in commit_operation rollback s next (rollback_links next)

unfoldable pub rollback_version : Operation (Unit {0})
rollback_version = prepare >> reading state_without_operation >>= rollback_from
