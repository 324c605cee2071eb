-- ===== src/Firmware/State.antt =====
-- firmware/slots.rs, `SlotState::upgrade_floor` and how `SlotManager` reads its state from the disk.

use Prim.Native.Nat.{Ordering}
use minimalrouter.Firmware.Disk.{
  Disk, Link, SlotState, absent, holds, missing, points, unreadable, unsafe,
}
use minimalrouter.Firmware.Version.{
  SlotError, compare_release_versions, is_release_version, parse_release_version, strip_v, told,
  unknown_installed_version, validate_forward_upgrade, wrapped,
}
use minimalrouter.Prelude.{
  Bool, Bytes, Option, Result, [], bytes_eq, codes, err, false, if◌then◌else◌, is_empty, is_some,
  none, not, ok, some, strip_prefix, text, true, ◌&&◌, ◌>>=◌,
}

abbrev bootstrap : Bytes
bootstrap = codes "0.0.0+bootstrap."

unfoldable pub is_bootstrap : Bytes → Bool
is_bootstrap v = is_some (strip_prefix bootstrap (strip_v v))

-- The higher one of a recorded floor and the current version.
unfoldable pub raise_floor : Bytes → Bytes → Result SlotError Bytes
raise_floor floor current = elim (compare_release_versions current floor) [
  | err e ↦ err e
  | ok Ordering.gt ↦ ok current
  | ok _ ↦ ok floor
]

abbrev map_ok : {A : Type 0} → Result SlotError A → Result SlotError (Unit {0})
map_ok (ok _) = ok tt
map_ok (err e) = err e

unfoldable pub upgrade_floor : SlotState → Result SlotError Bytes
upgrade_floor s =
    let floor = s.minimum_version in
    let checked : Result SlotError (Unit {0}) =
      if is_empty floor then ok tt else map_ok (parse_release_version floor) in
    let above : Result SlotError Bytes =
      if is_empty floor then ok s.current else raise_floor floor s.current in
    let known : Result SlotError Bytes = elim (parse_release_version s.current) [
      | err e ↦ err e
      | ok _ ↦ above
    ] in
    elim checked [
      | err e ↦ err e
      | ok _ ↦
          if is_bootstrap s.current
          then (if is_empty floor then err unknown_installed_version else ok floor)
          else if is_empty s.current
          then ok floor
          else known
    ]

unfoldable pub has_slot : Disk → Bytes → Bool
has_slot d v = is_release_version v && d.slots v

unfoldable pub require_slot : Disk → Bytes → Result SlotError (Unit {0})
require_slot d v =
    if not (is_release_version v)
    then err (told (text "invalid release version"))
    else if d.slots v
    then ok tt
    else err (told (text "release slot is not staged"))

-- The version that a pointer names, if there is a pointer.
unfoldable pub link_version : Disk → Link → Result SlotError (Option Bytes)
link_version d missing = ok none
link_version d unsafe = err (told (text "unsafe slot pointer"))
link_version d (points v) =
    if not (is_release_version v)
    then err (told (text "invalid slot pointer"))
    else elim (require_slot d v) [
      | ok _ ↦ ok (some v)
      | err e ↦ err (wrapped "slot pointer is broken" e)
    ]

unfoldable pub apply_installation_floor : Disk → SlotState → Result SlotError SlotState
apply_installation_floor d s = elim d.installation [
  | absent ↦ ok (record s { installation_pending = false })
  | unreadable ↦ err (told (text "unreadable installation journal"))
  | holds intent ↦
      let s' = record s { installation_pending = true } in
      let raised = record s' { minimum_version = intent.minimum_version } in
      if is_empty intent.minimum_version
      then ok s'
      else elim (parse_release_version intent.minimum_version) [
        | err e ↦ err e
        | ok _ ↦
            if is_empty s.minimum_version
            then ok raised
            else elim (compare_release_versions intent.minimum_version s.minimum_version) [
              | err e ↦ err e
              | ok Ordering.gt ↦ ok raised
              | ok _ ↦ ok s'
            ]
      ]
]

abbrev pub no_state : SlotState
no_state = record {
  current = [];
  previous = [];
  pending = [];
  minimum_version = [];
  installation_pending = false;
}

unfoldable pub saved_state : Disk → Result SlotError SlotState
saved_state d = elim d.state [
  | absent ↦ ok no_state
  | unreadable ↦ err (wrapped "decode update state" (told (text "unreadable")))
  | holds s ↦ ok s
]

-- The pointers are authoritative: they replace what the file says.
unfoldable pub point_current : Option Bytes → SlotState → SlotState
point_current none s = s
point_current (some v) s = record s {
  current = v;
  pending = if bytes_eq s.pending v then [] else s.pending;
}

unfoldable pub point_previous : Option Bytes → SlotState → SlotState
point_previous none s = s
point_previous (some v) s = record s { previous = v }

unfoldable pub state_without_operation : Disk → Result SlotError SlotState
state_without_operation d = do
  s ← saved_state d
  current ← link_version d d.current
  previous ← link_version d d.previous
  apply_installation_floor d (point_previous previous (point_current current s))

unfoldable pub check_installation : Disk → Result SlotError (Unit {0})
check_installation d = elim d.installation [
  | absent ↦ ok tt
  | unreadable ↦ err (told (text "full installation is incomplete"))
  | holds _ ↦ err (
      told (
        text
          "full installation is incomplete; finish the full installer before update or rollback"))
]

-- The checks of a version to activate.
unfoldable pub check_version : Disk → Bytes → Result SlotError (Unit {0})
check_version d v =
    if not (is_release_version v)
    then err (told (text "invalid release version"))
    else require_slot d v

unfoldable pub check_forward : Bytes → SlotState → Result SlotError (Unit {0})
check_forward v s = upgrade_floor s >>= λ floor. validate_forward_upgrade v floor
