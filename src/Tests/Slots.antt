-- ===== src/Tests/Slots.antt =====
-- The slots in the middle of an activation, at one disk.

use minimalrouter.Firmware.Disk.{
  Disk, SlotOperation, SlotState, absent, activate, cut_after, done, fine, holds, points, unsynced,
}
use minimalrouter.Firmware.Disk.Triple.{Ends}
use minimalrouter.Firmware.Slots.Change.{
  activate_version, make_operation, recover_operation, rollback_version,
}
use minimalrouter.Firmware.Slots.Journal.{
  current_state, journal_floor, keeps_floor, project_operation_state, project_pointer,
  validate_direction, validate_floor_text, validate_journal_state, validate_journal_version,
  validate_kind, validate_operation,
}
use minimalrouter.Firmware.Slots.Sound.{Rest, Sound, Underway, interrupted}
use minimalrouter.Firmware.Slots.Sound.Activation.{activate_version-Activated}
use minimalrouter.Firmware.Slots.Sound.Finish.{recover_operation-Rest}
use minimalrouter.Firmware.Slots.Sound.Project.{after_switch, current_state-Shows}
use minimalrouter.Firmware.Slots.Sound.Recover.{recover_operation-Sound}
use minimalrouter.Firmware.Slots.Sound.Rollback.{Reverted, Swapped, rollback_version-Reverted}
use minimalrouter.Firmware.Slots.Sound.Switch.{Activated, Lands}
use minimalrouter.Firmware.State.{
  is_bootstrap, link_version, no_state, raise_floor, require_slot, upgrade_floor,
}
use minimalrouter.Firmware.Version.{
  after_digits, before, behind, compare_identifiers, compare_numeric_strings, compare_parsed,
  compare_prereleases, compare_release_versions, digits_dot, digits_of, is_release_version,
  is_suffix, is_suffix_byte, numeric_identifier, parse_core, parse_release_version, some_digits,
  strip_v, trim_zeros, validate_forward_upgrade, zip_order,
}
use minimalrouter.Prelude.{
  [], bytes_eq, codes, inl, inr, lexicographic, ok, refl, split, split_once, strip_prefix, true,
  ◌∷◌, ◌≡◌,
}

abbrev old_state : SlotState
old_state = record no_state { current = codes "0.3.0" }

abbrev new_state : SlotState
new_state = record no_state {
  current = codes "0.3.1";
  previous = codes "0.3.0";
  minimum_version = codes "0.3.1";
}

abbrev activation : SlotOperation
activation = make_operation activate old_state new_state

-- The machine stopped behind the swap of the current pointer.
abbrev half_done : Disk
half_done = record {
  state = absent;
  journal = holds activation;
  installation = absent;
  current = points (codes "0.3.1");
  previous = points (codes "0.3.0");
  slots = λ v. true;
}

half_done-Underway : Underway activation half_done
unfolding validate_forward_upgrade compare_release_versions parse_release_version is_release_version
    digits_dot some_digits strip_v strip_prefix after_digits is_suffix parse_core split before
    split_once compare_parsed compare_numeric_strings digits_of trim_zeros lexicographic behind
    compare_identifiers compare_prereleases is_suffix_byte numeric_identifier zip_order
    validate_operation validate_journal_state validate_journal_version validate_floor_text
    validate_kind journal_floor keeps_floor validate_direction upgrade_floor raise_floor
    is_bootstrap bytes_eq require_slot link_version project_operation_state project_pointer
half_done-Underway = record {
  journalled = refl;
  no_installation = refl;
  valid = refl;
  side = inr refl;
  old_normal = record { finished = refl; settled = inl refl };
  next_normal = record { finished = refl; settled = inl refl };
}

half_done-Sound : Sound new_state half_done
unfolding validate_forward_upgrade compare_release_versions parse_release_version is_release_version
    digits_dot some_digits strip_v strip_prefix after_digits is_suffix parse_core split before
    split_once compare_parsed compare_numeric_strings digits_of trim_zeros lexicographic behind
    compare_identifiers compare_prereleases is_suffix_byte numeric_identifier zip_order
    validate_operation validate_journal_state validate_journal_version validate_floor_text
    validate_kind journal_floor keeps_floor validate_direction upgrade_floor raise_floor
    is_bootstrap bytes_eq require_slot link_version project_operation_state project_pointer
half_done-Sound =
    interrupted activation
      (record { underway = half_done-Underway; projected = refl; linked = refl; target = inr refl })

current_state-Shows_example : current_state half_done ≡ ok new_state
current_state-Shows_example =
    current_state-Shows new_state half_done (after_switch activation half_done-Underway refl refl)

-- The recovery is cut off behind its second write.
recover_operation-Sound_example :
    Ends
      (λ _. Rest new_state)
      (Sound new_state)
      (recover_operation (fine ∷ cut_after ∷ []) half_done)
recover_operation-Sound_example =
    recover_operation-Sound new_state (fine ∷ cut_after ∷ []) half_done half_done-Sound

recover_operation-Rest_example :
    (d : Disk) × (recover_operation [] half_done ≡ done (ok tt) [] d) × Rest new_state d
recover_operation-Rest_example = recover_operation-Rest new_state half_done half_done-Sound

-- The activation is cut off behind its third write: the recovery's.
activate_version-Activated_example :
    Ends
      (λ _. Lands new_state (codes "0.4.0"))
      (Activated new_state (codes "0.4.0"))
      (activate_version (codes "0.4.0") (fine ∷ fine ∷ cut_after ∷ []) half_done)
activate_version-Activated_example =
    activate_version-Activated new_state (codes "0.4.0") (fine ∷ fine ∷ cut_after ∷ []) half_done
      half_done-Sound

rollback_version-Reverted_example :
    Ends
      (λ _. Swapped new_state)
      (Reverted new_state)
      (rollback_version (fine ∷ unsynced ∷ []) half_done)
rollback_version-Reverted_example =
    rollback_version-Reverted new_state (fine ∷ unsynced ∷ []) half_done half_done-Sound
