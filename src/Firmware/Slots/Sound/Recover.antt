-- ===== src/Firmware/Slots/Sound/Recover.antt =====
-- firmware/slots.rs. `recover_operation`, whatever its writes meet.

use mathlib.Core.Path.{subst}
use minimalrouter.Firmware.Disk.{
  Disk, Fault, Link, Operation, SlotOperation, SlotState, absent, and_then, done, holds, wrap,
}
use minimalrouter.Firmware.Disk.Triple.{
  Ends, Triple, bind_rule, fail_rule, on_error_rule, wrap_rule,
}
use minimalrouter.Firmware.Slots.{
  clear_operation, current_link, previous_link, restore_links, save_state, set_link,
}
use minimalrouter.Firmware.Slots.Change.{finish_operation, recover_found, recover_operation}
use minimalrouter.Firmware.Slots.Journal.{
  project_operation_state, read_operation, validate_journal_state, validate_journal_version,
  validate_operation,
}
use minimalrouter.Firmware.Slots.Sound.{
  Rest, Sound, Staged, UnderwayAt, interrupted, link_of, resting,
}
use minimalrouter.Firmware.Slots.Sound.Project.{UnderwayAt-Normal}
use minimalrouter.Firmware.Slots.Sound.Reading.{valid-Parts}
use minimalrouter.Firmware.Slots.Sound.Restore.{
  Kept, Placed, Stable, clear_operation_rule, restore_links_rule, save_state_rule,
}
use minimalrouter.Firmware.Slots.Sound.Settle.{Written, settled_state}
use minimalrouter.Firmware.State.{link_version, require_slot}
use minimalrouter.Firmware.Version.{SlotError, wrapped}
use minimalrouter.Prelude.{List, Option, Result, String, inl, inr, none, ok, refl, some, sym, ◌≡◌}

module _ (op : SlotOperation) (s : SlotState) where
  current_kept :
      (d : Disk) → UnderwayAt op s d → UnderwayAt op s (set_link current_link (link_of s.current) d)
  unfolding set_link
  current_kept d h = subst (λ (l : Link). UnderwayAt op s (record d { current = l })) h.linked h

  previous_kept :
      (d : Disk)
      → UnderwayAt op s d
      → UnderwayAt op s (set_link previous_link (link_of s.previous) d)
  unfolding set_link validate_operation validate_journal_state validate_journal_version require_slot
      project_operation_state link_version
  previous_kept d h = record {
    underway = record {
      journalled = h.underway.journalled;
      no_installation = h.underway.no_installation;
      valid = h.underway.valid;
      side = h.underway.side;
      old_normal = h.underway.old_normal;
      next_normal = h.underway.next_normal;
    };
    projected = h.projected;
    linked = h.linked;
    target = h.target;
  }

  state_kept : (d : Disk) → UnderwayAt op s d → UnderwayAt op s (record d { state = holds s })
  unfolding validate_operation validate_journal_state validate_journal_version require_slot
      project_operation_state link_version
  state_kept d h = record {
    underway = record {
      journalled = h.underway.journalled;
      no_installation = h.underway.no_installation;
      valid = h.underway.valid;
      side = h.underway.side;
      old_normal = h.underway.old_normal;
      next_normal = h.underway.next_normal;
    };
    projected = h.projected;
    linked = h.linked;
    target = h.target;
  }

  pub target-Staged : (d : Disk) → UnderwayAt op s d → Staged d s.current × Staged d s.previous
  target-Staged d h =
      let p = valid-Parts d op h.underway.valid in
      elim h.target [
        | inl e ↦ rw e (p.old_current, p.old_previous)
        | inr e ↦ rw e (p.next_current, p.next_previous)
      ]

  closes : (d : Disk) → UnderwayAt op s d → Written s d → Rest s (record d { journal = absent })
  unfolding validate_journal_version require_slot
  closes d h w =
      let p = target-Staged d h in
      record {
        no_journal = refl;
        no_installation = h.underway.no_installation;
        seen =
            settled_state s (record d { journal = absent }) p.0 p.1 (UnderwayAt-Normal h)
              h.underway.no_installation
              (record {
                current_link = w.current_link;
                previous_link = w.previous_link;
                saved = w.saved;
              });
        anchored = h.linked;
      }

  pub stable : Stable s (UnderwayAt op s)
  stable = record {
    current_kept = current_kept;
    previous_kept = previous_kept;
    state_kept = state_kept;
    closes = closes;
  }

  abbrev Open : Disk → Type 0
  Open = UnderwayAt op s

  wrap-Sound :
      (t : String) (P Q : Disk → Type 0) (m : Operation (Unit {0}))
      → Triple P m (λ _. Q) Open
      → Triple P (wrap t m) (λ _. Q) (Sound s)
  wrap-Sound t P Q m h =
      on_error_rule {A = Unit {0}} (λ _. Q) Open (Sound s) m _ h (λ d u. interrupted op u)
        (λ e. fail_rule {A = Unit {0}} (λ _. Q) (wrapped t e) (λ d u. interrupted op u))

  finish_operation-Sound : Triple Open (finish_operation s) (λ _. Rest s) (Sound s)
  unfolding finish_operation
  finish_operation-Sound =
      bind_rule (λ _. Kept s Open stable) (λ _. Rest s) (Sound s) _ _
        (bind_rule (λ _. Placed s Open stable) (λ _. Kept s Open stable) (Sound s) _ _
          (wrap-Sound "recover slot pointers" Open (Placed s Open stable) (restore_links s)
            (restore_links_rule s Open stable))
          (λ a.
            wrap-Sound "recover slot state" (Placed s Open stable) (Kept s Open stable)
              (save_state s) (save_state_rule s Open stable)))
        (λ a.
          wrap_rule (Kept s Open stable) (λ _. Rest s) (Sound s)
            "clear recovered slot operation journal" clear_operation
            (clear_operation_rule s Open stable (Sound s) (λ d u. interrupted op u)
              (λ d r. resting r)))

pub read_resting : (s : SlotState) (d : Disk) → Rest s d → read_operation d ≡ ok none
unfolding read_operation
read_resting s d h = rw (h.no_journal, read_operation) refl

pub read_interrupted :
    (op : SlotOperation) (s : SlotState) (d : Disk)
    → UnderwayAt op s d
    → read_operation d ≡ ok (some op)
unfolding read_operation
read_interrupted op s d h = rw (h.underway.journalled, h.underway.valid, read_operation) refl

-- The recovery of a sound disk, whichever of its writes fail or are cut off: an error or a stop leaves a
-- sound disk that stands for the same state as before, and a success leaves it at rest in that state.
pub recover_operation-Sound :
    (s : SlotState) (ps : List Fault) (d : Disk)
    → Sound s d
    → Ends (λ _. Rest s) (Sound s) (recover_operation ps d)
unfolding recover_operation recover_found
recover_operation-Sound s ps d (resting h) =
    subst
      (λ (r : Result SlotError (Option SlotOperation)).
        Ends {A = Unit {0}} (λ _. Rest s) (Sound s) (and_then (done r ps d) recover_found))
      (sym (read_resting s d h)) h
recover_operation-Sound s ps d (interrupted op h) =
    subst
      (λ (r : Result SlotError (Option SlotOperation)).
        Ends {A = Unit {0}} (λ _. Rest s) (Sound s) (and_then (done r ps d) recover_found))
      (sym (read_interrupted op s d h))
      (subst
        (λ (r : Result SlotError SlotState).
          Ends {A = Unit {0}} (λ _. Rest s) (Sound s) (and_then (done r ps d) finish_operation))
        (sym h.projected) (finish_operation-Sound op s ps d h))
