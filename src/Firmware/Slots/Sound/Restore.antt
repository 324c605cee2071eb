-- ===== src/Firmware/Slots/Sound/Restore.antt =====
-- firmware/slots.rs. `recover_operation` and `abort_operation`: each puts back one state, in the same writes.
use minimalrouter.Firmware.Disk.{
  Disk, SlotState, absent, fail, holds, missing, on_error, points, reading, ◌>>◌,
}
use minimalrouter.Firmware.Disk.Triple.{
  Triple, bind_rule, fail_rule, on_error_rule, read_rule, write_rule,
}
use minimalrouter.Firmware.Slots.{
  LinkName, clear_operation, current_link, previous_link, remove_link, restore_link, restore_links,
  save_state, set_link, swap_link,
}
use minimalrouter.Firmware.Slots.Sound.{Rest, link_of}
use minimalrouter.Firmware.Slots.Sound.Settle.{Written}
use minimalrouter.Firmware.State.{require_slot}
use minimalrouter.Firmware.Version.{merged}
use minimalrouter.Prelude.{Bytes, [], refl, ◌∷◌, ◌≡◌}

-- What the writes that put `s` back must keep, and what they come to.
pub record Stable (s : SlotState) (U : Disk → Type 0) : Type 0 where
  pub current_kept : (d : Disk) → U d → U (set_link current_link (link_of s.current) d)
  pub previous_kept : (d : Disk) → U d → U (set_link previous_link (link_of s.previous) d)
  pub state_kept : (d : Disk) → U d → U (record d { state = holds s })
  pub closes : (d : Disk) → U d → Written s d → Rest s (record d { journal = absent })

restore_link_rule :
    (name : LinkName) (v : Bytes) (P C Q : Disk → Type 0)
    → ((d : Disk) → P d → C d)
    → ((d : Disk) → P d → C (set_link name (link_of v) d))
    → ((d : Disk) → P d → Q (set_link name (link_of v) d))
    → Triple P (restore_link name v) (λ _. Q) C
unfolding restore_link remove_link swap_link
restore_link_rule name [] P C Q kept changed success =
    write_rule P C Q (set_link name missing) kept changed success
restore_link_rule name (x ∷ xs) P C Q kept changed success =
    bind_rule (λ _. P) (λ _. Q) C (reading (λ (d : Disk). require_slot d (x ∷ xs))) _
      (read_rule P (λ _. P) C (λ (d : Disk). require_slot d (x ∷ xs)) kept (λ d a p e. p))
      (λ a. write_rule P C Q (set_link name (points (x ∷ xs))) kept changed success)

module _ (s : SlotState) (U : Disk → Type 0) (stable : Stable s U) where
  abbrev pub AtCurrent : Disk → Type 0
  AtCurrent d = U d × (d.current ≡ link_of s.current)

  abbrev pub Placed : Disk → Type 0
  Placed d = U d × (d.current ≡ link_of s.current) × (d.previous ≡ link_of s.previous)

  abbrev pub Kept : Disk → Type 0
  Kept d = U d × Written s d

  restore_previous : Triple U (restore_link previous_link s.previous) (λ _. U) U
  unfolding set_link
  restore_previous =
      restore_link_rule previous_link s.previous U U U (λ d u. u) stable.previous_kept
        stable.previous_kept

  restore_first :
      Triple U
        (on_error (restore_link current_link s.current) (λ e.
          on_error (restore_link previous_link s.previous) (λ e'. fail (merged e e')) >> fail e))
        (λ _. AtCurrent)
        U
  unfolding set_link
  restore_first =
      on_error_rule (λ _. AtCurrent) U U (restore_link current_link s.current) _
        (restore_link_rule current_link s.current U U AtCurrent (λ d u. u) stable.current_kept
          (λ d u. (stable.current_kept d u, refl)))
        (λ d u. u)
        (λ e.
          bind_rule (λ _. U) (λ _. AtCurrent) U _ _
            (on_error_rule (λ _. U) U U (restore_link previous_link s.previous) _ restore_previous
              (λ d u. u) (λ e'. fail_rule {A = Unit {0}} (λ _. U) (merged e e') (λ d u. u)))
            (λ a. fail_rule {A = Unit {0}} (λ _. AtCurrent) e (λ d u. u)))

  pub restore_links_rule : Triple U (restore_links s) (λ _. Placed) U
  unfolding restore_links set_link
  restore_links_rule =
      bind_rule (λ _. AtCurrent) (λ _. Placed) U _ _ restore_first
        (λ a.
          restore_link_rule previous_link s.previous AtCurrent U Placed (λ d u. u.0)
            (λ d u. stable.previous_kept d u.0) (λ d u. (stable.previous_kept d u.0, u.1, refl)))

  pub save_state_rule : Triple Placed (save_state s) (λ _. Kept) U
  unfolding save_state
  save_state_rule =
      write_rule Placed U Kept (λ d. record d { state = holds s }) (λ d u. u.0)
        (λ d u. stable.state_kept d u.0)
        (λ d u. (
          stable.state_kept d u.0,
          record { current_link = u.1; previous_link = u.2; saved = refl },
        ))

  pub clear_operation_rule :
      (C : Disk → Type 0)
      → ((d : Disk) → U d → C d)
      → ((d : Disk) → Rest s d → C d)
      → Triple Kept clear_operation (λ _. Rest s) C
  unfolding clear_operation
  clear_operation_rule C underway closed =
      write_rule Kept C (Rest s) (λ d. record d { journal = absent }) (λ d u. underway d u.0)
        (λ d u. closed _ (stable.closes d u.0 u.1)) (λ d u. stable.closes d u.0 u.1)
