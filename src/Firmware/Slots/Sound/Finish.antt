-- ===== src/Firmware/Slots/Sound/Finish.antt =====
-- firmware/slots.rs. `recover_operation` when its writes succeed.

use mathlib.Core.Path.{subst}
use minimalrouter.Firmware.Disk.{
  Disk, Run, SlotState, absent, and_then, done, fail, holds, on_error, or_handle, points, write,
  ◌>>◌,
}
use minimalrouter.Firmware.Disk.Triple.{Ends}
use minimalrouter.Firmware.Slots.{
  LinkName, clear_operation, current_link, previous_link, remove_link, restore_link, restore_links,
  save_state, set_link, swap_link,
}
use minimalrouter.Firmware.Slots.Change.{finish_operation, recover_found, recover_operation}
use minimalrouter.Firmware.Slots.Journal.{validate_journal_version}
use minimalrouter.Firmware.Slots.Sound.{Rest, Sound, Staged, interrupted, link_of, resting}
use minimalrouter.Firmware.Slots.Sound.Recover.{
  read_interrupted, read_resting, recover_operation-Sound, target-Staged,
}
use minimalrouter.Firmware.State.{require_slot}
use minimalrouter.Firmware.Version.{SlotError, is_release_version, merged}
use minimalrouter.Prelude.{
  Bool-cases, Bytes, Result, Result-cases, [], ap, arith, inl, inr, ok, refl, ℕ, ◌∙◌, ◌∷◌, ◌≡◌,
}

Staged-slot : (d : Disk) (x : ℕ) (xs : Bytes) → Staged d (x ∷ xs) → require_slot d (x ∷ xs) ≡ ok tt
unfolding validate_journal_version
Staged-slot d x xs h = elim (Bool-cases (is_release_version (x ∷ xs))) [
  | inr e ↦ absurd (ground (arith, h, e))
  | inl e ↦ elim (Result-cases (require_slot d (x ∷ xs))) [
    | inl (u, q) ↦ q
    | inr (u, q) ↦ absurd (ground (arith, h, e, q))
  ]
]

restore_link_fine :
    (name : LinkName) (v : Bytes) (d : Disk)
    → Staged d v
    → restore_link name v [] d ≡ done (ok tt) [] (set_link name (link_of v) d)
unfolding restore_link remove_link swap_link write
restore_link_fine name [] d h = refl
restore_link_fine name (x ∷ xs) d h =
    let q = Staged-slot d x xs h in
    ap
      (λ (r : Result SlotError (Unit {0})).
        and_then (done r [] d) (λ _. write (set_link name (points (x ∷ xs)))))
      q

restore_links_fine :
    (s : SlotState) (d : Disk)
    → Staged d s.current
    → Staged d s.previous
    → restore_links s [] d
      ≡ done (ok tt) [] (
          set_link previous_link (link_of s.previous) (set_link current_link (link_of s.current) d))
unfolding restore_links validate_journal_version require_slot set_link
restore_links_fine s d c p =
    ap
      (λ (r : Run (Unit {0})).
        and_then
          (or_handle r (λ e.
            on_error (restore_link previous_link s.previous) (λ e'. fail (merged e e')) >> fail e))
          (λ _. restore_link previous_link s.previous))
      (restore_link_fine current_link s.current d c)
    ∙ restore_link_fine previous_link s.previous (set_link current_link (link_of s.current) d) p

abbrev finished : SlotState → Disk → Disk
finished s d = record d {
  current = link_of s.current;
  previous = link_of s.previous;
  state = holds s;
  journal = absent;
}

finish_operation_fine :
    (s : SlotState) (d : Disk)
    → Staged d s.current
    → Staged d s.previous
    → finish_operation s [] d ≡ done (ok tt) [] (finished s d)
unfolding finish_operation save_state clear_operation write set_link
finish_operation_fine s d c p = rw (restore_links_fine s d c p) refl

-- When no write fails, the recovery of a sound disk succeeds, and the disk is then at rest in the state
-- that it stood for.
pub recover_operation-Rest :
    (s : SlotState) (d : Disk)
    → Sound s d
    → (d' : Disk) × (recover_operation [] d ≡ done (ok tt) [] d') × Rest s d'
unfolding recover_operation recover_found
recover_operation-Rest s d (resting h) = (d, rw (read_resting s d h) refl, h)
recover_operation-Rest s d (interrupted op h) =
    let p = target-Staged op s d h in
    let e : recover_operation [] d ≡ done (ok tt) [] (finished s d) =
      rw (read_interrupted op s d h, h.projected) (finish_operation_fine s d p.0 p.1) in
    let r : Ends (λ _. Rest s) (Sound s) (recover_operation [] d) =
      recover_operation-Sound s [] d (interrupted op h) in
    (finished s d, e, subst (Ends (λ _. Rest s) (Sound s)) e r)
