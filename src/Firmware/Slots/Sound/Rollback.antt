-- ===== src/Firmware/Slots/Sound/Rollback.antt =====
-- firmware/slots.rs. `SlotManager::rollback` on a sound disk.
use mathlib.Core.Path.{subst}
use minimalrouter.Firmware.Disk.{
  Disk, Fault, Run, SlotOperation, SlotState, cut, done, reading, rollback,
}
use minimalrouter.Firmware.Disk.Triple.{Ends, Triple, bind_rule, read_rule}
use minimalrouter.Firmware.Slots.Change.{
  check_previous, commit_operation, make_operation, prepare, rollback_from, rollback_links,
  rollback_version, rolled_back,
}
use minimalrouter.Firmware.Slots.Sound.{Rest, Sound, resting}
use minimalrouter.Firmware.Slots.Sound.Activation.{prepare_rule, read_state_rule}
use minimalrouter.Firmware.Slots.Sound.Commit.{Either, commit_rule}
use minimalrouter.Firmware.Slots.Sound.Reread.{Rest-Normal}
use minimalrouter.Firmware.Slots.Sound.Switch.{Ends-weaken, rollback_links_rule}
use minimalrouter.Firmware.State.{require_slot, upgrade_floor}
use minimalrouter.Prelude.{
  Bool-cases, Bytes, List, Result-cases, arith, err, false, inl, inr, is_empty, ok, refl, sym, ◌≡◌,
  ◌⊎◌,
}

-- The disk stands for the state before the rollback or for the one behind it, whose floor is the old one.
abbrev pub Reverted : SlotState → Disk → Type 0
Reverted s d =
    Sound s d ⊎ ((floor : Bytes) × (upgrade_floor s ≡ ok floor) × Sound (rolled_back s floor) d)

-- A success: the previous version is in force, the other one is previous, and the floor is kept.
abbrev pub Swapped : SlotState → Disk → Type 0
Swapped s d = (floor : Bytes) × (upgrade_floor s ≡ ok floor) × Rest (rolled_back s floor) d

previous_found :
    (d : Disk) (s : SlotState) (floor : Bytes)
    → check_previous d s ≡ ok floor
    → (is_empty s.previous ≡ false) × (upgrade_floor s ≡ ok floor)
unfolding check_previous
previous_found d s floor h = elim (Bool-cases (is_empty s.previous)) [
  | inl e ↦ absurd (ground (arith, h, e))
  | inr e ↦ elim (Result-cases (require_slot d s.previous)) [
    | inl (u, q) ↦ (e, ground (arith, h, e, q))
    | inr (u, q) ↦ absurd (ground (arith, h, e, q))
  ]
]

module _ (s : SlotState) (floor : Bytes) (known : upgrade_floor s ≡ ok floor) where
  abbrev rollback_operation : SlotOperation
  rollback_operation = make_operation rollback s (rolled_back s floor)

  reverted : (d : Disk) → Either rollback_operation d → Reverted s d
  reverted d h = elim h.2 [
    | inl e ↦ inl (subst (λ (t : SlotState). Sound t d) e h.1)
    | inr e ↦ inr (floor, known, subst (λ (t : SlotState). Sound t d) e h.1)
  ]

  swapped :
      (r : Run (Unit {0}))
      → Ends (λ _. Rest (rolled_back s floor)) (Either rollback_operation) r
      → Ends (λ _. Swapped s) (Reverted s) r
  swapped (done (ok a) ps d) h = (floor, known, h)
  swapped (done (err e) ps d) h = reverted d h
  swapped (cut d) h = reverted d h

  commit_rollback :
      is_empty s.previous ≡ false
      → Triple
          (Rest s)
          (commit_operation rollback s (rolled_back s floor) (rollback_links (rolled_back s floor)))
          (λ _. Swapped s)
          (Reverted s)
  unfolding commit_operation
  commit_rollback present ps d r =
      let n = Rest-Normal s d r in
      swapped _ (
        commit_rule rollback_operation n (record { finished = n.finished; settled = inl refl })
          (rollback_links (rolled_back s floor)) (rollback_links_rule rollback_operation present) ps
          d r)

module _ (s : SlotState) where
  abbrev Found : Bytes → Disk → Type 0
  Found floor d = Rest s d × (is_empty s.previous ≡ false) × (upgrade_floor s ≡ ok floor)

  rollback_from_rule : Triple (Rest s) (rollback_from s) (λ _. Swapped s) (Reverted s)
  unfolding rollback_from
  rollback_from_rule =
      bind_rule {A = Bytes} Found (λ _. Swapped s) (Reverted s) (reading (λ d. check_previous d s))
        _
        (read_rule (Rest s) Found (Reverted s) (λ (d : Disk). check_previous d s)
          (λ d r. inl (resting r))
          (λ d floor r e. let f = previous_found d s floor e in (r, f.0, f.1)))
        (λ floor ps d f. commit_rollback s floor f.2 f.1 ps d f.0)

  from_rule :
      (a : SlotState)
      → Triple (λ d. Rest s d × (a ≡ s)) (rollback_from a) (λ _. Swapped s) (Reverted s)
  from_rule a ps d q =
      subst (λ (t : SlotState). Ends (λ _. Swapped s) (Reverted s) (rollback_from t ps d)) (sym q.1)
        (rollback_from_rule ps d q.0)

  rollback_rule : Triple (Sound s) rollback_version (λ _. Swapped s) (Reverted s)
  unfolding rollback_version
  rollback_rule =
      bind_rule {A = SlotState} (λ a d. Rest s d × (a ≡ s)) (λ _. Swapped s) (Reverted s) _ _
        (bind_rule {A = Unit {0}} (λ _. Rest s) (λ a d. Rest s d × (a ≡ s)) (Reverted s) prepare _
          (λ ps d h.
            Ends-weaken (Rest s) (Sound s) (Reverted s) _ (λ d h. inl h) (prepare_rule s ps d h))
          (λ a. read_state_rule s (Rest s) (Reverted s) (λ d p. p) (λ d p. inl (resting p))))
        from_rule

-- A rollback on a sound disk that stands for `s`, whichever of its writes fail or are cut off. After an
-- error or a stop the disk is sound and stands for `s` or for the state behind the rollback. After a
-- success it is at rest with both versions swapped and the version floor as it was.
pub rollback_version-Reverted :
    (s : SlotState) (ps : List Fault) (d : Disk)
    → Sound s d
    → Ends (λ _. Swapped s) (Reverted s) (rollback_version ps d)
rollback_version-Reverted s ps d h = rollback_rule s ps d h
