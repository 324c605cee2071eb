-- ===== src/Firmware/Slots/Sound/Activation.antt =====
-- firmware/slots.rs. `SlotManager::activate` on a sound disk.
use mathlib.Core.Path.{subst}
use minimalrouter.Firmware.Disk.{Disk, Fault, SlotState, reading}
use minimalrouter.Firmware.Disk.Triple.{Ends, Triple, bind_rule, read_rule, wrap_rule}
use minimalrouter.Firmware.Slots.Change.{
  activate_from, activate_version, prepare, recover_operation,
}
use minimalrouter.Firmware.Slots.Sound.{Rest, Sound, resting}
use minimalrouter.Firmware.Slots.Sound.Recover.{recover_operation-Sound}
use minimalrouter.Firmware.Slots.Sound.Switch.{Activated, Ends-weaken, Lands, activate_from_rule}
use minimalrouter.Firmware.State.{check_installation, check_version, state_without_operation}
use minimalrouter.Firmware.Version.{
  after_digits, digits_dot, is_release_version, some_digits, strip_v,
}
use minimalrouter.Prelude.{
  Bytes, List, [], arith, false, inl, is_empty, ok, refl, strip_prefix, sym, ◌∷◌, ◌≡◌,
}

-- What every operation does first brings a sound disk to rest in the state that it stands for.
pub prepare_rule : (s : SlotState) → Triple (Sound s) prepare (λ _. Rest s) (Sound s)
unfolding prepare
prepare_rule s =
    bind_rule {A = Unit {0}} (λ _. Sound s) (λ _. Rest s) (Sound s) (reading check_installation) _
      (read_rule (Sound s) (λ _. Sound s) (Sound s) check_installation (λ d h. h) (λ d a h e. h))
      (λ a.
        wrap_rule (Sound s) (λ _. Rest s) (Sound s) "recover interrupted slot operation"
          recover_operation (recover_operation-Sound s))

same_state : (s a : SlotState) (d : Disk) → Rest s d → state_without_operation d ≡ ok a → a ≡ s
same_state s a d r e = let q = r.seen in cc

-- A disk at rest is read as the state that it stands for.
pub read_state_rule :
    (s : SlotState) (P C : Disk → Type 0)
    → ((d : Disk) → P d → Rest s d)
    → ((d : Disk) → P d → C d)
    → Triple P (reading state_without_operation) (λ a d. P d × (a ≡ s)) C
read_state_rule s P C rest kept =
    read_rule P (λ a d. P d × (a ≡ s)) C state_without_operation kept
      (λ d a p e. (p, same_state s a d (rest d p) e))

checked_present : (d : Disk) (v : Bytes) → check_version d v ≡ ok tt → is_empty v ≡ false
unfolding check_version is_release_version digits_dot some_digits strip_v strip_prefix after_digits
checked_present d [] h = absurd (ground (arith, h))
checked_present d (x ∷ xs) h = refl

module _ (s : SlotState) (v : Bytes) where
  abbrev Ready : Disk → Type 0
  Ready d = Rest s d × (is_empty v ≡ false)

  Ready-rule : Triple (Rest s) (reading (λ d. check_version d v)) (λ _. Ready) (Activated s v)
  Ready-rule =
      read_rule (Rest s) (λ _. Ready) (Activated s v) (λ (d : Disk). check_version d v)
        (λ d r. inl (resting r)) (λ d a r e. (r, checked_present d v e))

  from_rule :
      (a : SlotState)
      → Triple (λ d. Ready d × (a ≡ s)) (activate_from v a) (λ _. Lands s v) (Activated s v)
  from_rule a ps d q =
      subst (λ (t : SlotState). Ends (λ _. Lands s v) (Activated s v) (activate_from v t ps d))
        (sym q.1) (activate_from_rule s v q.0.1 ps d q.0.0)

  activation_rule : Triple (Sound s) (activate_version v) (λ _. Lands s v) (Activated s v)
  unfolding activate_version
  activation_rule =
      bind_rule {A = SlotState} (λ a d. Ready d × (a ≡ s)) (λ _. Lands s v) (Activated s v) _ _
        (bind_rule {A = Unit {0}} (λ _. Ready) (λ a d. Ready d × (a ≡ s)) (Activated s v) _ _
          (bind_rule {A = Unit {0}} (λ _. Rest s) (λ _. Ready) (Activated s v) prepare _
            (λ ps d h.
              Ends-weaken (Rest s) (Sound s) (Activated s v) _ (λ d h. inl h)
                (prepare_rule s ps d h))
            (λ a. Ready-rule))
          (λ a. read_state_rule s Ready (Activated s v) (λ d p. p.0) (λ d p. inl (resting p.0))))
        from_rule

-- An activation on a sound disk that stands for `s`, whichever of its writes fail or are cut off. After an
-- error or a stop the disk is sound and stands for `s`, for `s` with no version pending, or for the state
-- behind the activation: nothing in between. After a success it is at rest: either the version was in
-- force already and none is pending, or it is ahead of the recorded floor, is in force, and is the floor.
pub activate_version-Activated :
    (s : SlotState) (v : Bytes) (ps : List Fault) (d : Disk)
    → Sound s d
    → Ends (λ _. Lands s v) (Activated s v) (activate_version v ps d)
activate_version-Activated s v ps d h = activation_rule s v ps d h
