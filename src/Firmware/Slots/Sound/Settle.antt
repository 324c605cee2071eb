-- ===== src/Firmware/Slots/Sound/Settle.antt =====
-- firmware/slots.rs. A disk at rest: what its state file and its pointers say together.
use minimalrouter.Firmware.Disk.{Disk, SlotState, absent, holds}
use minimalrouter.Firmware.Slots.Sound.{Normal, Staged, link_of, version_of}
use minimalrouter.Firmware.Slots.Sound.Reading.{link_version-Staged}
use minimalrouter.Firmware.State.{
  apply_installation_floor, link_version, point_current, point_previous, saved_state,
  state_without_operation,
}
use minimalrouter.Prelude.{
  Bool, Bool-cases, Bytes, Option, [], ap, bytes_eq, false, if◌then◌else◌, inl, inr, ok, refl, sym,
  ◌∙◌, ◌∷◌, ◌≡◌,
}

-- Both pointers and the state file say `s`.
pub record Written (s : SlotState) (d : Disk) : Type 0 where
  pub current_link : d.current ≡ link_of s.current
  pub previous_link : d.previous ≡ link_of s.previous
  pub saved : d.state ≡ holds s

kept_pending :
    (s : SlotState)
    → Normal s
    → (if bytes_eq s.pending s.current then [] else s.pending) ≡ s.pending
kept_pending s h = elim h.settled [
  | inl e ↦ elim (Bool-cases (bytes_eq s.pending s.current)) [
    | inl q ↦ rw q (sym e)
    | inr q ↦ rw q refl
  ]
  | inr q ↦ rw q refl
]

current_again :
    (s : SlotState) (v : Bytes) → v ≡ s.current → Normal s → point_current (version_of v) s ≡ s
unfolding point_current
current_again s [] e h = refl
current_again s (x ∷ xs) e h =
    rw e (ap (λ (p : Bytes). record s { pending = p }) (kept_pending s h))

previous_again : (s : SlotState) (v : Bytes) → v ≡ s.previous → point_previous (version_of v) s ≡ s
unfolding point_previous
previous_again s [] e = refl
previous_again s (x ∷ xs) e = ap (λ (p : Bytes). record s { previous = p }) e

pub settled_floor :
    (s : SlotState) (d : Disk)
    → d.installation ≡ absent
    → s.installation_pending ≡ false
    → apply_installation_floor d s ≡ ok s
unfolding apply_installation_floor
settled_floor s d i n =
    simp (i, apply_installation_floor)
      (ap (λ (b : Bool). ok (record s { installation_pending = b })) (sym n))

pub saved_state-holds : (s : SlotState) (d : Disk) → d.state ≡ holds s → saved_state d ≡ ok s
unfolding saved_state
saved_state-holds s d e = rw (e, saved_state) refl

pub state_from :
    (d : Disk) (s : SlotState) (c p : Option Bytes)
    → saved_state d ≡ ok s
    → link_version d d.current ≡ ok c
    → link_version d d.previous ≡ ok p
    → state_without_operation d ≡ apply_installation_floor d (point_previous p (point_current c s))
unfolding state_without_operation
state_from d s c p e f g = rw (e, f, g, state_without_operation) refl

pub settled_state :
    (s : SlotState) (d : Disk)
    → Staged d s.current
    → Staged d s.previous
    → Normal s
    → d.installation ≡ absent
    → Written s d
    → state_without_operation d ≡ ok s
settled_state s d c p n i w =
    let e = link_version-Staged d d.current s.current w.current_link c in
    let f = link_version-Staged d d.previous s.previous w.previous_link p in
    let same : point_previous (version_of s.previous) (point_current (version_of s.current) s) ≡ s =
      ap (point_previous (version_of s.previous)) (current_again s s.current refl n)
      ∙ previous_again s s.previous refl in
    state_from d s (version_of s.current) (version_of s.previous) (saved_state-holds s d w.saved) e
      f
    ∙ ap (apply_installation_floor d) same
    ∙ settled_floor s d i n.finished
