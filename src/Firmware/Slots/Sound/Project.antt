-- ===== src/Firmware/Slots/Sound/Project.antt =====
-- firmware/slots.rs. What a sound disk stands for, and that it reports it.

use minimalrouter.Firmware.Disk.{Disk, SlotOperation, SlotState, absent}
use minimalrouter.Firmware.Slots.Journal.{
  current_state, project_operation_state, project_pointer, read_operation, validate_operation,
}
use minimalrouter.Firmware.Slots.Sound.{Normal, Staged, Underway, UnderwayAt, link_of, version_of}
use minimalrouter.Firmware.Slots.Sound.Reading.{link_version-Staged, valid-Parts}
use minimalrouter.Firmware.Slots.Sound.Settle.{Written, settled_floor, settled_state}
use minimalrouter.Firmware.State.{link_version}
use minimalrouter.Prelude.{
  Bool-cases, Bytes, Option, [], ap, arith, bytes_eq, bytes_eq_refl, bytes_eq→eq, false, inl, inr,
  is_empty, ok, refl, true, ◌∙◌, ◌∷◌, ◌≡◌,
}

project_from :
    (op : SlotOperation) (d : Disk) (o : Option Bytes) (t : SlotState)
    → validate_operation d op ≡ ok tt
    → link_version d d.current ≡ ok o
    → project_pointer o op ≡ ok t
    → project_operation_state op d ≡ ok t
unfolding project_operation_state
project_from op d o t v l e = rw (v, l, project_operation_state) e

pointer_empty :
    (op : SlotOperation) (v : Bytes)
    → v ≡ op.old.current
    → is_empty v ≡ true
    → project_pointer (version_of v) op ≡ ok op.old
unfolding project_pointer
pointer_empty op [] e b = rw⁻¹ e refl
pointer_empty op (x ∷ xs) e b = absurd (ground (arith, b))

pointer_old :
    (op : SlotOperation) (v : Bytes)
    → is_empty v ≡ false
    → bytes_eq v op.next.current ≡ false
    → bytes_eq v op.old.current ≡ true
    → project_pointer (version_of v) op ≡ ok op.old
unfolding project_pointer
pointer_old op [] b q r = absurd (ground (arith, b))
pointer_old op (x ∷ xs) b q r = rw (q, r, project_pointer) refl

pointer_next :
    (op : SlotOperation) (v : Bytes)
    → is_empty v ≡ false
    → bytes_eq v op.next.current ≡ true
    → project_pointer (version_of v) op ≡ ok op.next
unfolding project_pointer
pointer_next op [] b q = absurd (ground (arith, b))
pointer_next op (x ∷ xs) b q = rw (q, project_pointer) refl

project_before :
    (op : SlotOperation) (d : Disk)
    → Underway op d
    → d.current ≡ link_of op.old.current
    → bytes_eq op.old.current op.next.current ≡ false
    → project_operation_state op d ≡ ok op.old
project_before op d h l differs =
    let c = op.old.current in
    let e = link_version-Staged d d.current c l (valid-Parts d op h.valid).old_current in
    project_from op d (version_of c) op.old h.valid e (elim (Bool-cases (is_empty c)) [
      | inl b ↦ pointer_empty op c refl b
      | inr b ↦ pointer_old op c b differs (bytes_eq_refl c)
    ])

project_after :
    (op : SlotOperation) (d : Disk)
    → Underway op d
    → d.current ≡ link_of op.next.current
    → project_operation_state op d ≡ ok op.next
project_after op d h l =
    let c = op.next.current in
    let p = valid-Parts d op h.valid in
    let e = link_version-Staged d d.current c l p.next_current in
    project_from op d (version_of c) op.next h.valid e
      (pointer_next op c p.present (bytes_eq_refl c))

module _ (op : SlotOperation) (d : Disk) (h : Underway op d) where
  project_next : d.current ≡ link_of op.next.current → (t : SlotState) × UnderwayAt op t d
  project_next l = (
    op.next,
    record { underway = h; projected = project_after op d h l; linked = l; target = inr refl },
  )

  project_old : d.current ≡ link_of op.old.current → (t : SlotState) × UnderwayAt op t d
  project_old l = elim (Bool-cases (bytes_eq op.old.current op.next.current)) [
    | inl same ↦ project_next (l ∙ ap link_of (bytes_eq→eq op.old.current op.next.current same))
    | inr differs ↦ (
      op.old,
      record {
        underway = h;
        projected = project_before op d h l differs;
        linked = l;
        target = inl refl;
      },
    )
  ]

  -- An open operation belongs to the state before it or to the one behind it.
  pub project_underway : (t : SlotState) × UnderwayAt op t d
  project_underway = elim h.side [ inl l ↦ project_old l | inr l ↦ project_next l ]

pub UnderwayAt-Normal :
    {op : SlotOperation} {s : SlotState} {d : Disk} → UnderwayAt op s d → Normal s
UnderwayAt-Normal h = elim h.target [
  | inl e ↦ rw e h.underway.old_normal
  | inr e ↦ rw e h.underway.next_normal
]

-- What a disk without a partial installation shows of a state. At rest: the state file holds it, both
-- pointers point at its versions, and those have slots. While an operation is recorded in the journal,
-- the current pointer tells which of the operation's states it is.
pub data Shows (s : SlotState) (d : Disk) : Type 0 where
  at_rest :
      d.journal ≡ absent
      → d.installation ≡ absent
      → Staged d s.current
      → Staged d s.previous
      → Normal s
      → Written s d
      → Shows s d
  before_switch :
      (op : SlotOperation)
      → Underway op d
      → d.current ≡ link_of op.old.current
      → bytes_eq op.old.current op.next.current ≡ false
      → s ≡ op.old
      → Shows s d
  after_switch :
      (op : SlotOperation)
      → Underway op d
      → d.current ≡ link_of op.next.current
      → s ≡ op.next
      → Shows s d

report_projected :
    (op : SlotOperation) (s : SlotState) (d : Disk)
    → Underway op d
    → project_operation_state op d ≡ ok s
    → Normal s
    → current_state d ≡ ok s
unfolding current_state read_operation
report_projected op s d h projected n =
    let i = settled_floor s d h.no_installation n.finished in
    rw (h.journalled, h.valid, projected, current_state, read_operation) i

-- The slot manager reports the state that the disk shows: at rest the one that the state file and the
-- pointers say, and in the middle of an operation, wherever it was cut off, the one before it as long as
-- the current pointer is on the old version and the one behind it from the switch of that pointer on.
pub current_state-Shows : (s : SlotState) (d : Disk) → Shows s d → current_state d ≡ ok s
unfolding current_state read_operation
current_state-Shows s d (at_rest journal installation current previous n w) =
    rw (journal, current_state, read_operation)
      (settled_state s d current previous n installation w)
current_state-Shows s d (before_switch op h l differs e) =
    rw e (report_projected op op.old d h (project_before op d h l differs) h.old_normal)
current_state-Shows s d (after_switch op h l e) =
    rw e (report_projected op op.next d h (project_after op d h l) h.next_normal)
