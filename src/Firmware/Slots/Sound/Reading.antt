-- ===== src/Firmware/Slots/Sound/Reading.antt =====
-- firmware/slots.rs: what a sound disk reports.
use minimalrouter.Firmware.Disk.{
  Disk, Link, OperationKind, SlotOperation, SlotState, activate, install, rollback, unknown_kind,
}
use minimalrouter.Firmware.Slots.Journal.{
  eq_ℤ, operation_journal_version, validate_floor_text, validate_journal_state,
  validate_journal_version, validate_kind, validate_operation,
}
use minimalrouter.Firmware.Slots.Sound.{Staged, link_of, version_of}
use minimalrouter.Firmware.State.{link_version, require_slot}
use minimalrouter.Firmware.Version.{is_release_version, told, wrapped}
use minimalrouter.Prelude.{
  Bool-cases, Bytes, Result-cases, [], ap, arith, bind_inv, bytes_eq, bytes_eq→eq, err, false,
  if◌then◌else◌, inl, inr, is_empty, map_err, map_err_inv, ok, refl, text, ◌∙◌, ◌∷◌, ◌≡◌,
}

-- What a valid journal says of its two states.
pub record Parts (op : SlotOperation) (d : Disk) : Type 0 where
  pub old_current : Staged d op.old.current
  pub old_previous : Staged d op.old.previous
  pub next_current : Staged d op.next.current
  pub next_previous : Staged d op.next.previous
  pub present : is_empty op.next.current ≡ false

state_parts :
    (d : Disk) (s : SlotState)
    → validate_journal_state d s ≡ ok tt
    → Staged d s.current × Staged d s.previous
unfolding validate_journal_state
state_parts d s h =
    let a = bind_inv (validate_floor_text s.minimum_version) _ tt h in
    let b = bind_inv (validate_journal_version d s.current) _ tt a.2 in
    let c = bind_inv (validate_journal_version d s.previous) _ tt b.2 in (b.1, c.1)

kind_present :
    (kind : OperationKind) (old next : SlotState)
    → validate_kind kind old next ≡ ok tt
    → is_empty next.current ≡ false
unfolding validate_kind
kind_present install old next h = elim (Bool-cases (is_empty next.current)) [
  | inl e ↦ absurd (ground (arith, h, e))
  | inr e ↦ e
]
kind_present activate old next h = elim (Bool-cases (is_empty next.current)) [
  | inl e ↦ absurd (ground (arith, h, e))
  | inr e ↦ e
]
kind_present rollback old next h = elim (Bool-cases (is_empty old.previous)) [
  | inl e ↦ absurd (ground (arith, h, e))
  | inr e ↦ elim (Bool-cases (bytes_eq next.current old.previous)) [
    | inl q ↦ rw (bytes_eq→eq next.current old.previous q) e
    | inr q ↦ absurd (ground (arith, h, e, q))
  ]
]
kind_present (unknown_kind k) old next h = absurd (ground (arith, h))

pub valid-Parts : (d : Disk) (op : SlotOperation) → validate_operation d op ≡ ok tt → Parts op d
unfolding validate_operation
valid-Parts d op h =
    let a =
      bind_inv
        (if eq_ℤ op.version operation_journal_version
          then ok tt
          else err (told (text "unsupported slot operation journal")))
        _ tt h in
    let b =
      bind_inv
        (map_err (wrapped "invalid old slot operation state") (validate_journal_state d op.old)) _
        tt a.2 in
    let c =
      bind_inv
        (map_err (wrapped "invalid next slot operation state") (validate_journal_state d op.next)) _
        tt b.2 in
    let e =
      bind_inv
        (if is_empty op.next.pending
          then ok tt
          else err (told (text "completed slot operation state cannot remain pending")))
        _ tt c.2 in
    let f = bind_inv (validate_kind op.kind op.old op.next) _ tt e.2 in
    let o = state_parts d op.old (map_err_inv _ (validate_journal_state d op.old) tt b.1) in
    let n = state_parts d op.next (map_err_inv _ (validate_journal_state d op.next) tt c.1) in
    record {
      old_current = o.0;
      old_previous = o.1;
      next_current = n.0;
      next_previous = n.1;
      present = kind_present op.kind op.old op.next f.1;
    }

pub link_version-link_of :
    (d : Disk) (v : Bytes) → Staged d v → link_version d (link_of v) ≡ ok (version_of v)
unfolding link_version validate_journal_version
link_version-link_of d [] h = refl
link_version-link_of d (x ∷ xs) h = elim (Bool-cases (is_release_version (x ∷ xs))) [
  | inr e ↦ absurd (ground (arith, h, e))
  | inl e ↦ elim (Result-cases (require_slot d (x ∷ xs))) [
    | inl (u, q) ↦ rw (e, q, link_version) refl
    | inr (u, q) ↦ absurd (ground (arith, h, e, q))
  ]
]

pub link_version-Staged :
    (d : Disk) (l : Link) (v : Bytes)
    → l ≡ link_of v
    → Staged d v
    → link_version d l ≡ ok (version_of v)
link_version-Staged d l v e h = ap (link_version d) e ∙ link_version-link_of d v h
