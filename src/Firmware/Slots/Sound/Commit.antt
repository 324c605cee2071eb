-- ===== src/Firmware/Slots/Sound/Commit.antt =====
-- firmware/slots.rs. `commit_operation` and `abort_operation`, whatever their writes meet.

use minimalrouter.Firmware.Disk.{
  Disk, Operation, SlotOperation, SlotState, absent, fail, holds, on_error, reading, wrap, ◌>>◌,
}
use minimalrouter.Firmware.Disk.Triple.{
  Triple, bind_rule, fail_rule, on_error_rule, read_rule, wrap_rule, write_rule,
}
use minimalrouter.Firmware.Slots.{
  clear_operation, restore_links, save_state, set_link, write_journal,
}
use minimalrouter.Firmware.Slots.Change.{abort_operation, begin_operation}
use minimalrouter.Firmware.Slots.Journal.{
  validate_journal_state, validate_journal_version, validate_operation,
}
use minimalrouter.Firmware.Slots.Sound.{
  Normal, Rest, Sound, Staged, Underway, interrupted, link_of, resting,
}
use minimalrouter.Firmware.Slots.Sound.Project.{project_underway}
use minimalrouter.Firmware.Slots.Sound.Reading.{valid-Parts}
use minimalrouter.Firmware.Slots.Sound.Restore.{
  Kept, Placed, Stable, clear_operation_rule, restore_links_rule, save_state_rule,
}
use minimalrouter.Firmware.Slots.Sound.Settle.{settled_state}
use minimalrouter.Firmware.State.{require_slot}
use minimalrouter.Firmware.Version.{SlotError, followed, wrapped}
use minimalrouter.Prelude.{ap, inl, inr, ok, refl, ◌≡◌, ◌⊎◌}

module _ (op : SlotOperation) where
  -- The disk stands for the state before the operation or for the one behind it.
  abbrev pub Either : Disk → Type 0
  Either d = (t : SlotState) × Sound t d × ((t ≡ op.old) ⊎ (t ≡ op.next))

  Underway-Either : (d : Disk) → Underway op d → Either d
  Underway-Either d h = let p = project_underway op d h in (p.0, interrupted op p.1, p.1.target)

  module _ (t : SlotState) (one : (t ≡ op.old) ⊎ (t ≡ op.next)) where
    side_at :
        (link_of t.current ≡ link_of op.old.current) ⊎ (link_of t.current ≡ link_of op.next.current)
    side_at = elim one [
      | inl e ↦ inl (ap (λ (s : SlotState). link_of s.current) e)
      | inr e ↦ inr (ap (λ (s : SlotState). link_of s.current) e)
    ]

    either-Staged : (d : Disk) → Underway op d → Staged d t.current × Staged d t.previous
    either-Staged d h =
        let p = valid-Parts d op h.valid in
        elim one [
          | inl e ↦ rw e (p.old_current, p.old_previous)
          | inr e ↦ rw e (p.next_current, p.next_previous)
        ]

    either-Normal : (d : Disk) → Underway op d → Normal t
    either-Normal d h = elim one [ inl e ↦ rw e h.old_normal | inr e ↦ rw e h.next_normal ]

    pub either-Stable : Stable t (Underway op)
    unfolding validate_operation validate_journal_state validate_journal_version require_slot
        set_link
    either-Stable = record {
      current_kept = λ d h. record {
        journalled = h.journalled;
        no_installation = h.no_installation;
        valid = h.valid;
        side = side_at;
        old_normal = h.old_normal;
        next_normal = h.next_normal;
      };
      previous_kept = λ d h. record {
        journalled = h.journalled;
        no_installation = h.no_installation;
        valid = h.valid;
        side = h.side;
        old_normal = h.old_normal;
        next_normal = h.next_normal;
      };
      state_kept = λ d h. record {
        journalled = h.journalled;
        no_installation = h.no_installation;
        valid = h.valid;
        side = h.side;
        old_normal = h.old_normal;
        next_normal = h.next_normal;
      };
      closes = λ d h w.
          let p = either-Staged d h in
          record {
            no_journal = refl;
            no_installation = h.no_installation;
            seen =
                settled_state t (record d { journal = absent }) p.0 p.1 (either-Normal d h)
                  h.no_installation
                  (record {
                    current_link = w.current_link;
                    previous_link = w.previous_link;
                    saved = w.saved;
                  });
            anchored = w.current_link;
          };
    }

  old-Stable : Stable op.old (Underway op)
  old-Stable = either-Stable op.old (inl refl)

  pub next-Stable : Stable op.next (Underway op)
  next-Stable = either-Stable op.next (inr refl)

  step_rule :
      (P R : Disk → Type 0) (m : Operation (Unit {0})) (f : SlotError → SlotError)
      → Triple P m (λ _. R) (Underway op)
      → Triple P (on_error m (λ e. fail (f e))) (λ _. R) Either
  step_rule P R m f h =
      on_error_rule {A = Unit {0}} (λ _. R) (Underway op) Either m _ h Underway-Either
        (λ e. fail_rule {A = Unit {0}} (λ _. R) (f e) Underway-Either)

  old-Either : (d : Disk) → Rest op.old d → Either d
  old-Either d r = (op.old, resting r, inl refl)

  next-Either : (d : Disk) → Rest op.next d → Either d
  next-Either d r = (op.next, resting r, inr refl)

  abbrev PlacedOld : Disk → Type 0
  PlacedOld = Placed op.old (Underway op) old-Stable

  abbrev KeptOld : Disk → Type 0
  KeptOld = Kept op.old (Underway op) old-Stable

  pub abort_rule :
      (Q : Disk → Type 0) (primary : SlotError)
      → Triple (Underway op) (abort_operation op.old primary) (λ _. Q) Either
  unfolding abort_operation
  abort_rule Q primary =
      bind_rule (λ _. Rest op.old) (λ _. Q) Either _ _
        (bind_rule (λ _. KeptOld) (λ _. Rest op.old) Either _ _
          (bind_rule (λ _. PlacedOld) (λ _. KeptOld) Either _ _
            (step_rule (Underway op) PlacedOld (restore_links op.old)
              (followed primary "restore slot pointers")
              (restore_links_rule op.old (Underway op) old-Stable))
            (λ a.
              step_rule PlacedOld KeptOld (save_state op.old)
                (followed primary "restore slot state")
                (save_state_rule op.old (Underway op) old-Stable)))
          (λ a.
            on_error_rule {A = Unit {0}} (λ _. Rest op.old) Either Either clear_operation _
              (clear_operation_rule op.old (Underway op) old-Stable Either Underway-Either
                old-Either)
              (λ d c. c)
              (λ e.
                fail_rule {A = Unit {0}} (λ _. Rest op.old)
                  (followed primary "clear aborted slot operation journal" e) (λ d c. c))))
        (λ a. fail_rule {A = Unit {0}} (λ _. Q) primary old-Either)

  abbrev pub PlacedNext : Disk → Type 0
  PlacedNext = Placed op.next (Underway op) next-Stable

  abbrev KeptNext : Disk → Type 0
  KeptNext = Kept op.next (Underway op) next-Stable

  abbrev Checked : Disk → Type 0
  Checked d = Rest op.old d × (validate_operation d op ≡ ok tt)

  module _ (old_normal : Normal op.old) (next_normal : Normal op.next) where
    begin_open : (d : Disk) → Checked d → Underway op (record d { journal = holds op })
    unfolding validate_operation validate_journal_state validate_journal_version require_slot
    begin_open d c = record {
      journalled = refl;
      no_installation = c.0.no_installation;
      valid = c.1;
      side = inl c.0.anchored;
      old_normal = old_normal;
      next_normal = next_normal;
    }

    begin_rule : Triple (Rest op.old) (begin_operation op) (λ _. Underway op) Either
    unfolding begin_operation write_journal
    begin_rule =
        bind_rule (λ _. Checked) (λ _. Underway op) Either
          (reading (λ (d : Disk). validate_operation d op)) _
          (read_rule (Rest op.old) (λ _. Checked) Either (λ (d : Disk). validate_operation d op)
            old-Either (λ d a r e. (r, e)))
          (λ a.
            write_rule Checked Either (Underway op) (λ d. record d { journal = holds op })
              (λ d c. old-Either d c.0) (λ d c. Underway-Either _ (begin_open d c))
              (λ d c. begin_open d c))

    pub commit_rule :
        (mutate : Operation (Unit {0}))
        → Triple (Underway op) mutate (λ _. PlacedNext) (Underway op)
        → Triple
            (Rest op.old)
            (wrap "persist slot operation journal" (begin_operation op)
              >> on_error mutate (abort_operation op.old)
              >> on_error
                  (save_state op.next)
                  (λ e. abort_operation op.old (wrapped "persist slot state" e))
              >> wrap "clear completed slot operation journal" clear_operation)
            (λ _. Rest op.next)
            Either
    commit_rule mutate h =
        bind_rule (λ _. KeptNext) (λ _. Rest op.next) Either _ _
          (bind_rule (λ _. PlacedNext) (λ _. KeptNext) Either _ _
            (bind_rule (λ _. Underway op) (λ _. PlacedNext) Either _ _
              (wrap_rule (Rest op.old) (λ _. Underway op) Either "persist slot operation journal"
                (begin_operation op) begin_rule)
              (λ a.
                on_error_rule {A = Unit {0}} (λ _. PlacedNext) (Underway op) Either mutate _ h
                  Underway-Either (λ e. abort_rule PlacedNext e)))
            (λ a.
              on_error_rule {A = Unit {0}} (λ _. KeptNext) (Underway op) Either (save_state op.next)
                _ (save_state_rule op.next (Underway op) next-Stable) Underway-Either
                (λ e. abort_rule KeptNext (wrapped "persist slot state" e))))
          (λ a.
            wrap_rule KeptNext (λ _. Rest op.next) Either "clear completed slot operation journal"
              clear_operation
              (clear_operation_rule op.next (Underway op) next-Stable Either Underway-Either
                next-Either))
