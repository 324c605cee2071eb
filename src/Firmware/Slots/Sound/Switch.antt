-- ===== src/Firmware/Slots/Sound/Switch.antt =====
-- firmware/slots.rs. `activate` and `rollback`, whatever their writes meet.

use mathlib.Core.Path.{subst}
use minimalrouter.Firmware.Disk.{
  Disk, Operation, Run, SlotOperation, SlotState, activate, cut, done, reading,
}
use minimalrouter.Firmware.Disk.Triple.{Ends, Triple, bind_rule, read_rule, write_rule}
use minimalrouter.Firmware.Slots.{current_link, previous_link, save_state, set_link}
use minimalrouter.Firmware.Slots.Change.{
  activate_from, activate_links, activated, commit_operation, make_operation, rollback_links,
}
use minimalrouter.Firmware.Slots.Sound.{Rest, Sound, Underway, link_of, resting}
use minimalrouter.Firmware.Slots.Sound.Commit.{Either, PlacedNext, commit_rule, next-Stable}
use minimalrouter.Firmware.Slots.Sound.Links.{point_rule, replace_rule}
use minimalrouter.Firmware.Slots.Sound.Reread.{Rest-Normal, Rest-cleared}
use minimalrouter.Firmware.Slots.Sound.Restore.{AtCurrent, Stable}
use minimalrouter.Firmware.State.{check_forward}
use minimalrouter.Prelude.{
  Bytes, [], bytes_eq, bytes_eq→eq, err, false, if_cases, inl, inr, is_empty, ok, refl, ◌≡◌, ◌⊎◌,
}

module _ (op : SlotOperation) (present : is_empty op.next.current ≡ false) where
  abbrev stable : Stable op.next (Underway op)
  stable = next-Stable op

  pub rollback_links_rule :
      Triple (Underway op) (rollback_links op.next) (λ _. PlacedNext op) (Underway op)
  unfolding rollback_links set_link
  rollback_links_rule =
      bind_rule (λ _. AtCurrent op.next (Underway op) stable) (λ _. PlacedNext op) (Underway op) _ _
        (point_rule "restore current slot pointer" current_link op.next.current (Underway op)
          (Underway op) (AtCurrent op.next (Underway op) stable) present (λ d u. u)
          stable.current_kept (λ d u. (stable.current_kept d u, refl)))
        (λ a.
          replace_rule "preserve rollback slot pointer" previous_link op.next.previous
            (AtCurrent op.next (Underway op) stable) (Underway op) (PlacedNext op) (λ d u. u.0)
            (λ d u. stable.previous_kept d u.0) (λ d u. (stable.previous_kept d u.0, u.1, refl)))

-- The disk stands for the state before the activation, with a pending version or none, or behind it.
abbrev pub Activated : SlotState → Bytes → Disk → Type 0
Activated s v d = Sound s d ⊎ Sound (record s { pending = [] }) d ⊎ Sound (activated s v) d

-- A success: the version was in force already, or it goes forward and is so now.
abbrev pub Lands : SlotState → Bytes → Disk → Type 0
Lands s v d =
    (s.current ≡ v) × Rest (record s { pending = [] }) d
    ⊎ (check_forward v s ≡ ok tt) × Rest (activated s v) d

-- An error and a stop may be described more weakly.
pub Ends-weaken :
    (Q C D : Disk → Type 0) (r : Run (Unit {0}))
    → ((d : Disk) → C d → D d)
    → Ends (λ _. Q) C r
    → Ends (λ _. Q) D r
Ends-weaken Q C D (done (ok a) ps d) f h = h
Ends-weaken Q C D (done (err e) ps d) f h = f d h
Ends-weaken Q C D (cut d) f h = f d h

module _ (s : SlotState) (v : Bytes) (present : is_empty v ≡ false) where
  abbrev activation : SlotOperation
  activation = make_operation activate s (activated s v)

  abbrev kept : Stable (activated s v) (Underway activation)
  kept = next-Stable activation

  abbrev AtPrevious : Disk → Type 0
  AtPrevious d = Underway activation d × (d.previous ≡ link_of s.current)

  activate_links_rule :
      Triple
        (Underway activation)
        (activate_links s v)
        (λ _. PlacedNext activation)
        (Underway activation)
  unfolding activate_links set_link
  activate_links_rule =
      bind_rule (λ _. AtPrevious) (λ _. PlacedNext activation) (Underway activation) _ _
        (replace_rule "prepare previous slot pointer" previous_link s.current (Underway activation)
          (Underway activation) AtPrevious (λ d u. u) kept.previous_kept
          (λ d u. (kept.previous_kept d u, refl)))
        (λ a.
          point_rule "activate slot pointer" current_link v AtPrevious (Underway activation)
            (PlacedNext activation) present (λ d u. u.0) (λ d u. kept.current_kept d u.0)
            (λ d u. (kept.current_kept d u.0, refl, u.1)))

  switched : (d : Disk) → Either activation d → Activated s v d
  switched d h = elim h.2 [
    | inl e ↦ inl (subst (λ (t : SlotState). Sound t d) e h.1)
    | inr e ↦ inr (inr (subst (λ (t : SlotState). Sound t d) e h.1))
  ]

  commit_activation :
      Triple
        (Rest s)
        (commit_operation activate s (activated s v) (activate_links s v))
        (λ _. Rest (activated s v))
        (Activated s v)
  unfolding commit_operation
  commit_activation ps d r =
      let n = Rest-Normal s d r in
      Ends-weaken (Rest (activated s v)) (Either activation) (Activated s v) _ switched (
        commit_rule activation n (record { finished = n.finished; settled = inl refl })
          (activate_links s v) activate_links_rule ps d r)

  Ends-forward :
      check_forward v s ≡ ok tt
      → (r : Run (Unit {0})) → Ends (λ _. Rest (activated s v)) (Activated s v) r
      → Ends (λ _. Lands s v) (Activated s v) r
  Ends-forward q (done (ok a) ps d) h = inr (q, h)
  Ends-forward q (done (err e) ps d) h = h
  Ends-forward q (cut d) h = h

  pub activate_from_rule : Triple (Rest s) (activate_from v s) (λ _. Lands s v) (Activated s v)
  unfolding activate_from save_state
  activate_from_rule =
      if_cases (λ (m : Operation (Unit {0})). Triple (Rest s) m (λ _. Lands s v) (Activated s v))
        (bytes_eq s.current v) _ _
        (λ e.
          write_rule (Rest s) (Activated s v) (Lands s v) _ (λ d r. inl (resting r))
            (λ d r. inr (inl (resting (Rest-cleared s d r))))
            (λ d r. inl (bytes_eq→eq s.current v e, Rest-cleared s d r)))
        (λ e.
          bind_rule {A = Unit {0}} (λ _ d. Rest s d × (check_forward v s ≡ ok tt)) (λ _. Lands s v)
            (Activated s v) (reading (λ (d : Disk). check_forward v s)) _
            (read_rule (Rest s) (λ _ d. Rest s d × (check_forward v s ≡ ok tt)) (Activated s v)
              (λ (d : Disk). check_forward v s) (λ d r. inl (resting r)) (λ d a r q. (r, q)))
            (λ a ps d r. Ends-forward r.1 _ (commit_activation ps d r.0)))
