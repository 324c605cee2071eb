-- ===== src/Apply/Ipc/Outcomes.antt =====
-- The outcomes that `ApplyResponse::validate` lets a helper claim.

use minimalrouter.Apply.Ipc.{
  ApplyResponse, Outcome, flags, not_applied, outcome, recovery_needed, response_flags, validate,
  verified_candidate, verified_rollback,
}
use minimalrouter.Prelude.{Bool, Bool-cases, ap, arith, inl, inr, none, refl, ◌↔◌, ◌≡◌}

outcome_allowed : (r : ApplyResponse) (o : Outcome) → response_flags r ≡ flags o → validate r ≡ none
unfolding validate
outcome_allowed r o h =
    let s : r.success ≡ (flags o).0 = ap (λ (t : Bool × Bool × Bool × Bool). t.0) h in
    let v : r.verified ≡ (flags o).1 = ap (λ (t : Bool × Bool × Bool × Bool). t.1) h in
    let b : r.rolled_back ≡ (flags o).2 = ap (λ (t : Bool × Bool × Bool × Bool). t.2) h in
    let q : r.recovery_required ≡ (flags o).3 = ap (λ (t : Bool × Bool × Bool × Bool). t.3) h in
    go o s v b q
  where
    go :
        (o : Outcome)
        → r.success ≡ (flags o).0
        → r.verified ≡ (flags o).1
        → r.rolled_back ≡ (flags o).2
        → r.recovery_required ≡ (flags o).3
        → validate r ≡ none
    go verified_candidate s v b q = ground arith
    go not_applied s v b q = ground arith
    go verified_rollback s v b q = ground arith
    go recovery_needed s v b q = ground arith

flags-outcome : (r : ApplyResponse) → validate r ≡ none → response_flags r ≡ flags (outcome r)
unfolding validate outcome
flags-outcome r h = elim (Bool-cases r.success) [
  | inl s ↦ elim (Bool-cases r.verified) [
    | inr v ↦ ground (arith, h, s, v)
    | inl v ↦ elim (Bool-cases r.rolled_back) [
      | inl b ↦ ground (arith, h, s, v, b)
      | inr b ↦ elim (Bool-cases r.recovery_required) [
        | inl q ↦ ground (arith, h, s, v, b, q)
        | inr q ↦ rw (s, v, b, q) refl
      ]
    ]
  ]
  | inr s ↦ elim (Bool-cases r.verified) [
    | inl v ↦ ground (arith, h, s, v)
    | inr v ↦ elim (Bool-cases r.rolled_back) [
      | inl b ↦ elim (Bool-cases r.recovery_required) [
        | inl q ↦ ground (arith, h, s, v, b, q)
        | inr q ↦ rw (s, v, b, q) refl
      ]
      | inr b ↦ elim (Bool-cases r.recovery_required) [
        | inl q ↦ rw (s, v, b, q) refl
        | inr q ↦ rw (s, v, b, q) refl
      ]
    ]
  ]
]

-- An answer of the helper passes the check exactly if its four flags are those of one of the four
-- outcomes: applied and verified, not applied, rolled back, or recovery required.
pub validate_outcomes :
    (r : ApplyResponse) → (validate r ≡ none) ↔ ((o : Outcome) × (response_flags r ≡ flags o))
validate_outcomes r = (λ h. (outcome r, flags-outcome r h), λ (o, h). outcome_allowed r o h)
