-- ===== src/Apply/Engine/Calls.antt =====
-- engine.rs, `apply_privileged`: how often the helper is called, and which answers are believed.

use minimalrouter.Apply.Engine.{Environment, Machine, called, privileged_apply_attempts}
use minimalrouter.Apply.Engine.Blocked.{effects}
use minimalrouter.Apply.Engine.Privileged.{apply_privileged, attempt, call, checked, instant_now}
use minimalrouter.Apply.Ipc.{ApplyRequest, ApplyResponse, Outcome, flags, response_flags, validate}
use minimalrouter.Apply.Ipc.Outcomes.{validate_outcomes}
use minimalrouter.Prelude.{
  Bool-cases, List, Message, Option, Option-cases, Result-cases, ap, arith, inl, inr, leb, none, ok,
  refl, replicate, some, suc, zero, ℕ, ◌++◌, ◌∙◌, ◌∷◌, ◌≡◌, ◌≤◌,
}

replicate-shift {ℓ} :
    {A : Type ℓ} (k : ℕ) (x : A) (xs : List A)
    → replicate k x ++ (x ∷ xs) ≡ replicate (suc k) x ++ xs
replicate-shift zero x xs = refl
replicate-shift (suc k) x xs = ap (λ ys. x ∷ ys) (replicate-shift k x xs)

checked-valid : (r resp : ApplyResponse) → checked r ≡ ok resp → validate resp ≡ none
unfolding checked
checked-valid r resp h = elim (Option-cases (validate r)) [
  | inl e ↦ ground (arith, h, e)
  | inr (x, e) ↦ ground (arith, h, e)
]

module _ (env : Environment) where
  attempt-effects :
      (n deadline : ℕ) (req : ApplyRequest) (last : Option Message) (m : Machine env)
      → (k : ℕ) × (k ≤ n)
        × (effects (attempt env n deadline req last m).1.log
            ≡ replicate k (called req) ++ effects m.log)
  unfolding attempt call instant_now
  attempt-effects zero deadline req last m = (0, omega arith, refl)
  attempt-effects (suc n) deadline req last m =
      let m2 = (call env deadline req (instant_now env m).1).1 in
      elim (Bool-cases (leb deadline (instant_now env m).0)) [
        | inl late ↦ (0, omega arith, rw (late, attempt) refl)
        | inr early ↦ elim (Result-cases (call env deadline req (instant_now env m).1).0) [
          | inl (resp, e) ↦ (1, omega arith, rw (early, e, attempt) refl)
          | inr (x, e) ↦
              let (k, le, eq) = attempt-effects n deadline req (some x) m2 in
              (
                suc k,
                omega arith,
                rw (early, e, attempt) (eq ∙ replicate-shift k (called req) (effects m.log)),
              )
        ]
      ]

  -- One privileged operation calls the helper at most twice, each time with the same request, and
  -- saves nothing.
  pub apply_privileged-effects :
      (deadline : ℕ) (req : ApplyRequest) (m : Machine env)
      → (k : ℕ) × (k ≤ privileged_apply_attempts)
        × (effects (apply_privileged env deadline req m).1.log
            ≡ replicate k (called req) ++ effects m.log)
  unfolding apply_privileged
  apply_privileged-effects deadline req m = attempt-effects 2 deadline req none m

  attempt-valid :
      (n deadline : ℕ) (req : ApplyRequest) (last : Option Message) (m : Machine env)
      (resp : ApplyResponse)
      → (attempt env n deadline req last m).0 ≡ ok resp
      → validate resp ≡ none
  unfolding attempt
  attempt-valid zero deadline req last m resp h = ground (arith, h)
  attempt-valid (suc n) deadline req last m resp h =
      let m2 = (call env deadline req (instant_now env m).1).1 in
      elim (Bool-cases (leb deadline (instant_now env m).0)) [
        | inl late ↦ ground (arith, h, late)
        | inr early ↦ elim (Result-cases (call env deadline req (instant_now env m).1).0) [
          | inl (answer, e) ↦ checked-valid answer resp (rw (early, e, attempt) at h)
          | inr (x, e) ↦ attempt-valid n deadline req (some x) m2 resp (rw (early, e, attempt) at h)
        ]
      ]

  -- An answer that `apply_privileged` returns is never a contradictory one: it claims one of the
  -- four outcomes, whatever the helper sent.
  pub apply_privileged-outcome :
      (deadline : ℕ) (req : ApplyRequest) (m : Machine env) (resp : ApplyResponse)
      → (apply_privileged env deadline req m).0 ≡ ok resp
      → (o : Outcome) × (response_flags resp ≡ flags o)
  unfolding apply_privileged
  apply_privileged-outcome deadline req m resp h =
      (validate_outcomes resp).0 (attempt-valid 2 deadline req none m resp h)
