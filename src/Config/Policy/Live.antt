-- ===== src/Config/Policy/Live.antt =====
-- The admission of live candidates with the checks of `validate_scenario_safety` in it, and the text that
-- `Display` of `ValidationErrors` (validation.rs) makes of its errors.
use minimalrouter.Config.Model.{SystemConfig}
use minimalrouter.Config.Policy.{Validators, validate_baseline, validate_live_candidate}
use minimalrouter.Config.Policy.Scenario.{
  ValidationError, ValidationErrors, validate_scenario_safety,
}
use minimalrouter.Config.Policy.Scenario.Safe.{IsSafe, validate_scenario_safety-IsSafe}
use minimalrouter.Net.Parse.{Ipv6Std}
use minimalrouter.Prelude.{
  Bytes, List, Message, Option, Option-cases, [], arith, inl, inr, none, refl, some, text, ◌<>◌,
  ◌↔◌, ◌∷◌, ◌≡◌,
}

-- `field: message`.
unfoldable pub show_error : ValidationError → Message
show_error e = e.field <> (text ": " <> e.message)

-- The errors, between semicolons.
unfoldable pub show_errors : ValidationError → List ValidationError → Message
show_errors e [] = show_error e
show_errors e (f ∷ es) = show_error e <> (text "; " <> show_errors f es)

-- `errs.into_result()`, with the error's text.
unfoldable pub into_result : ValidationErrors → Option Message
into_result [] = none
into_result (e ∷ es) = some (show_errors e es)

into_result-none : (es : ValidationErrors) → (into_result es ≡ none) ↔ (es ≡ [])
unfolding into_result
into_result-none [] = (λ h. refl, λ h. refl)
into_result-none (e ∷ es) = (λ h. absurd (ground arith), λ h. absurd (ground arith))

module _ (std : Ipv6Std) (trim : Bytes → Bytes) (validate : SystemConfig → Option Message) where
  abbrev pub live_rules : Validators
  live_rules = record {
    validate = validate;
    scenario_safety = λ c. into_result (validate_scenario_safety std trim c);
  }

  abbrev pub IsComplete : SystemConfig → Type 0
  IsComplete c = (validate c ≡ none) × IsSafe std trim c

  abbrev pub IsBaseline : Option SystemConfig → Type 0
  IsBaseline none = Unit
  IsBaseline (some previous) = IsComplete previous

  scenario-IsSafe :
      (c : SystemConfig)
      → (into_result (validate_scenario_safety std trim c) ≡ none) ↔ IsSafe std trim c
  scenario-IsSafe c =
      let text_of = into_result-none (validate_scenario_safety std trim c) in
      let safe = validate_scenario_safety-IsSafe std trim c in
      (λ h. safe.0 (text_of.0 h), λ h. text_of.1 (safe.1 h))

  validate_baseline-IsBaseline :
      (previous : Option SystemConfig)
      → (validate_baseline live_rules previous ≡ none) ↔ IsBaseline previous
  unfolding validate_baseline
  validate_baseline-IsBaseline none = (λ h. tt, λ h. refl)
  validate_baseline-IsBaseline (some previous) =
      let safe = scenario-IsSafe previous in
      (
        λ h. elim (Option-cases (validate previous)) [
          | inr (m, v) ↦ absurd (ground (arith, h, v))
          | inl v ↦ elim (Option-cases (into_result (validate_scenario_safety std trim previous))) [
            | inr (m, s) ↦ absurd (ground (arith, h, v, s))
            | inl s ↦ (v, safe.0 s)
          ]
        ],
        λ (v, rest). let s = safe.1 rest in ground (arith, v, s),
      )

  -- A live candidate is admitted exactly when it passes the full validation and every check that protects
  -- the management of the router, and so does the configuration that a rollback would return to, where
  -- there is one.
  pub validate_live_candidate-IsComplete :
      (candidate : SystemConfig) (previous : Option SystemConfig)
      → (validate_live_candidate live_rules candidate previous ≡ none)
        ↔ (IsComplete candidate × IsBaseline previous)
  unfolding validate_live_candidate
  validate_live_candidate-IsComplete candidate previous =
      let safe = scenario-IsSafe candidate in
      let baseline = validate_baseline-IsBaseline previous in
      (
        λ h. elim (Option-cases (validate candidate)) [
          | inr (m, v) ↦ absurd (ground (arith, h, v))
          | inl v ↦
              elim (Option-cases (into_result (validate_scenario_safety std trim candidate))) [
                | inr (m, s) ↦ absurd (ground (arith, h, v, s))
                | inl s ↦ ((v, safe.0 s), baseline.0 (ground (arith, h, v, s)))
              ]
        ],
        λ ((v, rest), older).
            let s = safe.1 rest in let b = baseline.1 older in ground (arith, v, s, b),
      )
