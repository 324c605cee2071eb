-- ===== src/Firmware/Version/Forward.antt =====
-- firmware/mod.rs: upgrades that `validate_forward_upgrade` accepts go strictly forward.
use Prim.Native.Nat.{Ordering}
use mathlib.Core.Path.{subst}
use minimalrouter.Firmware.Version.{
  ParsedReleaseVersion, SlotError, compare_parsed, compare_release_versions, parse_release_version,
  validate_forward_upgrade,
}
use minimalrouter.Firmware.Version.Precedence.{compare_parsed-IsOrder}
use minimalrouter.Prelude.{
  Bool-cases, Bytes, List, Ordering-cases, Result, Result-cases, [], arith, compare_self, false,
  get_elem?, gt_trans, inl, inr, is_empty, ok, refl, some, suc, sym, true, zero, ℕ, ◌∙◌, ◌∷◌, ◌≡◌,
  ◌≢◌,
}

-- What an accepted upgrade over a recorded version shows.
pub record IsForward (candidate current : Bytes) : Type 0 where
  pub newer : ParsedReleaseVersion
  pub older : ParsedReleaseVersion
  pub parsed_newer : parse_release_version candidate ≡ ok newer
  pub parsed_older : parse_release_version current ≡ ok older
  pub ahead : compare_parsed newer older ≡ Ordering.gt

pub IsForward-inv :
    (candidate current : Bytes)
    → is_empty current ≡ false
    → validate_forward_upgrade candidate current ≡ ok tt
    → IsForward candidate current
unfolding validate_forward_upgrade compare_release_versions
IsForward-inv candidate current e h = elim (Result-cases (parse_release_version candidate)) [
  | inr (x, p) ↦ absurd (ground (arith, e, h, p))
  | inl (a, p) ↦ elim (Result-cases (parse_release_version current)) [
    | inr (x, q) ↦ absurd (ground (arith, e, h, p, q))
    | inl (b, q) ↦ record {
      newer = a;
      older = b;
      parsed_newer = p;
      parsed_older = q;
      ahead = elim (Ordering-cases (compare_parsed a b)) [
        | inl o ↦ ground (arith, e, h, p, q, o)
        | inr (inl o) ↦ ground (arith, e, h, p, q, o)
        | inr (inr o) ↦ o
      ];
    }
  ]
]

forward_intro :
    (candidate current : Bytes)
    → IsForward candidate current
    → validate_forward_upgrade candidate current ≡ ok tt
unfolding validate_forward_upgrade compare_release_versions
forward_intro candidate current f = elim (Bool-cases (is_empty current)) [
  | inl e ↦ rw (e, validate_forward_upgrade) refl
  | inr e ↦ rw (e, f.parsed_newer, f.parsed_older, f.ahead, validate_forward_upgrade) refl
]

no_floor :
    (candidate current : Bytes)
    → is_empty current ≡ true
    → validate_forward_upgrade candidate current ≡ ok tt
unfolding validate_forward_upgrade
no_floor candidate current e = rw (e, validate_forward_upgrade) refl

ok_injective :
    {a b : ParsedReleaseVersion}
    → ◌≡◌ {A = Result SlotError ParsedReleaseVersion} (ok a) (ok b)
    → a ≡ b
ok_injective e = cc

-- Upgrades compose: what may follow a version that may follow a third may follow that one.
pub validate_forward_upgrade_trans :
    (newest middle oldest : Bytes)
    → is_empty middle ≡ false
    → validate_forward_upgrade newest middle ≡ ok tt
    → validate_forward_upgrade middle oldest ≡ ok tt
    → validate_forward_upgrade newest oldest ≡ ok tt
validate_forward_upgrade_trans newest middle oldest e h k = elim (Bool-cases (is_empty oldest)) [
  | inl o ↦ no_floor newest oldest o
  | inr o ↦
      let f = IsForward-inv newest middle e h in
      let g = IsForward-inv middle oldest o k in
      let same : f.older ≡ g.newer = ok_injective (sym f.parsed_older ∙ g.parsed_newer) in
      forward_intro newest oldest (record {
        newer = f.newer;
        older = g.older;
        parsed_newer = f.parsed_newer;
        parsed_older = g.parsed_older;
        ahead = gt_trans compare_parsed-IsOrder f.newer f.older g.older f.ahead (rw same g.ahead);
      })
]

-- No version may follow itself.
validate_forward_upgrade_irrefl :
    (version : Bytes) → is_empty version ≡ false → validate_forward_upgrade version version ≢ ok tt
validate_forward_upgrade_irrefl version e h =
    let f = IsForward-inv version version e h in
    let same : f.older ≡ f.newer = ok_injective (sym f.parsed_older ∙ f.parsed_newer) in
    let k : compare_parsed f.newer f.newer ≡ Ordering.gt = rw same at f.ahead in
    let z : Ordering.gt ≡ Ordering.eq = sym k ∙ compare_self compare_parsed-IsOrder f.newer in cc

-- Versions that were installed by upgrades, the newest first: each was accepted over the one before it.
abbrev pub IsUpgradeChain : Bytes → List Bytes → Type 0
IsUpgradeChain newest [] = is_empty newest ≡ false
IsUpgradeChain newest (older ∷ oldest) =
    (is_empty newest ≡ false)
    × (validate_forward_upgrade newest older ≡ ok tt)
    × IsUpgradeChain older oldest

IsUpgradeChain-present : (v : Bytes) (vs : List Bytes) → IsUpgradeChain v vs → is_empty v ≡ false
IsUpgradeChain-present v [] c = c
IsUpgradeChain-present v (_ ∷ _) c = c.0

-- Along a chain of accepted upgrades the newest version is accepted over each of the older ones.
IsUpgradeChain-forward :
    (newest : Bytes) (older : List Bytes) (i : ℕ) {v : Bytes}
    → IsUpgradeChain newest older
    → get_elem? older i ≡ some v
    → validate_forward_upgrade newest v ≡ ok tt
IsUpgradeChain-forward newest [] i c at = absurd (ground arith)
IsUpgradeChain-forward newest (w ∷ ws) zero {v} c at =
    let e : w ≡ v = ground arith in
    subst (λ (x : Bytes). validate_forward_upgrade newest x ≡ ok tt) e c.1
IsUpgradeChain-forward newest (w ∷ ws) (suc i) {v} c at =
    validate_forward_upgrade_trans newest w v (IsUpgradeChain-present w ws c.2) c.1
      (IsUpgradeChain-forward w ws i c.2 at)

-- However many upgrades are accepted one after another, the version they end at is none of those that
-- they came from: upgrades never lead back.
pub upgrades_never_return :
    (newest : Bytes) (older : List Bytes) (i : ℕ)
    → IsUpgradeChain newest older
    → get_elem? older i ≢ some newest
upgrades_never_return newest older i c at =
    validate_forward_upgrade_irrefl newest (IsUpgradeChain-present newest older c)
      (IsUpgradeChain-forward newest older i c at)
