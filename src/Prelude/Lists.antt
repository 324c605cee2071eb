-- ===== src/Prelude/Lists.antt =====
-- Lists measured and cut by native numbers, under the library's names, and predicates on them.
use minimalrouter.Prelude.Tests.{if◌then◌else◌, Bool-cases}
use native.Mathlib.Omega.{arith}
use mathlib.Core.Option.{some, none, Option}
use mathlib.Core.List.{◌++◌, ◌∷◌, [], List}
use mathlib.Core.Bool.{◌||◌, ◌&&◌, false, true, Bool}
use mathlib.Core.Path.{ap, refl, ◌≡◌}
use mathlib.Core.Logic.{inl, inr}
use Prim.Native.Nat.{min, ◌<◌, ◌-◌, ◌+◌, suc, zero, ℕ}

module _ {ℓ} {A : Type ℓ} where
  abbrev pub length : List A → ℕ
  length [] = 0
  length (x ∷ xs) = suc (length xs)

  abbrev pub get_elem? : List A → ℕ → Option A
  get_elem? [] i = none
  get_elem? (x ∷ xs) zero = some x
  get_elem? (x ∷ xs) (suc i) = get_elem? xs i

  abbrev pub take : ℕ → List A → List A
  take zero xs = []
  take (suc n) [] = []
  take (suc n) (x ∷ xs) = x ∷ take n xs

  abbrev pub drop : ℕ → List A → List A
  drop zero xs = xs
  drop (suc n) [] = []
  drop (suc n) (x ∷ xs) = drop n xs

  abbrev pub replicate : ℕ → A → List A
  replicate zero a = []
  replicate (suc n) a = a ∷ replicate n a

  abbrev pub any : (A → Bool) → List A → Bool
  any p [] = false
  any p (x ∷ xs) = p x || any p xs

  abbrev pub all : (A → Bool) → List A → Bool
  all p [] = true
  all p (x ∷ xs) = p x && all p xs

  -- `P` of every element.
  abbrev pub All {κ} : (A → Type κ) → List A → Type κ
  All P [] = Unit
  All P (x ∷ xs) = P x × All P xs

module _ {ℓ} {A : Type ℓ} where
  pub length-append : (xs ys : List A) → length (xs ++ ys) ≡ length xs + length ys
  length-append [] ys = omega arith
  length-append (x ∷ xs) ys = omega (arith, length-append xs ys)

  pub take-append : (xs ys : List A) → take (length xs) (xs ++ ys) ≡ xs
  take-append [] ys = refl
  take-append (x ∷ xs) ys = ap (λ zs. x ∷ zs) (take-append xs ys)

  pub drop-append : (xs ys : List A) → drop (length xs) (xs ++ ys) ≡ ys
  drop-append [] ys = refl
  drop-append (x ∷ xs) ys = drop-append xs ys

  pub length-take : (n : ℕ) (xs : List A) → length (take n xs) ≡ min n (length xs)
  length-take zero xs = omega arith
  length-take (suc n) [] = omega arith
  length-take (suc n) (x ∷ xs) = omega (arith, length-take n xs)

  pub length-drop : (n : ℕ) (xs : List A) → length (drop n xs) ≡ length xs - n
  length-drop zero xs = omega arith
  length-drop (suc n) [] = omega arith
  length-drop (suc n) (x ∷ xs) = omega (arith, length-drop n xs)

-- Over a small range, every value is checked by evaluation.
unfoldable pub passes_below : ℕ → (ℕ → Bool) → Bool
passes_below zero test = true
passes_below (suc bound) test = if test bound then passes_below bound test else false

-- A test that passes at every number below a bound passes at each of them.
pub passes_below_at :
    (bound : ℕ) (test : ℕ → Bool) (k : ℕ)
    → passes_below bound test ≡ true
    → k < bound
    → test k ≡ true
unfolding passes_below
passes_below_at zero test k passed below = absurd (omega arith)
passes_below_at (suc bound) test k passed below =
    let rest = passes_below_at bound test k in ground (arith, rest)

-- A test holds of some element: where it stands, and which it is.
module _ {ℓ} {A : Type ℓ} (p : A → Bool) where
  pub any_inv :
      (xs : List A) → any p xs ≡ true → (i : ℕ) × (x : A) × (get_elem? xs i ≡ some x) × (p x ≡ true)
  any_inv [] h = absurd (ground arith)
  any_inv (x ∷ xs) h = elim (Bool-cases (p x)) [
    | inl e ↦ (0, x, refl, e)
    | inr e ↦ let (i, y, at, holds) = any_inv xs (rw e at h) in (suc i, y, at, holds)
  ]

  pub any_at :
      (xs : List A) (i : ℕ) {x : A} → get_elem? xs i ≡ some x → p x ≡ true → any p xs ≡ true
  any_at [] i at holds = absurd (ground arith)
  any_at (y ∷ ys) zero {x} at holds = let e : y ≡ x = ground arith in rw (e, holds) refl
  any_at (y ∷ ys) (suc i) at holds =
      let rest = any_at ys i at holds in
      elim (Bool-cases (p y)) [ inl e ↦ rw e refl | inr e ↦ rw (e, rest) refl ]
