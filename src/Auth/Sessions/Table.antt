-- ===== src/Auth/Sessions/Table.antt =====
-- auth.rs: the table of sessions as a map.

use minimalrouter.Auth.Sessions.{Session, Sessions, expired, insert, remove, sweep}
use minimalrouter.Prelude.{
  Bool-cases, Bytes, Option, [], ap, arith, bytes_eq, bytes_eq_refl, bytes_eq→eq, false, if_cases,
  if◌then◌else◌, inl, inr, none, refl, some, sym, ◌∙◌, ◌∷◌, ◌≡◌,
}
use minimalrouter.Prelude.Int.{ℤ}

unfoldable pub lookup : Bytes → Sessions → Option Session
lookup k [] = none
lookup k ((j, s) ∷ m) = if bytes_eq j k then some s else lookup k m

-- No key stands twice.
abbrev pub Distinct : Sessions → Type 0
Distinct [] = Unit
Distinct ((k, s) ∷ m) = (lookup k m ≡ none) × Distinct m

pub lookup-insert :
    (k j : Bytes) (s : Session) (m : Sessions)
    → lookup j (insert k s m) ≡ (if bytes_eq k j then some s else lookup j m)
unfolding lookup insert
lookup-insert k j s [] = refl
lookup-insert k j s ((i, t) ∷ m) = elim (Bool-cases (bytes_eq i k)) [
  | inl e ↦ let q = bytes_eq→eq i k e in ground (arith, e, ap (λ (a : Bytes). bytes_eq a j) q)
  | inr e ↦ elim (Bool-cases (bytes_eq k j)) [
    | inl f ↦
        let q = bytes_eq→eq k j f in ground (arith, e, f, ap (bytes_eq i) q, lookup-insert k j s m)
    | inr f ↦ ground (arith, e, f, lookup-insert k j s m)
  ]
]

pub lookup-remove :
    (k j : Bytes) (m : Sessions)
    → Distinct m
    → lookup j (remove k m) ≡ (if bytes_eq k j then none else lookup j m)
unfolding lookup remove
lookup-remove k j [] d = ground arith
lookup-remove k j ((i, t) ∷ m) d = elim (Bool-cases (bytes_eq i k)) [
  | inl e ↦
      let q = bytes_eq→eq i k e in
      elim (Bool-cases (bytes_eq k j)) [
        | inl f ↦
            let r = q ∙ bytes_eq→eq k j f in
            ground (arith, e, f, d.0, ap (λ (a : Bytes). lookup a m) r)
        | inr f ↦ ground (arith, e, f, ap (λ (a : Bytes). bytes_eq a j) q)
      ]
  | inr e ↦ elim (Bool-cases (bytes_eq k j)) [
    | inl f ↦
        let q = bytes_eq→eq k j f in
        ground (arith, e, f, ap (bytes_eq i) q, lookup-remove k j m d.1)
    | inr f ↦ ground (arith, e, f, lookup-remove k j m d.1)
  ]
]

-- What a sweep leaves of a session.
abbrev pub unless_expired : ℤ → Option Session → Option Session
unless_expired now none = none
unless_expired now (some s) = if expired s now then none else some s

pub lookup-sweep :
    (now : ℤ) (j : Bytes) (m : Sessions)
    → Distinct m
    → lookup j (sweep now m) ≡ unless_expired now (lookup j m)
unfolding lookup sweep
lookup-sweep now j [] d = refl
lookup-sweep now j ((i, t) ∷ m) d = elim (Bool-cases (bytes_eq i j)) [
  | inl e ↦
      let q = bytes_eq→eq i j e in
      ground (arith, e, d.0, ap (λ (a : Bytes). lookup a m) q, lookup-sweep now j m d.1)
  | inr e ↦ ground (arith, e, lookup-sweep now j m d.1)
]

absent_insert :
    (k i : Bytes) (s : Session) (m : Sessions)
    → bytes_eq i k ≡ false
    → lookup i m ≡ none
    → lookup i (insert k s m) ≡ none
absent_insert k i s m e h = elim (Bool-cases (bytes_eq k i)) [
  | inl f ↦
      let q : bytes_eq i k ≡ bytes_eq i i = ap (bytes_eq i) (bytes_eq→eq k i f) in
      absurd (ground (arith, e, q, bytes_eq_refl i))
  | inr f ↦ lookup-insert k i s m ∙ (rw f h)
]

absent_remove :
    (k i : Bytes) (m : Sessions) → Distinct m → lookup i m ≡ none → lookup i (remove k m) ≡ none
absent_remove k i m d h =
    lookup-remove k i m d
    ∙ if_cases (λ (o : Option Session). o ≡ none) (bytes_eq k i) _ _ (λ _. refl) (λ _. h)

absent_sweep :
    (now : ℤ) (i : Bytes) (m : Sessions)
    → Distinct m
    → lookup i m ≡ none
    → lookup i (sweep now m) ≡ none
absent_sweep now i m d h = lookup-sweep now i m d ∙ ap (unless_expired now) h

pub insert-Distinct :
    (k : Bytes) (s : Session) (m : Sessions) → Distinct m → Distinct (insert k s m)
unfolding insert lookup
insert-Distinct k s [] d = (refl, tt)
insert-Distinct k s ((i, t) ∷ m) d =
    if_cases Distinct (bytes_eq i k) _ _
      (λ e. (ap (λ (a : Bytes). lookup a m) (sym (bytes_eq→eq i k e)) ∙ d.0, d.1))
      (λ e. (absent_insert k i s m e d.0, insert-Distinct k s m d.1))

pub remove-Distinct : (k : Bytes) (m : Sessions) → Distinct m → Distinct (remove k m)
unfolding remove
remove-Distinct k [] d = tt
remove-Distinct k ((i, t) ∷ m) d =
    if_cases Distinct (bytes_eq i k) _ _ (λ _. d.1)
      (λ _. (absent_remove k i m d.1 d.0, remove-Distinct k m d.1))

pub sweep-Distinct : (now : ℤ) (m : Sessions) → Distinct m → Distinct (sweep now m)
unfolding sweep
sweep-Distinct now [] d = tt
sweep-Distinct now ((i, t) ∷ m) d =
    if_cases Distinct (expired t now) _ _ (λ _. sweep-Distinct now m d.1)
      (λ _. (absent_sweep now i m d.1 d.0, sweep-Distinct now m d.1))
