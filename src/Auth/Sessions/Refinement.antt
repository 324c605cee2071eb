-- ===== src/Auth/Sessions/Refinement.antt =====
-- auth.rs: `SessionManager` as a map from identifiers to sessions.

use minimalrouter.Auth.Sessions.{
  Session, Sessions, create_session, destroy_all_sessions, destroy_session, expired, find_key,
  new_session, sweep, validate_session,
}
use minimalrouter.Auth.Sessions.Table.{
  Distinct, insert-Distinct, lookup, lookup-insert, lookup-remove, lookup-sweep, remove-Distinct,
  sweep-Distinct, unless_expired,
}
use minimalrouter.Prelude.{
  Bool, Bool-cases, Bytes, Option, [], bytes_eq, bytes_eq→eq, if◌then◌else◌, inl, inr, is_empty,
  none, refl, some, ◌∷◌, ◌≡◌, ◌⊎◌,
}
use minimalrouter.Prelude.Int.{ℤ}

abbrev pub Directory : Type 0
Directory = Bytes → Option Session

abbrev pub view : Sessions → Directory
view m k = lookup k m

-- The map, changed at one identifier.
abbrev pub update : Directory → Bytes → Option Session → Directory
update f k o j = if bytes_eq k j then o else f j

pub data Request : Type 0 where
  create : Option Bytes → Option Bytes → Bool → ℤ → Request
  check_cookie : Bytes → ℤ → Request
  destroy : Bytes → Request
  destroy_all : Request
  clean : ℤ → Request

-- What the session manager answers, and does.
abbrev pub serve : (Bytes → Bytes → Bool) → Request → Sessions → Option Session × Sessions
serve ct_eq (create id token read_only now) m = create_session id token read_only now m
serve ct_eq (check_cookie cookie now) m = validate_session ct_eq cookie now m
serve ct_eq (destroy cookie) m = (none, destroy_session cookie m)
serve ct_eq destroy_all m = (none, destroy_all_sessions m)
serve ct_eq (clean now) m = (none, sweep now m)

-- What it promises: a cookie is good for a session in the directory that is neither idle nor too old, and is
-- seen now; otherwise the session is gone.
abbrev promised_validate : Bytes → ℤ → Directory → Option Session → Option Session × Directory
promised_validate cookie now f none = (none, f)
promised_validate cookie now f (some s) =
    let seen = record s { last_seen = now } in
    if expired s now then (none, update f cookie none) else (some seen, update f cookie (some seen))

abbrev promised_create :
    Option Bytes → Option Bytes → Bool → ℤ → Directory → Option Session × Directory
promised_create (some id) (some token) read_only now f =
    let s = new_session id token read_only now in (some s, update f id (some s))
promised_create _ _ read_only now f = (none, f)

abbrev pub promised : Request → Directory → Option Session × Directory
promised (create id token read_only now) f = promised_create id token read_only now f
promised (check_cookie cookie now) f =
    if is_empty cookie then (none, f) else promised_validate cookie now f (f cookie)
promised (destroy cookie) f = if is_empty cookie then (none, f) else (none, update f cookie none)
promised destroy_all f = (none, λ _. none)
promised (clean now) f = (none, λ k. unless_expired now (f k))

-- The answers agree and the tables do, and no identifier stands twice.
abbrev pub Refines : Option Session × Sessions → Option Session × Directory → Type 0
Refines r p = (r.0 ≡ p.0) × ((k : Bytes) → lookup k r.1 ≡ p.1 k) × Distinct r.1

find_key-lookup :
    (ct_eq : Bytes → Bytes → Bool)
    → ((a b : Bytes) → ct_eq a b ≡ bytes_eq a b)
    → (cookie : Bytes) (m : Sessions)
    → (find_key ct_eq cookie m ≡ none) × (lookup cookie m ≡ none)
      ⊎ ((s : Session) × (find_key ct_eq cookie m ≡ some (cookie, s)) × (lookup cookie m ≡ some s))
unfolding find_key lookup
find_key-lookup ct_eq same cookie [] = inl (refl, refl)
find_key-lookup ct_eq same cookie ((k, s) ∷ m) = elim (Bool-cases (bytes_eq k cookie)) [
  | inl e ↦ let q = bytes_eq→eq k cookie e in inr (s, rw (same k cookie, e, q) refl, rw e refl)
  | inr e ↦ rw (same k cookie, e) (find_key-lookup ct_eq same cookie m)
]

-- Every request is answered, and changes the sessions, as promised of a map from identifiers to sessions;
-- `ct_eq` must decide equality.
pub serve-Refines :
    (ct_eq : Bytes → Bytes → Bool) (q : Request) (m : Sessions)
    → ((a b : Bytes) → ct_eq a b ≡ bytes_eq a b)
    → Distinct m
    → Refines (serve ct_eq q m) (promised q (view m))
unfolding create_session validate_session destroy_session destroy_all_sessions lookup
serve-Refines ct_eq (create (some id) (some token) read_only now) m same d =
    let s = new_session id token read_only now in
    (refl, λ k. lookup-insert id k s m, insert-Distinct id s m d)
serve-Refines ct_eq (create none token read_only now) m same d = (refl, λ k. refl, d)
serve-Refines ct_eq (create (some id) none read_only now) m same d = (refl, λ k. refl, d)
serve-Refines ct_eq (destroy []) m same d = (refl, λ k. refl, d)
serve-Refines ct_eq (destroy (x ∷ xs)) m same d =
    (refl, λ k. lookup-remove (x ∷ xs) k m d, remove-Distinct (x ∷ xs) m d)
serve-Refines ct_eq destroy_all m same d = (refl, λ k. refl, tt)
serve-Refines ct_eq (clean now) m same d =
    (refl, λ k. lookup-sweep now k m d, sweep-Distinct now m d)
serve-Refines ct_eq (check_cookie [] now) m same d = (refl, λ k. refl, d)
serve-Refines ct_eq (check_cookie (x ∷ xs) now) m same d =
    let cookie = x ∷ xs in
    elim (find_key-lookup ct_eq same cookie m) [
      | inl (e, f) ↦ rw (e, f, validate_session) (refl, λ (k : Bytes). refl, d)
      | inr (s, e, f) ↦
          let seen = record s { last_seen = now } in
          elim (Bool-cases (expired s now)) [
            | inl q ↦
                rw (e, f, q, validate_session)
                  (refl, λ (k : Bytes). lookup-remove cookie k m d, remove-Distinct cookie m d)
            | inr q ↦
                rw (e, f, q, validate_session)
                  (
                    refl,
                    λ (k : Bytes). lookup-insert cookie k seen m,
                    insert-Distinct cookie seen m d,
                  )
          ]
    ]
