-- ===== src/Auth/Sessions.antt =====
-- auth.rs, `SessionManager`: the sessions of the administrator, in memory. The hash map is an association
-- list; a time is its number of nanoseconds. The mutex makes the operations run one after another. Random
-- identifiers and the comparison in constant time are parameters.
pub mod Table
pub mod Refinement
use minimalrouter.Prelude.{
  Bool, Bytes, List, Option, [], bytes_eq, if◌then◌else◌, is_empty, none, some, ℕ, ◌||◌, ◌∷◌,
}
use minimalrouter.Prelude.Int.{ltb_ℤ, pos, saturate, ℤ, ◌-ℤ◌}

pub record Session : Type 0 where
  pub id : Bytes
  pub csrf_token : Bytes
  pub read_only : Bool
  pub auth_generation : ℕ
  pub created_at : ℤ
  pub last_seen : ℤ

abbrev pub idle_timeout : ℤ
idle_timeout = pos 1800000000000

abbrev pub absolute_timeout : ℤ
absolute_timeout = pos 28800000000000

unfoldable pub expired : Session → ℤ → Bool
expired s now =
    ltb_ℤ absolute_timeout (saturate (now -ℤ s.created_at))
    || ltb_ℤ idle_timeout (saturate (now -ℤ s.last_seen))

abbrev pub Sessions : Type 0
Sessions = List (Bytes × Session)

-- `HashMap::insert`.
unfoldable pub insert : Bytes → Session → Sessions → Sessions
insert k s [] = (k, s) ∷ []
insert k s ((j, t) ∷ m) = if bytes_eq j k then (k, s) ∷ m else (j, t) ∷ insert k s m

-- `HashMap::remove`.
unfoldable pub remove : Bytes → Sessions → Sessions
remove k [] = []
remove k ((j, t) ∷ m) = if bytes_eq j k then m else (j, t) ∷ remove k m

-- The background thread's `retain`.
unfoldable pub sweep : ℤ → Sessions → Sessions
sweep now [] = []
sweep now ((j, t) ∷ m) = let rest = sweep now m in if expired t now then rest else (j, t) ∷ rest

unfoldable pub new_session : Bytes → Bytes → Bool → ℤ → Session
new_session id csrf_token read_only now = record {
  id = id;
  csrf_token = csrf_token;
  read_only = read_only;
  auth_generation = 0;
  created_at = now;
  last_seen = now;
}

-- `create_session`, with the two random texts, each of which may fail.
unfoldable pub create_session :
    Option Bytes → Option Bytes → Bool → ℤ → Sessions → Option Session × Sessions
create_session (some id) (some csrf_token) read_only now m =
    let s = new_session id csrf_token read_only now in (some s, insert id s m)
create_session _ _ read_only now m = (none, m)

module _ (ct_eq : Bytes → Bytes → Bool) where
  -- The key that a cookie names, with its session.
  unfoldable pub find_key : Bytes → Sessions → Option (Bytes × Session)
  find_key cookie [] = none
  find_key cookie ((k, s) ∷ m) = if ct_eq k cookie then some (k, s) else find_key cookie m

  -- `validate_session`; `none` is ErrUnauthorized.
  unfoldable pub validate_session : Bytes → ℤ → Sessions → Option Session × Sessions
  validate_session cookie now m = if is_empty cookie then (none, m) else elim (find_key cookie m) [
    | none ↦ (none, m)
    | some (k, s) ↦
        let seen = record s { last_seen = now } in
        if expired s now then (none, remove k m) else (some seen, insert k seen m)
  ]

unfoldable pub destroy_session : Bytes → Sessions → Sessions
destroy_session cookie m = if is_empty cookie then m else remove cookie m

unfoldable pub destroy_all_sessions : Sessions → Sessions
destroy_all_sessions m = []
