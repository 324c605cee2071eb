-- ===== src/Firmware/Version.antt =====
-- firmware/mod.rs: the texts of release versions and their precedence.
pub mod Precedence
pub mod Forward
use Prim.Native.Nat.{Ordering, compare}
use minimalrouter.Prelude.{
  Bool, Bytes, Comparison, List, Message, Option, Result, String, [], all, codes, err, false,
  if◌then◌else◌, is_ascii_digit, is_empty, leb, length, lexicographic, none, not, ok, some, split,
  split_once, strip_prefix, text, then_with, true, ℕ, ◌&&◌, ◌==◌, ◌>>=◌, ◌||◌, ◌∷◌,
}

-- Why an operation on the slots fails. `ErrUnknownInstalledVersion` is told apart from the others.
pub data SlotError : Type 0 where
  unknown_installed_version : SlotError
  told : Message → SlotError
  wrapped : String → SlotError → SlotError
  followed : SlotError → String → SlotError → SlotError  -- `"{}\n{}: {}"`
  merged : SlotError → SlotError → SlotError

-- The class `[A-Za-z0-9.-]` of RELEASE_VERSION_PATTERN.
unfoldable pub is_suffix_byte : ℕ → Bool
is_suffix_byte c =
    (leb b'A' c && leb c b'Z')
    || ((leb b'a' c && leb c b'z') || (is_ascii_digit c || (c == b'.' || c == b'-')))

-- Behind the digits at the front.
unfoldable pub after_digits : Bytes → Bytes
after_digits [] = []
after_digits (c ∷ cs) = if is_ascii_digit c then after_digits cs else c ∷ cs

-- `[0-9]+`: what follows it.
unfoldable pub some_digits : Bytes → Option Bytes
some_digits [] = none
some_digits (c ∷ cs) = if is_ascii_digit c then some (after_digits cs) else none

-- `[0-9]+\.`
unfoldable pub digits_dot : Bytes → Option Bytes
digits_dot s = elim (some_digits s) [ none ↦ none | some r ↦ strip_prefix (codes ".") r ]

-- `(?:[-+][A-Za-z0-9.-]+)?$`
unfoldable pub is_suffix : Bytes → Bool
is_suffix [] = true
is_suffix (c ∷ cs) = (c == b'-' || c == b'+') && (not (is_empty cs) && all is_suffix_byte cs)

unfoldable pub strip_v : Bytes → Bytes
strip_v s = elim (strip_prefix (codes "v") s) [ some r ↦ r | none ↦ s ]

-- RELEASE_VERSION_PATTERN.is_match
unfoldable pub is_release_version : Bytes → Bool
is_release_version s = elim (digits_dot (strip_v s)) [
  | none ↦ false
  | some r ↦ elim (digits_dot r) [
    | none ↦ false
    | some q ↦ elim (some_digits q) [ none ↦ false | some t ↦ is_suffix t ]
  ]
]

pub record ParsedReleaseVersion : Type 0 where
  pub major : Bytes
  pub minor : Bytes
  pub patch : Bytes
  pub prerelease : List Bytes

-- What stands before the first `c`.
unfoldable pub before : ℕ → Bytes → Bytes
before c s = elim (split_once c s) [ some (a, _) ↦ a | none ↦ s ]

-- What stands behind the first `c`, or nothing.
unfoldable pub behind : ℕ → Bytes → Bytes
behind c s = elim (split_once c s) [ some (_, b) ↦ b | none ↦ [] ]

unfoldable pub parse_core : List Bytes → List Bytes → Result SlotError ParsedReleaseVersion
parse_core (a ∷ b ∷ c ∷ []) pre = ok (record { major = a; minor = b; patch = c; prerelease = pre })
parse_core _ pre = err (told (text "invalid release version"))

unfoldable pub parse_release_version : Bytes → Result SlotError ParsedReleaseVersion
parse_release_version value =
    let v = before b'+' (strip_v value) in
    let pre = behind b'-' v in
    if is_release_version value
    then parse_core (split b'.' (before b'-' v)) (if is_empty pre then [] else split b'.' pre)
    else err (told (text "invalid release version"))

unfoldable pub numeric_identifier : Bytes → Bool
numeric_identifier value = not (is_empty value) && all is_ascii_digit value

unfoldable pub trim_zeros : Bytes → Bytes
trim_zeros [] = []
trim_zeros (c ∷ cs) = if c == b'0' then trim_zeros cs else c ∷ cs

-- The digits that count, at least one.
unfoldable pub digits_of : Bytes → Bytes
digits_of s = if is_empty (trim_zeros s) then codes "0" else trim_zeros s

unfoldable pub compare_numeric_strings : Comparison Bytes
compare_numeric_strings left right =
    then_with (compare (length (digits_of left)) (length (digits_of right)))
      (lexicographic compare (digits_of left) (digits_of right))

-- By the two classes: within one class by its own comparison, and the first class before the second.
abbrev pub select : Bool → Bool → Ordering → Ordering → Ordering
select true true n w = n
select true false n w = Ordering.lt
select false true n w = Ordering.gt
select false false n w = w

unfoldable pub compare_identifiers : Comparison Bytes
compare_identifiers l r =
    select (numeric_identifier l) (numeric_identifier r) (compare_numeric_strings l r)
      (lexicographic compare l r)

-- The loop over `a.prerelease.iter().zip(&b.prerelease)`.
unfoldable pub zip_order : Comparison (List Bytes)
zip_order [] ys = Ordering.eq
zip_order (x ∷ xs) [] = Ordering.eq
zip_order (x ∷ xs) (y ∷ ys) = then_with (compare_identifiers x y) (zip_order xs ys)

-- A stable version outranks a prerelease.
unfoldable pub compare_prereleases : Comparison (List Bytes)
compare_prereleases [] [] = Ordering.eq
compare_prereleases [] (_ ∷ _) = Ordering.gt
compare_prereleases (_ ∷ _) [] = Ordering.lt
compare_prereleases (x ∷ xs) (y ∷ ys) =
    then_with (zip_order (x ∷ xs) (y ∷ ys)) (compare (length (x ∷ xs)) (length (y ∷ ys)))

unfoldable pub compare_parsed : Comparison ParsedReleaseVersion
compare_parsed a b = then_with (compare_numeric_strings a.major b.major) (
    then_with (compare_numeric_strings a.minor b.minor) (
      then_with (compare_numeric_strings a.patch b.patch)
        (compare_prereleases a.prerelease b.prerelease)))

unfoldable pub compare_release_versions : Bytes → Bytes → Result SlotError Ordering
compare_release_versions left right = do
  a ← parse_release_version left
  b ← parse_release_version right
  ok (compare_parsed a b)

-- `compare(..)? <= 0` refuses.
unfoldable pub validate_forward_upgrade : Bytes → Bytes → Result SlotError (Unit {0})
validate_forward_upgrade candidate current =
    if is_empty current then ok tt else elim (compare_release_versions candidate current) [
      | err e ↦ err e
      | ok Ordering.gt ↦ ok tt
      | ok _ ↦ err (
          told (
            text
              "refusing non-forward update; use the explicit rollback command to return to the previous release"))
    ]
