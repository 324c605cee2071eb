-- ===== src/Prelude/Text.antt =====
-- Text as the list of its UTF-8 bytes, which is what Rust's `str` compares, splits and searches.
use Prim.Native.Char.{code}
use Prim.Native.Nat.{ℕ}
use Prim.Native.String.{String}
use mathlib.Core.Path.{◌≡◌, refl}
use mathlib.Core.Bool.{Bool, true, false, ◌&&◌, ◌||◌}
use mathlib.Core.Logic.{◌↔◌}
use mathlib.Core.List.{List, [], ◌∷◌}
use mathlib.Core.Option.{Option, none, some}
use native.Mathlib.Omega.{arith}
use minimalrouter.Prelude.Tests.{leb, ◌==◌, if◌then◌else◌}
use minimalrouter.Prelude.Lists.{any}

abbrev pub Bytes : Type 0
Bytes = List ℕ

-- The bytes of an ASCII literal.
abbrev pub codes : String → Bytes
codes String.[] = []
codes (String.◌∷◌ c s) = code c ∷ codes s

-- `a == b` on strings and on byte slices.
unfoldable pub bytes_eq : Bytes → Bytes → Bool
bytes_eq [] [] = true
bytes_eq [] (_ ∷ _) = false
bytes_eq (_ ∷ _) [] = false
bytes_eq (a ∷ xs) (b ∷ ys) = a == b && bytes_eq xs ys

pub bytes_eq_refl : (a : Bytes) → bytes_eq a a ≡ true
unfolding bytes_eq
bytes_eq_refl [] = refl
bytes_eq_refl (a ∷ xs) = ground (arith, bytes_eq_refl xs)

pub bytes_eq→eq : (a b : Bytes) → bytes_eq a b ≡ true → a ≡ b
unfolding bytes_eq
bytes_eq→eq [] [] h = refl
bytes_eq→eq [] (b ∷ bs) h = cc
bytes_eq→eq (a ∷ xs) [] h = cc
bytes_eq→eq (a ∷ xs) (b ∷ ys) h = ground (arith, bytes_eq→eq xs ys)

pub bytes_eq_iff : (a b : Bytes) → (bytes_eq a b ≡ true) ↔ (a ≡ b)
bytes_eq_iff a b = (bytes_eq→eq a b, λ e. rw e (bytes_eq_refl b))

abbrev pub is_empty : Bytes → Bool
is_empty [] = true
is_empty (_ ∷ _) = false

abbrev pub is_ascii_digit : ℕ → Bool
is_ascii_digit c = leb b'0' c && leb c b'9'

-- `s.contains(c)` for one byte.
abbrev pub contains_byte : ℕ → Bytes → Bool
contains_byte c = any (λ b. b == c)

-- `s.starts_with(p)`, and what `s.strip_prefix(p)` leaves.
unfoldable pub strip_prefix : Bytes → Bytes → Option Bytes
strip_prefix [] s = some s
strip_prefix (_ ∷ _) [] = none
strip_prefix (a ∷ xs) (b ∷ ys) = if a == b then strip_prefix xs ys else none

-- The part of `s` up to the first `c`, and the part after it.
unfoldable pub split_once : ℕ → Bytes → Option (Bytes × Bytes)
split_once c [] = none
split_once c (b ∷ bs) =
    let rest = split_once c bs in
    if b == c then some ([], bs) else elim rest [ none ↦ none | some (l, r) ↦ some (b ∷ l, r) ]

-- `s.split(c)`: there is always at least one part.
abbrev pub push_head : ℕ → List Bytes → List Bytes
push_head b [] = (b ∷ []) ∷ []
push_head b (p ∷ ps) = (b ∷ p) ∷ ps

unfoldable pub split : ℕ → Bytes → List Bytes
split c [] = [] ∷ []
split c (b ∷ bs) = let parts = split c bs in if b == c then [] ∷ parts else push_head b parts

-- ASCII white space, as far as `trim` is given ASCII text.
abbrev pub is_space : ℕ → Bool
is_space c = c == b' ' || (leb 9 c && leb c 13)

unfoldable pub trim_start : Bytes → Bytes
trim_start [] = []
trim_start (b ∷ bs) = let rest = trim_start bs in if is_space b then rest else b ∷ bs
