-- ===== src/Firmware/Version/Precedence.antt =====
-- The precedence of release versions is a total preorder, so upgrades only ever go forward.

use Prim.Native.Nat.{Ordering, compare}
use mathlib.Core.Path.{fun_ext, subst}
use minimalrouter.Firmware.Version.{
  ParsedReleaseVersion, compare_identifiers, compare_numeric_strings, compare_parsed,
  compare_prereleases, digits_of, numeric_identifier, select, zip_order,
}
use minimalrouter.Prelude.{
  Bool, Bytes, Comparison, IsOrder, List, Ordering-cases, [], ap, arith, by_key-IsOrder,
  chain-IsOrder, compare-IsOrder, false, inl, inr, length, lexicographic, lexicographic-IsOrder,
  refl, reverse_order, sym, then_with, true, ◌∙◌, ◌∷◌, ◌≡◌,
}

select_flip :
    (p q : Bool) (n w : Ordering)
    → select q p (reverse_order n) (reverse_order w) ≡ reverse_order (select p q n w)
select_flip true true n w = refl
select_flip true false n w = refl
select_flip false true n w = refl
select_flip false false n w = refl

select_eq :
    (p q r : Bool) (n1 w1 n2 w2 n3 w3 : Ordering)
    → select p q n1 w1 ≡ Ordering.eq
    → (n1 ≡ Ordering.eq → n2 ≡ n3)
    → (w1 ≡ Ordering.eq → w2 ≡ w3)
    → select p r n2 w2 ≡ select q r n3 w3
select_eq true true true n1 w1 n2 w2 n3 w3 e f g = f e
select_eq true true false n1 w1 n2 w2 n3 w3 e f g = refl
select_eq false false true n1 w1 n2 w2 n3 w3 e f g = refl
select_eq false false false n1 w1 n2 w2 n3 w3 e f g = g e
select_eq true false r n1 w1 n2 w2 n3 w3 e f g = absurd (cc)
select_eq false true r n1 w1 n2 w2 n3 w3 e f g = absurd (cc)

select_lt :
    (p q r : Bool) (n1 w1 n2 w2 n3 w3 : Ordering)
    → select p q n1 w1 ≡ Ordering.lt
    → select q r n2 w2 ≡ Ordering.lt
    → (n1 ≡ Ordering.lt → n2 ≡ Ordering.lt → n3 ≡ Ordering.lt)
    → (w1 ≡ Ordering.lt → w2 ≡ Ordering.lt → w3 ≡ Ordering.lt)
    → select p r n3 w3 ≡ Ordering.lt
select_lt true true true n1 w1 n2 w2 n3 w3 d e f g = f d e
select_lt true true false n1 w1 n2 w2 n3 w3 d e f g = refl
select_lt true false true n1 w1 n2 w2 n3 w3 d e f g = absurd (cc)
select_lt true false false n1 w1 n2 w2 n3 w3 d e f g = refl
select_lt false true r n1 w1 n2 w2 n3 w3 d e f g = absurd (cc)
select_lt false false true n1 w1 n2 w2 n3 w3 d e f g = absurd (cc)
select_lt false false false n1 w1 n2 w2 n3 w3 d e f g = g d e

select-IsOrder {ℓ} :
    {A : Type ℓ} (p : A → Bool) {c d : Comparison A}
    → IsOrder c
    → IsOrder d
    → IsOrder (λ a b. select (p a) (p b) (c a b) (d a b))
select-IsOrder {A} p {c} {d} hc hd = record {
  flip = λ a b. rw (hc.flip a b, hd.flip a b) (select_flip (p a) (p b) (c a b) (d a b));
  eq_left =
      λ a b x e. select_eq (p a) (p b) (p x) _ _ _ _ _ _ e (hc.eq_left a b x) (hd.eq_left a b x);
  lt_trans = λ a b x e f.
      select_lt (p a) (p b) (p x) _ _ _ _ _ _ e f (hc.lt_trans a b x) (hd.lt_trans a b x);
}

compare_numeric_strings-IsOrder : IsOrder compare_numeric_strings
unfolding compare_numeric_strings
compare_numeric_strings-IsOrder =
    chain-IsOrder {c = λ a b. compare (length (digits_of a)) (length (digits_of b))}
      (by_key-IsOrder (λ a. length (digits_of a)) compare-IsOrder)
      (by_key-IsOrder digits_of (lexicographic-IsOrder compare-IsOrder))

compare_identifiers-IsOrder : IsOrder compare_identifiers
unfolding compare_identifiers
compare_identifiers-IsOrder =
    select-IsOrder numeric_identifier compare_numeric_strings-IsOrder
      (lexicographic-IsOrder compare-IsOrder)

zip_order_lem :
    (xs ys : List Bytes)
    → then_with (zip_order xs ys) (compare (length xs) (length ys))
      ≡ lexicographic compare_identifiers xs ys
unfolding zip_order lexicographic
zip_order_lem [] [] = refl
zip_order_lem [] (y ∷ ys) = ground arith
zip_order_lem (x ∷ xs) [] = ground arith
zip_order_lem (x ∷ xs) (y ∷ ys) = elim (Ordering-cases (compare_identifiers x y)) [
  | inl e ↦ rw e refl
  | inr (inl e) ↦ rw e (ap (then_with (zip_order xs ys)) (ground arith) ∙ zip_order_lem xs ys)
  | inr (inr e) ↦ rw e refl
]

has_prerelease : List Bytes → Bool
has_prerelease [] = false
has_prerelease (_ ∷ _) = true

compare_prereleases_lem :
    (xs ys : List Bytes)
    → compare_prereleases xs ys
      ≡ select
          (has_prerelease xs)
          (has_prerelease ys)
          (lexicographic compare_identifiers xs ys)
          Ordering.eq
unfolding compare_prereleases has_prerelease
compare_prereleases_lem [] [] = refl
compare_prereleases_lem [] (y ∷ ys) = refl
compare_prereleases_lem (x ∷ xs) [] = refl
compare_prereleases_lem (x ∷ xs) (y ∷ ys) = zip_order_lem (x ∷ xs) (y ∷ ys)

always_eq-IsOrder : IsOrder {A = List Bytes} (λ a b. Ordering.eq)
always_eq-IsOrder = record {
  flip = λ a b. refl;
  eq_left = λ a b c e. refl;
  lt_trans = λ a b c e f. e;
}

compare_prereleases-IsOrder : IsOrder compare_prereleases
compare_prereleases-IsOrder =
    subst IsOrder (sym (fun_ext λ xs. fun_ext λ ys. compare_prereleases_lem xs ys)) (
      select-IsOrder has_prerelease (lexicographic-IsOrder compare_identifiers-IsOrder)
        always_eq-IsOrder)

-- The precedence of parsed release versions is a total preorder: comparing the other way round gives
-- the opposite, equal versions compare alike with every other, and "older than" is transitive.
pub compare_parsed-IsOrder : IsOrder compare_parsed
unfolding compare_parsed
compare_parsed-IsOrder =
    let c = compare_numeric_strings-IsOrder in
    chain-IsOrder (by_key-IsOrder (λ (v : ParsedReleaseVersion). v.major) c) (
      chain-IsOrder (by_key-IsOrder (λ (v : ParsedReleaseVersion). v.minor) c) (
        chain-IsOrder (by_key-IsOrder (λ (v : ParsedReleaseVersion). v.patch) c) (
          by_key-IsOrder (λ (v : ParsedReleaseVersion). v.prerelease) compare_prereleases-IsOrder)))
