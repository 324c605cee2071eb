-- ===== src/Prelude/Compare.antt =====
-- Comparisons as Rust's `Ord` builds them: by a key, one after another, and along lists; and their laws.
use Prim.Native.Nat.{Ordering, compare}
use mathlib.Core.Path.{◌≡◌, refl, sym, ap, ◌∙◌}
use mathlib.Core.Logic.{◌⊎◌, inl, inr}
use mathlib.Core.List.{List, [], ◌∷◌}
use native.Mathlib.Omega.{arith}

abbrev pub reverse_order : Ordering → Ordering
reverse_order Ordering.lt = Ordering.gt
reverse_order Ordering.eq = Ordering.eq
reverse_order Ordering.gt = Ordering.lt

-- `a.then_with(|| b)`.
abbrev pub then_with : Ordering → Ordering → Ordering
then_with Ordering.lt o = Ordering.lt
then_with Ordering.eq o = o
then_with Ordering.gt o = Ordering.gt

abbrev pub Comparison {ℓ} : Type ℓ → Type ℓ
Comparison A = A → A → Ordering

-- What a comparison owes: it is that of a total preorder.
pub record IsOrder {ℓ} {A : Type ℓ} (cmp : Comparison A) : Type ℓ where
  pub flip : (a b : A) → cmp b a ≡ reverse_order (cmp a b)
  pub eq_left : (a b c : A) → cmp a b ≡ Ordering.eq → cmp a c ≡ cmp b c
  pub lt_trans : (a b c : A) → cmp a b ≡ Ordering.lt → cmp b c ≡ Ordering.lt → cmp a c ≡ Ordering.lt

pub Ordering-cases : (o : Ordering) → (o ≡ Ordering.lt) ⊎ ((o ≡ Ordering.eq) ⊎ (o ≡ Ordering.gt))
Ordering-cases Ordering.lt = inl refl
Ordering-cases Ordering.eq = inr (inl refl)
Ordering-cases Ordering.gt = inr (inr refl)

reverse-then_with :
    (a b : Ordering) → reverse_order (then_with a b) ≡ then_with (reverse_order a) (reverse_order b)
reverse-then_with Ordering.lt b = refl
reverse-then_with Ordering.eq b = refl
reverse-then_with Ordering.gt b = refl

pub compare-IsOrder : IsOrder compare
compare-IsOrder = record {
  flip = λ a b. ground arith;
  eq_left = λ a b c h. ground arith;
  lt_trans = λ a b c h k. ground arith;
}

-- Comparison by a key.
abbrev pub by_key {ℓ κ} : {A : Type ℓ} {B : Type κ} → (A → B) → Comparison B → Comparison A
by_key f cmp a b = cmp (f a) (f b)

pub by_key-IsOrder {ℓ κ} :
    {A : Type ℓ} {B : Type κ} (f : A → B) {cmp : Comparison B}
    → IsOrder cmp
    → IsOrder (by_key f cmp)
by_key-IsOrder f h = record {
  flip = λ a b. h.flip (f a) (f b);
  eq_left = λ a b c. h.eq_left (f a) (f b) (f c);
  lt_trans = λ a b c. h.lt_trans (f a) (f b) (f c);
}

module _ {ℓ} {A : Type ℓ} {cmp : Comparison A} (h : IsOrder cmp) where
  pub eq_right : (a b c : A) → cmp b c ≡ Ordering.eq → cmp a b ≡ cmp a c
  eq_right a b c e = h.flip b a ∙ ap reverse_order (h.eq_left b c a e) ∙ sym (h.flip c a)

  pub gt_trans : (a b c : A) → cmp a b ≡ Ordering.gt → cmp b c ≡ Ordering.gt → cmp a c ≡ Ordering.gt
  gt_trans a b c p q =
      h.flip c a
      ∙ ap reverse_order
          (h.lt_trans c b a (h.flip b c ∙ ap reverse_order q) (h.flip a b ∙ ap reverse_order p))

  pub compare_self : (a : A) → cmp a a ≡ Ordering.eq
  compare_self a = elim (Ordering-cases (cmp a a)) [
    | inl e ↦ let k = h.flip a a in cc
    | inr (inl e) ↦ e
    | inr (inr e) ↦ let k = h.flip a a in cc
  ]

-- One comparison, then another.
abbrev pub chain {ℓ} : {A : Type ℓ} → Comparison A → Comparison A → Comparison A
chain c d a b = then_with (c a b) (d a b)

pub chain-IsOrder {ℓ} :
    {A : Type ℓ} {c d : Comparison A} → IsOrder c → IsOrder d → IsOrder (chain c d)
chain-IsOrder {A} {c} {d} hc hd = record {
  flip = λ a b. rw (hc.flip a b, hd.flip a b) (sym (reverse-then_with (c a b) (d a b)));
  eq_left = λ a b x e. eq_step a b x e;
  lt_trans = λ a b x p q. lt_step a b x p q;
}
  where
    eq_step : (a b x : A) → chain c d a b ≡ Ordering.eq → chain c d a x ≡ chain c d b x
    eq_step a b x e = elim (Ordering-cases (c a b)) [
      | inl p ↦ absurd (let z : Ordering.lt ≡ Ordering.eq = rw p at e in cc)
      | inr (inl p) ↦
          let q : d a b ≡ Ordering.eq = rw p at e in
          rw (hc.eq_left a b x p, hd.eq_left a b x q) refl
      | inr (inr p) ↦ absurd (let z : Ordering.gt ≡ Ordering.eq = rw p at e in cc)
    ]

    lt_step :
        (a b x : A)
        → chain c d a b ≡ Ordering.lt
        → chain c d b x ≡ Ordering.lt
        → chain c d a x ≡ Ordering.lt
    lt_step a b x p q = elim (Ordering-cases (c a b)) [
      | inl u ↦ elim (Ordering-cases (c b x)) [
        | inl v ↦ rw (hc.lt_trans a b x u v) refl
        | inr (inl v) ↦ rw (sym (eq_right hc a b x v), u) refl
        | inr (inr v) ↦ absurd (let z : Ordering.gt ≡ Ordering.lt = rw v at q in cc)
      ]
      | inr (inl u) ↦ elim (Ordering-cases (c b x)) [
        | inl v ↦ rw (hc.eq_left a b x u, v) refl
        | inr (inl v) ↦ rw (hc.eq_left a b x u, v) (hd.lt_trans a b x (rw u at p) (rw v at q))
        | inr (inr v) ↦ absurd (let z : Ordering.gt ≡ Ordering.lt = rw v at q in cc)
      ]
      | inr (inr u) ↦ absurd (let z : Ordering.gt ≡ Ordering.lt = rw u at p in cc)
    ]

-- Lexicographic comparison of slices: a proper prefix comes first.
module _ {ℓ} {A : Type ℓ} (cmp : Comparison A) where
  unfoldable pub lexicographic : Comparison (List A)
  lexicographic [] [] = Ordering.eq
  lexicographic [] (_ ∷ _) = Ordering.lt
  lexicographic (_ ∷ _) [] = Ordering.gt
  lexicographic (a ∷ xs) (b ∷ ys) = then_with (cmp a b) (lexicographic xs ys)

module _ {ℓ} {A : Type ℓ} {cmp : Comparison A} (h : IsOrder cmp) where
  lexicographic_flip :
      (xs ys : List A) → lexicographic cmp ys xs ≡ reverse_order (lexicographic cmp xs ys)
  unfolding lexicographic
  lexicographic_flip [] [] = refl
  lexicographic_flip [] (y ∷ ys) = refl
  lexicographic_flip (x ∷ xs) [] = refl
  lexicographic_flip (x ∷ xs) (y ∷ ys) =
      rw (h.flip x y, lexicographic_flip xs ys)
        (sym (reverse-then_with (cmp x y) (lexicographic cmp xs ys)))

  lexicographic_eq :
      (xs ys zs : List A)
      → lexicographic cmp xs ys ≡ Ordering.eq
      → lexicographic cmp xs zs ≡ lexicographic cmp ys zs
  unfolding lexicographic
  lexicographic_eq [] [] zs e = refl
  lexicographic_eq [] (y ∷ ys) zs e = absurd (cc)
  lexicographic_eq (x ∷ xs) [] zs e = absurd (cc)
  lexicographic_eq (x ∷ xs) (y ∷ ys) [] e = refl
  lexicographic_eq (x ∷ xs) (y ∷ ys) (z ∷ zs) e = elim (Ordering-cases (cmp x y)) [
    | inl p ↦ absurd (let k : Ordering.lt ≡ Ordering.eq = rw p at e in cc)
    | inr (inl p) ↦
        let q : lexicographic cmp xs ys ≡ Ordering.eq = rw p at e in
        rw (h.eq_left x y z p, lexicographic_eq xs ys zs q) refl
    | inr (inr p) ↦ absurd (let k : Ordering.gt ≡ Ordering.eq = rw p at e in cc)
  ]

  lexicographic_lt :
      (xs ys zs : List A)
      → lexicographic cmp xs ys ≡ Ordering.lt
      → lexicographic cmp ys zs ≡ Ordering.lt
      → lexicographic cmp xs zs ≡ Ordering.lt
  unfolding lexicographic
  lexicographic_lt [] [] zs p q = absurd (cc)
  lexicographic_lt [] (y ∷ ys) [] p q = absurd (cc)
  lexicographic_lt [] (y ∷ ys) (z ∷ zs) p q = refl
  lexicographic_lt (x ∷ xs) [] zs p q = absurd (cc)
  lexicographic_lt (x ∷ xs) (y ∷ ys) [] p q = absurd (cc)
  lexicographic_lt (x ∷ xs) (y ∷ ys) (z ∷ zs) p q = elim (Ordering-cases (cmp x y)) [
    | inl u ↦ elim (Ordering-cases (cmp y z)) [
      | inl v ↦ rw (h.lt_trans x y z u v) refl
      | inr (inl v) ↦ rw (sym (eq_right h x y z v), u) refl
      | inr (inr v) ↦ absurd (let k : Ordering.gt ≡ Ordering.lt = rw v at q in cc)
    ]
    | inr (inl u) ↦ elim (Ordering-cases (cmp y z)) [
      | inl v ↦ rw (h.eq_left x y z u, v) refl
      | inr (inl v) ↦ rw (h.eq_left x y z u, v) (lexicographic_lt xs ys zs (rw u at p) (rw v at q))
      | inr (inr v) ↦ absurd (let k : Ordering.gt ≡ Ordering.lt = rw v at q in cc)
    ]
    | inr (inr u) ↦ absurd (let k : Ordering.gt ≡ Ordering.lt = rw u at p in cc)
  ]

  pub lexicographic-IsOrder : IsOrder (lexicographic cmp)
  lexicographic-IsOrder = record {
    flip = lexicographic_flip;
    eq_left = lexicographic_eq;
    lt_trans = lexicographic_lt;
  }
