-- ===== src/Order.antt =====
-- Rust's `Ord`: keys with a three-way comparison that decides equality and is a strict order.
-- Instances for numbers and, lexicographically, for lists of an ordered type.
use Prim.Native.Nat.Ordering.{lt, eq, gt}
use watchbound.Base.{
  ℕ, ◌≡◌, refl, List, [], ◌∷◌, Bool, true, false, arith, compare, Ordering, ◌⊎◌, inl, inr,
}

pub record Ord {ℓ} (K : Type ℓ) : Type ℓ where
  pub cmp : K → K → Ordering
  pub cmp_refl : (a : K) → cmp a a ≡ eq
  pub eq_of_cmp : (a b : K) → cmp a b ≡ eq → a ≡ b
  pub cmp_trans : (a b c : K) → cmp a b ≡ lt → cmp b c ≡ lt → cmp a c ≡ lt
  pub cmp_flip : (a b : K) → cmp a b ≡ gt → cmp b a ≡ lt

infix 50 ◌=?◌
abbrev pub ◌=?◌ {ℓ} : {K : Type ℓ} ⦃o : Ord K⦄ → K → K → Bool
◌=?◌ ⦃o⦄ a b = elim (o.cmp a b) [ eq ↦ true | _ ↦ false ]

pub compare_refl : (a : ℕ) → compare a a ≡ eq
compare_refl a = ground arith

pub eq_of_compare : (a b : ℕ) → compare a b ≡ eq → a ≡ b
eq_of_compare a b h = ground arith

pub compare_trans : (a b c : ℕ) → compare a b ≡ lt → compare b c ≡ lt → compare a c ≡ lt
compare_trans a b c h k = ground arith

pub compare_flip : (a b : ℕ) → compare a b ≡ gt → compare b a ≡ lt
compare_flip a b h = ground arith

instance abbrev pub ℕ_ord : Ord ℕ
ℕ_ord = record {
  cmp = compare;
  cmp_refl = compare_refl;
  eq_of_cmp = eq_of_compare;
  cmp_trans = compare_trans;
  cmp_flip = compare_flip;
}

module _ {ℓ} {K : Type ℓ} ⦃o : Ord K⦄ where
  -- The order of slices and paths: the first difference decides.
  abbrev pub cmp_list : List K → List K → Ordering
  cmp_list [] [] = eq
  cmp_list [] (y ∷ ys) = lt
  cmp_list (x ∷ xs) [] = gt
  cmp_list (x ∷ xs) (y ∷ ys) =
      let rest = cmp_list xs ys in elim (o.cmp x y) [ lt ↦ lt | eq ↦ rest | gt ↦ gt ]

  pub cmp_list_refl : (xs : List K) → cmp_list xs xs ≡ eq
  cmp_list_refl [] = refl
  cmp_list_refl (x ∷ xs) = ground (arith, o.cmp_refl x, cmp_list_refl xs)

  pub eq_of_cmp_list : (xs ys : List K) → cmp_list xs ys ≡ eq → xs ≡ ys
  eq_of_cmp_list [] [] h = refl
  eq_of_cmp_list [] (y ∷ ys) h = cc
  eq_of_cmp_list (x ∷ xs) [] h = cc
  eq_of_cmp_list (x ∷ xs) (y ∷ ys) h = ground (arith, o.eq_of_cmp x y, eq_of_cmp_list xs ys)

  pub cmp_list_flip : (xs ys : List K) → cmp_list xs ys ≡ gt → cmp_list ys xs ≡ lt
  cmp_list_flip [] [] h = cc
  cmp_list_flip [] (y ∷ ys) h = cc
  cmp_list_flip (x ∷ xs) [] h = refl
  cmp_list_flip (x ∷ xs) (y ∷ ys) h =
      ground (arith, o.eq_of_cmp x y, o.cmp_refl x, o.cmp_flip x y, cmp_list_flip xs ys)

  pub cmp_list_trans :
      (xs ys zs : List K) → cmp_list xs ys ≡ lt → cmp_list ys zs ≡ lt → cmp_list xs zs ≡ lt
  cmp_list_trans [] [] zs h k = cc
  cmp_list_trans [] (y ∷ ys) [] h k = cc
  cmp_list_trans [] (y ∷ ys) (z ∷ zs) h k = refl
  cmp_list_trans (x ∷ xs) [] zs h k = cc
  cmp_list_trans (x ∷ xs) (y ∷ ys) [] h k = cc
  cmp_list_trans (x ∷ xs) (y ∷ ys) (z ∷ zs) h k = ground (
    arith,
    o.eq_of_cmp x y,
    o.eq_of_cmp y z,
    o.cmp_refl x,
    o.cmp_trans x y z,
    cmp_list_trans xs ys zs,
  )

instance abbrev pub list_ord {ℓ} : {K : Type ℓ} ⦃o : Ord K⦄ → Ord (List K)
list_ord = record {
  cmp = cmp_list;
  cmp_refl = cmp_list_refl;
  eq_of_cmp = eq_of_cmp_list;
  cmp_trans = cmp_list_trans;
  cmp_flip = cmp_list_flip;
}

module _ {ℓ} {K : Type ℓ} ⦃o : Ord K⦄ where
  pub =?_refl : (a : K) → (a =? a) ≡ true
  =?_refl a = ground (arith, o.cmp_refl a)

  pub eq_of_=? : (a b : K) → (a =? b) ≡ true → a ≡ b
  eq_of_=? a b h = ground (arith, o.eq_of_cmp a b)

  pub =?_sym : (a b : K) → (a =? b) ≡ (b =? a)
  =?_sym a b = ground (arith, o.eq_of_cmp a b, o.eq_of_cmp b a, o.cmp_refl a, o.cmp_refl b)

-- To split on a comparison and keep the equation.
pub Ordering-cases : (c : Ordering) → (c ≡ lt) ⊎ (c ≡ eq) ⊎ (c ≡ gt)
Ordering-cases lt = inl refl
Ordering-cases eq = inr (inl refl)
Ordering-cases gt = inr (inr refl)

-- The derived order of a pair: the first components decide.
module _ {ℓ} {A B : Type ℓ} ⦃p : Ord A⦄ ⦃q : Ord B⦄ where
  abbrev pub cmp_pair : A × B → A × B → Ordering
  cmp_pair (a, b) (c, d) = elim (p.cmp a c) [ lt ↦ lt | eq ↦ q.cmp b d | gt ↦ gt ]

  pub cmp_pair_refl : (x : A × B) → cmp_pair x x ≡ eq
  cmp_pair_refl (a, b) = ground (arith, p.cmp_refl a, q.cmp_refl b)

  pub eq_of_cmp_pair : (x y : A × B) → cmp_pair x y ≡ eq → x ≡ y
  eq_of_cmp_pair (a, b) (c, d) h = ground (arith, p.eq_of_cmp a c, q.eq_of_cmp b d)

  pub cmp_pair_trans : (x y z : A × B) → cmp_pair x y ≡ lt → cmp_pair y z ≡ lt → cmp_pair x z ≡ lt
  cmp_pair_trans (a, b) (c, d) (e, f) h k =
      ground (
        arith,
        p.eq_of_cmp a c,
        p.eq_of_cmp c e,
        p.cmp_refl a,
        p.cmp_trans a c e,
        q.cmp_trans b d f,
      )

  pub cmp_pair_flip : (x y : A × B) → cmp_pair x y ≡ gt → cmp_pair y x ≡ lt
  cmp_pair_flip (a, b) (c, d) h =
      ground (arith, p.eq_of_cmp a c, p.cmp_refl a, p.cmp_flip a c, q.cmp_flip b d)

instance abbrev pub pair_ord {ℓ} : {A B : Type ℓ} ⦃p : Ord A⦄ ⦃q : Ord B⦄ → Ord (A × B)
pair_ord = record {
  cmp = cmp_pair;
  cmp_refl = cmp_pair_refl;
  eq_of_cmp = eq_of_cmp_pair;
  cmp_trans = cmp_pair_trans;
  cmp_flip = cmp_pair_flip;
}
