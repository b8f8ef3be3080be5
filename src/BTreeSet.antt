-- ===== src/BTreeSet.antt =====
-- `std::collections::BTreeSet` as a strictly increasing list: the part of its interface that
-- the engine calls, with the laws that the other modules use.
use watchbound.Base.{
  is_empty, ◌+◌, ◌≤◌, ◌≡◌, refl, List, [], ◌∷◌, Bool, true, false, ◌||◌, Option, none, some, arith,
  All, length, if◌then◌else◌, any, true→≢false, inl, inr, retain, not, Bool-cases, ◌&&◌, ◌++◌,
}
use Prim.Native.Nat.Ordering.{lt, eq, gt}
use watchbound.Order.{Ordering-cases, Ord, ◌=?◌, =?_refl, eq_of_=?}

module _ {ℓ} {K : Type ℓ} ⦃o : Ord K⦄ where
  unfoldable pub contains : K → List K → Bool
  contains k s = any (λ x. x =? k) s

  unfoldable pub insert : K → List K → List K
  insert k [] = k ∷ []
  insert k (x ∷ s) =
      let rest = insert k s in elim (o.cmp k x) [ lt ↦ k ∷ x ∷ s | eq ↦ x ∷ s | gt ↦ x ∷ rest ]

  unfoldable pub remove : K → List K → List K
  remove k [] = []
  remove k (x ∷ s) = let rest = remove k s in if x =? k then s else x ∷ rest

  unfoldable pub difference : List K → List K → List K
  difference s t = retain (λ x. not (contains x t)) s

  abbrev pub pop_first : List K → Option K × List K
  pop_first [] = (none, [])
  pop_first (x ∷ s) = (some x, s)

  -- Every key above `k`; strictly increasing.
  abbrev pub Above : K → List K → Type 0
  Above k s = All (λ x. o.cmp k x ≡ lt) s

  abbrev pub IsSorted : List K → Type 0
  IsSorted [] = Unit
  IsSorted (x ∷ s) = Above x s × IsSorted s

  pub Above-trans : (a b : K) (s : List K) → o.cmp a b ≡ lt → Above b s → Above a s
  Above-trans a b [] h u = tt
  Above-trans a b (x ∷ s) h u = (o.cmp_trans a b x h u.0, Above-trans a b s h u.1)

  pub Above-insert : (a k : K) (s : List K) → o.cmp a k ≡ lt → Above a s → Above a (insert k s)
  unfolding insert
  Above-insert a k [] h u = (h, tt)
  Above-insert a k (x ∷ s) h u = ground (arith, Above-insert a k s h u.1)

  pub insert-IsSorted : (k : K) (s : List K) → IsSorted s → IsSorted (insert k s)
  unfolding insert
  insert-IsSorted k [] h = (tt, tt)
  insert-IsSorted k (x ∷ s) h =
      ground (arith, insert-IsSorted k s h.1, Above-insert x k s, Above-trans k x s, o.cmp_flip k x)

  pub contains-insert :
      (j k : K) (s : List K) → contains j (insert k s) ≡ ((k =? j) || contains j s)
  unfolding contains insert
  contains-insert j k [] = refl
  contains-insert j k (x ∷ s) = ground (arith, contains-insert j k s, o.eq_of_cmp k x)

  pub contains-insert_self : (k : K) (s : List K) → contains k (insert k s) ≡ true
  unfolding contains insert
  contains-insert_self k s = ground (arith, contains-insert k k s, =?_refl k)

  pub not-contains-Above : (k : K) (s : List K) → Above k s → contains k s ≡ false
  unfolding contains
  not-contains-Above k [] u = refl
  not-contains-Above k (x ∷ s) u =
      ground (arith, not-contains-Above k s u.1, o.eq_of_cmp x k, o.cmp_refl k)

  pub contains-remove_self : (k : K) (s : List K) → IsSorted s → contains k (remove k s) ≡ false
  unfolding contains remove
  contains-remove_self k [] h = refl
  contains-remove_self k (x ∷ s) h =
      ground (arith, contains-remove_self k s h.1, not-contains-Above x s h.0, o.eq_of_cmp x k)

  pub contains-remove_ne :
      (j k : K) (s : List K) → (k =? j) ≡ false → contains j (remove k s) ≡ contains j s
  unfolding contains remove
  contains-remove_ne j k [] h = refl
  contains-remove_ne j k (x ∷ s) h =
      ground (arith, contains-remove_ne j k s h, o.eq_of_cmp x k, o.eq_of_cmp x j, o.cmp_refl x)

  pub Above-remove : (a k : K) (s : List K) → Above a s → Above a (remove k s)
  unfolding remove
  Above-remove a k [] u = tt
  Above-remove a k (x ∷ s) u = ground (arith, Above-remove a k s u.1)

  pub remove-IsSorted : (k : K) (s : List K) → IsSorted s → IsSorted (remove k s)
  unfolding remove
  remove-IsSorted k [] h = tt
  remove-IsSorted k (x ∷ s) h = ground (arith, remove-IsSorted k s h.1, Above-remove x k s h.0)

  pub length-insert-le : (k : K) (s : List K) → length (insert k s) ≤ length s + 1
  unfolding insert
  length-insert-le k [] = omega arith
  length-insert-le k (x ∷ s) = ground (arith, length-insert-le k s)

  pub length-insert-ge : (k : K) (s : List K) → length s ≤ length (insert k s)
  unfolding insert
  length-insert-ge k [] = omega arith
  length-insert-ge k (x ∷ s) = ground (arith, length-insert-ge k s)

  pub length-remove-le : (k : K) (s : List K) → length (remove k s) ≤ length s
  unfolding remove
  length-remove-le k [] = omega arith
  length-remove-le k (x ∷ s) = ground (arith, length-remove-le k s)

  -- A set with no key outside another has no more keys.
  pub length-subset :
      (s live : List K)
      → IsSorted s
      → IsSorted live
      → ((j : K) → contains j s ≡ true → contains j live ≡ true)
      → length s ≤ length live
  unfolding contains
  length-subset [] live hs hl sub = omega arith
  length-subset (x ∷ s) [] hs hl sub = absurd (true→≢false (sub x (ground (arith, =?_refl x))) refl)
  length-subset (x ∷ s) (u ∷ live) hs hl sub = elim (Ordering-cases (o.cmp x u)) [
    | inl below ↦ absurd (
        true→≢false (sub x (ground (arith, =?_refl x))) (
          ground (
            arith,
            o.cmp_refl x,
            o.eq_of_cmp u x,
            not-contains-Above x live (Above-trans x u live below hl.0),
          )))
    | inr (inl same) ↦
        let tail = length-subset s live hs.1 hl.1 (λ j h.
          ground (arith, sub j, o.eq_of_cmp x u, o.eq_of_cmp u j, not-contains-Above x s hs.0)) in
        omega (arith, tail)
    | inr (inr above) ↦
        let rest = length-subset (x ∷ s) live hs hl.1 (λ j h. ground (
          arith,
          sub j,
          o.eq_of_cmp u j,
          o.eq_of_cmp x j,
          o.cmp_flip x u,
          o.cmp_refl x,
          not-contains-Above u s (Above-trans u x s (o.cmp_flip x u above) hs.0),
        )) in
        omega (arith, rest)
  ]

  pub any-witness :
      (p : K → Bool) (s : List K) → any p s ≡ true → (x : K) × (contains x s ≡ true) × (p x ≡ true)
  unfolding contains
  any-witness p [] h = absurd (true→≢false h refl)
  any-witness p (y ∷ s) h = elim (Bool-cases (p y)) [
    | inl here ↦ (y, ground (arith, =?_refl y), here)
    | inr miss ↦
        let (x, found, hit) = any-witness p s (ground (arith, miss)) in
        (x, ground (arith, found), hit)
  ]

  pub any_of-contains :
      (p : K → Bool) (x : K) (s : List K) → contains x s ≡ true → p x ≡ true → any p s ≡ true
  unfolding contains
  any_of-contains p x [] h k = cc
  any_of-contains p x (y ∷ s) h k = ground (arith, any_of-contains p x s, eq_of_=? y x)

  pub contains-retain :
      (p : K → Bool) (x : K) (s : List K) → contains x (retain p s) ≡ (contains x s && p x)
  unfolding contains
  contains-retain p x [] = refl
  contains-retain p x (y ∷ s) = ground (arith, contains-retain p x s, eq_of_=? y x)

  pub contains-difference :
      (x : K) (s t : List K) → contains x (difference s t) ≡ (contains x s && not (contains x t))
  unfolding difference
  contains-difference x s t = contains-retain (λ y. not (contains y t)) x s

  pub contains-append :
      (x : K) (s t : List K) → contains x (s ++ t) ≡ (contains x s || contains x t)
  unfolding contains
  contains-append x [] t = refl
  contains-append x (y ∷ s) t = ground (arith, contains-append x s t)

  pub contains-is_empty : (x : K) (s : List K) → contains x s ≡ true → is_empty s ≡ false
  unfolding contains
  contains-is_empty x [] h = cc
  contains-is_empty x (y ∷ s) h = refl
