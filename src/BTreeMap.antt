-- ===== src/BTreeMap.antt =====
-- `BTreeMap` and `HashMap` as association lists in key order: the part of their interface that
-- the engine calls. Nothing in the engine reads the iteration order of its hash maps.
use Prim.Native.Nat.Ordering.{lt, eq, gt}
use watchbound.Base.{
  ◌+◌, ◌≡◌, refl, List, [], ◌∷◌, Bool, false, Option, none, some, arith, All, length, if◌then◌else◌,
  is_some, map,
}
use watchbound.Order.{Ord, ◌=?◌}

module _ {ℓ} {K V : Type ℓ} ⦃o : Ord K⦄ where
  unfoldable pub lookup : K → List (K × V) → Option V
  lookup k [] = none
  lookup k ((j, v) ∷ m) = let rest = lookup k m in if j =? k then some v else rest

  unfoldable pub contains_key : K → List (K × V) → Bool
  contains_key k m = is_some (lookup k m)

  unfoldable pub insert : K → V → List (K × V) → List (K × V)
  insert k v [] = (k, v) ∷ []
  insert k v ((j, w) ∷ m) =
      let rest = insert k v m in
      elim (o.cmp k j) [ lt ↦ (k, v) ∷ (j, w) ∷ m | eq ↦ (k, v) ∷ m | gt ↦ (j, w) ∷ rest ]

  unfoldable pub remove : K → List (K × V) → List (K × V)
  remove k [] = []
  remove k ((j, v) ∷ m) = let rest = remove k m in if j =? k then m else (j, v) ∷ rest

  abbrev pub keys : List (K × V) → List K
  keys m = map (λ e. e.0) m

  abbrev pub values : List (K × V) → List V
  values m = map (λ e. e.1) m

  abbrev pub Above : K → List (K × V) → Type 0
  Above k m = All (λ e. o.cmp k e.0 ≡ lt) m

  abbrev pub IsSorted : List (K × V) → Type 0
  IsSorted [] = Unit
  IsSorted ((k, v) ∷ m) = Above k m × IsSorted m

  pub Above-trans : (a b : K) (m : List (K × V)) → o.cmp a b ≡ lt → Above b m → Above a m
  Above-trans a b [] h u = tt
  Above-trans a b ((j, w) ∷ m) h u = (o.cmp_trans a b j h u.0, Above-trans a b m h u.1)

  pub Above-insert :
      (a k : K) (v : V) (m : List (K × V)) → o.cmp a k ≡ lt → Above a m → Above a (insert k v m)
  unfolding insert
  Above-insert a k v [] h u = (h, tt)
  Above-insert a k v ((j, w) ∷ m) h u = ground (arith, Above-insert a k v m h u.1)

  pub insert-IsSorted : (k : K) (v : V) (m : List (K × V)) → IsSorted m → IsSorted (insert k v m)
  unfolding insert
  insert-IsSorted k v [] h = (tt, tt)
  insert-IsSorted k v ((j, w) ∷ m) h = ground (
    arith,
    insert-IsSorted k v m h.1,
    Above-insert j k v m,
    Above-trans k j m,
    o.cmp_flip k j,
    o.eq_of_cmp k j,
  )

  pub lookup-insert_self : (k : K) (v : V) (m : List (K × V)) → lookup k (insert k v m) ≡ some v
  unfolding lookup insert
  lookup-insert_self k v [] = ground (arith, o.cmp_refl k)
  lookup-insert_self k v ((j, w) ∷ m) =
      ground (arith, lookup-insert_self k v m, o.cmp_refl k, o.eq_of_cmp j k)

  pub lookup-insert_ne :
      (i k : K) (v : V) (m : List (K × V)) → (k =? i) ≡ false → lookup i (insert k v m) ≡ lookup i m
  unfolding lookup insert
  lookup-insert_ne i k v [] h = ground arith
  lookup-insert_ne i k v ((j, w) ∷ m) h =
      ground (arith, lookup-insert_ne i k v m h, o.eq_of_cmp k j)

  pub lookup-Above : (k : K) (m : List (K × V)) → Above k m → lookup k m ≡ none
  unfolding lookup
  lookup-Above k [] u = refl
  lookup-Above k ((j, w) ∷ m) u =
      ground (arith, lookup-Above k m u.1, o.eq_of_cmp j k, o.cmp_refl k)

  pub Above-remove : (a k : K) (m : List (K × V)) → Above a m → Above a (remove k m)
  unfolding remove
  Above-remove a k [] u = tt
  Above-remove a k ((j, w) ∷ m) u = ground (arith, Above-remove a k m u.1)

  pub remove-IsSorted : (k : K) (m : List (K × V)) → IsSorted m → IsSorted (remove k m)
  unfolding remove
  remove-IsSorted k [] h = tt
  remove-IsSorted k ((j, w) ∷ m) h = ground (arith, remove-IsSorted k m h.1, Above-remove j k m h.0)

  pub lookup-remove_self : (k : K) (m : List (K × V)) → IsSorted m → lookup k (remove k m) ≡ none
  unfolding lookup remove
  lookup-remove_self k [] h = refl
  lookup-remove_self k ((j, w) ∷ m) h =
      ground (arith, lookup-remove_self k m h.1, lookup-Above j m h.0, o.eq_of_cmp j k)

  pub lookup-remove_ne :
      (i k : K) (m : List (K × V)) → (k =? i) ≡ false → lookup i (remove k m) ≡ lookup i m
  unfolding lookup remove
  lookup-remove_ne i k [] h = refl
  lookup-remove_ne i k ((j, w) ∷ m) h =
      ground (arith, lookup-remove_ne i k m h, o.eq_of_cmp j k, o.eq_of_cmp j i, o.cmp_refl j)

  pub length-remove :
      (k : K) (v : V) (m : List (K × V)) → lookup k m ≡ some v → length (remove k m) + 1 ≡ length m
  unfolding lookup remove
  length-remove k v [] h = cc
  length-remove k v ((j, w) ∷ m) h = ground (arith, length-remove k v m)

  pub length-insert_new :
      (k : K) (v : V) (m : List (K × V)) → lookup k m ≡ none → length (insert k v m) ≡ length m + 1
  unfolding lookup insert
  length-insert_new k v [] h = omega arith
  length-insert_new k v ((j, w) ∷ m) h =
      ground (arith, length-insert_new k v m, o.eq_of_cmp k j, o.cmp_refl k)

  pub length-insert_known :
      (k : K) (v w : V) (m : List (K × V))
      → IsSorted m
      → lookup k m ≡ some w
      → length (insert k v m) ≡ length m
  unfolding lookup insert
  length-insert_known k v w [] s h = cc
  length-insert_known k v w ((j, x) ∷ m) s h = ground (
    arith,
    length-insert_known k v w m s.1,
    o.eq_of_cmp k j,
    o.cmp_refl k,
    lookup-Above k m,
    Above-trans k j m,
    o.eq_of_cmp j k,
  )
