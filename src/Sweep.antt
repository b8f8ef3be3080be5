-- ===== src/Sweep.antt =====
-- Sweeps over a set or the keys of a map (engine/src/backend/linux.rs): `next_set_path` and
-- `next_map_path` give the first key after a cursor. A sweep visits the keys in order, removes some,
-- and survives that between two visits other keys are removed.
use watchbound.Base.{
  Ordering, ℕ, suc, ◌≡◌, ◌⊎◌, inl, inr, refl, sym, subst, List, [], ◌∷◌, Bool, true, false, Option,
  none, some, arith, Bool-cases, if◌then◌else◌, length,
}
use watchbound.Order.{Ord, ◌=?◌, =?_refl, eq_of_=?}
use watchbound.BTreeSet
use watchbound.BTreeMap

module _ {K : Type 0} ⦃o : Ord K⦄ where
  abbrev pub is_after : Option K → K → Bool
  is_after none k = true
  is_after (some a) k = elim (o.cmp a k) [ Ordering.lt ↦ true | _ ↦ false ]

  -- `range((Excluded(after), Unbounded)).next()`, and `first()` without a cursor.
  unfoldable pub next_set_path : List K → Option K → Option K
  next_set_path [] after = none
  next_set_path (k ∷ s) after =
      let rest = next_set_path s after in if is_after after k then some k else rest

  unfoldable pub next_map_path : {V : Type 0} → List (K × V) → Option K → Option K
  next_map_path [] after = none
  next_map_path ((k, v) ∷ m) after =
      let rest = next_map_path m after in if is_after after k then some k else rest

  -- How many keys a sweep has still to visit.
  unfoldable pub ahead : List K → Option K → ℕ
  ahead [] after = 0
  ahead (k ∷ s) after = let rest = ahead s after in if is_after after k then suc rest else rest

  pub next_map_path-keys :
      {V : Type 0} (m : List (K × V)) (after : Option K)
      → next_map_path m after ≡ next_set_path (BTreeMap.keys m) after
  unfolding next_map_path next_set_path
  next_map_path-keys [] after = refl
  next_map_path-keys ((k, v) ∷ m) after = ground (arith, next_map_path-keys m after)

  pub keys-remove :
      {V : Type 0} (k : K) (m : List (K × V))
      → BTreeMap.keys (BTreeMap.remove k m) ≡ BTreeSet.remove k (BTreeMap.keys m)
  unfolding BTreeMap.remove BTreeSet.remove
  keys-remove k [] = refl
  keys-remove k ((j, v) ∷ m) = ground (arith, keys-remove k m)

  next-Above :
      (x p : K) (s : List K) (after : Option K)
      → BTreeSet.Above x s
      → next_set_path s after ≡ some p
      → o.cmp x p ≡ Ordering.lt
  unfolding next_set_path
  next-Above x p [] after u h = absurd (ground arith)
  next-Above x p (k ∷ s) after u h = ground (arith, next-Above x p s after u.1)

  ahead-all : (x : K) (s : List K) → BTreeSet.Above x s → ahead s (some x) ≡ length s
  unfolding ahead
  ahead-all x [] u = refl
  ahead-all x (k ∷ s) u = ground (arith, ahead-all x s u.1)

  after-above :
      (after : Option K) (x k : K)
      → is_after after x ≡ true
      → o.cmp x k ≡ Ordering.lt
      → is_after after k ≡ true
  after-above none x k h l = refl
  after-above (some a) x k h l = ground (arith, o.cmp_trans a x k)

  ahead-all_after :
      (after : Option K) (x : K) (s : List K)
      → is_after after x ≡ true
      → BTreeSet.Above x s
      → ahead s after ≡ length s
  unfolding ahead
  ahead-all_after after x [] h u = refl
  ahead-all_after after x (k ∷ s) h u =
      ground (arith, ahead-all_after after x s h u.1, after-above after x k)

  -- A visit leaves one key less to visit.
  pub ahead-next :
      (s : List K) (after : Option K) (p : K)
      → BTreeSet.IsSorted s
      → next_set_path s after ≡ some p
      → suc (ahead s (some p)) ≡ ahead s after
  unfolding ahead next_set_path
  ahead-next [] after p v h = absurd (ground arith)
  ahead-next (x ∷ s) after p v h = elim (Bool-cases (is_after after x)) [
    | inl here ↦ ground (arith, ahead-all x s v.0, ahead-all_after after x s here v.0, o.cmp_refl x)
    | inr later ↦ ground (
      arith,
      ahead-next s after p v.1,
      next-Above x p s after v.0,
      o.cmp_trans x p x,
      o.cmp_refl x,
    )
  ]

  -- Removing the visited key changes nothing ahead.
  pub ahead-remove : (s : List K) (p : K) → ahead (BTreeSet.remove p s) (some p) ≡ ahead s (some p)
  unfolding ahead BTreeSet.remove
  ahead-remove [] p = refl
  ahead-remove (x ∷ s) p = ground (arith, ahead-remove s p, eq_of_=? x p, o.cmp_refl p)

  next-contains :
      (s : List K) (after : Option K) (p : K)
      → next_set_path s after ≡ some p
      → is_after after p ≡ true
  unfolding next_set_path
  next-contains [] after p h = absurd (ground arith)
  next-contains (x ∷ s) after p h = ground (arith, next-contains s after p)

  contains-Above :
      (x k : K) (s : List K)
      → BTreeSet.Above x s
      → BTreeSet.contains k s ≡ true
      → o.cmp x k ≡ Ordering.lt
  unfolding BTreeSet.contains
  contains-Above x k [] u c = absurd (ground arith)
  contains-Above x k (y ∷ s) u c = ground (arith, contains-Above x k s u.1, eq_of_=? y k)

  -- Between the cursor and the next key there is none.
  next-least :
      (s : List K) (after : Option K) (p k : K)
      → BTreeSet.IsSorted s
      → next_set_path s after ≡ some p
      → BTreeSet.contains k s ≡ true
      → is_after (some p) k ≡ false
      → (is_after after k ≡ false) ⊎ (k ≡ p)
  unfolding next_set_path BTreeSet.contains
  next-least [] after p k v h c n = absurd (ground arith)
  next-least (x ∷ s) after p k v h c n = elim (Bool-cases (is_after after x)) [
    | inl here ↦ ground (arith, contains-Above x k s v.0, eq_of_=? x k)
    | inr later ↦ ground (arith, next-least s after p k v.1, eq_of_=? x k)
  ]

  -- Without a next key all are behind the cursor.
  pub next-none :
      (s : List K) (after : Option K) (k : K)
      → next_set_path s after ≡ none
      → BTreeSet.contains k s ≡ true
      → is_after after k ≡ false
  unfolding next_set_path BTreeSet.contains
  next-none [] after k h c = absurd (ground arith)
  next-none (x ∷ s) after k h c = ground (arith, next-none s after k, eq_of_=? x k)

  pub ahead-none :
      (s : List K) (after : Option K) → next_set_path s after ≡ none → ahead s after ≡ 0
  unfolding next_set_path ahead
  ahead-none [] after h = refl
  ahead-none (x ∷ s) after h = ground (arith, ahead-none s after)

  -- The keys up to the cursor are those to keep.
  abbrev pub IsSwept : (K → Bool) → List K → Option K → Type 0
  IsSwept drop s after =
      (k : K) → BTreeSet.contains k s ≡ true → is_after after k ≡ false → drop k ≡ false

  abbrev pub sweep : (K → Bool) → List K → K → List K
  sweep drop s p = if drop p then BTreeSet.remove p s else s

  pub sweep-IsSwept :
      (drop : K → Bool) (s : List K) (after : Option K) (p : K)
      → BTreeSet.IsSorted s
      → next_set_path s after ≡ some p
      → IsSwept drop s after
      → IsSwept drop (sweep drop s p) (some p)
  sweep-IsSwept drop s after p v h w k c n = elim (Bool-cases (drop p)) [
    | inl gone ↦ ground (
      arith,
      next-least s after p k v h,
      w k,
      BTreeSet.contains-remove_self p s v,
      BTreeSet.contains-remove_ne k p s,
      eq_of_=? p k,
    )
    | inr kept ↦ ground (arith, next-least s after p k v h, w k)
  ]

  pub sweep-IsSorted :
      (drop : K → Bool) (s : List K) (p : K)
      → BTreeSet.IsSorted s
      → BTreeSet.IsSorted (sweep drop s p)
  sweep-IsSorted drop s p v = ground (arith, BTreeSet.remove-IsSorted p s v)

  pub ahead-sweep :
      (drop : K → Bool) (s : List K) (after : Option K) (p : K)
      → BTreeSet.IsSorted s
      → next_set_path s after ≡ some p
      → suc (ahead (sweep drop s p) (some p)) ≡ ahead s after
  ahead-sweep drop s after p v h = ground (arith, ahead-next s after p v h, ahead-remove s p)

  -- A set that is swept at `p`.
  pub sweep-on :
      (drop : K → Bool) (a b : List K) (after : Option K) (p : K)
      → b ≡ sweep drop a p
      → BTreeSet.IsSorted a
      → next_set_path a after ≡ some p
      → IsSwept drop a after
      → BTreeSet.IsSorted b × IsSwept drop b (some p) × (suc (ahead b (some p)) ≡ ahead a after)
  sweep-on drop a b after p e v h w =
      subst
        (λ x.
          BTreeSet.IsSorted x × IsSwept drop x (some p) × (suc (ahead x (some p)) ≡ ahead a after))
        (sym e)
        (
          sweep-IsSorted drop a p v,
          sweep-IsSwept drop a after p v h w,
          ahead-sweep drop a after p v h,
        )

  -- Without a next key all have been kept.
  pub swept_through :
      (drop : K → Bool) (s : List K) (after : Option K)
      → next_set_path s after ≡ none
      → IsSwept drop s after
      → (k : K) → BTreeSet.contains k s ≡ true
      → drop k ≡ false
  swept_through drop s after h w k c = w k c (next-none s after k h c)

  pub unswept : (drop : K → Bool) (s : List K) → IsSwept drop s none
  unswept drop s k c n = absurd (ground arith)

  pub next-lookup :
      {V : Type 0} (m : List (K × V)) (after : Option K) (p : K)
      → next_map_path m after ≡ some p
      → (v : V) × (BTreeMap.lookup p m ≡ some v)
  unfolding next_map_path BTreeMap.lookup
  next-lookup [] after p h = absurd (ground arith)
  next-lookup ((k, v) ∷ m) after p h = elim (Bool-cases (k =? p)) [
    | inl here ↦ (v, rw here refl)
    | inr other ↦ elim (Bool-cases (is_after after k)) [
      | inl first ↦ absurd (ground (arith, =?_refl p))
      | inr later ↦ let (found, e) = next-lookup m after p (ground arith) in (found, rw other e)
    ]
  ]
