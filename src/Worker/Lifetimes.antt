-- ===== src/Worker/Lifetimes.antt =====
-- Retired lifetimes. Per descriptor the compact range stands for a queue of lifetimes whose
-- `IN_IGNORED` record is still to come: `expect_ignored` appends, `consume_expected_ignored` pops.
use watchbound.Base.{
  ◌∙◌, ℕ, zero, suc, ◌+◌, ◌-◌, ◌≤◌, ◌<◌, ◌≡◌, ◌⊎◌, inl, inr, refl, sym, ap, List, [], ◌∷◌, ◌++◌,
  true, false, Option, none, some, arith, Option-cases, Bool-cases, ◌==◌, ltb, ◌&&◌, ==_iff,
}
use watchbound.Order.{ℕ_ord, ◌=?◌, eq_of_=?}
use watchbound.BTreeMap
use watchbound.BTreeSet
use watchbound.Worker.{
  Worker, ExpectedIgnoredLifetimes, u64_max, quarantine, extend_range, consume_range,
  expect_ignored, consume_expected_ignored,
}

-- n numbers from `first` on.
unfoldable pub span : ℕ → ℕ → List ℕ
span first zero = []
span first (suc n) = first ∷ span (suc first) n

abbrev pub lifetimes_of : Option ExpectedIgnoredLifetimes → List ℕ
lifetimes_of none = []
lifetimes_of (some r) = span r.first (suc (r.last - r.first))

-- The queue of a descriptor, oldest first.
unfoldable pub outstanding : Worker → ℕ → List ℕ
outstanding w d = lifetimes_of (BTreeMap.lookup d w.retired_ignored_lifetimes)

pub record IsRanged (w : Worker) : Type 0 where
  pub sorted : BTreeMap.IsSorted w.retired_ignored_lifetimes
  pub ranged :
      (d : ℕ) (r : ExpectedIgnoredLifetimes)
      → BTreeMap.lookup d w.retired_ignored_lifetimes ≡ some r
      → r.first ≤ r.last

span-append : (first n : ℕ) → span first (suc n) ≡ span first n ++ ((first + n) ∷ [])
unfolding span
span-append first zero = ground arith
span-append first (suc n) = ground (arith, span-append (suc first) n)

pub span-single : (first last : ℕ) → first ≡ last → span first (suc (last - first)) ≡ first ∷ []
unfolding span
span-single first last h = rw h (ground arith)

span-more :
    (first last : ℕ)
    → first < last
    → span first (suc (last - first)) ≡ first ∷ span (first + 1) (suc (last - (first + 1)))
unfolding span
span-more first last h =
    let e : last - first ≡ suc (last - suc first) = omega arith in
    let f : first + 1 ≡ suc first = omega arith in rw (f, e) refl

pub span-next :
    (first last next : ℕ)
    → first ≤ last
    → next ≡ suc last
    → span first (suc (next - first)) ≡ span first (suc (last - first)) ++ (next ∷ [])
span-next first last next h k =
    let e : next - first ≡ suc (last - first) = omega arith in
    let f : next ≡ first + suc (last - first) = omega arith in
    rw e (
      span-append first (suc (last - first))
      ∙ ap (λ n. span first (suc (last - first)) ++ (n ∷ [])) (sym f))

insert-IsRanged :
    (w : Worker) (d : ℕ) (r : ExpectedIgnoredLifetimes)
    → IsRanged w
    → r.first ≤ r.last
    → IsRanged
        (record w { retired_ignored_lifetimes = BTreeMap.insert d r w.retired_ignored_lifetimes })
insert-IsRanged w d r v h = record {
  sorted = BTreeMap.insert-IsSorted d r w.retired_ignored_lifetimes v.sorted;
  ranged = λ e q k. ground (
    arith,
    v.ranged e q,
    eq_of_=? d e,
    BTreeMap.lookup-insert_self d r w.retired_ignored_lifetimes,
    BTreeMap.lookup-insert_ne e d r w.retired_ignored_lifetimes,
  );
}

consume_range-lookup :
    (w : Worker) (d : ℕ) (r : ExpectedIgnoredLifetimes)
    → IsRanged w
    → BTreeMap.lookup d w.retired_ignored_lifetimes ≡ some r
    → (BTreeMap.IsSorted (consume_range w d r))
      × (span r.first (suc (r.last - r.first))
          ≡ r.first ∷ lifetimes_of (BTreeMap.lookup d (consume_range w d r)))
      × ((e : ℕ)
          → (d =? e) ≡ false
          → BTreeMap.lookup e (consume_range w d r) ≡ BTreeMap.lookup e w.retired_ignored_lifetimes)
      × ((q : ExpectedIgnoredLifetimes)
          → BTreeMap.lookup d (consume_range w d r) ≡ some q
          → q.first ≤ q.last)
unfolding consume_range
consume_range-lookup w d r v h = elim (Bool-cases (r.first == r.last)) [
  | inl single ↦ rw single (
    BTreeMap.remove-IsSorted d w.retired_ignored_lifetimes v.sorted,
    rw (BTreeMap.lookup-remove_self d w.retired_ignored_lifetimes v.sorted)
        (span-single r.first r.last ((==_iff r.first r.last).0 single)),
    λ e k. BTreeMap.lookup-remove_ne e d w.retired_ignored_lifetimes k,
    λ q k. ground (arith, BTreeMap.lookup-remove_self d w.retired_ignored_lifetimes v.sorted),
  )
  | inr more ↦ rw more (
    BTreeMap.insert-IsSorted d (record r { first = r.first + 1 }) w.retired_ignored_lifetimes
        v.sorted,
    rw
        (BTreeMap.lookup-insert_self d (record r { first = r.first + 1 })
          w.retired_ignored_lifetimes)
        (span-more r.first r.last (ground (arith, v.ranged d r h, ==_iff r.first r.last))),
    λ e k.
        BTreeMap.lookup-insert_ne e d (record r { first = r.first + 1 }) w.retired_ignored_lifetimes
          k,
    λ q k. ground (
      arith,
      v.ranged d r h,
      ==_iff r.first r.last,
      BTreeMap.lookup-insert_self d (record r { first = r.first + 1 }) w.retired_ignored_lifetimes,
    ),
  )
]

-- `IN_IGNORED` records are attributed in the order in which the lifetimes were retired.
pub record Consumed (w : Worker) (d : ℕ) (result : Worker × Option ℕ) : Type 0 where
  pub in_order :
      ((outstanding w d ≡ []) × (result.1 ≡ none))
      ⊎ ((lifetime : ℕ) × (outstanding w d ≡ lifetime ∷ outstanding result.0 d)
          × (result.1 ≡ some lifetime))
  pub others : (e : ℕ) → (d =? e) ≡ false → outstanding result.0 e ≡ outstanding w e
  pub ranged : IsRanged result.0

-- When every range is in order, an `IN_IGNORED` record takes the oldest retired lifetime of its
-- descriptor, or none when none is outstanding; other descriptors keep theirs and ranges stay in
-- order.
pub consume_expected_ignored-Consumed :
    (w : Worker) (d : ℕ) → IsRanged w → Consumed w d (consume_expected_ignored w d)
unfolding consume_expected_ignored outstanding
consume_expected_ignored-Consumed w d v =
    elim (Option-cases (BTreeMap.lookup d w.retired_ignored_lifetimes)) [
      | inl e ↦
          rw (e, consume_expected_ignored)
            (record { in_order = inl (rw e (refl, refl)); others = λ j h. refl; ranged = v })
      | inr (r, e) ↦
          let law = consume_range-lookup w d r v e in
          rw (e, consume_expected_ignored)
            (record {
              in_order = inr (r.first, rw e law.1, refl);
              others = λ j h. ap lifetimes_of (law.2 j h);
              ranged = record {
                sorted = law.0;
                ranged = λ j q k. ground (arith, law.3 q, law.2 j, v.ranged j q, eq_of_=? d j);
              };
            })
    ]

extend_range-Extended :
    (o : Option ExpectedIgnoredLifetimes) (lifetime : ℕ)
    → ((r : ExpectedIgnoredLifetimes) → o ≡ some r → r.first ≤ r.last)
    → ((extend_range o lifetime).0.first ≤ (extend_range o lifetime).0.last)
      × ((((extend_range o lifetime).1 ≡ true)
            × (lifetimes_of (some (extend_range o lifetime).0) ≡ lifetimes_of o ++ (lifetime ∷ [])))
          ⊎ (lifetimes_of (some (extend_range o lifetime).0) ≡ lifetimes_of o)
            × (((extend_range o lifetime).1 ≡ false)
                ⊎ ((r : ExpectedIgnoredLifetimes) × (o ≡ some r) × (r.last ≡ lifetime))))
unfolding extend_range
extend_range-Extended none lifetime h =
    (omega arith, inl (refl, span-single lifetime lifetime refl))
extend_range-Extended (some r) lifetime h = elim (Bool-cases (lifetime == r.last)) [
  | inl same ↦ rw same (h r refl, inr (refl, inr (r, refl, sym ((==_iff lifetime r.last).0 same))))
  | inr other ↦ elim (Bool-cases (ltb r.last u64_max && (r.last + 1 == lifetime))) [
    | inl next ↦
        rw (other, next)
          (
            ground (arith, h r, ==_iff (r.last + 1) lifetime),
            inl (
              refl,
              span-next r.first r.last lifetime (h r refl)
                  (ground (arith, ==_iff (r.last + 1) lifetime)),
            ),
          )
    | inr gap ↦ rw (other, gap) (h r refl, inr (refl, inl refl))
  ]
]

pub expect_ignored-outstanding :
    (w : Worker) (d lifetime : ℕ)
    → outstanding (expect_ignored w d lifetime) d
      ≡ lifetimes_of
          (some (extend_range (BTreeMap.lookup d w.retired_ignored_lifetimes) lifetime).0)
unfolding expect_ignored outstanding quarantine
expect_ignored-outstanding w d lifetime =
    let o = BTreeMap.lookup d w.retired_ignored_lifetimes in
    let range = (extend_range o lifetime).0 in
    let self = BTreeMap.lookup-insert_self d range w.retired_ignored_lifetimes in
    elim (Bool-cases (extend_range o lifetime).1) [
      | inl ordered ↦ rw (ordered, expect_ignored) (ap lifetimes_of self)
      | inr gap ↦ rw (gap, expect_ignored) (ap lifetimes_of self)
    ]

-- The lifetime is queued last; or it was the last to be queued already; or the descriptor is
-- quarantined and the queue is as it was.
pub record Expected (w : Worker) (d lifetime : ℕ) (w' : Worker) : Type 0 where
  pub queued :
      (outstanding w' d ≡ outstanding w d ++ (lifetime ∷ []))
      ⊎ (outstanding w' d ≡ outstanding w d)
        × ((BTreeSet.contains d w'.exhausted_watch_descriptors ≡ true)
            ⊎ ((r : ExpectedIgnoredLifetimes) × (BTreeMap.lookup d w.retired_ignored_lifetimes
                  ≡ some r)
                × (r.last ≡ lifetime)))
  pub others : (e : ℕ) → (d =? e) ≡ false → outstanding w' e ≡ outstanding w e
  pub ranged : IsRanged w'

-- When every range is in order, retiring a lifetime queues it last; or it was the last already; or
-- the descriptor is quarantined and its queue stays. Other descriptors keep theirs.
pub expect_ignored-Expected :
    (w : Worker) (d lifetime : ℕ) → IsRanged w → Expected w d lifetime (expect_ignored w d lifetime)
unfolding expect_ignored outstanding quarantine
expect_ignored-Expected w d lifetime v =
    let o = BTreeMap.lookup d w.retired_ignored_lifetimes in
    let law = extend_range-Extended o lifetime (v.ranged d) in
    let range = (extend_range o lifetime).0 in
    let kept = insert-IsRanged w d range v law.0 in
    let self = BTreeMap.lookup-insert_self d range w.retired_ignored_lifetimes in
    elim (Bool-cases (extend_range o lifetime).1) [
      | inl ordered ↦
          rw (ordered, expect_ignored)
            (record {
              queued = elim law.1 [
                | inl q ↦ inl (ap lifetimes_of self ∙ q.1)
                | inr q ↦ inr (ap lifetimes_of self ∙ q.0, elim q.1 [ inl f ↦ cc | inr x ↦ inr x ])
              ];
              others = λ e h.
                  ap lifetimes_of
                    (BTreeMap.lookup-insert_ne e d range w.retired_ignored_lifetimes h);
              ranged = kept;
            })
      | inr gap ↦
          rw (gap, expect_ignored)
            (record {
              queued = elim law.1 [
                | inl q ↦ cc
                | inr q ↦ inr (
                  ap lifetimes_of self ∙ q.0,
                  inl (BTreeSet.contains-insert_self d w.exhausted_watch_descriptors),
                )
              ];
              others = λ e h.
                  ap lifetimes_of
                    (BTreeMap.lookup-insert_ne e d range w.retired_ignored_lifetimes h);
              ranged = record { sorted = kept.sorted; ranged = kept.ranged };
            })
    ]
