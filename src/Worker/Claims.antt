-- ===== src/Worker/Claims.antt =====
-- Lifetimes that `claim_new_watch_lifetime` gives out for a descriptor the kernel just returned.
use watchbound.Base.{
  ℕ, zero, suc, ◌+◌, ◌-◌, ◌<◌, ◌≤◌, ◌≡◌, All, inl, inr, refl, [], ◌∷◌, ◌++◌, true, false, none,
  some, arith, Option-cases, Bool-cases, ltb, ltb→lt, ==_iff,
}
use watchbound.Order.{ℕ_ord}
use watchbound.BTreeMap
use watchbound.BTreeSet
use watchbound.Result.{ResultOf, ok, err, Result-cases}
use watchbound.Error.{IoError}
use watchbound.Worker.{
  Worker, NativeWatch, ExpectedIgnoredLifetimes, u64_max, latest_lifetime, next_watch_lifetime,
  rm_watch, quarantine, claim_new_watch_lifetime, extend_range, expect_ignored,
}
use watchbound.Worker.Lifetimes.{
  outstanding, span, IsRanged, expect_ignored-outstanding, span-single, span-next,
}

-- Either the descriptor is not quarantined, nothing changed, the lifetime is above the live one and
-- above every one that awaits its last record, and retiring it later, when no older one is live,
-- queues it last; or the descriptor ends quarantined and its kernel watch is removed.
pub record Claimed (w : Worker) (d : ℕ) (result : Worker × ResultOf IoError ℕ) : Type 0 where
  pub admitted :
      (lifetime : ℕ)
      → result.1 ≡ ok lifetime
      → (result.0 ≡ w)
        × (BTreeSet.contains d w.exhausted_watch_descriptors ≡ false)
        × (0 < lifetime)
        × (lifetime ≤ u64_max)
        × ((watch : NativeWatch)
            → BTreeMap.lookup d w.watches ≡ some watch
            → watch.lifetime < lifetime)
        × All (λ older. older < lifetime) (outstanding w d)
        × ((BTreeMap.lookup d w.watches ≡ none)
            → outstanding (expect_ignored w d lifetime) d ≡ outstanding w d ++ (lifetime ∷ []))
  pub refused :
      (e : IoError)
      → result.1 ≡ err e
      → (BTreeSet.contains d result.0.exhausted_watch_descriptors ≡ true)
        × (result.0.removed_watches ≡ d ∷ w.removed_watches)

next_watch_lifetime-bound :
    (w : Worker) (d lifetime : ℕ)
    → next_watch_lifetime w d ≡ ok lifetime
    → (0 < lifetime) × (lifetime ≤ u64_max)
unfolding next_watch_lifetime
next_watch_lifetime-bound w d lifetime h = elim (Option-cases (latest_lifetime w d)) [
  | inl k ↦ ground arith
  | inr (l, k) ↦ ground (arith, ltb→lt l u64_max)
]

next_watch_lifetime-live :
    (w : Worker) (d lifetime : ℕ) (watch : NativeWatch)
    → next_watch_lifetime w d ≡ ok lifetime
    → BTreeMap.lookup d w.watches ≡ some watch
    → watch.lifetime < lifetime
unfolding next_watch_lifetime latest_lifetime
next_watch_lifetime-live w d lifetime watch h live =
    elim (Option-cases (BTreeMap.lookup d w.retired_ignored_lifetimes)) [
      | inl e ↦ ground arith
      | inr (r, e) ↦ ground arith
    ]

next_watch_lifetime-last :
    (w : Worker) (d lifetime : ℕ) (r : ExpectedIgnoredLifetimes)
    → next_watch_lifetime w d ≡ ok lifetime
    → BTreeMap.lookup d w.retired_ignored_lifetimes ≡ some r
    → r.last < lifetime
unfolding next_watch_lifetime latest_lifetime
next_watch_lifetime-last w d lifetime r h e = elim (Option-cases (BTreeMap.lookup d w.watches)) [
  | inl none_live ↦ ground arith
  | inr (watch, live) ↦ ground arith
]

span-below : (first n limit : ℕ) → first + n ≤ limit → All (λ older. older < limit) (span first n)
unfolding span
span-below first zero limit h = tt
span-below first (suc n) limit h = (omega arith, span-below (suc first) n limit (omega arith))

next_watch_lifetime-outstanding :
    (w : Worker) (d lifetime : ℕ)
    → IsRanged w
    → next_watch_lifetime w d ≡ ok lifetime
    → All (λ older. older < lifetime) (outstanding w d)
unfolding outstanding
next_watch_lifetime-outstanding w d lifetime v h =
    elim (Option-cases (BTreeMap.lookup d w.retired_ignored_lifetimes)) [
      | inl e ↦ rw (e, outstanding) tt
      | inr (r, e) ↦
          let below = next_watch_lifetime-last w d lifetime r h e in
          let ordered = v.ranged d r e in
          rw (e, outstanding) (span-below r.first (suc (r.last - r.first)) lifetime (omega arith))
    ]

extend_range-none :
    (lifetime : ℕ)
    → extend_range none lifetime ≡ (record { first = lifetime; last = lifetime }, true)
unfolding extend_range
extend_range-none lifetime = refl

extend_range-next :
    (r : ExpectedIgnoredLifetimes) (lifetime : ℕ)
    → ltb r.last u64_max ≡ true
    → lifetime ≡ r.last + 1
    → extend_range (some r) lifetime ≡ (record r { last = lifetime }, true)
unfolding extend_range
extend_range-next r lifetime h k =
    ground (arith, ==_iff lifetime r.last, ==_iff (r.last + 1) lifetime)

next_watch_lifetime-retired :
    (w : Worker) (d lifetime : ℕ)
    → IsRanged w
    → BTreeMap.lookup d w.watches ≡ none
    → next_watch_lifetime w d ≡ ok lifetime
    → outstanding (expect_ignored w d lifetime) d ≡ outstanding w d ++ (lifetime ∷ [])
unfolding next_watch_lifetime latest_lifetime outstanding
next_watch_lifetime-retired w d lifetime v live h =
    elim (Option-cases (BTreeMap.lookup d w.retired_ignored_lifetimes)) [
      | inl e ↦
          rw (expect_ignored-outstanding w d lifetime, e)
            (rw (extend_range-none lifetime) (span-single lifetime lifetime refl))
      | inr (r, e) ↦
          let fits : ltb r.last u64_max ≡ true = ground arith in
          let next : lifetime ≡ r.last + 1 = ground arith in
          rw (expect_ignored-outstanding w d lifetime, e, extend_range-next r lifetime fits next)
            (span-next r.first r.last lifetime (v.ranged d r e) (omega arith))
    ]

-- When every range is in order, a lifetime that is given out leaves the registry as it was, is a
-- positive u64 of a descriptor that is not quarantined, above that of the live watch and above all
-- that are still queued, and is queued last when it is retired while no older watch of the
-- descriptor is live. A refusal leaves the descriptor quarantined and its kernel watch removed.
pub claim_new_watch_lifetime-Claimed :
    (w : Worker) (d : ℕ) → IsRanged w → Claimed w d (claim_new_watch_lifetime w d)
unfolding claim_new_watch_lifetime quarantine rm_watch
claim_new_watch_lifetime-Claimed w d v =
    elim (Bool-cases (BTreeSet.contains d w.exhausted_watch_descriptors)) [
      | inl gone ↦
          rw (gone, claim_new_watch_lifetime)
            (record { admitted = λ l h. cc; refused = λ e h. (gone, refl) })
      | inr usable ↦ elim (Result-cases (next_watch_lifetime w d)) [
        | inl (l, k) ↦
            rw (usable, k, claim_new_watch_lifetime)
              (record {
                admitted = λ m h. (
                  refl,
                  usable,
                  (next_watch_lifetime-bound w d m (ground (arith, h))).0,
                  (next_watch_lifetime-bound w d m (ground (arith, h))).1,
                  λ watch live. next_watch_lifetime-live w d m watch (ground (arith, h)) live,
                  next_watch_lifetime-outstanding w d m v (ground (arith, h)),
                  λ n. next_watch_lifetime-retired w d m v n (ground (arith, h)),
                );
                refused = λ e h. cc;
              })
        | inr (f, k) ↦
            rw (usable, k, claim_new_watch_lifetime)
              (record {
                admitted = λ m h. cc;
                refused =
                    λ e h. (BTreeSet.contains-insert_self d w.exhausted_watch_descriptors, refl);
              })
      ]
    ]
