-- ===== src/Worker/Ignored/Attribution.antt =====
-- What `handle_ignored` does to the registry and to the subscriptions.
use watchbound.Base.{ℕ, ◌≡◌, refl, none, some, inl, inr, arith, Option-cases, ◌⊎◌}
use watchbound.Order.{ℕ_ord, list_ord, pair_ord}
use watchbound.BTreeMap
use watchbound.State.Observe.{Host}
use watchbound.Worker.{
  Worker, NativeWatch, consume_expected_ignored, consume_range, publish_native_watch_count,
  ExpectedIgnoredLifetimes,
}
use watchbound.Worker.Budget.{IsCounted, IsCounted-same}
use watchbound.Worker.Hub.{Hub, publish_deferred_interest_count}
use watchbound.Worker.Ignored.{handle_ignored, lose_native_watch, drop_watch}

consume-IsCounted : (w : Worker) (d : ℕ) → IsCounted w → IsCounted (consume_expected_ignored w d).0
unfolding consume_expected_ignored
consume-IsCounted w d c = elim (Option-cases (BTreeMap.lookup d w.retired_ignored_lifetimes)) [
  | inl e ↦ rw (e, consume_expected_ignored) c
  | inr (r, e) ↦
      rw (e, consume_expected_ignored)
        (IsCounted-same w (record w { retired_ignored_lifetimes = consume_range w d r }) refl refl
          refl c)
]

lose_native_watch-IsCounted :
    (host : Host) (h : Hub) (d : ℕ) (watch : NativeWatch)
    → BTreeMap.lookup d h.worker.watches ≡ some watch
    → IsCounted h.worker
    → IsCounted (lose_native_watch host h d watch).worker
unfolding lose_native_watch publish_native_watch_count drop_watch publish_deferred_interest_count
lose_native_watch-IsCounted host h d watch e c =
    let w = h.worker in
    record {
      sorted = BTreeMap.remove-IsSorted d w.watches c.sorted;
      published = refl;
      bounded = λ b k. ground (arith, BTreeMap.length-remove d watch w.watches e, c.bounded b k);
    }

-- A record that was expected touches no subscription and no live watch; any other one leaves its
-- descriptor without a live watch.
pub record IsAttributed (h : Hub) (d : ℕ) (result : Hub) : Type 0 where
  pub counted : IsCounted result.worker
  pub attributed :
      ((range : ExpectedIgnoredLifetimes) × (BTreeMap.lookup d h.worker.retired_ignored_lifetimes
          ≡ some range)
        × (result.subscriptions ≡ h.subscriptions)
        × (result.worker.watches ≡ h.worker.watches))
      ⊎ ((BTreeMap.lookup d h.worker.retired_ignored_lifetimes ≡ none)
          × (BTreeMap.lookup d result.worker.watches ≡ none))

consume-watches : (w : Worker) (d : ℕ) → (consume_expected_ignored w d).0.watches ≡ w.watches
unfolding consume_expected_ignored
consume-watches w d = ground arith

lose_native_watch-watches :
    (host : Host) (h : Hub) (d : ℕ) (watch : NativeWatch)
    → (lose_native_watch host h d watch).worker.watches ≡ BTreeMap.remove d h.worker.watches
unfolding lose_native_watch publish_native_watch_count drop_watch publish_deferred_interest_count
lose_native_watch-watches host h d watch = refl

-- From a registry that is sorted, counted and within the budget, an `IN_IGNORED` record keeps it
-- so; a record that was expected touches no subscription and no live watch, and any other one
-- leaves its descriptor without a live watch.
pub handle_ignored-IsAttributed :
    (host : Host) (h : Hub) (d : ℕ)
    → IsCounted h.worker
    → IsAttributed h d (handle_ignored host h d)
unfolding handle_ignored
handle_ignored-IsAttributed host h d c =
    elim (Option-cases (BTreeMap.lookup d h.worker.retired_ignored_lifetimes)) [
      | inr (r, e) ↦
          rw (e, handle_ignored)
            (record {
              counted = consume-IsCounted h.worker d c;
              attributed = inl (r, e, refl, consume-watches h.worker d);
            })
      | inl e ↦ elim (Option-cases (BTreeMap.lookup d h.worker.watches)) [
        | inl k ↦ rw (e, k, handle_ignored) (record { counted = c; attributed = inr (e, k) })
        | inr (watch, k) ↦
            rw (e, k, handle_ignored)
              (record {
                counted = lose_native_watch-IsCounted host h d watch k c;
                attributed = inr (
                  e,
                  rw (lose_native_watch-watches host h d watch)
                      (BTreeMap.lookup-remove_self d h.worker.watches c.sorted),
                );
              })
      ]
    ]
