-- ===== src/Reconcile/Maps.antt =====
-- The sweep of a reconciliation over the watched and the deferred directories.
use watchbound.Base.{
  ◌≡◌, refl, sym, subst, ap, List, Option, none, some, length, arith, Option-cases, inl, inr,
  if◌then◌else◌, ◌∙◌,
}
use watchbound.Order.{ℕ_ord, list_ord}
use watchbound.BTreeMap
use watchbound.FilePath.{FilePath}
use watchbound.State.{
  SubscriptionState, PendingReconciliation, sweeping_watched, sweeping_deferred,
  sweeping_deferred_order,
}
use watchbound.Worker.{Worker}
use watchbound.Worker.Budget.{IsCounted}
use watchbound.Worker.Budget.Removing.{remove_interest-IsCounted}
use watchbound.Sweep.{
  next_map_path, ahead, sweep, next_map_path-keys, keys-remove, next-lookup, ahead-none, sweep-on,
  swept_through, unswept,
}
use watchbound.Teardown.{Torn}
use watchbound.Update.{forget_watched}
use watchbound.Update.Pruned.{IsOrdered}
use watchbound.Reconcile.{sweep_watched, sweep_deferred, unseen, visited}
use watchbound.Reconcile.Sweeping.{at_place, Seen, IsSweptTo, Measured}
use watchbound.Reconcile.Steps.{place, item-Measured, moved-Measured, IsOrdered-of}

abbrev after_watched : Worker → SubscriptionState → PendingReconciliation → FilePath → Torn
after_watched w s r path =
    if unseen r path then forget_watched w (visited s r path) path else (w, visited s r path)

visit_watched :
    (w : Worker) (s : SubscriptionState) (r : PendingReconciliation) (path : FilePath)
    → next_map_path s.watched_paths r.sweep_after ≡ some path
    → IsCounted w
    → let x = after_watched w s r path in
      (x.1.reconciliation ≡ some (record r { sweep_after = some path }))
      × IsCounted x.0
      × (BTreeMap.keys x.1.watched_paths ≡ sweep (unseen r) (BTreeMap.keys s.watched_paths) path)
      × (x.1.deferred_directories ≡ s.deferred_directories)
      × (x.1.deferred_order ≡ s.deferred_order)
      × (x.1.pending_promotions ≡ s.pending_promotions)
unfolding forget_watched
visit_watched w s r path h c =
    let (d, found) = next-lookup s.watched_paths r.sweep_after path h in
    grind (arith, keys-remove, remove_interest-IsCounted)

pub sweep_watched-Measured :
    (r0 : PendingReconciliation) (order : List FilePath) (w : Worker) (s : SubscriptionState)
    (c : Option FilePath) (b : List FilePath)
    → s.reconciliation ≡ some (at_place r0 (place sweeping_watched c b))
    → IsOrdered s
    → IsSweptTo r0 order s (place sweeping_watched c b) sweeping_watched
    → IsCounted w
    → Measured r0 order (w, s) (sweep_watched w s (at_place r0 (place sweeping_watched c b)))
unfolding sweep_watched
sweep_watched-Measured r0 order w s c b h o v n =
    let p = place sweeping_watched c b in
    let keys = next_map_path-keys s.watched_paths c in
    let kept = BTreeMap.keys s.watched_paths in
    elim (Option-cases (next_map_path s.watched_paths c)) [
      | inl e ↦
          rw (e, sweep_watched)
            (moved-Measured r0 order w s p (place sweeping_deferred none b) _ h refl
              (IsOrdered-of _ _ _ _ refl refl refl o.watched_paths o.deferred_directories
                o.pending_promotions)
              (swept_through (unseen r0) kept c (sym keys ∙ e) v.0, unswept (unseen r0) _, v.1, v.2)
              n (omega (arith, ahead-none kept c (sym keys ∙ e))) (omega arith))
      | inr (path, e) ↦
          let x = after_watched w s (at_place r0 p) path in
          let (m, counted, k, d, q, a) = visit_watched w s (at_place r0 p) path e n in
          let (sorted, swept, fewer) =
            sweep-on (unseen r0) kept _ c path k o.watched_paths (sym keys ∙ e) v.0 in
          rw (e, sweep_watched)
            (item-Measured r0 order w s p (place sweeping_watched (some path) b) x h m
              (IsOrdered-of x.1 _ _ _ refl (ap BTreeMap.keys d) a sorted o.deferred_directories
                o.pending_promotions)
              (swept, q ∙ v.1, v.2) counted
              (omega (
                arith,
                fewer,
                ap (λ y. ahead (BTreeMap.keys y) none) d,
                ap length q,
                ap (λ y. ahead y none) a,
              ))
              refl)
    ]

abbrev after_deferred : SubscriptionState → PendingReconciliation → FilePath → SubscriptionState
after_deferred s r path =
    let t = visited s r path in
    if unseen r path
    then record t { deferred_directories = BTreeMap.remove path t.deferred_directories }
    else t

visit_deferred :
    (s : SubscriptionState) (r : PendingReconciliation) (path : FilePath)
    → let t = after_deferred s r path in
      (t.reconciliation ≡ some (record r { sweep_after = some path }))
      × (t.watched_paths ≡ s.watched_paths)
      × (BTreeMap.keys t.deferred_directories
          ≡ sweep (unseen r) (BTreeMap.keys s.deferred_directories) path)
      × (t.deferred_order ≡ s.deferred_order)
      × (t.pending_promotions ≡ s.pending_promotions)
visit_deferred s r path = ground (arith, keys-remove path s.deferred_directories)

pub sweep_deferred-Measured :
    (r0 : PendingReconciliation) (order : List FilePath) (w : Worker) (s : SubscriptionState)
    (c : Option FilePath) (b : List FilePath)
    → s.reconciliation ≡ some (at_place r0 (place sweeping_deferred c b))
    → IsOrdered s
    → IsSweptTo r0 order s (place sweeping_deferred c b) sweeping_deferred
    → IsCounted w
    → Measured r0 order (w, s) (sweep_deferred w s (at_place r0 (place sweeping_deferred c b)))
unfolding sweep_deferred
sweep_deferred-Measured r0 order w s c b h o v n =
    let p = place sweeping_deferred c b in
    let keys = next_map_path-keys s.deferred_directories c in
    let kept = BTreeMap.keys s.deferred_directories in
    elim (Option-cases (next_map_path s.deferred_directories c)) [
      | inl e ↦
          rw (e, sweep_deferred)
            (moved-Measured r0 order w s p (place sweeping_deferred_order none b) _ h refl
              (IsOrdered-of _ _ _ _ refl refl refl o.watched_paths o.deferred_directories
                o.pending_promotions)
              (v.0, swept_through (unseen r0) kept c (sym keys ∙ e) v.1, refl, rw (v.2, v.3) refl) n
              (omega (arith, ahead-none kept c (sym keys ∙ e))) (omega arith))
      | inr (path, e) ↦
          let t = after_deferred s (at_place r0 p) path in
          let (m, k, d, q, a) = visit_deferred s (at_place r0 p) path in
          let (sorted, swept, fewer) =
            sweep-on (unseen r0) kept _ c path d o.deferred_directories (sym keys ∙ e) v.1 in
          rw (e, sweep_deferred)
            (item-Measured r0 order w s p (place sweeping_deferred (some path) b) (w, t) h m
              (IsOrdered-of t _ _ _ (ap BTreeMap.keys k) refl a o.watched_paths sorted
                o.pending_promotions)
              (subst (λ y. Seen r0 (BTreeMap.keys y)) (sym k) v.0, swept, q ∙ v.2, v.3) n
              (omega (arith, fewer, ap length q, ap (λ y. ahead y none) a)) refl)
    ]
