-- ===== src/Reconcile/Lists.antt =====
-- The sweep of a reconciliation over the deferred order and the promotions.
use watchbound.Base.{
  ◌≡◌, refl, sym, subst, ap, append_assoc, append-nil, List, [], ◌∷◌, ◌++◌, true, false, Option,
  some, is_some, length, arith, Option-cases, inl, inr, if◌then◌else◌, ◌∙◌,
}
use watchbound.Order.{ℕ_ord, list_ord}
use watchbound.BTreeSet
use watchbound.BTreeMap
use watchbound.FilePath.{FilePath}
use watchbound.State.{
  SubscriptionState, DeferredInterest, PendingReconciliation, sweeping_deferred_order,
  sweeping_promotions,
}
use watchbound.Worker.{Worker}
use watchbound.Worker.Budget.{IsCounted}
use watchbound.Sweep.{next_set_path, ahead, IsSwept, sweep, sweep-on, swept_through, unswept}
use watchbound.Update.Pruned.{IsOrdered}
use watchbound.Reconcile.{sweep_order, sweep_promotions, unseen, visited}
use watchbound.Reconcile.Sweeping.{at_place, Seen, still_deferred, IsSweptTo, Measured}
use watchbound.Reconcile.Steps.{place, item-Measured, moved-Measured, IsOrdered-of}

still_deferred-append :
    (m : List (FilePath × DeferredInterest)) (path : FilePath) (rest : List FilePath)
    (b : List FilePath)
    → is_some (BTreeMap.lookup path m) ≡ true
    → (b ++ (path ∷ [])) ++ still_deferred m rest ≡ b ++ still_deferred m (path ∷ rest)
still_deferred-append m path rest b h =
    ground (arith, append_assoc b (path ∷ []) (still_deferred m rest))

still_deferred-skip :
    (m : List (FilePath × DeferredInterest)) (path : FilePath) (rest : List FilePath)
    → is_some (BTreeMap.lookup path m) ≡ false
    → still_deferred m rest ≡ still_deferred m (path ∷ rest)
still_deferred-skip m path rest h = ground arith

pub sweep_order-Measured :
    (r0 : PendingReconciliation) (order : List FilePath) (w : Worker) (s : SubscriptionState)
    (c : Option FilePath) (b l : List FilePath)
    → s.deferred_order ≡ l
    → s.reconciliation ≡ some (at_place r0 (place sweeping_deferred_order c b))
    → IsOrdered s
    → IsSweptTo r0 order s (place sweeping_deferred_order c b) sweeping_deferred_order
    → IsCounted w
    → Measured r0 order (w, s) (sweep_order w s (at_place r0 (place sweeping_deferred_order c b)) l)
unfolding sweep_order
sweep_order-Measured r0 order w s c b [] e h o v n =
    moved-Measured r0 order w s (place sweeping_deferred_order c b) (place sweeping_promotions c [])
      _ h refl
      (IsOrdered-of _ _ _ _ refl refl refl o.watched_paths o.deferred_directories
        o.pending_promotions)
      (
        v.0,
        v.1,
        subst (IsSwept (unseen r0) s.pending_promotions) (sym v.2)
            (unswept (unseen r0) s.pending_promotions),
        sym (append-nil b) ∙ ap (λ y. b ++ still_deferred s.deferred_directories y) (sym e) ∙ v.3,
        refl,
      )
      n (omega (arith, ap length e, ap (λ y. ahead s.pending_promotions y) v.2)) (omega arith)
sweep_order-Measured r0 order w s c b (path ∷ rest) e h o v n =
    let p = place sweeping_deferred_order c b in
    let same = ap (λ y. b ++ still_deferred s.deferred_directories y) (sym e) ∙ v.3 in
    elim (Option-cases (BTreeMap.lookup path s.deferred_directories)) [
      | inr (found, k) ↦ rw k (
          item-Measured r0 order w s p (place sweeping_deferred_order c (b ++ (path ∷ []))) _ h refl
            (IsOrdered-of _ _ _ _ refl refl refl o.watched_paths o.deferred_directories
              o.pending_promotions)
            (
              v.0,
              v.1,
              v.2,
              still_deferred-append s.deferred_directories path rest b (ap is_some k) ∙ same,
            )
            n (omega (arith, ap length e)) refl)
      | inl k ↦ rw k (
          item-Measured r0 order w s p p _ h h
            (IsOrdered-of _ _ _ _ refl refl refl o.watched_paths o.deferred_directories
              o.pending_promotions)
            (
              v.0,
              v.1,
              v.2,
              ap (λ y. b ++ y) (still_deferred-skip s.deferred_directories path rest (ap is_some k))
                  ∙ same,
            )
            n (omega (arith, ap length e)) refl)
    ]

abbrev after_promotion : SubscriptionState → PendingReconciliation → FilePath → SubscriptionState
after_promotion s r path =
    let t = visited s r path in
    if unseen r path
    then record t { pending_promotions = BTreeSet.remove path t.pending_promotions }
    else t

visit_promotion :
    (s : SubscriptionState) (r : PendingReconciliation) (path : FilePath)
    → let t = after_promotion s r path in
      (t.reconciliation ≡ some (record r { sweep_after = some path }))
      × (t.watched_paths ≡ s.watched_paths)
      × (t.deferred_directories ≡ s.deferred_directories)
      × (t.deferred_order ≡ s.deferred_order)
      × (t.pending_promotions ≡ sweep (unseen r) s.pending_promotions path)
visit_promotion s r path = ground arith

pub sweep_promotions-Measured :
    (r0 : PendingReconciliation) (order : List FilePath) (w : Worker) (s : SubscriptionState)
    (c : Option FilePath) (b : List FilePath)
    → s.reconciliation ≡ some (at_place r0 (place sweeping_promotions c b))
    → IsOrdered s
    → IsSweptTo r0 order s (place sweeping_promotions c b) sweeping_promotions
    → IsCounted w
    → Measured r0 order (w, s) (sweep_promotions w s (at_place r0 (place sweeping_promotions c b)))
unfolding sweep_promotions
sweep_promotions-Measured r0 order w s c b h o v n =
    let p = place sweeping_promotions c b in
    elim (Option-cases (next_set_path s.pending_promotions c)) [
      | inl e ↦
          rw (e, sweep_promotions)
            (record {
              to_commit = refl;
              cursor = c;
              begun = h ∙ ap (λ y. some (at_place r0 (place sweeping_promotions c y))) v.4;
              ordered = o;
              watched_paths = v.0;
              deferred_directories = v.1;
              pending_promotions = swept_through (unseen r0) s.pending_promotions c e v.2;
              deferred_order = v.3;
              counted = n;
            })
      | inr (path, e) ↦
          let t = after_promotion s (at_place r0 p) path in
          let (m, k, d, q, a) = visit_promotion s (at_place r0 p) path in
          let (sorted, swept, fewer) =
            sweep-on (unseen r0) s.pending_promotions _ c path a o.pending_promotions e v.2 in
          rw (e, sweep_promotions)
            (item-Measured r0 order w s p (place sweeping_promotions (some path) b) (w, t) h m
              (IsOrdered-of t _ _ _ (ap BTreeMap.keys k) (ap BTreeMap.keys d) refl o.watched_paths
                o.deferred_directories sorted)
              (
                subst (λ y. Seen r0 (BTreeMap.keys y)) (sym k) v.0,
                subst (λ y. Seen r0 (BTreeMap.keys y)) (sym d) v.1,
                swept,
                q ∙ v.3 ∙ ap (λ y. still_deferred y order) (sym d),
                v.4,
              )
              n fewer refl)
    ]
