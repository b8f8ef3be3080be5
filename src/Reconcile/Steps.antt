-- ===== src/Reconcile/Steps.antt =====
-- What a step of the sweep of a reconciliation has to keep.
use watchbound.Base.{suc, ◌<◌, ◌≡◌, sym, subst, ap, List, Option, some, arith, ◌∙◌}
use watchbound.Order.{ℕ_ord, list_ord}
use watchbound.BTreeSet
use watchbound.BTreeMap
use watchbound.FilePath.{FilePath}
use watchbound.State.{SubscriptionState, PendingReconciliation, ReconciliationPhase}
use watchbound.Worker.{Worker}
use watchbound.Worker.Budget.{IsCounted}
use watchbound.Quantum.{item, moved}
use watchbound.Teardown.{Torn}
use watchbound.Update.Pruned.{IsOrdered}
use watchbound.Reconcile.Sweeping.{
  Place, at_place, IsSweptTo, entries_ahead, phases_left, entries_of, items_of, left_of, phases_of,
  Measured,
}

abbrev pub place : ReconciliationPhase → Option FilePath → List FilePath → Place
place phase c b = record { phase = phase; sweep_after = c; rebuilt = b }

pub items_at :
    (s : SubscriptionState) (r : PendingReconciliation)
    → s.reconciliation ≡ some r
    → entries_of s s.reconciliation ≡ entries_ahead s r.sweep_after r.phase
unfolding entries_of
items_at s r b = ap (entries_of s) b

pub left_at :
    (s : SubscriptionState) (r : PendingReconciliation)
    → s.reconciliation ≡ some r
    → left_of s.reconciliation ≡ phases_left r.phase
unfolding left_of
left_at s r b = ap left_of b

pub item-Measured :
    (r0 : PendingReconciliation) (order : List FilePath) (w : Worker) (s : SubscriptionState)
    (p q : Place) (x : Torn)
    → s.reconciliation ≡ some (at_place r0 p)
    → x.1.reconciliation ≡ some (at_place r0 q)
    → IsOrdered x.1
    → IsSweptTo r0 order x.1 q q.phase
    → IsCounted x.0
    → suc (entries_ahead x.1 q.sweep_after q.phase) ≡ entries_ahead s p.sweep_after p.phase
    → phases_left q.phase ≡ phases_left p.phase
    → Measured r0 order (w, s) (item x)
unfolding items_of phases_of
item-Measured r0 order w s p q (v, t) b c o i n e f = (
  record { place = q; begun = c; ordered = o; swept = i; counted = n },
  ap suc (items_at t (at_place r0 q) c) ∙ e ∙ sym (items_at s (at_place r0 p) b),
  omega (arith, left_at t (at_place r0 q) c, left_at s (at_place r0 p) b, f),
)

pub moved-Measured :
    (r0 : PendingReconciliation) (order : List FilePath) (w : Worker) (s : SubscriptionState)
    (p q : Place) (x : Torn)
    → s.reconciliation ≡ some (at_place r0 p)
    → x.1.reconciliation ≡ some (at_place r0 q)
    → IsOrdered x.1
    → IsSweptTo r0 order x.1 q q.phase
    → IsCounted x.0
    → entries_ahead x.1 q.sweep_after q.phase ≡ entries_ahead s p.sweep_after p.phase
    → phases_left q.phase < phases_left p.phase
    → Measured r0 order (w, s) (moved x)
unfolding items_of phases_of
moved-Measured r0 order w s p q (v, t) b c o i n e f = (
  record { place = q; begun = c; ordered = o; swept = i; counted = n },
  items_at t (at_place r0 q) c ∙ e ∙ sym (items_at s (at_place r0 p) b),
  omega (arith, left_at t (at_place r0 q) c, left_at s (at_place r0 p) b, f),
)

pub IsOrdered-of :
    (t : SubscriptionState) (ws ds ps : List FilePath)
    → BTreeMap.keys t.watched_paths ≡ ws
    → BTreeMap.keys t.deferred_directories ≡ ds
    → t.pending_promotions ≡ ps
    → BTreeSet.IsSorted ws
    → BTreeSet.IsSorted ds
    → BTreeSet.IsSorted ps
    → IsOrdered t
IsOrdered-of t ws ds ps a b c u v w = record {
  watched_paths = subst BTreeSet.IsSorted (sym a) u;
  deferred_directories = subst BTreeSet.IsSorted (sym b) v;
  pending_promotions = subst BTreeSet.IsSorted (sym c) w;
}
