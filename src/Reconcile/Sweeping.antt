-- ===== src/Reconcile/Sweeping.antt =====
-- The sweep of a reconciliation, turn by turn.
use watchbound.Base.{
  ℕ, ◌+◌, ◌≡◌, List, [], ◌++◌, Bool, true, false, Option, none, some, is_some, length, retain,
}
use watchbound.Order.{ℕ_ord, list_ord}
use watchbound.BTreeSet
use watchbound.BTreeMap
use watchbound.FilePath.{FilePath}
use watchbound.State.{
  SubscriptionState, DeferredInterest, PendingReconciliation, ReconciliationPhase, sweeping_watched,
  sweeping_deferred, sweeping_deferred_order, sweeping_promotions,
}
use watchbound.Worker.Budget.{IsCounted}
use watchbound.Quantum.{Step, IsMeasured}
use watchbound.Sweep.{ahead, IsSwept}
use watchbound.Teardown.{Torn}
use watchbound.Update.Pruned.{IsOrdered}
use watchbound.Reconcile.{sweep_step, unseen}

-- Every path of the list was encountered.
abbrev pub Seen : PendingReconciliation → List FilePath → Type 0
Seen r paths = (path : FilePath) → BTreeSet.contains path paths ≡ true → unseen r path ≡ false

-- The paths that are still deferred.
abbrev pub still_deferred : List (FilePath × DeferredInterest) → List FilePath → List FilePath
still_deferred m paths = retain (λ path. is_some (BTreeMap.lookup path m)) paths

-- Where a sweep stands.
pub record Place : Type 0 where
  pub phase : ReconciliationPhase
  pub sweep_after : Option FilePath
  pub rebuilt : List FilePath

abbrev pub at_place : PendingReconciliation → Place → PendingReconciliation
at_place r0 p = record r0 {
  phase = p.phase;
  sweep_after = p.sweep_after;
  rebuilt_deferred_order = p.rebuilt;
}

-- What a sweep that began with the deferred order `order` keeps in each phase.
abbrev pub IsSweptTo :
    PendingReconciliation → List FilePath → SubscriptionState → Place → ReconciliationPhase → Type 0
IsSweptTo r0 order s p sweeping_watched =
    IsSwept (unseen r0) (BTreeMap.keys s.watched_paths) p.sweep_after
    × (s.deferred_order ≡ order)
    × (p.rebuilt ≡ [])
IsSweptTo r0 order s p sweeping_deferred =
    Seen r0 (BTreeMap.keys s.watched_paths)
    × IsSwept (unseen r0) (BTreeMap.keys s.deferred_directories) p.sweep_after
    × (s.deferred_order ≡ order)
    × (p.rebuilt ≡ [])
IsSweptTo r0 order s p sweeping_deferred_order =
    Seen r0 (BTreeMap.keys s.watched_paths)
    × Seen r0 (BTreeMap.keys s.deferred_directories)
    × (p.sweep_after ≡ none)
    × (p.rebuilt ++ still_deferred s.deferred_directories s.deferred_order
        ≡ still_deferred s.deferred_directories order)
IsSweptTo r0 order s p sweeping_promotions =
    Seen r0 (BTreeMap.keys s.watched_paths)
    × Seen r0 (BTreeMap.keys s.deferred_directories)
    × IsSwept (unseen r0) s.pending_promotions p.sweep_after
    × (s.deferred_order ≡ still_deferred s.deferred_directories order)
    × (p.rebuilt ≡ [])
IsSweptTo r0 order s p _ = ⊥

abbrev pub entries_ahead : SubscriptionState → Option FilePath → ReconciliationPhase → ℕ
entries_ahead s c sweeping_watched =
    ahead (BTreeMap.keys s.watched_paths) c
    + ahead (BTreeMap.keys s.deferred_directories) none
    + length s.deferred_order
    + ahead s.pending_promotions none
entries_ahead s c sweeping_deferred =
    ahead (BTreeMap.keys s.deferred_directories) c
    + length s.deferred_order
    + ahead s.pending_promotions none
entries_ahead s c sweeping_deferred_order =
    length s.deferred_order + ahead s.pending_promotions none
entries_ahead s c sweeping_promotions = ahead s.pending_promotions c
entries_ahead s c _ = 0

abbrev pub phases_left : ReconciliationPhase → ℕ
phases_left sweeping_watched = 3
phases_left sweeping_deferred = 2
phases_left sweeping_deferred_order = 1
phases_left _ = 0

pub record IsSweeping (r0 : PendingReconciliation) (order : List FilePath) (x : Torn) : Type 0 where
  pub place : Place
  pub begun : x.1.reconciliation ≡ some (at_place r0 place)
  pub ordered : IsOrdered x.1
  pub swept : IsSweptTo r0 order x.1 place place.phase
  pub counted : IsCounted x.0

-- Only what the scan encountered is left, and the deferred order lists what is still deferred.
pub record IsReconciled (r0 : PendingReconciliation) (order : List FilePath) (x : Torn)
    (ready : Bool) : Type 0 where
  pub to_commit : ready ≡ true
  pub cursor : Option FilePath
  pub begun :
      x.1.reconciliation
      ≡ some
          (at_place r0 (record { phase = sweeping_promotions; sweep_after = cursor; rebuilt = [] }))
  pub ordered : IsOrdered x.1
  pub watched_paths : Seen r0 (BTreeMap.keys x.1.watched_paths)
  pub deferred_directories : Seen r0 (BTreeMap.keys x.1.deferred_directories)
  pub pending_promotions : Seen r0 x.1.pending_promotions
  pub deferred_order : x.1.deferred_order ≡ still_deferred x.1.deferred_directories order
  pub counted : IsCounted x.0

unfoldable pub entries_of : SubscriptionState → Option PendingReconciliation → ℕ
entries_of s none = 0
entries_of s (some r) = entries_ahead s r.sweep_after r.phase

unfoldable pub items_of : Torn → ℕ
items_of (w, s) = entries_of s s.reconciliation

unfoldable pub left_of : Option PendingReconciliation → ℕ
left_of none = 0
left_of (some r) = phases_left r.phase

unfoldable pub phases_of : Torn → ℕ
phases_of (w, s) = left_of s.reconciliation

abbrev pub Measured : PendingReconciliation → List FilePath → Torn → Step Torn Bool → Type 0
Measured r0 order =
    IsMeasured sweep_step (IsSweeping r0 order) (IsReconciled r0 order) items_of phases_of
