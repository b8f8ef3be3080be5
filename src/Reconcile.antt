-- ===== src/Reconcile.antt =====
-- Reconciliation (engine/src/backend/linux.rs): `progress_reconciliation` and
-- `commit_reconciliation`. After its scan of the tree the sweep, at most 64 paths a turn, drops what
-- the scan has not encountered. `captured` is what `RootIdentity::capture` answers, as far as it is
-- an identity.
pub mod Commit
pub mod Sweeping
pub mod Steps
pub mod Maps
pub mod Lists
pub mod Ending
pub mod Clearing
use watchbound.Base.{
  ℕ, zero, suc, ◌+◌, ◌-◌, List, [], ◌∷◌, ◌++◌, Bool, true, false, not, ◌&&◌, Option, none, some,
  if◌then◌else◌, is_empty, is_some, ◌==◌,
}
use watchbound.Order.{ℕ_ord, list_ord}
use watchbound.BTreeSet
use watchbound.BTreeMap
use watchbound.Result.{ok, err}
use watchbound.FilePath.{FilePath}
use watchbound.Types.{
  RootIdentity, path_identity_mismatch, consumer_backpressure, SharedStats, UncertainReason,
  ReconciliationResult, Coverage, ChangeBatch, recoverable_uncertainty, uncertainty_priority,
}
use watchbound.State.{
  SubscriptionState, PendingReconciliation, ReconciliationPhase, waiting_for_topology, scanning,
  sweeping_watched, sweeping_deferred, sweeping_deferred_order, sweeping_promotions, reconciled,
  Acknowledgement, Output,
}
use watchbound.State.Observe.{
  Host, coverage, coverage_without_uncertainty, root_state, publish_resource_counts,
}
use watchbound.State.Queue.{
  SendResult, sent, full, disconnected, try_send, flush, mark_uncertain, queue_path, taken,
}
use watchbound.State.Deferred.{reconciliation_job}
use watchbound.State.RootLoss.{mark_root_lost, reject_reconciliation}
use watchbound.Worker.{Worker}
use watchbound.Worker.Removal.{remove_interest}
use watchbound.Worker.Hub.{Hub, publish_deferred_interest_count_with}
use watchbound.Quantum.{Step, item, moved, finished, Turn, quantum}
use watchbound.Sweep.{next_set_path, next_map_path}
use watchbound.Teardown.{Torn}
use watchbound.Update.{root_stable, forget_watched, max_topology_directories_per_turn}

abbrev pub sweep_fuel : ℕ
sweep_fuel = 68

abbrev pub is_waiting : ReconciliationPhase → Bool
is_waiting waiting_for_topology = true
is_waiting _ = false

abbrev pub is_scanning : ReconciliationPhase → Bool
is_scanning scanning = true
is_scanning _ = false

abbrev pub set_reconciliation : SubscriptionState → PendingReconciliation → SubscriptionState
set_reconciliation s r = record s { reconciliation = some r }

unfoldable pub start_scan : SubscriptionState → PendingReconciliation → SubscriptionState
start_scan s r =
    let stats = s.stats in
    record s {
      reconciliation = some (record r {
        phase = scanning;
        starting_uncertainty = s.uncertain_reason;
        starting_uncertainty_epoch = s.uncertainty_epoch;
      });
      topology_barriers = 2;
      stats = record stats { topology_scans = stats.topology_scans + 1 };
      topology_jobs = s.topology_jobs ++ (reconciliation_job s.root ∷ []);
    }

-- The first part: the start of the scan.
unfoldable pub begin_reconciliation :
    Host → Option RootIdentity → SubscriptionState → SubscriptionState
begin_reconciliation host captured s = elim s.reconciliation [
  | none ↦ s
  | some r ↦
      if is_waiting r.phase && (is_empty s.topology_jobs && (s.topology_barriers == 0))
      then (let flushed = taken (flush host.now s) in
          if root_stable captured flushed
          then start_scan flushed r
          else reject_reconciliation (mark_root_lost host flushed path_identity_mismatch))
      else s
]

unfoldable pub begin_sweep : SubscriptionState → SubscriptionState
begin_sweep s = elim s.reconciliation [
  | none ↦ s
  | some r ↦
      if is_scanning r.phase && (is_empty s.topology_jobs && (s.topology_barriers == 1))
      then set_reconciliation s (record r { phase = sweeping_watched; sweep_after = none })
      else s
]

abbrev pub unseen : PendingReconciliation → FilePath → Bool
unseen r path = not (BTreeSet.contains path r.encountered)

abbrev pub visited : SubscriptionState → PendingReconciliation → FilePath → SubscriptionState
visited s r path = set_reconciliation s (record r { sweep_after = some path })

abbrev pub enter_phase :
    SubscriptionState → PendingReconciliation → ReconciliationPhase → SubscriptionState
enter_phase s r phase = set_reconciliation s (record r { phase = phase; sweep_after = none })

unfoldable pub sweep_watched : Worker → SubscriptionState → PendingReconciliation → Step Torn Bool
sweep_watched w s r = elim (next_map_path s.watched_paths r.sweep_after) [
  | some path ↦
      item
        (if unseen r path then forget_watched w (visited s r path) path else (w, visited s r path))
  | none ↦ moved (w, enter_phase s r sweeping_deferred)
]

unfoldable pub sweep_deferred : Worker → SubscriptionState → PendingReconciliation → Step Torn Bool
sweep_deferred w s r = elim (next_map_path s.deferred_directories r.sweep_after) [
  | some path ↦
      let t = visited s r path in
      item (
        w,
        if unseen r path
            then record t { deferred_directories = BTreeMap.remove path t.deferred_directories }
            else t,
      )
  | none ↦ moved (w, enter_phase s r sweeping_deferred_order)
]

-- `pop_front` from the deferred order.
unfoldable pub sweep_order :
    Worker → SubscriptionState → PendingReconciliation → List FilePath → Step Torn Bool
sweep_order w s r (path ∷ rest) =
    let t = record s { deferred_order = rest } in
    item (
      w,
      if is_some (BTreeMap.lookup path s.deferred_directories)
          then set_reconciliation t
              (record r { rebuilt_deferred_order = r.rebuilt_deferred_order ++ (path ∷ []) })
          else t,
    )
sweep_order w s r [] = moved (
  w,
  set_reconciliation (record s { deferred_order = r.rebuilt_deferred_order })
      (record r { rebuilt_deferred_order = []; phase = sweeping_promotions }),
)

-- The loop ends with the commit to make.
unfoldable pub sweep_promotions :
    Worker → SubscriptionState → PendingReconciliation → Step Torn Bool
sweep_promotions w s r = elim (next_set_path s.pending_promotions r.sweep_after) [
  | some path ↦
      let t = visited s r path in
      item (
        w,
        if unseen r path
            then record t { pending_promotions = BTreeSet.remove path t.pending_promotions }
            else t,
      )
  | none ↦ finished (w, s) true
]

unfoldable pub sweep_phase :
    Worker → SubscriptionState → PendingReconciliation → ReconciliationPhase → Step Torn Bool
sweep_phase w s r waiting_for_topology = finished (w, s) false
sweep_phase w s r scanning = finished (w, s) false
sweep_phase w s r sweeping_watched = sweep_watched w s r
sweep_phase w s r sweeping_deferred = sweep_deferred w s r
sweep_phase w s r sweeping_deferred_order = sweep_order w s r s.deferred_order
sweep_phase w s r sweeping_promotions = sweep_promotions w s r

unfoldable pub sweep_at : Worker → SubscriptionState → Option PendingReconciliation → Step Torn Bool
sweep_at w s none = finished (w, s) false
sweep_at w s (some r) = sweep_phase w s r r.phase

abbrev pub sweep_step : Torn → Step Torn Bool
sweep_step (w, s) = sweep_at w s s.reconciliation

abbrev pub same_reason : Option UncertainReason → Option UncertainReason → Bool
same_reason none none = true
same_reason (some a) (some b) = uncertainty_priority a == uncertainty_priority b
same_reason _ _ = false

-- `is_none_or(recoverable_uncertainty)`.
abbrev pub none_or_recoverable : Option UncertainReason → Bool
none_or_recoverable none = true
none_or_recoverable (some reason) = recoverable_uncertainty reason
