-- ===== src/Reconcile/Commit.antt =====
-- The commit of a reconciliation (engine/src/backend/linux.rs): `commit_reconciliation`, and the whole
-- of `progress_reconciliation`.
use watchbound.Base.{
  min, ℕ, ◌+◌, ◌-◌, [], ◌∷◌, Bool, true, false, ◌&&◌, Option, none, some, if◌then◌else◌, ◌==◌,
}
use watchbound.State.Queue.{
  u64_max, SendResult, sent, full, disconnected, try_send, mark_uncertain, queue_path, taken,
}
use watchbound.Error.{ErrorCode, Operation, error}
use watchbound.Result.{Result, ok, err}
use watchbound.Types.{
  RootIdentity, path_identity_mismatch, consumer_backpressure, ReconciliationResult, ChangeBatch,
}
use watchbound.State.{SubscriptionState, PendingReconciliation, reconciled, Output}
use watchbound.State.Observe.{
  Host, coverage, coverage_without_uncertainty, root_state, publish_resource_counts,
}
use watchbound.State.RootLoss.{mark_root_lost, reject_reconciliation}
use watchbound.Worker.Hub.{Hub, publish_deferred_interest_count_with}
use watchbound.Quantum.{Turn, yielded, exhausted, done, quantum}
use watchbound.Teardown.{Torn}
use watchbound.Update.{root_stable, max_topology_directories_per_turn}
use watchbound.Reconcile.{
  sweep_step, sweep_fuel, same_reason, none_or_recoverable, begin_reconciliation, begin_sweep,
}

unfoldable pub clears_recoverable_uncertainty : SubscriptionState → PendingReconciliation → Bool
clears_recoverable_uncertainty s r =
    s.uncertainty_epoch == r.starting_uncertainty_epoch
    && (same_reason s.uncertain_reason r.starting_uncertainty
        && none_or_recoverable s.uncertain_reason)

unfoldable pub result_of : SubscriptionState → Bool → ReconciliationResult
result_of s clears = record {
  exclusion_generation = s.exclusion_generation;
  coverage = if clears then coverage_without_uncertainty s else coverage s;
}

unfoldable pub boundary_of : SubscriptionState → ReconciliationResult → ChangeBatch
boundary_of s result = record {
  sequence = s.next_sequence;
  exclusion_generation = s.exclusion_generation;
  root_state = root_state s;
  invalidated_paths = s.root ∷ [];
  coverage = result.coverage;
}

unfoldable pub answer :
    Hub × SubscriptionState
    → PendingReconciliation
    → Result ReconciliationResult
    → Hub × SubscriptionState
answer (h, s) r value = (
  h,
  record s {
    acknowledged =
        (record { receiver = r.acknowledgement; generation = 0; value = reconciled value })
        ∷ s.acknowledged;
  },
)

unfoldable pub boundary_sent :
    Hub
    → SubscriptionState
    → PendingReconciliation
    → Bool
    → ReconciliationResult
    → Hub × SubscriptionState
boundary_sent h s r clears result =
    let stats = s.stats in
    answer
      (publish_deferred_interest_count_with h (
        publish_resource_counts (record s {
          uncertain_reason = if clears then none else s.uncertain_reason;
          next_sequence = min (s.next_sequence + 1) u64_max;
          stats = record stats { batches_delivered = stats.batches_delivered + 1 };
        })))
      r (ok result)

-- The root stays pending, and the coverage uncertain.
unfoldable pub keep_boundary : ℕ → SubscriptionState → PendingReconciliation → SubscriptionState
keep_boundary now s r =
    let stats = s.stats in
    let counted : SubscriptionState = record s {
      stats = record stats { batches_dropped = stats.batches_dropped + 1 };
    } in
    queue_path now
      (if s.uncertainty_epoch == r.starting_uncertainty_epoch
        then record counted { uncertain_reason = some consumer_backpressure }
        else mark_uncertain now counted consumer_backpressure s.root)
      s.root

unfoldable pub boundary_dropped :
    ℕ → Hub → SubscriptionState → PendingReconciliation → ErrorCode → Hub × SubscriptionState
boundary_dropped now h s r code =
    answer
      (publish_deferred_interest_count_with h (publish_resource_counts (keep_boundary now s r))) r
      (err (error code Operation.reconcile))

-- The `match` on what `try_send` returned.
unfoldable pub after_boundary :
    ℕ
    → Hub
    → SubscriptionState
    → PendingReconciliation
    → Bool
    → ReconciliationResult
    → Output × SendResult
    → Hub × SubscriptionState
after_boundary now h s r clears result (output, sent) =
    boundary_sent h (record s { output = output }) r clears result
after_boundary now h s r clears result (output, full) =
    boundary_dropped now h (record s { output = output }) r ErrorCode.consumer_backpressure
after_boundary now h s r clears result (output, disconnected) =
    boundary_dropped now h (record s { output = output }) r ErrorCode.subscription_closed

unfoldable pub commit_stable :
    ℕ → Hub → SubscriptionState → PendingReconciliation → Hub × SubscriptionState
commit_stable now h s r =
    let closed : SubscriptionState =
      taken (record s { reconciliation = none; topology_barriers = s.topology_barriers - 1 }) in
    let clears = clears_recoverable_uncertainty s r in
    let result = result_of closed clears in
    after_boundary now h closed r clears result (try_send closed.output (boundary_of closed result))

unfoldable pub commit_reconciliation :
    Host → Option RootIdentity → Hub → SubscriptionState → Hub × SubscriptionState
commit_reconciliation host captured h s =
    if root_stable captured s
    then (elim s.reconciliation [ none ↦ (h, s) | some r ↦ commit_stable host.now h s r ])
    else (
      h,
      reject_reconciliation (
          mark_root_lost host (record s { topology_barriers = s.topology_barriers - 1 })
            path_identity_mismatch),
    )

abbrev pub after_sweep : Host → Option RootIdentity → Hub → Turn Torn Bool → Hub × SubscriptionState
after_sweep host captured h (yielded (w, s)) = (record h { worker = w }, s)
after_sweep host captured h (exhausted (w, s)) = (record h { worker = w }, s)
after_sweep host captured h (done (w, s) false) = (record h { worker = w }, s)
after_sweep host captured h (done (w, s) true) =
    commit_reconciliation host captured (record h { worker = w }) s

-- The root is captured before the scan starts, and again before the commit.
unfoldable pub progress_reconciliation :
    Host
    → Option RootIdentity
    → Option RootIdentity
    → Hub
    → SubscriptionState
    → Hub × SubscriptionState
progress_reconciliation host at_start at_commit h s = after_sweep host at_commit h (
    quantum sweep_step sweep_fuel max_topology_directories_per_turn
      (h.worker, begin_sweep (begin_reconciliation host at_start s)))
