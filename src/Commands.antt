-- ===== src/Commands.antt =====
-- The commands that start a transaction (`ReplaceExclusions`, `Reconcile` and `RecoverRoot` of
-- `process_command_turn`, engine/src/backend/linux.rs): their guards, the transaction they start and its
-- first turn. The identities that the root has at the turn's captures are arguments.
pub mod Busy
use watchbound.Base.{
  ℕ, List, [], ◌∷◌, Bool, true, false, not, ◌&&◌, ◌||◌, Option, none, some, if◌then◌else◌, is_empty,
  is_some, leb, ◌==◌,
}
use watchbound.Order.{ℕ_ord, list_ord}
use watchbound.BTreeSet
use watchbound.BTreeMap
use watchbound.Error.{WatchboundError, ErrorCode, Operation, error}
use watchbound.Result.{Result, ResultOf, ok, err}
use watchbound.Exclusion.{
  ExclusionPolicy, ValidatedExclusionPolicy, validate_exclusion_policy, policy_reinclusion_roots,
}
use watchbound.Types.{
  RootIdentity, RootState, RootIdentityPolicy, original_only, accept_replacement,
  RootRecoveryFailureReason, replacement_not_accepted, RootRecoveryResult,
}
use watchbound.State.{
  SubscriptionState, PendingExclusionUpdate, PendingReconciliation, PendingRootRecovery, Reply,
  exclusions, reconciled, recovered, Acknowledgement, RootRecoveryPhase, ReconciliationPhase,
  ExclusionUpdatePhase, ExclusionRemovalStage,
}
use watchbound.State.Observe.{Host, root_state, disposal_in_progress}
use watchbound.State.Queue.{flush, taken}
use watchbound.Worker.{same_identity}
use watchbound.Worker.Hub.{Hub, schedule_topology, publish_deferred_interest_count}
use watchbound.Topology.{Answers}
use watchbound.Update.{progress_exclusion_update, is_waiting}
use watchbound.Reconcile.{begin_reconciliation}
use watchbound.Reconcile.Commit.{progress_reconciliation}
use watchbound.Recovery.{not_attached_result}
use watchbound.Recovery.Progress.{progress_root_recovery, root_recovery_runnable}

-- A transaction is in progress.
unfoldable pub is_busy : SubscriptionState → Bool
is_busy s = is_some s.exclusion_update || (is_some s.reconciliation || is_some s.root_recovery)

unfoldable pub answer : SubscriptionState → ℕ → ℕ → Reply → SubscriptionState
answer s receiver generation value = record s {
  acknowledged =
      (record { receiver = receiver; generation = generation; value = value }) ∷ s.acknowledged;
}

abbrev pub answer_closed : Hub → ℕ → ℕ → Reply → Hub
answer_closed h receiver generation value = record h {
  acknowledged =
      (record { receiver = receiver; generation = generation; value = value }) ∷ h.acknowledged;
}

unfoldable pub validate_replacement :
    SubscriptionState → ℕ → ExclusionPolicy → Result ValidatedExclusionPolicy
validate_replacement s generation policy =
    if disposal_in_progress s
    then err (error ErrorCode.subscription_closed Operation.replace_exclusions)
    else if leb generation s.exclusion_generation
    then err (error ErrorCode.invalid_argument Operation.replace_exclusions)
    else if s.root_lost
    then err (error ErrorCode.root_state_conflict Operation.replace_exclusions)
    else if is_busy s
    then err (error ErrorCode.topology_transaction_conflict Operation.replace_exclusions)
    else validate_exclusion_policy s.root policy Operation.replace_exclusions

unfoldable pub start_replacement :
    SubscriptionState → ℕ → ValidatedExclusionPolicy → ℕ → SubscriptionState
start_replacement s generation policy receiver = record s {
  exclusion_update = some (record {
    generation = generation;
    policy = policy;
    previous_policy = s.exclusion_policy;
    newly_included = policy_reinclusion_roots s.root s.exclusion_policy policy;
    commit_invalidations =
        BTreeSet.difference policy.observed_paths s.exclusion_policy.observed_paths;
    removal_stage = ExclusionRemovalStage.watched;
    removal_cursor = none;
    acknowledgement = receiver;
    phase = ExclusionUpdatePhase.waiting_for_topology;
  });
}

-- What `RootIdentity::capture` answers at the start and at the commit of a transaction.
pub record Captures : Type 0 where
  pub at_start : Option RootIdentity
  pub at_commit : Option RootIdentity

-- The `match validation`.
unfoldable pub after_validation :
    Host
    → Captures
    → Hub
    → SubscriptionState
    → ℕ
    → ℕ
    → Result ValidatedExclusionPolicy
    → Hub × SubscriptionState
after_validation host c h s generation receiver (err e) =
    (h, answer s receiver generation (exclusions (err e)))
after_validation host c h s generation receiver (ok policy) =
    progress_exclusion_update host c.at_start c.at_commit h
      (start_replacement s generation policy receiver)

unfoldable pub replace_exclusions :
    Host → Captures → Hub → SubscriptionState → ℕ → ExclusionPolicy → ℕ → Hub × SubscriptionState
replace_exclusions host c h s generation policy receiver =
    after_validation host c h s generation receiver (validate_replacement s generation policy)

abbrev pub started_reconciliation : ℕ → PendingReconciliation
started_reconciliation receiver = record {
  acknowledgement = receiver;
  phase = ReconciliationPhase.waiting_for_topology;
  encountered = [];
  sweep_after = none;
  rebuilt_deferred_order = [];
  starting_uncertainty = none;
  starting_uncertainty_epoch = 0;
}

abbrev reject :
    SubscriptionState
    → ℕ
    → ℕ
    → (WatchboundError → Reply)
    → ErrorCode
    → Operation
    → SubscriptionState
reject s receiver generation value code operation =
    answer s receiver generation (value (error code operation))

abbrev refuse_reconcile : WatchboundError → Reply
refuse_reconcile e = reconciled (err e)

abbrev refuse_recovery : WatchboundError → Reply
refuse_recovery e = recovered (err e)

unfoldable pub reconcile :
    Host → Captures → Hub → SubscriptionState → ℕ → ℕ → Hub × SubscriptionState
reconcile host c h s generation receiver =
    if disposal_in_progress s
    then (
      h,
      reject s receiver generation refuse_reconcile ErrorCode.subscription_closed
          Operation.reconcile,
    )
    else if is_busy s
    then (
      h,
      reject s receiver generation refuse_reconcile ErrorCode.topology_transaction_conflict
          Operation.reconcile,
    )
    else if s.root_lost
    then (
      h,
      reject s receiver generation refuse_reconcile ErrorCode.root_state_conflict
          Operation.reconcile,
    )
    else progress_reconciliation host c.at_start c.at_commit h
        (record s { reconciliation = some (started_reconciliation receiver) })

unfoldable pub start_recovery : Host → SubscriptionState → RootIdentity → ℕ → SubscriptionState
start_recovery host s candidate receiver =
    let flushed = taken (flush host.now s) in
    record flushed {
      topology_barriers = 1;
      root_recovery = some (record {
        acknowledgement = receiver;
        phase = RootRecoveryPhase.removing_old;
        previous_root_state = root_state s;
        candidate_identity = candidate;
        starting_uncertainty = flushed.uncertain_reason;
        starting_uncertainty_epoch = flushed.uncertainty_epoch;
        later_uncertainty = none;
        candidate_unstable = false;
      });
    }

abbrev accepts : RootIdentityPolicy → RootIdentity → RootIdentity → Bool
accepts original_only candidate original = same_identity candidate original
accepts accept_replacement candidate original = true

-- The `match capture_root_candidate`.
unfoldable pub after_candidate :
    Host
    → Option RootIdentity
    → Answers
    → Hub
    → SubscriptionState
    → ℕ
    → RootIdentityPolicy
    → ℕ
    → ResultOf RootRecoveryFailureReason RootIdentity
    → Hub × SubscriptionState
after_candidate host again a h s generation policy receiver (err reason) = (
  h,
  answer s receiver generation (recovered (ok (not_attached_result s (root_state s) none reason))),
)
after_candidate host again a h s generation policy receiver (ok candidate) =
    if accepts policy candidate s.root_identity
    then progress_root_recovery host again a h (start_recovery host s candidate receiver)
    else (
      h,
      answer s receiver generation (
          recovered
            (ok (not_attached_result s (root_state s) (some candidate) replacement_not_accepted))),
    )

-- `again` is what the root is when the old directories are drained.
unfoldable pub recover_root :
    Host
    → ResultOf RootRecoveryFailureReason RootIdentity
    → Option RootIdentity
    → Answers
    → Hub
    → SubscriptionState
    → ℕ
    → RootIdentityPolicy
    → ℕ
    → Hub × SubscriptionState
recover_root host captured again a h s generation policy receiver =
    if disposal_in_progress s
    then (
      h,
      reject s receiver generation refuse_recovery ErrorCode.subscription_closed
          Operation.recover_root,
    )
    else if is_busy s
    then (
      h,
      reject s receiver generation refuse_recovery ErrorCode.topology_transaction_conflict
          Operation.recover_root,
    )
    else if not s.root_lost
    then (
      h,
      reject s receiver generation refuse_recovery ErrorCode.root_state_conflict
          Operation.recover_root,
    )
    else after_candidate host again a h s generation policy receiver captured

unfoldable pub reconciliation_runnable : SubscriptionState → Bool
reconciliation_runnable s = elim s.reconciliation [
  | none ↦ false
  | some r ↦ elim r.phase [
    | ReconciliationPhase.waiting_for_topology ↦ false
    | ReconciliationPhase.scanning ↦ false
    | _ ↦ true
  ]
]

unfoldable pub update_runnable : SubscriptionState → Bool
update_runnable s = elim s.exclusion_update [ none ↦ false | some u ↦ not (is_waiting u.phase) ]

-- The subscription is put back, the count published where the command does so, and a turn scheduled.
unfoldable pub put_back : Hub × SubscriptionState → ℕ → Bool → (SubscriptionState → Bool) → Hub
put_back (h, s) id publishes runnable =
    let kept : Hub = record h { subscriptions = BTreeMap.insert id s h.subscriptions } in
    let published = if publishes then publish_deferred_interest_count kept else kept in
    if not (is_empty s.topology_jobs) || runnable s
    then schedule_topology published id
    else published

abbrev pub take_out : Hub → ℕ → Hub
take_out h id = record h { subscriptions = BTreeMap.remove id h.subscriptions }

unfoldable pub replace_exclusions_command :
    Host → Captures → Hub → ℕ → ℕ → ExclusionPolicy → ℕ → Hub
replace_exclusions_command host c h generation id policy receiver =
    elim (BTreeMap.lookup id h.subscriptions) [
      | none ↦
          answer_closed h receiver generation
            (exclusions (err (error ErrorCode.subscription_closed Operation.replace_exclusions)))
      | some s ↦
          put_back (replace_exclusions host c (take_out h id) s generation policy receiver) id true
            update_runnable
    ]

unfoldable pub reconcile_command : Host → Captures → Hub → ℕ → ℕ → ℕ → Hub
reconcile_command host c h generation id receiver = elim (BTreeMap.lookup id h.subscriptions) [
  | none ↦
      answer_closed h receiver generation
        (reconciled (err (error ErrorCode.subscription_closed Operation.reconcile)))
  | some s ↦
      put_back (reconcile host c (take_out h id) s generation receiver) id false
        reconciliation_runnable
]

unfoldable pub recover_root_command :
    Host
    → ResultOf RootRecoveryFailureReason RootIdentity
    → Option RootIdentity
    → Answers
    → Hub
    → ℕ
    → ℕ
    → RootIdentityPolicy
    → ℕ
    → Hub
recover_root_command host captured again a h generation id policy receiver =
    elim (BTreeMap.lookup id h.subscriptions) [
      | none ↦
          answer_closed h receiver generation
            (recovered (err (error ErrorCode.subscription_closed Operation.recover_root)))
      | some s ↦
          put_back (recover_root host captured again a (take_out h id) s generation policy receiver)
            id true root_recovery_runnable
    ]
