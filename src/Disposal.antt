-- ===== src/Disposal.antt =====
-- The disposal of a subscription (engine/src/backend/linux.rs): `begin_subscription_disposal`,
-- which interrupts what is pending, and the first line of each turn. Turns are in Disposal/Turns.
pub mod Interrupted
pub mod Turns
pub mod Ending
pub mod Interruption
use watchbound.Base.{
  ℕ, List, [], ◌∷◌, ◌++◌, Bool, true, false, Option, none, some, if◌then◌else◌, is_some,
}
use watchbound.Order.{ℕ_ord}
use watchbound.Error.{WatchboundError, error, ErrorCode, Operation}
use watchbound.Result.{err}
use watchbound.FilePath.{FilePath}
use watchbound.Exclusion.{ValidatedExclusionPolicy}
use watchbound.Fair as Fair
use watchbound.Attempt.{Attempt, try_commit_failure, operation_cancelled_error}
use watchbound.Pending.{
  CompletedEstablishmentTeardown, PendingDisposal, DisposalAcknowledgement, DisposalPhase,
  ObservedBoundaryIdentity,
}
use watchbound.State.{
  SubscriptionState, PendingEstablishment, PendingEstablishmentTeardown, PendingExclusionUpdate,
  PendingReconciliation, PendingRootRecovery, Acknowledgement, exclusions, reconciled, recovered,
}
use watchbound.Worker.Hub.{Hub}
use watchbound.Teardown.{completed_of}

abbrev pub interrupted : Operation → WatchboundError
interrupted operation = error ErrorCode.operation_interrupted operation

-- The establishment that disposal takes over, with the attempt's state after it.
unfoldable pub interrupt_establishment :
    (ℕ → Attempt) → SubscriptionState → Option Attempt × Option CompletedEstablishmentTeardown
interrupt_establishment attempts s = elim s.establishment [
  | some e ↦
      let (attempt, won) = try_commit_failure (attempts e.cancellation) in
      (
        some attempt,
        some (record {
          generation = e.generation;
          acknowledgement = some e.acknowledgement;
          cancellation = e.cancellation;
          terminal_error =
              some (if won then interrupted Operation.subscribe else operation_cancelled_error);
        }),
      )
  | none ↦ elim s.establishment_teardown [
    | some t ↦ (none, some (completed_of t))
    | none ↦ (none, none)
  ]
]

abbrev pub update_interrupted : Option PendingExclusionUpdate → List Acknowledgement
update_interrupted none = []
update_interrupted (some u) =
    (record {
      receiver = u.acknowledgement;
      generation = u.generation;
      value = exclusions (err (interrupted Operation.replace_exclusions));
    })
    ∷ []

abbrev pub reconciliation_interrupted : Option PendingReconciliation → List Acknowledgement
reconciliation_interrupted none = []
reconciliation_interrupted (some r) =
    (record {
      receiver = r.acknowledgement;
      generation = 0;
      value = reconciled (err (interrupted Operation.reconcile));
    })
    ∷ []

abbrev pub recovery_interrupted : Option PendingRootRecovery → List Acknowledgement
recovery_interrupted none = []
recovery_interrupted (some r) =
    (record {
      receiver = r.acknowledgement;
      generation = 0;
      value = recovered (err (interrupted Operation.recover_root));
    })
    ∷ []

abbrev pub policies_of : Option PendingExclusionUpdate → List ValidatedExclusionPolicy
policies_of none = []
policies_of (some u) = u.policy ∷ u.previous_policy ∷ []

abbrev pub path_vectors_of : Option PendingExclusionUpdate → List (List FilePath)
path_vectors_of none = []
path_vectors_of (some u) = u.newly_included ∷ u.commit_invalidations ∷ []

abbrev pub path_sets_of : Option PendingReconciliation → List (List FilePath)
path_sets_of none = []
path_sets_of (some r) = r.encountered ∷ []

abbrev pub path_queues_of : Option PendingReconciliation → List (List FilePath)
path_queues_of none = []
path_queues_of (some r) = r.rebuilt_deferred_order ∷ []

abbrev pub disposal_of :
    SubscriptionState
    → Option DisposalAcknowledgement
    → Option CompletedEstablishmentTeardown
    → PendingDisposal
disposal_of s acknowledgement interrupted_establishment = record {
  acknowledgement = acknowledgement;
  interrupted_establishment = interrupted_establishment;
  cleanup_path_sets = path_sets_of s.reconciliation;
  cleanup_path_queues = path_queues_of s.reconciliation;
  cleanup_path_vectors = path_vectors_of s.exclusion_update;
  cleanup_policies = policies_of s.exclusion_update;
  cleanup_identity_maps = s.observed_boundary_identities ∷ [];
  phase = DisposalPhase.pending_paths;
}

unfoldable pub disposing :
    SubscriptionState
    → Option DisposalAcknowledgement
    → Option CompletedEstablishmentTeardown
    → SubscriptionState
disposing s acknowledgement interrupted_establishment = record s {
  topology_barriers = 0;
  pending_started = none;
  pending_generation = none;
  next_root_identity_check = none;
  next_observed_identity_check = none;
  establishment = none;
  establishment_teardown = elim s.establishment [ none ↦ none | some _ ↦ s.establishment_teardown ];
  exclusion_update = none;
  reconciliation = none;
  root_recovery = none;
  observed_boundary_identities = [];
  acknowledged =
      recovery_interrupted s.root_recovery
      ++ (reconciliation_interrupted s.reconciliation
          ++ (update_interrupted s.exclusion_update ++ s.acknowledged));
  disposal = some (disposal_of s acknowledgement interrupted_establishment);
}

pub record Begun : Type 0 where
  pub hub : Hub
  pub state : SubscriptionState
  pub attempt : Option Attempt

-- A second disposal does nothing, and must not have anyone waiting for it: `none` is the failed
-- assertion.
unfoldable pub begin_subscription_disposal :
    (ℕ → Attempt) → Hub → SubscriptionState → Option DisposalAcknowledgement → Option Begun
begin_subscription_disposal attempts h s acknowledgement =
    if is_some s.disposal
    then (if is_some acknowledgement
        then none
        else some (record { hub = h; state = s; attempt = none }))
    else (let (attempt, establishment) = interrupt_establishment attempts s in
        some (record {
          hub = record h {
            topology_runnable = (Fair.remove h.topology_runnable s.id).0;
            allocator_order = (Fair.remove h.allocator_order s.id).0;
          };
          state = disposing s acknowledgement establishment;
          attempt = attempt;
        }))
