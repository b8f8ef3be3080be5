-- ===== src/State/RootLoss.antt =====
-- `mark_root_lost`: the root's identity is lost, and transactions that rest on it are rejected.
pub mod Rejection
use watchbound.Base.{ℕ, List, [], ◌∷◌, Bool, true, false, Option, none, some, if◌then◌else◌}
use watchbound.Error.{error, ErrorCode, Operation}
use watchbound.Result.{err}
use watchbound.Types.{
  RootLossEvidence, root_self_event, root_watch_loss, path_identity_mismatch, multiple,
  root_replaced,
}
use watchbound.State.{SubscriptionState, exclusions, reconciled, PendingRootRecovery}
use watchbound.State.Observe.{
  Host, publish_root_state, publish_resource_counts, reset_observed_boundary_identities,
}
use watchbound.State.Queue.{mark_uncertain}

unfoldable pub same_evidence : RootLossEvidence → RootLossEvidence → Bool
same_evidence root_self_event root_self_event = true
same_evidence root_watch_loss root_watch_loss = true
same_evidence path_identity_mismatch path_identity_mismatch = true
same_evidence multiple multiple = true
same_evidence _ _ = false

unfoldable pub add_evidence : Option RootLossEvidence → RootLossEvidence → RootLossEvidence
unfolding same_evidence
add_evidence none evidence = evidence
add_evidence (some current) evidence = if same_evidence current evidence then current else multiple

-- An exclusion update in flight is rolled back and rejected.
unfoldable pub reject_exclusion_update : Host → SubscriptionState → SubscriptionState
reject_exclusion_update host s = elim s.exclusion_update [
  | none ↦ s
  | some update ↦
      let t =
        reset_observed_boundary_identities host
          (record s { exclusion_update = none; exclusion_policy = update.previous_policy }) in
      record t {
        selection_generation = s.exclusion_generation;
        acknowledged =
            (record {
              receiver = update.acknowledgement;
              generation = update.generation;
              value =
                  exclusions
                    (err (error ErrorCode.root_state_conflict Operation.replace_exclusions));
            })
            ∷ s.acknowledged;
      }
]

unfoldable pub reject_reconciliation : SubscriptionState → SubscriptionState
reject_reconciliation s = elim s.reconciliation [
  | none ↦ s
  | some reconciliation ↦ record s {
    reconciliation = none;
    acknowledged =
        (record {
          receiver = reconciliation.acknowledgement;
          generation = 0;
          value = reconciled (err (error ErrorCode.root_state_conflict Operation.reconcile));
        })
        ∷ s.acknowledged;
  }
]

unfoldable pub reject_transactions : Host → SubscriptionState → SubscriptionState
unfolding reject_exclusion_update reject_reconciliation
reject_transactions host s = elim s.root_recovery [
  | some recovery ↦ record s {
    root_recovery = some (record recovery { candidate_unstable = true });
  }
  | none ↦ reject_reconciliation (reject_exclusion_update host (record s { topology_barriers = 0 }))
]

unfoldable pub mark_root_lost : Host → SubscriptionState → RootLossEvidence → SubscriptionState
mark_root_lost host s evidence =
    let latched : SubscriptionState = record s {
      root_loss_evidence = some (add_evidence s.root_loss_evidence evidence);
      root_lost = true;
    } in
    publish_root_state (
      publish_resource_counts
        (mark_uncertain host.now (reject_transactions host latched) root_replaced s.root))
