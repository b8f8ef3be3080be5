-- ===== src/State/RootLoss/Rejection.antt =====
-- What losing the root does to the published state and to the transactions that rest on it.
use watchbound.State.{
  FilePath, SubscriptionState, Acknowledgement, exclusions, reconciled, PendingExclusionUpdate,
  PendingReconciliation,
}
use watchbound.Base.{
  ℕ, ◌≡◌, refl, List, [], ◌∷◌, ◌++◌, true, false, Option, none, some, arith, ◌==◌, ◌≢◌, ◌∙◌, ◌⊎◌,
  inl, sym, subst,
}
use watchbound.Order.{list_ord, ℕ_ord}
use watchbound.Error.{error, ErrorCode, Operation}
use watchbound.Result.{err}
use watchbound.Types.{
  uncertain, UncertainReason, topology_race, root_replaced, RootLossEvidence, lost, root_self_event,
  root_watch_loss, path_identity_mismatch, multiple,
}
use watchbound.State.Observe.{
  Host, deferred_count, current_partial_reason, coverage, root_state, publish_root_state,
  publish_resource_counts, reset_observed_boundary_identities,
}
use watchbound.State.Queue.{mark_uncertain, queue_path, adopt_generation}
use watchbound.State.Truth.{mark_uncertain-coverage}
use watchbound.State.RootLoss.{mark_root_lost, reject_transactions, add_evidence}

-- What marking uncertainty leaves alone.
record IsFramed (s t : SubscriptionState) : Type 0 where
  root : t.root ≡ s.root
  root_identity : t.root_identity ≡ s.root_identity
  root_generation : t.root_generation ≡ s.root_generation
  root_lost : t.root_lost ≡ s.root_lost
  root_loss_evidence : t.root_loss_evidence ≡ s.root_loss_evidence
  exclusion_update : t.exclusion_update ≡ s.exclusion_update
  reconciliation : t.reconciliation ≡ s.reconciliation
  topology_barriers : t.topology_barriers ≡ s.topology_barriers
  exclusion_policy : t.exclusion_policy ≡ s.exclusion_policy
  exclusion_generation : t.exclusion_generation ≡ s.exclusion_generation
  selection_generation : t.selection_generation ≡ s.selection_generation
  acknowledged : t.acknowledged ≡ s.acknowledged

mark_uncertain-IsFramed :
    (now : ℕ) (s : SubscriptionState) (reason : UncertainReason) (path : FilePath)
    → IsFramed s (mark_uncertain now s reason path)
unfolding mark_uncertain queue_path adopt_generation
mark_uncertain-IsFramed now s reason path = ground arith

-- The answers that the loss of the root sends.
abbrev pub update_rejected : Option PendingExclusionUpdate → List Acknowledgement
update_rejected none = []
update_rejected (some u) =
    (record {
      receiver = u.acknowledgement;
      generation = u.generation;
      value = exclusions (err (error ErrorCode.root_state_conflict Operation.replace_exclusions));
    })
    ∷ []

abbrev pub reconciliation_rejected : Option PendingReconciliation → List Acknowledgement
reconciliation_rejected none = []
reconciliation_rejected (some r) =
    (record {
      receiver = r.acknowledgement;
      generation = 0;
      value = reconciled (err (error ErrorCode.root_state_conflict Operation.reconcile));
    })
    ∷ []

-- The subscription after its root is lost outside a recovery.
pub record IsRejected (s t : SubscriptionState) : Type 0 where
  pub latched : t.root_lost ≡ true
  pub committed : t.exclusion_generation ≡ s.exclusion_generation
  pub no_update : t.exclusion_update ≡ none
  pub no_reconciliation : t.reconciliation ≡ none
  pub no_barrier : t.topology_barriers ≡ 0
  pub answered :
      t.acknowledged
      ≡ reconciliation_rejected s.reconciliation
        ++ (update_rejected s.exclusion_update ++ s.acknowledged)
  pub rolled_back :
      (u : PendingExclusionUpdate)
      → s.exclusion_update ≡ some u
      → (t.exclusion_policy ≡ u.previous_policy) × (t.selection_generation ≡ s.exclusion_generation)

reject_transactions-IsRejected :
    (host : Host) (s : SubscriptionState)
    → s.root_lost ≡ true
    → s.root_recovery ≡ none
    → IsRejected s (reject_transactions host s)
unfolding reject_transactions reset_observed_boundary_identities
reject_transactions-IsRejected host s l e = record {
  latched = ground arith;
  committed = ground arith;
  no_update = ground arith;
  no_reconciliation = ground arith;
  no_barrier = ground arith;
  answered = ground arith;
  rolled_back = λ u h. (ground arith, ground arith);
}

reject_transactions-frame :
    (host : Host) (s : SubscriptionState)
    → ((reject_transactions host s).root ≡ s.root)
      × ((reject_transactions host s).root_lost ≡ s.root_lost)
      × ((reject_transactions host s).root_loss_evidence ≡ s.root_loss_evidence)
      × ((reject_transactions host s).pending_generation ≡ s.pending_generation)
      × ((reject_transactions host s).root_identity ≡ s.root_identity)
      × ((reject_transactions host s).root_generation ≡ s.root_generation)
unfolding reject_transactions reset_observed_boundary_identities
reject_transactions-frame host s = ground arith

-- The first evidence of a loss stays while the same is found again; different evidence makes it
-- `multiple`.
abbrev Evidenced : Option RootLossEvidence → RootLossEvidence → Option RootLossEvidence → Type 0
Evidenced earlier found after =
    ((earlier ≡ none) × (after ≡ some found))
    ⊎ (((earlier ≡ some found) × (after ≡ some found))
        ⊎ ((first : RootLossEvidence) × (earlier ≡ some first)
            × (first ≢ found)
            × (after ≡ some multiple)))

-- What holds of the subscription once its root is lost, whatever was in flight.
pub record IsLost (s : SubscriptionState) (found : RootLossEvidence) (t : SubscriptionState)
    : Type 0 where
  pub latched : t.root_lost ≡ true
  pub published : t.published_root_state ≡ root_state t
  pub detached : t.published_root_state.attachment ≡ lost
  pub same_root :
      (t.published_root_state.identity ≡ s.root_identity)
      × (t.published_root_state.generation ≡ s.root_generation)
  pub told : t.published_root_state.loss_evidence ≡ t.root_loss_evidence
  pub evidence : Evidenced s.root_loss_evidence found t.root_loss_evidence
  pub reason : UncertainReason
  pub reported : coverage t ≡ uncertain reason

add_evidence-Evidenced :
    (earlier : Option RootLossEvidence) (found : RootLossEvidence)
    → Evidenced earlier found (some (add_evidence earlier found))
unfolding add_evidence
add_evidence-Evidenced none found = inl (refl, refl)
add_evidence-Evidenced (some root_self_event) found = ground arith
add_evidence-Evidenced (some root_watch_loss) found = ground arith
add_evidence-Evidenced (some path_identity_mismatch) found = ground arith
add_evidence-Evidenced (some multiple) found = ground arith

-- The state of `mark_root_lost` before it is published.
before_publishing : Host → SubscriptionState → RootLossEvidence → SubscriptionState
before_publishing host s evidence =
    mark_uncertain host.now
      (reject_transactions host (record s {
        root_loss_evidence = some (add_evidence s.root_loss_evidence evidence);
        root_lost = true;
      }))
      root_replaced s.root

published-coverage :
    (m : SubscriptionState) → coverage (publish_root_state (publish_resource_counts m)) ≡ coverage m
unfolding coverage publish_root_state publish_resource_counts deferred_count current_partial_reason
published-coverage m = refl

-- Losing the root is latched, published with the root's identity and generation and the evidence,
-- and reported as uncertain coverage. The evidence is what is found the first time, stays when the
-- same is found again, and is `multiple` once it differs.
pub mark_root_lost-IsLost :
    (host : Host) (s : SubscriptionState) (evidence : RootLossEvidence)
    → IsLost s evidence (mark_root_lost host s evidence)
unfolding mark_root_lost before_publishing
mark_root_lost-IsLost host s evidence =
    let latched : SubscriptionState = record s {
      root_loss_evidence = some (add_evidence s.root_loss_evidence evidence);
      root_lost = true;
    } in
    let rejected = reject_transactions host latched in
    let frame = reject_transactions-frame host latched in
    let framed = mark_uncertain-IsFramed host.now rejected root_replaced s.root in
    let m = mark_uncertain host.now rejected root_replaced s.root in
    let (_, (reason, reported, _)) =
      mark_uncertain-coverage host.now rejected root_replaced s.root in
    let lost_root : m.root_lost ≡ true = framed.root_lost ∙ frame.1 in
    record {
      latched = unfold publish_root_state publish_resource_counts in lost_root;
      published = unfold publish_root_state publish_resource_counts root_state in refl;
      detached = unfold publish_root_state publish_resource_counts root_state in rw lost_root refl;
      evidence =
          unfold publish_root_state publish_resource_counts in
          subst (Evidenced s.root_loss_evidence evidence)
            (sym (framed.root_loss_evidence ∙ frame.2))
            (add_evidence-Evidenced s.root_loss_evidence evidence);
      same_root =
          unfold publish_root_state publish_resource_counts root_state in
          (framed.root_identity ∙ frame.4, framed.root_generation ∙ frame.5);
      told = unfold publish_root_state publish_resource_counts root_state in refl;
      reason = reason;
      reported = published-coverage m ∙ reported;
    }

-- Outside a recovery, losing the root rolls an exclusion update in flight back to the committed
-- policy and generation, and answers it and a reconciliation in flight once each with a root state
-- conflict.
pub mark_root_lost-IsRejected :
    (host : Host) (s : SubscriptionState) (evidence : RootLossEvidence)
    → s.root_recovery ≡ none
    → IsRejected s (mark_root_lost host s evidence)
unfolding mark_root_lost publish_root_state publish_resource_counts
mark_root_lost-IsRejected host s evidence e =
    let latched : SubscriptionState = record s {
      root_loss_evidence = some (add_evidence s.root_loss_evidence evidence);
      root_lost = true;
    } in
    let r = reject_transactions-IsRejected host latched refl e in
    let f =
      mark_uncertain-IsFramed host.now (reject_transactions host latched) root_replaced s.root in
    record {
      latched = f.root_lost ∙ r.latched;
      committed = f.exclusion_generation ∙ r.committed;
      no_update = f.exclusion_update ∙ r.no_update;
      no_reconciliation = f.reconciliation ∙ r.no_reconciliation;
      no_barrier = f.topology_barriers ∙ r.no_barrier;
      answered = f.acknowledged ∙ r.answered;
      rolled_back = λ u h.
          let (p, g) = r.rolled_back u h in (f.exclusion_policy ∙ p, f.selection_generation ∙ g);
    }

-- When paths are pending under a generation other than the committed one, with an exclusion update
-- in flight and no recovery, losing the root is reported as a topology race, whatever the stronger
-- reasons before.
pub mark_root_lost_understated :
    (host : Host) (s : SubscriptionState) (evidence : RootLossEvidence)
    → (u : PendingExclusionUpdate) (g : ℕ) → s.root_recovery ≡ none
    → s.exclusion_update ≡ some u
    → s.pending_generation ≡ some g
    → (g == s.exclusion_generation) ≡ false
    → coverage (mark_root_lost host s evidence) ≡ uncertain topology_race
unfolding mark_root_lost publish_root_state publish_resource_counts coverage mark_uncertain
    queue_path adopt_generation
mark_root_lost_understated host s evidence u g e h p n =
    let latched : SubscriptionState = record s {
      root_loss_evidence = some (add_evidence s.root_loss_evidence evidence);
      root_lost = true;
    } in
    let r = reject_transactions-IsRejected host latched refl e in
    let f = reject_transactions-frame host latched in
    let back = (r.rolled_back u h).1 in ground (arith, back, f, p, n)
