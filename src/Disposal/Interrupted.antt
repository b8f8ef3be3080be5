-- ===== src/Disposal/Interrupted.antt =====
-- What a disposal owes to the transactions and the establishment that it interrupts.
use watchbound.Base.{ℕ, ◌≡◌, ◌≢◌, ◌⊎◌, List, [], ◌∷◌, ◌++◌, false, Option, none, some}
use watchbound.Order.{ℕ_ord}
use watchbound.Error.{ErrorCode, Operation, error, WatchboundError}
use watchbound.Result.{err}
use watchbound.Attempt.{Attempt, bound, failed}
use watchbound.Fair.{contains}
use watchbound.Pending.{CompletedDisposal, CompletedEstablishmentTeardown, DisposalAcknowledgement}
use watchbound.State.{
  SubscriptionState, PendingEstablishment, PendingEstablishmentTeardown, PendingExclusionUpdate,
  PendingReconciliation, PendingRootRecovery, Acknowledgement, exclusions, reconciled, recovered,
}
use watchbound.Worker.Budget.{IsCounted}
use watchbound.Teardown.{Torn}
use watchbound.Teardown.Items.{IsEmptied}
use watchbound.Disposal.{Begun}
use watchbound.Disposal.Ending.{policy_items}

-- The answers that the begin of a disposal sends.
abbrev pub update_answers : Option PendingExclusionUpdate → List Acknowledgement
update_answers none = []
update_answers (some u) =
    (record {
      receiver = u.acknowledgement;
      generation = u.generation;
      value = exclusions (err (error ErrorCode.operation_interrupted Operation.replace_exclusions));
    })
    ∷ []

abbrev pub reconciliation_answers : Option PendingReconciliation → List Acknowledgement
reconciliation_answers none = []
reconciliation_answers (some r) =
    (record {
      receiver = r.acknowledgement;
      generation = 0;
      value = reconciled (err (error ErrorCode.operation_interrupted Operation.reconcile));
    })
    ∷ []

abbrev pub recovery_answers : Option PendingRootRecovery → List Acknowledgement
recovery_answers none = []
recovery_answers (some r) =
    (record {
      receiver = r.acknowledgement;
      generation = 0;
      value = recovered (err (error ErrorCode.operation_interrupted Operation.recover_root));
    })
    ∷ []

-- How the attempt of an establishment is decided, and by which error it ends: interrupted, unless
-- the attempt was decided before.
abbrev pub IsEnded : Attempt → Attempt → WatchboundError → Type 0
IsEnded before after terminal =
    ((before.state ≡ bound)
      × (after ≡ record before { state = failed })
      × (terminal ≡ error ErrorCode.operation_interrupted Operation.subscribe))
    ⊎ ((before.state ≢ bound)
        × (after ≡ before)
        × (terminal ≡ error ErrorCode.operation_cancelled Operation.subscribe))

-- The disposal takes over an establishment, or the teardown of one, and keeps who waits for it.
abbrev pub IsTakenOver :
    (ℕ → Attempt)
    → SubscriptionState
    → Option Attempt
    → Option CompletedEstablishmentTeardown
    → Type 0
IsTakenOver attempts s attempt taken =
    ((e : PendingEstablishment) × (s.establishment ≡ some e)
      × (after : Attempt) × (attempt ≡ some after)
      × (terminal : WatchboundError) × IsEnded (attempts e.cancellation) after terminal
      × (taken
          ≡ some (record {
            generation = e.generation;
            acknowledgement = some e.acknowledgement;
            cancellation = e.cancellation;
            terminal_error = some terminal;
          })))
    ⊎ (((t : PendingEstablishmentTeardown) × (s.establishment ≡ none)
          × (s.establishment_teardown ≡ some t)
          × (attempt ≡ none)
          × (taken
              ≡ some (record {
                generation = t.generation;
                acknowledgement = t.acknowledgement;
                cancellation = t.cancellation;
                terminal_error = t.terminal_error;
              })))
        ⊎ ((s.establishment ≡ none)
            × (s.establishment_teardown ≡ none)
            × (attempt ≡ none)
            × (taken ≡ none)))

-- Each pending transaction is answered once and gone, and the subscription gets no more turns but
-- those of its disposal.
pub record IsInterrupted (s : SubscriptionState) (b : Begun) : Type 0 where
  pub no_update : b.state.exclusion_update ≡ none
  pub no_reconciliation : b.state.reconciliation ≡ none
  pub no_recovery : b.state.root_recovery ≡ none
  pub no_establishment : b.state.establishment ≡ none
  pub no_teardown : b.state.establishment_teardown ≡ none
  pub no_barrier : b.state.topology_barriers ≡ 0
  pub answered :
      b.state.acknowledged
      ≡ recovery_answers s.root_recovery
        ++ (reconciliation_answers s.reconciliation
            ++ (update_answers s.exclusion_update ++ s.acknowledged))
  pub no_topology_turn : contains b.hub.topology_runnable s.id ≡ false
  pub no_promotion : contains b.hub.allocator_order s.id ≡ false

-- At the end of the disposal nothing of the subscription is left, and those who wait for it and for
-- what it took over get their answer.
pub record IsGone (attempts : ℕ → Attempt) (s : SubscriptionState)
    (acknowledgement : Option DisposalAcknowledgement) (attempt : Option Attempt) (y : Torn)
    (r : Option CompletedDisposal) : Type 0 where
  pub taken : Option CompletedEstablishmentTeardown
  pub taken_over : IsTakenOver attempts s attempt taken
  pub completed :
      r ≡ some (record { acknowledgement = acknowledgement; interrupted_establishment = taken })
  pub ended : y.1.disposal ≡ none
  pub emptied : IsEmptied 0 y.1
  pub no_policy : policy_items y.1.exclusion_policy ≡ 0
  pub no_identities : y.1.observed_boundary_identities ≡ []
  pub counted : IsCounted y.0
