-- ===== src/Recovery/Attached.antt =====
-- What a root recovery that is committed leaves, sends and answers.
use watchbound.Base.{min, ℕ, ◌+◌, ◌≡◌, ◌⊎◌, List, [], ◌∷◌, false, Option, none, some, ◌≢◌, arith}
use watchbound.State.Queue.{u64_max}
use watchbound.Worker.{same_identity}
use watchbound.Result.{ok}
use watchbound.Types.{
  uncertain, UncertainReason, RootRecoveryResult, ChangeBatch, RootRecoveryAttachment,
  original_restored, replacement_adopted, root_replaced, attached,
}
use watchbound.State.{SubscriptionState, PendingRootRecovery, Acknowledgement, recovered}
use watchbound.State.Observe.{coverage}
use watchbound.State.Truth.{Accounts}
use watchbound.State.Delivery.{extended}
use watchbound.Recovery.{attachment_of, remaining_uncertainty}

abbrev pub answered :
    SubscriptionState → PendingRootRecovery → RootRecoveryResult → List Acknowledgement
answered s r result =
    (record { receiver = r.acknowledgement; generation = 0; value = recovered (ok result) })
    ∷ s.acknowledged

-- The original is restored if the candidate is the root from before.
abbrev pub IsNamed : PendingRootRecovery → RootRecoveryAttachment → Type 0
IsNamed r attachment =
    ((r.candidate_identity ≡ r.previous_root_state.identity) × (attachment ≡ original_restored))
    ⊎ ((r.candidate_identity ≢ r.previous_root_state.identity) × (attachment ≡ replacement_adopted))

-- The uncertainty stays, unless the root loss explains it: then a later reason takes its place, and
-- without one it is gone if nothing was marked since the recovery started.
abbrev pub IsLeft : SubscriptionState → PendingRootRecovery → Option UncertainReason → Type 0
IsLeft s r left =
    ((r.starting_uncertainty ≢ some root_replaced) × (left ≡ s.uncertain_reason))
    ⊎ ((r.starting_uncertainty ≡ some root_replaced)
        × (((later : UncertainReason) × (r.later_uncertainty ≡ some later) × (left ≡ some later))
            ⊎ ((r.later_uncertainty ≡ none)
                × (((s.uncertainty_epoch ≡ r.starting_uncertainty_epoch) × (left ≡ none))
                    ⊎ ((s.uncertainty_epoch ≢ r.starting_uncertainty_epoch)
                        × (left ≡ s.uncertain_reason))))))

-- What the caller is told.
pub record IsAnswer (s : SubscriptionState) (r : PendingRootRecovery) (t : SubscriptionState)
    (number : Option ℕ) (result : RootRecoveryResult) : Type 0 where
  pub attachment : IsNamed r result.attachment
  pub no_failure : result.reason ≡ none
  pub previous : result.previous_root_state ≡ r.previous_root_state
  pub candidate : result.candidate_identity ≡ some r.candidate_identity
  pub current : result.current_root_state ≡ t.published_root_state
  pub policy : result.exclusion_generation ≡ s.exclusion_generation
  pub reported : result.coverage ≡ coverage t
  pub boundary : result.boundary_sequence ≡ number

-- The candidate is the root, under the next generation, and has lost its evidence of loss.
pub record IsAttached (s : SubscriptionState) (r : PendingRootRecovery) (t : SubscriptionState)
    : Type 0 where
  pub identity : t.root_identity ≡ r.candidate_identity
  pub generation : t.root_generation ≡ min (s.root_generation + 1) u64_max
  pub present : t.root_lost ≡ false
  pub unmarked : t.root_loss_evidence ≡ none
  pub published : t.published_root_state ≡ record {
    generation = min (s.root_generation + 1) u64_max;
    identity = r.candidate_identity;
    attachment = attached;
    loss_evidence = none;
  }
  pub over : t.root_recovery ≡ none

-- The boundary is sent: the answer names it, and agrees with it and the state on the coverage.
pub record IsBounded (s : SubscriptionState) (r : PendingRootRecovery) (t : SubscriptionState)
    : Type 0 where
  pub batch : ChangeBatch
  pub queued : t.output ≡ extended s.output batch
  pub numbered : batch.sequence ≡ s.next_sequence
  pub next_number : t.next_sequence ≡ min (s.next_sequence + 1) u64_max
  pub whole_root : batch.invalidated_paths ≡ s.root ∷ []
  pub new_root : batch.root_state ≡ t.published_root_state
  pub policy : batch.exclusion_generation ≡ s.exclusion_generation
  pub same_coverage : batch.coverage ≡ coverage t
  pub result : RootRecoveryResult
  pub replied : t.acknowledged ≡ answered s r result
  pub answer : IsAnswer s r t (some s.next_sequence) result
  pub left : IsLeft s r t.uncertain_reason
  pub emptied : t.pending_paths ≡ []

-- The boundary is not sent: the answer names none, and the root is pending.
pub record IsUnbounded (s : SubscriptionState) (r : PendingRootRecovery) (t : SubscriptionState)
    : Type 0 where
  pub unsent : t.output ≡ s.output
  pub same_number : t.next_sequence ≡ s.next_sequence
  pub pending : Accounts t s.root
  pub result : RootRecoveryResult
  pub replied : t.acknowledged ≡ answered s r result
  pub answer : IsAnswer s r t none result
  pub reason : UncertainReason
  pub reported : coverage t ≡ uncertain reason

pub attachment_of-IsNamed : (r : PendingRootRecovery) → IsNamed r (attachment_of r)
unfolding attachment_of same_identity
attachment_of-IsNamed r = ground arith

pub remaining_uncertainty-IsLeft :
    (s : SubscriptionState) (r : PendingRootRecovery) → IsLeft s r (remaining_uncertainty s r)
unfolding remaining_uncertainty
remaining_uncertainty-IsLeft s r = ground arith
