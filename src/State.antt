-- ===== src/State.antt =====
-- `SubscriptionState` and the transactions that it carries (engine/src/backend/linux.rs). The
-- methods are in the child modules. Sets and maps hold their keys in increasing order; times are
-- milliseconds; a shared or foreign object (an attempt, an acknowledgement's receiver, an open
-- directory) is the number that names it.
pub mod Observe
pub mod Queue
pub mod Deferred
pub mod RootLoss
pub mod Truth
pub mod Delivery
pub mod Sending
pub mod Stream
pub mod Deferral
use watchbound.Base.{ℕ, List, Bool, Option}
use watchbound.Error.{WatchboundError}
use watchbound.Result.{Result}
use watchbound.FilePath.{FilePath}
use watchbound.Exclusion.{ValidatedExclusionPolicy}
use watchbound.Pending.{ObservedBoundaryIdentity, PendingDisposal, Established}
use watchbound.Types.{
  Coverage, RootIdentity, RootState, RootLossEvidence, ChangeBatch, SubscriptionOptions,
  SharedStats, UncertainReason, PartialReason, RootRecoveryFailureReason, RootRecoveryResult,
  ReconciliationResult,
}

pub data DeferredCause : Type 0 where
  subscription_limit runtime_budget native_resource permission transient_error : DeferredCause

pub record DeferredInterest : Type 0 where
  pub reason : PartialReason
  pub cause : DeferredCause

-- The receiving end lives in the consumer, which may have dropped it.
pub record Output : Type 0 where
  pub queued : List ChangeBatch
  pub capacity : ℕ
  pub connected : Bool

pub data ExclusionRemovalStage : Type 0 where
  watched deferred promotions complete : ExclusionRemovalStage

pub data ExclusionUpdatePhase : Type 0 where
  waiting_for_topology removing_excluded scanning_included : ExclusionUpdatePhase

pub record PendingExclusionUpdate : Type 0 where
  pub generation : ℕ
  pub policy : ValidatedExclusionPolicy
  pub previous_policy : ValidatedExclusionPolicy
  pub newly_included : List FilePath
  pub commit_invalidations : List FilePath
  pub removal_stage : ExclusionRemovalStage
  pub removal_cursor : Option FilePath
  pub acknowledgement : ℕ
  pub phase : ExclusionUpdatePhase

pub data ReconciliationPhase : Type 0 where
  waiting_for_topology scanning sweeping_watched sweeping_deferred : ReconciliationPhase
  sweeping_deferred_order sweeping_promotions : ReconciliationPhase

pub record PendingReconciliation : Type 0 where
  pub acknowledgement : ℕ
  pub phase : ReconciliationPhase
  pub encountered : List FilePath
  pub sweep_after : Option FilePath
  pub rebuilt_deferred_order : List FilePath
  pub starting_uncertainty : Option UncertainReason
  pub starting_uncertainty_epoch : ℕ

pub data RootRecoveryPhase : Type 0 where
  removing_old scanning : RootRecoveryPhase
  cleaning_failure : RootRecoveryFailureReason → RootRecoveryPhase

pub record PendingRootRecovery : Type 0 where
  pub acknowledgement : ℕ
  pub phase : RootRecoveryPhase
  pub previous_root_state : RootState
  pub candidate_identity : RootIdentity
  pub starting_uncertainty : Option UncertainReason
  pub starting_uncertainty_epoch : ℕ
  pub later_uncertainty : Option UncertainReason
  pub candidate_unstable : Bool

pub record PendingEstablishment : Type 0 where
  pub generation : ℕ
  pub acknowledgement : ℕ
  pub cancellation : ℕ

pub data EstablishmentTeardownPhase : Type 0 where
  pending_paths watched_interests deferred_map deferred_order : EstablishmentTeardownPhase
  promotions topology_jobs complete : EstablishmentTeardownPhase

pub record PendingEstablishmentTeardown : Type 0 where
  pub generation : ℕ
  pub acknowledgement : Option ℕ
  pub cancellation : ℕ
  pub terminal_error : Option WatchboundError
  pub phase : EstablishmentTeardownPhase

pub record ActiveDirectory : Type 0 where
  pub path : FilePath
  pub entries : ℕ
  pub deferred_at_limit : Bool

pub record TopologyJob : Type 0 where
  pub directories : List FilePath
  pub active : Option ActiveDirectory
  pub establishment : Bool
  pub promotion_root : Option FilePath
  pub yield_after_promoted_watch : Bool
  pub require_watch_before_read : Bool
  pub reconciliation : Bool

-- What an acknowledgement carries back to the thread that waits for it.
pub data Reply : Type 0 where
  exclusions : Result Coverage → Reply
  reconciled : Result ReconciliationResult → Reply
  recovered : Result RootRecoveryResult → Reply
  established : Result Established → Reply
  disposed : Reply

pub record Acknowledgement : Type 0 where
  pub receiver : ℕ
  pub generation : ℕ
  pub value : Reply

-- `acknowledged` lists what has been sent to waiting threads, the latest first.
pub record SubscriptionState : Type 0 where
  pub id : ℕ
  pub root : FilePath
  pub root_identity : RootIdentity
  pub root_generation : ℕ
  pub root_lost : Bool
  pub root_loss_evidence : Option RootLossEvidence
  pub published_root_state : RootState
  pub options : SubscriptionOptions
  pub stats : SharedStats
  pub output : Output
  pub watched_paths : List (FilePath × ℕ)
  pub deferred_directories : List (FilePath × DeferredInterest)
  pub deferred_order : List FilePath
  pub pending_promotions : List FilePath
  pub uncertain_reason : Option UncertainReason
  pub pending_paths : List FilePath
  pub pending_started : Option ℕ
  pub pending_generation : Option ℕ
  pub next_sequence : ℕ
  pub exclusion_generation : ℕ
  pub selection_generation : ℕ
  pub exclusion_policy : ValidatedExclusionPolicy
  pub observed_boundary_identities : List (FilePath × Option ObservedBoundaryIdentity)
  pub observed_identity_cursor : Option FilePath
  pub next_root_identity_check : Option ℕ
  pub next_observed_identity_check : Option ℕ
  pub exclusion_update : Option PendingExclusionUpdate
  pub reconciliation : Option PendingReconciliation
  pub root_recovery : Option PendingRootRecovery
  pub topology_jobs : List TopologyJob
  pub topology_barriers : ℕ
  pub establishment : Option PendingEstablishment
  pub establishment_teardown : Option PendingEstablishmentTeardown
  pub disposal : Option PendingDisposal
  pub published_deferred_directories : ℕ
  pub uncertainty_epoch : ℕ
  pub acknowledged : List Acknowledgement
