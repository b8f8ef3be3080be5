-- ===== src/Pending.antt =====
-- The disposal of a subscription and what it carries (engine/src/backend/linux.rs): the containers
-- that are emptied item by item, and the establishment that it interrupted.
use watchbound.Base.{ℕ, List, Option}
use watchbound.Error.{WatchboundError}
use watchbound.FilePath.{FilePath}
use watchbound.Exclusion.{ValidatedExclusionPolicy}
use watchbound.Types.{Coverage, RootState}

pub record ObservedBoundaryIdentity : Type 0 where
  pub device : ℕ
  pub inode : ℕ
  pub mode : ℕ

pub record Established : Type 0 where
  pub id : ℕ
  pub coverage : Coverage
  pub initial_root_state : RootState

pub record CompletedEstablishmentTeardown : Type 0 where
  pub generation : ℕ
  pub acknowledgement : Option ℕ
  pub cancellation : ℕ
  pub terminal_error : Option WatchboundError

pub record DisposalAcknowledgement : Type 0 where
  pub generation : ℕ
  pub sender : ℕ

pub data DisposalPhase : Type 0 where
  pending_paths watched_interests deferred_map deferred_order promotions : DisposalPhase
  topology_jobs exclusion_policy observed_identities cleanup_path_sets : DisposalPhase
  cleanup_path_queues cleanup_path_vectors complete : DisposalPhase

pub record PendingDisposal : Type 0 where
  pub acknowledgement : Option DisposalAcknowledgement
  pub interrupted_establishment : Option CompletedEstablishmentTeardown
  pub cleanup_path_sets : List (List FilePath)
  pub cleanup_path_queues : List (List FilePath)
  pub cleanup_path_vectors : List (List FilePath)
  pub cleanup_policies : List ValidatedExclusionPolicy
  pub cleanup_identity_maps : List (List (FilePath × Option ObservedBoundaryIdentity))
  pub phase : DisposalPhase

pub record CompletedDisposal : Type 0 where
  pub acknowledgement : Option DisposalAcknowledgement
  pub interrupted_establishment : Option CompletedEstablishmentTeardown
