-- ===== src/Types.antt =====
-- The public values of engine/src/lib.rs: coverage, root state, batches, options and counters.
pub mod Options
use watchbound.Base.{
  ℕ, ◌-◌, ◌^◌, List, [], Bool, true, false, Option, none, some, if◌then◌else◌, ◌==◌, ◌||◌, leb,
}
use watchbound.Error.{WatchboundError, error, ErrorCode, Operation, IoError, permission_denied}
use watchbound.Result.{Result, ok, err}
use watchbound.FilePath.{FilePath, Name, Spelling}

pub data PartialReason : Type 0 where
  resource_limit permission transient_error : PartialReason

pub data UncertainReason : Type 0 where
  event_overflow root_replaced topology_race consumer_backpressure : UncertainReason

pub data Coverage : Type 0 where
  complete : Coverage
  partial : (reason : PartialReason) (watched_directories deferred_directories : ℕ) → Coverage
  uncertain : (reason : UncertainReason) → Coverage

pub record RootIdentity : Type 0 where
  pub device : ℕ
  pub inode : ℕ

pub data RootPathPolicy : Type 0 where
  strict resolve_physical : RootPathPolicy

pub data RootAttachment : Type 0 where
  attached lost : RootAttachment

pub data RootLossEvidence : Type 0 where
  root_self_event root_watch_loss path_identity_mismatch multiple : RootLossEvidence

pub record RootState : Type 0 where
  pub generation : ℕ
  pub identity : RootIdentity
  pub attachment : RootAttachment
  pub loss_evidence : Option RootLossEvidence

pub data RootIdentityPolicy : Type 0 where
  original_only accept_replacement : RootIdentityPolicy

pub data RootRecoveryAttachment : Type 0 where
  original_restored replacement_adopted not_attached : RootRecoveryAttachment

pub data RootRecoveryFailureReason : Type 0 where
  replacement_not_accepted candidate_missing candidate_not_directory : RootRecoveryFailureReason
  symlink_ancestry identity_unstable root_watch_unavailable : RootRecoveryFailureReason

pub record RootRecoveryResult : Type 0 where
  pub attachment : RootRecoveryAttachment
  pub reason : Option RootRecoveryFailureReason
  pub previous_root_state : RootState
  pub candidate_identity : Option RootIdentity
  pub current_root_state : RootState
  pub exclusion_generation : ℕ
  pub coverage : Coverage
  pub boundary_sequence : Option ℕ

pub record ReconciliationResult : Type 0 where
  pub exclusion_generation : ℕ
  pub coverage : Coverage

pub record ChangeBatch : Type 0 where
  pub sequence : ℕ
  pub exclusion_generation : ℕ
  pub root_state : RootState
  pub invalidated_paths : List FilePath
  pub coverage : Coverage

-- `batch_window` is in milliseconds.
pub record SubscriptionOptions : Type 0 where
  pub root_path_policy : RootPathPolicy
  pub initial_exclusions : List Spelling
  pub excluded_directory_names : List Name
  pub observed_excluded_paths : List Spelling
  pub watch_limit : Option ℕ
  pub batch_window : ℕ
  pub max_batch_paths : ℕ
  pub output_queue_capacity : ℕ

unfoldable pub default_options : SubscriptionOptions
default_options = record {
  root_path_policy = strict;
  initial_exclusions = [];
  excluded_directory_names = [];
  observed_excluded_paths = [];
  watch_limit = none;
  batch_window = 10;
  max_batch_paths = 1024;
  output_queue_capacity = 64;
}

abbrev pub is_zero_limit : Option ℕ → Bool
is_zero_limit none = false
is_zero_limit (some n) = n == 0

unfoldable pub validate : SubscriptionOptions → Result (Unit {0})
validate o =
    if is_zero_limit o.watch_limit
    then err (error ErrorCode.invalid_argument Operation.subscribe)
    else if o.batch_window == 0
    then err (error ErrorCode.invalid_argument Operation.subscribe)
    else if o.max_batch_paths == 0
    then err (error ErrorCode.invalid_argument Operation.subscribe)
    else if o.output_queue_capacity == 0
    then err (error ErrorCode.invalid_argument Operation.subscribe)
    else ok tt

-- `SharedStats`, the counters of one subscription.
pub record SharedStats : Type 0 where
  pub watched_directories : ℕ
  pub deferred_directories : ℕ
  pub raw_events : ℕ
  pub overflow_events : ℕ
  pub topology_scans : ℕ
  pub batches_delivered : ℕ
  pub batches_dropped : ℕ
  pub disposed : Bool

unfoldable pub partial_priority : PartialReason → ℕ
partial_priority transient_error = 1
partial_priority resource_limit = 2
partial_priority permission = 3

unfoldable pub uncertainty_priority : UncertainReason → ℕ
uncertainty_priority consumer_backpressure = 1
uncertainty_priority topology_race = 2
uncertainty_priority root_replaced = 3
uncertainty_priority event_overflow = 4

unfoldable pub strongest_uncertainty : Option UncertainReason → UncertainReason → UncertainReason
unfolding uncertainty_priority
strongest_uncertainty none candidate = candidate
strongest_uncertainty (some current) candidate =
    if leb (uncertainty_priority candidate) (uncertainty_priority current)
    then current
    else candidate

unfoldable pub recoverable_uncertainty : UncertainReason → Bool
recoverable_uncertainty event_overflow = true
recoverable_uncertainty topology_race = true
recoverable_uncertainty consumer_backpressure = true
recoverable_uncertainty root_replaced = false

-- Linux error numbers: ENOMEM, ENFILE, EMFILE, ENOSPC.
abbrev is_exhaustion : Option ℕ → Bool
is_exhaustion none = false
is_exhaustion (some code) = code == 28 || code == 24 || code == 23 || code == 12

unfoldable pub partial_reason_for_error : IoError → PartialReason
partial_reason_for_error e = elim e.kind [
  | permission_denied ↦ permission
  | _ ↦ if is_exhaustion e.raw_os_error then resource_limit else transient_error
]
