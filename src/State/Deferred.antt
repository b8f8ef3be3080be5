-- ===== src/State/Deferred.antt =====
-- Directories that are not watched: `defer`, `defer_error`, `remove_deferred_subtree`, and the
-- topology jobs that traverse directories.
use watchbound.Base.{
  [], ◌∷◌, ◌++◌, Bool, true, false, not, Option, none, some, if◌then◌else◌, ltb, retain,
}
use watchbound.Order.{ℕ_ord, list_ord}
use watchbound.BTreeMap
use watchbound.Error.{IoError}
use watchbound.FilePath.{FilePath, starts_with}
use watchbound.Types.{PartialReason, partial_priority, partial_reason_for_error}
use watchbound.Types as Types
use watchbound.State.{
  SubscriptionState, DeferredInterest, DeferredCause, TopologyJob, ActiveDirectory,
}

-- `and_modify … or_insert` on one entry.
unfoldable pub stronger_interest :
    Option DeferredInterest → PartialReason → DeferredCause → DeferredInterest
stronger_interest none reason cause = record { reason = reason; cause = cause }
stronger_interest (some current) reason cause =
    if ltb (partial_priority current.reason) (partial_priority reason)
    then record { reason = reason; cause = cause }
    else current

unfoldable pub defer :
    SubscriptionState → FilePath → PartialReason → DeferredCause → SubscriptionState
defer s path reason cause = record s {
  deferred_order =
      if BTreeMap.contains_key path s.deferred_directories
      then s.deferred_order
      else s.deferred_order ++ (path ∷ []);
  deferred_directories =
      BTreeMap.insert path
        (stronger_interest (BTreeMap.lookup path s.deferred_directories) reason cause)
        s.deferred_directories;
}

unfoldable pub cause_of : PartialReason → DeferredCause
cause_of Types.permission = DeferredCause.permission
cause_of Types.resource_limit = DeferredCause.native_resource
cause_of Types.transient_error = DeferredCause.transient_error

unfoldable pub defer_error : SubscriptionState → FilePath → IoError → SubscriptionState
defer_error s path e =
    let reason = partial_reason_for_error e in defer s path reason (cause_of reason)

unfoldable pub remove_deferred_subtree : SubscriptionState → FilePath → SubscriptionState
remove_deferred_subtree s path = record s {
  deferred_directories =
      retain (λ (entry : FilePath × DeferredInterest). not (starts_with entry.0 path))
        s.deferred_directories;
  deferred_order = retain (λ candidate. not (starts_with candidate path)) s.deferred_order;
}

unfoldable pub new_job : FilePath → Bool → TopologyJob
new_job start establishment = record {
  directories = start ∷ [];
  active = none;
  establishment = establishment;
  promotion_root = none;
  yield_after_promoted_watch = false;
  require_watch_before_read = not establishment;
  reconciliation = false;
}

unfoldable pub inclusion_job : FilePath → TopologyJob
inclusion_job start = record {
  directories = start ∷ [];
  active = none;
  establishment = false;
  promotion_root = none;
  yield_after_promoted_watch = false;
  require_watch_before_read = true;
  reconciliation = false;
}

unfoldable pub promotion_job : FilePath → ActiveDirectory → TopologyJob
promotion_job path active = record {
  directories = [];
  active = some active;
  establishment = false;
  promotion_root = some path;
  yield_after_promoted_watch = true;
  require_watch_before_read = true;
  reconciliation = false;
}

unfoldable pub reconciliation_job : FilePath → TopologyJob
reconciliation_job start = record {
  directories = start ∷ [];
  active = none;
  establishment = false;
  promotion_root = none;
  yield_after_promoted_watch = false;
  require_watch_before_read = true;
  reconciliation = true;
}

unfoldable pub root_recovery_job : ActiveDirectory → TopologyJob
root_recovery_job active = record {
  directories = [];
  active = some active;
  establishment = false;
  promotion_root = none;
  yield_after_promoted_watch = true;
  require_watch_before_read = true;
  reconciliation = false;
}
