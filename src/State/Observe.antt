-- ===== src/State/Observe.antt =====
-- The methods of `SubscriptionState` that read it, and those that publish what they read.
use watchbound.Base.{
  is_some, ℕ, ◌+◌, List, [], ◌∷◌, ◌++◌, Bool, false, Option, none, some, if◌then◌else◌, length,
  is_empty, retain, not, ltb, map,
}
use watchbound.Order.{ℕ_ord, list_ord}
use watchbound.BTreeMap
use watchbound.Pending.{ObservedBoundaryIdentity}
use watchbound.FilePath.{FilePath}
use watchbound.Exclusion.{topology_excludes, event_excludes, observes_boundary}
use watchbound.Attempt.{Attempt, cancellation_requested}
use watchbound.Types.{
  Coverage, complete, partial, uncertain, PartialReason, resource_limit, partial_priority,
  RootState, attached, lost,
}
use watchbound.State.{SubscriptionState, DeferredInterest}

-- `max_by_key` over the reasons: of equal keys the last, as Rust does.
unfoldable pub strongest_partial : List PartialReason → Option PartialReason
strongest_partial [] = none
strongest_partial (r ∷ rs) = elim (strongest_partial rs) [
  | none ↦ some r
  | some s ↦ if ltb (partial_priority s) (partial_priority r) then some r else some s
]

unfoldable pub current_partial_reason : SubscriptionState → Option PartialReason
unfolding strongest_partial
current_partial_reason s = strongest_partial (
    map (λ (d : DeferredInterest). d.reason) (BTreeMap.values s.deferred_directories)
    ++ (if is_empty s.pending_promotions then [] else (resource_limit ∷ [])))

unfoldable pub deferred_count : SubscriptionState → ℕ
deferred_count s =
    length s.deferred_directories
    + length (
        retain (λ path. not (BTreeMap.contains_key path s.deferred_directories))
          s.pending_promotions)

unfoldable pub coverage_without_uncertainty : SubscriptionState → Coverage
coverage_without_uncertainty s = elim (current_partial_reason s) [
  | some reason ↦ partial reason (length s.watched_paths) (deferred_count s)
  | none ↦ complete
]

unfoldable pub coverage : SubscriptionState → Coverage
unfolding coverage_without_uncertainty
coverage s = elim s.uncertain_reason [
  | some reason ↦ uncertain reason
  | none ↦ coverage_without_uncertainty s
]

unfoldable pub root_state : SubscriptionState → RootState
root_state s = record {
  generation = s.root_generation;
  identity = s.root_identity;
  attachment = if s.root_lost then lost else attached;
  loss_evidence = s.root_loss_evidence;
}

unfoldable pub publish_root_state : SubscriptionState → SubscriptionState
unfolding root_state
publish_root_state s = record s { published_root_state = root_state s }

unfoldable pub publish_resource_counts : SubscriptionState → SubscriptionState
publish_resource_counts s =
    let stats = s.stats in
    record s {
      stats = record stats {
        watched_directories = length s.watched_paths;
        deferred_directories = deferred_count s;
      };
    }

-- The attempts are shared with the threads that cancel them.
unfoldable pub establishment_cancel_requested : (ℕ → Attempt) → SubscriptionState → Bool
establishment_cancel_requested attempts s = elim s.establishment [
  | none ↦ false
  | some e ↦ cancellation_requested (attempts e.cancellation)
]

unfoldable pub disposal_in_progress : SubscriptionState → Bool
disposal_in_progress s = is_some s.disposal

unfoldable pub is_excluded : SubscriptionState → FilePath → Bool
is_excluded s path = topology_excludes s.exclusion_policy s.root path

unfoldable pub event_is_excluded : SubscriptionState → FilePath → Bool → Bool
event_is_excluded s path target_is_directory =
    event_excludes s.exclusion_policy s.root path target_is_directory

unfoldable pub observes_excluded_boundary : SubscriptionState → FilePath → Bool
observes_excluded_boundary s path = observes_boundary s.exclusion_policy path

-- What the code asks of the host: a boundary's identity (`capture_observed_boundary_identity`
-- with `.ok().flatten()`), and the clock.
pub record Host : Type 0 where
  pub observed_identity : FilePath → Option ObservedBoundaryIdentity
  pub now : ℕ

abbrev pub root_identity_check_interval : ℕ
root_identity_check_interval = 250

unfoldable pub reset_observed_boundary_identities : Host → SubscriptionState → SubscriptionState
reset_observed_boundary_identities host s = record s {
  observed_boundary_identities =
      map (λ path. (path, host.observed_identity path)) s.exclusion_policy.observed_paths;
  observed_identity_cursor = none;
  next_observed_identity_check = some (host.now + root_identity_check_interval);
}
