-- ===== src/Recovery.antt =====
-- Root recovery (engine/src/backend/linux.rs): `progress_root_recovery` and what it calls. The old
-- directories are drained, at most 64 a turn, before the root is opened again. `candidate` is what
-- `capture_root_candidate` answers, as far as it is an identity.
pub mod Attached
pub mod Progress
pub mod Draining
pub mod Boundary
use watchbound.Base.{
  min, ℕ, ◌+◌, List, [], ◌∷◌, ◌++◌, Bool, true, false, not, ◌&&◌, ◌||◌, Option, none, some,
  if◌then◌else◌, is_empty, is_some, ◌==◌,
}
use watchbound.State.Queue.{
  u64_max, SendResult, sent, full, disconnected, try_send, mark_uncertain, taken,
}
use watchbound.Order.{ℕ_ord, list_ord}
use watchbound.BTreeSet
use watchbound.BTreeMap
use watchbound.Result.{ok}
use watchbound.FilePath.{FilePath}
use watchbound.Types.{
  RootIdentity, RootState, SharedStats, UncertainReason, root_replaced, consumer_backpressure,
  RootRecoveryResult, RootRecoveryFailureReason, identity_unstable, root_watch_unavailable,
  not_attached, original_restored, replacement_adopted, RootRecoveryAttachment, Coverage,
  ChangeBatch,
}
use watchbound.State.{
  SubscriptionState, PendingRootRecovery, RootRecoveryPhase, removing_old, scanning,
  cleaning_failure, recovered, Acknowledgement, Output,
}
use watchbound.State.Observe.{
  Host, coverage, root_state, is_excluded, publish_resource_counts, publish_root_state,
  reset_observed_boundary_identities, root_identity_check_interval,
}
use watchbound.State.Deferred.{remove_deferred_subtree, root_recovery_job}
use watchbound.Worker.{Worker, same_identity}
use watchbound.Worker.Removal.{remove_interest}
use watchbound.Worker.Hub.{Hub, publish_deferred_interest_count_with}
use watchbound.Quantum.{Step, item, moved, finished, Turn, yielded, exhausted, done, quantum}
use watchbound.Teardown.{Torn}
use watchbound.Update.{max_topology_directories_per_turn, state_of}
use watchbound.Topology.{Answers, OpenedDirectory, Opening, open_topology_directory}

-- Items and the end of one turn.
abbrev pub drain_fuel : ℕ
drain_fuel = 65

-- One directory, from the first container that has any.
unfoldable pub drain_step : Torn → Step Torn (Unit {0})
drain_step (w, s) = elim s.watched_paths [
  | (path, descriptor) ∷ rest ↦
      item (remove_interest w s.id path descriptor, record s { watched_paths = rest })
  | [] ↦ elim s.deferred_directories [
    | entry ∷ rest ↦ item (w, record s { deferred_directories = rest })
    | [] ↦ elim s.deferred_order [
      | path ∷ rest ↦ item (w, record s { deferred_order = rest })
      | [] ↦ elim s.pending_promotions [
        | path ∷ rest ↦ item (w, record s { pending_promotions = rest })
        | [] ↦ elim s.topology_jobs [
          | job ∷ rest ↦ item (w, record s { topology_jobs = rest })
          | [] ↦ finished (w, s) tt
        ]
      ]
    ]
  ]
]

abbrev pub is_drained : SubscriptionState → Bool
is_drained s =
    is_empty s.watched_paths
    && (is_empty s.deferred_directories
        && (is_empty s.deferred_order
            && (is_empty s.pending_promotions && is_empty s.topology_jobs)))

unfoldable pub drain_root_recovery_state : Worker → SubscriptionState → Torn × Bool
drain_root_recovery_state w s =
    let (v, t) =
      state_of (quantum drain_step drain_fuel max_topology_directories_per_turn (w, s)) in
    ((v, t), is_drained t)

unfoldable pub not_attached_result :
    SubscriptionState
    → RootState
    → Option RootIdentity
    → RootRecoveryFailureReason
    → RootRecoveryResult
not_attached_result s previous candidate reason = record {
  attachment = not_attached;
  reason = some reason;
  previous_root_state = previous;
  candidate_identity = candidate;
  current_root_state = root_state s;
  exclusion_generation = s.exclusion_generation;
  coverage = coverage s;
  boundary_sequence = none;
}

abbrev pub reply : SubscriptionState → PendingRootRecovery → RootRecoveryResult → SubscriptionState
reply s r result = record s {
  acknowledged =
      (record { receiver = r.acknowledgement; generation = 0; value = recovered (ok result) })
      ∷ s.acknowledged;
}

unfoldable pub finish_root_recovery_failure :
    Hub → SubscriptionState → RootRecoveryFailureReason → Hub × SubscriptionState
finish_root_recovery_failure h s reason = elim s.root_recovery [
  | none ↦ (h, s)
  | some r ↦
      let (hub, t) =
        publish_deferred_interest_count_with h
          (publish_resource_counts (record s { root_recovery = none; topology_barriers = 0 })) in
      (
        hub,
        reply t r (not_attached_result t r.previous_root_state (some r.candidate_identity) reason),
      )
]

abbrev is_root_replaced : Option UncertainReason → Bool
is_root_replaced (some root_replaced) = true
is_root_replaced _ = false

-- What is left of the uncertainty once the traversal is committed.
unfoldable pub remaining_uncertainty :
    SubscriptionState → PendingRootRecovery → Option UncertainReason
remaining_uncertainty s r =
    if is_root_replaced r.starting_uncertainty
    then (elim r.later_uncertainty [
      | some reason ↦ some reason
      | none ↦
          if s.uncertainty_epoch == r.starting_uncertainty_epoch then none else s.uncertain_reason
    ])
    else s.uncertain_reason

-- The candidate becomes the root.
unfoldable pub attach_root : Host → SubscriptionState → PendingRootRecovery → SubscriptionState
attach_root host s r =
    let attached = reset_observed_boundary_identities host (record s {
      root_recovery = none;
      topology_barriers = 0;
      root_identity = r.candidate_identity;
      root_generation = min (s.root_generation + 1) u64_max;
      root_lost = false;
      root_loss_evidence = none;
      next_root_identity_check = some (host.now + root_identity_check_interval);
    }) in
    publish_root_state (
      publish_resource_counts
        (taken (record attached { uncertain_reason = remaining_uncertainty s r })))

unfoldable pub recovery_boundary : SubscriptionState → ChangeBatch
recovery_boundary s = record {
  sequence = s.next_sequence;
  exclusion_generation = s.exclusion_generation;
  root_state = root_state s;
  invalidated_paths = s.root ∷ [];
  coverage = coverage s;
}

unfoldable pub attachment_of : PendingRootRecovery → RootRecoveryAttachment
attachment_of r =
    if same_identity r.candidate_identity r.previous_root_state.identity
    then original_restored
    else replacement_adopted

unfoldable pub attached_result :
    SubscriptionState → PendingRootRecovery → Coverage → Option ℕ → RootRecoveryResult
attached_result s r coverage boundary_sequence = record {
  attachment = attachment_of r;
  reason = none;
  previous_root_state = r.previous_root_state;
  candidate_identity = some r.candidate_identity;
  current_root_state = root_state s;
  exclusion_generation = s.exclusion_generation;
  coverage = coverage;
  boundary_sequence = boundary_sequence;
}

unfoldable pub recovery_dropped : ℕ → SubscriptionState → PendingRootRecovery → SubscriptionState
recovery_dropped now s r =
    let stats = s.stats in
    let t =
      mark_uncertain now
        (record s { stats = record stats { batches_dropped = stats.batches_dropped + 1 } })
        consumer_backpressure s.root in
    reply t r (attached_result t r (coverage t) none)

-- The `match` on what `try_send` returned.
unfoldable pub after_recovery_boundary :
    ℕ → SubscriptionState → PendingRootRecovery → Output × SendResult → SubscriptionState
after_recovery_boundary now s r (output, sent) =
    let stats = s.stats in
    let t : SubscriptionState = record s {
      output = output;
      next_sequence = min (s.next_sequence + 1) u64_max;
      stats = record stats { batches_delivered = stats.batches_delivered + 1 };
    } in
    reply t r (attached_result t r (coverage s) (some s.next_sequence))
after_recovery_boundary now s r (output, full) =
    recovery_dropped now (record s { output = output }) r
after_recovery_boundary now s r (output, disconnected) =
    recovery_dropped now (record s { output = output }) r

unfoldable pub commit_recovery :
    Host → Hub → SubscriptionState → Option PendingRootRecovery → Hub × SubscriptionState
commit_recovery host h s none = (h, s)
commit_recovery host h s (some r) =
    let (hub, t) = publish_deferred_interest_count_with h (attach_root host s r) in
    (hub, after_recovery_boundary host.now t r (try_send t.output (recovery_boundary t)))

-- `let Some(recovery) = state.root_recovery.take() else { return }`.
unfoldable pub commit_root_recovery : Host → Hub → SubscriptionState → Hub × SubscriptionState
commit_root_recovery host h s = commit_recovery host h s s.root_recovery
