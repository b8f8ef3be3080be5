-- ===== src/Update.antt =====
-- The exclusion update (engine/src/backend/linux.rs): `progress_exclusion_update`. The removal, at
-- most 64 paths a turn, visits the watched, the deferred and the promoted directories in order.
-- `captured` is what `RootIdentity::capture` answers, as far as it is an identity.
pub mod Pruned
pub mod Steps
pub mod Removal
pub mod Commit
use watchbound.Base.{
  ℕ, zero, suc, ◌+◌, ◌-◌, List, [], ◌∷◌, ◌++◌, Bool, true, false, not, ◌&&◌, Option, none, some,
  if◌then◌else◌, is_empty, is_some, ◌==◌, map,
}
use watchbound.Order.{ℕ_ord, list_ord}
use watchbound.BTreeSet
use watchbound.BTreeMap
use watchbound.Result.{ok}
use watchbound.FilePath.{FilePath}
use watchbound.Types.{RootIdentity, path_identity_mismatch, consumer_backpressure, SharedStats}
use watchbound.State.{
  SubscriptionState, PendingExclusionUpdate, ExclusionRemovalStage, watched, deferred, promotions,
  complete, ExclusionUpdatePhase, waiting_for_topology, removing_excluded, scanning_included,
  exclusions, Acknowledgement,
}
use watchbound.State.Observe.{
  Host, coverage, is_excluded, publish_resource_counts, reset_observed_boundary_identities,
}
use watchbound.State.Queue.{flush, mark_uncertain, queue_path, taken}
use watchbound.State.Deferred.{inclusion_job}
use watchbound.State.RootLoss.{mark_root_lost}
use watchbound.Worker.{Worker, same_identity}
use watchbound.Worker.Removal.{remove_interest}
use watchbound.Worker.Hub.{Hub, publish_deferred_interest_count_with}
use watchbound.Quantum.{Step, item, moved, finished, Turn, yielded, exhausted, done, quantum}
use watchbound.Sweep.{next_set_path, next_map_path}
use watchbound.Teardown.{Torn}

abbrev pub max_topology_directories_per_turn : ℕ
max_topology_directories_per_turn = 64

-- Paths and moves of one turn.
abbrev pub removal_fuel : ℕ
removal_fuel = 68

abbrev pub is_waiting : ExclusionUpdatePhase → Bool
is_waiting waiting_for_topology = true
is_waiting _ = false

abbrev pub is_removing : ExclusionUpdatePhase → Bool
is_removing removing_excluded = true
is_removing _ = false

abbrev pub is_scanning : ExclusionUpdatePhase → Bool
is_scanning scanning_included = true
is_scanning _ = false

abbrev pub is_complete : ExclusionRemovalStage → Bool
is_complete complete = true
is_complete _ = false

unfoldable pub root_stable : Option RootIdentity → SubscriptionState → Bool
root_stable none s = false
root_stable (some identity) s = same_identity identity s.root_identity

-- The policy is adopted for selection, not yet committed.
unfoldable pub adopt_policy : Host → SubscriptionState → PendingExclusionUpdate → SubscriptionState
adopt_policy host s u =
    let adopted = reset_observed_boundary_identities host (record s {
      exclusion_update = some (record u { phase = removing_excluded });
      exclusion_policy = u.policy;
    }) in
    record adopted { selection_generation = u.generation; topology_barriers = 1 }

unfoldable pub start_update : Host → SubscriptionState → PendingExclusionUpdate → SubscriptionState
start_update host s u =
    let flushed = flush host.now s in
    if is_empty flushed.pending_paths
    then adopt_policy host flushed u
    else (let adopted = adopt_policy host (taken flushed) u in
        mark_uncertain host.now adopted consumer_backpressure adopted.root)

abbrev pub set_update : SubscriptionState → PendingExclusionUpdate → SubscriptionState
set_update s u = record s { exclusion_update = some u }

unfoldable pub forget_watched : Worker → SubscriptionState → FilePath → Torn
forget_watched w s path = elim (BTreeMap.lookup path s.watched_paths) [
  | none ↦ (w, s)
  | some descriptor ↦ (
    remove_interest w s.id path descriptor,
    record s { watched_paths = BTreeMap.remove path s.watched_paths },
  )
]

unfoldable pub forget_path : Worker → SubscriptionState → ExclusionRemovalStage → FilePath → Torn
forget_path w s watched path = forget_watched w s path
forget_path w s deferred path =
    (w, record s { deferred_directories = BTreeMap.remove path s.deferred_directories })
forget_path w s promotions path =
    (w, record s { pending_promotions = BTreeSet.remove path s.pending_promotions })
forget_path w s complete path = (w, s)

unfoldable pub next_path : SubscriptionState → PendingExclusionUpdate → Option FilePath
next_path s u = elim u.removal_stage [
  | watched ↦ next_map_path s.watched_paths u.removal_cursor
  | deferred ↦ next_map_path s.deferred_directories u.removal_cursor
  | promotions ↦ next_set_path s.pending_promotions u.removal_cursor
  | complete ↦ none
]

unfoldable pub visit_path : Worker → SubscriptionState → PendingExclusionUpdate → FilePath → Torn
visit_path w s u path =
    let t = set_update s (record u { removal_cursor = some path }) in
    if is_excluded t path then forget_path w t u.removal_stage path else (w, t)

abbrev pub enter_stage :
    SubscriptionState → PendingExclusionUpdate → ExclusionRemovalStage → SubscriptionState
enter_stage s u stage = set_update s (record u { removal_stage = stage; removal_cursor = none })

unfoldable pub leave_stage :
    Worker
    → SubscriptionState
    → PendingExclusionUpdate
    → ExclusionRemovalStage
    → Step Torn (Unit {0})
leave_stage w s u watched = moved (w, enter_stage s u deferred)
leave_stage w s u deferred = moved (w, enter_stage s u promotions)
leave_stage w s u promotions = moved (w, enter_stage s u complete)
leave_stage w s u complete = finished (w, s) tt

unfoldable pub removal_at :
    Worker → SubscriptionState → Option PendingExclusionUpdate → Step Torn (Unit {0})
removal_at w s none = finished (w, s) tt
removal_at w s (some u) = elim (next_path s u) [
  | some path ↦ item (visit_path w s u path)
  | none ↦ leave_stage w s u u.removal_stage
]

abbrev pub removal_step : Torn → Step Torn (Unit {0})
removal_step (w, s) = removal_at w s s.exclusion_update

unfoldable pub remove_excluded : Torn → Turn Torn (Unit {0})
remove_excluded = quantum removal_step removal_fuel max_topology_directories_per_turn

unfoldable pub start_scans : SubscriptionState → List FilePath → SubscriptionState
start_scans s [] = s
start_scans s (path ∷ paths) =
    let stats = s.stats in
    start_scans
      (record s {
        stats = record stats { topology_scans = stats.topology_scans + 1 };
        topology_jobs = s.topology_jobs ++ (inclusion_job path ∷ []);
        topology_barriers = s.topology_barriers + 1;
      })
      paths

abbrev pub state_of : {R : Type 0} → Turn Torn R → Torn
state_of (yielded t) = t
state_of (exhausted t) = t
state_of (done t r) = t

unfoldable pub after_removal : SubscriptionState → SubscriptionState
after_removal s = elim s.exclusion_update [
  | none ↦ s
  | some u ↦
      if is_complete u.removal_stage
      then start_scans (set_update s (record u { phase = scanning_included })) u.newly_included
      else s
]

unfoldable pub queue_paths : ℕ → SubscriptionState → List FilePath → SubscriptionState
queue_paths now s [] = s
queue_paths now s (path ∷ paths) = queue_paths now (queue_path now s path) paths

unfoldable pub commit_state : ℕ → SubscriptionState → PendingExclusionUpdate → SubscriptionState
commit_state now s u = publish_resource_counts (
    queue_paths now
      (record s {
        exclusion_update = none;
        topology_barriers = s.topology_barriers - 1;
        exclusion_generation = u.generation;
      })
      (u.newly_included ++ u.commit_invalidations))

unfoldable pub commit_update :
    ℕ → Hub → SubscriptionState → PendingExclusionUpdate → Hub × SubscriptionState
commit_update now h s u =
    let (hub, published) = publish_deferred_interest_count_with h (commit_state now s u) in
    (
      hub,
      record published {
        acknowledged =
            (record {
              receiver = u.acknowledgement;
              generation = u.generation;
              value = exclusions (ok (coverage published));
            })
            ∷ published.acknowledged;
      },
    )

-- The first part, and whether it has returned.
unfoldable pub begin_removal :
    Host → Option RootIdentity → SubscriptionState → SubscriptionState × Bool
begin_removal host captured s = elim s.exclusion_update [
  | none ↦ (s, false)
  | some u ↦
      if is_waiting u.phase && (is_empty s.topology_jobs && (s.topology_barriers == 0))
      then (if root_stable captured s
          then (start_update host s u, false)
          else (mark_root_lost host s path_identity_mismatch, true))
      else (s, false)
]

unfoldable pub do_removal : Hub → SubscriptionState → Hub × SubscriptionState
do_removal h s = elim s.exclusion_update [
  | none ↦ (h, s)
  | some u ↦
      if is_removing u.phase
      then (let (w, t) = state_of (remove_excluded (h.worker, s)) in
          (record h { worker = w }, after_removal t))
      else (h, s)
]

unfoldable pub end_update :
    Host → Option RootIdentity → Hub → SubscriptionState → Hub × SubscriptionState
end_update host captured h s = elim s.exclusion_update [
  | none ↦ (h, s)
  | some u ↦
      if is_scanning u.phase && (is_empty s.topology_jobs && (s.topology_barriers == 1))
      then (if root_stable captured s
          then commit_update host.now h s u
          else (h, mark_root_lost host s path_identity_mismatch))
      else (h, s)
]

-- The root is captured before the removal starts, and again before the commit.
unfoldable pub progress_exclusion_update :
    Host
    → Option RootIdentity
    → Option RootIdentity
    → Hub
    → SubscriptionState
    → Hub × SubscriptionState
progress_exclusion_update host at_start at_commit h s =
    let (begun, returned) = begin_removal host at_start s in
    if returned
    then (h, begun)
    else (let (hub, removed) = do_removal h begun in end_update host at_commit hub removed)
