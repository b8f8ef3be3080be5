-- ===== src/Teardown.antt =====
-- The teardown of an establishment that failed or was cancelled (engine/src/backend/linux.rs):
-- `begin_establishment_teardown` and its callers, `progress_establishment_teardown`, and
-- `process_establishment_teardown_turn`. A turn takes at most 64 items. A failed `expect` is `none`.
pub mod Items
pub mod Ending
use watchbound.Base.{
  ℕ, suc, ◌+◌, List, [], ◌∷◌, Bool, true, false, Option, none, some, if◌then◌else◌, length,
}
use watchbound.Order.{ℕ_ord}
use watchbound.Error.{WatchboundError, error, ErrorCode, Operation}
use watchbound.Result.{err}
use watchbound.FilePath.{FilePath}
use watchbound.Attempt.{Attempt, try_commit_failure, finish_cancelled, operation_cancelled_error}
use watchbound.BTreeMap
use watchbound.Fair as Fair
use watchbound.Types.{SharedStats}
use watchbound.Pending.{CompletedEstablishmentTeardown}
use watchbound.State.{
  SubscriptionState, TopologyJob, PendingEstablishment, PendingEstablishmentTeardown,
  EstablishmentTeardownPhase, pending_paths, watched_interests, deferred_map, deferred_order,
  promotions, topology_jobs, complete, Acknowledgement, established,
}
use watchbound.Worker.{Worker}
use watchbound.Worker.Removal.{remove_interest}
use watchbound.Worker.Hub.{Hub, schedule_topology, remove_published_deferred_interest_count}
use watchbound.Quantum.{Step, item, moved, finished, Turn, yielded, exhausted, done, quantum}

abbrev pub max_establishment_teardown_items_per_turn : ℕ
max_establishment_teardown_items_per_turn = 64

-- Items and moves of one turn.
abbrev pub teardown_fuel : ℕ
teardown_fuel = 72

unfoldable pub begin_establishment_teardown :
    SubscriptionState → PendingEstablishment → Option WatchboundError → SubscriptionState
begin_establishment_teardown s e terminal_error = record s {
  topology_barriers = 0;
  pending_started = none;
  pending_generation = none;
  establishment_teardown = some (record {
    generation = e.generation;
    acknowledgement = some e.acknowledgement;
    cancellation = e.cancellation;
    terminal_error = terminal_error;
    phase = pending_paths;
  });
}

-- The attempt is shared: its new state comes with the result.
unfoldable pub begin_failed_establishment_teardown :
    Attempt
    → SubscriptionState
    → PendingEstablishment
    → WatchboundError
    → Attempt × SubscriptionState
begin_failed_establishment_teardown attempt s e failure =
    let (attempt', won) = try_commit_failure attempt in
    (
      attempt',
      begin_establishment_teardown s e (some (if won then failure else operation_cancelled_error)),
    )

unfoldable pub begin_cancelled_establishment_teardown : SubscriptionState → Option SubscriptionState
begin_cancelled_establishment_teardown s = elim s.establishment [
  | none ↦ none
  | some e ↦ some (
      begin_establishment_teardown (record s { establishment = none }) e
        (some operation_cancelled_error))
]

unfoldable pub begin_orphaned_establishment_teardown :
    SubscriptionState → PendingEstablishment → SubscriptionState
begin_orphaned_establishment_teardown s e = record s {
  topology_barriers = 0;
  pending_started = none;
  pending_generation = none;
  establishment_teardown = some (record {
    generation = e.generation;
    acknowledgement = none;
    cancellation = e.cancellation;
    terminal_error = none;
    phase = pending_paths;
  });
}

-- `job.active.take()`, else `job.directories.pop_front()`, else the job itself goes.
unfoldable pub shrink_job : TopologyJob → List TopologyJob → List TopologyJob
shrink_job job rest = elim job.active [
  | some directory ↦ record job { active = none } ∷ rest
  | none ↦ elim job.directories [
    | path ∷ paths ↦ record job { directories = paths } ∷ rest
    | [] ↦ rest
  ]
]

abbrev pub enter_phase :
    SubscriptionState
    → PendingEstablishmentTeardown
    → EstablishmentTeardownPhase
    → SubscriptionState
enter_phase s t phase = record s { establishment_teardown = some (record t { phase = phase }) }

abbrev pub completed_of : PendingEstablishmentTeardown → CompletedEstablishmentTeardown
completed_of t = record {
  generation = t.generation;
  acknowledgement = t.acknowledgement;
  cancellation = t.cancellation;
  terminal_error = t.terminal_error;
}

abbrev pub Torn : Type 0
Torn = Worker × SubscriptionState

unfoldable pub teardown_phase :
    Worker
    → SubscriptionState
    → PendingEstablishmentTeardown
    → EstablishmentTeardownPhase
    → Step Torn (Option CompletedEstablishmentTeardown)
teardown_phase w s t pending_paths = elim s.pending_paths [
  | path ∷ rest ↦ item (w, record s { pending_paths = rest })
  | [] ↦ moved (w, enter_phase s t watched_interests)
]
teardown_phase w s t watched_interests = elim s.watched_paths [
  | (path, descriptor) ∷ rest ↦
      item (remove_interest w s.id path descriptor, record s { watched_paths = rest })
  | [] ↦ moved (w, enter_phase s t deferred_map)
]
teardown_phase w s t deferred_map = elim s.deferred_directories [
  | entry ∷ rest ↦ item (w, record s { deferred_directories = rest })
  | [] ↦ moved (w, enter_phase s t deferred_order)
]
teardown_phase w s t deferred_order = elim s.deferred_order [
  | path ∷ rest ↦ item (w, record s { deferred_order = rest })
  | [] ↦ moved (w, enter_phase s t promotions)
]
teardown_phase w s t promotions = elim s.pending_promotions [
  | path ∷ rest ↦ item (w, record s { pending_promotions = rest })
  | [] ↦ moved (w, enter_phase s t topology_jobs)
]
teardown_phase w s t topology_jobs = elim s.topology_jobs [
  | job ∷ rest ↦ item (w, record s { topology_jobs = shrink_job job rest })
  | [] ↦ moved (w, enter_phase s t complete)
]
teardown_phase w s t complete =
    finished (w, record s { establishment_teardown = none }) (some (completed_of t))

unfoldable pub teardown_at :
    Worker
    → SubscriptionState
    → Option PendingEstablishmentTeardown
    → Step Torn (Option CompletedEstablishmentTeardown)
teardown_at w s none = finished (w, s) none
teardown_at w s (some t) = teardown_phase w s t t.phase

abbrev pub teardown_step : Torn → Step Torn (Option CompletedEstablishmentTeardown)
teardown_step (w, s) = teardown_at w s s.establishment_teardown

unfoldable pub progress_establishment_teardown :
    Torn → Turn Torn (Option CompletedEstablishmentTeardown)
progress_establishment_teardown =
    quantum teardown_step teardown_fuel max_establishment_teardown_items_per_turn

unfoldable pub acknowledge :
    List Acknowledgement → CompletedEstablishmentTeardown → List Acknowledgement
acknowledge sent c = elim c.acknowledgement [
  | none ↦ sent
  | some receiver ↦ elim c.terminal_error [
    | none ↦ sent
    | some failure ↦
        (record {
          receiver = receiver;
          generation = c.generation;
          value = established (err failure);
        })
        ∷ sent
  ]
]

unfoldable pub finish_establishment_teardown :
    (ℕ → Attempt) → Hub → CompletedEstablishmentTeardown → Attempt × Hub
finish_establishment_teardown attempts h c = (
  finish_cancelled (attempts c.cancellation),
  record h { acknowledged = acknowledge h.acknowledged c },
)

-- What a turn leaves: the hub, the counters that the caller shares, and the attempt when it ends.
pub record TurnEnd : Type 0 where
  pub hub : Hub
  pub stats : SharedStats
  pub attempt : Option Attempt

-- The removals stand inside `debug_assert!`, which a release build leaves out.
unfoldable pub forget_turns : Bool → Hub → ℕ → Hub
forget_turns debug_assertions h id =
    if debug_assertions
    then record h {
      topology_runnable = (Fair.remove h.topology_runnable id).0;
      allocator_order = (Fair.remove h.allocator_order id).0;
    }
    else h

abbrev pub disposed_stats : SharedStats → SharedStats
disposed_stats stats = record stats {
  watched_directories = 0;
  deferred_directories = 0;
  disposed = true;
}

unfoldable pub complete_teardown :
    Bool → (ℕ → Attempt) → Hub → SubscriptionState → CompletedEstablishmentTeardown → TurnEnd
complete_teardown debug_assertions attempts h s c =
    let forgotten = forget_turns debug_assertions h s.id in
    let counted : Hub = record forgotten { subscription_count = length h.subscriptions } in
    let (attempt, ended) =
      finish_establishment_teardown attempts
        (remove_published_deferred_interest_count counted s.published_deferred_directories) c in
    record { hub = ended; stats = disposed_stats s.stats; attempt = some attempt }

-- The state has been taken out of the map; it is put back if the turn has not ended the teardown.
unfoldable pub after_teardown :
    Bool → (ℕ → Attempt) → Hub → Turn Torn (Option CompletedEstablishmentTeardown) → Option TurnEnd
after_teardown debug_assertions attempts h (done (w, s) (some c)) =
    some (complete_teardown debug_assertions attempts (record h { worker = w }) s c)
after_teardown debug_assertions attempts h (done (w, s) none) = none
after_teardown debug_assertions attempts h (exhausted t) = none
after_teardown debug_assertions attempts h (yielded (w, s)) = some (record {
  hub =
      schedule_topology
        (record h { worker = w; subscriptions = BTreeMap.insert s.id s h.subscriptions }) s.id;
  stats = s.stats;
  attempt = none;
})

unfoldable pub process_establishment_teardown_turn :
    Bool → (ℕ → Attempt) → Hub → SubscriptionState → Option TurnEnd
process_establishment_teardown_turn debug_assertions attempts h s =
    after_teardown debug_assertions attempts h (progress_establishment_teardown (h.worker, s))
