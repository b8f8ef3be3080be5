-- ===== src/Disposal/Turns.antt =====
-- `progress_subscription_disposal`, at most 64 items a turn, `complete_subscription_disposal` and
-- `process_subscription_disposal_turn` (engine/src/backend/linux.rs).
use watchbound.Base.{ℕ, List, [], ◌∷◌, true, Option, none, some, if◌then◌else◌, length, is_some}
use watchbound.Order.{ℕ_ord}
use watchbound.BTreeMap
use watchbound.Fair as Fair
use watchbound.Types.{SharedStats}
use watchbound.Attempt.{Attempt}
use watchbound.Exclusion.{ValidatedExclusionPolicy, pop_policy_item}
use watchbound.Pending.{
  PendingDisposal, CompletedDisposal, CompletedEstablishmentTeardown, DisposalAcknowledgement,
  DisposalPhase, pending_paths, watched_interests, deferred_map, deferred_order, promotions,
  topology_jobs, exclusion_policy, observed_identities, cleanup_path_sets, cleanup_path_queues,
  cleanup_path_vectors, complete,
}
use watchbound.State.{SubscriptionState, Acknowledgement, disposed}
use watchbound.Worker.{Worker}
use watchbound.Worker.Removal.{remove_interest}
use watchbound.Worker.Hub.{Hub, schedule_topology, remove_published_deferred_interest_count}
use watchbound.Quantum.{Step, item, moved, finished, Turn, yielded, exhausted, done, quantum}
use watchbound.Teardown.{Torn, shrink_job, finish_establishment_teardown}

abbrev pub max_disposal_items_per_turn : ℕ
max_disposal_items_per_turn = 64

-- Items and moves of one turn.
abbrev pub disposal_fuel : ℕ
disposal_fuel = 77

abbrev pub enter_disposal : SubscriptionState → PendingDisposal → DisposalPhase → SubscriptionState
enter_disposal s d phase = record s { disposal = some (record d { phase = phase }) }

-- One element of the first container, or the empty container itself.
unfoldable pub pop_within : {A : Type 0} → List A → List (List A) → List (List A)
pop_within [] rest = rest
pop_within (x ∷ xs) rest = xs ∷ rest

unfoldable pub pop_policy :
    ValidatedExclusionPolicy → List ValidatedExclusionPolicy → List ValidatedExclusionPolicy
pop_policy policy rest =
    let (left, popped) = pop_policy_item policy in if popped then left ∷ rest else rest

-- The last element of a vector.
unfoldable pub pop : {A : Type 0} → List A → List A
pop [] = []
pop (x ∷ xs) = elim xs [ [] ↦ [] | y ∷ ys ↦ x ∷ pop xs ]

unfoldable pub pop_vector : {A : Type 0} → List A → List (List A) → List (List A)
pop_vector [] rest = rest
pop_vector (x ∷ xs) rest = pop (x ∷ xs) ∷ rest

-- Vectors first, then policies, then identity maps.
unfoldable pub cleanup_step :
    Worker → SubscriptionState → PendingDisposal → Step Torn (Option CompletedDisposal)
cleanup_step w s d = elim d.cleanup_path_vectors [
  | paths ∷ rest ↦
      item (
        w,
        record s { disposal = some (record d { cleanup_path_vectors = pop_vector paths rest }) },
      )
  | [] ↦ elim d.cleanup_policies [
    | policy ∷ rest ↦
        item
          (w, record s { disposal = some (record d { cleanup_policies = pop_policy policy rest }) })
    | [] ↦ elim d.cleanup_identity_maps [
      | identities ∷ rest ↦ item (
        w,
        record s {
          disposal = some (record d { cleanup_identity_maps = pop_within identities rest });
        },
      )
      | [] ↦ moved (w, enter_disposal s d complete)
    ]
  ]
]

unfoldable pub disposal_phase :
    Worker
    → SubscriptionState
    → PendingDisposal
    → DisposalPhase
    → Step Torn (Option CompletedDisposal)
disposal_phase w s d pending_paths = elim s.pending_paths [
  | path ∷ rest ↦ item (w, record s { pending_paths = rest })
  | [] ↦ moved (w, enter_disposal s d watched_interests)
]
disposal_phase w s d watched_interests = elim s.watched_paths [
  | (path, descriptor) ∷ rest ↦
      item (remove_interest w s.id path descriptor, record s { watched_paths = rest })
  | [] ↦ moved (w, enter_disposal s d deferred_map)
]
disposal_phase w s d deferred_map = elim s.deferred_directories [
  | entry ∷ rest ↦ item (w, record s { deferred_directories = rest })
  | [] ↦ moved (w, enter_disposal s d deferred_order)
]
disposal_phase w s d deferred_order = elim s.deferred_order [
  | path ∷ rest ↦ item (w, record s { deferred_order = rest })
  | [] ↦ moved (w, enter_disposal s d promotions)
]
disposal_phase w s d promotions = elim s.pending_promotions [
  | path ∷ rest ↦ item (w, record s { pending_promotions = rest })
  | [] ↦ moved (w, enter_disposal s d topology_jobs)
]
disposal_phase w s d topology_jobs = elim s.topology_jobs [
  | job ∷ rest ↦ item (w, record s { topology_jobs = shrink_job job rest })
  | [] ↦ moved (w, enter_disposal s d exclusion_policy)
]
disposal_phase w s d exclusion_policy =
    let (policy, popped) = pop_policy_item s.exclusion_policy in
    if popped
    then item (w, record s { exclusion_policy = policy })
    else moved (w, enter_disposal s d observed_identities)
disposal_phase w s d observed_identities = elim s.observed_boundary_identities [
  | entry ∷ rest ↦ item (w, record s { observed_boundary_identities = rest })
  | [] ↦ moved (w, enter_disposal s d cleanup_path_sets)
]
disposal_phase w s d cleanup_path_sets = elim d.cleanup_path_sets [
  | paths ∷ rest ↦
      item
        (w, record s { disposal = some (record d { cleanup_path_sets = pop_within paths rest }) })
  | [] ↦ moved (w, enter_disposal s d cleanup_path_queues)
]
disposal_phase w s d cleanup_path_queues = elim d.cleanup_path_queues [
  | paths ∷ rest ↦
      item
        (w, record s { disposal = some (record d { cleanup_path_queues = pop_within paths rest }) })
  | [] ↦ moved (w, enter_disposal s d cleanup_path_vectors)
]
disposal_phase w s d cleanup_path_vectors = cleanup_step w s d
disposal_phase w s d complete =
    finished (w, record s { disposal = none })
      (some (record {
        acknowledgement = d.acknowledgement;
        interrupted_establishment = d.interrupted_establishment;
      }))

unfoldable pub disposal_at :
    Worker → SubscriptionState → Option PendingDisposal → Step Torn (Option CompletedDisposal)
disposal_at w s none = finished (w, s) none
disposal_at w s (some d) = disposal_phase w s d d.phase

abbrev pub disposal_step : Torn → Step Torn (Option CompletedDisposal)
disposal_step (w, s) = disposal_at w s s.disposal

unfoldable pub progress_subscription_disposal : Torn → Turn Torn (Option CompletedDisposal)
progress_subscription_disposal = quantum disposal_step disposal_fuel max_disposal_items_per_turn

-- What a turn leaves: the hub, the counters that the caller shares, and the attempt that it ended.
pub record TurnEnd : Type 0 where
  pub hub : Hub
  pub stats : SharedStats
  pub attempt : Option Attempt

unfoldable pub finish_interrupted :
    (ℕ → Attempt) → Hub → Option CompletedEstablishmentTeardown → Option Attempt × Hub
finish_interrupted attempts h none = (none, h)
finish_interrupted attempts h (some c) =
    let (attempt, ended) = finish_establishment_teardown attempts h c in (some attempt, ended)

abbrev pub acknowledge_disposal :
    Option DisposalAcknowledgement → List Acknowledgement → List Acknowledgement
acknowledge_disposal none sent = sent
acknowledge_disposal (some a) sent =
    record { receiver = a.sender; generation = a.generation; value = disposed } ∷ sent

unfoldable pub complete_subscription_disposal :
    (ℕ → Attempt) → Hub → SubscriptionState → CompletedDisposal → TurnEnd
complete_subscription_disposal attempts h s c =
    let stats = s.stats in
    let forgotten : Hub = record h {
      topology_runnable = (Fair.remove h.topology_runnable s.id).0;
      allocator_order = (Fair.remove h.allocator_order s.id).0;
      subscription_count = length h.subscriptions;
    } in
    let (attempt, ended) =
      finish_interrupted attempts
        (remove_published_deferred_interest_count forgotten s.published_deferred_directories)
        c.interrupted_establishment in
    record {
      hub = record ended {
        acknowledged = acknowledge_disposal c.acknowledgement ended.acknowledged;
      };
      stats = record stats {
        watched_directories = 0;
        deferred_directories = 0;
        disposed = if is_some c.acknowledgement then stats.disposed else true;
      };
      attempt = attempt;
    }

-- The state has been taken out of the map; it is put back if the turn has not ended the disposal.
unfoldable pub after_disposal :
    (ℕ → Attempt) → Hub → Turn Torn (Option CompletedDisposal) → Option TurnEnd
after_disposal attempts h (done (w, s) (some c)) =
    some (complete_subscription_disposal attempts (record h { worker = w }) s c)
after_disposal attempts h (done (w, s) none) = none
after_disposal attempts h (exhausted t) = none
after_disposal attempts h (yielded (w, s)) = some (record {
  hub =
      schedule_topology
        (record h { worker = w; subscriptions = BTreeMap.insert s.id s h.subscriptions }) s.id;
  stats = s.stats;
  attempt = none;
})

unfoldable pub process_subscription_disposal_turn :
    (ℕ → Attempt) → Hub → SubscriptionState → Option TurnEnd
process_subscription_disposal_turn attempts h s =
    after_disposal attempts h (progress_subscription_disposal (h.worker, s))
