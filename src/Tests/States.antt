-- ===== src/Tests/States.antt =====
-- Subscriptions at concrete inputs: deliveries, coverage and root loss.
use watchbound.Base.{
  ℕ, ◌≡◌, ◌↔◌, ◌⊎◌, inl, inr, refl, List, [], ◌∷◌, true, false, none, some, arith,
}
use watchbound.Order.{ℕ_ord, list_ord}
use watchbound.FilePath.{FilePath}
use watchbound.Exclusion.{ValidatedExclusionPolicy}
use watchbound.Types.{
  complete, uncertain, event_overflow, topology_race, RootAttachment, root_self_event, strict,
  resource_limit, UncertainReason,
}
use watchbound.State.{
  SubscriptionState, PendingExclusionUpdate, ExclusionRemovalStage, ExclusionUpdatePhase,
  DeferredCause,
}
use watchbound.State.Observe.{coverage, Host}
use watchbound.State.Queue.{queue_path, mark_uncertain, flush}
use watchbound.State.Deferred.{defer}
use watchbound.State.RootLoss.{mark_root_lost}
use watchbound.State.RootLoss.Rejection.{
  IsRejected, IsLost, mark_root_lost-IsRejected, mark_root_lost-IsLost, mark_root_lost_understated,
}
use watchbound.State.Truth.{
  Accounts, coverage-complete_iff, queue_path-keeps, IsStrongest, mark_uncertain-IsStrongest,
}
use watchbound.State.Delivery.{Delivered, Dropped, Abandoned, flush_accounts}
use watchbound.State.Stream.{
  Session, Event, queues, marks, flushes, takes, run, IsNumbered, run-IsNumbered,
}
use watchbound.State.Deferral.{IsDeferred, defer-IsDeferred}

-- "/w", and below it "s" and "t".
abbrev pub root : FilePath
root = (119 ∷ []) ∷ []

abbrev pub src : FilePath
src = (119 ∷ []) ∷ (115 ∷ []) ∷ []

abbrev pub target : FilePath
target = (119 ∷ []) ∷ (116 ∷ []) ∷ []

abbrev pub no_exclusions : ValidatedExclusionPolicy
no_exclusions = record { prefixes = []; directory_names = []; observed_paths = [] }

-- Nothing is pending, and the queue has room for 64 batches.
abbrev pub settled : SubscriptionState
settled = record {
  id = 1;
  root = root;
  root_identity = record { device = 1; inode = 10 };
  root_generation = 1;
  root_lost = false;
  root_loss_evidence = none;
  published_root_state = record {
    generation = 1;
    identity = record { device = 1; inode = 10 };
    attachment = RootAttachment.attached;
    loss_evidence = none;
  };
  options = record {
    root_path_policy = strict;
    initial_exclusions = [];
    excluded_directory_names = [];
    observed_excluded_paths = [];
    watch_limit = none;
    batch_window = 10;
    max_batch_paths = 1024;
    output_queue_capacity = 64;
  };
  stats = record {
    watched_directories = 1;
    deferred_directories = 0;
    raw_events = 0;
    overflow_events = 0;
    topology_scans = 0;
    batches_delivered = 0;
    batches_dropped = 0;
    disposed = false;
  };
  output = record { queued = []; capacity = 64; connected = true };
  watched_paths = (root, 3) ∷ [];
  deferred_directories = [];
  deferred_order = [];
  pending_promotions = [];
  uncertain_reason = none;
  pending_paths = [];
  pending_started = none;
  pending_generation = none;
  next_sequence = 1;
  exclusion_generation = 0;
  selection_generation = 0;
  exclusion_policy = no_exclusions;
  observed_boundary_identities = [];
  observed_identity_cursor = none;
  next_root_identity_check = none;
  next_observed_identity_check = none;
  exclusion_update = none;
  reconciliation = none;
  root_recovery = none;
  topology_jobs = [];
  topology_barriers = 0;
  establishment = none;
  establishment_teardown = none;
  disposal = none;
  published_deferred_directories = 0;
  uncertainty_epoch = 0;
  acknowledged = [];
}

abbrev pub pending : SubscriptionState
pending = record settled {
  pending_paths = src ∷ target ∷ [];
  pending_started = some 5;
  pending_generation = some 0;
}

flush_accounts_example :
    Delivered pending (flush 20 pending)
    ⊎ (Dropped pending (flush 20 pending) ⊎ Abandoned pending (flush 20 pending))
flush_accounts_example = flush_accounts 20 pending refl (omega arith)

abbrev opened : Session
opened = record { state = settled; received = [] }

opened-IsNumbered : IsNumbered opened
opened-IsNumbered = record { limit = omega arith; numbered = tt; next = refl; within = omega arith }

abbrev history : List (ℕ × Event)
history =
    (1, queues src) ∷ (2, flushes) ∷ (3, marks event_overflow root) ∷ (4, takes) ∷ (9, flushes) ∷ []

run-IsNumbered_example : IsNumbered (run opened history)
run-IsNumbered_example = run-IsNumbered opened history opened-IsNumbered (omega arith)

coverage-complete_iff_example : (coverage settled ≡ complete) ↔ (
    (settled.uncertain_reason ≡ none)
    × (settled.deferred_directories ≡ [])
    × (settled.pending_promotions ≡ []))
coverage-complete_iff_example = coverage-complete_iff settled

queue_path-keeps_example : Accounts (queue_path 6 pending target) target
queue_path-keeps_example = queue_path-keeps 6 pending target target (inl refl)

mark_uncertain-IsStrongest_example :
    Accounts (mark_uncertain 6 pending event_overflow src) src
    × ((r : UncertainReason) × (coverage (mark_uncertain 6 pending event_overflow src)
          ≡ uncertain r)
        × IsStrongest pending.uncertain_reason event_overflow r)
mark_uncertain-IsStrongest_example =
    mark_uncertain-IsStrongest 6 pending event_overflow src (inr refl)

abbrev pub update : PendingExclusionUpdate
update = record {
  generation = 1;
  policy = record no_exclusions { prefixes = target ∷ [] };
  previous_policy = no_exclusions;
  newly_included = [];
  commit_invalidations = [];
  removal_stage = ExclusionRemovalStage.watched;
  removal_cursor = none;
  acknowledgement = 8;
  phase = ExclusionUpdatePhase.removing_excluded;
}

-- A path was queued under the generation that the update selects.
abbrev pub updating : SubscriptionState
updating = record pending {
  exclusion_update = some update;
  selection_generation = 1;
  pending_generation = some 1;
  exclusion_policy = record no_exclusions { prefixes = target ∷ [] };
}

abbrev pub host : Host
host = record { observed_identity = λ path. none; now = 30 }

mark_root_lost-IsRejected_example :
    IsRejected updating (mark_root_lost host updating root_self_event)
mark_root_lost-IsRejected_example = mark_root_lost-IsRejected host updating root_self_event refl

mark_root_lost-IsLost_example :
    IsLost updating root_self_event (mark_root_lost host updating root_self_event)
mark_root_lost-IsLost_example = mark_root_lost-IsLost host updating root_self_event

mark_root_lost_understated_example :
    coverage (mark_root_lost host updating root_self_event) ≡ uncertain topology_race
mark_root_lost_understated_example =
    mark_root_lost_understated host updating root_self_event update 1 refl refl refl refl

defer-IsDeferred_example :
    IsDeferred settled src resource_limit
      (defer settled src resource_limit DeferredCause.subscription_limit)
defer-IsDeferred_example =
    defer-IsDeferred settled src resource_limit DeferredCause.subscription_limit
