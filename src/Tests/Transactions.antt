-- ===== src/Tests/Transactions.antt =====
-- Transactions and the opening of directories at concrete inputs.
use watchbound.Base.{
  ℕ, ◌≡◌, ◌≤◌, ◌⊎◌, inr, refl, [], ◌∷◌, Bool, true, false, none, some, arith, length,
}
use watchbound.Order.{ℕ_ord, list_ord}
use watchbound.Result.{ok, err}
use watchbound.Types.{root_replaced, accept_replacement}
use watchbound.State.{
  SubscriptionState, PendingReconciliation, ReconciliationPhase, PendingRootRecovery,
  RootRecoveryPhase, exclusions, reconciled, recovered,
}
use watchbound.Quantum.{turns, done}
use watchbound.Teardown.{Torn}
use watchbound.Worker.Budget.{IsCounted}
use watchbound.Update.{removal_step, removal_fuel, max_topology_directories_per_turn, commit_update}
use watchbound.Update.Pruned.{IsRemoving, IsPruned, paths_ahead}
use watchbound.Sweep.{ahead}
use watchbound.Update.Removal.{removal_ends}
use watchbound.Update.Commit.{IsCommitted, commit_update-IsCommitted}
use watchbound.Reconcile.{sweep_step, sweep_fuel}
use watchbound.Reconcile.Commit.{commit_stable}
use watchbound.Reconcile.Sweeping.{IsSweeping, IsReconciled}
use watchbound.Reconcile.Ending.{sweep_ends}
use watchbound.Reconcile.Clearing.{IsReported, IsUnreported, commit_reconciliation-IsReported}
use watchbound.Recovery.{commit_root_recovery}
use watchbound.Recovery.Boundary.{Committed, commit_root_recovery-IsAttached}
use watchbound.Topology.{Answers, open_topology_directory}
use watchbound.Topology.Opening.{open_topology_directory-Limited}
use watchbound.Commands.{Captures, replace_exclusions, reconcile, recover_root}
use watchbound.Error.{ErrorCode, Operation}
use watchbound.Commands.Busy.{Refused, Conflicting, ConflictingUpdate, commands-Refused}
use watchbound.Attempt.{bound}
use watchbound.State.Observe.{
  establishment_cancel_requested, disposal_in_progress, event_is_excluded,
}
use watchbound.Exclusion.{ExclusionPolicy, event_excludes, matches_directory_name}
use watchbound.Events.{Mask, event_path, handle_interest_event, is_leaving}
use watchbound.Events.Noticed.{IsNoticed, handle_interest_event-IsNoticed}
use watchbound.Tests.States.{root, src, target, settled, update, updating, host}
use watchbound.Tests.Watches.{registry, registry-IsCounted, hub, probe, directory}

-- Two directories are watched, and the update excludes the second.
abbrev removing : Torn
removing = (registry, record updating { watched_paths = (root, 3) ∷ (target, 5) ∷ [] })

removing-IsRemoving : IsRemoving update removing
removing-IsRemoving = record {
  stage = _;
  cursor = none;
  begun = refl;
  ordered = record {
    watched_paths = ((refl, tt), (tt, tt));
    deferred_directories = tt;
    pending_promotions = tt;
  };
  pruned = λ k c n. absurd (ground arith);
  counted = registry-IsCounted;
}

removal_ends_example :
    (y : Torn) × (r : Unit {0}) × (turns removal_step 1 removal_fuel
        max_topology_directories_per_turn removing
      ≡ done y r)
    × IsPruned update y r
unfolding paths_ahead ahead
removal_ends_example = removal_ends update update removing 1 removing-IsRemoving refl (omega arith)

commit_update-IsCommitted_example :
    IsCommitted updating update (commit_update 30 hub updating update).1
commit_update-IsCommitted_example = commit_update-IsCommitted 30 hub updating update

-- The scan has encountered the root only.
abbrev sweeping : PendingReconciliation
sweeping = record {
  acknowledgement = 8;
  phase = ReconciliationPhase.sweeping_watched;
  encountered = root ∷ [];
  sweep_after = none;
  rebuilt_deferred_order = [];
  starting_uncertainty = none;
  starting_uncertainty_epoch = 0;
}

abbrev swept : Torn
swept = (
  registry,
  record settled { reconciliation = some sweeping; watched_paths = (root, 3) ∷ (target, 5) ∷ [] },
)

swept-IsSweeping : IsSweeping sweeping [] swept
swept-IsSweeping = record {
  place = record { phase = ReconciliationPhase.sweeping_watched; sweep_after = none; rebuilt = [] };
  begun = refl;
  ordered = record {
    watched_paths = ((refl, tt), (tt, tt));
    deferred_directories = tt;
    pending_promotions = tt;
  };
  swept = (λ k c n. absurd (ground arith), refl, refl);
  counted = registry-IsCounted;
}

sweep_ends_example :
    (y : Torn) × (ready : Bool) × (turns sweep_step 1 sweep_fuel max_topology_directories_per_turn
        swept
      ≡ done y ready)
    × IsReconciled sweeping [] y ready
unfolding ahead
sweep_ends_example = sweep_ends sweeping sweeping [] swept 1 swept-IsSweeping refl (omega arith)

commit_reconciliation-IsReported_example :
    IsReported swept.1 sweeping (commit_stable 30 hub swept.1 sweeping).1
    ⊎ IsUnreported swept.1 sweeping (commit_stable 30 hub swept.1 sweeping).1
commit_reconciliation-IsReported_example = commit_reconciliation-IsReported 30 hub swept.1 sweeping

abbrev recovery : PendingRootRecovery
recovery = record {
  acknowledgement = 9;
  phase = RootRecoveryPhase.scanning;
  previous_root_state = settled.published_root_state;
  candidate_identity = record { device = 1; inode = 11 };
  starting_uncertainty = some root_replaced;
  starting_uncertainty_epoch = 0;
  later_uncertainty = none;
  candidate_unstable = false;
}

abbrev recovering : SubscriptionState
recovering = record settled {
  root_recovery = some recovery;
  root_lost = true;
  uncertain_reason = some root_replaced;
  topology_barriers = 1;
}

commit_root_recovery-IsAttached_example :
    Committed recovering recovery (commit_root_recovery host hub recovering).1
commit_root_recovery-IsAttached_example =
    commit_root_recovery-IsAttached host hub recovering recovery refl

abbrev answers : Answers
answers = record {
  now = 30;
  current = ok directory;
  metadata = ok directory;
  probe = probe;
  read_dir = ok 4;
}

open_topology_directory-Limited_example :
    IsCounted (open_topology_directory registry settled src true false false answers).0
    × ((limit : ℕ)
        → settled.options.watch_limit ≡ some limit
        → length settled.watched_paths ≤ limit
        → length
            (open_topology_directory registry settled src true false false answers).1.watched_paths
          ≤ limit)
open_topology_directory-Limited_example =
    open_topology_directory-Limited registry settled src true false false answers registry-IsCounted

abbrev captures : Captures
captures = record { at_start = none; at_commit = none }

abbrev policy : ExclusionPolicy
policy = record { prefixes = []; excluded_directory_names = []; observed_excluded_paths = [] }

commands-Refused_example :
    ((code : ErrorCode) × ConflictingUpdate recovering 7 code
      × Refused hub recovering 7 5
          (λ e. exclusions (err e))
          Operation.replace_exclusions
          code
          (replace_exclusions host captures hub recovering 7 policy 5))
    × ((code : ErrorCode) × Conflicting recovering code
        × Refused hub recovering 7 5
            (λ e. reconciled (err e))
            Operation.reconcile
            code
            (reconcile host captures hub recovering 7 5)
        × Refused hub recovering 7 5
            (λ e. recovered (err e))
            Operation.recover_root
            code
            (recover_root host
              (ok recovery.candidate_identity)
              none
              answers
              hub
              recovering
              7
              accept_replacement
              5))
commands-Refused_example =
    commands-Refused host captures (ok recovery.candidate_identity) none answers hub recovering 7
      policy accept_replacement 5 (inr (inr (λ h. cc)))

-- "s" is created in the root.
abbrev created : Mask
created = record {
  overflow = false;
  ignored = false;
  unmount = false;
  is_directory = true;
  delete_self = false;
  move_self = false;
  moved_from = false;
  delete = false;
  create = true;
  moved_to = false;
}

handle_interest_event-IsNoticed_example :
    IsNoticed settled
      (event_path root (some (115 ∷ [])))
      (handle_interest_event host
        (λ id. record { id = id; state = bound; runtime = none })
        none
        hub
        settled
        3
        created
        root
        (some (115 ∷ []))).1
unfolding is_leaving establishment_cancel_requested disposal_in_progress event_is_excluded
    event_excludes matches_directory_name
handle_interest_event-IsNoticed_example =
    handle_interest_event-IsNoticed host (λ id. record { id = id; state = bound; runtime = none })
      none hub settled 3 created root (some (115 ∷ [])) refl refl (omega arith)
