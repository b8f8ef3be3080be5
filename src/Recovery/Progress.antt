-- ===== src/Recovery/Progress.antt =====
-- `progress_root_recovery` (engine/src/backend/linux.rs): drain, open the root again, scan, commit.
-- `candidate` is what `capture_root_candidate` answers, as far as it is an identity. The call of
-- itself, after a failure, is written out: it drains and answers.
use watchbound.Base.{
  ◌+◌, [], ◌∷◌, ◌++◌, Bool, true, false, not, ◌&&◌, ◌||◌, Option, none, some, if◌then◌else◌,
  is_empty, ◌==◌,
}
use watchbound.Order.{ℕ_ord, list_ord}
use watchbound.BTreeMap
use watchbound.Types.{
  RootIdentity, RootRecoveryFailureReason, identity_unstable, root_watch_unavailable,
}
use watchbound.State.{
  SubscriptionState, PendingRootRecovery, removing_old, scanning, cleaning_failure,
}
use watchbound.State.Observe.{Host, is_excluded}
use watchbound.State.Deferred.{remove_deferred_subtree, root_recovery_job}
use watchbound.Worker.{same_identity}
use watchbound.Worker.Hub.{Hub}
use watchbound.Topology.{Answers, OpenedDirectory, open_topology_directory}
use watchbound.Recovery.{
  drain_root_recovery_state, finish_root_recovery_failure, commit_root_recovery,
}

abbrev pub set_recovery : SubscriptionState → PendingRootRecovery → SubscriptionState
set_recovery s r = record s { root_recovery = some r }

unfoldable pub root_recovery_runnable : SubscriptionState → Bool
root_recovery_runnable s = elim s.root_recovery [
  | none ↦ false
  | some r ↦ elim r.phase [
    | removing_old ↦ true
    | cleaning_failure reason ↦ true
    | scanning ↦ r.candidate_unstable || (is_empty s.topology_jobs && (s.topology_barriers == 1))
  ]
]

abbrev pub is_candidate : Option RootIdentity → PendingRootRecovery → Bool
is_candidate none r = false
is_candidate (some identity) r = same_identity identity r.candidate_identity

abbrev pub is_stable : Option RootIdentity → PendingRootRecovery → Bool
is_stable candidate r = not r.candidate_unstable && is_candidate candidate r

unfoldable pub clean_up :
    Hub → SubscriptionState → RootRecoveryFailureReason → Hub × SubscriptionState
clean_up h s reason =
    let ((w, t), complete) = drain_root_recovery_state h.worker s in
    let hub : Hub = record h { worker = w } in
    if complete then finish_root_recovery_failure hub t reason else (hub, t)

-- The failure is noted, and its cleaning begun at once.
unfoldable pub fail_recovery :
    Hub → SubscriptionState → RootRecoveryFailureReason → Hub × SubscriptionState
fail_recovery h s reason = elim s.root_recovery [
  | none ↦ (h, s)
  | some r ↦ clean_up h (set_recovery s (record r { phase = cleaning_failure reason })) reason
]

unfoldable pub start_root_scan :
    SubscriptionState → PendingRootRecovery → OpenedDirectory → SubscriptionState
start_root_scan s r opened =
    let stats = s.stats in
    record s {
      stats = record stats { topology_scans = stats.topology_scans + 1 };
      topology_barriers = 2;
      topology_jobs = s.topology_jobs ++ (root_recovery_job opened.active ∷ []);
      root_recovery = some (record r { phase = scanning });
    }

unfoldable pub after_open :
    Hub
    → SubscriptionState
    → Option PendingRootRecovery
    → Option OpenedDirectory
    → Hub × SubscriptionState
after_open h s none opened = (h, s)
after_open h s (some r) none =
    if r.candidate_unstable
    then fail_recovery h s identity_unstable
    else fail_recovery h (remove_deferred_subtree s s.root) root_watch_unavailable
after_open h s (some r) (some opened) =
    if r.candidate_unstable
    then fail_recovery h s identity_unstable
    else if BTreeMap.contains_key s.root s.watched_paths
    then (h, start_root_scan s r opened)
    else fail_recovery h (remove_deferred_subtree s s.root) root_watch_unavailable

-- Once the old directories are drained.
unfoldable pub reopen_root :
    Host
    → Option RootIdentity
    → Answers
    → Hub
    → SubscriptionState
    → PendingRootRecovery
    → Hub × SubscriptionState
reopen_root host candidate a h s r =
    if not (is_stable candidate r)
    then fail_recovery h s identity_unstable
    else if is_excluded s s.root
    then commit_root_recovery host h s
    else (let (w, t, opened) = open_topology_directory h.worker s s.root true false false a in
        after_open (record h { worker = w }) t t.root_recovery opened)

unfoldable pub remove_old :
    Host
    → Option RootIdentity
    → Answers
    → Hub
    → SubscriptionState
    → PendingRootRecovery
    → Hub × SubscriptionState
remove_old host candidate a h s r =
    let ((w, t), complete) = drain_root_recovery_state h.worker s in
    let hub : Hub = record h { worker = w } in
    if complete then reopen_root host candidate a hub t r else (hub, t)

unfoldable pub finish_scan :
    Host
    → Option RootIdentity
    → Hub
    → SubscriptionState
    → PendingRootRecovery
    → Hub × SubscriptionState
finish_scan host candidate h s r =
    if is_empty s.topology_jobs && (s.topology_barriers == 1)
    then (if is_stable candidate r then commit_root_recovery host h s else (
      h,
      record s {
        topology_barriers = 1;
        root_recovery = some (record r { phase = cleaning_failure identity_unstable });
      },
    ))
    else (h, s)

unfoldable pub progress_root_recovery :
    Host → Option RootIdentity → Answers → Hub → SubscriptionState → Hub × SubscriptionState
progress_root_recovery host candidate a h s = elim s.root_recovery [
  | none ↦ (h, s)
  | some r ↦ elim r.phase [
    | removing_old ↦ remove_old host candidate a h s r
    | cleaning_failure reason ↦ clean_up h s reason
    | scanning ↦ finish_scan host candidate h s r
  ]
]
