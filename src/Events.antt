-- ===== src/Events.antt =====
-- Native events (engine/src/backend/linux.rs): `handle_native_event` and `handle_interest_event`.
-- `Mask` holds the bits of the event's mask that are read, `captured` what
-- `capture_observed_boundary_identity` answers for the event's path, `none` for an error.
pub mod Framed
pub mod Noticed
use watchbound.Base.{
  ℕ, ◌+◌, List, [], ◌∷◌, ◌++◌, Bool, true, false, not, ◌&&◌, ◌||◌, Option, none, some,
  if◌then◌else◌, length, is_some, ltb, leb, ◌==◌, map,
}
use watchbound.Order.{ℕ_ord, list_ord, ◌=?◌}
use watchbound.BTreeSet
use watchbound.BTreeMap
use watchbound.FilePath.{FilePath, Name}
use watchbound.Attempt.{Attempt}
use watchbound.Pending.{ObservedBoundaryIdentity}
use watchbound.Types.{
  topology_race, event_overflow, consumer_backpressure, root_self_event, SharedStats,
}
use watchbound.State.{SubscriptionState, PendingReconciliation, ReconciliationPhase, TopologyJob}
use watchbound.State.Observe.{
  Host, disposal_in_progress, establishment_cancel_requested, event_is_excluded,
  observes_excluded_boundary,
}
use watchbound.State.Queue.{queue_path, mark_uncertain, flush}
use watchbound.State.Deferred.{reconciliation_job, new_job}
use watchbound.State.RootLoss.{mark_root_lost}
use watchbound.Worker.{Worker, NativeWatch, Interest}
use watchbound.Worker.Removal.{remove_subscription_subtree}
use watchbound.Worker.Hub.{Hub, schedule_topology}
use watchbound.Worker.Ignored.{handle_ignored, is_unstable}

pub record Mask : Type 0 where
  pub overflow : Bool
  pub ignored : Bool
  pub unmount : Bool
  pub is_directory : Bool
  pub delete_self : Bool
  pub move_self : Bool
  pub moved_from : Bool
  pub delete : Bool
  pub create : Bool
  pub moved_to : Bool

abbrev pub Captured : Type 0
Captured = Option (Option ObservedBoundaryIdentity)

-- `directory.join(name)`, for a name of one component.
unfoldable pub event_path : FilePath → Option Name → FilePath
event_path directory none = directory
event_path directory (some name) = directory ++ (name ∷ [])

unfoldable pub flush_if_full : ℕ → SubscriptionState → SubscriptionState
flush_if_full now s =
    if leb s.options.max_batch_paths (length s.pending_paths) && (s.topology_barriers == 0)
    then flush now s
    else s

abbrev keep_identity : SubscriptionState → FilePath → Captured → SubscriptionState
keep_identity s path none = s
keep_identity s path (some identity) = record s {
  observed_boundary_identities = BTreeMap.insert path identity s.observed_boundary_identities;
}

-- An excluded path is reported only at an observed boundary.
unfoldable pub notice_boundary : ℕ → SubscriptionState → FilePath → Captured → SubscriptionState
notice_boundary now s path captured =
    if observes_excluded_boundary s path
    then (let kept = keep_identity s path captured in
        flush_if_full now (queue_path now kept (if kept.root_lost then kept.root else path)))
    else s

abbrev expects : Worker → ℕ → Worker
expects w descriptor = elim (BTreeMap.lookup descriptor w.watches) [
  | none ↦ w
  | some watch ↦ record w {
    watches = BTreeMap.insert descriptor (record watch { expects_ignored = true }) w.watches;
  }
]

-- The directory itself is deleted or moved.
unfoldable pub note_self :
    Host → Worker → SubscriptionState → ℕ → Mask → FilePath → Worker × SubscriptionState
note_self host w s descriptor m directory =
    if m.delete_self
    then (if directory =? s.root
        then (w, mark_root_lost host s root_self_event)
        else (expects w descriptor, s))
    else if m.move_self && (directory =? s.root)
    then (w, mark_root_lost host s root_self_event)
    else (w, s)

unfoldable pub is_crowded : SubscriptionState → FilePath → Bool
is_crowded s path =
    (is_some s.exclusion_update || (is_some s.reconciliation || is_some s.root_recovery))
    && (ltb 0 s.topology_barriers
        && (leb s.options.max_batch_paths (length s.pending_paths)
            && (not (BTreeSet.contains path s.pending_paths)
                && not (BTreeSet.contains s.root s.pending_paths))))

unfoldable pub note_path : ℕ → SubscriptionState → FilePath → SubscriptionState
note_path now s path =
    if is_crowded s path
    then mark_uncertain now s consumer_backpressure s.root
    else if is_some s.reconciliation || (is_some s.root_recovery || s.root_lost)
    then queue_path now s s.root
    else queue_path now s path

abbrev scan_again : Option PendingReconciliation → Option PendingReconciliation
scan_again none = none
scan_again (some r) = elim r.phase [
  | ReconciliationPhase.waiting_for_topology ↦ some r
  | _ ↦ some (record r { phase = ReconciliationPhase.scanning; sweep_after = none })
]

-- A directory that has come is scanned.
unfoldable pub scan_directory : SubscriptionState → FilePath → SubscriptionState
scan_directory s path =
    let stats = s.stats in
    record s {
      reconciliation = scan_again s.reconciliation;
      stats = record stats { topology_scans = stats.topology_scans + 1 };
      topology_jobs =
          s.topology_jobs
          ++ ((if is_some s.reconciliation || is_some s.root_recovery
                then reconciliation_job path
                else new_job path false)
              ∷ []);
      topology_barriers = s.topology_barriers + 1;
    }

unfoldable pub follow_directory :
    Hub → SubscriptionState → Mask → FilePath → Hub × SubscriptionState
follow_directory h s m path =
    let (w, t) =
      if m.moved_from || m.delete
      then remove_subscription_subtree h.worker s path
      else (h.worker, s) in
    let hub : Hub = record h { worker = w } in
    if m.create || m.moved_to then (schedule_topology hub s.id, scan_directory t path) else (hub, t)

-- Once the event's path is queued.
unfoldable pub after_note :
    Host → Hub → SubscriptionState → Mask → FilePath → Hub × SubscriptionState
after_note host h s m path =
    if s.root_lost && not (is_some s.root_recovery)
    then (h, s)
    else (let (hub, t) = if m.is_directory then follow_directory h s m path else (h, s) in
        let flushed = flush_if_full host.now t in
        (if is_unstable flushed.root_recovery then schedule_topology hub s.id else hub, flushed))

unfoldable pub handle_included :
    Host → Hub → SubscriptionState → ℕ → Mask → FilePath → FilePath → Hub × SubscriptionState
handle_included host h s descriptor m directory path =
    if m.unmount
    then (h, mark_uncertain host.now s topology_race s.root)
    else (let (w, t) = note_self host h.worker s descriptor m directory in
        after_note host (record h { worker = w }) (note_path host.now t path) m path)

unfoldable pub is_leaving : (ℕ → Attempt) → SubscriptionState → Bool
is_leaving attempts s =
    disposal_in_progress s
    || (is_some s.establishment_teardown || establishment_cancel_requested attempts s)

unfoldable pub handle_interest_event :
    Host
    → (ℕ → Attempt)
    → Captured
    → Hub
    → SubscriptionState
    → ℕ
    → Mask
    → FilePath
    → Option Name
    → Hub × SubscriptionState
handle_interest_event host attempts captured h s descriptor m directory name =
    let path = event_path directory name in
    if is_leaving attempts s
    then (h, s)
    else if event_is_excluded s path m.is_directory
    then (h, notice_boundary host.now s path captured)
    else handle_included host h s descriptor m directory path

unfoldable pub count_overflow : ℕ → SubscriptionState → SubscriptionState
count_overflow now s =
    let stats = s.stats in
    if disposal_in_progress s
    then s
    else mark_uncertain now
        (record s {
          stats = record stats {
            raw_events = stats.raw_events + 1;
            overflow_events = stats.overflow_events + 1;
          };
        })
        event_overflow s.root

-- The subscription is taken out, and put back.
unfoldable pub handle_interest :
    Host → (ℕ → Attempt) → (FilePath → Captured) → ℕ → Mask → Option Name → Hub → Interest → Hub
handle_interest host attempts captured descriptor m name h (id, directory) =
    elim (BTreeMap.lookup id h.subscriptions) [
      | none ↦ h
      | some s ↦
          if disposal_in_progress s
          then h
          else (let stats = s.stats in
              let out : Hub = record h { subscriptions = BTreeMap.remove id h.subscriptions } in
              let (hub, t) =
                handle_interest_event host attempts (captured (event_path directory name)) out
                  (record s { stats = record stats { raw_events = stats.raw_events + 1 } })
                  descriptor m directory name in
              record hub { subscriptions = BTreeMap.insert t.id t hub.subscriptions })
    ]

unfoldable pub handle_interests :
    Host
    → (ℕ → Attempt)
    → (FilePath → Captured)
    → ℕ
    → Mask
    → Option Name
    → Hub
    → List Interest
    → Hub
handle_interests host attempts captured descriptor m name h [] = h
handle_interests host attempts captured descriptor m name h (interest ∷ rest) =
    handle_interests host attempts captured descriptor m name
      (handle_interest host attempts captured descriptor m name h interest) rest

abbrev interests_of : Option NativeWatch → List Interest
interests_of none = []
interests_of (some watch) = watch.interests

unfoldable pub handle_native_event :
    Host → (ℕ → Attempt) → (FilePath → Captured) → Hub → ℕ → Mask → Option Name → Hub
handle_native_event host attempts captured h descriptor m name =
    if m.overflow
    then record h {
      subscriptions =
          map (λ (entry : ℕ × SubscriptionState). (entry.0, count_overflow host.now entry.1))
            h.subscriptions;
    }
    else if m.ignored
    then handle_ignored host h descriptor
    else handle_interests host attempts captured descriptor m name h
        (interests_of (BTreeMap.lookup descriptor h.worker.watches))
