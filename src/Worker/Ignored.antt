-- ===== src/Worker/Ignored.antt =====
-- `handle_ignored` (engine/src/backend/linux.rs): an `IN_IGNORED` record is attributed to a retired
-- lifetime, or it ends the live watch of its descriptor, and the interested subscriptions learn of
-- it. `mark_all_uncertain` tells every subscription.
pub mod Attribution
use watchbound.Base.{
  ℕ, suc, ◌+◌, ◌≡◌, ◌≤◌, refl, sym, List, [], ◌∷◌, Bool, true, false, not, Option, none, some,
  if◌then◌else◌, ◌==◌, ◌&&◌, ◌||◌, is_some, retain, map, ◌++◌, inl, inr, arith, Option-cases,
  length, ◌∙◌,
}
use watchbound.Order.{ℕ_ord, list_ord, pair_ord, ◌=?◌}
use watchbound.BTreeMap
use watchbound.FilePath.{FilePath}
use watchbound.Types.{topology_race, root_watch_loss, UncertainReason, SharedStats}
use watchbound.Fair.{FairIdQueue}
use watchbound.Fair as Fair
use watchbound.State.{SubscriptionState, PendingRootRecovery}
use watchbound.State.Observe.{Host, publish_resource_counts, disposal_in_progress}
use watchbound.State.Queue.{mark_uncertain}
use watchbound.State.RootLoss.{mark_root_lost}
use watchbound.Worker.Hub.{Hub, schedule_topology, publish_deferred_interest_count}
use watchbound.Worker.{
  Worker, NativeWatch, Interest, consume_expected_ignored, consume_range,
  publish_native_watch_count,
}
use watchbound.Worker.Budget.{IsCounted, IsCounted-same}

unfoldable pub is_unstable : Option PendingRootRecovery → Bool
is_unstable none = false
is_unstable (some r) = r.candidate_unstable

-- The subscription loses the path.
unfoldable pub lose_watch : Host → Bool → SubscriptionState → FilePath → SubscriptionState
lose_watch host expected s path =
    let t : SubscriptionState = record s { watched_paths = BTreeMap.remove path s.watched_paths } in
    let u =
      if path =? t.root
      then mark_root_lost host t root_watch_loss
      else if not expected
      then mark_uncertain host.now t topology_race t.root
      else t in
    if not (is_some u.exclusion_update)
      && (not (is_some u.reconciliation) && not (is_some u.root_recovery))
    then publish_resource_counts u
    else u

unfoldable pub notify_interest :
    Host → Bool → List (ℕ × SubscriptionState) → Interest → List (ℕ × SubscriptionState)
notify_interest host expected subscriptions (id, path) = elim (BTreeMap.lookup id subscriptions) [
  | none ↦ subscriptions
  | some s ↦
      if disposal_in_progress s
      then subscriptions
      else BTreeMap.insert id (lose_watch host expected s path) subscriptions
]

-- The ids that are scheduled in the end: of the live subscriptions whose candidate is unstable.
unfoldable pub to_schedule : List (ℕ × SubscriptionState) → Interest → List ℕ
to_schedule subscriptions (id, path) = elim (BTreeMap.lookup id subscriptions) [
  | none ↦ []
  | some s ↦ if not (disposal_in_progress s) && is_unstable s.root_recovery then s.id ∷ [] else []
]

unfoldable pub schedule_all : Hub → List ℕ → Hub
schedule_all h [] = h
schedule_all h (id ∷ ids) = schedule_all (schedule_topology h id) ids

-- The loop over the interests, and the ids to schedule after it.
unfoldable pub notify_interests :
    Host
    → Bool
    → List (ℕ × SubscriptionState)
    → List Interest
    → List (ℕ × SubscriptionState) × List ℕ
notify_interests host expected subscriptions [] = (subscriptions, [])
notify_interests host expected subscriptions (interest ∷ rest) =
    let notified = notify_interest host expected subscriptions interest in
    let (last, ids) = notify_interests host expected notified rest in
    (last, to_schedule notified interest ++ ids)

unfoldable pub drop_watch : Worker → ℕ → Worker
drop_watch w descriptor = record w {
  watches = BTreeMap.remove descriptor w.watches;
  watch_identities =
      retain (λ (entry : (ℕ × ℕ) × ℕ). not (entry.1 == descriptor)) w.watch_identities;
}

unfoldable pub lose_native_watch : Host → Hub → ℕ → NativeWatch → Hub
lose_native_watch host h descriptor watch =
    let (subscriptions, ids) =
      notify_interests host watch.expects_ignored h.subscriptions watch.interests in
    let scheduled = schedule_all (record h { subscriptions = subscriptions }) ids in
    publish_deferred_interest_count
      (record scheduled { worker = publish_native_watch_count (drop_watch h.worker descriptor) })

unfoldable pub handle_ignored : Host → Hub → ℕ → Hub
handle_ignored host h descriptor =
    elim (BTreeMap.lookup descriptor h.worker.retired_ignored_lifetimes) [
      | some range ↦ record h { worker = (consume_expected_ignored h.worker descriptor).0 }
      | none ↦ elim (BTreeMap.lookup descriptor h.worker.watches) [
        | none ↦ h
        | some watch ↦ lose_native_watch host h descriptor watch
      ]
    ]

unfoldable pub mark_uncertain_unless_leaving :
    ℕ → UncertainReason → SubscriptionState → SubscriptionState
mark_uncertain_unless_leaving now reason s =
    if disposal_in_progress s || is_some s.establishment_teardown
    then s
    else mark_uncertain now s reason s.root

unfoldable pub mark_all_uncertain : ℕ → UncertainReason → Hub → Hub
mark_all_uncertain now reason h = record h {
  subscriptions =
      map
        (λ (entry : ℕ × SubscriptionState).
          (entry.0, mark_uncertain_unless_leaving now reason entry.1))
        h.subscriptions;
}
