-- ===== src/Worker/Hub.antt =====
-- `Worker` (engine/src/backend/linux.rs) as a whole: the registry, the subscriptions, the fair
-- queues and the counters of deferred directories.
use watchbound.Base.{ℕ, ◌+◌, ◌-◌, List, [], ◌∷◌, if◌then◌else◌, ◌==◌, map, leb}
use watchbound.Order.{ℕ_ord}
use watchbound.Fair.{FairIdQueue}
use watchbound.Fair as Fair
use watchbound.State.{SubscriptionState, Acknowledgement}
use watchbound.Worker.{Worker}

-- The registry with the subscriptions it serves, the queues of topology turns and of promotions,
-- and the published counters. `acknowledged` lists what is sent when a subscription is gone.
pub record Hub : Type 0 where
  pub worker : Worker
  pub subscriptions : List (ℕ × SubscriptionState)
  pub topology_runnable : FairIdQueue
  pub allocator_order : FairIdQueue
  pub deferred_interests : ℕ
  pub subscription_count : ℕ
  pub acknowledged : List Acknowledgement

unfoldable pub schedule_topology : Hub → ℕ → Hub
schedule_topology h id = record h { topology_runnable = (Fair.schedule h.topology_runnable id).0 }

unfoldable pub publish_contribution : SubscriptionState → SubscriptionState
publish_contribution s = record s { published_deferred_directories = s.stats.deferred_directories }

unfoldable pub total_deferred : List (ℕ × SubscriptionState) → ℕ
total_deferred [] = 0
total_deferred ((id, s) ∷ rest) = s.stats.deferred_directories + total_deferred rest

unfoldable pub publish_deferred_interest_count : Hub → Hub
publish_deferred_interest_count h = record h {
  subscriptions =
      map (λ (entry : ℕ × SubscriptionState). (entry.0, publish_contribution entry.1))
        h.subscriptions;
  deferred_interests = total_deferred h.subscriptions;
}

-- A detached subscription is counted beside those in the map.
unfoldable pub publish_deferred_interest_count_with :
    Hub → SubscriptionState → Hub × SubscriptionState
publish_deferred_interest_count_with h detached =
    let published = publish_deferred_interest_count h in
    (
      record published {
        deferred_interests = published.deferred_interests + detached.stats.deferred_directories;
      },
      publish_contribution detached,
    )

-- The `checked_sub`; where it fails, the count is made again.
unfoldable pub remove_published_deferred_interest_count : Hub → ℕ → Hub
remove_published_deferred_interest_count h removed =
    if removed == 0
    then h
    else if leb removed h.deferred_interests
    then record h { deferred_interests = h.deferred_interests - removed }
    else publish_deferred_interest_count h
