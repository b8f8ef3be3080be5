-- ===== src/Update/Commit.antt =====
-- The commit of an exclusion update.
use watchbound.State.Observe.{
  current_partial_reason, deferred_count, coverage, publish_resource_counts,
}
use watchbound.Base.{
  ℕ, ◌≡◌, refl, List, [], ◌∷◌, ◌++◌, ◌-◌, true, none, Bool-cases, inl, inr, subst, ◌∙◌, arith,
}
use watchbound.Order.{ℕ_ord, list_ord, ◌=?◌, eq_of_=?}
use watchbound.BTreeSet
use watchbound.Result.{ok}
use watchbound.FilePath.{FilePath}
use watchbound.State.{SubscriptionState, PendingExclusionUpdate, exclusions}
use watchbound.State.Queue.{queue_path, adopt_generation}
use watchbound.State.Truth.{Accounts, queue_path-Accounts}
use watchbound.Worker.Hub.{Hub, publish_deferred_interest_count_with, publish_contribution}
use watchbound.Update.{queue_paths, commit_state, commit_update}

-- What queueing leaves as it is.
record IsQueued (s t : SubscriptionState) : Type 0 where
  generation : t.exclusion_generation ≡ s.exclusion_generation
  update : t.exclusion_update ≡ s.exclusion_update
  barriers : t.topology_barriers ≡ s.topology_barriers
  acknowledged : t.acknowledged ≡ s.acknowledged

queue_path-IsQueued :
    (now : ℕ) (s : SubscriptionState) (path : FilePath) → IsQueued s (queue_path now s path)
unfolding queue_path adopt_generation
queue_path-IsQueued now s path = ground arith

IsQueued-trans : (s t u : SubscriptionState) → IsQueued s t → IsQueued t u → IsQueued s u
IsQueued-trans s t u a b = record {
  generation = b.generation ∙ a.generation;
  update = b.update ∙ a.update;
  barriers = b.barriers ∙ a.barriers;
  acknowledged = b.acknowledged ∙ a.acknowledged;
}

queue_paths-IsQueued :
    (now : ℕ) (s : SubscriptionState) (paths : List FilePath) → IsQueued s (queue_paths now s paths)
unfolding queue_paths
queue_paths-IsQueued now s [] = record {
  generation = refl;
  update = refl;
  barriers = refl;
  acknowledged = refl;
}
queue_paths-IsQueued now s (path ∷ paths) =
    IsQueued-trans s (queue_path now s path) _ (queue_path-IsQueued now s path)
      (queue_paths-IsQueued now (queue_path now s path) paths)

queue_paths-keeps :
    (now : ℕ) (s : SubscriptionState) (paths : List FilePath) (path : FilePath)
    → Accounts s path
    → Accounts (queue_paths now s paths) path
unfolding queue_paths
queue_paths-keeps now s [] path h = h
queue_paths-keeps now s (p ∷ paths) path h =
    queue_paths-keeps now (queue_path now s p) paths path ((queue_path-Accounts now s p).1 path h)

queue_paths-Accounts :
    (now : ℕ) (s : SubscriptionState) (paths : List FilePath) (path : FilePath)
    → BTreeSet.contains path paths ≡ true
    → Accounts (queue_paths now s paths) path
unfolding queue_paths BTreeSet.contains
queue_paths-Accounts now s [] path m = absurd (ground arith)
queue_paths-Accounts now s (p ∷ paths) path m = elim (Bool-cases (p =? path)) [
  | inl same ↦
      queue_paths-keeps now (queue_path now s p) paths path (
        subst (Accounts (queue_path now s p)) (eq_of_=? p path same)
          (queue_path-Accounts now s p).0)
  | inr other ↦ queue_paths-Accounts now (queue_path now s p) paths path (ground arith)
]

pub record IsCommitted (s : SubscriptionState) (u : PendingExclusionUpdate) (t : SubscriptionState)
    : Type 0 where
  pub generation : t.exclusion_generation ≡ u.generation
  pub ended : t.exclusion_update ≡ none
  pub barriers : t.topology_barriers ≡ s.topology_barriers - 1
  pub answered :
      t.acknowledged
      ≡ (record {
        receiver = u.acknowledgement;
        generation = u.generation;
        value = exclusions (ok (coverage t));
      })
        ∷ s.acknowledged
  pub accounts :
      (path : FilePath)
      → BTreeSet.contains path (u.newly_included ++ u.commit_invalidations) ≡ true
      → Accounts t path
  pub keeps : (path : FilePath) → Accounts s path → Accounts t path
  pub contributed : t.published_deferred_directories ≡ t.stats.deferred_directories

-- The commit of an exclusion update adopts its generation, ends it and lowers the barrier; it
-- answers once, under that generation, with the coverage of the committed state; every newly
-- included path, every commit invalidation and every path that was accounted for is accounted for.
pub commit_update-IsCommitted :
    (now : ℕ) (h : Hub) (s : SubscriptionState) (u : PendingExclusionUpdate)
    → IsCommitted s u (commit_update now h s u).1
unfolding commit_update commit_state publish_deferred_interest_count_with publish_resource_counts
    publish_contribution coverage deferred_count current_partial_reason
commit_update-IsCommitted now h s u =
    let began : SubscriptionState = record s {
      exclusion_update = none;
      topology_barriers = s.topology_barriers - 1;
      exclusion_generation = u.generation;
    } in
    let paths = u.newly_included ++ u.commit_invalidations in
    let q = queue_paths-IsQueued now began paths in
    record {
      generation = q.generation;
      ended = q.update;
      barriers = q.barriers;
      answered = rw q.acknowledged refl;
      accounts = queue_paths-Accounts now began paths;
      keeps = queue_paths-keeps now began paths;
      contributed = refl;
    }
