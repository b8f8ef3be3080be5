-- ===== src/Update/Pruned.antt =====
-- What the removal of an exclusion update keeps at each of its visits.
use watchbound.Base.{
  ℕ, ◌+◌, ◌≡◌, refl, sym, ap, List, Bool, true, false, Option, none, some, arith, ◌∙◌,
}
use watchbound.Order.{ℕ_ord, list_ord}
use watchbound.BTreeSet
use watchbound.BTreeMap
use watchbound.FilePath.{FilePath}
use watchbound.State.{
  SubscriptionState, PendingExclusionUpdate, ExclusionRemovalStage, watched, deferred, promotions,
  complete,
}
use watchbound.State.Observe.{is_excluded}
use watchbound.Worker.{Worker}
use watchbound.Worker.Budget.{IsCounted}
use watchbound.Worker.Budget.Removing.{remove_interest-IsCounted}
use watchbound.Sweep.{
  next_set_path, next_map_path, ahead, IsSwept, sweep, keys-remove, next-none, next-lookup,
}
use watchbound.Teardown.{Torn}
use watchbound.Update.{visit_path, forget_path, forget_watched}

-- The keys that each stage visits, in order.
pub record IsOrdered (s : SubscriptionState) : Type 0 where
  pub watched_paths : BTreeSet.IsSorted (BTreeMap.keys s.watched_paths)
  pub deferred_directories : BTreeSet.IsSorted (BTreeMap.keys s.deferred_directories)
  pub pending_promotions : BTreeSet.IsSorted s.pending_promotions

abbrev pub drops : SubscriptionState → FilePath → Bool
drops s path = is_excluded s path

abbrev pub Clean : SubscriptionState → List FilePath → Type 0
Clean s paths = (path : FilePath) → BTreeSet.contains path paths ≡ true → is_excluded s path ≡ false

-- What the stages up to the cursor have left behind them.
abbrev pub IsPrunedTo : SubscriptionState → ExclusionRemovalStage → Option FilePath → Type 0
IsPrunedTo s watched c = IsSwept (drops s) (BTreeMap.keys s.watched_paths) c
IsPrunedTo s deferred c =
    Clean s (BTreeMap.keys s.watched_paths)
    × IsSwept (drops s) (BTreeMap.keys s.deferred_directories) c
IsPrunedTo s promotions c =
    Clean s (BTreeMap.keys s.watched_paths)
    × Clean s (BTreeMap.keys s.deferred_directories)
    × IsSwept (drops s) s.pending_promotions c
IsPrunedTo s complete c =
    Clean s (BTreeMap.keys s.watched_paths)
    × Clean s (BTreeMap.keys s.deferred_directories)
    × Clean s s.pending_promotions

unfoldable pub paths_ahead : SubscriptionState → ExclusionRemovalStage → Option FilePath → ℕ
paths_ahead s watched c =
    ahead (BTreeMap.keys s.watched_paths) c
    + ahead (BTreeMap.keys s.deferred_directories) none
    + ahead s.pending_promotions none
paths_ahead s deferred c =
    ahead (BTreeMap.keys s.deferred_directories) c + ahead s.pending_promotions none
paths_ahead s promotions c = ahead s.pending_promotions c
paths_ahead s complete c = 0

abbrev pub stages_left : ExclusionRemovalStage → ℕ
stages_left watched = 3
stages_left deferred = 2
stages_left promotions = 1
stages_left complete = 0

pub record IsRemoving (u0 : PendingExclusionUpdate) (x : Torn) : Type 0 where
  pub stage : ExclusionRemovalStage
  pub cursor : Option FilePath
  pub begun :
      x.1.exclusion_update ≡ some (record u0 { removal_stage = stage; removal_cursor = cursor })
  pub ordered : IsOrdered x.1
  pub pruned : IsPrunedTo x.1 stage cursor
  pub counted : IsCounted x.0

-- No excluded directory is watched, deferred or waiting for its promotion.
pub record IsPruned (u0 : PendingExclusionUpdate) (x : Torn) (r : Unit {0}) : Type 0 where
  pub cursor : Option FilePath
  pub begun :
      x.1.exclusion_update ≡ some (record u0 { removal_stage = complete; removal_cursor = cursor })
  pub ordered : IsOrdered x.1
  pub watched_paths : Clean x.1 (BTreeMap.keys x.1.watched_paths)
  pub deferred_directories : Clean x.1 (BTreeMap.keys x.1.deferred_directories)
  pub pending_promotions : Clean x.1 x.1.pending_promotions
  pub counted : IsCounted x.0

-- A visit moves the cursor, and leaves the policy, the root and the other sets alone.
pub record IsVisited (s : SubscriptionState) (u : PendingExclusionUpdate) (path : FilePath)
    (x : Torn) : Type 0 where
  pub moved_on : x.1.exclusion_update ≡ some (record u { removal_cursor = some path })
  pub policy : x.1.exclusion_policy ≡ s.exclusion_policy
  pub root : x.1.root ≡ s.root
  pub counted : IsCounted x.0

pub visit_watched :
    (w : Worker) (s : SubscriptionState) (u : PendingExclusionUpdate) (path : FilePath)
    → u.removal_stage ≡ watched
    → next_map_path s.watched_paths u.removal_cursor ≡ some path
    → IsCounted w
    → IsVisited s u path (visit_path w s u path)
      × (BTreeMap.keys (visit_path w s u path).1.watched_paths
          ≡ sweep (drops s) (BTreeMap.keys s.watched_paths) path)
      × ((visit_path w s u path).1.deferred_directories ≡ s.deferred_directories)
      × ((visit_path w s u path).1.pending_promotions ≡ s.pending_promotions)
unfolding visit_path is_excluded forget_path forget_watched
visit_watched w s u path e h c =
    let (d, found) = next-lookup s.watched_paths u.removal_cursor path h in
    grind (arith, keys-remove, remove_interest-IsCounted)

pub visit_deferred :
    (w : Worker) (s : SubscriptionState) (u : PendingExclusionUpdate) (path : FilePath)
    → u.removal_stage ≡ deferred
    → IsCounted w
    → IsVisited s u path (visit_path w s u path)
      × ((visit_path w s u path).1.watched_paths ≡ s.watched_paths)
      × (BTreeMap.keys (visit_path w s u path).1.deferred_directories
          ≡ sweep (drops s) (BTreeMap.keys s.deferred_directories) path)
      × ((visit_path w s u path).1.pending_promotions ≡ s.pending_promotions)
unfolding visit_path is_excluded forget_path
visit_deferred w s u path e c = ground (arith, c, keys-remove path s.deferred_directories)

pub visit_promotion :
    (w : Worker) (s : SubscriptionState) (u : PendingExclusionUpdate) (path : FilePath)
    → u.removal_stage ≡ promotions
    → IsCounted w
    → IsVisited s u path (visit_path w s u path)
      × ((visit_path w s u path).1.watched_paths ≡ s.watched_paths)
      × ((visit_path w s u path).1.deferred_directories ≡ s.deferred_directories)
      × ((visit_path w s u path).1.pending_promotions ≡ sweep (drops s) s.pending_promotions path)
unfolding visit_path is_excluded forget_path
visit_promotion w s u path e c = ground (arith, c)

excluded-same :
    (s t : SubscriptionState) (path : FilePath)
    → t.exclusion_policy ≡ s.exclusion_policy
    → t.root ≡ s.root
    → is_excluded t path ≡ is_excluded s path
unfolding is_excluded
excluded-same s t path p r = rw (p, r) refl

pub Clean-same :
    (s t : SubscriptionState) (a b : List FilePath)
    → t.exclusion_policy ≡ s.exclusion_policy
    → t.root ≡ s.root
    → b ≡ a
    → Clean s a
    → Clean t b
Clean-same s t a b p r e h k c =
    excluded-same s t k p r ∙ h k (ap (BTreeSet.contains k) (sym e) ∙ c)

pub IsSwept-same :
    (s t : SubscriptionState) (a b : List FilePath) (c : Option FilePath)
    → t.exclusion_policy ≡ s.exclusion_policy
    → t.root ≡ s.root
    → b ≡ a
    → IsSwept (drops s) a c
    → IsSwept (drops t) b c
IsSwept-same s t a b c p r e h k d n =
    excluded-same s t k p r ∙ h k (ap (BTreeSet.contains k) (sym e) ∙ d) n

pub at_end :
    (s : SubscriptionState) (paths : List FilePath) (c : Option FilePath)
    → next_set_path paths c ≡ none
    → IsSwept (drops s) paths c
    → Clean s paths
at_end s paths c h v k d = v k d (next-none paths c k h d)

pub at_start : (s : SubscriptionState) (paths : List FilePath) → IsSwept (drops s) paths none
at_start s paths k c n = absurd (ground arith)
