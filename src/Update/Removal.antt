-- ===== src/Update/Removal.antt =====
-- The removal of an exclusion update, turn by turn: how it ends and what it leaves.
use watchbound.Base.{ℕ, ◌+◌, ◌*◌, ◌<◌, ◌≡◌, sym, subst, Option, none, some, arith}
use watchbound.Order.{ℕ_ord, list_ord}
use watchbound.FilePath.{FilePath}
use watchbound.State.{
  SubscriptionState, PendingExclusionUpdate, ExclusionRemovalStage, watched, deferred, promotions,
  complete,
}
use watchbound.Worker.{Worker}
use watchbound.Worker.Budget.{IsCounted}
use watchbound.Quantum.{done, turns, turns-IsDone, IsDone-ends}
use watchbound.Teardown.{Torn}
use watchbound.Update.{removal_step, removal_at, removal_fuel, max_topology_directories_per_turn}
use watchbound.Update.Pruned.{IsOrdered, IsPrunedTo, paths_ahead, IsRemoving, IsPruned}
use watchbound.Update.Steps.{
  paths_of, items_of, stages_of, phases_of, Measured, at_stage, watched_step, deferred_step,
  promotion_step, complete_step,
}

stage_step :
    (u0 : PendingExclusionUpdate) (w : Worker) (s : SubscriptionState)
    (stage : ExclusionRemovalStage) (c : Option FilePath)
    → s.exclusion_update ≡ some (at_stage u0 stage c)
    → IsOrdered s
    → IsPrunedTo s stage c
    → IsCounted w
    → Measured u0 (w, s) (removal_at w s (some (at_stage u0 stage c)))
stage_step u0 w s watched = watched_step u0 w s
stage_step u0 w s deferred = deferred_step u0 w s
stage_step u0 w s promotions = promotion_step u0 w s
stage_step u0 w s complete = complete_step u0 w s

removal_step-Measured :
    (u0 : PendingExclusionUpdate) (x : Torn) → IsRemoving u0 x → Measured u0 x (removal_step x)
removal_step-Measured u0 (w, s) v =
    subst (λ o. Measured u0 (w, s) (removal_at w s o)) (sym v.begun)
      (stage_step u0 w s v.stage v.cursor v.begun v.ordered v.pruned v.counted)

stages_small : (o : Option PendingExclusionUpdate) → stages_of o < 4
unfolding stages_of
stages_small none = omega arith
stages_small (some u) = ground arith

phases_small : (x : Torn) → max_topology_directories_per_turn + phases_of x < removal_fuel
unfolding phases_of
phases_small (w, s) = omega (arith, stages_small s.exclusion_update)

few_items :
    (x : Torn) (n : ℕ) (u : PendingExclusionUpdate)
    → x.1.exclusion_update ≡ some u
    → paths_ahead x.1 u.removal_stage u.removal_cursor < n * max_topology_directories_per_turn
    → items_of x < n * max_topology_directories_per_turn
unfolding items_of paths_of
few_items (w, s) n u b h =
    subst (λ o. paths_of s o < n * max_topology_directories_per_turn) (sym b) h

-- From a removal in progress, turns of 64 paths, as many as the paths ahead need, end it in its
-- last stage: no excluded directory is watched, deferred or waiting for its promotion any more, and
-- the registry is still counted.
pub removal_ends :
    (u0 u : PendingExclusionUpdate) (x : Torn) (n : ℕ)
    → IsRemoving u0 x
    → x.1.exclusion_update ≡ some u
    → paths_ahead x.1 u.removal_stage u.removal_cursor < n * max_topology_directories_per_turn
    → (y : Torn) × (r : Unit {0}) × (turns removal_step n removal_fuel
          max_topology_directories_per_turn x
        ≡ done y r)
      × IsPruned u0 y r
removal_ends u0 u x n v b h =
    IsDone-ends removal_step (IsRemoving u0) (IsPruned u0) items_of phases_of _ (
      turns-IsDone removal_step (IsRemoving u0) (IsPruned u0) items_of phases_of
        (removal_step-Measured u0) n removal_fuel max_topology_directories_per_turn x v
        (phases_small x) (few_items x n u b h))
