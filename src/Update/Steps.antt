-- ===== src/Update/Steps.antt =====
-- The steps of the removal of an exclusion update, stage by stage.
use watchbound.Sweep.{
  ahead-none, next_set_path, next_map_path, ahead, IsSwept, sweep, sweep-IsSwept,
  next_map_path-keys, sweep-IsSorted, ahead-sweep,
}
use watchbound.Base.{
  ℕ, suc, ◌<◌, ◌≡◌, refl, sym, subst, ap, List, Option, none, some, arith, Option-cases, inl, inr,
  ◌∙◌,
}
use watchbound.Order.{ℕ_ord, list_ord}
use watchbound.BTreeSet
use watchbound.BTreeMap
use watchbound.FilePath.{FilePath}
use watchbound.State.{
  SubscriptionState, PendingExclusionUpdate, ExclusionRemovalStage, watched, deferred, promotions,
  complete,
}
use watchbound.Worker.{Worker}
use watchbound.Worker.Budget.{IsCounted}
use watchbound.Quantum.{Step, item, moved, IsMeasured}
use watchbound.Teardown.{Torn}
use watchbound.Update.{removal_step, removal_at, leave_stage, visit_path, next_path, enter_stage}
use watchbound.Update.Pruned.{
  IsOrdered, drops, IsPrunedTo, paths_ahead, stages_left, IsRemoving, IsPruned, IsVisited,
  visit_watched, visit_deferred, visit_promotion, Clean-same, IsSwept-same, at_end, at_start,
}

unfoldable pub paths_of : SubscriptionState → Option PendingExclusionUpdate → ℕ
paths_of s none = 0
paths_of s (some u) = paths_ahead s u.removal_stage u.removal_cursor

unfoldable pub items_of : Torn → ℕ
items_of (w, s) = paths_of s s.exclusion_update

unfoldable pub stages_of : Option PendingExclusionUpdate → ℕ
stages_of none = 0
stages_of (some u) = stages_left u.removal_stage

unfoldable pub phases_of : Torn → ℕ
phases_of (w, s) = stages_of s.exclusion_update

abbrev pub Measured : PendingExclusionUpdate → Torn → Step Torn (Unit {0}) → Type 0
Measured u0 = IsMeasured removal_step (IsRemoving u0) (IsPruned u0) items_of phases_of

abbrev pub at_stage :
    PendingExclusionUpdate → ExclusionRemovalStage → Option FilePath → PendingExclusionUpdate
at_stage u0 stage c = record u0 { removal_stage = stage; removal_cursor = c }

visited-Measured :
    (u0 : PendingExclusionUpdate) (w : Worker) (s : SubscriptionState)
    (stage : ExclusionRemovalStage) (c : Option FilePath) (path : FilePath) (t : Torn)
    → s.exclusion_update ≡ some (at_stage u0 stage c)
    → IsVisited s (at_stage u0 stage c) path t
    → IsOrdered t.1
    → IsPrunedTo t.1 stage (some path)
    → suc (paths_ahead t.1 stage (some path)) ≡ paths_ahead s stage c
    → Measured u0 (w, s) (item t)
unfolding items_of phases_of paths_of stages_of
visited-Measured u0 w s stage c path t b v o p n = (
  record {
    stage = stage;
    cursor = some path;
    begun = v.moved_on;
    ordered = o;
    pruned = p;
    counted = v.counted;
  },
  ap (λ x. suc (paths_of t.1 x)) v.moved_on ∙ n ∙ ap (paths_of s) (sym b),
  rw (v.moved_on, b) (omega arith),
)

entered-Measured :
    (u0 : PendingExclusionUpdate) (w : Worker) (s : SubscriptionState)
    (stage next : ExclusionRemovalStage) (c : Option FilePath)
    → s.exclusion_update ≡ some (at_stage u0 stage c)
    → IsOrdered s
    → IsPrunedTo (enter_stage s (at_stage u0 stage c) next) next none
    → IsCounted w
    → stages_left next < stages_left stage
    → paths_ahead (enter_stage s (at_stage u0 stage c) next) next none ≡ paths_ahead s stage c
    → Measured u0 (w, s) (moved (w, enter_stage s (at_stage u0 stage c) next))
unfolding items_of phases_of paths_of stages_of
entered-Measured u0 w s stage next c b o p n l e = (
  record {
    stage = next;
    cursor = none;
    begun = refl;
    ordered = record {
      watched_paths = o.watched_paths;
      deferred_directories = o.deferred_directories;
      pending_promotions = o.pending_promotions;
    };
    pruned = p;
    counted = n;
  },
  e ∙ ap (paths_of s) (sym b),
  rw b l,
)

-- Sets that the step leaves as they are, or sweeps at `path`.
IsSorted-same : (a b : List FilePath) → b ≡ a → BTreeSet.IsSorted a → BTreeSet.IsSorted b
IsSorted-same a b e = subst BTreeSet.IsSorted (sym e)

ahead-same : (a b : List FilePath) (c : Option FilePath) → b ≡ a → ahead b c ≡ ahead a c
ahead-same a b c e = ap (λ x. ahead x c) e

IsSwept-on :
    (s t : SubscriptionState) (a b : List FilePath) (c : Option FilePath) (path : FilePath)
    → t.exclusion_policy ≡ s.exclusion_policy
    → t.root ≡ s.root
    → b ≡ sweep (drops s) a path
    → BTreeSet.IsSorted a
    → next_set_path a c ≡ some path
    → IsSwept (drops s) a c
    → BTreeSet.IsSorted b
      × IsSwept (drops t) b (some path)
      × (suc (ahead b (some path)) ≡ ahead a c)
IsSwept-on s t a b c path p r e v h w = (
  IsSorted-same _ _ e (sweep-IsSorted (drops s) a path v),
  IsSwept-same s t _ b (some path) p r e (sweep-IsSwept (drops s) a c path v h w),
  ap suc (ahead-same _ b (some path) e) ∙ ahead-sweep (drops s) a c path v h,
)

pub watched_step :
    (u0 : PendingExclusionUpdate) (w : Worker) (s : SubscriptionState) (c : Option FilePath)
    → s.exclusion_update ≡ some (at_stage u0 watched c)
    → IsOrdered s
    → IsPrunedTo s watched c
    → IsCounted w
    → Measured u0 (w, s) (removal_at w s (some (at_stage u0 watched c)))
unfolding removal_at next_path leave_stage paths_ahead
watched_step u0 w s c b o p n =
    let u = at_stage u0 watched c in
    let kept = BTreeMap.keys s.watched_paths in
    let keys = next_map_path-keys s.watched_paths c in
    elim (Option-cases (next_map_path s.watched_paths c)) [
      | inl e ↦
          rw (e, removal_at)
            (entered-Measured u0 w s watched deferred c b o
              (
                Clean-same s (enter_stage s u deferred) kept kept refl refl refl
                    (at_end s kept c (sym keys ∙ e) p),
                at_start (enter_stage s u deferred) (BTreeMap.keys s.deferred_directories),
              )
              n (omega arith) (omega (arith, ahead-none kept c (sym keys ∙ e))))
      | inr (path, e) ↦
          let (v, k, d, q) = visit_watched w s u path refl e n in
          let t = (visit_path w s u path).1 in
          let (sorted, swept, fewer) =
            IsSwept-on s t kept (BTreeMap.keys t.watched_paths) c path v.policy v.root k
              o.watched_paths (sym keys ∙ e) p in
          rw (e, removal_at)
            (visited-Measured u0 w s watched c path (visit_path w s u path) b v
              (record {
                watched_paths = sorted;
                deferred_directories =
                    IsSorted-same _ _ (ap BTreeMap.keys d) o.deferred_directories;
                pending_promotions = IsSorted-same _ _ q o.pending_promotions;
              })
              swept
              (omega
                (arith, fewer, ahead-same _ _ none (ap BTreeMap.keys d), ahead-same _ _ none q)))
    ]

pub deferred_step :
    (u0 : PendingExclusionUpdate) (w : Worker) (s : SubscriptionState) (c : Option FilePath)
    → s.exclusion_update ≡ some (at_stage u0 deferred c)
    → IsOrdered s
    → IsPrunedTo s deferred c
    → IsCounted w
    → Measured u0 (w, s) (removal_at w s (some (at_stage u0 deferred c)))
unfolding removal_at next_path leave_stage paths_ahead
deferred_step u0 w s c b o p n =
    let u = at_stage u0 deferred c in
    let kept = BTreeMap.keys s.deferred_directories in
    let keys = next_map_path-keys s.deferred_directories c in
    elim (Option-cases (next_map_path s.deferred_directories c)) [
      | inl e ↦
          rw (e, removal_at)
            (entered-Measured u0 w s deferred promotions c b o
              (
                Clean-same s (enter_stage s u promotions) _ _ refl refl refl p.0,
                Clean-same s (enter_stage s u promotions) kept kept refl refl refl
                    (at_end s kept c (sym keys ∙ e) p.1),
                at_start (enter_stage s u promotions) s.pending_promotions,
              )
              n (omega arith) (omega (arith, ahead-none kept c (sym keys ∙ e))))
      | inr (path, e) ↦
          let (v, k, d, q) = visit_deferred w s u path refl n in
          let t = (visit_path w s u path).1 in
          let (sorted, swept, fewer) =
            IsSwept-on s t kept (BTreeMap.keys t.deferred_directories) c path v.policy v.root d
              o.deferred_directories (sym keys ∙ e) p.1 in
          rw (e, removal_at)
            (visited-Measured u0 w s deferred c path (visit_path w s u path) b v
              (record {
                watched_paths = IsSorted-same _ _ (ap BTreeMap.keys k) o.watched_paths;
                deferred_directories = sorted;
                pending_promotions = IsSorted-same _ _ q o.pending_promotions;
              })
              (Clean-same s t _ _ v.policy v.root (ap BTreeMap.keys k) p.0, swept)
              (omega (arith, fewer, ahead-same _ _ none q)))
    ]

pub promotion_step :
    (u0 : PendingExclusionUpdate) (w : Worker) (s : SubscriptionState) (c : Option FilePath)
    → s.exclusion_update ≡ some (at_stage u0 promotions c)
    → IsOrdered s
    → IsPrunedTo s promotions c
    → IsCounted w
    → Measured u0 (w, s) (removal_at w s (some (at_stage u0 promotions c)))
unfolding removal_at next_path leave_stage paths_ahead
promotion_step u0 w s c b o p n =
    let u = at_stage u0 promotions c in
    let kept = s.pending_promotions in
    elim (Option-cases (next_set_path kept c)) [
      | inl e ↦
          rw (e, removal_at)
            (entered-Measured u0 w s promotions complete c b o
              (
                Clean-same s (enter_stage s u complete) _ _ refl refl refl p.0,
                Clean-same s (enter_stage s u complete) _ _ refl refl refl p.1,
                Clean-same s (enter_stage s u complete) _ _ refl refl refl (at_end s kept c e p.2),
              )
              n (omega arith) (omega (arith, ahead-none kept c e)))
      | inr (path, e) ↦
          let (v, k, d, q) = visit_promotion w s u path refl n in
          let t = (visit_path w s u path).1 in
          let (sorted, swept, fewer) =
            IsSwept-on s t kept t.pending_promotions c path v.policy v.root q o.pending_promotions e
              p.2 in
          rw (e, removal_at)
            (visited-Measured u0 w s promotions c path (visit_path w s u path) b v
              (record {
                watched_paths = IsSorted-same _ _ (ap BTreeMap.keys k) o.watched_paths;
                deferred_directories =
                    IsSorted-same _ _ (ap BTreeMap.keys d) o.deferred_directories;
                pending_promotions = sorted;
              })
              (
                Clean-same s t _ _ v.policy v.root (ap BTreeMap.keys k) p.0,
                Clean-same s t _ _ v.policy v.root (ap BTreeMap.keys d) p.1,
                swept,
              )
              fewer)
    ]

pub complete_step :
    (u0 : PendingExclusionUpdate) (w : Worker) (s : SubscriptionState) (c : Option FilePath)
    → s.exclusion_update ≡ some (at_stage u0 complete c)
    → IsOrdered s
    → IsPrunedTo s complete c
    → IsCounted w
    → Measured u0 (w, s) (removal_at w s (some (at_stage u0 complete c)))
unfolding removal_at next_path leave_stage
complete_step u0 w s c b o p n = record {
  cursor = c;
  begun = b;
  ordered = o;
  watched_paths = p.0;
  deferred_directories = p.1;
  pending_promotions = p.2;
  counted = n;
}
