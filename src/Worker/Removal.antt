-- ===== src/Worker/Removal.antt =====
-- `remove_interest` and `remove_subscription_subtree` (engine/src/backend/linux.rs): the last
-- interest takes the native watch with it.
use watchbound.Base.{
  ℕ, List, [], ◌∷◌, not, Option, none, some, if◌then◌else◌, ◌&&◌, is_some, is_empty, retain,
}
use watchbound.Order.{ℕ_ord, list_ord, pair_ord}
use watchbound.BTreeSet
use watchbound.BTreeMap
use watchbound.FilePath.{FilePath, starts_with}
use watchbound.Types.{RootIdentity}
use watchbound.State.{SubscriptionState}
use watchbound.State.Observe.{publish_resource_counts}
use watchbound.State.Deferred.{remove_deferred_subtree}
use watchbound.Worker.{
  Worker, NativeWatch, Interest, identity_key, remove_native_watch_lifetime,
  publish_native_watch_count,
}

abbrev pub forget_identity : Option RootIdentity → List ((ℕ × ℕ) × ℕ) → List ((ℕ × ℕ) × ℕ)
forget_identity none identities = identities
forget_identity (some identity) identities = BTreeMap.remove (identity_key identity) identities

unfoldable pub retire_watch : Worker → ℕ → NativeWatch → Worker
retire_watch w descriptor watch = publish_native_watch_count (
    remove_native_watch_lifetime
      (record w {
        watches = BTreeMap.remove descriptor w.watches;
        watch_identities = forget_identity watch.identity w.watch_identities;
      })
      descriptor watch.lifetime)

unfoldable pub leave_watch : Worker → Interest → ℕ → NativeWatch → Worker
leave_watch w interest descriptor watch =
    let left : NativeWatch = record watch {
      interests = BTreeSet.remove interest watch.interests;
    } in
    if is_empty left.interests
    then retire_watch w descriptor left
    else record w { watches = BTreeMap.insert descriptor left w.watches }

unfoldable pub remove_interest : Worker → ℕ → FilePath → ℕ → Worker
remove_interest w id path descriptor = elim (BTreeMap.lookup descriptor w.watches) [
  | none ↦ w
  | some watch ↦ leave_watch w (id, path) descriptor watch
]

unfoldable pub remove_interests : Worker → ℕ → List (FilePath × ℕ) → Worker
remove_interests w id [] = w
remove_interests w id ((path, descriptor) ∷ rest) =
    remove_interests (remove_interest w id path descriptor) id rest

unfoldable pub remove_subscription_subtree :
    Worker → SubscriptionState → FilePath → Worker × SubscriptionState
remove_subscription_subtree w s path =
    let inside = retain (λ (entry : FilePath × ℕ). starts_with entry.0 path) s.watched_paths in
    let outside =
      retain (λ (entry : FilePath × ℕ). not (starts_with entry.0 path)) s.watched_paths in
    let t = remove_deferred_subtree (record s { watched_paths = outside }) path in
    (
      remove_interests w s.id inside,
      if not (is_some t.exclusion_update) && not (is_some t.reconciliation)
          then publish_resource_counts t
          else t,
    )
