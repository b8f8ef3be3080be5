-- ===== src/Worker/Budget/Removing.antt =====
-- `remove_interest`, `remove_subscription_subtree` and the count of native watches.
use watchbound.Worker.Budget.{forget_identity, IsCounted, expect_ignored-same}
use watchbound.Base.{
  is_empty, ◌∙◌, ℕ, ◌≡◌, inl, inr, refl, sym, List, [], ◌∷◌, some, arith, Option-cases, Bool-cases,
}
use watchbound.Order.{ℕ_ord, list_ord, pair_ord}
use watchbound.BTreeSet
use watchbound.BTreeMap
use watchbound.FilePath.{FilePath}
use watchbound.State.{SubscriptionState}
use watchbound.Worker.{
  Worker, NativeWatch, rm_watch, remove_native_watch_lifetime, publish_native_watch_count,
}
use watchbound.Worker.Removal.{
  remove_interest, leave_watch, retire_watch, remove_interests, remove_subscription_subtree,
}

retire_watch-IsCounted :
    (w : Worker) (d : ℕ) (watch old : NativeWatch)
    → BTreeMap.lookup d w.watches ≡ some old
    → IsCounted w
    → IsCounted (retire_watch w d watch)
unfolding retire_watch publish_native_watch_count remove_native_watch_lifetime rm_watch
retire_watch-IsCounted w d watch old h c =
    let smaller = BTreeMap.length-remove d old w.watches h in
    let law =
      expect_ignored-same
        (record w {
          watches = BTreeMap.remove d w.watches;
          watch_identities = forget_identity watch.identity w.watch_identities;
        })
        d watch.lifetime in
    record {
      sorted = rw law.0 (BTreeMap.remove-IsSorted d w.watches c.sorted);
      published = refl;
      bounded = λ b k. rw law.0 (ground (arith, smaller, c.bounded b (sym law.2 ∙ k)));
    }

pub remove_interest-IsCounted :
    (w : Worker) (id : ℕ) (path : FilePath) (d : ℕ)
    → IsCounted w
    → IsCounted (remove_interest w id path d)
unfolding remove_interest leave_watch
remove_interest-IsCounted w id path d c = elim (Option-cases (BTreeMap.lookup d w.watches)) [
  | inl e ↦ rw (e, remove_interest) c
  | inr (watch, e) ↦ elim (Bool-cases (is_empty (BTreeSet.remove (id, path) watch.interests))) [
    | inl last ↦ rw (e, remove_interest, last, leave_watch) (retire_watch-IsCounted w d _ watch e c)
    | inr shared ↦
        rw (e, remove_interest, shared, leave_watch)
          (record {
            sorted = BTreeMap.insert-IsSorted d _ w.watches c.sorted;
            published =
                c.published ∙ sym (BTreeMap.length-insert_known d _ watch w.watches c.sorted e);
            bounded = λ b k.
                rw (BTreeMap.length-insert_known d _ watch w.watches c.sorted e) (c.bounded b k);
          })
  ]
]

remove_interests-IsCounted :
    (w : Worker) (id : ℕ) (entries : List (FilePath × ℕ))
    → IsCounted w
    → IsCounted (remove_interests w id entries)
unfolding remove_interests
remove_interests-IsCounted w id [] c = c
remove_interests-IsCounted w id ((path, d) ∷ rest) c =
    remove_interests-IsCounted (remove_interest w id path d) id rest
      (remove_interest-IsCounted w id path d c)

-- From a registry that is sorted, counted and within the budget, a subscription that leaves a
-- subtree leads to such a registry.
pub remove_subscription_subtree-IsCounted :
    (w : Worker) (s : SubscriptionState) (path : FilePath)
    → IsCounted w
    → IsCounted (remove_subscription_subtree w s path).0
unfolding remove_subscription_subtree
remove_subscription_subtree-IsCounted w s path c = remove_interests-IsCounted w s.id _ c
