-- ===== src/Worker/Budget.antt =====
-- The registry of native watches against the budget of the runtime and its published count.
use watchbound.Worker.Interests.{
  still, directory_identity, has_nul, is_collision, Probe, InterestAllocation,
  runtime_budget_exhausted, added, Outcome, add_interest, add_identified, create_watch,
  admit_descriptor, admit_known, admit_new, register_watch, share_watch, insert_interest,
  join_watch, reject_colliding_native_watch, shared_watch, watch_of, is_over_budget,
}
use watchbound.Worker.{
  identity_key, Worker, NativeWatch, Interest, rm_watch, claim_new_watch_lifetime,
  remove_native_watch_lifetime, expect_ignored, publish_native_watch_count, quarantine,
}
use watchbound.Worker.Removal.{
  forget_identity, remove_interest, leave_watch, retire_watch, remove_interests,
  remove_subscription_subtree,
}
pub mod Adding
pub mod Removing
use watchbound.Base.{
  is_empty, ◌∙◌, ℕ, suc, ◌+◌, ◌≤◌, ◌<◌, ◌≡◌, ◌⊎◌, inl, inr, refl, sym, ap, List, [], ◌∷◌, Bool,
  true, false, not, Option, none, some, arith, Option-cases, Bool-cases, if◌then◌else◌, leb, ltb,
  ◌||◌, leb→le, le→leb, leb-false→lt, length,
}
use watchbound.Order.{ℕ_ord, list_ord, pair_ord}
use watchbound.BTreeSet
use watchbound.BTreeMap
use watchbound.Result.{ResultOf, ok, err, Result-cases}
use watchbound.Error.{IoError}
use watchbound.FilePath.{FilePath}
use watchbound.Types.{RootIdentity}
use watchbound.State.{SubscriptionState}

pub record IsCounted (w : Worker) : Type 0 where
  pub sorted : BTreeMap.IsSorted w.watches
  pub published : w.native_watches ≡ length w.watches
  pub bounded : (budget : ℕ) → w.native_watch_budget ≡ some budget → length w.watches ≤ budget

-- Only the fields that `IsCounted` reads.
pub IsCounted-same :
    (w v : Worker)
    → v.watches ≡ w.watches
    → v.native_watches ≡ w.native_watches
    → v.native_watch_budget ≡ w.native_watch_budget
    → IsCounted w
    → IsCounted v
IsCounted-same w v e f g c = record {
  sorted = rw e c.sorted;
  published = rw (e, f) c.published;
  bounded = λ b h. rw e (c.bounded b (sym g ∙ h));
}

pub expect_ignored-same :
    (w : Worker) (d l : ℕ)
    → ((expect_ignored w d l).watches ≡ w.watches)
      × ((expect_ignored w d l).native_watches ≡ w.native_watches)
      × ((expect_ignored w d l).native_watch_budget ≡ w.native_watch_budget)
unfolding expect_ignored quarantine
expect_ignored-same w d l = ground arith

claim-same :
    (w : Worker) (d : ℕ)
    → ((claim_new_watch_lifetime w d).0.watches ≡ w.watches)
      × ((claim_new_watch_lifetime w d).0.native_watches ≡ w.native_watches)
      × ((claim_new_watch_lifetime w d).0.native_watch_budget ≡ w.native_watch_budget)
unfolding claim_new_watch_lifetime quarantine rm_watch
claim-same w d = ground arith

-- There is room for one more watch.
abbrev pub HasRoom : Worker → Type 0
HasRoom w = (budget : ℕ) → w.native_watch_budget ≡ some budget → length w.watches < budget

pub join_watch-IsCounted :
    (w : Worker) (i : Interest) (d : ℕ) (watch old : NativeWatch)
    → BTreeMap.lookup d w.watches ≡ some old
    → IsCounted w
    → IsCounted (join_watch w i d watch)
unfolding join_watch
join_watch-IsCounted w i d watch old h c = record {
  sorted = BTreeMap.insert-IsSorted d _ w.watches c.sorted;
  published = c.published ∙ sym (BTreeMap.length-insert_known d _ old w.watches c.sorted h);
  bounded = λ b k. rw (BTreeMap.length-insert_known d _ old w.watches c.sorted h) (c.bounded b k);
}

pub share_watch-IsCounted :
    (now : ℕ) (w : Worker) (s : SubscriptionState) (path : FilePath) (identity : RootIdentity)
    (stable : Bool) (d : ℕ) (watch : NativeWatch)
    → BTreeMap.lookup d w.watches ≡ some watch
    → IsCounted w
    → IsCounted (share_watch now w s path identity stable d watch).0
unfolding share_watch insert_interest
share_watch-IsCounted now w s path identity true d watch h c =
    join_watch-IsCounted w _ d watch watch h c
share_watch-IsCounted now w s path identity false d watch h c = c

register_known-IsCounted :
    (now : ℕ) (w : Worker) (s : SubscriptionState) (path : FilePath) (identity : RootIdentity)
    (d : ℕ) (watch : NativeWatch)
    → BTreeMap.lookup d w.watches ≡ some watch
    → IsCounted w
    → IsCounted (register_watch now w s path identity d watch false).0
unfolding register_watch insert_interest join_watch publish_native_watch_count
register_known-IsCounted now w s path identity d watch h c = record {
  sorted = BTreeMap.insert-IsSorted d _ w.watches c.sorted;
  published = refl;
  bounded = λ b k. rw (BTreeMap.length-insert_known d _ watch w.watches c.sorted h) (c.bounded b k);
}

register_new-IsCounted :
    (now : ℕ) (w : Worker) (s : SubscriptionState) (path : FilePath) (identity : RootIdentity)
    (d : ℕ) (watch : NativeWatch)
    → BTreeMap.lookup d w.watches ≡ none
    → HasRoom w
    → IsCounted w
    → IsCounted (register_watch now w s path identity d watch true).0
unfolding register_watch insert_interest join_watch publish_native_watch_count
register_new-IsCounted now w s path identity d watch h room c = record {
  sorted = BTreeMap.insert-IsSorted d _ w.watches c.sorted;
  published = refl;
  bounded = λ b k. rw (BTreeMap.length-insert_new d _ w.watches h) (ground (arith, room b k));
}

remove_lifetime-IsCounted :
    (w : Worker) (d l : ℕ) → IsCounted w → IsCounted (remove_native_watch_lifetime w d l)
unfolding remove_native_watch_lifetime rm_watch
remove_lifetime-IsCounted w d l c =
    let (e, f, g) = expect_ignored-same w d l in
    IsCounted-same w (remove_native_watch_lifetime w d l) e f g c

admit_known-IsCounted :
    (now : ℕ) (w : Worker) (s : SubscriptionState) (path : FilePath) (identity : RootIdentity)
    (stable : Bool) (d : ℕ) (watch : NativeWatch)
    → BTreeMap.lookup d w.watches ≡ some watch
    → IsCounted w
    → IsCounted (admit_known now w s path identity stable d watch).0
unfolding admit_known reject_colliding_native_watch quarantine rm_watch
admit_known-IsCounted now w s path identity stable d watch h c =
    elim (Bool-cases (is_collision watch.identity identity)) [
      | inl collides ↦
          rw (collides, admit_known)
            (IsCounted-same w (rm_watch (quarantine w d) d) refl refl refl c)
      | inr agrees ↦ elim (Bool-cases stable) [
        | inl e ↦
            rw (agrees, e, admit_known) (register_known-IsCounted now w s path identity d watch h c)
        | inr e ↦ rw (agrees, e, admit_known) c
      ]
    ]

admit_new-IsCounted :
    (now : ℕ) (w : Worker) (s : SubscriptionState) (path : FilePath) (identity : RootIdentity)
    (stable : Bool) (d : ℕ) (claimed : ResultOf IoError ℕ)
    → BTreeMap.lookup d w.watches ≡ none
    → HasRoom w
    → IsCounted w
    → IsCounted (admit_new now w s path identity stable d claimed).0
unfolding admit_new
admit_new-IsCounted now w s path identity stable d (err e) h room c = c
admit_new-IsCounted now w s path identity true d (ok l) h room c =
    register_new-IsCounted now w s path identity d _ h room c
admit_new-IsCounted now w s path identity false d (ok l) h room c =
    remove_lifetime-IsCounted w d l c

pub admit_descriptor-IsCounted :
    (now : ℕ) (w : Worker) (s : SubscriptionState) (path : FilePath) (identity : RootIdentity)
    (stable : Bool) (d : ℕ)
    → HasRoom w
    → IsCounted w
    → IsCounted (admit_descriptor now w s path identity stable d).0
unfolding admit_descriptor
admit_descriptor-IsCounted now w s path identity stable d room c =
    elim (Option-cases (BTreeMap.lookup d w.watches)) [
      | inl e ↦
          let (f, g, b) = claim-same w d in
          let v = (claim_new_watch_lifetime w d).0 in
          rw (e, admit_descriptor)
            (admit_new-IsCounted now v s path identity stable d (claim_new_watch_lifetime w d).1
              (rw f e) (λ budget k. rw f (room budget (sym b ∙ k))) (IsCounted-same w v f g b c))
      | inr (watch, e) ↦
          rw (e, admit_descriptor) (admit_known-IsCounted now w s path identity stable d watch e c)
    ]
