-- ===== src/Topology/Limit.antt =====
-- Opening a directory, the subscription's watch limit and the budget of native watches.
use watchbound.Base.{
  ap, Bool, ℕ, suc, ◌≤◌, ◌≡◌, List, [], ◌∷◌, true, false, length, arith, Option-cases, inl, inr,
}
use watchbound.Order.{ℕ_ord, list_ord}
use watchbound.State.{SubscriptionState}
use watchbound.BTreeMap
use watchbound.Error.{IoError}
use watchbound.Result.{ResultOf, ok, err, Result-cases}
use watchbound.FilePath.{FilePath}
use watchbound.Types.{RootIdentity, UncertainReason, topology_race}
use watchbound.State.Queue.{mark_uncertain, queue_path, adopt_generation}
use watchbound.Worker.{Worker, NativeWatch, claim_new_watch_lifetime}
use watchbound.Worker.Interests.{
  note_unstable_candidate, mark_reused_descriptor_uncertain, reject_colliding_native_watch,
  insert_interest, fresh_watch, share_watch, register_watch, admit_new, admit_known,
  admit_descriptor, create_watch, add_interest, add_identified, shared_watch, directory_identity,
  still, Probe,
}

insert-le :
    (path : FilePath) (d : ℕ) (m : List (FilePath × ℕ))
    → length (BTreeMap.insert path d m) ≤ suc (length m)
unfolding BTreeMap.insert
insert-le path d [] = omega arith
insert-le path d ((j, w) ∷ m) = ground (arith, insert-le path d m)

pub remove-le :
    (path : FilePath) (m : List (FilePath × ℕ)) → length (BTreeMap.remove path m) ≤ length m
unfolding BTreeMap.remove
remove-le path [] = omega arith
remove-le path ((j, w) ∷ m) = ground (arith, remove-le path m)

abbrev Grows : SubscriptionState → SubscriptionState → Type 0
Grows s t = length t.watched_paths ≤ suc (length s.watched_paths)

mark_uncertain-watched :
    (now : ℕ) (s : SubscriptionState) (reason : UncertainReason) (path : FilePath)
    → (mark_uncertain now s reason path).watched_paths ≡ s.watched_paths
unfolding mark_uncertain queue_path adopt_generation
mark_uncertain-watched now s reason path = ground arith

reused-watched :
    (now : ℕ) (w : Worker) (s : SubscriptionState) (d : ℕ)
    → (mark_reused_descriptor_uncertain now w s d).watched_paths ≡ s.watched_paths
unfolding mark_reused_descriptor_uncertain
reused-watched now w s d = ground (arith, mark_uncertain-watched now s topology_race s.root)

unstable-Grows :
    (now : ℕ) (s : SubscriptionState) (path root : FilePath)
    → Grows s (mark_uncertain now (note_unstable_candidate s path) topology_race root)
unfolding note_unstable_candidate
unstable-Grows now s path root = omega (
  arith,
  ap length (mark_uncertain-watched now (note_unstable_candidate s path) topology_race root),
)

register_watch-Grows :
    (now : ℕ) (w : Worker) (s : SubscriptionState) (path : FilePath) (identity : RootIdentity)
    (d : ℕ) (watch : NativeWatch) (created : Bool)
    → Grows s (register_watch now w s path identity d watch created).1
unfolding register_watch insert_interest
register_watch-Grows now w s path identity d watch created = omega (
  arith,
  insert-le path d (mark_reused_descriptor_uncertain now w s d).watched_paths,
  ap length (reused-watched now w s d),
)

share_watch-Grows :
    (now : ℕ) (w : Worker) (s : SubscriptionState) (path : FilePath) (identity : RootIdentity)
    (stable : Bool) (d : ℕ) (watch : NativeWatch)
    → Grows s (share_watch now w s path identity stable d watch).1
unfolding share_watch insert_interest
share_watch-Grows now w s path identity true d watch = omega (
  arith,
  insert-le path d (mark_reused_descriptor_uncertain now w s d).watched_paths,
  ap length (reused-watched now w s d),
)
share_watch-Grows now w s path identity false d watch = unstable-Grows now s path _

admit_known-Grows :
    (now : ℕ) (w : Worker) (s : SubscriptionState) (path : FilePath) (identity : RootIdentity)
    (stable : Bool) (d : ℕ) (watch : NativeWatch)
    → Grows s (admit_known now w s path identity stable d watch).1
unfolding admit_known reject_colliding_native_watch
admit_known-Grows now w s path identity stable d watch = ground (
  arith,
  unstable-Grows now s path s.root,
  unstable-Grows now s path (note_unstable_candidate s path).root,
  register_watch-Grows now w s path identity d watch false,
)

admit_new-Grows :
    (now : ℕ) (w : Worker) (s : SubscriptionState) (path : FilePath) (identity : RootIdentity)
    (stable : Bool) (d : ℕ) (lifetime : ResultOf IoError ℕ)
    → Grows s (admit_new now w s path identity stable d lifetime).1
unfolding admit_new
admit_new-Grows now w s path identity stable d (err e) =
    omega (arith, ap length (mark_uncertain-watched now s topology_race s.root))
admit_new-Grows now w s path identity true d (ok l) =
    register_watch-Grows now w s path identity d (fresh_watch l) true
admit_new-Grows now w s path identity false d (ok l) = unstable-Grows now s path _

admit_descriptor-Grows :
    (now : ℕ) (w : Worker) (s : SubscriptionState) (path : FilePath) (identity : RootIdentity)
    (stable : Bool) (d : ℕ)
    → Grows s (admit_descriptor now w s path identity stable d).1
unfolding admit_descriptor
admit_descriptor-Grows now w s path identity stable d =
    elim (Option-cases (BTreeMap.lookup d w.watches)) [
      | inl e ↦
          rw (e, admit_descriptor)
            (admit_new-Grows now (claim_new_watch_lifetime w d).0 s path identity stable d
              (claim_new_watch_lifetime w d).1)
      | inr (watch, e) ↦
          rw (e, admit_descriptor) (admit_known-Grows now w s path identity stable d watch)
    ]

create_watch-Grows :
    (now : ℕ) (w : Worker) (s : SubscriptionState) (path : FilePath) (identity : RootIdentity)
    (probe : Probe) (allow : Bool)
    → Grows s (create_watch now w s path identity probe allow).1
unfolding create_watch
create_watch-Grows now w s path identity probe allow = elim (Result-cases probe.add_watch) [
  | inl (d, e) ↦
      ground (arith, admit_descriptor-Grows now w s path identity (still probe.after identity) d)
  | inr (f, e) ↦ ground arith
]

pub add_interest-Grows :
    (now : ℕ) (w : Worker) (s : SubscriptionState) (path : FilePath) (allow : Bool) (probe : Probe)
    → Grows s (add_interest now w s path allow probe).1
unfolding add_interest add_identified
add_interest-Grows now w s path allow probe =
    elim (Result-cases (directory_identity probe.before)) [
      | inr (f, e) ↦ rw (e, add_interest) (omega arith)
      | inl (identity, e) ↦ elim (Option-cases (shared_watch w identity)) [
        | inl k ↦
            rw (e, add_interest, k, add_identified)
              (create_watch-Grows now w s path identity probe allow)
        | inr (known, k) ↦
            rw (e, add_interest, k, add_identified)
              (share_watch-Grows now w s path identity (still probe.after identity) known.0 known.1)
      ]
    ]
