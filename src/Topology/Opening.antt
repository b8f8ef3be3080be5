-- ===== src/Topology/Opening.antt =====
-- What opening a directory keeps, and what an opened directory stands for.
use watchbound.Base.{
  ◌∙◌, not, sym, subst, ap, Bool, ℕ, suc, ◌≤◌, ◌≡◌, refl, true, false, some, length, arith,
  Bool-cases, Option-cases, inl, inr, length-retain-le,
}
use watchbound.FilePath.{starts_with, FilePath}
use watchbound.Worker.Budget.Removing.{
  remove_subscription_subtree-IsCounted, remove_interest-IsCounted,
}
use watchbound.State.{subscription_limit, SubscriptionState}
use watchbound.Topology.{
  resource_limit, Answers, Admitting, stopped, admitted, at_limit, forget_replaced, admit_at_limit,
  after_interest, admit_directory, read_directory, after_admission, open_topology_directory,
  mark_reconciliation_encounter,
}
use watchbound.Order.{ℕ_ord, list_ord}
use watchbound.BTreeMap
use watchbound.Error.{IoError}
use watchbound.Result.{ResultOf, ok, err, Result-cases}
use watchbound.State.Observe.{is_excluded, publish_resource_counts}
use watchbound.State.Deferred.{defer, defer_error, remove_deferred_subtree}
use watchbound.Worker.{Worker}
use watchbound.Worker.Interests.{InterestAllocation, added, runtime_budget_exhausted, add_interest}
use watchbound.Worker.Removal.{remove_subscription_subtree}
use watchbound.Worker.Budget.{IsCounted}
use watchbound.Worker.Budget.Adding.{add_interest-IsCounted}
use watchbound.Topology.Limit.{add_interest-Grows, remove-le}

-- Within the subscription's limit, if it was.
abbrev pub Limited : SubscriptionState → SubscriptionState → Type 0
Limited s t =
    (limit : ℕ)
    → s.options.watch_limit ≡ some limit
    → length s.watched_paths ≤ limit
    → length t.watched_paths ≤ limit

abbrev Kept : SubscriptionState → SubscriptionState → Type 0
Kept s t = (length t.watched_paths ≤ length s.watched_paths) × (t.options ≡ s.options)

mark-watched :
    (s : SubscriptionState) (path : FilePath) (reconciliation : Bool)
    → (mark_reconciliation_encounter s path reconciliation).watched_paths ≡ s.watched_paths
unfolding mark_reconciliation_encounter
mark-watched s path true = refl
mark-watched s path false = refl

forget_replaced-Kept :
    (w : Worker) (s : SubscriptionState) (directory : FilePath) (reconciliation : Bool)
    (a : Answers)
    → IsCounted w
    → IsCounted (forget_replaced w s directory reconciliation a).0
      × Kept s (forget_replaced w s directory reconciliation a).1
unfolding forget_replaced
forget_replaced-Kept w s directory reconciliation a c =
    elim (Option-cases (BTreeMap.lookup directory s.watched_paths)) [
      | inl e ↦ rw (e, forget_replaced) (c, (omega arith, refl))
      | inr (d, e) ↦ ground (
        arith,
        c,
        remove_interest-IsCounted w s.id directory d c,
        remove-le directory s.watched_paths,
      )
    ]

admit_at_limit-same :
    (w : Worker) (s : SubscriptionState) (directory : FilePath) (read reconciliation : Bool)
    (a : Answers)
    → ((admit_at_limit w s directory read reconciliation a).0 ≡ w)
      × ((admit_at_limit w s directory read reconciliation a).1.watched_paths ≡ s.watched_paths)
unfolding admit_at_limit defer defer_error remove_deferred_subtree
admit_at_limit-same w s directory read reconciliation a = elim (Result-cases a.metadata) [
  | inl (m, e) ↦ ground (
    arith,
    mark-watched (defer s directory resource_limit subscription_limit) directory reconciliation,
  )
  | inr (f, e) ↦ ground arith
]

after_interest-same :
    (directory : FilePath) (read reconciliation : Bool) (w : Worker) (s : SubscriptionState)
    (r : ResultOf IoError InterestAllocation)
    → ((after_interest directory read reconciliation w s r).0 ≡ w)
      × ((after_interest directory read reconciliation w s r).1.watched_paths ≡ s.watched_paths)
unfolding after_interest defer defer_error remove_deferred_subtree
after_interest-same directory read reconciliation w s (ok (added c)) = (refl, refl)
after_interest-same directory read reconciliation w s (ok runtime_budget_exhausted) =
    (refl, mark-watched _ directory reconciliation)
after_interest-same directory read reconciliation w s (err e) = (
  refl,
  ground (
    arith,
    mark-watched (remove_deferred_subtree s directory) directory reconciliation,
    mark-watched (defer_error s directory e) directory reconciliation,
  ),
)

at_limit-below :
    (s : SubscriptionState) (limit : ℕ)
    → at_limit s ≡ false
    → s.options.watch_limit ≡ some limit
    → suc (length s.watched_paths) ≤ limit
at_limit-below s limit h e = ground arith

admit_directory-Limited :
    (w : Worker) (s : SubscriptionState) (directory : FilePath) (allow read reconciliation : Bool)
    (a : Answers)
    → IsCounted w
    → IsCounted (admit_directory w s directory allow read reconciliation a).0
      × Limited s (admit_directory w s directory allow read reconciliation a).1
unfolding admit_directory
admit_directory-Limited w s directory allow read reconciliation a c =
    elim (Bool-cases (BTreeMap.contains_key directory s.watched_paths)) [
      | inl known ↦ rw (known, admit_directory) (c, λ limit e h. h)
      | inr new ↦ elim (Bool-cases (at_limit s)) [
        | inl full ↦
            let (f, k) = admit_at_limit-same w s directory read reconciliation a in
            rw (new, admit_directory, full)
              (subst IsCounted (sym f) c, λ limit e h. subst (λ x. length x ≤ limit) (sym k) h)
        | inr room ↦
            let (v, t, r) = add_interest a.now w s directory allow a.probe in
            let (f, k) = after_interest-same directory read reconciliation v t r in
            rw (new, admit_directory, room)
              (
                subst IsCounted (sym f)
                    (add_interest-IsCounted a.now w s directory allow a.probe c),
                λ limit e h.
                    subst (λ x. length x ≤ limit) (sym k)
                      (omega (
                        arith,
                        add_interest-Grows a.now w s directory allow a.probe,
                        at_limit-below s limit room e,
                      )),
              )
      ]
    ]

read_directory-Limited :
    (w : Worker) (s : SubscriptionState) (directory : FilePath) (deferred_at_limit created : Bool)
    (r : ResultOf IoError ℕ)
    → IsCounted w
    → IsCounted (read_directory w s directory deferred_at_limit created r).0
      × (length (read_directory w s directory deferred_at_limit created r).1.watched_paths
          ≤ length s.watched_paths)
unfolding read_directory remove_subscription_subtree remove_deferred_subtree publish_resource_counts
    defer_error defer
read_directory-Limited w s directory deferred_at_limit created (ok entries) c = (c, omega arith)
read_directory-Limited w s directory deferred_at_limit created (err e) c = ground (
  arith,
  remove_subscription_subtree-IsCounted w s directory c,
  length-retain-le (λ (entry : FilePath × ℕ). not (starts_with entry.0 directory)) s.watched_paths,
)

after_admission-Limited :
    (directory : FilePath) (reconciliation : Bool) (a : Answers) (x : Admitting)
    → IsCounted x.0
    → IsCounted (after_admission directory reconciliation a x).0
      × (length (after_admission directory reconciliation a x).1.watched_paths
          ≤ length x.1.watched_paths)
unfolding after_admission
after_admission-Limited directory reconciliation a (w, s, stopped) c = (c, omega arith)
after_admission-Limited directory reconciliation a (w, s, admitted b d) c =
    let marked = mark_reconciliation_encounter s directory reconciliation in
    let (f, l) = read_directory-Limited w marked directory b d a.read_dir c in
    (f, omega (arith, l, ap length (mark-watched s directory reconciliation)))

-- From a counted registry, opening a directory keeps it so, whatever the host answers, and a
-- subscription that was within its watch limit stays within it.
pub open_topology_directory-Limited :
    (w : Worker) (s : SubscriptionState) (directory : FilePath) (allow read reconciliation : Bool)
    (a : Answers)
    → IsCounted w
    → IsCounted (open_topology_directory w s directory allow read reconciliation a).0
      × ((limit : ℕ)
          → s.options.watch_limit ≡ some limit
          → length s.watched_paths ≤ limit
          → length
              (open_topology_directory w s directory allow read reconciliation a).1.watched_paths
            ≤ limit)
unfolding open_topology_directory remove_deferred_subtree
open_topology_directory-Limited w s directory allow read reconciliation a c =
    elim (Bool-cases (is_excluded s directory)) [
      | inl out ↦ rw (out, open_topology_directory) (c, λ limit e h. h)
      | inr within ↦
          let (v, t) = forget_replaced w s directory reconciliation a in
          let (f, (fewer, options)) = forget_replaced-Kept w s directory reconciliation a c in
          let (g, limited) = admit_directory-Limited v t directory allow read reconciliation a f in
          let (k, l) = after_admission-Limited directory reconciliation a _ g in
          rw (within, open_topology_directory)
            (
              k,
              λ limit e h. omega (
                arith,
                l,
                limited limit (ap (λ o. o.watch_limit) options ∙ e) (omega (arith, fewer, h)),
              ),
            )
    ]
