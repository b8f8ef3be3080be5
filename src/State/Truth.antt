-- ===== src/State/Truth.antt =====
-- What the coverage says of a subscription, and which paths the pending ones account for.
use watchbound.Base.{
  ap, ◌∙◌, ℕ, ◌+◌, ◌≤◌, ◌≡◌, ◌↔◌, ◌⊎◌, inl, inr, refl, List, [], ◌∷◌, ◌++◌, true, false, ◌||◌,
  Option, none, some, arith, is_empty, map, Option-cases, Bool-cases, if◌then◌else◌, min, ◌==◌, All,
}
use watchbound.Order.{ℕ_ord, list_ord, ◌=?◌, =?_refl}
use watchbound.BTreeSet
use watchbound.BTreeMap
use watchbound.FilePath.{FilePath}
use watchbound.Types.{
  complete, uncertain, UncertainReason, topology_race, consumer_backpressure, root_replaced,
  event_overflow, strongest_uncertainty, PartialReason, partial_priority, resource_limit,
}
use watchbound.State.{SubscriptionState, DeferredInterest}
use watchbound.State.Observe.{
  coverage, coverage_without_uncertainty, current_partial_reason, strongest_partial,
}
use watchbound.State.Queue.{queue_path, adopt_generation, mark_uncertain, note_later, u64_max}

-- The pending paths account for `path`: by name, or by the root.
abbrev pub Accounts : SubscriptionState → FilePath → Type 0
Accounts s path =
    (BTreeSet.contains path s.pending_paths || BTreeSet.contains s.root s.pending_paths) ≡ true

-- The pending paths were chosen under the current policy, if there are any.
abbrev pub IsCurrent : SubscriptionState → Type 0
IsCurrent s = (s.pending_generation ≡ none) ⊎ (s.pending_generation ≡ some s.selection_generation)

adopt_generation-Accounts :
    (s : SubscriptionState) (path : FilePath) → Accounts s path → Accounts (adopt_generation s) path
unfolding adopt_generation BTreeSet.contains
adopt_generation-Accounts s path h = ground (arith, =?_refl s.root)

adopt_generation-root : (s : SubscriptionState) → (adopt_generation s).root ≡ s.root
unfolding adopt_generation
adopt_generation-root s = ground arith

root-Accounts :
    (s : SubscriptionState) (path : FilePath) → s.pending_paths ≡ s.root ∷ [] → Accounts s path
unfolding BTreeSet.contains
root-Accounts s path h = rw h (ground (arith, =?_refl s.root))

single : (path : FilePath) → BTreeSet.contains path (path ∷ []) ≡ true
unfolding BTreeSet.contains
single path = ground (arith, =?_refl path)

only_root :
    (root path : FilePath) → (path =? root) ≡ true → BTreeSet.contains root (path ∷ []) ≡ true
unfolding BTreeSet.contains
only_root root path h = ground arith

-- A queued path is accounted for, and so stays every path that was.
pub queue_path-Accounts :
    (now : ℕ) (s : SubscriptionState) (path : FilePath)
    → Accounts (queue_path now s path) path
      × ((other : FilePath) → Accounts s other → Accounts (queue_path now s path) other)
unfolding queue_path
queue_path-Accounts now s path =
    let t = adopt_generation s in
    (
      ground (arith, BTreeSet.contains-insert path path t.pending_paths, =?_refl path, single path),
      λ other h. ground (
        arith,
        adopt_generation-Accounts s other h,
        BTreeSet.contains-insert other path t.pending_paths,
        BTreeSet.contains-insert t.root path t.pending_paths,
        only_root t.root path,
      ),
    )

stale :
    (s : SubscriptionState) (g : ℕ)
    → s.pending_generation ≡ some g
    → (g == s.selection_generation) ≡ false
    → ¬ IsCurrent s
stale s g e other (inl h) = ground arith
stale s g e other (inr h) = ground arith

-- What queueing a path does to the reason.
pub queue_path-reason :
    (now : ℕ) (s : SubscriptionState) (path : FilePath)
    → ((queue_path now s path).uncertain_reason ≡ s.uncertain_reason)
      ⊎ (((queue_path now s path).uncertain_reason ≡ some topology_race) × (¬ IsCurrent s))
unfolding queue_path adopt_generation
queue_path-reason now s path = elim (Option-cases s.pending_generation) [
  | inl e ↦ inl (ground arith)
  | inr (g, e) ↦ elim (Bool-cases (g == s.selection_generation)) [
    | inl same ↦ inl (ground arith)
    | inr other ↦ inr (ground arith, λ c. stale s g e other c)
  ]
]

coverage-uncertain :
    (s : SubscriptionState) (r : UncertainReason)
    → s.uncertain_reason ≡ some r
    → coverage s ≡ uncertain r
unfolding coverage
coverage-uncertain s r h = rw h refl

-- Some uncertainty is reported, and the given path is accounted for; and unless the policy has
-- changed since the first pending path, the reason is the strongest so far.
pub mark_uncertain-coverage :
    (now : ℕ) (s : SubscriptionState) (reason : UncertainReason) (path : FilePath)
    → let t = mark_uncertain now s reason path in
      Accounts t path
      × ((r : UncertainReason) × (coverage t ≡ uncertain r)
          × (IsCurrent s → r ≡ strongest_uncertainty s.uncertain_reason reason))
unfolding mark_uncertain
mark_uncertain-coverage now s reason path =
    let marked : SubscriptionState = record s {
      uncertainty_epoch = min (s.uncertainty_epoch + 1) u64_max;
      root_recovery = note_later reason s.root_recovery;
      uncertain_reason = some (strongest_uncertainty s.uncertain_reason reason);
    } in
    (
      (queue_path-Accounts now marked path).0,
      elim (queue_path-reason now marked path) [
        | inl same ↦ (_, coverage-uncertain _ _ same, λ c. refl)
        | inr (race, stale) ↦ (topology_race, coverage-uncertain _ _ race, λ c. absurd (stale c))
      ],
    )

strongest_partial-none : (rs : List PartialReason) → strongest_partial rs ≡ none → rs ≡ []
unfolding strongest_partial
strongest_partial-none [] h = refl
strongest_partial-none (r ∷ rs) h = absurd (ground arith)

nothing_partial :
    (ds : List (FilePath × DeferredInterest)) (ps : List FilePath)
    → strongest_partial (
        map (λ (d : DeferredInterest). d.reason) (BTreeMap.values ds)
        ++ (if is_empty ps then [] else (resource_limit ∷ [])))
      ≡ none
    → (ds ≡ []) × (ps ≡ [])
nothing_partial [] [] h = (refl, refl)
nothing_partial [] (p ∷ ps) h = absurd (ground (arith, strongest_partial-none _ h))
nothing_partial (d ∷ ds) ps h = absurd (ground (arith, strongest_partial-none _ h))

no_partial_reason :
    (s : SubscriptionState)
    → coverage_without_uncertainty s ≡ complete
    → current_partial_reason s ≡ none
unfolding coverage_without_uncertainty
no_partial_reason s h = ground arith

-- The coverage is complete exactly when nothing is uncertain, deferred or waiting to be promoted.
pub coverage-complete_iff :
    (s : SubscriptionState)
    → (coverage s ≡ complete)
      ↔ ((s.uncertain_reason ≡ none) × (s.deferred_directories ≡ []) × (s.pending_promotions ≡ []))
unfolding coverage current_partial_reason
coverage-complete_iff s = (reported, nothing_missing)
  where
    reported :
        coverage s ≡ complete
        → (s.uncertain_reason ≡ none) × (s.deferred_directories ≡ []) × (s.pending_promotions ≡ [])
    reported h =
        let certain : s.uncertain_reason ≡ none = ground arith in
        let whole : coverage_without_uncertainty s ≡ complete = ground arith in
        let (d, p) =
          nothing_partial s.deferred_directories s.pending_promotions (no_partial_reason s whole) in
        (certain, d, p)

    nothing_missing :
        (s.uncertain_reason ≡ none) × (s.deferred_directories ≡ []) × (s.pending_promotions ≡ [])
        → coverage s ≡ complete
    nothing_missing (u, d, p) =
        rw (u, coverage)
          (unfold coverage_without_uncertainty strongest_partial in
            rw (d, p, coverage_without_uncertainty) refl)

strongest_partial-bounds :
    (rs : List PartialReason) (strongest : PartialReason)
    → strongest_partial rs ≡ some strongest
    → All (λ r. partial_priority r ≤ partial_priority strongest) rs
unfolding strongest_partial
strongest_partial-bounds [] strongest h = tt
strongest_partial-bounds (r ∷ rs) strongest h = elim (Option-cases (strongest_partial rs)) [
  | inl e ↦ ground (arith, e, strongest_partial-none rs e)
  | inr (s, e) ↦ ground (arith, e, strongest_partial-bounds rs s e, weaker s strongest rs)
]
  where
    weaker :
        (s t : PartialReason) (rs : List PartialReason)
        → partial_priority s ≤ partial_priority t
        → All (λ r. partial_priority r ≤ partial_priority s) rs
        → All (λ r. partial_priority r ≤ partial_priority t) rs
    weaker s t [] h a = tt
    weaker s t (r ∷ rs) h a = (omega arith, weaker s t rs h a.1)

-- The path that is queued, and every path that was accounted for before, is accounted for after: by
-- name or by the root.
pub queue_path-keeps :
    (now : ℕ) (s : SubscriptionState) (path other : FilePath)
    → (other ≡ path) ⊎ Accounts s other
    → Accounts (queue_path now s path) other
queue_path-keeps now s path other (inl e) = rw e (queue_path-Accounts now s path).0
queue_path-keeps now s path other (inr h) = (queue_path-Accounts now s path).1 other h

-- From the least to the most serious.
abbrev severity : UncertainReason → ℕ
severity consumer_backpressure = 0
severity topology_race = 1
severity root_replaced = 2
severity event_overflow = 3

abbrev Covers : UncertainReason → Option UncertainReason → Type 0
Covers r none = Unit {0}
Covers r (some earlier) = severity earlier ≤ severity r

-- `r` is one of the earlier reason, if there is one, and the new one, and none of them is more
-- serious.
pub record IsStrongest (earlier : Option UncertainReason) (reason r : UncertainReason)
    : Type 0 where
  pub one_of : (earlier ≡ some r) ⊎ (reason ≡ r)
  pub covers_earlier : Covers r earlier
  pub covers_reason : severity reason ≤ severity r

strongest_uncertainty-IsStrongest :
    (earlier : Option UncertainReason) (reason : UncertainReason)
    → IsStrongest earlier reason (strongest_uncertainty earlier reason)
unfolding strongest_uncertainty
strongest_uncertainty-IsStrongest none reason = ground arith
strongest_uncertainty-IsStrongest (some consumer_backpressure) reason = ground arith
strongest_uncertainty-IsStrongest (some topology_race) reason = ground arith
strongest_uncertainty-IsStrongest (some root_replaced) reason = ground arith
strongest_uncertainty-IsStrongest (some event_overflow) reason = ground arith

-- When the pending paths, if any, were chosen under the current policy, marking uncertainty
-- accounts for the path and reports the more serious of the new reason and the one so far, an event
-- overflow being more serious than a replaced root, that than a topology race, and that than a
-- consumer that lags.
pub mark_uncertain-IsStrongest :
    (now : ℕ) (s : SubscriptionState) (reason : UncertainReason) (path : FilePath)
    → IsCurrent s
    → Accounts (mark_uncertain now s reason path) path
      × ((r : UncertainReason) × (coverage (mark_uncertain now s reason path) ≡ uncertain r)
          × IsStrongest s.uncertain_reason reason r)
mark_uncertain-IsStrongest now s reason path current =
    let law = mark_uncertain-coverage now s reason path in
    (
      law.0,
      (
        strongest_uncertainty s.uncertain_reason reason,
        law.1.1 ∙ ap uncertain (law.1.2 current),
        strongest_uncertainty-IsStrongest s.uncertain_reason reason,
      ),
    )
