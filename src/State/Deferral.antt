-- ===== src/State/Deferral.antt =====
-- Deferred directories as candidates for promotion, and the reasons they are kept under.
use watchbound.Base.{◌≤◌, ◌≡◌, [], ◌∷◌, true, false, Option, none, some, arith}
use watchbound.Order.{ℕ_ord, list_ord, ◌=?◌, eq_of_=?}
use watchbound.BTreeMap
use watchbound.BTreeSet
use watchbound.FilePath.{FilePath}
use watchbound.Types.{PartialReason, partial_priority}
use watchbound.State.{SubscriptionState, DeferredInterest, DeferredCause}
use watchbound.State.Deferred.{defer, stronger_interest}

-- Every deferred directory stands in the order in which promotion tries them.
abbrev pub IsOrdered : SubscriptionState → Type 0
IsOrdered s =
    (path : FilePath)
    → BTreeMap.contains_key path s.deferred_directories ≡ true
    → BTreeSet.contains path s.deferred_order ≡ true

-- A directory that was deferred: `entry` is what is recorded, and `ordered` that the promotion
-- order stays complete.
pub record IsDeferred (s : SubscriptionState) (path : FilePath) (reason : PartialReason)
    (t : SubscriptionState) : Type 0 where
  pub entry : DeferredInterest
  pub recorded : BTreeMap.lookup path t.deferred_directories ≡ some entry
  pub strong : partial_priority reason ≤ partial_priority entry.reason
  pub stronger :
      (old : DeferredInterest)
      → BTreeMap.lookup path s.deferred_directories ≡ some old
      → partial_priority old.reason ≤ partial_priority entry.reason
  pub others :
      (other : FilePath)
      → (path =? other) ≡ false
      → BTreeMap.lookup other t.deferred_directories ≡ BTreeMap.lookup other s.deferred_directories
  pub ordered : IsOrdered s → IsOrdered t

stronger_interest-le :
    (old : Option DeferredInterest) (reason : PartialReason) (cause : DeferredCause)
    → (partial_priority reason ≤ partial_priority (stronger_interest old reason cause).reason)
      × ((d : DeferredInterest)
          → old ≡ some d
          → partial_priority d.reason
            ≤ partial_priority (stronger_interest old reason cause).reason)
unfolding stronger_interest
stronger_interest-le none reason cause = (omega arith, λ d h. absurd (ground arith))
stronger_interest-le (some old) reason cause = (ground arith, λ d h. ground arith)

defer-IsOrdered :
    (s : SubscriptionState) (path : FilePath) (reason : PartialReason) (cause : DeferredCause)
    → IsOrdered s
    → IsOrdered (defer s path reason cause)
unfolding defer BTreeMap.contains_key
defer-IsOrdered s path reason cause v = λ other h.
    let old = BTreeMap.lookup path s.deferred_directories in
    let new = stronger_interest old reason cause in
    let appended = BTreeSet.contains-append other s.deferred_order (path ∷ []) in
    ground (
      arith,
      appended,
      v other,
      last path other,
      BTreeMap.lookup-insert_ne other path new s.deferred_directories,
      v path,
      eq_of_=? path other,
    )
  where
    last :
        (path other : FilePath)
        → (path =? other) ≡ true
        → BTreeSet.contains other (path ∷ []) ≡ true
    last path other e = unfold BTreeSet.contains in ground (arith, e)

-- Deferring records the directory under a reason at least as strong as the given one and as the one
-- before, leaves every other directory as it was, and keeps every deferred directory in the
-- promotion order if it was so before.
pub defer-IsDeferred :
    (s : SubscriptionState) (path : FilePath) (reason : PartialReason) (cause : DeferredCause)
    → IsDeferred s path reason (defer s path reason cause)
unfolding defer
defer-IsDeferred s path reason cause =
    let old = BTreeMap.lookup path s.deferred_directories in
    let new = stronger_interest old reason cause in
    record {
      entry = new;
      recorded = BTreeMap.lookup-insert_self path new s.deferred_directories;
      strong = (stronger_interest-le old reason cause).0;
      stronger = (stronger_interest-le old reason cause).1;
      others = λ other h. BTreeMap.lookup-insert_ne other path new s.deferred_directories h;
      ordered = defer-IsOrdered s path reason cause;
    }
