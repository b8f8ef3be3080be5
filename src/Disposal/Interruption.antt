-- ===== src/Disposal/Interruption.antt =====
-- What a disposal does to the transactions that are pending, from its begin to its end.
use watchbound.Base.{
  ℕ, suc, ◌≡◌, ◌⊎◌, inl, inr, refl, false, Option, none, some, arith, Option-cases, if◌then◌else◌,
}
use watchbound.Order.{ℕ_ord}
use watchbound.BTreeSet
use watchbound.Error.{Operation, WatchboundError}
use watchbound.Attempt.{Attempt, try_commit_failure, operation_cancelled_error}
use watchbound.Fair.{FairIdQueue, contains, remove}
use watchbound.Fair.Invariant.{IsValid}
use watchbound.Pending.{CompletedDisposal, CompletedEstablishmentTeardown, DisposalAcknowledgement}
use watchbound.State.{SubscriptionState}
use watchbound.Worker.{Worker}
use watchbound.Worker.Hub.{Hub}
use watchbound.Worker.Budget.{IsCounted}
use watchbound.Quantum.{done, turns}
use watchbound.Teardown.{Torn}
use watchbound.Disposal.{
  Begun, begin_subscription_disposal, interrupted, disposing, disposal_of, interrupt_establishment,
}
use watchbound.Disposal.Turns.{disposal_step, disposal_fuel, max_disposal_items_per_turn}
use watchbound.Disposal.Ending.{IsDisposing, disposal_ends, disposal_items}
use watchbound.Disposal.Interrupted.{IsEnded, IsTakenOver, IsInterrupted, IsGone}

-- The error by which an establishment ends.
terminal_of : Attempt → WatchboundError
terminal_of a =
    if (try_commit_failure a).1 then interrupted Operation.subscribe else operation_cancelled_error

try_commit_failure-IsEnded : (a : Attempt) → IsEnded a (try_commit_failure a).0 (terminal_of a)
unfolding try_commit_failure operation_cancelled_error terminal_of
try_commit_failure-IsEnded a = ground arith

interrupt_establishment-IsTakenOver :
    (attempts : ℕ → Attempt) (s : SubscriptionState)
    → IsTakenOver attempts s
        (interrupt_establishment attempts s).0
        (interrupt_establishment attempts s).1
unfolding interrupt_establishment terminal_of
interrupt_establishment-IsTakenOver attempts s = elim (Option-cases s.establishment) [
  | inl none_begun ↦ elim (Option-cases s.establishment_teardown) [
    | inl none_torn ↦ inr (inr (ground arith))
    | inr (t, tearing) ↦ inr (inl (t, none_begun, tearing, ground arith, ground arith))
  ]
  | inr (e, begun) ↦ inl (
    e,
    begun,
    (try_commit_failure (attempts e.cancellation)).0,
    ground arith,
    terminal_of (attempts e.cancellation),
    try_commit_failure-IsEnded (attempts e.cancellation),
    ground arith,
  )
]

contains-remove_self : (q : FairIdQueue) (id : ℕ) → IsValid q → contains (remove q id).0 id ≡ false
unfolding contains remove
contains-remove_self q id v = rw (
  BTreeSet.contains-remove_self id q.current_round v.current_sorted,
  BTreeSet.contains-remove_self id q.next_round v.next_sorted,
)

-- The state after a begin.
begun : (ℕ → Attempt) → Hub → SubscriptionState → Option DisposalAcknowledgement → Begun
begun attempts h s acknowledgement = record {
  hub = record h {
    topology_runnable = (remove h.topology_runnable s.id).0;
    allocator_order = (remove h.allocator_order s.id).0;
  };
  state = disposing s acknowledgement (interrupt_establishment attempts s).1;
  attempt = (interrupt_establishment attempts s).0;
}

begin_subscription_disposal-begun :
    (attempts : ℕ → Attempt) (h : Hub) (s : SubscriptionState)
    (acknowledgement : Option DisposalAcknowledgement)
    → s.disposal ≡ none
    → begin_subscription_disposal attempts h s acknowledgement
      ≡ some (begun attempts h s acknowledgement)
unfolding begin_subscription_disposal begun
begin_subscription_disposal-begun attempts h s acknowledgement e = ground arith

begun-IsInterrupted :
    (attempts : ℕ → Attempt) (h : Hub) (s : SubscriptionState)
    (acknowledgement : Option DisposalAcknowledgement)
    → (s.establishment ≡ none) ⊎ (s.establishment_teardown ≡ none)
    → IsValid h.topology_runnable
    → IsValid h.allocator_order
    → IsInterrupted s (begun attempts h s acknowledgement)
unfolding begun disposing
begun-IsInterrupted attempts h s acknowledgement one v w = record {
  no_update = refl;
  no_reconciliation = refl;
  no_recovery = refl;
  no_establishment = refl;
  no_teardown = ground arith;
  no_barrier = refl;
  answered = ground arith;
  no_topology_turn = contains-remove_self h.topology_runnable s.id v;
  no_promotion = contains-remove_self h.allocator_order s.id w;
}

disposing-IsDisposing :
    (w : Worker) (s : SubscriptionState) (acknowledgement : Option DisposalAcknowledgement)
    (taken : Option CompletedEstablishmentTeardown)
    → IsCounted w
    → IsDisposing (disposal_of s acknowledgement taken) (w, disposing s acknowledgement taken)
unfolding disposing
disposing-IsDisposing w s acknowledgement taken c = record {
  current = _;
  begun = refl;
  acknowledgement = refl;
  establishment = refl;
  cleared = ground arith;
  counted = c;
}

disposing-disposal :
    (s : SubscriptionState) (acknowledgement : Option DisposalAcknowledgement)
    (taken : Option CompletedEstablishmentTeardown)
    → (disposing s acknowledgement taken).disposal ≡ some (disposal_of s acknowledgement taken)
unfolding disposing
disposing-disposal s acknowledgement taken = refl

-- When no disposal is pending, not both an establishment and a teardown are, the fair queues are
-- valid and the registry is counted, the begin of a disposal succeeds: each transaction that was
-- pending is gone and answered once as interrupted, and the subscription is in no fair queue.
-- Enough turns that follow, of 64 items each, end: nothing of the subscription is left but names,
-- the registry is still counted, and the result names who waits for the disposal and for the
-- establishment that it took over, which ends as interrupted if its attempt was bound and undecided
-- and as cancelled otherwise, or as its teardown had it.
pub begin_subscription_disposal-IsInterrupted :
    (attempts : ℕ → Attempt) (h : Hub) (s : SubscriptionState)
    (acknowledgement : Option DisposalAcknowledgement)
    → s.disposal ≡ none
    → (s.establishment ≡ none) ⊎ (s.establishment_teardown ≡ none)
    → IsValid h.topology_runnable
    → IsValid h.allocator_order
    → IsCounted h.worker
    → (b : Begun) × (begin_subscription_disposal attempts h s acknowledgement ≡ some b)
      × IsInterrupted s b
      × ((n : ℕ) × (y : Torn) × (r : Option CompletedDisposal) × (turns disposal_step n
              disposal_fuel max_disposal_items_per_turn
              (b.hub.worker, b.state)
            ≡ done y r)
          × IsGone attempts s acknowledgement b.attempt y r)
unfolding begun
begin_subscription_disposal-IsInterrupted attempts h s acknowledgement e one v w c =
    let taken = (interrupt_establishment attempts s).1 in
    let d = disposal_of s acknowledgement taken in
    let t = disposing s acknowledgement taken in
    let n = suc (disposal_items t d) in
    let (y, r, ends, gone) =
      disposal_ends d d (h.worker, t) n (disposing-IsDisposing h.worker s acknowledgement taken c)
        (disposing-disposal s acknowledgement taken) (omega arith) in
    (
      begun attempts h s acknowledgement,
      begin_subscription_disposal-begun attempts h s acknowledgement e,
      begun-IsInterrupted attempts h s acknowledgement one v w,
      (
        n,
        y,
        r,
        ends,
        record {
          taken = taken;
          taken_over = interrupt_establishment-IsTakenOver attempts s;
          completed = gone.completed;
          ended = gone.ended;
          emptied = gone.emptied;
          no_policy = gone.policy;
          no_identities = gone.identities;
          counted = gone.counted;
        },
      ),
    )
