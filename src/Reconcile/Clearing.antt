-- ===== src/Reconcile/Clearing.antt =====
-- What the commit of a reconciliation answers, sends and clears.
use watchbound.Base.{
  min, ltb-false→le, ltb→lt, ltb, ◌<◌, length, ◌≤◌, ℕ, ◌+◌, ◌-◌, ◌≡◌, ◌⊎◌, inl, inr, refl, List, [],
  ◌∷◌, Bool, true, false, none, some, arith, Bool-cases, if◌then◌else◌, ◌==◌, ap, sym, subst,
}
use watchbound.State.Queue.{u64_max, SendResult, mark_uncertain, taken}
use watchbound.Reconcile.Commit.{
  keep_boundary, clears_recoverable_uncertainty, result_of, boundary_of, answer, boundary_sent,
  boundary_dropped, after_boundary, commit_stable,
}
use watchbound.Error.{ErrorCode, Operation, error}
use watchbound.Result.{Result, ok, err}
use watchbound.Types.{
  uncertain, UncertainReason, consumer_backpressure, topology_race, event_overflow,
  uncertainty_priority, recoverable_uncertainty, ReconciliationResult, ChangeBatch,
}
use watchbound.State.{SubscriptionState, PendingReconciliation, reconciled, Acknowledgement, Output}
use watchbound.State.Observe.{
  coverage, coverage_without_uncertainty, current_partial_reason, deferred_count, root_state,
  publish_resource_counts,
}
use watchbound.State.Truth.{Accounts, queue_path-Accounts}
use watchbound.State.Sending.{
  IsUncertain, queue_path-IsUncertain, mark_uncertain-IsUncertain, try_send-sent, try_send-full,
  try_send-disconnected,
}
use watchbound.State.Delivery.{extended}
use watchbound.Worker.Hub.{Hub, publish_deferred_interest_count_with, publish_contribution}

abbrev pub answered :
    SubscriptionState → PendingReconciliation → Result ReconciliationResult → List Acknowledgement
answered s r value =
    (record { receiver = r.acknowledgement; generation = 0; value = reconciled value })
    ∷ s.acknowledged

-- A reconciliation settles every reason but the replacement of the root.
abbrev IsSettled : UncertainReason → Type 0
IsSettled reason =
    (reason ≡ event_overflow) ⊎ ((reason ≡ topology_race) ⊎ (reason ≡ consumer_backpressure))

-- Nothing was marked since the start, and what was uncertain then, if anything, can be settled.
abbrev pub IsClearable : SubscriptionState → PendingReconciliation → Type 0
IsClearable s r =
    (s.uncertainty_epoch ≡ r.starting_uncertainty_epoch)
    × (s.uncertain_reason ≡ r.starting_uncertainty)
    × ((s.uncertain_reason ≡ none)
        ⊎ ((reason : UncertainReason) × (s.uncertain_reason ≡ some reason) × IsSettled reason))

-- The root is sent, and the answer, the batch and the state agree on the coverage.
pub record IsReported (s : SubscriptionState) (r : PendingReconciliation) (t : SubscriptionState)
    : Type 0 where
  pub batch : ChangeBatch
  pub queued : t.output ≡ extended s.output batch
  pub numbered : batch.sequence ≡ s.next_sequence
  pub next_number : t.next_sequence ≡ min (s.next_sequence + 1) u64_max
  pub whole_root : batch.invalidated_paths ≡ s.root ∷ []
  pub policy : batch.exclusion_generation ≡ s.exclusion_generation
  pub same_root : batch.root_state ≡ root_state t
  pub same_coverage : batch.coverage ≡ coverage t
  pub replied :
      t.acknowledged
      ≡ answered s r
          (ok (record { exclusion_generation = s.exclusion_generation; coverage = coverage t }))
  pub emptied : t.pending_paths ≡ []
  pub had_room : (s.output.connected ≡ true) × (length s.output.queued < s.output.capacity)
  pub left :
      (IsClearable s r × (t.uncertain_reason ≡ none))
      ⊎ ((¬ IsClearable s r) × (t.uncertain_reason ≡ s.uncertain_reason))

-- Nothing is sent: the root is pending, the coverage uncertain and the caller told.
pub record IsUnreported (s : SubscriptionState) (r : PendingReconciliation) (t : SubscriptionState)
    : Type 0 where
  pub unsent : t.output ≡ s.output
  pub same_number : t.next_sequence ≡ s.next_sequence
  pub pending : Accounts t s.root
  pub replied :
      t.acknowledged
      ≡ answered s r (
          err (
            error
              (if s.output.connected
                then ErrorCode.consumer_backpressure
                else ErrorCode.subscription_closed)
              Operation.reconcile))
  pub no_room : (s.output.connected ≡ false) ⊎ (s.output.capacity ≤ length s.output.queued)
  pub reason : UncertainReason
  pub reported : coverage t ≡ uncertain reason

clearable :
    (s : SubscriptionState) (r : PendingReconciliation)
    → clears_recoverable_uncertainty s r ≡ true
    → IsClearable s r
unfolding clears_recoverable_uncertainty uncertainty_priority recoverable_uncertainty
clearable s r h = ground arith

unclearable :
    (s : SubscriptionState) (r : PendingReconciliation)
    → clears_recoverable_uncertainty s r ≡ false
    → ¬ IsClearable s r
unfolding clears_recoverable_uncertainty uncertainty_priority recoverable_uncertainty
unclearable s r h (e, same, inl none_left) = ground arith
unclearable s r h (e, same, inr (reason, left, settled)) = ground arith

sent-IsReported :
    (h : Hub) (s : SubscriptionState) (r : PendingReconciliation) (clears : Bool)
    → clears ≡ clears_recoverable_uncertainty s r
    → s.output.connected ≡ true
    → length s.output.queued < s.output.capacity
    → let closed : SubscriptionState =
        taken (record s { reconciliation = none; topology_barriers = s.topology_barriers - 1 }) in
      let result = result_of closed clears in
      IsReported s r
        (boundary_sent h
          (record closed { output = extended s.output (boundary_of closed result) })
          r
          clears
          result).1
unfolding boundary_sent answer publish_deferred_interest_count_with publish_contribution
    publish_resource_counts coverage coverage_without_uncertainty current_partial_reason
    deferred_count root_state result_of boundary_of
sent-IsReported h s r true e c n = record {
  batch = _;
  queued = refl;
  numbered = refl;
  next_number = refl;
  whole_root = refl;
  policy = refl;
  same_root = refl;
  same_coverage = refl;
  replied = refl;
  emptied = refl;
  had_room = (c, n);
  left = inl (clearable s r (sym e), refl);
}
sent-IsReported h s r false e c n = record {
  batch = _;
  queued = refl;
  numbered = refl;
  next_number = refl;
  whole_root = refl;
  policy = refl;
  same_root = refl;
  same_coverage = refl;
  replied = refl;
  emptied = refl;
  had_room = (c, n);
  left = inr (unclearable s r (sym e), refl);
}

abbrev code_if : Bool → ErrorCode
code_if connected =
    if connected then ErrorCode.consumer_backpressure else ErrorCode.subscription_closed

keep_boundary-IsUncertain :
    (now : ℕ) (s : SubscriptionState) (r : PendingReconciliation)
    → IsUncertain s (keep_boundary now s r)
unfolding keep_boundary
keep_boundary-IsUncertain now s r =
    queue_path-IsUncertain now s _ s.root
      (elim (s.uncertainty_epoch == r.starting_uncertainty_epoch)
        as (λ b. IsUncertain s (
          if b
          then record s {
            stats = record s.stats { batches_dropped = s.stats.batches_dropped + 1 };
            uncertain_reason = some consumer_backpressure;
          }
          else mark_uncertain now
              (record s {
                stats = record s.stats { batches_dropped = s.stats.batches_dropped + 1 };
              })
              consumer_backpressure s.root)) [
                | true ↦ record {
                  output = refl;
                  next_sequence = refl;
                  acknowledged = refl;
                  reason = consumer_backpressure;
                  left = refl;
                }
                | false ↦
                    let v =
                      mark_uncertain-IsUncertain now
                        (record s {
                          stats = record s.stats { batches_dropped = s.stats.batches_dropped + 1 };
                        })
                        consumer_backpressure s.root in
                    record {
                      output = v.output;
                      next_sequence = v.next_sequence;
                      acknowledged = v.acknowledged;
                      reason = v.reason;
                      left = v.left;
                    }
              ])

keep_boundary-Accounts :
    (now : ℕ) (s : SubscriptionState) (r : PendingReconciliation)
    → Accounts (keep_boundary now s r) s.root
unfolding keep_boundary
keep_boundary-Accounts now s r = (queue_path-Accounts now _ s.root).0

dropped-IsUnreported :
    (now : ℕ) (h : Hub) (s : SubscriptionState) (r : PendingReconciliation)
    → (s.output.connected ≡ false) ⊎ (s.output.capacity ≤ length s.output.queued)
    → let closed : SubscriptionState =
        taken (record s { reconciliation = none; topology_barriers = s.topology_barriers - 1 }) in
      IsUnreported s r (boundary_dropped now h closed r (code_if s.output.connected)).1
unfolding boundary_dropped answer publish_deferred_interest_count_with publish_contribution
    publish_resource_counts coverage
dropped-IsUnreported now h s r room =
    let closed : SubscriptionState =
      taken (record s { reconciliation = none; topology_barriers = s.topology_barriers - 1 }) in
    let v = keep_boundary-IsUncertain now closed r in
    record {
      unsent = v.output;
      same_number = v.next_sequence;
      pending = keep_boundary-Accounts now closed r;
      replied =
          ap
            (λ l.
              (record {
                receiver = r.acknowledgement;
                generation = 0;
                value = reconciled (err (error (code_if s.output.connected) Operation.reconcile));
              })
              ∷ l)
            v.acknowledged;
      no_room = room;
      reason = v.reason;
      reported = rw v.left refl;
    }

-- The commit of a reconciliation under a stable root either sends one batch that names the root,
-- the consumer being there with room, where batch, answer and state agree on the coverage, the
-- batch has the root state, and the uncertainty is cleared if nothing was marked since the start,
-- the reason is that of the start and it is not the replacement of the root, and kept otherwise;
-- or, without consumer or room, it sends nothing, answers with the fitting error, leaves the root
-- pending and the coverage uncertain.
pub commit_reconciliation-IsReported :
    (now : ℕ) (h : Hub) (s : SubscriptionState) (r : PendingReconciliation)
    → let t = (commit_stable now h s r).1 in IsReported s r t ⊎ IsUnreported s r t
unfolding commit_stable after_boundary
commit_reconciliation-IsReported now h s r =
    let closed : SubscriptionState =
      taken (record s { reconciliation = none; topology_barriers = s.topology_barriers - 1 }) in
    let clears = clears_recoverable_uncertainty s r in
    let result = result_of closed clears in
    let batch = boundary_of closed result in
    let after = λ (x : Output × SendResult). (after_boundary now h closed r clears result x).1 in
    let dropped = λ (code : ErrorCode). IsUnreported s r (boundary_dropped now h closed r code).1 in
    elim (Bool-cases s.output.connected) [
      | inl up ↦ elim (Bool-cases (ltb (length s.output.queued) s.output.capacity)) [
        | inl room ↦ inl (
            subst (λ x. IsReported s r (after x))
              (sym (try_send-sent s.output batch up (ltb→lt _ _ room)))
              (sent-IsReported h s r clears refl up (ltb→lt _ _ room)))
        | inr crowded ↦ inr (
            subst (λ x. IsUnreported s r (after x))
              (sym (try_send-full s.output batch up (ltb-false→le _ _ crowded)))
              (subst dropped (ap code_if up)
                (dropped-IsUnreported now h s r (inr (ltb-false→le _ _ crowded)))))
      ]
      | inr down ↦ inr (
          subst (λ x. IsUnreported s r (after x)) (sym (try_send-disconnected s.output batch down))
            (subst dropped (ap code_if down) (dropped-IsUnreported now h s r (inl down))))
    ]
