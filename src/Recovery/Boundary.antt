-- ===== src/Recovery/Boundary.antt =====
-- What the commit and the failure of a root recovery answer, and which uncertainty is left.
use watchbound.Base.{
  ℕ, ◌+◌, ◌≤◌, ◌<◌, ◌≡◌, ◌⊎◌, inl, inr, refl, ◌∷◌, true, false, none, some, ap, ◌∙◌, sym, subst,
  arith, length, Bool-cases, ltb, ltb→lt, ltb-false→le,
}
use watchbound.State.Queue.{
  queue_path, adopt_generation, SendResult, sent, try_send, mark_uncertain,
}
use watchbound.Result.{ok}
use watchbound.Types.{UncertainReason, consumer_backpressure}
use watchbound.State.{SubscriptionState, PendingRootRecovery, recovered, Output}
use watchbound.State.Observe.{
  Host, coverage, coverage_without_uncertainty, current_partial_reason, deferred_count, root_state,
  publish_resource_counts, publish_root_state, reset_observed_boundary_identities,
}
use watchbound.FilePath.{FilePath}
use watchbound.State.Truth.{mark_uncertain-coverage}
use watchbound.State.Delivery.{extended}
use watchbound.Worker.Hub.{Hub, publish_deferred_interest_count_with, publish_contribution}
use watchbound.State.Sending.{
  mark_uncertain-IsUncertain, try_send-sent, try_send-full, try_send-disconnected,
}
use watchbound.Recovery.{
  commit_recovery, commit_root_recovery, attach_root, attached_result, recovery_boundary,
  recovery_dropped, after_recovery_boundary,
}
use watchbound.Recovery.Attached.{
  IsAttached, IsBounded, IsUnbounded, attachment_of-IsNamed, remaining_uncertainty-IsLeft,
}

sent-IsBounded :
    (host : Host) (s : SubscriptionState) (r : PendingRootRecovery)
    → let u = publish_contribution (attach_root host s r) in
      let t =
        after_recovery_boundary host.now u r (extended u.output (recovery_boundary u), sent) in
      IsAttached s r t × IsBounded s r t
unfolding after_recovery_boundary attach_root publish_contribution publish_resource_counts
    publish_root_state reset_observed_boundary_identities coverage coverage_without_uncertainty
    current_partial_reason deferred_count root_state recovery_boundary attached_result
sent-IsBounded host s r = (
  record {
    identity = refl;
    generation = refl;
    present = refl;
    unmarked = refl;
    published = refl;
    over = refl;
  },
  record {
    batch = _;
    queued = refl;
    numbered = refl;
    next_number = refl;
    whole_root = refl;
    new_root = refl;
    policy = refl;
    same_coverage = refl;
    result = _;
    replied = refl;
    answer = record {
      attachment = attachment_of-IsNamed r;
      no_failure = refl;
      previous = refl;
      candidate = refl;
      current = refl;
      policy = refl;
      reported = refl;
      boundary = refl;
    };
    left = remaining_uncertainty-IsLeft s r;
    emptied = refl;
  },
)

-- What marking leaves of the root.
record IsRooted (s t : SubscriptionState) : Type 0 where
  identity : t.root_identity ≡ s.root_identity
  generation : t.root_generation ≡ s.root_generation
  present : t.root_lost ≡ s.root_lost
  unmarked : t.root_loss_evidence ≡ s.root_loss_evidence
  published : t.published_root_state ≡ s.published_root_state
  policy : t.exclusion_generation ≡ s.exclusion_generation
  over : s.root_recovery ≡ none → t.root_recovery ≡ none

mark_uncertain-IsRooted :
    (now : ℕ) (s : SubscriptionState) (reason : UncertainReason) (path : FilePath)
    → IsRooted s (mark_uncertain now s reason path)
unfolding mark_uncertain queue_path adopt_generation
mark_uncertain-IsRooted now s reason path = ground arith

root_state-same : (s t : SubscriptionState) → IsRooted s t → root_state t ≡ root_state s
unfolding root_state
root_state-same s t a = rw (a.generation, a.identity, a.present, a.unmarked) refl

dropped-IsUnbounded :
    (host : Host) (s : SubscriptionState) (r : PendingRootRecovery)
    → let t = recovery_dropped host.now (publish_contribution (attach_root host s r)) r in
      IsAttached s r t × IsUnbounded s r t
unfolding recovery_dropped attach_root publish_contribution publish_resource_counts
    publish_root_state reset_observed_boundary_identities coverage coverage_without_uncertainty
    current_partial_reason deferred_count root_state attached_result
dropped-IsUnbounded host s r =
    let u = publish_contribution (attach_root host s r) in
    let d : SubscriptionState = record u {
      stats = record u.stats { batches_dropped = u.stats.batches_dropped + 1 };
    } in
    let marked = mark_uncertain host.now d consumer_backpressure d.root in
    let v = mark_uncertain-IsUncertain host.now d consumer_backpressure d.root in
    let w = mark_uncertain-coverage host.now d consumer_backpressure d.root in
    let a = mark_uncertain-IsRooted host.now d consumer_backpressure d.root in
    (
      record {
        identity = a.identity;
        generation = a.generation;
        present = a.present;
        unmarked = a.unmarked;
        published = a.published;
        over = a.over refl;
      },
      record {
        unsent = v.output;
        same_number = v.next_sequence;
        pending = w.0;
        result = _;
        answer = record {
          attachment = attachment_of-IsNamed r;
          no_failure = refl;
          previous = refl;
          candidate = refl;
          current = root_state-same d marked a ∙ sym a.published;
          policy = a.policy;
          reported = refl;
          boundary = refl;
        };
        replied =
            ap
              (λ l.
                (record {
                  receiver = r.acknowledgement;
                  generation = 0;
                  value = recovered (ok (attached_result marked r (coverage marked) none));
                })
                ∷ l)
              v.acknowledged;
        reason = v.reason;
        reported = rw v.left refl;
      },
    )

-- The boundary is sent if and only if there is a consumer with room.
abbrev pub Committed : SubscriptionState → PendingRootRecovery → SubscriptionState → Type 0
Committed s r t =
    IsAttached s r t
    × ((IsBounded s r t
          × (s.output.connected ≡ true)
          × (length s.output.queued < s.output.capacity))
        ⊎ (IsUnbounded s r t
            × ((s.output.connected ≡ false) ⊎ (s.output.capacity ≤ length s.output.queued))))

attach_root-output :
    (host : Host) (s : SubscriptionState) (r : PendingRootRecovery)
    → (publish_contribution (attach_root host s r)).output ≡ s.output
unfolding attach_root publish_contribution publish_resource_counts publish_root_state
    reset_observed_boundary_identities
attach_root-output host s r = refl

boundary_cases :
    (host : Host) (s : SubscriptionState) (r : PendingRootRecovery)
    → let u = publish_contribution (attach_root host s r) in
      Committed s r (after_recovery_boundary host.now u r (try_send u.output (recovery_boundary u)))
unfolding after_recovery_boundary
boundary_cases host s r =
    let u = publish_contribution (attach_root host s r) in
    let batch = recovery_boundary u in
    let after =
      λ (x : Output × SendResult). Committed s r (after_recovery_boundary host.now u r x) in
    let (a, b) = dropped-IsUnbounded host s r in
    let same = attach_root-output host s r in
    elim (Bool-cases u.output.connected) [
      | inl up ↦ elim (Bool-cases (ltb (length u.output.queued) u.output.capacity)) [
        | inl room ↦
            let (c, d) = sent-IsBounded host s r in
            subst after (sym (try_send-sent u.output batch up (ltb→lt _ _ room))) (
              c,
              inl (
                d,
                subst (λ o. o.connected ≡ true) same up,
                subst (λ o. length o.queued < o.capacity) same (ltb→lt _ _ room),
              ),
            )
        | inr crowded ↦
            subst after (sym (try_send-full u.output batch up (ltb-false→le _ _ crowded))) (
              a,
              inr (
                b,
                inr (subst (λ o. o.capacity ≤ length o.queued) same (ltb-false→le _ _ crowded)),
              ),
            )
      ]
      | inr down ↦
          subst after (sym (try_send-disconnected u.output batch down))
            (a, inr (b, inl (subst (λ o. o.connected ≡ false) same down)))
    ]

-- When a recovery is pending, its commit makes the candidate the root under the next generation, up
-- to the largest u64, attached and with no loss evidence, and publishes that. If the consumer is
-- there and has room, one batch that names the root is sent, and batch and answer agree with the
-- state on number, published root and coverage; the uncertainty is kept unless it was the root loss
-- at the start, and then is the later reason, or without one is gone if nothing was marked since.
-- Otherwise nothing is sent, the root is pending, the coverage uncertain, and the answer names no
-- batch. Either answer says whether the original root is restored or a replacement adopted, and
-- tells the previous root, the candidate and the coverage of the state.
pub commit_root_recovery-IsAttached :
    (host : Host) (h : Hub) (s : SubscriptionState) (r : PendingRootRecovery)
    → s.root_recovery ≡ some r
    → Committed s r (commit_root_recovery host h s).1
unfolding commit_root_recovery commit_recovery publish_deferred_interest_count_with
commit_root_recovery-IsAttached host h s r e =
    subst (λ o. Committed s r (commit_recovery host h s o).1) (sym e) (boundary_cases host s r)
