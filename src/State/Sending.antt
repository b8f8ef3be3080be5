-- ===== src/State/Sending.antt =====
-- `try_send` case by case, and what marking and queueing leave as they are.
use watchbound.Base.{ℕ, ◌≤◌, ◌<◌, ◌≡◌, inl, inr, refl, true, false, some, ◌∙◌, arith, length}
use watchbound.FilePath.{FilePath}
use watchbound.Types.{UncertainReason, topology_race, strongest_uncertainty, ChangeBatch}
use watchbound.State.{SubscriptionState, Output}
use watchbound.State.Queue.{
  queue_path, adopt_generation, mark_uncertain, try_send, sent, full, disconnected,
}
use watchbound.State.Truth.{queue_path-reason}
use watchbound.State.Delivery.{extended}

-- What they leave as they are, and that some uncertainty is left.
pub record IsUncertain (s t : SubscriptionState) : Type 0 where
  pub output : t.output ≡ s.output
  pub next_sequence : t.next_sequence ≡ s.next_sequence
  pub acknowledged : t.acknowledged ≡ s.acknowledged
  pub reason : UncertainReason
  pub left : t.uncertain_reason ≡ some reason

pub queue_path-IsUncertain :
    (now : ℕ) (s t : SubscriptionState) (path : FilePath)
    → IsUncertain s t
    → IsUncertain s (queue_path now t path)
unfolding queue_path adopt_generation
queue_path-IsUncertain now s t path v = elim (queue_path-reason now t path) [
  | inl same ↦ record {
    output = ground (arith, v.output);
    next_sequence = ground (arith, v.next_sequence);
    acknowledged = ground (arith, v.acknowledged);
    reason = v.reason;
    left = same ∙ v.left;
  }
  | inr (race, stale) ↦ record {
    output = ground (arith, v.output);
    next_sequence = ground (arith, v.next_sequence);
    acknowledged = ground (arith, v.acknowledged);
    reason = topology_race;
    left = race;
  }
]

pub mark_uncertain-IsUncertain :
    (now : ℕ) (s : SubscriptionState) (reason : UncertainReason) (path : FilePath)
    → IsUncertain s (mark_uncertain now s reason path)
unfolding mark_uncertain
mark_uncertain-IsUncertain now s reason path = queue_path-IsUncertain now s _ path (record {
  output = refl;
  next_sequence = refl;
  acknowledged = refl;
  reason = strongest_uncertainty s.uncertain_reason reason;
  left = refl;
})

pub try_send-sent :
    (o : Output) (b : ChangeBatch)
    → o.connected ≡ true
    → length o.queued < o.capacity
    → try_send o b ≡ (extended o b, sent)
unfolding try_send
try_send-sent o b c n = ground arith

pub try_send-full :
    (o : Output) (b : ChangeBatch)
    → o.connected ≡ true
    → o.capacity ≤ length o.queued
    → try_send o b ≡ (o, full)
unfolding try_send
try_send-full o b c n = ground arith

pub try_send-disconnected :
    (o : Output) (b : ChangeBatch) → o.connected ≡ false → try_send o b ≡ (o, disconnected)
unfolding try_send
try_send-disconnected o b c = ground arith
