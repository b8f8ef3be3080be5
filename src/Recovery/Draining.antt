-- ===== src/Recovery/Draining.antt =====
-- The draining of a root recovery, turn by turn.
use watchbound.Base.{ℕ, ◌+◌, ◌*◌, ◌<◌, ◌≡◌, length, arith, true}
use watchbound.State.{SubscriptionState}
use watchbound.Worker.Budget.{IsCounted}
use watchbound.Worker.Budget.Removing.{remove_interest-IsCounted}
use watchbound.Quantum.{done, turns, IsMeasured, turns-IsDone, IsDone-ends}
use watchbound.Teardown.{Torn}
use watchbound.Update.{max_topology_directories_per_turn}
use watchbound.Recovery.{drain_step, drain_fuel, is_drained}

unfoldable pub drain_items : Torn → ℕ
drain_items (w, s) =
    length s.watched_paths
    + length s.deferred_directories
    + length s.deferred_order
    + length s.pending_promotions
    + length s.topology_jobs

-- The transaction and its caller are as they were.
pub record IsDraining (s0 : SubscriptionState) (x : Torn) : Type 0 where
  pub recovery : x.1.root_recovery ≡ s0.root_recovery
  pub acknowledged : x.1.acknowledged ≡ s0.acknowledged
  pub counted : IsCounted x.0

pub record IsDrained (s0 : SubscriptionState) (x : Torn) (r : Unit {0}) : Type 0 where
  pub recovery : x.1.root_recovery ≡ s0.root_recovery
  pub acknowledged : x.1.acknowledged ≡ s0.acknowledged
  pub counted : IsCounted x.0
  pub empty : is_drained x.1 ≡ true

no_phases : Torn → ℕ
no_phases x = 0

drain_step-Measured :
    (s0 : SubscriptionState) (x : Torn)
    → IsDraining s0 x
    → IsMeasured drain_step (IsDraining s0) (IsDrained s0) drain_items no_phases x (drain_step x)
unfolding drain_step drain_items no_phases
drain_step-Measured s0 (w, s) v = grind (arith, remove_interest-IsCounted)

phases_small : (x : Torn) → max_topology_directories_per_turn + no_phases x < drain_fuel
unfolding no_phases
phases_small x = omega arith

-- Enough turns of 64 drain everything, and leave the transaction as it was.
pub drain_ends :
    (s0 : SubscriptionState) (x : Torn) (n : ℕ)
    → IsDraining s0 x
    → drain_items x < n * max_topology_directories_per_turn
    → (y : Torn) × (r : Unit {0}) × (turns drain_step n drain_fuel max_topology_directories_per_turn
          x
        ≡ done y r)
      × IsDrained s0 y r
drain_ends s0 x n v h =
    IsDone-ends drain_step (IsDraining s0) (IsDrained s0) drain_items no_phases _ (
      turns-IsDone drain_step (IsDraining s0) (IsDrained s0) drain_items no_phases
        (drain_step-Measured s0) n drain_fuel max_topology_directories_per_turn x v (phases_small x)
        h)
