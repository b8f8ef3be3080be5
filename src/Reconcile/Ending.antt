-- ===== src/Reconcile/Ending.antt =====
-- The sweep of a reconciliation, to its end.
use watchbound.Base.{ℕ, ◌+◌, ◌<◌, ◌≡◌, refl, sym, subst, List, Bool, Option, none, some, arith, ◌*◌}
use watchbound.Order.{ℕ_ord, list_ord}
use watchbound.FilePath.{FilePath}
use watchbound.State.{
  waiting_for_topology, scanning, SubscriptionState, PendingReconciliation, ReconciliationPhase,
  sweeping_watched, sweeping_deferred, sweeping_deferred_order, sweeping_promotions,
}
use watchbound.Worker.{Worker}
use watchbound.Worker.Budget.{IsCounted}
use watchbound.Teardown.{Torn}
use watchbound.Update.Pruned.{IsOrdered}
use watchbound.Reconcile.{sweep_step, sweep_at, sweep_phase, sweep_fuel}
use watchbound.Reconcile.Sweeping.{
  at_place, IsSweptTo, entries_ahead, IsSweeping, IsReconciled, entries_of, items_of, left_of,
  phases_of, Measured,
}
use watchbound.Quantum.{turns, done, turns-IsDone, IsDone-ends}
use watchbound.Update.{max_topology_directories_per_turn}
use watchbound.Reconcile.Maps.{sweep_watched-Measured, sweep_deferred-Measured}
use watchbound.Reconcile.Lists.{sweep_order-Measured, sweep_promotions-Measured}

place_step :
    (r0 : PendingReconciliation) (order : List FilePath) (w : Worker) (s : SubscriptionState)
    (phase : ReconciliationPhase) (c : Option FilePath) (b : List FilePath)
    → s.reconciliation ≡ some (at_place r0 (record { phase = phase; sweep_after = c; rebuilt = b }))
    → IsOrdered s
    → IsSweptTo r0 order s (record { phase = phase; sweep_after = c; rebuilt = b }) phase
    → IsCounted w
    → Measured r0 order
        (w, s)
        (sweep_phase w s
          (at_place r0 (record { phase = phase; sweep_after = c; rebuilt = b }))
          phase)
unfolding sweep_phase
place_step r0 order w s waiting_for_topology c b h o v n = absurd v
place_step r0 order w s scanning c b h o v n = absurd v
place_step r0 order w s sweeping_watched c b h o v n =
    sweep_watched-Measured r0 order w s c b h o v n
place_step r0 order w s sweeping_deferred c b h o v n =
    sweep_deferred-Measured r0 order w s c b h o v n
place_step r0 order w s sweeping_deferred_order c b h o v n =
    sweep_order-Measured r0 order w s c b s.deferred_order refl h o v n
place_step r0 order w s sweeping_promotions c b h o v n =
    sweep_promotions-Measured r0 order w s c b h o v n

sweep_step-Measured :
    (r0 : PendingReconciliation) (order : List FilePath) (x : Torn)
    → IsSweeping r0 order x
    → Measured r0 order x (sweep_step x)
unfolding sweep_at
sweep_step-Measured r0 order (w, s) v =
    let p = v.place in
    subst (λ o. Measured r0 order (w, s) (sweep_at w s o)) (sym v.begun)
      (place_step r0 order w s p.phase p.sweep_after p.rebuilt v.begun v.ordered v.swept v.counted)

left_small : (o : Option PendingReconciliation) → left_of o < 4
unfolding left_of
left_small none = omega arith
left_small (some r) = ground arith

phases_small : (x : Torn) → max_topology_directories_per_turn + phases_of x < sweep_fuel
unfolding phases_of
phases_small (w, s) = omega (arith, left_small s.reconciliation)

few_items :
    (x : Torn) (n : ℕ) (r : PendingReconciliation)
    → x.1.reconciliation ≡ some r
    → entries_ahead x.1 r.sweep_after r.phase < n * max_topology_directories_per_turn
    → items_of x < n * max_topology_directories_per_turn
unfolding items_of entries_of
few_items (w, s) n r b h =
    subst (λ o. entries_of s o < n * max_topology_directories_per_turn) (sym b) h

-- From a sweep in progress, turns of 64 items, as many as its entries need, end it ready to commit:
-- every watched, deferred or waiting directory that is left was encountered by the scan, the
-- deferred order is the old one without what is no longer deferred, and the registry is still
-- counted.
pub sweep_ends :
    (r0 r : PendingReconciliation) (order : List FilePath) (x : Torn) (n : ℕ)
    → IsSweeping r0 order x
    → x.1.reconciliation ≡ some r
    → entries_ahead x.1 r.sweep_after r.phase < n * max_topology_directories_per_turn
    → (y : Torn) × (ready : Bool) × (turns sweep_step n sweep_fuel max_topology_directories_per_turn
          x
        ≡ done y ready)
      × IsReconciled r0 order y ready
sweep_ends r0 r order x n v b h =
    IsDone-ends sweep_step (IsSweeping r0 order) (IsReconciled r0 order) items_of phases_of _ (
      turns-IsDone sweep_step (IsSweeping r0 order) (IsReconciled r0 order) items_of phases_of
        (sweep_step-Measured r0 order) n sweep_fuel max_topology_directories_per_turn x v
        (phases_small x) (few_items x n r b h))
