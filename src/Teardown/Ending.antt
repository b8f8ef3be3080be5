-- ===== src/Teardown/Ending.antt =====
-- How a teardown ends: turn by turn it takes its items, phase by phase.
use watchbound.Base.{ℕ, ◌≡◌, Option, none, some}
use watchbound.Pending.{CompletedEstablishmentTeardown}
use watchbound.State.{PendingEstablishmentTeardown, EstablishmentTeardownPhase}
use watchbound.Worker.{Worker}
use watchbound.Worker.Budget.{IsCounted}
use watchbound.Quantum.{Step, IsMeasured}
use watchbound.Teardown.{Torn, teardown_step}
use watchbound.Teardown.Items.{items_left, phases_left, IsEmptied}

-- A teardown that `t0` began: only its phase has changed, and its earlier phases are emptied.
pub record IsTearing (t0 : PendingEstablishmentTeardown) (x : Torn) : Type 0 where
  pub phase : EstablishmentTeardownPhase
  pub begun : x.1.establishment_teardown ≡ some (record t0 { phase = phase })
  pub emptied : IsEmptied (phases_left phase) x.1
  pub counted : IsCounted x.0

-- Nothing of the subscription is left, and the result is what `t0` asked for.
pub record IsTorn (t0 : PendingEstablishmentTeardown) (x : Torn)
    (r : Option CompletedEstablishmentTeardown) : Type 0 where
  pub completed :
      r
      ≡ some (record {
        generation = t0.generation;
        acknowledgement = t0.acknowledgement;
        cancellation = t0.cancellation;
        terminal_error = t0.terminal_error;
      })
  pub ended : x.1.establishment_teardown ≡ none
  pub emptied : IsEmptied 0 x.1
  pub counted : IsCounted x.0

phases_of : Torn → ℕ
phases_of (w, s) = elim s.establishment_teardown [ none ↦ 0 | some t ↦ phases_left t.phase ]

items_of : Torn → ℕ
items_of (w, s) = items_left s

abbrev Measured :
    PendingEstablishmentTeardown → Torn → Step Torn (Option CompletedEstablishmentTeardown) → Type 0
Measured t0 = IsMeasured teardown_step (IsTearing t0) (IsTorn t0) items_of phases_of
