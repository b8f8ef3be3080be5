-- ===== src/Tests/Turns.antt =====
-- Turns of teardown, disposal, transactions and topology at concrete inputs.
use watchbound.Base.{ℕ, ◌≡◌, inr, refl, [], ◌∷◌, Option, none, some, arith}
use watchbound.Order.{ℕ_ord, list_ord}
use watchbound.Attempt.{Attempt, bound}
use watchbound.Pending.{PendingDisposal, CompletedDisposal}
use watchbound.Fair.Invariant.{IsValid}
use watchbound.State.{SubscriptionState, PendingEstablishmentTeardown, EstablishmentTeardownPhase}
use watchbound.BTreeSet
use watchbound.Quantum.{turns, done}
use watchbound.Teardown.{Torn}
use watchbound.Teardown.Items.{items_left, job_items}
use watchbound.Disposal.{Begun, begin_subscription_disposal, disposal_of, disposing}
use watchbound.Disposal.Turns.{disposal_step, disposal_fuel, max_disposal_items_per_turn}
use watchbound.Disposal.Ending.{
  IsDisposing, IsDisposed, disposal_ends, disposal_items, cleanup_items, nested_items,
  policies_items,
}
use watchbound.Disposal.Interrupted.{IsInterrupted, IsGone}
use watchbound.Disposal.Interruption.{begin_subscription_disposal-IsInterrupted}
use watchbound.Tests.States.{src, settled, updating}
use watchbound.Tests.Watches.{registry, registry-IsCounted, hub}

abbrev teardown : PendingEstablishmentTeardown
teardown = record {
  generation = 3;
  acknowledgement = some 8;
  cancellation = 1;
  terminal_error = none;
  phase = EstablishmentTeardownPhase.pending_paths;
}

abbrev tearing : Torn
tearing =
    (registry, record settled { establishment_teardown = some teardown; pending_paths = src ∷ [] })

abbrev attempts : ℕ → Attempt
attempts id = record { id = id; state = bound; runtime = some 4 }

-- An exclusion update and an establishment are pending.
abbrev starting : SubscriptionState
starting = record updating {
  establishment = some (record { generation = 2; acknowledgement = 6; cancellation = 1 });
}

no_turns : IsValid hub.topology_runnable
unfolding BTreeSet.contains
no_turns = record { current_sorted = tt; next_sorted = tt; disjoint = λ id h. ground arith }

begin_subscription_disposal-IsInterrupted_example :
    (b : Begun) × (begin_subscription_disposal attempts hub starting
        (some (record { generation = 4; sender = 9 }))
      ≡ some b)
    × IsInterrupted starting b
    × ((n : ℕ) × (y : Torn) × (r : Option CompletedDisposal) × (turns disposal_step n disposal_fuel
            max_disposal_items_per_turn
            (b.hub.worker, b.state)
          ≡ done y r)
        × IsGone attempts starting (some (record { generation = 4; sender = 9 })) b.attempt y r)
begin_subscription_disposal-IsInterrupted_example =
    begin_subscription_disposal-IsInterrupted attempts hub starting
      (some (record { generation = 4; sender = 9 })) refl (inr refl) no_turns no_turns
      registry-IsCounted

abbrev disposal : PendingDisposal
disposal = disposal_of updating (some (record { generation = 4; sender = 9 })) none

abbrev disposed : Torn
disposed = (registry, disposing updating (some (record { generation = 4; sender = 9 })) none)

disposed-IsDisposing : IsDisposing disposal disposed
unfolding disposing
disposed-IsDisposing = record {
  current = disposal;
  begun = refl;
  acknowledgement = refl;
  establishment = refl;
  cleared = ground arith;
  counted = registry-IsCounted;
}

disposal_ends_example :
    (y : Torn) × (r : Option CompletedDisposal) × (turns disposal_step 1 disposal_fuel
        max_disposal_items_per_turn disposed
      ≡ done y r)
    × IsDisposed disposal y r
unfolding disposing disposal_items items_left job_items cleanup_items nested_items policies_items
disposal_ends_example =
    disposal_ends disposal disposal disposed 1 disposed-IsDisposing refl (omega arith)
