-- ===== src/Tests.antt =====
-- The theorems at concrete inputs: the small components. Subscriptions, policies and watches are
-- in the children.
use watchbound.Fair.Service.{Leaves, Op, schedules, pops, measures, served, served_within}
pub mod States
pub mod Policies
pub mod Watches
pub mod Turns
pub mod Transactions
pub mod Records
use watchbound.Base.{
  ◌++◌, ℕ, suc, ◌+◌, ◌*◌, ◌<◌, ◌≤◌, ◌≡◌, ◌↔◌, ◌⊎◌, inl, inr, refl, List, [], ◌∷◌, Bool, true, false,
  not, ◌||◌, Option, none, some, arith, length, All,
}
use watchbound.Order.{ℕ_ord, ◌=?◌}
use watchbound.BTreeSet
use watchbound.Attempt.{Attempt, AttemptState, succeeded, created, bound, bind, request_cancel}
use watchbound.Attempt.Race.{decided, decisions, weight, decided_once, decision_final}
use watchbound.Attempt.Race as Race
use watchbound.Attempt.Loops.{
  Round, ops_of, bind_loop, request_cancel_loop, bind_loop-bind, request_cancel_loop-request_cancel,
}
use watchbound.Attempt.Ids.{allocations, CountsUp, allocations-CountsUp}
use watchbound.Fair.{FairIdQueue, contains, schedule, pop_next}
use watchbound.Fair.Invariant.{IsValid, PopsOne, pop_next-PopsOne, contains-schedule}
use watchbound.Error.{bounded_message}
use watchbound.Error.Message.{IsBoundedPrefix, bounded_message-IsBoundedPrefix}
use watchbound.Types.{SubscriptionOptions, default_options, validate}
use watchbound.Types.Options.{IsPositive, validate_iff}
use watchbound.Result.{ok}
use watchbound.Lifecycle as Lifecycle
use watchbound.Lifecycle.{
  System, Phase, idle, active, Event, transacts, enters, acknowledged, disposes, finishes,
  replace_exclusions,
}
use watchbound.Lifecycle.Exclusive.{IsOrderly, total, run-IsOrderly}
use watchbound.Lifecycle.Outcome.{Agrees, run-Agrees}

abbrev open_subscription : System
open_subscription = record {
  control = record {
    lifecycle = active;
    exclusion_generation = 0;
    topology_transaction_in_flight = false;
  };
  threads = idle ∷ idle ∷ idle ∷ [];
}

open_subscription-IsOrderly : IsOrderly open_subscription
unfolding total
open_subscription-IsOrderly = record {
  flag = refl;
  owners = refl;
  waiters = omega arith;
  drained = λ h. refl;
}

-- A disposal overtakes a replacement of exclusions, and a second disposal waits for it.
abbrev overtaken : List (ℕ × Event)
overtaken =
    (0, transacts (replace_exclusions 1))
    ∷ (0, enters (ok tt))
    ∷ (1, disposes)
    ∷ (2, disposes)
    ∷ (1, finishes (ok tt) (ok tt))
    ∷ (0, acknowledged (ok tt))
    ∷ (1, finishes (ok tt) (ok tt))
    ∷ (2, disposes)
    ∷ []

run-IsOrderly_example : IsOrderly (Lifecycle.run open_subscription overtaken)
run-IsOrderly_example = run-IsOrderly open_subscription overtaken open_subscription-IsOrderly

run-Agrees_example :
    All
      (Agrees (Lifecycle.run open_subscription overtaken).control.lifecycle)
      (Lifecycle.run open_subscription overtaken).threads
run-Agrees_example =
    run-Agrees open_subscription overtaken open_subscription-IsOrderly (tt, (tt, (tt, tt)))

abbrev new_attempt : Attempt
new_attempt = record { id = 1; state = created; runtime = none }

abbrev bound_attempt : Attempt
bound_attempt = record { id = 1; state = bound; runtime = some 4 }

abbrev done_attempt : Attempt
done_attempt = record { id = 1; state = succeeded; runtime = none }

abbrev race : List Race.Op
race = Race.binds ∷ Race.cancels ∷ Race.commits ∷ Race.finishes ∷ []

decided_once_example :
    decisions new_attempt race + weight (decided new_attempt.state)
    ≡ weight (decided (Race.run new_attempt race).state)
decided_once_example = decided_once new_attempt race

decision_final_example :
    (decided (Race.run done_attempt race).state ≡ some Race.succeeds)
    × (decisions done_attempt race ≡ 0)
decision_final_example = decision_final done_attempt race Race.succeeds refl

abbrev contended : List Round
contended = ([], Race.cancels ∷ []) ∷ ([], []) ∷ ([], []) ∷ []

bind_loop-bind_example :
    (ops : List Race.Op) × (rest : List Race.Op) × (ops_of contended ≡ ops ++ rest)
    × (bind_loop new_attempt contended ≡ some (bind (Race.run new_attempt ops), rest))
bind_loop-bind_example = bind_loop-bind new_attempt contended (omega arith)

request_cancel_loop-request_cancel_example :
    (ops : List Race.Op) × (rest : List Race.Op) × (ops_of contended ≡ ops ++ rest)
    × (request_cancel_loop bound_attempt contended
        ≡ some (request_cancel (Race.run bound_attempt ops), rest))
request_cancel_loop-request_cancel_example =
    request_cancel_loop-request_cancel bound_attempt contended (omega arith)

abbrev busy : FairIdQueue
busy = record { current_round = 2 ∷ 5 ∷ []; next_round = 3 ∷ [] }

abbrev turns : List Op
turns = pops ∷ schedules 2 ∷ pops ∷ measures ∷ schedules 5 ∷ pops ∷ pops ∷ pops ∷ pops ∷ pops ∷ []

abbrev live : List ℕ
live = 2 ∷ 3 ∷ 5 ∷ []

busy-IsValid : IsValid busy
unfolding BTreeSet.contains
busy-IsValid = record {
  current_sorted = ((refl, tt), (tt, tt));
  next_sorted = (tt, tt);
  disjoint = λ id h. ground arith;
}

busy-live : (j : ℕ) → contains busy j ≡ true → BTreeSet.contains j live ≡ true
unfolding contains BTreeSet.contains
busy-live j h = ground arith

waiting : contains busy 3 ≡ true
unfolding contains BTreeSet.contains
waiting = refl

turns-Leaves : Leaves live 3 turns
unfolding BTreeSet.contains
turns-Leaves = (refl, (refl, tt))

served_within_example : BTreeSet.contains 3 (served busy turns) ≡ true
served_within_example =
    served_within live 3 busy turns ((refl, (refl, tt)), ((refl, tt), (tt, tt))) busy-IsValid
      busy-live waiting turns-Leaves (omega arith)

bounded_message-IsBoundedPrefix_example :
    IsBoundedPrefix (226 ∷ 130 ∷ 172 ∷ []) (bounded_message (226 ∷ 130 ∷ 172 ∷ []))
bounded_message-IsBoundedPrefix_example = bounded_message-IsBoundedPrefix (226 ∷ 130 ∷ 172 ∷ [])
