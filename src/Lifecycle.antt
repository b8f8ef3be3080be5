-- ===== src/Lifecycle.antt =====
-- `SubscriptionControl` (engine/src/lib.rs): topology transactions and disposal by the threads
-- that share a subscription. A thread's call is cut at its atomic operations and its waits; the
-- runtime's answers come with the moves.
pub mod Exclusive
pub mod Outcome
use watchbound.Base.{
  ℕ, zero, suc, List, [], ◌∷◌, Bool, true, false, Option, none, some, if◌then◌else◌,
}
use watchbound.Error.{WatchboundError, error, ErrorCode, Operation}
use watchbound.Result.{Result, ok, err}

pub data Lifecycle : Type 0 where
  active disposing : Lifecycle
  disposed : Option WatchboundError → Lifecycle

pub record SubscriptionControl : Type 0 where
  pub lifecycle : Lifecycle
  pub exclusion_generation : ℕ
  pub topology_transaction_in_flight : Bool

-- The three commands; a replacement carries its generation.
pub data Transaction : Type 0 where
  replace_exclusions : ℕ → Transaction
  reconcile recover_root : Transaction

-- Where a thread's call stands: `claimed` holds the in-flight flag, `queued` waits for the
-- acknowledgement besides, `owner` disposes of the subscription, `joining` waits for that.
pub data Phase : Type 0 where
  idle owner joining : Phase
  claimed queued : Transaction → Phase
  returned : Result (Unit {0}) → Phase
  disposal_returned : Result (Unit {0}) → Phase

pub data Event : Type 0 where
  transacts : Transaction → Event
  enters acknowledged : Result (Unit {0}) → Event
  disposes : Event
  finishes : (dispose release : Result (Unit {0})) → Event

unfoldable pub operation_of : Transaction → Operation
operation_of (replace_exclusions generation) = Operation.replace_exclusions
operation_of reconcile = Operation.reconcile
operation_of recover_root = Operation.recover_root

-- `compare_exchange` of the flag, and the drop of `InFlightTopologyTransaction`.
unfoldable pub claim : SubscriptionControl → Transaction → SubscriptionControl × Phase
claim c t =
    if c.topology_transaction_in_flight
    then (c, returned (err (error ErrorCode.topology_transaction_conflict (operation_of t))))
    else (record c { topology_transaction_in_flight = true }, claimed t)

unfoldable pub drop_in_flight : SubscriptionControl → SubscriptionControl
drop_in_flight c = record c { topology_transaction_in_flight = false }

-- Under the lock of the lifecycle the command is queued, if the subscription is active.
unfoldable pub enter :
    SubscriptionControl → Transaction → Result (Unit {0}) → SubscriptionControl × Phase
enter c t sent = elim c.lifecycle [
  | active ↦ elim sent [ ok u ↦ (c, queued t) | err e ↦ (drop_in_flight c, returned (err e)) ]
  | _ ↦ (drop_in_flight c, returned (err (error ErrorCode.subscription_closed (operation_of t))))
]

unfoldable pub store_generation :
    SubscriptionControl → Transaction → Result (Unit {0}) → SubscriptionControl
store_generation c (replace_exclusions generation) (ok u) = record c {
  exclusion_generation = generation;
}
store_generation c t r = c

unfoldable pub stored_result : Option WatchboundError → Result (Unit {0})
stored_result none = ok tt
stored_result (some e) = err e

-- The loop of `dispose` up to its wait.
unfoldable pub begin_dispose : SubscriptionControl → SubscriptionControl × Phase
begin_dispose c = elim c.lifecycle [
  | active ↦ (record c { lifecycle = disposing }, owner)
  | disposing ↦ (c, joining)
  | disposed e ↦ (c, disposal_returned (stored_result e))
]

-- The first error of the disposal and of the release of the runtime.
unfoldable pub disposal_result : Result (Unit {0}) → Result (Unit {0}) → Result (Unit {0})
disposal_result (err e) release = err e
disposal_result (ok u) release = release

abbrev pub error_of : Result (Unit {0}) → Option WatchboundError
error_of (ok u) = none
error_of (err e) = some e

-- The owner waits while a transaction is in flight.
unfoldable pub end_dispose : SubscriptionControl → Result (Unit {0}) → SubscriptionControl × Phase
end_dispose c result =
    if c.topology_transaction_in_flight
    then (c, owner)
    else (record c { lifecycle = disposed (error_of result) }, disposal_returned result)

-- A move that does not fit the thread's phase does nothing.
unfoldable pub advance : SubscriptionControl → Phase → Event → SubscriptionControl × Phase
advance c idle (transacts t) = claim c t
advance c (claimed t) (enters sent) = enter c t sent
advance c (queued t) (acknowledged r) = (drop_in_flight (store_generation c t r), returned r)
advance c idle disposes = begin_dispose c
advance c joining disposes = begin_dispose c
advance c owner (finishes dispose release) = end_dispose c (disposal_result dispose release)
advance c phase event = (c, phase)

pub record System : Type 0 where
  pub control : SubscriptionControl
  pub threads : List Phase

-- One thread moves; the others keep their phases.
unfoldable pub move :
    SubscriptionControl → List Phase → ℕ → Event → SubscriptionControl × List Phase
move c [] i e = (c, [])
move c (p ∷ ps) zero e = let (d, q) = advance c p e in (d, q ∷ ps)
move c (p ∷ ps) (suc i) e = let (d, qs) = move c ps i e in (d, p ∷ qs)

unfoldable pub run : System → List (ℕ × Event) → System
run s [] = s
run s ((i, e) ∷ moves) =
    let (c, ps) = move s.control s.threads i e in run (record { control = c; threads = ps }) moves
