-- ===== src/Attempt.antt =====
-- `EstablishmentCancellation` of engine/src/lib.rs: the atomic state of one establishment attempt.
-- The u8 constants ATTEMPT_* are the constructors of `AttemptState`. An operation that is one
-- atomic access, or a compare-and-swap loop that ends by its first success, is a function of the
-- shared state to the new one and the result; Attempt/Loops takes the loops apart.
pub mod Race
pub mod Loops
pub mod Ids
use watchbound.Base.{
  ℕ, suc, ◌+◌, ◌-◌, ◌^◌, ◌<◌, Bool, true, false, Option, none, some, if◌then◌else◌, ltb, ◌==◌,
}
use watchbound.Error.{WatchboundError, error, ErrorCode, Operation}
use watchbound.Result.{Result, ok, err}

pub data AttemptState : Type 0 where
  created bound cancel_requested_unbound cancel_requested_bound : AttemptState
  succeeded failed cancelled : AttemptState

-- The byte that stands for a state.
unfoldable pub code : AttemptState → ℕ
code created = 0
code bound = 1
code cancel_requested_unbound = 2
code cancel_requested_bound = 3
code succeeded = 4
code failed = 5
code cancelled = 6

-- `runtime` is the weak reference to a runtime, by that runtime's number.
pub record Attempt : Type 0 where
  pub id : ℕ
  pub state : AttemptState
  pub runtime : Option ℕ

abbrev pub u64_max : ℕ
u64_max = 2 ^ 64 - 1

-- The new counter, and the id or the error.
unfoldable pub allocate_establishment_attempt_id : ℕ → ℕ × Result ℕ
allocate_establishment_attempt_id next =
    if ltb next u64_max
    then (next + 1, ok next)
    else (next, err (error ErrorCode.internal Operation.subscribe))

unfoldable pub new : ℕ → ℕ × Result Attempt
unfolding allocate_establishment_attempt_id
new next =
    let (next', allocated) = allocate_establishment_attempt_id next in
    (
      next',
      elim allocated [
        | ok id ↦ ok (record { id = id; state = created; runtime = none })
        | err e ↦ err e
      ],
    )

-- The `match` inside the loop of `bind`: the state to swap in, or none for the error.
unfoldable pub bind_target : AttemptState → Option AttemptState
bind_target created = some bound
bind_target cancel_requested_unbound = some cancel_requested_bound
bind_target _ = none

unfoldable pub bind : Attempt → Attempt × Result (Unit {0})
unfolding bind_target
bind a = elim (bind_target a.state) [
  | some next ↦ (record a { state = next }, ok tt)
  | none ↦ (a, err (error ErrorCode.invalid_argument Operation.subscribe))
]

unfoldable pub attach_runtime : Attempt → ℕ → Attempt
attach_runtime a runtime = record a { runtime = some runtime }

unfoldable pub detach_runtime : Attempt → Attempt
detach_runtime a = record a { runtime = none }

-- The `match` inside the loop of `request_cancel`: none for `return false`.
unfoldable pub cancel_target : AttemptState → Option AttemptState
cancel_target created = some cancel_requested_unbound
cancel_target bound = some cancel_requested_bound
cancel_target _ = none

unfoldable pub request_cancel : Attempt → Attempt × Bool
unfolding cancel_target
request_cancel a = elim (cancel_target a.state) [
  | some next ↦ (record a { state = next }, true)
  | none ↦ (a, false)
]

-- `EstablishmentCancellation::cancel`: the runtime to wake, if any. `alive` tells whether the
-- weak reference still upgrades.
unfoldable pub cancel : (ℕ → Bool) → Attempt → Attempt × Option ℕ
unfolding request_cancel
cancel alive a =
    let (a', requested) = request_cancel a in
    (
      a',
      if requested
          then elim a'.runtime [ none ↦ none | some r ↦ if alive r then some r else none ]
          else none,
    )

unfoldable pub cancellation_requested : Attempt → Bool
cancellation_requested a = elim a.state [
  | cancel_requested_unbound ↦ true
  | cancel_requested_bound ↦ true
  | cancelled ↦ true
  | _ ↦ false
]

unfoldable pub try_commit_success : Attempt → Attempt × Bool
try_commit_success a = elim a.state [
  | bound ↦ (record a { state = succeeded }, true)
  | _ ↦ (a, false)
]

unfoldable pub try_commit_failure : Attempt → Attempt × Bool
try_commit_failure a = elim a.state [ bound ↦ (record a { state = failed }, true) | _ ↦ (a, false) ]

unfoldable pub finish_cancelled : Attempt → Attempt
unfolding detach_runtime
finish_cancelled a =
    detach_runtime
      (elim a.state [ cancel_requested_bound ↦ record a { state = cancelled } | _ ↦ a ])

-- An attempt with nothing more to decide.
abbrev pub is_settled : AttemptState → Bool
is_settled succeeded = true
is_settled failed = true
is_settled cancelled = true
is_settled _ = false

unfoldable pub operation_cancelled_error : WatchboundError
operation_cancelled_error = error ErrorCode.operation_cancelled Operation.subscribe

-- A failure before the runtime took the attempt over: an earlier cancellation overrides the error.
unfoldable pub commit_pre_runtime_failure : Attempt → WatchboundError → Attempt × WatchboundError
unfolding try_commit_failure detach_runtime finish_cancelled operation_cancelled_error
commit_pre_runtime_failure a e =
    let (a', committed) = try_commit_failure a in
    if committed then (detach_runtime a', e) else (finish_cancelled a', operation_cancelled_error)

-- The same in the worker (engine/src/backend/linux.rs), which leaves the runtime attached.
unfoldable pub commit_establishment_failure : Attempt → WatchboundError → Attempt × WatchboundError
unfolding try_commit_failure finish_cancelled operation_cancelled_error
commit_establishment_failure a e =
    let (a', committed) = try_commit_failure a in
    if committed then (a', e) else (finish_cancelled a', operation_cancelled_error)
