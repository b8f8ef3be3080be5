-- ===== src/Attempt/Race.antt =====
-- Who wins an attempt: any number of threads that bind it, cancel it, commit success or failure
-- and finish the rollback, in any order. Each operation is one atomic step (Attempt/Loops).
use watchbound.Base.{
  ℕ, suc, ◌+◌, ◌≡◌, refl, List, [], ◌∷◌, Bool, false, Option, none, some, arith, if◌then◌else◌,
}
use watchbound.Attempt.{
  Attempt, AttemptState, created, bound, cancel_requested_unbound, cancel_requested_bound,
  succeeded, failed, cancelled, bind, attach_runtime, detach_runtime, request_cancel,
  try_commit_success, try_commit_failure, finish_cancelled,
}

pub data Op : Type 0 where
  binds cancels commits fails finishes detaches : Op
  attaches : ℕ → Op

-- The new state, and whether the call decided the attempt: a cancellation that was first, or a
-- commit that went through.
unfoldable pub step : Attempt → Op → Attempt × Bool
unfolding bind attach_runtime detach_runtime request_cancel try_commit_success try_commit_failure
    finish_cancelled
step a binds = ((bind a).0, false)
step a cancels = request_cancel a
step a commits = try_commit_success a
step a fails = try_commit_failure a
step a finishes = (finish_cancelled a, false)
step a detaches = (detach_runtime a, false)
step a (attaches r) = (attach_runtime a r, false)

unfoldable pub run : Attempt → List Op → Attempt
run a [] = a
run a (op ∷ ops) = run (step a op).0 ops

-- How many calls of a run decided the attempt.
unfoldable pub decisions : Attempt → List Op → ℕ
decisions a [] = 0
decisions a (op ∷ ops) =
    let rest = decisions (step a op).0 ops in if (step a op).1 then suc rest else rest

pub data Outcome : Type 0 where
  succeeds fails_with cancels_with : Outcome

-- What is decided of an attempt in a state.
abbrev pub decided : AttemptState → Option Outcome
decided created = none
decided bound = none
decided cancel_requested_unbound = some cancels_with
decided cancel_requested_bound = some cancels_with
decided cancelled = some cancels_with
decided succeeded = some succeeds
decided failed = some fails_with

step-decided :
    (a : Attempt) (op : Op) (o : Outcome)
    → decided a.state ≡ some o
    → (decided (step a op).0.state ≡ some o) × ((step a op).1 ≡ false)
unfolding step
step-decided a op o h = ground arith

-- Once an attempt is decided, no later call reverses the decision, and none decides again.
pub decision_final :
    (a : Attempt) (ops : List Op) (o : Outcome)
    → decided a.state ≡ some o
    → (decided (run a ops).state ≡ some o) × (decisions a ops ≡ 0)
unfolding run decisions
decision_final a [] o h = (h, refl)
decision_final a (op ∷ ops) o h =
    let (kept, quiet) = step-decided a op o h in
    let (later, none_more) = decision_final (step a op).0 ops o kept in (later, rw quiet none_more)

abbrev pub weight : Option Outcome → ℕ
weight none = 0
weight (some o) = 1

step-weight :
    (a : Attempt) (op : Op)
    → (if (step a op).1 then suc (weight (decided a.state)) else weight (decided a.state))
      ≡ weight (decided (step a op).0.state)
unfolding step
step-weight a op = ground arith

-- Over any run of calls, the calls that decide an attempt, and one if it was decided before, are as
-- many as the attempt ends up decided: a successful cancellation, a success and a failure exclude
-- one another.
pub decided_once :
    (a : Attempt) (ops : List Op)
    → decisions a ops + weight (decided a.state) ≡ weight (decided (run a ops).state)
unfolding run decisions
decided_once a [] = omega arith
decided_once a (op ∷ ops) = ground (arith, step-weight a op, decided_once (step a op).0 ops)
