-- ===== src/Attempt/Loops.antt =====
-- The compare-and-swap loops of `bind` and `request_cancel`, access by access: other threads
-- run between a round's load and its swap, and between two rounds.
use watchbound.Base.{
  ℕ, ◌+◌, ◌≤◌, ◌<◌, ◌≡◌, refl, List, [], ◌∷◌, ◌++◌, Bool, true, false, Option, none, some, arith,
  if◌then◌else◌, ◌⊎◌, inl, inr, Option-cases, Bool-cases, length, append_assoc, ◌==◌, ap, ◌≢◌,
  ==_iff, true→≢false,
}
use watchbound.Result.{Result, ok, err}
use watchbound.Error.{error, ErrorCode, Operation}
use watchbound.Attempt.{
  Attempt, AttemptState, bind, request_cancel, created, bound, cancel_requested_unbound,
  cancel_requested_bound, succeeded, failed, cancelled, code, bind_target, cancel_target,
}
use watchbound.Attempt.Race.{Op, step, run}

-- One round: what the other threads do before the load, and between the load and the swap.
abbrev pub Round : Type 0
Round = List Op × List Op

-- `compare_exchange` compares the bytes.
unfoldable pub compare_exchange : Attempt → AttemptState → AttemptState → Attempt × Bool
unfolding code
compare_exchange a current next =
    if code a.state == code current then (record a { state = next }, true) else (a, false)

-- All that the other threads do, in order.
unfoldable pub ops_of : List Round → List Op
ops_of [] = []
ops_of ((before, between) ∷ rounds) = before ++ (between ++ ops_of rounds)

-- `loop { load; match; compare_exchange }`: the final state, whether the swap was made or the
-- `match` refused the loaded state, and what the other threads had not yet done at that moment;
-- none while the rounds given do not suffice.
unfoldable pub swap_loop :
    (AttemptState → Option AttemptState)
    → Attempt
    → List Round
    → Option ((Attempt × Bool) × List Op)
swap_loop target a [] = none
swap_loop target a ((before, between) ∷ rounds) =
    let loaded = run a before in
    let at_swap = run loaded between in
    let again = swap_loop target at_swap rounds in
    elim (target loaded.state) [
      | none ↦ some ((loaded, false), between ++ ops_of rounds)
      | some next ↦
          let (a', swapped) = compare_exchange at_swap loaded.state next in
          if swapped then some ((a', true), ops_of rounds) else again
    ]

unfoldable pub bind_loop : Attempt → List Round → Option ((Attempt × Result (Unit {0})) × List Op)
unfolding swap_loop
bind_loop a rounds = elim (swap_loop bind_target a rounds) [
  | none ↦ none
  | some ((a', true), rest) ↦ some ((a', ok tt), rest)
  | some ((a', false), rest) ↦
      some ((a', err (error ErrorCode.invalid_argument Operation.subscribe)), rest)
]

unfoldable pub request_cancel_loop : Attempt → List Round → Option ((Attempt × Bool) × List Op)
request_cancel_loop a rounds = swap_loop cancel_target a rounds

-- How far a state is along the attempt: no operation goes back, and each change goes forward.
abbrev progress : AttemptState → ℕ
progress created = 0
progress bound = 1
progress cancel_requested_unbound = 1
progress cancel_requested_bound = 2
progress succeeded = 2
progress failed = 2
progress cancelled = 3

step-progress :
    (a : Attempt) (op : Op)
    → ((step a op).0.state ≡ a.state) ⊎ (progress a.state < progress (step a op).0.state)
unfolding step
step-progress a op = ground arith

run-progress :
    (a : Attempt) (ops : List Op)
    → ((run a ops).state ≡ a.state) ⊎ (progress a.state < progress (run a ops).state)
unfolding run
run-progress a [] = inl refl
run-progress a (op ∷ ops) = ground (arith, step-progress a op, run-progress (step a op).0 ops)

run-append : (a : Attempt) (xs ys : List Op) → run a (xs ++ ys) ≡ run (run a xs) ys
unfolding run
run-append a [] ys = refl
run-append a (op ∷ xs) ys = run-append (step a op).0 xs ys

code_injective : (s t : AttemptState) → code s ≡ code t → s ≡ t
unfolding code
code_injective s t h = ground arith

compare_exchange_cases :
    (a : Attempt) (current next : AttemptState)
    → ((a.state ≡ current) × (compare_exchange a current next ≡ (record a { state = next }, true)))
      ⊎ ((a.state ≢ current) × (compare_exchange a current next ≡ (a, false)))
unfolding compare_exchange
compare_exchange_cases a current next = elim (Bool-cases (code a.state == code current)) [
  | inl h ↦ inl (code_injective a.state current ((==_iff _ _).0 h), rw (h, compare_exchange) refl)
  | inr h ↦ inr (
    λ e. true→≢false ((==_iff (code a.state) (code current)).1 (ap code e)) h,
    rw (h, compare_exchange) refl,
  )
]

-- A loop's result is that of one atomic operation at the moment at which the loop ends.
swap_loop_atomic :
    (target : AttemptState → Option AttemptState) (a : Attempt) (rounds : List Round)
    → (a' : Attempt) (won : Bool) (rest : List Op)
    → swap_loop target a rounds ≡ some ((a', won), rest)
    → (ops : List Op) × (ops_of rounds ≡ ops ++ rest)
      × (((won ≡ false) × (target (run a ops).state ≡ none) × (a' ≡ run a ops))
          ⊎ ((next : AttemptState) × (won ≡ true)
              × (target (run a ops).state ≡ some next)
              × (a' ≡ record (run a ops) { state = next })))
unfolding swap_loop ops_of
swap_loop_atomic target a [] a' won rest h = cc
swap_loop_atomic target a ((before, between) ∷ rounds) a' won rest h =
    let loaded = run a before in
    let at_swap = run loaded between in
    elim (Option-cases (target loaded.state)) [
      | inl refused ↦ (before, ground arith, inl (ground arith, refused, ground arith))
      | inr (next, go) ↦ elim (compare_exchange_cases at_swap loaded.state next) [
        | inl (same, swapped) ↦ (
          before ++ between,
          ground (arith, go, swapped, append_assoc before between rest),
          inr (
            next,
            ground (arith, go, swapped),
            rw (run-append a before between, same) go,
            ground (arith, go, swapped, run-append a before between),
          ),
        )
        | inr (changed, failed_swap) ↦
            let (ops, split, found) =
              swap_loop_atomic target at_swap rounds a' won rest
                (ground (arith, go, failed_swap)) in
            (
              before ++ (between ++ ops),
              rw (split, append_assoc before (between ++ ops) rest, append_assoc between ops rest)
                  refl,
              rw (run-append a before (between ++ ops), run-append loaded between ops) found,
            )
      ]
    ]

swap_loop_low :
    (target : AttemptState → Option AttemptState)
    → ((s : AttemptState) → 1 < progress s → target s ≡ none)
    → (a : Attempt) (next : AttemptState) → target a.state ≡ some next
    → progress a.state ≤ 1
swap_loop_low target stops a next go = ground (arith, stops a.state, go)

-- Both loops' first steps can be lost to another thread at most twice.
swap_loop_total :
    (target : AttemptState → Option AttemptState)
    → ((s : AttemptState) → 1 < progress s → target s ≡ none)
    → (a : Attempt) (rounds : List Round) → 3 ≤ progress a.state + length rounds
    → 0 < length rounds
    → (r : (Attempt × Bool) × List Op) × (swap_loop target a rounds ≡ some r)
unfolding swap_loop
swap_loop_total target stops a [] p q = absurd (omega arith)
swap_loop_total target stops a ((before, between) ∷ rounds) p q =
    let loaded = run a before in
    let at_swap = run loaded between in
    elim (Option-cases (target loaded.state)) [
      | inl refused ↦ (((loaded, false), between ++ ops_of rounds), rw (refused, swap_loop) refl)
      | inr (next, go) ↦ elim (compare_exchange_cases at_swap loaded.state next) [
        | inl (same, swapped) ↦
            (((record at_swap { state = next }, true), ops_of rounds), ground (arith, go, swapped))
        | inr (changed, failed_swap) ↦
            let low = swap_loop_low target stops loaded next go in
            let further : progress loaded.state < progress at_swap.state =
              ground (arith, run-progress loaded between) in
            let (r, e) =
              swap_loop_total target stops at_swap rounds
                (ground (arith, further, run-progress a before))
                (ground (arith, further, low, run-progress a before)) in
            (r, ground (arith, go, failed_swap, e))
      ]
    ]

bind_low : (s : AttemptState) → 1 < progress s → bind_target s ≡ none
unfolding bind_target
bind_low s h = ground arith

cancel_low : (s : AttemptState) → 1 < progress s → cancel_target s ≡ none
unfolding cancel_target
cancel_low s h = ground arith

-- Given three rounds, whatever other threads do in between, the compare-exchange loop of `bind`
-- ends, and its effect and result are those of one atomic `bind` at that moment: after exactly the
-- operations that the other threads have done by then, those that are left being the others.
pub bind_loop-bind :
    (a : Attempt) (rounds : List Round)
    → 3 ≤ length rounds
    → (ops : List Op) × (rest : List Op) × (ops_of rounds ≡ ops ++ rest)
      × (bind_loop a rounds ≡ some (bind (run a ops), rest))
unfolding bind_loop bind
bind_loop-bind a rounds h =
    let (((a', won), rest), e) =
      swap_loop_total bind_target bind_low a rounds (omega arith) (omega arith) in
    let (ops, split, found) = swap_loop_atomic bind_target a rounds a' won rest e in
    (ops, rest, split, ground (arith, e, found))

-- Given three rounds, the compare-exchange loop of `request_cancel` ends too, with the effect and
-- result of one atomic call after exactly the operations that the other threads have done by then.
pub request_cancel_loop-request_cancel :
    (a : Attempt) (rounds : List Round)
    → 3 ≤ length rounds
    → (ops : List Op) × (rest : List Op) × (ops_of rounds ≡ ops ++ rest)
      × (request_cancel_loop a rounds ≡ some (request_cancel (run a ops), rest))
unfolding request_cancel_loop request_cancel
request_cancel_loop-request_cancel a rounds h =
    let (((a', won), rest), e) =
      swap_loop_total cancel_target cancel_low a rounds (omega arith) (omega arith) in
    let (ops, split, found) = swap_loop_atomic cancel_target a rounds a' won rest e in
    (ops, rest, split, ground (arith, e, found))
