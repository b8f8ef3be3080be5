-- ===== src/Lifecycle/Outcome.antt =====
-- The result of the disposal, as the threads that dispose of a subscription see it.
use watchbound.Base.{◌+◌, ℕ, zero, suc, ◌≡◌, refl, List, [], ◌∷◌, Option, none, some, arith, All}
use watchbound.Result.{Result, ok, err}
use watchbound.Lifecycle.Exclusive.{total, IsOrderly, run-IsOrderly, owns, weight, is_disposing}
use watchbound.Lifecycle.{
  Lifecycle, disposed, SubscriptionControl, Phase, owner, disposal_returned, Event, finishes, claim,
  enter, drop_in_flight, store_generation, begin_dispose, end_dispose, advance, System, move, run,
  stored_result, error_of, disposal_result,
}

-- What the disposal came to, once it is over.
abbrev pub outcome : Lifecycle → Option (Result (Unit {0}))
outcome (disposed e) = some (stored_result e)
outcome _ = none

abbrev pub Agrees : Lifecycle → Phase → Type 0
Agrees l (disposal_returned r) = outcome l ≡ some r
Agrees l _ = Unit {0}

stored-error_of : (r : Result (Unit {0})) → stored_result (error_of r) ≡ r
unfolding stored_result
stored-error_of (ok u) = refl
stored-error_of (err e) = refl

end_dispose-Agrees :
    (c : SubscriptionControl) (r : Result (Unit {0}))
    → Agrees (end_dispose c r).0.lifecycle (end_dispose c r).1
unfolding end_dispose
end_dispose-Agrees c r = ground (arith, stored-error_of r)

advance-Agrees :
    (c : SubscriptionControl) (p : Phase) (e : Event)
    → Agrees c.lifecycle p
    → Agrees (advance c p e).0.lifecycle (advance c p e).1
unfolding advance claim enter drop_in_flight store_generation begin_dispose
advance-Agrees c owner (finishes dispose release) h =
    end_dispose-Agrees c (disposal_result dispose release)
advance-Agrees c p e h = ground (arith, h)

-- A thread's move leaves the other threads' results true: before the disposal is over there are
-- none, and afterwards its outcome stays.
advance-others :
    (c : SubscriptionControl) (p : Phase) (e : Event) (o : ℕ) (q : Phase)
    → owns p + o ≡ weight (is_disposing c.lifecycle)
    → Agrees c.lifecycle q
    → Agrees (advance c p e).0.lifecycle q
unfolding advance claim enter drop_in_flight store_generation begin_dispose end_dispose
advance-others c p e o q k h = ground (arith, k, h)

advance-All :
    (c : SubscriptionControl) (p : Phase) (e : Event) (o : ℕ) (ps : List Phase)
    → owns p + o ≡ weight (is_disposing c.lifecycle)
    → All (Agrees c.lifecycle) ps
    → All (Agrees (advance c p e).0.lifecycle) ps
advance-All c p e o [] k h = tt
advance-All c p e o (q ∷ ps) k h = (advance-others c p e o q k h.0, advance-All c p e o ps k h.1)

move-others :
    (c : SubscriptionControl) (ps : List Phase) (i : ℕ) (e : Event) (o : ℕ) (q : Phase)
    → total owns ps + o ≡ weight (is_disposing c.lifecycle)
    → Agrees c.lifecycle q
    → Agrees (move c ps i e).0.lifecycle q
unfolding move total
move-others c [] i e o q k h = h
move-others c (p ∷ ps) zero e o q k h =
    advance-others c p e (total owns ps + o) q (omega (arith, k)) h
move-others c (p ∷ ps) (suc i) e o q k h = move-others c ps i e (owns p + o) q (omega (arith, k)) h

move-All :
    (c : SubscriptionControl) (ps : List Phase) (i : ℕ) (e : Event) (o : ℕ)
    → total owns ps + o ≡ weight (is_disposing c.lifecycle)
    → All (Agrees c.lifecycle) ps
    → All (Agrees (move c ps i e).0.lifecycle) (move c ps i e).1
unfolding move total
move-All c [] i e o k h = tt
move-All c (p ∷ ps) zero e o k h =
    (advance-Agrees c p e h.0, advance-All c p e (total owns ps + o) ps (omega (arith, k)) h.1)
move-All c (p ∷ ps) (suc i) e o k h = (
  move-others c ps i e (owns p + o) p (omega (arith, k)) h.0,
  move-All c ps i e (owns p + o) (omega (arith, k)) h.1,
)

-- From an orderly system in which it holds, whatever the threads do, every call of `dispose` that
-- has returned has returned the one stored outcome of the disposal.
pub run-Agrees :
    (s : System) (moves : List (ℕ × Event))
    → IsOrderly s
    → All (Agrees s.control.lifecycle) s.threads
    → All (Agrees (run s moves).control.lifecycle) (run s moves).threads
unfolding run
run-Agrees s [] v h = h
run-Agrees s ((i, e) ∷ moves) v h =
    let r = move s.control s.threads i e in
    run-Agrees (record { control = r.0; threads = r.1 }) moves (run-IsOrderly s ((i, e) ∷ []) v)
      (move-All s.control s.threads i e 0 (omega (arith, v.owners)) h)
