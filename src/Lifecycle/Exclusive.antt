-- ===== src/Lifecycle/Exclusive.antt =====
-- The threads that hold the in-flight flag, wait for an acknowledgement or own the disposal,
-- counted.
use watchbound.Base.{ℕ, zero, suc, ◌+◌, ◌≤◌, ◌≡◌, List, [], ◌∷◌, Bool, true, false, arith}
use watchbound.Lifecycle.{
  Lifecycle, disposing, disposed, SubscriptionControl, Phase, owner, claimed, queued, Event, claim,
  enter, drop_in_flight, store_generation, begin_dispose, end_dispose, advance, System, move, run,
}

abbrev pub weight : Bool → ℕ
weight true = 1
weight false = 0

abbrev pub holds : Phase → ℕ
holds (claimed t) = 1
holds (queued t) = 1
holds _ = 0

abbrev pub waits : Phase → ℕ
waits (queued t) = 1
waits _ = 0

abbrev pub owns : Phase → ℕ
owns owner = 1
owns _ = 0

unfoldable pub total : (Phase → ℕ) → List Phase → ℕ
total f [] = 0
total f (p ∷ ps) = f p + total f ps

abbrev pub is_disposing : Lifecycle → Bool
is_disposing disposing = true
is_disposing _ = false

abbrev pub is_disposed : Lifecycle → Bool
is_disposed (disposed e) = true
is_disposed _ = false

-- The flag counts its holders, the lifecycle its owners; after the disposal no command waits.
pub record IsExclusive (c : SubscriptionControl) (held waiting owned : ℕ) : Type 0 where
  pub flag : held ≡ weight c.topology_transaction_in_flight
  pub owners : owned ≡ weight (is_disposing c.lifecycle)
  pub waiters : waiting ≤ held
  pub drained : is_disposed c.lifecycle ≡ true → waiting ≡ 0

advance-IsExclusive :
    (c : SubscriptionControl) (p : Phase) (e : Event) (held waiting owned : ℕ)
    → IsExclusive c (holds p + held) (waits p + waiting) (owns p + owned)
    → waiting ≤ held
    → let r = advance c p e in
      IsExclusive r.0 (holds r.1 + held) (waits r.1 + waiting) (owns r.1 + owned)
unfolding advance claim enter drop_in_flight store_generation begin_dispose end_dispose
advance-IsExclusive c p e held waiting owned v h = record {
  flag = ground (arith, v.flag);
  owners = ground (arith, v.owners);
  waiters = ground (arith, v.waiters);
  drained = λ d. ground (arith, v.drained, v.flag, v.owners);
}

waits-le : (p : Phase) → waits p ≤ holds p
waits-le p = ground arith

total-waits-le : (ps : List Phase) → total waits ps ≤ total holds ps
unfolding total
total-waits-le [] = omega arith
total-waits-le (p ∷ ps) = ground (arith, total-waits-le ps, waits-le p)

IsExclusive-same :
    (c : SubscriptionControl) (a b d a' b' d' : ℕ)
    → a ≡ a'
    → b ≡ b'
    → d ≡ d'
    → IsExclusive c a b d
    → IsExclusive c a' b' d'
IsExclusive-same c a b d a' b' d' e f g v = record {
  flag = omega (arith, v.flag, e);
  owners = omega (arith, v.owners, g);
  waiters = omega (arith, v.waiters, e, f);
  drained = λ h. omega (arith, v.drained h, f);
}

-- The phases before the moving thread are counted in `h`, `w` and `o`.
move-IsExclusive :
    (c : SubscriptionControl) (ps : List Phase) (i : ℕ) (e : Event) (h w o : ℕ)
    → w ≤ h
    → IsExclusive c (total holds ps + h) (total waits ps + w) (total owns ps + o)
    → let r = move c ps i e in
      IsExclusive r.0 (total holds r.1 + h) (total waits r.1 + w) (total owns r.1 + o)
unfolding move total
move-IsExclusive c [] i e h w o l v = v
move-IsExclusive c (p ∷ ps) zero e h w o l v =
    let r = advance c p e in
    let moved =
      advance-IsExclusive c p e (total holds ps + h) (total waits ps + w) (total owns ps + o)
        (IsExclusive-same c _ _ _ _ _ _ (omega arith) (omega arith) (omega arith) v)
        (ground (arith, total-waits-le ps)) in
    IsExclusive-same r.0 _ _ _ _ _ _ (omega arith) (omega arith) (omega arith) moved
move-IsExclusive c (p ∷ ps) (suc i) e h w o l v =
    let moved =
      move-IsExclusive c ps i e (holds p + h) (waits p + w) (owns p + o)
        (ground (arith, waits-le p))
        (IsExclusive-same c _ _ _ _ _ _ (omega arith) (omega arith) (omega arith) v) in
    IsExclusive-same _ _ _ _ _ _ _ (omega arith) (omega arith) (omega arith) moved

-- The system's threads are those that are counted.
abbrev pub IsOrderly : System → Type 0
IsOrderly s =
    IsExclusive s.control (total holds s.threads) (total waits s.threads) (total owns s.threads)

-- From an orderly system, whatever the threads do in whatever order, at most one transaction holds
-- the in-flight flag and at most one thread owns the disposal, both as the control says, and no
-- transaction waits for an acknowledgement once the subscription is disposed.
pub run-IsOrderly : (s : System) (moves : List (ℕ × Event)) → IsOrderly s → IsOrderly (run s moves)
unfolding run
run-IsOrderly s [] v = v
run-IsOrderly s ((i, e) ∷ moves) v =
    let r = move s.control s.threads i e in
    run-IsOrderly (record { control = r.0; threads = r.1 }) moves
      (IsExclusive-same r.0 _ _ _ _ _ _ (omega arith) (omega arith) (omega arith) (
        move-IsExclusive s.control s.threads i e 0 0 0 (omega arith)
          (IsExclusive-same s.control _ _ _ _ _ _ (omega arith) (omega arith) (omega arith) v)))
