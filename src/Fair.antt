-- ===== src/Fair.antt =====
-- `FairIdQueue` of engine/src/backend/linux.rs: the round-robin queue behind topology turns and
-- watch promotions. A method that mutates the queue returns the new queue beside its result.
pub mod Invariant
pub mod Service
use watchbound.Base.{
  ℕ, List, [], ◌∷◌, Bool, true, false, ◌&&◌, ◌||◌, Option, if◌then◌else◌, length, is_empty,
}
use watchbound.Order.{ℕ_ord}
use watchbound.BTreeSet

pub record FairIdQueue : Type 0 where
  pub current_round : List ℕ
  pub next_round : List ℕ

unfoldable pub empty : FairIdQueue
empty = record { current_round = []; next_round = [] }

unfoldable pub contains : FairIdQueue → ℕ → Bool
contains q id = BTreeSet.contains id q.current_round || BTreeSet.contains id q.next_round

-- The Boolean is `insert`'s: that the queue did not hold the id before.
unfoldable pub schedule : FairIdQueue → ℕ → FairIdQueue × Bool
unfolding contains
schedule q id =
    if contains q id
    then (q, false)
    else (record q { next_round = BTreeSet.insert id q.next_round }, true)

-- `mem::swap` of the rounds once the current one has run out.
unfoldable pub start_round : FairIdQueue → FairIdQueue
start_round q =
    if is_empty q.current_round
    then record { current_round = q.next_round; next_round = q.current_round }
    else q

unfoldable pub pop_next : FairIdQueue → FairIdQueue × Option ℕ
unfolding start_round
pop_next q =
    let r = start_round q in
    let (first, rest) = BTreeSet.pop_first r.current_round in
    (record r { current_round = rest }, first)

-- Both removals are made: `|` on Booleans does not short-circuit.
unfoldable pub remove : FairIdQueue → ℕ → FairIdQueue × Bool
unfolding contains
remove q id = (
  record {
    current_round = BTreeSet.remove id q.current_round;
    next_round = BTreeSet.remove id q.next_round;
  },
  contains q id,
)

unfoldable pub ready_len : FairIdQueue → FairIdQueue × ℕ
unfolding start_round
ready_len q = let r = start_round q in (r, length r.current_round)

unfoldable pub is_idle : FairIdQueue → Bool
is_idle q = is_empty q.current_round && is_empty q.next_round
