-- ===== src/Fair/Invariant.antt =====
-- What every operation of the fair queue keeps: two increasing rounds with no id in common, and
-- what each operation changes in the set of queued ids.
use watchbound.Base.{ℕ, ◌≡◌, List, [], ◌∷◌, true, false, ◌||◌, not, Option, none, some, arith}
use watchbound.Order.{ℕ_ord, ◌=?◌, =?_refl, eq_of_=?}
use watchbound.BTreeSet.{
  IsSorted, insert-IsSorted, remove-IsSorted, contains-insert, contains-remove_self,
  contains-remove_ne, not-contains-Above,
}
use watchbound.BTreeSet as Set
use watchbound.Fair.{FairIdQueue, contains, schedule, start_round, pop_next, remove, ready_len}

pub record IsValid (q : FairIdQueue) : Type 0 where
  pub current_sorted : IsSorted q.current_round
  pub next_sorted : IsSorted q.next_round
  pub disjoint :
      (id : ℕ) → Set.contains id q.current_round ≡ true → Set.contains id q.next_round ≡ false

pub schedule-IsValid : (q : FairIdQueue) (id : ℕ) → IsValid q → IsValid (schedule q id).0
unfolding schedule contains
schedule-IsValid q id v = record {
  current_sorted = ground (arith, v.current_sorted);
  next_sorted = ground (arith, v.next_sorted, insert-IsSorted id q.next_round);
  disjoint = λ j h. ground (arith, v.disjoint j, contains-insert j id q.next_round, eq_of_=? id j);
}

-- Scheduling adds the id and nothing else, and reports whether it was new.
pub contains-schedule :
    (q : FairIdQueue) (id j : ℕ)
    → (contains (schedule q id).0 j ≡ (contains q j || (id =? j)))
      × ((schedule q id).1 ≡ not (contains q id))
unfolding schedule contains
contains-schedule q id j = ground (arith, contains-insert j id q.next_round, eq_of_=? id j)

pub start_round-IsValid : (q : FairIdQueue) → IsValid q → IsValid (start_round q)
unfolding start_round Set.contains
start_round-IsValid q v = record {
  current_sorted = ground (arith, v.current_sorted, v.next_sorted);
  next_sorted = ground (arith, v.current_sorted, v.next_sorted);
  disjoint = λ j h. ground (arith, v.disjoint j);
}

pub contains-start_round : (q : FairIdQueue) (j : ℕ) → contains (start_round q) j ≡ contains q j
unfolding start_round contains
contains-start_round q j = ground arith

-- Of a queue whose round has started.
abbrev take_first : FairIdQueue → FairIdQueue × Option ℕ
take_first r =
    let (first, rest) = Set.pop_first r.current_round in (record r { current_round = rest }, first)

take_first-IsValid :
    (cur nxt : List ℕ)
    → IsValid (record { current_round = cur; next_round = nxt })
    → IsValid (take_first (record { current_round = cur; next_round = nxt })).0
unfolding Set.contains
take_first-IsValid [] nxt v = v
take_first-IsValid (x ∷ cur) nxt v = record {
  current_sorted = v.current_sorted.1;
  next_sorted = v.next_sorted;
  disjoint = λ j h. ground (arith, v.disjoint j);
}

pub pop_next-IsValid : (q : FairIdQueue) → IsValid q → IsValid (pop_next q).0
unfolding pop_next
pop_next-IsValid q v = take_first-IsValid _ _ (start_round-IsValid q v)

pub remove-IsValid : (q : FairIdQueue) (id : ℕ) → IsValid q → IsValid (remove q id).0
unfolding remove
remove-IsValid q id v = record {
  current_sorted = remove-IsSorted id q.current_round v.current_sorted;
  next_sorted = remove-IsSorted id q.next_round v.next_sorted;
  disjoint = λ j h. ground (
    arith,
    v.disjoint j,
    contains-remove_self id q.next_round v.next_sorted,
    contains-remove_self id q.current_round v.current_sorted,
    contains-remove_ne j id q.current_round,
    contains-remove_ne j id q.next_round,
    eq_of_=? id j,
  );
}

pub ready_len-IsValid : (q : FairIdQueue) → IsValid q → IsValid (ready_len q).0
unfolding ready_len
ready_len-IsValid q v = start_round-IsValid q v

-- What a pop returns was queued and is queued no more; every other id stays.
abbrev pub PopsOne : FairIdQueue → FairIdQueue × Option ℕ → Type 0
PopsOne q (q', none) = (j : ℕ) → (contains q j ≡ false) × (contains q' j ≡ false)
PopsOne q (q', some id) =
    (contains q id ≡ true)
    × (contains q' id ≡ false)
    × ((j : ℕ) → (id =? j) ≡ false → contains q' j ≡ contains q j)

take_first-PopsOne :
    (cur nxt : List ℕ) (q : FairIdQueue)
    → IsValid (record { current_round = cur; next_round = nxt })
    → (cur ≡ [] → nxt ≡ [])
    → ((j : ℕ) → contains (record { current_round = cur; next_round = nxt }) j ≡ contains q j)
    → PopsOne q (take_first (record { current_round = cur; next_round = nxt }))
unfolding contains Set.contains
take_first-PopsOne [] nxt q v e same = λ j. ground (arith, same j, e)
take_first-PopsOne (x ∷ cur) nxt q v e same = (
  ground (arith, same x, =?_refl x),
  ground (arith, v.disjoint x, =?_refl x, not-contains-Above x cur v.current_sorted.0),
  λ j h. ground (arith, same j),
)

started : (q : FairIdQueue) → (start_round q).current_round ≡ [] → (start_round q).next_round ≡ []
unfolding start_round
started q h = ground arith

-- From a valid queue, a pop returns an id that was queued, which then is queued no more while all
-- others stay; it returns none only of an empty queue.
pub pop_next-PopsOne : (q : FairIdQueue) → IsValid q → PopsOne q (pop_next q)
unfolding pop_next
pop_next-PopsOne q v =
    take_first-PopsOne _ _ q (start_round-IsValid q v) (started q) (contains-start_round q)
