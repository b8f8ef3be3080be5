-- ===== src/Fair/Service.antt =====
-- Fairness of the queue: how long a queued id can wait while other ids are scheduled again and
-- again (`schedule_topology` and `process_promotion_turn` requeue the id that they have popped).
use watchbound.Base.{
  ℕ, suc, ◌+◌, ◌*◌, ◌≤◌, ◌<◌, ◌≡◌, refl, List, [], ◌∷◌, true, false, none, some, arith, length,
  if◌then◌else◌, true→≢false, Bool-cases, inl, inr,
}
use watchbound.Order.{ℕ_ord, ◌=?◌, eq_of_=?}
use watchbound.BTreeSet.{
  IsSorted, Above, contains-insert, contains-remove_ne, length-subset, length-remove-le,
}
use watchbound.BTreeSet as Set
use watchbound.Fair.{FairIdQueue, contains, schedule, pop_next, remove, ready_len}
use watchbound.Fair.Invariant.{IsValid, schedule-IsValid, pop_next-IsValid, remove-IsValid}

pub data Op : Type 0 where
  schedules removes : ℕ → Op
  pops measures : Op

-- The ids that a run of operations pops, in order.
unfoldable pub served : FairIdQueue → List Op → List ℕ
served q [] = []
served q (schedules id ∷ ops) = served (schedule q id).0 ops
served q (removes id ∷ ops) = served (remove q id).0 ops
served q (measures ∷ ops) = served (ready_len q).0 ops
served q (pops ∷ ops) =
    let rest = served (pop_next q).0 ops in
    elim (pop_next q).1 [ none ↦ rest | some id ↦ id ∷ rest ]

abbrev pub pop_count : List Op → ℕ
pop_count [] = 0
pop_count (pops ∷ ops) = suc (pop_count ops)
pop_count (_ ∷ ops) = pop_count ops

-- Operations that schedule ids of `live` only, and never remove `id`.
abbrev pub Leaves : List ℕ → ℕ → List Op → Type 0
Leaves live id [] = Unit {0}
Leaves live id (schedules j ∷ ops) = (Set.contains j live ≡ true) × Leaves live id ops
Leaves live id (removes j ∷ ops) = ((j =? id) ≡ false) × Leaves live id ops
Leaves live id (_ ∷ ops) = Leaves live id ops

-- How many ids stand before `id`.
position : ℕ → List ℕ → ℕ
position id [] = 0
position id (x ∷ s) = if x =? id then 0 else suc (position id s)

position-remove-le :
    (id j : ℕ) (s : List ℕ) → (j =? id) ≡ false → position id (Set.remove j s) ≤ position id s
unfolding position Set.remove
position-remove-le id j [] h = omega arith
position-remove-le id j (x ∷ s) h =
    ground (arith, position-remove-le id j s h, eq_of_=? x j, eq_of_=? x id)

position-lt-length : (id : ℕ) (s : List ℕ) → Set.contains id s ≡ true → position id s < length s
unfolding position Set.contains
position-lt-length id [] h = cc
position-lt-length id (x ∷ s) h = ground (arith, position-lt-length id s)

schedule-current : (q : FairIdQueue) (j : ℕ) → (schedule q j).0.current_round ≡ q.current_round
unfolding schedule
schedule-current q j = ground arith

-- Every id of the round is live.
abbrev Within : List ℕ → List ℕ → Type 0
Within live s = (j : ℕ) → Set.contains j s ≡ true → Set.contains j live ≡ true

schedule-next :
    (live : List ℕ) (q : FairIdQueue) (id j : ℕ)
    → Set.contains j live ≡ true
    → Within live q.next_round
    → Set.contains id q.next_round ≡ true
    → Within live (schedule q j).0.next_round × (Set.contains id (schedule q j).0.next_round ≡ true)
unfolding schedule
schedule-next live q id j hj w h = (
  λ k hk. ground (arith, w k, contains-insert k j q.next_round, eq_of_=? j k),
  ground (arith, contains-insert id j q.next_round),
)

-- An id of the current round is popped after those that stand before it, whatever is scheduled.
served_in_round :
    (live : List ℕ) (id : ℕ) (ops : List Op) (cur nxt : List ℕ)
    → Set.contains id cur ≡ true
    → Leaves live id ops
    → position id cur < pop_count ops
    → Set.contains id (served (record { current_round = cur; next_round = nxt }) ops) ≡ true
unfolding served position Set.contains remove ready_len pop_next
served_in_round live id [] cur nxt h l p = absurd (omega arith)
served_in_round live id (schedules j ∷ ops) cur nxt h l p =
    let q : FairIdQueue = record { current_round = cur; next_round = nxt } in
    let q' = (schedule q j).0 in
    served_in_round live id ops q'.current_round q'.next_round (rw (schedule-current q j) h) l.1
      (rw (schedule-current q j) p)
served_in_round live id (removes j ∷ ops) cur nxt h l p =
    served_in_round live id ops (Set.remove j cur) (Set.remove j nxt)
      (rw (contains-remove_ne id j cur l.0) h) l.1 (omega (arith, position-remove-le id j cur l.0))
served_in_round live id (measures ∷ ops) [] nxt h l p = cc
served_in_round live id (measures ∷ ops) (x ∷ cur) nxt h l p =
    served_in_round live id ops (x ∷ cur) nxt h l p
served_in_round live id (pops ∷ ops) [] nxt h l p = cc
served_in_round live id (pops ∷ ops) (x ∷ cur) nxt h l p =
    ground (arith, served_in_round live id ops cur nxt)

contains_later : (id x : ℕ) (s : List ℕ) → Set.contains id s ≡ true → Set.contains id (x ∷ s) ≡ true
unfolding Set.contains
contains_later id x s h = ground arith

contains_of-remove :
    (k j : ℕ) (s : List ℕ) → Set.contains k (Set.remove j s) ≡ true → Set.contains k s ≡ true
unfolding Set.contains Set.remove
contains_of-remove k j [] h = cc
contains_of-remove k j (x ∷ s) h = ground (arith, contains_of-remove k j s)

-- The pop that opens a round, for an id of that round.
served_first :
    (live : List ℕ) (id : ℕ) (ops : List Op) (x : ℕ) (rest nxt : List ℕ)
    → Set.contains id (x ∷ rest) ≡ true
    → Leaves live id ops
    → length rest ≤ pop_count ops
    → Set.contains id (x ∷ served (record { current_round = rest; next_round = nxt }) ops) ≡ true
unfolding Set.contains
served_first live id ops x rest nxt h l p =
    ground (arith, served_in_round live id ops rest nxt, position-lt-length id rest)

-- An id of the next round waits for the current round to run out, and then for its own.
served_next_round :
    (live : List ℕ) (id : ℕ) (ops : List Op) (cur nxt : List ℕ)
    → IsSorted live
    → IsValid (record { current_round = cur; next_round = nxt })
    → Within live nxt
    → Set.contains id nxt ≡ true
    → Leaves live id ops
    → length cur + length live < pop_count ops
    → Set.contains id (served (record { current_round = cur; next_round = nxt }) ops) ≡ true
unfolding served remove ready_len pop_next Set.contains
served_next_round live id [] cur nxt hl v w h l p = absurd (omega arith)
served_next_round live id (schedules j ∷ ops) cur nxt hl v w h l p =
    let q : FairIdQueue = record { current_round = cur; next_round = nxt } in
    let q' = (schedule q j).0 in
    let (w', h') = schedule-next live q id j l.0 w h in
    served_next_round live id ops q'.current_round q'.next_round hl (schedule-IsValid q j v) w' h'
      l.1 (rw (schedule-current q j) p)
served_next_round live id (removes j ∷ ops) cur nxt hl v w h l p =
    served_next_round live id ops (Set.remove j cur) (Set.remove j nxt) hl
      (remove-IsValid (record { current_round = cur; next_round = nxt }) j v)
      (λ k hk. w k (contains_of-remove k j nxt hk)) (rw (contains-remove_ne id j nxt l.0) h) l.1
      (omega (arith, length-remove-le j cur))
served_next_round live id (measures ∷ ops) [] nxt hl v w h l p =
    served_in_round live id ops nxt [] h l
      (omega (arith, position-lt-length id nxt h, length-subset nxt live v.next_sorted hl w))
served_next_round live id (measures ∷ ops) (x ∷ cur) nxt hl v w h l p =
    served_next_round live id ops (x ∷ cur) nxt hl v w h l p
served_next_round live id (pops ∷ ops) [] [] hl v w h l p = absurd (true→≢false h refl)
served_next_round live id (pops ∷ ops) [] (x ∷ nxt) hl v w h l p =
    let bound = length-subset (x ∷ nxt) live v.next_sorted hl w in
    served_first live id ops x nxt [] h l (omega (arith, bound))
served_next_round live id (pops ∷ ops) (x ∷ cur) nxt hl v w h l p = contains_later id x _ (
    served_next_round live id ops cur nxt hl
      (pop_next-IsValid (record { current_round = x ∷ cur; next_round = nxt }) v) w h l
      (omega arith))

-- When the queue is valid and holds only live ids, an id that is queued and not removed is popped
-- within 2·n + 1 pops, where n is the number of live ids, whatever live ids are scheduled
-- meanwhile.
pub served_within :
    (live : List ℕ) (id : ℕ) (q : FairIdQueue) (ops : List Op)
    → IsSorted live
    → IsValid q
    → ((j : ℕ) → contains q j ≡ true → Set.contains j live ≡ true)
    → contains q id ≡ true
    → Leaves live id ops
    → 2 * length live < pop_count ops
    → Set.contains id (served q ops) ≡ true
unfolding contains
served_within live id q ops hl v w h l p =
    let bound =
      length-subset q.current_round live v.current_sorted hl (λ j k. w j (ground arith)) in
    elim (Bool-cases (Set.contains id q.current_round)) [
      | inl now ↦
          served_in_round live id ops q.current_round q.next_round now l
            (omega (arith, position-lt-length id q.current_round now, bound))
      | inr later ↦
          served_next_round live id ops q.current_round q.next_round hl v
            (λ j k. w j (ground arith)) (ground arith) l (omega (arith, bound))
    ]
