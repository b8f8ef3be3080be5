-- ===== src/State/Stream.antt =====
-- The stream of batches over any history: what the worker queues and flushes, and what the
-- consumer takes, in any order.
use watchbound.Base.{
  ℕ, suc, ◌+◌, ◌%◌, ◌^◌, ◌≤◌, ◌<◌, ◌≡◌, ◌⊎◌, inl, inr, refl, List, [], ◌∷◌, ◌++◌, false, arith,
  is_empty, Bool-cases, length, length-append, append_assoc, ap, ◌&&◌, ◌==◌, ltb, ◌∙◌,
}
use watchbound.FilePath.{FilePath}
use watchbound.Types.{UncertainReason, ChangeBatch, consumer_backpressure}
use watchbound.State.{SubscriptionState, Output}
use watchbound.State.Queue.{
  queue_path, adopt_generation, mark_uncertain, u64_max, flush, flush_if_due, send_batch, is_due,
  after_send, SendResult,
}
use watchbound.State.Delivery.{extended, flush_accounts}

-- What a worker call does to the stream: nothing, or one more batch with the next u64.
abbrev pub Streams : SubscriptionState → SubscriptionState → Type 0
Streams s t =
    ((t.output ≡ s.output) × (t.next_sequence ≡ s.next_sequence))
    ⊎ ((batch : ChangeBatch) × (t.output ≡ extended s.output batch)
        × (batch.sequence ≡ s.next_sequence)
        × (t.next_sequence ≡ (s.next_sequence + 1) % 2 ^ 64)
        × (length s.output.queued < s.output.capacity))

pub queue_path-Streams :
    (now : ℕ) (s : SubscriptionState) (path : FilePath)
    → ((queue_path now s path).output ≡ s.output)
      × ((queue_path now s path).next_sequence ≡ s.next_sequence)
      × ((queue_path now s path).options ≡ s.options)
unfolding queue_path adopt_generation
queue_path-Streams now s path = ground arith

pub mark_uncertain-Streams :
    (now : ℕ) (s : SubscriptionState) (reason : UncertainReason) (path : FilePath)
    → ((mark_uncertain now s reason path).output ≡ s.output)
      × ((mark_uncertain now s reason path).next_sequence ≡ s.next_sequence)
      × ((mark_uncertain now s reason path).options ≡ s.options)
unfolding mark_uncertain queue_path adopt_generation
mark_uncertain-Streams now s reason path = ground arith

send_batch-options :
    (now : ℕ) (s : SubscriptionState) (r : Output × SendResult)
    → (after_send now s r).options ≡ s.options
unfolding after_send
send_batch-options now s (o, SendResult.sent) = refl
send_batch-options now s (o, SendResult.full) = (mark_uncertain-Streams now _ _ s.root).2
send_batch-options now s (o, SendResult.disconnected) = refl

flush-options : (now : ℕ) (s : SubscriptionState) → (flush now s).options ≡ s.options
unfolding flush send_batch
flush-options now s = elim (Bool-cases (is_empty s.pending_paths)) [
  | inl none_pending ↦ rw none_pending refl
  | inr pending ↦
      rw pending (elim (Bool-cases (ltb s.options.max_batch_paths (length s.pending_paths))) [
        | inr fits ↦ rw fits (send_batch-options now s _)
        | inl over ↦ rw over (
            send_batch-options now _ _
            ∙ (mark_uncertain-Streams now s consumer_backpressure s.root).2)
      ])
]

flush-Streams :
    (now : ℕ) (s : SubscriptionState) → 1 ≤ s.options.max_batch_paths → Streams s (flush now s)
flush-Streams now s h = elim (Bool-cases (is_empty s.pending_paths)) [
  | inl none_pending ↦ inl (unfold flush in rw none_pending (refl, refl))
  | inr pending ↦ elim (flush_accounts now s pending h) [
    | inl d ↦ inr (d.batch, d.queued, d.numbered, d.next_number, d.had_room)
    | inr (inl d) ↦ inl (d.unsent, d.same_number)
    | inr (inr d) ↦ inl (d.unsent, d.same_number)
  ]
]

pub data Event : Type 0 where
  queues : FilePath → Event
  marks : UncertainReason → FilePath → Event
  flushes flushes_if_due takes leaves : Event

-- The worker's state and what the consumer has taken so far.
pub record Session : Type 0 where
  pub state : SubscriptionState
  pub received : List ChangeBatch

-- `Receiver::try_recv` on the other end.
take_batch : Session → Session
take_batch c = elim c.state.output.queued [
  | [] ↦ c
  | batch ∷ rest ↦
      let s = c.state in
      let o = s.output in
      record {
        state = record s { output = record o { queued = rest } };
        received = c.received ++ (batch ∷ []);
      }
]

-- The consumer drops its receiver.
leave : Session → Session
leave c =
    let s = c.state in
    let o = s.output in record c { state = record s { output = record o { connected = false } } }

unfoldable pub step : Session → ℕ × Event → Session
unfolding take_batch leave
step c (now, queues path) = record c { state = queue_path now c.state path }
step c (now, marks reason path) = record c { state = mark_uncertain now c.state reason path }
step c (now, flushes) = record c { state = flush now c.state }
step c (now, flushes_if_due) = record c { state = flush_if_due now c.state }
step c (now, takes) = take_batch c
step c (now, leaves) = leave c

unfoldable pub run : Session → List (ℕ × Event) → Session
run c [] = c
run c (e ∷ es) = run (step c e) es

-- Numbers that count up one by one.
abbrev pub CountUp : ℕ → List ChangeBatch → Type 0
CountUp n [] = Unit {0}
CountUp n (b ∷ bs) = (b.sequence ≡ n) × CountUp (suc n) bs

CountUp-append :
    (n : ℕ) (xs : List ChangeBatch) (b : ChangeBatch)
    → CountUp n xs
    → b.sequence ≡ n + length xs
    → CountUp n (xs ++ (b ∷ []))
CountUp-append n [] b h e = (omega (arith, e), tt)
CountUp-append n (x ∷ xs) b h e = (h.0, CountUp-append (suc n) xs b h.1 (omega (arith, e)))

-- All batches so far, taken or not, are numbered 1, 2, …; and the queue keeps to its capacity.
pub record IsNumbered (c : Session) : Type 0 where
  pub limit : 1 ≤ c.state.options.max_batch_paths
  pub numbered : CountUp 1 (c.received ++ c.state.output.queued)
  pub next : c.state.next_sequence ≡ suc (length (c.received ++ c.state.output.queued))
  pub within : length c.state.output.queued ≤ c.state.output.capacity

Streams-IsNumbered :
    (c : Session) (t : SubscriptionState)
    → IsNumbered c
    → Streams c.state t
    → t.options ≡ c.state.options
    → c.state.next_sequence < u64_max
    → IsNumbered (record c { state = t })
Streams-IsNumbered c t v (inl (o, n)) e w = record {
  limit = rw e v.limit;
  numbered = rw o v.numbered;
  next = rw (o, n) v.next;
  within = rw o v.within;
}
Streams-IsNumbered c t v (inr (b, o, n, m, room)) e w =
    let q = c.state.output.queued in
    let regroup = append_assoc c.received q (b ∷ []) in
    let len = length-append (c.received ++ q) (b ∷ []) in
    record {
      limit = rw e v.limit;
      numbered =
          rw (o, ← regroup)
            (CountUp-append 1 (c.received ++ q) b v.numbered (omega (arith, n, v.next)));
      next = rw (o, m, ← regroup) (omega (arith, v.next, len, w));
      within = rw o (omega (arith, length-append q (b ∷ []), room));
    }

take_batch-IsNumbered :
    (c : Session) (queued : List ChangeBatch)
    → c.state.output.queued ≡ queued
    → IsNumbered c
    → IsNumbered (take_batch c)
unfolding take_batch
take_batch-IsNumbered c [] e v = rw (e, take_batch) v
take_batch-IsNumbered c (b ∷ rest) e v =
    let regroup = append_assoc c.received (b ∷ []) rest in
    rw (e, take_batch)
      (record {
        limit = v.limit;
        numbered = rw regroup (rw e at v.numbered);
        next = rw regroup (rw e at v.next);
        within = omega (arith, ap length e, v.within);
      })

flush_if_due-Streams :
    (now : ℕ) (s : SubscriptionState)
    → 1 ≤ s.options.max_batch_paths
    → Streams s (flush_if_due now s) × ((flush_if_due now s).options ≡ s.options)
unfolding flush_if_due
flush_if_due-Streams now s h = elim (Bool-cases (s.topology_barriers == 0 && is_due now s)) [
  | inl due ↦ rw due (flush-Streams now s h, flush-options now s)
  | inr early ↦ rw early (inl (refl, refl), refl)
]

-- A call uses up one number at most.
abbrev Advances : Session → Session → Type 0
Advances c d = d.state.next_sequence ≤ c.state.next_sequence + 1

Streams-Advances : (s t : SubscriptionState) → Streams s t → t.next_sequence ≤ s.next_sequence + 1
Streams-Advances s t (inl (o, n)) = omega (arith, n)
Streams-Advances s t (inr (b, o, n, m, room)) = omega (arith, m)

take_batch-Advances :
    (c : Session) (queued : List ChangeBatch)
    → c.state.output.queued ≡ queued
    → Advances c (take_batch c)
unfolding take_batch
take_batch-Advances c [] e = rw (e, take_batch) (omega arith)
take_batch-Advances c (b ∷ rest) e = rw (e, take_batch) (omega arith)

step-IsNumbered :
    (c : Session) (e : ℕ × Event)
    → IsNumbered c
    → c.state.next_sequence < u64_max
    → IsNumbered (step c e) × Advances c (step c e)
unfolding step
step-IsNumbered c (now, queues path) v w =
    let (o, n, p) = queue_path-Streams now c.state path in
    (Streams-IsNumbered c _ v (inl (o, n)) p w, omega (arith, n))
step-IsNumbered c (now, marks reason path) v w =
    let (o, n, p) = mark_uncertain-Streams now c.state reason path in
    (Streams-IsNumbered c _ v (inl (o, n)) p w, omega (arith, n))
step-IsNumbered c (now, flushes) v w =
    let st = flush-Streams now c.state v.limit in
    (
      Streams-IsNumbered c _ v st (flush-options now c.state) w,
      Streams-Advances c.state (flush now c.state) st,
    )
step-IsNumbered c (now, flushes_if_due) v w =
    let (st, p) = flush_if_due-Streams now c.state v.limit in
    (Streams-IsNumbered c _ v st p w, Streams-Advances c.state (flush_if_due now c.state) st)
step-IsNumbered c (now, takes) v w = (
  take_batch-IsNumbered c c.state.output.queued refl v,
  take_batch-Advances c c.state.output.queued refl,
)
step-IsNumbered c (now, leaves) v w = (
  record { limit = v.limit; numbered = v.numbered; next = v.next; within = v.within },
  omega arith,
)

-- From a session that is numbered, whatever is queued, marked, flushed and taken in whatever order,
-- in no more events than numbers are left up to the largest u64, the batches, taken or still
-- queued, are numbered 1, 2, … without a gap, and the output queue keeps to its capacity.
pub run-IsNumbered :
    (c : Session) (es : List (ℕ × Event))
    → IsNumbered c
    → c.state.next_sequence + length es ≤ u64_max
    → IsNumbered (run c es)
unfolding run
run-IsNumbered c [] v w = v
run-IsNumbered c (e ∷ es) v w =
    let (next, advances) = step-IsNumbered c e v (omega (arith, w)) in
    run-IsNumbered (step c e) es next (omega (arith, advances, w))
