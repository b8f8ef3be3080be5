-- ===== src/State/Delivery.antt =====
-- What a flush does with the pending paths, the consumer and the coverage.
use watchbound.Base.{
  ℕ, ◌+◌, ◌%◌, ◌^◌, ◌≤◌, ◌<◌, ◌≡◌, ◌⊎◌, inl, inr, refl, [], ◌∷◌, ◌++◌, true, false, ◌||◌, arith,
  is_empty, Bool-cases, if◌then◌else◌, length, ltb, ltb→lt, ltb-false→le,
}
use watchbound.Order.{ℕ_ord, list_ord, =?_refl}
use watchbound.BTreeSet
use watchbound.FilePath.{FilePath}
use watchbound.Types.{uncertain, UncertainReason, consumer_backpressure, ChangeBatch}
use watchbound.State.{SubscriptionState, Output}
use watchbound.State.Observe.{coverage}
use watchbound.State.Queue.{
  queue_path, adopt_generation, mark_uncertain, try_send, sent, full, disconnected, batch_of, taken,
  after_send, send_batch, flush,
}
use watchbound.State.Truth.{Accounts, mark_uncertain-coverage}

abbrev pub BatchAccounts : ChangeBatch → FilePath → FilePath → Type 0
BatchAccounts batch root path =
    (BTreeSet.contains path batch.invalidated_paths
      || BTreeSet.contains root batch.invalidated_paths)
    ≡ true

abbrev pub extended : Output → ChangeBatch → Output
extended o batch = record o { queued = o.queued ++ (batch ∷ []) }

-- The consumer gets one more batch: numbered in sequence, as a u64 that wraps, within the limit, and accounting for
-- every path that was pending.
pub record Delivered (s t : SubscriptionState) : Type 0 where
  pub batch : ChangeBatch
  pub queued : t.output ≡ extended s.output batch
  pub numbered : batch.sequence ≡ s.next_sequence
  pub next_number : t.next_sequence ≡ (s.next_sequence + 1) % 2 ^ 64
  pub bounded : length batch.invalidated_paths ≤ s.options.max_batch_paths
  pub accounts : (path : FilePath) → Accounts s path → BatchAccounts batch s.root path
  pub emptied : t.pending_paths ≡ []
  pub had_room : length s.output.queued < s.output.capacity

-- The queue is full: nothing is sent, no number is used up, the whole root is pending again and
-- the coverage is uncertain.
pub record Dropped (s t : SubscriptionState) : Type 0 where
  pub unsent : t.output ≡ s.output
  pub same_number : t.next_sequence ≡ s.next_sequence
  pub whole_root : t.pending_paths ≡ s.root ∷ []
  pub reason : UncertainReason
  pub reported : coverage t ≡ uncertain reason
  pub no_room : s.output.capacity ≤ length s.output.queued

-- The consumer is gone.
pub record Abandoned (s t : SubscriptionState) : Type 0 where
  pub unsent : t.output ≡ s.output
  pub same_number : t.next_sequence ≡ s.next_sequence
  pub gone : s.output.connected ≡ false

-- What marking the root leaves alone, and what is pending then.
pub record RootMarked (s t : SubscriptionState) : Type 0 where
  pub output : t.output ≡ s.output
  pub next_sequence : t.next_sequence ≡ s.next_sequence
  pub root : t.root ≡ s.root
  pub options : t.options ≡ s.options
  pub pending_paths : t.pending_paths ≡ s.root ∷ []

pub mark_uncertain-RootMarked :
    (now : ℕ) (s : SubscriptionState) (reason : UncertainReason)
    → RootMarked s (mark_uncertain now s reason s.root)
unfolding mark_uncertain queue_path adopt_generation
mark_uncertain-RootMarked now s reason = ground (arith, =?_refl s.root)

try_send-cases :
    (o : Output) (batch : ChangeBatch)
    → ((o.connected ≡ false) × (try_send o batch ≡ (o, disconnected)))
      ⊎ (((length o.queued < o.capacity)
            × (try_send o batch ≡ (record o { queued = o.queued ++ (batch ∷ []) }, sent)))
          ⊎ ((o.capacity ≤ length o.queued) × (try_send o batch ≡ (o, full))))
unfolding try_send
try_send-cases o batch = elim (Bool-cases o.connected) [
  | inr off ↦ inl (off, rw (off, try_send) refl)
  | inl on ↦ inr (elim (Bool-cases (ltb (length o.queued) o.capacity)) [
    | inl room ↦ inl (ltb→lt _ _ room, rw (on, try_send) (rw (room, if◌then◌else◌) refl))
    | inr no_room ↦
        inr (ltb-false→le _ _ no_room, rw (on, try_send) (rw (no_room, if◌then◌else◌) refl))
  ])
]

batch_of-Accounts :
    (s : SubscriptionState) (path : FilePath)
    → Accounts s path
    → BatchAccounts (batch_of s) s.root path
unfolding batch_of
batch_of-Accounts s path h = h

-- The state whose batch was not taken, before the loss is recorded.
abbrev dropped_state : SubscriptionState → SubscriptionState
dropped_state s =
    let stats = s.stats in
    record (taken s) { stats = record stats { batches_dropped = stats.batches_dropped + 1 } }

send_batch-cases :
    (now : ℕ) (s : SubscriptionState)
    → length s.pending_paths ≤ s.options.max_batch_paths
    → Delivered s (send_batch now s)
      ⊎ (Dropped s (send_batch now s) ⊎ Abandoned s (send_batch now s))
unfolding send_batch
send_batch-cases now s h = elim (try_send-cases s.output (batch_of s)) [
  | inl (off, e) ↦
      inr
        (inr (rw e (unfold after_send in record { unsent = refl; same_number = refl; gone = off })))
  | inr (inl (room, e)) ↦ inl (
      rw e (
        unfold after_send in
        record {
          batch = batch_of s;
          queued = refl;
          numbered = unfold batch_of in refl;
          next_number = refl;
          bounded = unfold batch_of in h;
          accounts = batch_of-Accounts s;
          emptied = refl;
          had_room = room;
        }))
  | inr (inr (no_room, e)) ↦
      let d = dropped_state s in
      let marked = mark_uncertain-RootMarked now d consumer_backpressure in
      let (_, (reason, reported, _)) = mark_uncertain-coverage now d consumer_backpressure s.root in
      inr (
        inl (
          rw e (
            unfold after_send in
            record {
              unsent = marked.output;
              same_number = marked.next_sequence;
              whole_root = marked.pending_paths;
              reason = reason;
              reported = reported;
              no_room = no_room;
            })))
]

-- Marking the root first changes nothing of what a flush achieves.
Delivered-RootMarked : (s m t : SubscriptionState) → RootMarked s m → Delivered m t → Delivered s t
unfolding BTreeSet.contains
Delivered-RootMarked s m t k d = record {
  batch = d.batch;
  queued = ground (arith, d.queued, k.output);
  numbered = ground (arith, d.numbered, k.next_sequence);
  next_number = ground (arith, d.next_number, k.next_sequence);
  bounded = ground (arith, d.bounded, k.options);
  accounts = λ path h. ground (arith, d.accounts s.root, k.root, k.pending_paths, =?_refl s.root);
  emptied = d.emptied;
  had_room = ground (arith, d.had_room, k.output);
}

Dropped-RootMarked : (s m t : SubscriptionState) → RootMarked s m → Dropped m t → Dropped s t
Dropped-RootMarked s m t k d = record {
  unsent = ground (arith, d.unsent, k.output);
  same_number = ground (arith, d.same_number, k.next_sequence);
  whole_root = ground (arith, d.whole_root, k.root);
  reason = d.reason;
  reported = d.reported;
  no_room = ground (arith, d.no_room, k.output);
}

Abandoned-RootMarked : (s m t : SubscriptionState) → RootMarked s m → Abandoned m t → Abandoned s t
Abandoned-RootMarked s m t k d = record {
  unsent = ground (arith, d.unsent, k.output);
  same_number = ground (arith, d.same_number, k.next_sequence);
  gone = ground (arith, d.gone, k.output);
}

-- When paths are pending and a batch may hold at least one path, a flush delivers one batch, with
-- the next number, a u64 that wraps, and within the limit, that accounts for every pending path;
-- or, the queue being full, it sends nothing, leaves the root pending and reports uncertain
-- coverage; or it finds the consumer gone.
pub flush_accounts :
    (now : ℕ) (s : SubscriptionState)
    → is_empty s.pending_paths ≡ false
    → 1 ≤ s.options.max_batch_paths
    → Delivered s (flush now s) ⊎ (Dropped s (flush now s) ⊎ Abandoned s (flush now s))
unfolding flush
flush_accounts now s h positive =
    elim (Bool-cases (ltb s.options.max_batch_paths (length s.pending_paths))) [
      | inr fits ↦ rw (h, fits) (send_batch-cases now s (ltb-false→le _ _ fits))
      | inl over ↦
          let m = mark_uncertain now s consumer_backpressure s.root in
          let k = mark_uncertain-RootMarked now s consumer_backpressure in
          rw (h, over)
            (elim (send_batch-cases now m (ground (arith, k.pending_paths, k.options))) [
              | inl d ↦ inl (Delivered-RootMarked s m _ k d)
              | inr (inl d) ↦ inr (inl (Dropped-RootMarked s m _ k d))
              | inr (inr d) ↦ inr (inr (Abandoned-RootMarked s m _ k d))
            ])
    ]
