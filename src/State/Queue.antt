-- ===== src/State/Queue.antt =====
-- Pending paths, uncertainty and batches: `queue_path`, `mark_uncertain`, `flush_if_due`, `flush`.
use watchbound.Base.{
  ℕ, ◌+◌, ◌-◌, ◌%◌, ◌^◌, [], ◌∷◌, ◌++◌, Bool, false, ◌&&◌, ◌||◌, not, Option, none, some,
  if◌then◌else◌, length, is_empty, ltb, leb, ◌==◌, min,
}
use watchbound.Order.{ℕ_ord, list_ord, ◌=?◌}
use watchbound.BTreeSet
use watchbound.FilePath.{FilePath}
use watchbound.Types.{
  UncertainReason, topology_race, consumer_backpressure, ChangeBatch, strongest_uncertainty,
}
use watchbound.State.{SubscriptionState, Output, PendingRootRecovery}
use watchbound.State.Observe.{coverage, root_state}

-- Paths chosen under an older generation are replaced by the root.
unfoldable pub adopt_generation : SubscriptionState → SubscriptionState
adopt_generation s = elim s.pending_generation [
  | some generation ↦
      if not (generation == s.selection_generation)
      then record s {
        pending_paths = s.root ∷ [];
        pending_generation = some s.selection_generation;
        uncertain_reason = some topology_race;
      }
      else s
  | none ↦ record s { pending_generation = some s.selection_generation }
]

unfoldable pub queue_path : ℕ → SubscriptionState → FilePath → SubscriptionState
queue_path now s path =
    let t = adopt_generation s in
    record t {
      pending_paths =
          if path =? t.root
          then path ∷ []
          else if BTreeSet.contains t.root t.pending_paths
          then t.pending_paths
          else BTreeSet.insert path t.pending_paths;
      pending_started = elim t.pending_started [ some started ↦ some started | none ↦ some now ];
    }

abbrev pub u64_max : ℕ
u64_max = 2 ^ 64 - 1

abbrev pub note_later : UncertainReason → Option PendingRootRecovery → Option PendingRootRecovery
note_later reason none = none
note_later reason (some r) =
    some (record r { later_uncertainty = some (strongest_uncertainty r.later_uncertainty reason) })

-- The `saturating_add` is written out.
unfoldable pub mark_uncertain :
    ℕ → SubscriptionState → UncertainReason → FilePath → SubscriptionState
mark_uncertain now s reason invalidated_path =
    queue_path now
      (record s {
        uncertainty_epoch = min (s.uncertainty_epoch + 1) u64_max;
        root_recovery = note_later reason s.root_recovery;
        uncertain_reason = some (strongest_uncertainty s.uncertain_reason reason);
      })
      invalidated_path

pub data SendResult : Type 0 where
  sent full disconnected : SendResult

-- `SyncSender::try_send`.
unfoldable pub try_send : Output → ChangeBatch → Output × SendResult
try_send o batch =
    if not o.connected
    then (o, disconnected)
    else if ltb (length o.queued) o.capacity
    then (record o { queued = o.queued ++ (batch ∷ []) }, sent)
    else (o, full)

abbrev pub get_or_selection : SubscriptionState → ℕ
get_or_selection s = elim s.pending_generation [ some g ↦ g | none ↦ s.selection_generation ]

unfoldable pub batch_of : SubscriptionState → ChangeBatch
batch_of s = record {
  sequence = s.next_sequence;
  exclusion_generation = get_or_selection s;
  root_state = root_state s;
  invalidated_paths = s.pending_paths;
  coverage = coverage s;
}

-- The pending paths are taken whatever comes of the batch.
abbrev pub taken : SubscriptionState → SubscriptionState
taken s = record s { pending_generation = none; pending_paths = []; pending_started = none }

-- The `match` on what `try_send` returned. The number after the largest u64 is 0, as in a build
-- without overflow checks.
unfoldable pub after_send : ℕ → SubscriptionState → Output × SendResult → SubscriptionState
after_send now s (output, sent) =
    let stats = s.stats in
    record (taken s) {
      output = output;
      next_sequence = (s.next_sequence + 1) % 2 ^ 64;
      stats = record stats { batches_delivered = stats.batches_delivered + 1 };
    }
after_send now s (output, full) =
    let stats = s.stats in
    mark_uncertain now
      (record (taken s) {
        output = output;
        stats = record stats { batches_dropped = stats.batches_dropped + 1 };
      })
      consumer_backpressure s.root
after_send now s (output, disconnected) = record (taken s) { output = output }

-- `flush` from the construction of the batch on.
unfoldable pub send_batch : ℕ → SubscriptionState → SubscriptionState
send_batch now s = after_send now s (try_send s.output (batch_of s))

unfoldable pub flush : ℕ → SubscriptionState → SubscriptionState
flush now s =
    if is_empty s.pending_paths
    then record s { pending_started = none }
    else send_batch now (
        if ltb s.options.max_batch_paths (length s.pending_paths)
        then mark_uncertain now s consumer_backpressure s.root
        else s)

unfoldable pub is_due : ℕ → SubscriptionState → Bool
is_due now s = leb s.options.max_batch_paths (length s.pending_paths) || (elim s.pending_started [
  | none ↦ false
  | some started ↦ leb s.options.batch_window (now - started)
])

unfoldable pub flush_if_due : ℕ → SubscriptionState → SubscriptionState
flush_if_due now s = if s.topology_barriers == 0 && is_due now s then flush now s else s
