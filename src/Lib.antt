-- ===== src/Lib.antt =====
-- The engine of watchbound: directory trees on Linux are watched through inotify, and subscribers
-- receive bounded batches of invalidated paths with the coverage that holds for them. A worker
-- thread owns all subscriptions and the registry of native watches; threads that call the engine
-- send it commands and wait for acknowledgements, and share attempts and counters with it.
--
-- The parts, and where they stand in the repository:
--   Base, Order, BTreeSet, BTreeMap, Result: shared names, ordered keys, the standard library's
--     sets and maps as sorted lists, and results with the chaining of `?`.
--   Error: engine/src/error.rs; the codes, their retry policy, causes, the bound on messages.
--   Attempt: engine/src/lib.rs; the atomic state of an establishment attempt, its commits and
--     cancellation. Loops keeps the compare-exchange loops as the source has them, with the calls
--     of other threads between a load and its exchange as a parameter; fuel is a list of rounds, and
--     the result tells which of these operations had not been done when the loop ended.
--   Lifecycle: engine/src/lib.rs, `SubscriptionControl`; topology transactions and disposal, cut at
--     their atomic operations and waits, as moves of several threads in any order.
--   Fair: engine/src/backend/linux.rs, `FairIdQueue`; who takes the next topology turn.
--   FilePath: the behaviour of std::path that the engine uses, on absolute and relative paths.
--   Exclusion: engine/src/backend/linux.rs, `ValidatedExclusionPolicy` and its validation, the
--     matching of paths, and the roots to scan again after a replacement.
--   Types: engine/src/lib.rs, the public values; and the order of reasons in the worker.
--   State: engine/src/backend/linux.rs, `SubscriptionState`: Observe reads it, Queue queues paths,
--     marks uncertainty and flushes, Deferred defers directories, RootLoss loses the root.
--     Delivery, Stream, Truth, Deferral and RootLoss/Rejection hold the proofs about them.
--   Worker: engine/src/backend/linux.rs, the registry of native watches: lifetimes of descriptors
--     in Worker, `add_interest` in Interests, `remove_interest` in Removal, `handle_ignored` in
--     Ignored; Lifetimes, Claims, Budget and Ignored/Attribution hold the proofs. Kernel answers
--     are arguments; calls of `inotify_rm_watch` are logged.
--   Pending: engine/src/backend/linux.rs, the records of a disposal and of what is owed at its end.
--   Worker/Hub: the worker with its subscriptions, its turn queues and its published counters.
--   Quantum: the loops `while work < MAX` of the worker, as steps that take an item, move to the
--     next phase or end, with a budget of items and fuel for the steps.
--   Sweep: engine/src/backend/linux.rs, `next_set_path` and `next_map_path`, and what a sweep by
--     them leaves behind its cursor.
--   Teardown, Disposal: engine/src/backend/linux.rs, the teardown of an establishment and the
--     disposal of a subscription, from their beginnings through their turns to their answers.
--   Update, Reconcile, Recovery: engine/src/backend/linux.rs, the three transactions:
--     `progress_exclusion_update`, `progress_reconciliation`, `progress_root_recovery`, with their
--     commits and failures. Each sweeps or drains a subscription's directories in turns.
--   Topology: engine/src/backend/linux.rs, `open_topology_directory`.
--   Commands: engine/src/backend/linux.rs, the arms of `process_command_turn` that start one of the
--     three transactions, with their guards.
--   Events: engine/src/backend/linux.rs, `handle_native_event` and `handle_interest_event`.
--   Records: engine/src/backend/linux.rs, `next_native_event`, with the layout of a header of 32-bit
--     fields as an argument, in which a negative descriptor is its bit pattern; Records/Written holds the events as the kernel documents them.
--   Tests: the results at concrete inputs.
--
-- Conventions: times are milliseconds and the clock is an argument; u64 additions that saturate or
-- are checked have their limit written out, and the sequence number that a flush adds to wraps, as
-- in a build without overflow checks (with them the program stops there); the counters of
-- statistics have no bound; an output channel is its queue, its capacity and
-- whether the receiver is there. Loops over sets are recursion on the sorted list. Three rounds
-- suffice for a compare-exchange loop of an attempt, since its state advances at most twice before
-- it leaves the states that the loop retries on. A turn takes 64 items; its fuel exceeds 64 by the
-- moves between phases that are possible and one step for the end: 72 for a teardown, 77 for a
-- disposal, 68 for a removal and for a sweep, 65 for a drain. Enough turns are shown to end each
-- of these loops, so the fuel never runs out there. Where the source captures the root's identity
-- several times in one operation, each capture is an argument of its own.
--
-- Not modelled: the texts of errors, threads, polling and kernel buffers, the turns that read
-- directories, the loop over native events, subscribing and shutting down, and the Node binding.
-- Code compiled for tests is left out.
pub mod Base
pub mod Order
pub mod BTreeSet
pub mod BTreeMap
pub mod Error
pub mod Result
pub mod Fair
pub mod Attempt
pub mod FilePath
pub mod Exclusion
pub mod Types
pub mod Pending
pub mod State
pub mod Quantum
pub mod Sweep
pub mod Worker
pub mod Teardown
pub mod Disposal
pub mod Update
pub mod Events
pub mod Records
pub mod Commands
pub mod Recovery
pub mod Topology
pub mod Reconcile
pub mod Lifecycle
pub mod Tests
