-- ===== src/Events/Framed.antt =====
-- What the steps of an event leave of the subscription's stream, and which paths they account for.
use watchbound.Base.{ℕ, ◌≡◌, refl, ◌∙◌, ap, arith}
use watchbound.Order.{ℕ_ord, list_ord}
use watchbound.BTreeSet
use watchbound.FilePath.{FilePath}
use watchbound.Types.{UncertainReason, consumer_backpressure, root_self_event, RootLossEvidence}
use watchbound.State.{SubscriptionState}
use watchbound.State.Observe.{
  Host, publish_resource_counts, publish_root_state, reset_observed_boundary_identities,
}
use watchbound.State.Queue.{queue_path, adopt_generation, mark_uncertain}
use watchbound.State.Deferred.{remove_deferred_subtree}
use watchbound.State.RootLoss.{
  mark_root_lost, reject_transactions, reject_reconciliation, reject_exclusion_update,
}
use watchbound.State.Truth.{Accounts, queue_path-Accounts, mark_uncertain-coverage}
use watchbound.Worker.{Worker}
use watchbound.Worker.Hub.{Hub}
use watchbound.Worker.Removal.{remove_subscription_subtree}
use watchbound.Events.{Mask, note_self, note_path, scan_directory, follow_directory}

-- What handling an event leaves of the subscription's stream.
pub record IsFramed (s t : SubscriptionState) : Type 0 where
  pub output : t.output ≡ s.output
  pub options : t.options ≡ s.options
  pub root : t.root ≡ s.root

pub IsFramed-trans : (s t u : SubscriptionState) → IsFramed s t → IsFramed t u → IsFramed s u
IsFramed-trans s t u a b = record {
  output = b.output ∙ a.output;
  options = b.options ∙ a.options;
  root = b.root ∙ a.root;
}

pub queue_path-IsFramed :
    (now : ℕ) (s : SubscriptionState) (path : FilePath) → IsFramed s (queue_path now s path)
unfolding queue_path adopt_generation
queue_path-IsFramed now s path = ground arith

pub mark_uncertain-IsFramed :
    (now : ℕ) (s : SubscriptionState) (reason : UncertainReason) (path : FilePath)
    → IsFramed s (mark_uncertain now s reason path)
unfolding mark_uncertain queue_path adopt_generation
mark_uncertain-IsFramed now s reason path = ground arith

pub reject_transactions-IsFramed :
    (host : Host) (s : SubscriptionState) → IsFramed s (reject_transactions host s)
unfolding reject_transactions reject_reconciliation reject_exclusion_update
    reset_observed_boundary_identities
reject_transactions-IsFramed host s = ground arith

pub mark_root_lost-IsFramed :
    (host : Host) (s : SubscriptionState) (evidence : RootLossEvidence)
    → IsFramed s (mark_root_lost host s evidence)
unfolding mark_root_lost publish_resource_counts publish_root_state
mark_root_lost-IsFramed host s evidence =
    let r = reject_transactions-IsFramed host _ in
    let m = mark_uncertain-IsFramed host.now _ _ s.root in
    record { output = m.output ∙ r.output; options = m.options ∙ r.options; root = m.root ∙ r.root }

pub note_self-IsFramed :
    (host : Host) (w : Worker) (s : SubscriptionState) (d : ℕ) (m : Mask) (directory : FilePath)
    → IsFramed s (note_self host w s d m directory).1
unfolding note_self
note_self-IsFramed host w s d m directory =
    ground (arith, mark_root_lost-IsFramed host s root_self_event)

pub note_path-IsFramed :
    (now : ℕ) (s : SubscriptionState) (path : FilePath) → IsFramed s (note_path now s path)
unfolding note_path
note_path-IsFramed now s path = ground (
  arith,
  mark_uncertain-IsFramed now s consumer_backpressure s.root,
  queue_path-IsFramed now s s.root,
  queue_path-IsFramed now s path,
)

-- The root accounts for every path.
pub root-covers :
    (s t : SubscriptionState) (path : FilePath)
    → t.root ≡ s.root
    → Accounts t s.root
    → Accounts t path
root-covers s t path r h = ground (arith, ap (λ x. BTreeSet.contains x t.pending_paths) r)

pub note_path-Accounts :
    (now : ℕ) (s : SubscriptionState) (path : FilePath) → Accounts (note_path now s path) path
unfolding note_path
note_path-Accounts now s path =
    let m = mark_uncertain now s consumer_backpressure s.root in
    let q = queue_path now s s.root in
    ground (
      arith,
      root-covers s m path (mark_uncertain-IsFramed now s consumer_backpressure s.root).root
          (mark_uncertain-coverage now s consumer_backpressure s.root).0,
      root-covers s q path (queue_path-IsFramed now s s.root).root
          (queue_path-Accounts now s s.root).0,
      (queue_path-Accounts now s path).0,
    )

pub scan_directory-same :
    (s : SubscriptionState) (path : FilePath)
    → IsFramed s (scan_directory s path) × ((scan_directory s path).pending_paths ≡ s.pending_paths)
unfolding scan_directory
scan_directory-same s path = (record { output = refl; options = refl; root = refl }, refl)

pub remove_subtree-same :
    (w : Worker) (s : SubscriptionState) (path : FilePath)
    → IsFramed s (remove_subscription_subtree w s path).1
      × ((remove_subscription_subtree w s path).1.pending_paths ≡ s.pending_paths)
unfolding remove_subscription_subtree remove_deferred_subtree publish_resource_counts
remove_subtree-same w s path = ground arith

pub follow_directory-same :
    (h : Hub) (s : SubscriptionState) (m : Mask) (path : FilePath)
    → IsFramed s (follow_directory h s m path).1
      × ((follow_directory h s m path).1.pending_paths ≡ s.pending_paths)
unfolding follow_directory
follow_directory-same h s m path =
    let (r, p) = remove_subtree-same h.worker s path in
    let (f, q) = scan_directory-same s path in
    let (g, k) = scan_directory-same (remove_subscription_subtree h.worker s path).1 path in
    ground (
      arith, r.output, r.options, r.root, p, f.output, f.options, f.root, q, g.output, g.options,
      g.root, k,
    )
