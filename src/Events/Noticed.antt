-- ===== src/Events/Noticed.antt =====
-- What an event on a watched directory leaves: the pending paths or a batch account for it.
use watchbound.Base.{
  ℕ, ◌≤◌, ◌≡◌, ◌⊎◌, inl, inr, refl, List, [], ◌∷◌, true, false, not, ◌&&◌, ◌||◌, Option, length,
  is_some, is_empty, ltb, leb, ◌==◌, ◌∙◌, ap, sym, subst, arith, Bool-cases, if◌then◌else◌,
}
use watchbound.Order.{ℕ_ord, list_ord, =?_refl}
use watchbound.BTreeSet
use watchbound.FilePath.{FilePath, Name}
use watchbound.Attempt.{Attempt}
use watchbound.Types.{ChangeBatch, topology_race, consumer_backpressure}
use watchbound.State.{SubscriptionState, Output}
use watchbound.State.Observe.{Host, event_is_excluded}
use watchbound.State.Queue.{mark_uncertain, flush, SendResult, after_send, send_batch}
use watchbound.State.Truth.{Accounts, mark_uncertain-coverage}
use watchbound.State.Delivery.{BatchAccounts, extended, flush_accounts}
use watchbound.Worker.Hub.{Hub}
use watchbound.Events.{
  Mask, Captured, event_path, flush_if_full, note_self, note_path, follow_directory, after_note,
  handle_included, is_leaving, handle_interest_event,
}
use watchbound.Events.Framed.{
  IsFramed, IsFramed-trans, mark_uncertain-IsFramed, note_self-IsFramed, note_path-IsFramed,
  root-covers, note_path-Accounts, follow_directory-same,
}

-- The path is accounted for, or a batch that was sent accounts for it, or nobody receives.
abbrev pub IsNoticed : SubscriptionState → FilePath → SubscriptionState → Type 0
IsNoticed s path t =
    Accounts t path
    ⊎ (((batch : ChangeBatch) × (t.output ≡ extended s.output batch)
          × BatchAccounts batch s.root path)
        ⊎ (s.output.connected ≡ false))

some_of :
    (a b : FilePath) (ps : List FilePath)
    → (BTreeSet.contains a ps || BTreeSet.contains b ps) ≡ true
    → is_empty ps ≡ false
unfolding BTreeSet.contains
some_of a b [] h = absurd (ground arith)
some_of a b (p ∷ ps) h = refl

whole-Accounts :
    (t : SubscriptionState) (root : FilePath) → t.pending_paths ≡ root ∷ [] → Accounts t root
unfolding BTreeSet.contains
whole-Accounts t root h = rw h (ground (arith, =?_refl root))

after_send-root :
    (now : ℕ) (s : SubscriptionState) (r : Output × SendResult) → (after_send now s r).root ≡ s.root
unfolding after_send
after_send-root now s (o, SendResult.sent) = refl
after_send-root now s (o, SendResult.full) = (mark_uncertain-IsFramed now _ _ s.root).root
after_send-root now s (o, SendResult.disconnected) = refl

flush-root : (now : ℕ) (s : SubscriptionState) → (flush now s).root ≡ s.root
unfolding flush send_batch
flush-root now s = elim (Bool-cases (is_empty s.pending_paths)) [
  | inl none_pending ↦ rw none_pending refl
  | inr pending ↦
      rw pending (elim (Bool-cases (ltb s.options.max_batch_paths (length s.pending_paths))) [
        | inr fits ↦ rw fits (after_send-root now s _)
        | inl over ↦ rw over (
            after_send-root now _ _
            ∙ (mark_uncertain-IsFramed now s consumer_backpressure s.root).root)
      ])
]

flush_if_full-IsNoticed :
    (now : ℕ) (s : SubscriptionState) (path : FilePath)
    → 1 ≤ s.options.max_batch_paths
    → Accounts s path
    → IsNoticed s path (flush_if_full now s)
unfolding flush_if_full
flush_if_full-IsNoticed now s path n h =
    elim (Bool-cases
      (leb s.options.max_batch_paths (length s.pending_paths) && (s.topology_barriers == 0))) [
        | inr not_full ↦ rw not_full (inl h)
        | inl full ↦
            rw full (elim (flush_accounts now s (some_of path s.root s.pending_paths h) n) [
              | inl d ↦ inr (inl (d.batch, d.queued, d.accounts path h))
              | inr (inl d) ↦ inl (
                  root-covers s (flush now s) path (flush-root now s)
                    (whole-Accounts (flush now s) s.root d.whole_root))
              | inr (inr d) ↦ inr (inr d.gone)
            ])
      ]

framed-IsNoticed :
    (s t u : SubscriptionState) (path : FilePath)
    → IsFramed s t
    → IsNoticed t path u
    → IsNoticed s path u
framed-IsNoticed s t u path f (inl h) = inl h
framed-IsNoticed s t u path f (inr (inl (batch, q, a))) = inr (
    inl (
      batch,
      q ∙ ap (λ o. extended o batch) f.output,
      subst (λ r. BatchAccounts batch r path) f.root a,
    ))
framed-IsNoticed s t u path f (inr (inr gone)) =
    inr (inr (ap (λ o. o.connected) (sym f.output) ∙ gone))

settle-IsNoticed :
    (now : ℕ) (s t : SubscriptionState) (path : FilePath)
    → 1 ≤ s.options.max_batch_paths
    → IsFramed s t
    → t.pending_paths ≡ s.pending_paths
    → Accounts s path
    → IsNoticed s path (flush_if_full now t)
settle-IsNoticed now s t path n f p h = framed-IsNoticed s t (flush_if_full now t) path f (
    flush_if_full-IsNoticed now t path (subst (λ o. 1 ≤ o.max_batch_paths) (sym f.options) n)
      (ground (arith, f.root, p, h)))

after_note-IsNoticed :
    (host : Host) (h : Hub) (s : SubscriptionState) (m : Mask) (path : FilePath)
    → 1 ≤ s.options.max_batch_paths
    → Accounts s path
    → IsNoticed s path (after_note host h s m path).1
unfolding after_note
after_note-IsNoticed host h s m path n a =
    elim (Bool-cases (s.root_lost && not (is_some s.root_recovery))) [
      | inl lost ↦ rw (lost, after_note) (inl a)
      | inr present ↦
          let (f, p) = follow_directory-same h s m path in
          rw (present, after_note)
            (elim m.is_directory
              as (λ b.
                IsNoticed s path
                  (flush_if_full host.now (if b then follow_directory h s m path else (h, s)).1)) [
                    | true ↦
                        settle-IsNoticed host.now s (follow_directory h s m path).1 path n f p a
                    | false ↦ flush_if_full-IsNoticed host.now s path n a
                  ])
    ]

handle_included-IsNoticed :
    (host : Host) (h : Hub) (s : SubscriptionState) (d : ℕ) (m : Mask) (directory path : FilePath)
    → 1 ≤ s.options.max_batch_paths
    → IsNoticed s path (handle_included host h s d m directory path).1
unfolding handle_included
handle_included-IsNoticed host h s d m directory path n =
    let (w, t) = note_self host h.worker s d m directory in
    let noted = note_path host.now t path in
    let after = after_note host (record h { worker = w }) noted m path in
    let f =
      IsFramed-trans s t noted (note_self-IsFramed host h.worker s d m directory)
        (note_path-IsFramed host.now t path) in
    elim m.unmount
      as (λ b.
        IsNoticed s path
          (if b then (h, mark_uncertain host.now s topology_race s.root) else after).1) [
            | true ↦ inl (
                root-covers s (mark_uncertain host.now s topology_race s.root) path
                  (mark_uncertain-IsFramed host.now s topology_race s.root).root
                  (mark_uncertain-coverage host.now s topology_race s.root).0)
            | false ↦ framed-IsNoticed s noted after.1 path f (
                after_note-IsNoticed host (record h { worker = w }) noted m path
                  (subst (λ o. 1 ≤ o.max_batch_paths) (sym f.options) n)
                  (note_path-Accounts host.now t path))
          ]

-- When the subscription is not leaving, the policy does not exclude the path of an event and a
-- batch may hold at least one path, then once the event is handled the pending paths account for
-- its path, or one batch more has been sent that does, or the consumer is gone.
pub handle_interest_event-IsNoticed :
    (host : Host) (attempts : ℕ → Attempt) (captured : Captured) (h : Hub) (s : SubscriptionState)
    (d : ℕ) (m : Mask) (directory : FilePath) (name : Option Name)
    → is_leaving attempts s ≡ false
    → event_is_excluded s (event_path directory name) m.is_directory ≡ false
    → 1 ≤ s.options.max_batch_paths
    → IsNoticed s
        (event_path directory name)
        (handle_interest_event host attempts captured h s d m directory name).1
unfolding handle_interest_event
handle_interest_event-IsNoticed host attempts captured h s d m directory name l e n =
    rw (l, e) (handle_included-IsNoticed host h s d m directory (event_path directory name) n)
