-- ===== src/Worker/Budget/Adding.antt =====
-- `add_interest` and the budget of native watches.
use watchbound.Worker.Budget.{
  still, directory_identity, has_nul, IsCounted, HasRoom, admit_descriptor-IsCounted,
  share_watch-IsCounted,
}
use watchbound.Worker.{identity_key, Worker, NativeWatch}
use watchbound.Base.{
  ◌∙◌, ℕ, ◌≡◌, inl, inr, sym, ap, Bool, false, not, some, arith, Option-cases, Bool-cases, ◌||◌,
  leb-false→lt, length,
}
use watchbound.Order.{ℕ_ord, list_ord, pair_ord}
use watchbound.BTreeMap
use watchbound.Result.{Result-cases}
use watchbound.FilePath.{FilePath}
use watchbound.Types.{RootIdentity}
use watchbound.State.{SubscriptionState}
use watchbound.Worker.Interests.{
  Probe, add_interest, add_identified, create_watch, shared_watch, watch_of, is_over_budget,
}

is_over_budget-room :
    (w : Worker) → is_over_budget w.native_watch_budget (length w.watches) ≡ false → HasRoom w
is_over_budget-room w h b k =
    leb-false→lt b (length w.watches) (ap (λ o. is_over_budget o (length w.watches)) (sym k) ∙ h)

create_watch-IsCounted :
    (now : ℕ) (w : Worker) (s : SubscriptionState) (path : FilePath) (identity : RootIdentity)
    (probe : Probe) (allow : Bool)
    → IsCounted w
    → IsCounted (create_watch now w s path identity probe allow).0
unfolding create_watch
create_watch-IsCounted now w s path identity probe allow c =
    elim (Bool-cases (not allow || is_over_budget w.native_watch_budget (length w.watches))) [
      | inl full ↦ rw (full, create_watch) c
      | inr room ↦ elim (Bool-cases (has_nul path)) [
        | inl nul ↦ rw (room, nul, create_watch) c
        | inr clean ↦ elim (Result-cases probe.add_watch) [
          | inl (d, e) ↦
              rw (room, clean, e, create_watch)
                (admit_descriptor-IsCounted now w s path identity (still probe.after identity) d
                  (is_over_budget-room w (ground arith)) c)
          | inr (f, e) ↦ rw (room, clean, e, create_watch) c
        ]
      ]
    ]

watch_of-lookup :
    (w : Worker) (e d : ℕ) (watch : NativeWatch)
    → watch_of w e ≡ some (d, watch)
    → BTreeMap.lookup d w.watches ≡ some watch
unfolding watch_of
watch_of-lookup w e d watch h = ground arith

shared_watch-lookup :
    (w : Worker) (identity : RootIdentity) (d : ℕ) (watch : NativeWatch)
    → shared_watch w identity ≡ some (d, watch)
    → BTreeMap.lookup d w.watches ≡ some watch
unfolding shared_watch
shared_watch-lookup w identity d watch h =
    elim (Option-cases (BTreeMap.lookup (identity_key identity) w.watch_identities)) [
      | inl e ↦ ground arith
      | inr (n, e) ↦ watch_of-lookup w n d watch (ground arith)
    ]

-- From a registry that is sorted, counted and within the native watch budget, `add_interest` leads
-- to such a registry, whatever the host answers.
pub add_interest-IsCounted :
    (now : ℕ) (w : Worker) (s : SubscriptionState) (path : FilePath) (allow : Bool) (probe : Probe)
    → IsCounted w
    → IsCounted (add_interest now w s path allow probe).0
unfolding add_interest add_identified
add_interest-IsCounted now w s path allow probe c =
    elim (Result-cases (directory_identity probe.before)) [
      | inr (f, e) ↦ rw (e, add_interest) c
      | inl (identity, e) ↦ elim (Option-cases (shared_watch w identity)) [
        | inl k ↦
            rw (e, add_interest, k, add_identified)
              (create_watch-IsCounted now w s path identity probe allow c)
        | inr (known, k) ↦
            rw (e, add_interest, k, add_identified)
              (share_watch-IsCounted now w s path identity (still probe.after identity) known.0
                known.1 (shared_watch-lookup w identity known.0 known.1 k) c)
      ]
    ]
