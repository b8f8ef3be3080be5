-- ===== src/Worker/Interests.antt =====
-- `add_interest` (engine/src/backend/linux.rs): a subscription's directory joins a native watch,
-- a new one within the runtime's budget. `Probe` holds what the host answers: the directory's
-- metadata before and after, and the descriptor that `inotify_add_watch` gives.
use watchbound.Base.{
  ℕ, [], Bool, true, false, not, Option, none, some, if◌then◌else◌, length, leb, ◌==◌, ◌||◌, any,
}
use watchbound.Order.{ℕ_ord, list_ord, pair_ord, ◌=?◌}
use watchbound.BTreeSet
use watchbound.BTreeMap
use watchbound.Error.{IoError, IoErrorKind}
use watchbound.Result.{ResultOf, ok, err}
use watchbound.FilePath.{FilePath}
use watchbound.Types.{RootIdentity, topology_race}
use watchbound.State.{SubscriptionState, PendingRootRecovery}
use watchbound.State.Queue.{mark_uncertain}
use watchbound.Worker.{
  Worker, NativeWatch, Interest, identity_key, same_identity, stale_error, rm_watch,
  claim_new_watch_lifetime, remove_native_watch_lifetime, publish_native_watch_count, quarantine,
}

pub record Metadata : Type 0 where
  pub is_symlink : Bool
  pub is_dir : Bool
  pub dev : ℕ
  pub ino : ℕ

pub data InterestAllocation : Type 0 where
  added : Bool → InterestAllocation
  runtime_budget_exhausted : InterestAllocation

pub record Probe : Type 0 where
  pub before : ResultOf IoError Metadata
  pub after : ResultOf IoError Metadata
  pub add_watch : ResultOf IoError ℕ

abbrev pub Outcome : Type 0
Outcome = Worker × SubscriptionState × ResultOf IoError InterestAllocation

abbrev pub not_a_directory : IoError
not_a_directory = record { kind = IoErrorKind.other; raw_os_error = some 20 }

abbrev pub nul_error : IoError
nul_error = record { kind = IoErrorKind.invalid_input; raw_os_error = none }

unfoldable pub directory_identity : ResultOf IoError Metadata → ResultOf IoError RootIdentity
directory_identity (err e) = err e
directory_identity (ok m) =
    if m.is_symlink || not m.is_dir
    then err not_a_directory
    else ok (record { device = m.dev; inode = m.ino })

unfoldable pub still : ResultOf IoError Metadata → RootIdentity → Bool
still m identity = elim (directory_identity m) [ ok i ↦ same_identity i identity | err e ↦ false ]

abbrev unstable : Option PendingRootRecovery → Option PendingRootRecovery
unstable none = none
unstable (some r) = some (record r { candidate_unstable = true })

unfoldable pub note_unstable_candidate : SubscriptionState → FilePath → SubscriptionState
note_unstable_candidate s path = record s {
  root_recovery = if path =? s.root then unstable s.root_recovery else s.root_recovery;
}

unfoldable pub mark_reused_descriptor_uncertain :
    ℕ → Worker → SubscriptionState → ℕ → SubscriptionState
mark_reused_descriptor_uncertain now w s descriptor =
    if BTreeMap.contains_key descriptor w.retired_ignored_lifetimes
    then mark_uncertain now s topology_race s.root
    else s

unfoldable pub reject_colliding_native_watch :
    ℕ → Worker → SubscriptionState → FilePath → ℕ → Worker × SubscriptionState
reject_colliding_native_watch now w s path descriptor =
    let t = note_unstable_candidate s path in
    (rm_watch (quarantine w descriptor) descriptor, mark_uncertain now t topology_race t.root)

-- The interest joins the watch, which is there.
unfoldable pub join_watch : Worker → Interest → ℕ → NativeWatch → Worker
join_watch w interest descriptor watch = record w {
  watches =
      BTreeMap.insert descriptor
        (record watch { interests = BTreeSet.insert interest watch.interests }) w.watches;
}

unfoldable pub insert_interest :
    Worker → SubscriptionState → FilePath → ℕ → NativeWatch → Worker × SubscriptionState
insert_interest w s path descriptor watch = (
  join_watch w (s.id, path) descriptor watch,
  record s {
    watched_paths = BTreeMap.insert path descriptor s.watched_paths;
    deferred_directories = BTreeMap.remove path s.deferred_directories;
  },
)

abbrev pub fresh_watch : ℕ → NativeWatch
fresh_watch lifetime = record {
  lifetime = lifetime;
  identity = none;
  interests = [];
  expects_ignored = false;
}

abbrev pub or_identity : Option RootIdentity → RootIdentity → RootIdentity
or_identity none identity = identity
or_identity (some i) identity = i

-- A live watch of the same directory is shared, without a look at the budget.
unfoldable pub share_watch :
    ℕ → Worker → SubscriptionState → FilePath → RootIdentity → Bool → ℕ → NativeWatch → Outcome
share_watch now w s path identity stable descriptor watch =
    if stable
    then (let t = mark_reused_descriptor_uncertain now w s descriptor in
        let (joined, u) = insert_interest w t path descriptor watch in
        (joined, u, ok (added false)))
    else (let t = note_unstable_candidate s path in
        (w, mark_uncertain now t topology_race t.root, err stale_error))

-- The watch enters the registry, or stays there, with its identity and its interest.
unfoldable pub register_watch :
    ℕ → Worker → SubscriptionState → FilePath → RootIdentity → ℕ → NativeWatch → Bool → Outcome
register_watch now w s path identity descriptor watch created =
    let t = mark_reused_descriptor_uncertain now w s descriptor in
    let named : Worker = record w {
      watch_identities = BTreeMap.insert (identity_key identity) descriptor w.watch_identities;
    } in
    let known : NativeWatch = record watch {
      identity = some (or_identity watch.identity identity);
    } in
    let (joined, u) = insert_interest named t path descriptor known in
    (publish_native_watch_count joined, u, ok (added created))

-- The descriptor is new: it takes a lifetime, and is removed when the directory has changed.
unfoldable pub admit_new :
    ℕ
    → Worker
    → SubscriptionState
    → FilePath
    → RootIdentity
    → Bool
    → ℕ
    → ResultOf IoError ℕ
    → Outcome
admit_new now w s path identity stable descriptor (err e) =
    (w, mark_uncertain now s topology_race s.root, err e)
admit_new now w s path identity stable descriptor (ok lifetime) =
    if stable
    then register_watch now w s path identity descriptor (fresh_watch lifetime) true
    else (let t = note_unstable_candidate s path in
        (
          remove_native_watch_lifetime w descriptor lifetime,
          mark_uncertain now t topology_race t.root,
          err stale_error,
        ))

abbrev pub is_collision : Option RootIdentity → RootIdentity → Bool
is_collision none identity = false
is_collision (some watched) identity = not (same_identity watched identity)

-- The descriptor already stands for a watch.
unfoldable pub admit_known :
    ℕ → Worker → SubscriptionState → FilePath → RootIdentity → Bool → ℕ → NativeWatch → Outcome
admit_known now w s path identity stable descriptor watch =
    if is_collision watch.identity identity
    then (let (v, t) = reject_colliding_native_watch now w s path descriptor in
        (v, t, err stale_error))
    else if stable
    then register_watch now w s path identity descriptor watch false
    else (let t = note_unstable_candidate s path in
        (w, mark_uncertain now t topology_race t.root, err stale_error))

unfoldable pub admit_descriptor :
    ℕ → Worker → SubscriptionState → FilePath → RootIdentity → Bool → ℕ → Outcome
admit_descriptor now w s path identity stable descriptor =
    elim (BTreeMap.lookup descriptor w.watches) [
      | some watch ↦ admit_known now w s path identity stable descriptor watch
      | none ↦
          let (claimed, lifetime) = claim_new_watch_lifetime w descriptor in
          admit_new now claimed s path identity stable descriptor lifetime
    ]

abbrev pub is_over_budget : Option ℕ → ℕ → Bool
is_over_budget none n = false
is_over_budget (some budget) n = leb budget n

unfoldable pub has_nul : FilePath → Bool
has_nul path = any (λ name. any (λ byte. byte == 0) name) path

unfoldable pub create_watch :
    ℕ → Worker → SubscriptionState → FilePath → RootIdentity → Probe → Bool → Outcome
create_watch now w s path identity probe allow_new_native_watch =
    if not allow_new_native_watch || is_over_budget w.native_watch_budget (length w.watches)
    then (w, s, ok runtime_budget_exhausted)
    else if has_nul path
    then (w, s, err nul_error)
    else (elim probe.add_watch [
      | err e ↦ (w, s, err e)
      | ok descriptor ↦
          admit_descriptor now w s path identity (still probe.after identity) descriptor
    ])

-- The descriptor that the identity is known by, with its watch.
unfoldable pub watch_of : Worker → ℕ → Option (ℕ × NativeWatch)
watch_of w descriptor = elim (BTreeMap.lookup descriptor w.watches) [
  | none ↦ none
  | some watch ↦ some (descriptor, watch)
]

unfoldable pub shared_watch : Worker → RootIdentity → Option (ℕ × NativeWatch)
shared_watch w identity = elim (BTreeMap.lookup (identity_key identity) w.watch_identities) [
  | none ↦ none
  | some descriptor ↦ watch_of w descriptor
]

unfoldable pub add_identified :
    ℕ
    → Worker
    → SubscriptionState
    → FilePath
    → Bool
    → Probe
    → RootIdentity
    → Option (ℕ × NativeWatch)
    → Outcome
add_identified now w s path allow probe identity none =
    create_watch now w s path identity probe allow
add_identified now w s path allow probe identity (some (descriptor, watch)) =
    share_watch now w s path identity (still probe.after identity) descriptor watch

unfoldable pub add_interest : ℕ → Worker → SubscriptionState → FilePath → Bool → Probe → Outcome
add_interest now w s path allow_new_native_watch probe = elim (directory_identity probe.before) [
  | err e ↦ (w, s, err e)
  | ok identity ↦
      add_identified now w s path allow_new_native_watch probe identity (shared_watch w identity)
]
