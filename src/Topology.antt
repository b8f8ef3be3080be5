-- ===== src/Topology.antt =====
-- Opening a directory of the topology (engine/src/backend/linux.rs): `open_topology_directory`.
-- `Answers` holds what the host answers: the metadata that
-- `directory_identity` reads first, those at the limit, the probe of `add_interest` and
-- the iterator of `fs::read_dir`, which is a number here.
pub mod Limit
pub mod Opening
use watchbound.Base.{
  ℕ, Bool, true, false, not, ◌&&◌, ◌||◌, Option, none, some, if◌then◌else◌, length, leb, ◌==◌,
  is_some,
}
use watchbound.Order.{ℕ_ord, list_ord}
use watchbound.BTreeSet
use watchbound.BTreeMap
use watchbound.Error.{IoError}
use watchbound.Result.{ResultOf, ok, err}
use watchbound.FilePath.{FilePath}
use watchbound.Types.{RootIdentity, resource_limit, SubscriptionOptions}
use watchbound.State.{
  SubscriptionState, PendingReconciliation, ActiveDirectory, subscription_limit, runtime_budget,
}
use watchbound.State.Observe.{is_excluded}
use watchbound.State.Deferred.{defer, defer_error, remove_deferred_subtree}
use watchbound.Worker.{Worker, NativeWatch, same_identity}
use watchbound.Worker.Interests.{
  Metadata, InterestAllocation, added, runtime_budget_exhausted, Probe, directory_identity,
  add_interest,
}
use watchbound.Worker.Removal.{remove_interest, remove_subscription_subtree}

pub record Answers : Type 0 where
  pub now : ℕ
  pub current : ResultOf IoError Metadata
  pub metadata : ResultOf IoError Metadata
  pub probe : Probe
  pub read_dir : ResultOf IoError ℕ

pub record OpenedDirectory : Type 0 where
  pub active : ActiveDirectory
  pub created_native_watch : Bool

abbrev pub Opening : Type 0
Opening = Worker × SubscriptionState × Option OpenedDirectory

-- ENOENT, ENOTDIR, ELOOP.
unfoldable pub path_is_stale_or_not_directory : IoError → Bool
path_is_stale_or_not_directory e = elim e.raw_os_error [
  | none ↦ false
  | some code ↦ code == 2 || (code == 20 || code == 40)
]

abbrev encountered_too : FilePath → Option PendingReconciliation → Option PendingReconciliation
encountered_too path none = none
encountered_too path (some r) = some (record r { encountered = BTreeSet.insert path r.encountered })

unfoldable pub mark_reconciliation_encounter :
    SubscriptionState → FilePath → Bool → SubscriptionState
mark_reconciliation_encounter s path reconciliation =
    if reconciliation
    then record s { reconciliation = encountered_too path s.reconciliation }
    else s

abbrev same_identities : ResultOf IoError RootIdentity → Option RootIdentity → Bool
same_identities (ok a) (some b) = same_identity a b
same_identities (ok a) none = false
same_identities (err e) (some b) = false
same_identities (err e) none = true

abbrev identity_of : Option NativeWatch → Option RootIdentity
identity_of none = none
identity_of (some watch) = watch.identity

-- In a reconciliation, a watch on what was another directory is given up.
unfoldable pub forget_replaced :
    Worker → SubscriptionState → FilePath → Bool → Answers → Worker × SubscriptionState
forget_replaced w s directory reconciliation a = elim (BTreeMap.lookup directory s.watched_paths) [
  | none ↦ (w, s)
  | some descriptor ↦
      if reconciliation
        && not (
            same_identities (directory_identity a.current)
              (identity_of (BTreeMap.lookup descriptor w.watches)))
      then (
        remove_interest w s.id directory descriptor,
        record s { watched_paths = BTreeMap.remove directory s.watched_paths },
      )
      else (w, s)
]

-- Whether the directory is to be read; if so, `deferred_at_limit` and `created_native_watch`.
pub data Admission : Type 0 where
  stopped : Admission
  admitted : Bool → Bool → Admission

abbrev pub Admitting : Type 0
Admitting = Worker × SubscriptionState × Admission

abbrev pub at_limit : SubscriptionState → Bool
at_limit s = elim s.options.watch_limit [
  | none ↦ false
  | some limit ↦ leb limit (length s.watched_paths)
]

abbrev read_deferred : Bool → Admission
read_deferred read_without_watch = if read_without_watch then admitted true false else stopped

unfoldable pub admit_at_limit :
    Worker → SubscriptionState → FilePath → Bool → Bool → Answers → Admitting
admit_at_limit w s directory read_without_watch reconciliation a = elim a.metadata [
  | ok m ↦
      if m.is_dir && not m.is_symlink
      then (
        w,
        mark_reconciliation_encounter (defer s directory resource_limit subscription_limit)
            directory reconciliation,
        read_deferred read_without_watch,
      )
      else (w, remove_deferred_subtree s directory, stopped)
  | err e ↦
      if path_is_stale_or_not_directory e
      then (w, remove_deferred_subtree s directory, stopped)
      else (w, defer_error s directory e, stopped)
]

-- The `match` on what `add_interest` returned.
unfoldable pub after_interest :
    FilePath
    → Bool
    → Bool
    → Worker
    → SubscriptionState
    → ResultOf IoError InterestAllocation
    → Admitting
after_interest directory read_without_watch reconciliation w s (ok (added created)) =
    (w, s, admitted false created)
after_interest directory read_without_watch reconciliation w s (ok runtime_budget_exhausted) = (
  w,
  mark_reconciliation_encounter (defer s directory resource_limit runtime_budget) directory
      reconciliation,
  read_deferred read_without_watch,
)
after_interest directory read_without_watch reconciliation w s (err e) = (
  w,
  mark_reconciliation_encounter
      (if path_is_stale_or_not_directory e
        then remove_deferred_subtree s directory
        else defer_error s directory e)
      directory reconciliation,
  stopped,
)

unfoldable pub admit_directory :
    Worker → SubscriptionState → FilePath → Bool → Bool → Bool → Answers → Admitting
admit_directory w s directory allow_new_native_watch read_without_watch reconciliation a =
    if BTreeMap.contains_key directory s.watched_paths
    then (w, s, admitted false false)
    else if at_limit s
    then admit_at_limit w s directory read_without_watch reconciliation a
    else (let (v, t, result) = add_interest a.now w s directory allow_new_native_watch a.probe in
        after_interest directory read_without_watch reconciliation v t result)

unfoldable pub read_directory :
    Worker → SubscriptionState → FilePath → Bool → Bool → ResultOf IoError ℕ → Opening
read_directory w s directory deferred_at_limit created (ok entries) = (
  w,
  s,
  some (record {
    active = record { path = directory; entries = entries; deferred_at_limit = deferred_at_limit };
    created_native_watch = created;
  }),
)
read_directory w s directory deferred_at_limit created (err e) =
    if path_is_stale_or_not_directory e
    then (let (v, t) = remove_subscription_subtree w s directory in (v, t, none))
    else (w, defer_error s directory e, none)

unfoldable pub after_admission : FilePath → Bool → Answers → Admitting → Opening
after_admission directory reconciliation a (w, s, stopped) = (w, s, none)
after_admission directory reconciliation a (w, s, admitted deferred_at_limit created) =
    read_directory w (mark_reconciliation_encounter s directory reconciliation) directory
      deferred_at_limit created a.read_dir

unfoldable pub open_topology_directory :
    Worker → SubscriptionState → FilePath → Bool → Bool → Bool → Answers → Opening
open_topology_directory w s directory allow_new_native_watch read_without_watch reconciliation a =
    if is_excluded s directory
    then (w, remove_deferred_subtree s directory, none)
    else (let (v, t) = forget_replaced w s directory reconciliation a in
        after_admission directory reconciliation a (
          admit_directory v t directory allow_new_native_watch read_without_watch reconciliation a))
