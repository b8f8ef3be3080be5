-- ===== src/Worker.antt =====
-- The native watches of `Worker` (engine/src/backend/linux.rs): which inotify descriptor stands
-- for which directory, who is interested in it, and which of its `IN_IGNORED` records are still
-- to come. Calls of the kernel enter as their results; `removed_watches` logs the calls of
-- `inotify_rm_watch`, the latest first. Descriptors are not negative.
pub mod Lifetimes
pub mod Claims
pub mod Interests
pub mod Removal
pub mod Budget
pub mod Hub
pub mod Ignored
use watchbound.Base.{
  ℕ, suc, ◌+◌, ◌-◌, ◌^◌, List, [], ◌∷◌, Bool, true, false, not, Option, none, some, if◌then◌else◌,
  length, ltb, ◌==◌, ◌&&◌, is_some, any, is_empty,
}
use watchbound.Order.{ℕ_ord, list_ord, pair_ord, ◌=?◌}
use watchbound.BTreeSet
use watchbound.BTreeMap
use watchbound.Error.{IoError, IoErrorKind}
use watchbound.Result.{ResultOf, ok, err}
use watchbound.FilePath.{FilePath}
use watchbound.Types.{RootIdentity}

abbrev pub Interest : Type 0
Interest = ℕ × FilePath

pub record NativeWatch : Type 0 where
  pub lifetime : ℕ
  pub identity : Option RootIdentity
  pub interests : List Interest
  pub expects_ignored : Bool

pub record ExpectedIgnoredLifetimes : Type 0 where
  pub first : ℕ
  pub last : ℕ

-- The fields of `Worker` that the watches live in, and the published counter of native watches.
pub record Worker : Type 0 where
  pub native_watch_budget : Option ℕ
  pub watches : List (ℕ × NativeWatch)
  pub watch_identities : List ((ℕ × ℕ) × ℕ)
  pub retired_ignored_lifetimes : List (ℕ × ExpectedIgnoredLifetimes)
  pub exhausted_watch_descriptors : List ℕ
  pub native_watches : ℕ
  pub removed_watches : List ℕ

abbrev pub u64_max : ℕ
u64_max = 2 ^ 64 - 1

abbrev pub identity_key : RootIdentity → ℕ × ℕ
identity_key i = (i.device, i.inode)

unfoldable pub same_identity : RootIdentity → RootIdentity → Bool
same_identity a b = a.device == b.device && a.inode == b.inode

-- `io::Error::from_raw_os_error` of EOVERFLOW and ESTALE.
abbrev pub overflow_error : IoError
overflow_error = record { kind = IoErrorKind.other; raw_os_error = some 75 }

abbrev pub stale_error : IoError
stale_error = record { kind = IoErrorKind.other; raw_os_error = some 116 }

abbrev pub max_option : Option ℕ → Option ℕ → Option ℕ
max_option none b = b
max_option (some a) none = some a
max_option (some a) (some b) = some (if ltb a b then b else a)

unfoldable pub latest_lifetime : Worker → ℕ → Option ℕ
latest_lifetime w descriptor =
    max_option
      (elim (BTreeMap.lookup descriptor w.retired_ignored_lifetimes) [
        | none ↦ none
        | some r ↦ some r.last
      ])
      (elim (BTreeMap.lookup descriptor w.watches) [
        | none ↦ none
        | some watch ↦ some watch.lifetime
      ])

unfoldable pub next_watch_lifetime : Worker → ℕ → ResultOf IoError ℕ
next_watch_lifetime w descriptor = elim (latest_lifetime w descriptor) [
  | some lifetime ↦ if ltb lifetime u64_max then ok (lifetime + 1) else err overflow_error
  | none ↦ ok 1
]

unfoldable pub rm_watch : Worker → ℕ → Worker
rm_watch w descriptor = record w { removed_watches = descriptor ∷ w.removed_watches }

unfoldable pub quarantine : Worker → ℕ → Worker
quarantine w descriptor = record w {
  exhausted_watch_descriptors = BTreeSet.insert descriptor w.exhausted_watch_descriptors;
}

unfoldable pub claim_new_watch_lifetime : Worker → ℕ → Worker × ResultOf IoError ℕ
unfolding quarantine rm_watch
claim_new_watch_lifetime w descriptor =
    if BTreeSet.contains descriptor w.exhausted_watch_descriptors
    then (rm_watch w descriptor, err overflow_error)
    else (elim (next_watch_lifetime w descriptor) [
      | ok lifetime ↦ (w, ok lifetime)
      | err e ↦ (rm_watch (quarantine w descriptor) descriptor, err e)
    ])

-- The new range, and whether the lifetime continues the old one. The `checked_add` fails at the
-- last u64.
unfoldable pub extend_range : Option ExpectedIgnoredLifetimes → ℕ → ExpectedIgnoredLifetimes × Bool
extend_range none lifetime = (record { first = lifetime; last = lifetime }, true)
extend_range (some r) lifetime =
    if lifetime == r.last
    then (r, true)
    else if ltb r.last u64_max && (r.last + 1 == lifetime)
    then (record r { last = lifetime }, true)
    else (r, false)

unfoldable pub expect_ignored : Worker → ℕ → ℕ → Worker
unfolding extend_range quarantine
expect_ignored w descriptor lifetime =
    let (range, ordered) =
      extend_range (BTreeMap.lookup descriptor w.retired_ignored_lifetimes) lifetime in
    let retired : Worker = record w {
      retired_ignored_lifetimes = BTreeMap.insert descriptor range w.retired_ignored_lifetimes;
    } in
    if ordered then retired else quarantine retired descriptor

unfoldable pub remove_native_watch_lifetime : Worker → ℕ → ℕ → Worker
unfolding rm_watch
remove_native_watch_lifetime w descriptor lifetime =
    rm_watch (expect_ignored w descriptor lifetime) descriptor

-- The head of a range is taken; an exhausted range goes.
unfoldable pub consume_range :
    Worker → ℕ → ExpectedIgnoredLifetimes → List (ℕ × ExpectedIgnoredLifetimes)
consume_range w descriptor r =
    if r.first == r.last
    then BTreeMap.remove descriptor w.retired_ignored_lifetimes
    else BTreeMap.insert descriptor (record r { first = r.first + 1 }) w.retired_ignored_lifetimes

unfoldable pub consume_expected_ignored : Worker → ℕ → Worker × Option ℕ
consume_expected_ignored w descriptor =
    elim (BTreeMap.lookup descriptor w.retired_ignored_lifetimes) [
      | none ↦ (w, none)
      | some r ↦
          (record w { retired_ignored_lifetimes = consume_range w descriptor r }, some r.first)
    ]

unfoldable pub publish_native_watch_count : Worker → Worker
publish_native_watch_count w = record w { native_watches = length w.watches }
