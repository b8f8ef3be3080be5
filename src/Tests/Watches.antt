-- ===== src/Tests/Watches.antt =====
-- The registry of native watches at concrete inputs.
use watchbound.Base.{none, refl, [], ◌∷◌, true, false, some, arith}
use watchbound.Order.{ℕ_ord}
use watchbound.BTreeMap
use watchbound.Result.{ok}
use watchbound.Worker.{
  Worker, NativeWatch, expect_ignored, consume_expected_ignored, claim_new_watch_lifetime,
}
use watchbound.Worker.Lifetimes.{
  IsRanged, Consumed, consume_expected_ignored-Consumed, Expected, expect_ignored-Expected,
}
use watchbound.Worker.Claims.{Claimed, claim_new_watch_lifetime-Claimed}
use watchbound.Worker.Interests.{Probe, Metadata, add_interest}
use watchbound.Worker.Removal.{remove_interest}
use watchbound.Worker.Budget.{IsCounted}
use watchbound.Worker.Budget.Adding.{add_interest-IsCounted}
use watchbound.Worker.Budget.Removing.{remove_interest-IsCounted}
use watchbound.State.Observe.{Host}
use watchbound.Worker.Hub.{Hub}
use watchbound.Worker.Ignored.{handle_ignored}
use watchbound.Worker.Ignored.Attribution.{IsAttributed, handle_ignored-IsAttributed}
use watchbound.Tests.States.{root, src, settled}

abbrev pub watch : NativeWatch
watch = record {
  lifetime = 4;
  identity = some (record { device = 1; inode = 10 });
  interests = (1, root) ∷ [];
  expects_ignored = false;
}

-- One watch, a budget of two, and two records of descriptor 7 still to come.
abbrev pub registry : Worker
registry = record {
  native_watch_budget = some 2;
  watches = (3, watch) ∷ [];
  watch_identities = ((1, 10), 3) ∷ [];
  retired_ignored_lifetimes = (7, record { first = 1; last = 2 }) ∷ [];
  exhausted_watch_descriptors = [];
  native_watches = 1;
  removed_watches = [];
}

registry-IsRanged : IsRanged registry
unfolding BTreeMap.lookup
registry-IsRanged = record { sorted = (tt, tt); ranged = λ d r h. ground arith }

pub registry-IsCounted : IsCounted registry
registry-IsCounted = record { sorted = (tt, tt); published = refl; bounded = λ b h. ground arith }

consume_expected_ignored-Consumed_example :
    Consumed registry 7 (consume_expected_ignored registry 7)
consume_expected_ignored-Consumed_example =
    consume_expected_ignored-Consumed registry 7 registry-IsRanged

expect_ignored-Expected_example : Expected registry 7 3 (expect_ignored registry 7 3)
expect_ignored-Expected_example = expect_ignored-Expected registry 7 3 registry-IsRanged

claim_new_watch_lifetime-Claimed_example : Claimed registry 7 (claim_new_watch_lifetime registry 7)
claim_new_watch_lifetime-Claimed_example =
    claim_new_watch_lifetime-Claimed registry 7 registry-IsRanged

abbrev pub directory : Metadata
directory = record { is_symlink = false; is_dir = true; dev = 1; ino = 11 }

abbrev pub probe : Probe
probe = record { before = ok directory; after = ok directory; add_watch = ok 7 }

add_interest-IsCounted_example : IsCounted (add_interest 5 registry settled src true probe).0
add_interest-IsCounted_example =
    add_interest-IsCounted 5 registry settled src true probe registry-IsCounted

remove_interest-IsCounted_example : IsCounted (remove_interest registry 1 root 3)
remove_interest-IsCounted_example = remove_interest-IsCounted registry 1 root 3 registry-IsCounted

abbrev pub hub : Hub
hub = record {
  worker = registry;
  subscriptions = (1, settled) ∷ [];
  topology_runnable = record { current_round = []; next_round = [] };
  allocator_order = record { current_round = []; next_round = [] };
  deferred_interests = 0;
  subscription_count = 1;
  acknowledged = [];
}

abbrev host : Host
host = record { observed_identity = λ path. none; now = 30 }

handle_ignored-IsAttributed_example : IsAttributed hub 3 (handle_ignored host hub 3)
handle_ignored-IsAttributed_example = handle_ignored-IsAttributed host hub 3 registry-IsCounted
