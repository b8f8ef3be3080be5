-- ===== src/Teardown/Items.antt =====
-- What a teardown has left to take: the items of a subscription, and the phases before the end.
use watchbound.Base.{ℕ, suc, ◌+◌, ◌<◌, ◌≡◌, List, [], ◌∷◌, Option, none, some, length, arith}
use watchbound.State.{
  SubscriptionState, TopologyJob, EstablishmentTeardownPhase, pending_paths, watched_interests,
  deferred_map, deferred_order, promotions, topology_jobs, complete, ActiveDirectory,
}
use watchbound.Teardown.{shrink_job}

abbrev pub is_active : Option ActiveDirectory → ℕ
is_active none = 0
is_active (some directory) = 1

-- A job is an item, and so are its open directory and each directory to come.
unfoldable pub job_items : List TopologyJob → ℕ
job_items [] = 0
job_items (job ∷ rest) = suc (is_active job.active + length job.directories) + job_items rest

unfoldable pub items_left : SubscriptionState → ℕ
items_left s =
    length s.pending_paths
    + length s.watched_paths
    + length s.deferred_directories
    + length s.deferred_order
    + length s.pending_promotions
    + job_items s.topology_jobs

abbrev pub phases_left : EstablishmentTeardownPhase → ℕ
phases_left pending_paths = 6
phases_left watched_interests = 5
phases_left deferred_map = 4
phases_left deferred_order = 3
phases_left promotions = 2
phases_left topology_jobs = 1
phases_left complete = 0

-- What the phases before this one have emptied.
pub record IsEmptied (n : ℕ) (s : SubscriptionState) : Type 0 where
  pub pending_paths : n < 6 → s.pending_paths ≡ []
  pub watched_paths : n < 5 → s.watched_paths ≡ []
  pub deferred_directories : n < 4 → s.deferred_directories ≡ []
  pub deferred_order : n < 3 → s.deferred_order ≡ []
  pub pending_promotions : n < 2 → s.pending_promotions ≡ []
  pub topology_jobs : n < 1 → s.topology_jobs ≡ []

pub shrink_job-items :
    (job : TopologyJob) (rest : List TopologyJob)
    → suc (job_items (shrink_job job rest)) ≡ job_items (job ∷ rest)
unfolding shrink_job job_items
shrink_job-items job rest = ground arith
