-- ===== src/Disposal/Ending.antt =====
-- How a disposal ends: turn by turn it takes its items, phase by phase.
use watchbound.Base.{
  ◌-◌, ℕ, suc, ◌+◌, ◌*◌, ◌<◌, ◌≡◌, refl, sym, subst, List, [], ◌∷◌, true, false, Option, none, some,
  length, arith,
}
use watchbound.Exclusion.{ValidatedExclusionPolicy, pop_policy_item}
use watchbound.Pending.{
  PendingDisposal, CompletedDisposal, DisposalPhase, pending_paths, watched_interests, deferred_map,
  deferred_order, promotions, topology_jobs, exclusion_policy, observed_identities,
  cleanup_path_sets, cleanup_path_queues, cleanup_path_vectors, complete,
}
use watchbound.State.{SubscriptionState}
use watchbound.Worker.{Worker}
use watchbound.Worker.Budget.{IsCounted}
use watchbound.Worker.Budget.Removing.{remove_interest-IsCounted}
use watchbound.Quantum.{Step, done, turns, IsMeasured, turns-IsDone, IsDone-ends}
use watchbound.Teardown.{Torn}
use watchbound.Teardown.Items.{items_left, IsEmptied, shrink_job-items}
use watchbound.Disposal.Turns.{
  disposal_step, disposal_at, disposal_phase, cleanup_step, pop_within, pop_policy, pop, pop_vector,
  disposal_fuel, max_disposal_items_per_turn,
}

abbrev pub policy_items : ValidatedExclusionPolicy → ℕ
policy_items v = length v.prefixes + length v.directory_names + length v.observed_paths

-- A container counts beside its elements.
unfoldable pub nested_items : {A : Type 0} → List (List A) → ℕ
nested_items [] = 0
nested_items (xs ∷ rest) = suc (length xs) + nested_items rest

unfoldable pub policies_items : List ValidatedExclusionPolicy → ℕ
policies_items [] = 0
policies_items (v ∷ rest) = suc (policy_items v) + policies_items rest

unfoldable pub cleanup_items : PendingDisposal → ℕ
cleanup_items d =
    nested_items d.cleanup_path_sets
    + nested_items d.cleanup_path_queues
    + nested_items d.cleanup_path_vectors
    + policies_items d.cleanup_policies
    + nested_items d.cleanup_identity_maps

unfoldable pub disposal_items : SubscriptionState → PendingDisposal → ℕ
disposal_items s d =
    items_left s
    + policy_items s.exclusion_policy
    + length s.observed_boundary_identities
    + cleanup_items d

abbrev pub phases_left : DisposalPhase → ℕ
phases_left pending_paths = 11
phases_left watched_interests = 10
phases_left deferred_map = 9
phases_left deferred_order = 8
phases_left promotions = 7
phases_left topology_jobs = 6
phases_left exclusion_policy = 5
phases_left observed_identities = 4
phases_left cleanup_path_sets = 3
phases_left cleanup_path_queues = 2
phases_left cleanup_path_vectors = 1
phases_left complete = 0

pop_policy_item-items :
    (v : ValidatedExclusionPolicy)
    → (((pop_policy_item v).1 ≡ true) → suc (policy_items (pop_policy_item v).0) ≡ policy_items v)
      × (((pop_policy_item v).1 ≡ false) → ((pop_policy_item v).0 ≡ v) × (policy_items v ≡ 0))
unfolding pop_policy_item
pop_policy_item-items v = ground arith

pop_within-items :
    {A : Type 0} (xs : List A) (rest : List (List A))
    → suc (nested_items (pop_within xs rest)) ≡ nested_items (xs ∷ rest)
unfolding pop_within nested_items
pop_within-items [] rest = omega arith
pop_within-items (x ∷ xs) rest = omega arith

length-pop : {A : Type 0} (x : A) (xs : List A) → suc (length (pop (x ∷ xs))) ≡ length (x ∷ xs)
unfolding pop
length-pop x [] = refl
length-pop x (y ∷ ys) = omega (arith, length-pop y ys)

pop_vector-items :
    {A : Type 0} (xs : List A) (rest : List (List A))
    → suc (nested_items (pop_vector xs rest)) ≡ nested_items (xs ∷ rest)
unfolding pop_vector nested_items
pop_vector-items [] rest = omega arith
pop_vector-items (x ∷ xs) rest = omega (arith, length-pop x xs)

pop_policy-items :
    (v : ValidatedExclusionPolicy) (rest : List ValidatedExclusionPolicy)
    → suc (policies_items (pop_policy v rest)) ≡ policies_items (v ∷ rest)
unfolding pop_policy policies_items
pop_policy-items v rest = ground (arith, pop_policy_item-items v)

-- What the phases before this one have emptied.
pub record IsCleared (n : ℕ) (s : SubscriptionState) (d : PendingDisposal) : Type 0 where
  pub emptied : IsEmptied (n - 5) s
  pub policy : n < 5 → policy_items s.exclusion_policy ≡ 0
  pub identities : n < 4 → s.observed_boundary_identities ≡ []
  pub path_sets : n < 3 → d.cleanup_path_sets ≡ []
  pub path_queues : n < 2 → d.cleanup_path_queues ≡ []
  pub path_vectors : n < 1 → d.cleanup_path_vectors ≡ []
  pub policies : n < 1 → d.cleanup_policies ≡ []
  pub identity_maps : n < 1 → d.cleanup_identity_maps ≡ []

-- A disposal that `d0` began: who waits for it has not changed, and its earlier phases are emptied.
pub record IsDisposing (d0 : PendingDisposal) (x : Torn) : Type 0 where
  pub current : PendingDisposal
  pub begun : x.1.disposal ≡ some current
  pub acknowledgement : current.acknowledgement ≡ d0.acknowledgement
  pub establishment : current.interrupted_establishment ≡ d0.interrupted_establishment
  pub cleared : IsCleared (phases_left current.phase) x.1 current
  pub counted : IsCounted x.0

-- Nothing of the subscription is left, and those who wait get what `d0` owes them.
pub record IsDisposed (d0 : PendingDisposal) (x : Torn) (r : Option CompletedDisposal)
    : Type 0 where
  pub completed :
      r
      ≡ some (record {
        acknowledgement = d0.acknowledgement;
        interrupted_establishment = d0.interrupted_establishment;
      })
  pub ended : x.1.disposal ≡ none
  pub emptied : IsEmptied 0 x.1
  pub policy : policy_items x.1.exclusion_policy ≡ 0
  pub identities : x.1.observed_boundary_identities ≡ []
  pub counted : IsCounted x.0

abbrev phases_at : Option PendingDisposal → ℕ
phases_at none = 0
phases_at (some d) = phases_left d.phase

phases_of : Torn → ℕ
phases_of (w, s) = phases_at s.disposal

abbrev items_at : SubscriptionState → Option PendingDisposal → ℕ
items_at s none = 0
items_at s (some d) = disposal_items s d

items_of : Torn → ℕ
items_of (w, s) = items_at s s.disposal

abbrev Measured : PendingDisposal → Torn → Step Torn (Option CompletedDisposal) → Type 0
Measured d0 = IsMeasured disposal_step (IsDisposing d0) (IsDisposed d0) items_of phases_of

cleanup_step-Measured :
    (d0 : PendingDisposal) (w : Worker) (s : SubscriptionState) (d : PendingDisposal)
    → s.disposal ≡ some d
    → d.phase ≡ cleanup_path_vectors
    → d.acknowledgement ≡ d0.acknowledgement
    → d.interrupted_establishment ≡ d0.interrupted_establishment
    → IsCleared 1 s d
    → IsCounted w
    → Measured d0 (w, s) (cleanup_step w s d)
unfolding cleanup_step items_of phases_of items_left disposal_items cleanup_items nested_items
    policies_items
cleanup_step-Measured d0 w s d b p a e v c =
    grind (arith, pop_vector-items, pop_policy-items, pop_within-items)

-- One phase: `d` is current and `p` its phase.
abbrev AtPhase :
    PendingDisposal → Worker → SubscriptionState → PendingDisposal → DisposalPhase → Type 0
AtPhase d0 w s d p =
    (s.disposal ≡ some d)
    → d.phase ≡ p
    → d.acknowledgement ≡ d0.acknowledgement
    → d.interrupted_establishment ≡ d0.interrupted_establishment
    → IsCleared (phases_left p) s d
    → IsCounted w
    → Measured d0 (w, s) (disposal_phase w s d p)

emptying-Measured :
    (d0 : PendingDisposal) (w : Worker) (s : SubscriptionState) (d : PendingDisposal)
    (p : DisposalPhase)
    → 5 < phases_left p
    → AtPhase d0 w s d p
unfolding disposal_phase items_of phases_of items_left disposal_items cleanup_items nested_items
emptying-Measured d0 w s d pending_paths h b q a e v c = ground (arith, b, q, a, e, v, c)
emptying-Measured d0 w s d watched_interests h b q a e v c =
    grind (arith, remove_interest-IsCounted)
emptying-Measured d0 w s d deferred_map h b q a e v c = ground (arith, b, q, a, e, v, c)
emptying-Measured d0 w s d deferred_order h b q a e v c = ground (arith, b, q, a, e, v, c)
emptying-Measured d0 w s d promotions h b q a e v c = ground (arith, b, q, a, e, v, c)
emptying-Measured d0 w s d topology_jobs h b q a e v c = grind (arith, shrink_job-items)
emptying-Measured d0 w s d exclusion_policy h b q a e v c = absurd (omega arith)
emptying-Measured d0 w s d observed_identities h b q a e v c = absurd (omega arith)
emptying-Measured d0 w s d cleanup_path_sets h b q a e v c = absurd (omega arith)
emptying-Measured d0 w s d cleanup_path_queues h b q a e v c = absurd (omega arith)
emptying-Measured d0 w s d cleanup_path_vectors h b q a e v c = absurd (omega arith)
emptying-Measured d0 w s d complete h b q a e v c = absurd (omega arith)

disposal_phase-Measured :
    (d0 : PendingDisposal) (w : Worker) (s : SubscriptionState) (d : PendingDisposal)
    (p : DisposalPhase)
    → AtPhase d0 w s d p
unfolding disposal_phase items_of phases_of items_left disposal_items cleanup_items nested_items
disposal_phase-Measured d0 w s d exclusion_policy b q a e v c =
    ground (arith, pop_policy_item-items s.exclusion_policy, b, q, a, e, v, c)
disposal_phase-Measured d0 w s d observed_identities b q a e v c = ground (arith, b, q, a, e, v, c)
disposal_phase-Measured d0 w s d cleanup_path_sets b q a e v c = grind (arith, pop_within-items)
disposal_phase-Measured d0 w s d cleanup_path_queues b q a e v c = grind (arith, pop_within-items)
disposal_phase-Measured d0 w s d cleanup_path_vectors b q a e v c =
    cleanup_step-Measured d0 w s d b q a e v c
disposal_phase-Measured d0 w s d complete b q a e v c = ground (arith, b, q, a, e, v, c)
disposal_phase-Measured d0 w s d p b q a e v c =
    emptying-Measured d0 w s d p (omega arith) b q a e v c

disposal_step-Measured :
    (d0 : PendingDisposal) (x : Torn) → IsDisposing d0 x → Measured d0 x (disposal_step x)
unfolding disposal_at
disposal_step-Measured d0 (w, s) v =
    subst (λ o. Measured d0 (w, s) (disposal_at w s o)) (sym v.begun)
      (disposal_phase-Measured d0 w s v.current v.current.phase v.begun refl v.acknowledgement
        v.establishment v.cleared v.counted)

phases_small : (x : Torn) → max_disposal_items_per_turn + phases_of x < disposal_fuel
unfolding phases_of
phases_small (w, s) = ground arith

few_items :
    (x : Torn) (n : ℕ) (d : PendingDisposal)
    → x.1.disposal ≡ some d
    → disposal_items x.1 d < n * max_disposal_items_per_turn
    → items_of x < n * max_disposal_items_per_turn
unfolding items_of
few_items (w, s) n d b h = subst (λ o. items_at s o < n * max_disposal_items_per_turn) (sym b) h

-- From a disposal in progress, turns of 64 items, as many as are left, end it: nothing of the
-- subscription is left but names, those who wait get what the disposal owed them when it began, and
-- the registry is still counted.
pub disposal_ends :
    (d0 d : PendingDisposal) (x : Torn) (n : ℕ)
    → IsDisposing d0 x
    → x.1.disposal ≡ some d
    → disposal_items x.1 d < n * max_disposal_items_per_turn
    → (y : Torn) × (r : Option CompletedDisposal) × (turns disposal_step n disposal_fuel
          max_disposal_items_per_turn x
        ≡ done y r)
      × IsDisposed d0 y r
disposal_ends d0 d x n v b h =
    IsDone-ends disposal_step (IsDisposing d0) (IsDisposed d0) items_of phases_of _ (
      turns-IsDone disposal_step (IsDisposing d0) (IsDisposed d0) items_of phases_of
        (disposal_step-Measured d0) n disposal_fuel max_disposal_items_per_turn x v (phases_small x)
        (few_items x n d b h))
