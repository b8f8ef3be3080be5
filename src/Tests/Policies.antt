-- ===== src/Tests/Policies.antt =====
-- Exclusion policies at concrete inputs.
use watchbound.Base.{
  ◌≡◌, ◌↔◌, refl, sym, List, [], ◌∷◌, ◌++◌, Bool, true, false, some, arith, any, All, map,
}
use watchbound.Order.{ℕ_ord, list_ord, eq_of_=?}
use watchbound.BTreeSet
use watchbound.Error.{Operation}
use watchbound.Result.{ok}
use watchbound.FilePath.{
  FilePath, Name, starts_with, parent, strip_prefix, spell, components, is_absolute, split,
  classify, components_of, push, spell_from,
}
use watchbound.Exclusion.{
  ExclusionPolicy, ValidatedExclusionPolicy, name_hit, matches_directory_name, event_excludes,
  topology_excludes, normalize, validate_relative_path, validate_relative_loop,
  validate_relative_paths, topmost, validate_exclusion_prefixes, validate_names_loop,
  has_excluded_parent, validate_exclusion_policy, policy_reinclusion_roots, observes_boundary,
}
use watchbound.Exclusion.Relative.{IsRelative, collect, validate_relative_paths_iff}
use watchbound.Exclusion.Prefixes.{validate_exclusion_prefixes-covers}
use watchbound.Exclusion.Reinclusion.{IsRooted, reinclusion_covers}
use watchbound.Exclusion.Observed.{validate_exclusion_policy-IsRooted, observed_parent_included}
use watchbound.Exclusion.Pruning.{pruned_below}

abbrev s : Name
s = 115 ∷ []

abbrev root : FilePath
root = (119 ∷ []) ∷ []

-- Excludes "s" by name, or by path, or nothing.
abbrev by_name : ValidatedExclusionPolicy
by_name = record { prefixes = []; directory_names = s ∷ []; observed_paths = [] }

abbrev by_path : ValidatedExclusionPolicy
by_path = record { prefixes = (root ++ (s ∷ [])) ∷ []; directory_names = []; observed_paths = [] }

abbrev nothing : ValidatedExclusionPolicy
nothing = record { prefixes = []; directory_names = []; observed_paths = [] }

excluded_by_path : topology_excludes by_path root (root ++ (s ∷ [])) ≡ true
unfolding topology_excludes event_excludes matches_directory_name name_hit starts_with strip_prefix
    BTreeSet.contains observes_boundary
excluded_by_path = refl

excluded_by_name : topology_excludes by_name root (root ++ (s ∷ [])) ≡ true
unfolding topology_excludes event_excludes matches_directory_name name_hit starts_with strip_prefix
    BTreeSet.contains observes_boundary
excluded_by_name = refl

included : topology_excludes nothing root (root ++ (s ∷ [])) ≡ false
unfolding topology_excludes event_excludes matches_directory_name name_hit starts_with strip_prefix
    BTreeSet.contains observes_boundary
included = refl

by_path-IsRooted : IsRooted root by_path
unfolding BTreeSet.contains starts_with
by_path-IsRooted = record {
  prefixes = λ p h. rw (sym (eq_of_=? (root ++ (s ∷ [])) p (ground arith))) refl;
  observed = λ p h. ground arith;
}

reinclusion_covers_example :
    any (starts_with (root ++ (s ∷ []))) (policy_reinclusion_roots root by_path nothing) ≡ true
reinclusion_covers_example =
    reinclusion_covers root (s ∷ []) by_path nothing by_path-IsRooted excluded_by_path included

pruned_below_example :
    (topology_excludes by_name root (root ++ (s ∷ s ∷ [])) ≡ true)
    × ((b : Bool) → event_excludes by_name root (root ++ (s ∷ s ∷ [])) b ≡ true)
pruned_below_example = pruned_below by_name root (s ∷ []) s [] excluded_by_name

validate_relative_paths_iff_example :
    (validate_relative_paths root (s ∷ []) Operation.subscribe true ≡ ok ((root ++ (s ∷ [])) ∷ []))
    ↔ ((all_names : List (List Name)) × (s ∷ [] ≡ map spell all_names)
        × All (IsRelative true) all_names
        × ((root ++ (s ∷ [])) ∷ [] ≡ collect root [] all_names))
validate_relative_paths_iff_example =
    validate_relative_paths_iff root (s ∷ []) Operation.subscribe true ((root ++ (s ∷ [])) ∷ [])

-- "s" twice is kept once.
valid_prefixes :
    validate_exclusion_prefixes root (s ∷ s ∷ []) Operation.subscribe ≡ ok ((root ++ (s ∷ [])) ∷ [])
unfolding validate_exclusion_prefixes validate_relative_paths validate_relative_loop
    validate_relative_path topmost normalize BTreeSet.insert BTreeSet.contains strip_prefix
    starts_with parent split classify components_of is_absolute components push spell_from spell
    validate_names_loop has_excluded_parent topology_excludes event_excludes matches_directory_name
    name_hit observes_boundary
valid_prefixes = refl

validate_exclusion_prefixes-covers_example :
    (absolute : List FilePath) × (validate_relative_paths root (s ∷ s ∷ []) Operation.subscribe true
      ≡ ok absolute)
    × ((path : FilePath)
        → any (starts_with path) ((root ++ (s ∷ [])) ∷ []) ≡ any (starts_with path) absolute)
    × ((a b : FilePath)
        → BTreeSet.contains a ((root ++ (s ∷ [])) ∷ []) ≡ true
        → BTreeSet.contains b ((root ++ (s ∷ [])) ∷ []) ≡ true
        → starts_with a b ≡ true
        → a ≡ b)
validate_exclusion_prefixes-covers_example =
    validate_exclusion_prefixes-covers root (s ∷ s ∷ []) Operation.subscribe
      ((root ++ (s ∷ [])) ∷ []) valid_prefixes

abbrev observing : ExclusionPolicy
observing = record {
  prefixes = [];
  excluded_directory_names = [];
  observed_excluded_paths = s ∷ [];
}

abbrev observed : ValidatedExclusionPolicy
observed = record { prefixes = []; directory_names = []; observed_paths = (root ++ (s ∷ [])) ∷ [] }

valid_policy : validate_exclusion_policy root observing Operation.subscribe ≡ ok observed
unfolding validate_exclusion_policy validate_exclusion_prefixes validate_relative_paths
    validate_relative_loop validate_relative_path topmost normalize BTreeSet.insert
    BTreeSet.contains strip_prefix starts_with parent split classify components_of is_absolute
    components push spell_from spell validate_names_loop has_excluded_parent topology_excludes
    event_excludes matches_directory_name name_hit observes_boundary
valid_policy = refl

validate_exclusion_policy-IsRooted_example : IsRooted root observed
validate_exclusion_policy-IsRooted_example =
    validate_exclusion_policy-IsRooted root observing Operation.subscribe observed valid_policy

observed_contained : BTreeSet.contains (root ++ (s ∷ [])) observed.observed_paths ≡ true
unfolding BTreeSet.contains
observed_contained = refl

observed_parent_included_example :
    (above : FilePath) × (parent (root ++ (s ∷ [])) ≡ some above)
    × (starts_with above root ≡ true)
    × (topology_excludes observed root above ≡ false)
observed_parent_included_example =
    observed_parent_included root observing Operation.subscribe observed (root ++ (s ∷ []))
      valid_policy observed_contained
