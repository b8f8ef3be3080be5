-- ===== src/Exclusion.antt =====
-- Exclusion policies of engine/src/backend/linux.rs (`ValidatedExclusionPolicy` and its
-- validation), and `ExclusionPolicy` of engine/src/lib.rs. Error messages are left out.
pub mod Pruning
pub mod Relative
pub mod Prefixes
pub mod Observed
pub mod Reinclusion
use watchbound.Base.{
  ℕ, suc, ◌+◌, ◌-◌, List, [], ◌∷◌, ◌++◌, Bool, true, false, ◌&&◌, ◌||◌, not, Option, none, some,
  if◌then◌else◌, any, is_empty, retain, ltb, ◌==◌, length,
}
use watchbound.Order.{ℕ_ord, list_ord, ◌=?◌}
use watchbound.BTreeSet
use watchbound.Error.{Operation, ErrorCode, error}
use watchbound.Result.{Result, ok, err, ◌>>=◌, ◌>>◌}
use watchbound.FilePath.{
  Name, FilePath, Spelling, Component, normal, starts_with, strip_prefix, parent, components,
  is_absolute, spell, slash,
}

pub record ExclusionPolicy : Type 0 where
  pub prefixes : List Spelling
  pub excluded_directory_names : List Name
  pub observed_excluded_paths : List Spelling

-- The three sets hold their keys in increasing order.
pub record ValidatedExclusionPolicy : Type 0 where
  pub prefixes : List FilePath
  pub directory_names : List Name
  pub observed_paths : List FilePath

-- The loop of `matches_directory_name` over the components and their indices.
unfoldable pub name_hit : List Name → Bool → ℕ → ℕ → FilePath → Bool
name_hit names target_is_directory final_index index [] = false
name_hit names target_is_directory final_index index (component ∷ rest) =
    (BTreeSet.contains component names && (ltb index final_index || target_is_directory))
    || name_hit names target_is_directory final_index (suc index) rest

-- A path outside the root matches.
unfoldable pub matches_directory_name : FilePath → FilePath → Bool → List Name → Bool
matches_directory_name root path target_is_directory names =
    if is_empty names then false else (elim (strip_prefix path root) [
      | none ↦ true
      | some relative ↦ name_hit names target_is_directory (length relative - 1) 0 relative
    ])

unfoldable pub event_excludes : ValidatedExclusionPolicy → FilePath → FilePath → Bool → Bool
event_excludes v root path target_is_directory =
    any (starts_with path) v.prefixes
    || any (starts_with path) v.observed_paths
    || matches_directory_name root path target_is_directory v.directory_names

unfoldable pub topology_excludes : ValidatedExclusionPolicy → FilePath → FilePath → Bool
topology_excludes v root path =
    any (starts_with path) v.prefixes
    || any (starts_with path) v.observed_paths
    || matches_directory_name root path true v.directory_names

unfoldable pub observes_boundary : ValidatedExclusionPolicy → FilePath → Bool
observes_boundary v path = BTreeSet.contains path v.observed_paths

abbrev pub invalid : {A : Type 0} → Operation → Result A
invalid operation = err (error ErrorCode.invalid_argument operation)

-- The components pushed together, unless one of them is not a normal one.
unfoldable pub normalize : List Component → Option (List Name)
normalize [] = some []
normalize (normal name ∷ rest) = elim (normalize rest) [
  | none ↦ none
  | some names ↦ some (name ∷ names)
]
normalize (_ ∷ rest) = none

abbrev pub has_nul : List ℕ → Bool
has_nul = any (λ c. c == 0)

-- The checks of `validate_relative_paths` on one path, in their order.
unfoldable pub validate_relative_path : Operation → Bool → Spelling → Result (List Name)
validate_relative_path operation allow_empty path =
    if is_absolute path
    then invalid operation
    else if has_nul path
    then invalid operation
    else (elim (normalize (components path)) [
      | none ↦ invalid operation
      | some normalized ↦
          if not (spell normalized =? path)
          then invalid operation
          else if not allow_empty && is_empty (spell normalized)
          then invalid operation
          else ok normalized
    ])

-- The loop over the paths; `absolute` is the set so far.
unfoldable pub validate_relative_loop :
    FilePath → Operation → Bool → List FilePath → List Spelling → Result (List FilePath)
validate_relative_loop root operation allow_empty absolute [] = ok absolute
validate_relative_loop root operation allow_empty absolute (path ∷ paths) = do
  normalized ← validate_relative_path operation allow_empty path
  validate_relative_loop root operation allow_empty (BTreeSet.insert (root ++ normalized) absolute)
      paths

unfoldable pub validate_relative_paths :
    FilePath → List Spelling → Operation → Bool → Result (List FilePath)
unfolding validate_relative_loop
validate_relative_paths root paths operation allow_empty =
    validate_relative_loop root operation allow_empty [] paths

-- The candidates with no other candidate above them.
unfoldable pub topmost : List FilePath → List FilePath
topmost candidates =
    retain
      (λ candidate. not (
        any (λ ancestor. not (candidate =? ancestor) && starts_with candidate ancestor) candidates))
      candidates

unfoldable pub validate_exclusion_prefixes :
    FilePath → List Spelling → Operation → Result (List FilePath)
validate_exclusion_prefixes root prefixes operation = do
  absolute ← validate_relative_paths root prefixes operation true
  ok (topmost absolute)

-- `valid` in the loop over the directory names.
unfoldable pub is_valid_directory_name : Name → Bool
is_valid_directory_name name =
    not (is_empty name)
    && not (has_nul name)
    && not (any (λ c. c == slash) name)
    && (elim (components name) [ normal component ∷ [] ↦ component =? name | _ ↦ false ])

unfoldable pub validate_names_loop : Operation → List Name → List Name → Result (List Name)
unfolding is_valid_directory_name
validate_names_loop operation names [] = ok names
validate_names_loop operation names (name ∷ rest) =
    (if is_valid_directory_name name then ok tt else invalid operation)
    >> validate_names_loop operation (BTreeSet.insert name names) rest

-- The test on each observed path: its parent is excluded. The parent is there, since an observed
-- path lies below the root (Exclusion/Observed), so the panic of `expect` has no branch.
unfoldable pub has_excluded_parent : ValidatedExclusionPolicy → FilePath → FilePath → Bool
has_excluded_parent v root observed = elim (parent observed) [
  | none ↦ false
  | some above ↦
      any (starts_with above) v.prefixes
      || any (λ other. not (other =? observed) && starts_with above other) v.observed_paths
      || matches_directory_name root above true v.directory_names
]

unfoldable pub validate_exclusion_policy :
    FilePath → ExclusionPolicy → Operation → Result ValidatedExclusionPolicy
validate_exclusion_policy root policy operation = do
  prefixes ← validate_exclusion_prefixes root policy.prefixes operation
  observed_paths ← validate_relative_paths root policy.observed_excluded_paths operation false
  directory_names ← validate_names_loop operation [] policy.excluded_directory_names
  let validated : ValidatedExclusionPolicy = record {
    prefixes = prefixes;
    directory_names = directory_names;
    observed_paths = observed_paths;
  }
  if any (has_excluded_parent validated root) observed_paths
      then invalid operation
      else ok validated

-- `sort` and `dedup`.
unfoldable pub sort_dedup : List FilePath → List FilePath
sort_dedup [] = []
sort_dedup (x ∷ xs) = BTreeSet.insert x (sort_dedup xs)

-- Where a replacement policy may include again what the previous one excluded.
unfoldable pub policy_reinclusion_roots :
    FilePath → ValidatedExclusionPolicy → ValidatedExclusionPolicy → List FilePath
policy_reinclusion_roots root previous replacement =
    let candidates : List FilePath =
      if not (is_empty (BTreeSet.difference previous.directory_names replacement.directory_names))
      then root ∷ []
      else BTreeSet.difference previous.prefixes replacement.prefixes
        ++ BTreeSet.difference previous.observed_paths replacement.observed_paths in
    topmost (
      sort_dedup
        (retain (λ candidate. not (topology_excludes replacement root candidate)) candidates))

-- `pop_policy_item`: one key of the policy is destroyed, if one is left.
unfoldable pub pop_policy_item : ValidatedExclusionPolicy → ValidatedExclusionPolicy × Bool
pop_policy_item v = elim v.prefixes [
  | x ∷ rest ↦ (record v { prefixes = rest }, true)
  | [] ↦ elim v.directory_names [
    | x ∷ rest ↦ (record v { directory_names = rest }, true)
    | [] ↦ elim v.observed_paths [
      | x ∷ rest ↦ (record v { observed_paths = rest }, true)
      | [] ↦ (v, false)
    ]
  ]
]
