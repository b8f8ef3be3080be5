-- ===== src/Exclusion/Observed.antt =====
-- Validated policies: where their paths lie, and the parents of observed boundaries.
use watchbound.Base.{
  ap, ◌&&◌, is_empty, not, some, ◌<◌, length, ◌≡◌, refl, List, [], ◌∷◌, ◌++◌, Bool, true, false,
  arith, any, All, Bool-cases, inl, inr, true→≢false, ◌⊎◌, sym,
}
use watchbound.Exclusion.Prefixes.{contains-topmost}
use watchbound.Exclusion.Reinclusion.{IsRooted}
use watchbound.FilePath.Laws.{parent-length, parent-append, starts_with-append, starts_with-length}
use watchbound.Result.{Result-cases, ok}
use watchbound.Exclusion.{
  parent, starts_with, topology_excludes, ExclusionPolicy, ValidatedExclusionPolicy,
  has_excluded_parent, validate_exclusion_policy, validate_relative_paths,
  validate_exclusion_prefixes, validate_names_loop, topmost,
}
use watchbound.BTreeSet.{IsSorted, contains, any-witness, any_of-contains, contains-insert}
use watchbound.Order.{ℕ_ord, list_ord, ◌=?◌, eq_of_=?}
use watchbound.BTreeSet
use watchbound.Error.{Operation}
use watchbound.FilePath.{FilePath, Name, Spelling}
use watchbound.Exclusion.Relative.{collect, IsRelative, validate_relative_paths_iff}

contains-collect :
    (root : FilePath) (allow_empty : Bool) (absolute : List FilePath) (all_names : List (List Name))
    → (p : FilePath) → All (IsRelative allow_empty) all_names
    → contains p (collect root absolute all_names) ≡ true
    → (contains p absolute ≡ true)
      ⊎ ((names : List Name) × (p ≡ root ++ names) × IsRelative allow_empty names)
unfolding collect
contains-collect root allow_empty absolute [] p a h = inl h
contains-collect root allow_empty absolute (names ∷ rest) p a h =
    elim (contains-collect root allow_empty (BTreeSet.insert (root ++ names) absolute) rest p a.1
      h) [
        | inr later ↦ inr later
        | inl now ↦ elim (Bool-cases ((root ++ names) =? p)) [
          | inl same ↦ inr (names, sym (eq_of_=? (root ++ names) p same), a.0)
          | inr other ↦ inl (ground (arith, contains-insert p (root ++ names) absolute))
        ]
      ]

not-contains-empty : (p : FilePath) → contains p [] ≡ false
unfolding contains
not-contains-empty p = refl

accepted_path :
    (root : FilePath) (paths : List Spelling) (operation : Operation) (allow_empty : Bool)
    → (result : List FilePath) (p : FilePath)
    → validate_relative_paths root paths operation allow_empty ≡ ok result
    → contains p result ≡ true
    → (names : List Name) × (p ≡ root ++ names) × IsRelative allow_empty names
accepted_path root paths operation allow_empty result p h k =
    let (all_names, _, relative, e) =
      (validate_relative_paths_iff root paths operation allow_empty result).0 h in
    elim (contains-collect root allow_empty [] all_names p relative (rw (← e) k)) [
      | inl impossible ↦ absurd (true→≢false impossible (not-contains-empty p))
      | inr found ↦ found
    ]

-- The steps of a validation that succeeds.
record Passed (root : FilePath) (policy : ExclusionPolicy) (operation : Operation)
    (v : ValidatedExclusionPolicy) : Type 0 where
  prefixes_pass : validate_exclusion_prefixes root policy.prefixes operation ≡ ok v.prefixes
  observed_pass :
      validate_relative_paths root policy.observed_excluded_paths operation false
      ≡ ok v.observed_paths
  names_pass :
      validate_names_loop operation [] policy.excluded_directory_names ≡ ok v.directory_names
  parents_pass : any (has_excluded_parent v root) v.observed_paths ≡ false

validate_exclusion_policy-Passed :
    (root : FilePath) (policy : ExclusionPolicy) (operation : Operation)
    → (v : ValidatedExclusionPolicy) → validate_exclusion_policy root policy operation ≡ ok v
    → Passed root policy operation v
unfolding validate_exclusion_policy
validate_exclusion_policy-Passed root policy operation v h = ground arith

accepted_prefix :
    (root : FilePath) (prefixes : List Spelling) (operation : Operation) (result : List FilePath)
    → (p : FilePath) → validate_exclusion_prefixes root prefixes operation ≡ ok result
    → contains p result ≡ true
    → starts_with p root ≡ true
unfolding validate_exclusion_prefixes
accepted_prefix root prefixes operation result p h k =
    elim (Result-cases (validate_relative_paths root prefixes operation true)) [
      | inr (x, e) ↦ absurd (ground (arith, e))
      | inl (absolute, e) ↦
          let same : topmost absolute ≡ result = ground (arith, e) in
          let given : contains p absolute ≡ true =
            ground (arith, rw (← same) at k, contains-topmost p absolute) in
          let (names, is, _) = accepted_path root prefixes operation true absolute p e given in
          rw is (starts_with-append root names)
    ]

-- Every path of an accepted policy is the root it was validated for, or lies below it.
pub validate_exclusion_policy-IsRooted :
    (root : FilePath) (policy : ExclusionPolicy) (operation : Operation)
    → (v : ValidatedExclusionPolicy) → validate_exclusion_policy root policy operation ≡ ok v
    → IsRooted root v
validate_exclusion_policy-IsRooted root policy operation v h =
    let passed = validate_exclusion_policy-Passed root policy operation v h in
    record {
      prefixes =
          λ p k. accepted_prefix root policy.prefixes operation v.prefixes p passed.prefixes_pass k;
      observed = λ p k.
          let (names, is, _) =
            accepted_path root policy.observed_excluded_paths operation false v.observed_paths p
              passed.observed_pass k in
          rw is (starts_with-append root names);
    }

any-false-at :
    (p : FilePath → Bool) (x : FilePath) (s : List FilePath)
    → any p s ≡ false
    → contains x s ≡ true
    → p x ≡ false
any-false-at p x s h k = elim (Bool-cases (p x)) [
  | inl hit ↦ absurd (true→≢false (any_of-contains p x s k hit) h)
  | inr miss ↦ miss
]

-- No path starts with a longer one, so the test on the other boundaries covers them all.
no_boundary_above :
    (observed above : FilePath) (boundaries : List FilePath)
    → length above < length observed
    → any (λ other. not (other =? observed) && starts_with above other) boundaries ≡ false
    → any (starts_with above) boundaries ≡ false
no_boundary_above observed above boundaries short h =
    elim (Bool-cases (any (starts_with above) boundaries)) [
      | inr k ↦ k
      | inl k ↦
          let (other, found, below) = any-witness (starts_with above) boundaries k in
          elim (Bool-cases (other =? observed)) [
            | inl same ↦
                let e = eq_of_=? other observed same in
                absurd (omega (arith, starts_with-length above other below, ap length e))
            | inr differs ↦
                let hit =
                  any_of-contains (λ x. not (x =? observed) && starts_with above x) other boundaries
                    found (ground (arith, differs, below)) in
                absurd (true→≢false hit h)
          ]
    ]

included_parent :
    (v : ValidatedExclusionPolicy) (root observed above : FilePath)
    → parent observed ≡ some above
    → has_excluded_parent v root observed ≡ false
    → topology_excludes v root above ≡ false
unfolding has_excluded_parent topology_excludes
included_parent v root observed above e h =
    let (shorter, _) = parent-length observed above e in
    ground (arith, e, h, no_boundary_above observed above v.observed_paths (omega arith))

-- When a policy is accepted, the parent of each of its observed boundaries exists, is the root or
-- lies below it, and is not excluded.
pub observed_parent_included :
    (root : FilePath) (policy : ExclusionPolicy) (operation : Operation)
    → (v : ValidatedExclusionPolicy) (observed : FilePath)
    → validate_exclusion_policy root policy operation ≡ ok v
    → contains observed v.observed_paths ≡ true
    → (above : FilePath) × (parent observed ≡ some above)
      × (starts_with above root ≡ true)
      × (topology_excludes v root above ≡ false)
observed_parent_included root policy operation v observed h k =
    let passed = validate_exclusion_policy-Passed root policy operation v h in
    let (names, is, relative) =
      accepted_path root policy.observed_excluded_paths operation false v.observed_paths observed
        passed.observed_pass k in
    let (q, e) = parent_below root names (ground (arith, relative.named)) in
    let e' : parent observed ≡ some (root ++ q) = rw is e in
    (
      root ++ q,
      e',
      starts_with-append root q,
      included_parent v root observed (root ++ q) e' (
          any-false-at (has_excluded_parent v root) observed v.observed_paths passed.parents_pass
            k),
    )
  where
    parent_below :
        (root : FilePath) (names : List Name)
        → is_empty names ≡ false
        → (q : FilePath) × (parent (root ++ names) ≡ some (root ++ q))
    parent_below root [] g = absurd (true→≢false refl g)
    parent_below root (n ∷ names) g = parent-append root names n
