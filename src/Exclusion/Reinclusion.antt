-- ===== src/Exclusion/Reinclusion.antt =====
-- The roots that `policy_reinclusion_roots` returns, and the paths below them.
use watchbound.BTreeSet.{
  contains-is_empty, contains, any-witness, any_of-contains, contains-retain, contains-difference,
  contains-append, contains-insert, difference,
}
use watchbound.FilePath.Laws.{starts_with_refl, rest_of-starts_with, starts_with-append}
use watchbound.Base.{
  ◌≡◌, refl, List, [], ◌∷◌, ◌++◌, true, false, ◌||◌, not, arith, any, is_empty, retain,
  if◌then◌else◌, Bool-cases, inl, inr, true→≢false, ◌⊎◌, append-nil, append_assoc,
}
use watchbound.Order.{ℕ_ord, list_ord, =?_refl, Ord}
use watchbound.FilePath.{FilePath, starts_with}
use watchbound.Exclusion.{
  ValidatedExclusionPolicy, topology_excludes, sort_dedup, policy_reinclusion_roots,
}
use watchbound.Exclusion.Pruning.{pruned_below, matches_directory_name-below}
use watchbound.Exclusion.Prefixes.{any-topmost}

contains-sort_dedup :
    (x : FilePath) (xs : List FilePath) → contains x (sort_dedup xs) ≡ contains x xs
unfolding sort_dedup contains
contains-sort_dedup x [] = refl
contains-sort_dedup x (y ∷ xs) =
    ground (arith, contains-insert x y (sort_dedup xs), contains-sort_dedup x xs)

-- What is included has only included directories above it.
pub included_above :
    (v : ValidatedExclusionPolicy) (root path dir : FilePath)
    → topology_excludes v root path ≡ false
    → starts_with path dir ≡ true
    → starts_with dir root ≡ true
    → topology_excludes v root dir ≡ false
included_above v root path dir h below inside = elim (Bool-cases (topology_excludes v root dir)) [
  | inr k ↦ k
  | inl k ↦
      let (rel, e) = rest_of-starts_with dir root inside in
      let (rest, e') = rest_of-starts_with path dir below in
      absurd (clash rest rel (rw e at k) (rw (e', e, append_assoc root rel rest) at h))
]
  where
    clash :
        (rest rel : FilePath)
        → topology_excludes v root (root ++ rel) ≡ true
        → ¬ (topology_excludes v root (root ++ (rel ++ rest)) ≡ false)
    clash [] rel k l = true→≢false k (rw (append-nil rel) at l)
    clash (n ∷ rest) rel k l = true→≢false (pruned_below v root rel n rest k).0 l

-- The paths of the policy lie below the root, as those of a validated policy do.
pub record IsRooted (root : FilePath) (v : ValidatedExclusionPolicy) : Type 0 where
  pub prefixes : (p : FilePath) → contains p v.prefixes ≡ true → starts_with p root ≡ true
  pub observed : (p : FilePath) → contains p v.observed_paths ≡ true → starts_with p root ≡ true

-- Before the topmost are picked.
candidates_of : FilePath → ValidatedExclusionPolicy → ValidatedExclusionPolicy → List FilePath
candidates_of root previous replacement =
    if not (is_empty (difference previous.directory_names replacement.directory_names))
    then root ∷ []
    else difference previous.prefixes replacement.prefixes
      ++ difference previous.observed_paths replacement.observed_paths

covered :
    (root path c : FilePath) (previous replacement : ValidatedExclusionPolicy)
    → topology_excludes replacement root path ≡ false
    → contains c (candidates_of root previous replacement) ≡ true
    → starts_with path c ≡ true
    → starts_with c root ≡ true
    → any (starts_with path) (policy_reinclusion_roots root previous replacement) ≡ true
unfolding policy_reinclusion_roots candidates_of
covered root path c previous replacement h found below inside =
    let kept = included_above replacement root path c h below inside in
    let candidates = candidates_of root previous replacement in
    let left =
      retain (λ candidate. not (topology_excludes replacement root candidate)) candidates in
    rw (any-topmost (sort_dedup left) path) (
      any_of-contains (starts_with path) c (sort_dedup left)
        (ground (
          arith,
          contains-sort_dedup c left,
          contains-retain (λ x. not (topology_excludes replacement root x)) c candidates,
          found,
          kept,
        ))
        below)

removed_path :
    (path p : FilePath) (before after : List FilePath)
    → contains p before ≡ true
    → starts_with path p ≡ true
    → any (starts_with path) after ≡ false
    → contains p (difference before after) ≡ true
removed_path path p before after h below k =
    ground (arith, contains-difference p before after, any_of-contains (starts_with path) p after)

empty_difference :
    {K : Type 0} ⦃o : Ord K⦄ (s t : List K) (x : K)
    → is_empty (difference s t) ≡ true
    → contains x s ≡ true
    → contains x t ≡ true
empty_difference s t x h k = elim (Bool-cases (contains x t)) [
  | inl in_t ↦ in_t
  | inr out ↦
      let left : contains x (difference s t) ≡ true = ground (arith, contains-difference x s t) in
      absurd (true→≢false h (contains-is_empty x (difference s t) left))
]

excluded_by :
    (v : ValidatedExclusionPolicy) (root rel : FilePath)
    → topology_excludes v root (root ++ rel) ≡ (
        any (starts_with (root ++ rel)) v.prefixes
        || any (starts_with (root ++ rel)) v.observed_paths
        || any (λ n. contains n v.directory_names) rel)
unfolding topology_excludes
excluded_by v root rel = ground (arith, matches_directory_name-below root rel v.directory_names)

-- With no name dropped, the previous exclusion is by a path that the replacement has dropped.
dropped_path :
    (root rel : FilePath) (previous replacement : ValidatedExclusionPolicy)
    → is_empty (difference previous.directory_names replacement.directory_names) ≡ true
    → topology_excludes previous root (root ++ rel) ≡ true
    → topology_excludes replacement root (root ++ rel) ≡ false
    → (c : FilePath) × (starts_with (root ++ rel) c ≡ true)
      × (((contains c previous.prefixes ≡ true)
            × (contains c (difference previous.prefixes replacement.prefixes) ≡ true))
          ⊎ ((contains c previous.observed_paths ≡ true)
              × (contains c (difference previous.observed_paths replacement.observed_paths)
                  ≡ true)))
dropped_path root rel previous replacement none_dropped h k =
    let before = excluded_by previous root rel in
    let after = excluded_by replacement root rel in
    let path = root ++ rel in
    elim (Bool-cases (any (starts_with path) previous.prefixes)) [
      | inl hit ↦
          let (c, found, below) = any-witness (starts_with path) previous.prefixes hit in
          (
            c,
            below,
            inl (
              found,
              removed_path path c previous.prefixes replacement.prefixes found below
                  (ground (arith, after)),
            ),
          )
      | inr miss ↦ elim (Bool-cases (any (starts_with path) previous.observed_paths)) [
        | inl hit ↦
            let (c, found, below) = any-witness (starts_with path) previous.observed_paths hit in
            (
              c,
              below,
              inr (
                found,
                removed_path path c previous.observed_paths replacement.observed_paths found below
                    (ground (arith, after)),
              ),
            )
        | inr miss' ↦
            let named : any (λ n. contains n previous.directory_names) rel ≡ true =
              ground (arith, before) in
            let (n, in_rel, old) =
              any-witness (λ n. contains n previous.directory_names) rel named in
            let kept =
              empty_difference previous.directory_names replacement.directory_names n none_dropped
                old in
            let hit =
              any_of-contains (λ n. contains n replacement.directory_names) n rel in_rel kept in
            absurd (ground (arith, after, hit))
      ]
    ]

root_candidate :
    (root : FilePath) (previous replacement : ValidatedExclusionPolicy)
    → is_empty (difference previous.directory_names replacement.directory_names) ≡ false
    → contains root (candidates_of root previous replacement) ≡ true
unfolding candidates_of contains
root_candidate root previous replacement h = rw h (ground (arith, =?_refl root))

path_candidate :
    (root : FilePath) (previous replacement : ValidatedExclusionPolicy) (c : FilePath)
    → is_empty (difference previous.directory_names replacement.directory_names) ≡ true
    → (contains c (difference previous.prefixes replacement.prefixes)
        || contains c (difference previous.observed_paths replacement.observed_paths))
      ≡ true
    → contains c (candidates_of root previous replacement) ≡ true
unfolding candidates_of
path_candidate root previous replacement c h k = rw h (
    ground (
      arith,
      contains-append c (difference previous.prefixes replacement.prefixes)
          (difference previous.observed_paths replacement.observed_paths),
    ))

-- When the previous policy lies inside the root, every path below the root that it excluded and
-- that the replacement includes lies below one of the roots to scan again.
pub reinclusion_covers :
    (root rel : FilePath) (previous replacement : ValidatedExclusionPolicy)
    → IsRooted root previous
    → topology_excludes previous root (root ++ rel) ≡ true
    → topology_excludes replacement root (root ++ rel) ≡ false
    → any (starts_with (root ++ rel)) (policy_reinclusion_roots root previous replacement) ≡ true
reinclusion_covers root rel previous replacement rooted h k =
    elim (Bool-cases (is_empty (difference previous.directory_names replacement.directory_names))) [
      | inr dropped ↦
          covered root (root ++ rel) root previous replacement k
            (root_candidate root previous replacement dropped) (starts_with-append root rel)
            (starts_with_refl root)
      | inl none_dropped ↦
          let (c, below, dropped) = dropped_path root rel previous replacement none_dropped h k in
          covered root (root ++ rel) c previous replacement k
            (path_candidate root previous replacement c none_dropped (ground arith)) below
            (ground (arith, rooted.prefixes c, rooted.observed c))
    ]
