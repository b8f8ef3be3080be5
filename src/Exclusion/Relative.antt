-- ===== src/Exclusion/Relative.antt =====
-- Which relative paths `validate_relative_paths` accepts.
use watchbound.Base.{
  ◌≡◌, refl, sym, subst, ◌↔◌, List, [], ◌∷◌, ◌++◌, Bool, true, false, ◌&&◌, not, some, arith,
  is_empty, All, map, inl, inr, Option-cases, ◌⊎◌,
}
use watchbound.Order.{ℕ_ord, list_ord, ◌=?◌, =?_refl, eq_of_=?}
use watchbound.BTreeSet
use watchbound.Error.{Operation}
use watchbound.Result.{ok, Result-cases}
use watchbound.FilePath.{
  Name, FilePath, Spelling, Component, normal, root_dir, cur_dir, parent_dir, components, spell,
}
use watchbound.FilePath.Spelled.{
  IsNormal, IsSound, components-spell, components-IsSound, is_empty-spell,
}
use watchbound.Exclusion.{
  normalize, has_nul, validate_relative_path, validate_relative_loop, validate_relative_paths,
}

-- The names of a relative path that may be excluded.
pub record IsRelative (allow_empty : Bool) (names : List Name) : Type 0 where
  pub normal_names : All IsNormal names
  pub no_nul : has_nul (spell names) ≡ false
  pub named : (allow_empty ≡ true) ⊎ (is_empty names ≡ false)

normalize-map : (names : List Name) → normalize (map normal names) ≡ some names
unfolding normalize
normalize-map [] = refl
normalize-map (n ∷ names) = ground (arith, normalize-map names)

normalize-IsNormal :
    (cs : List Component) (names : List Name)
    → All IsSound cs
    → normalize cs ≡ some names
    → All IsNormal names
unfolding normalize
normalize-IsNormal [] names a h = ground arith
normalize-IsNormal (normal n ∷ cs) names a h = elim (Option-cases (normalize cs)) [
  | inl e ↦ absurd (ground (arith, e))
  | inr (rest, e) ↦
      let same : n ∷ rest ≡ names = ground (arith, e) in
      subst (All IsNormal) same (a.0, normalize-IsNormal cs rest a.1 e)
]
normalize-IsNormal (root_dir ∷ cs) names a h = cc
normalize-IsNormal (cur_dir ∷ cs) names a h = cc
normalize-IsNormal (parent_dir ∷ cs) names a h = cc

accepted_facts :
    (operation : Operation) (allow_empty : Bool) (path : Spelling) (names : List Name)
    → validate_relative_path operation allow_empty path ≡ ok names
    → (has_nul path ≡ false)
      × (normalize (components path) ≡ some names)
      × ((spell names =? path) ≡ true)
      × ((not allow_empty && is_empty (spell names)) ≡ false)
unfolding validate_relative_path
accepted_facts operation allow_empty path names h = ground arith

-- A path is accepted, as the given names, exactly if it is their canonical spelling: names that
-- are normal components, without NUL, joined by single slashes; and not empty unless allowed.
pub validate_relative_path_iff :
    (operation : Operation) (allow_empty : Bool) (path : Spelling) (names : List Name)
    → (validate_relative_path operation allow_empty path ≡ ok names)
      ↔ ((path ≡ spell names) × IsRelative allow_empty names)
unfolding validate_relative_path
validate_relative_path_iff operation allow_empty path names = (accepted, accepts)
  where
    accepted :
        validate_relative_path operation allow_empty path ≡ ok names
        → (path ≡ spell names) × IsRelative allow_empty names
    accepted h =
        let (no_nul, split_up, same, non_empty) =
          accepted_facts operation allow_empty path names h in
        let spelled = eq_of_=? (spell names) path same in
        let normal_names =
          normalize-IsNormal (components path) names (components-IsSound path) split_up in
        (
          sym spelled,
          record {
            normal_names = normal_names;
            no_nul = rw spelled no_nul;
            named = ground (arith, non_empty, is_empty-spell names normal_names);
          },
        )

    accepts :
        (path ≡ spell names) × IsRelative allow_empty names
        → validate_relative_path operation allow_empty path ≡ ok names
    accepts (e, v) = rw e (
        ground (
          arith,
          components-spell names v.normal_names,
          normalize-map names,
          =?_refl (spell names),
          is_empty-spell names v.normal_names,
          v.no_nul,
          v.named,
        ))

-- The set that the accepted paths make up, below the root.
unfoldable pub collect : FilePath → List FilePath → List (List Name) → List FilePath
collect root absolute [] = absolute
collect root absolute (names ∷ rest) = collect root (BTreeSet.insert (root ++ names) absolute) rest

loop_iff :
    (root : FilePath) (operation : Operation) (allow_empty : Bool) (absolute : List FilePath)
    → (paths : List Spelling) (result : List FilePath)
    → validate_relative_loop root operation allow_empty absolute paths ≡ ok result
    → (all_names : List (List Name)) × (paths ≡ map spell all_names)
      × All (IsRelative allow_empty) all_names
      × (result ≡ collect root absolute all_names)
unfolding validate_relative_loop collect
loop_iff root operation allow_empty absolute [] result h = ([], refl, tt, ground arith)
loop_iff root operation allow_empty absolute (path ∷ paths) result h =
    elim (Result-cases (validate_relative_path operation allow_empty path)) [
      | inl (names, e) ↦
          let (spelled, relative) =
            (validate_relative_path_iff operation allow_empty path names).0 e in
          let (rest, paths_spelled, all_relative, collected) =
            loop_iff root operation allow_empty (BTreeSet.insert (root ++ names) absolute) paths
              result (ground (arith, e)) in
          (names ∷ rest, ground arith, (relative, all_relative), collected)
      | inr (e', e) ↦ absurd (ground (arith, e))
    ]

loop-accepts :
    (root : FilePath) (operation : Operation) (allow_empty : Bool) (absolute : List FilePath)
    → (all_names : List (List Name)) → All (IsRelative allow_empty) all_names
    → validate_relative_loop root operation allow_empty absolute (map spell all_names)
      ≡ ok (collect root absolute all_names)
unfolding validate_relative_loop collect
loop-accepts root operation allow_empty absolute [] a = refl
loop-accepts root operation allow_empty absolute (names ∷ rest) a =
    rw ((validate_relative_path_iff operation allow_empty (spell names) names).1 (refl, a.0))
      (loop-accepts root operation allow_empty (BTreeSet.insert (root ++ names) absolute) rest a.1)

-- A list of paths is accepted exactly when each is the canonical spelling of names that may be
-- excluded, and the result is the set of these paths below the root.
pub validate_relative_paths_iff :
    (root : FilePath) (paths : List Spelling) (operation : Operation) (allow_empty : Bool)
    → (result : List FilePath)
    → (validate_relative_paths root paths operation allow_empty ≡ ok result) ↔ (
        (all_names : List (List Name)) × (paths ≡ map spell all_names)
        × All (IsRelative allow_empty) all_names
        × (result ≡ collect root [] all_names))
unfolding validate_relative_paths
validate_relative_paths_iff root paths operation allow_empty result = (
  loop_iff root operation allow_empty [] paths result,
  λ (all_names, spelled, relative, collected).
      rw (spelled, collected) (loop-accepts root operation allow_empty [] all_names relative),
)
