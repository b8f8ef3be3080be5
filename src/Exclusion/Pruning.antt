-- ===== src/Exclusion/Pruning.antt =====
-- Excluded directories and the paths below them.
use watchbound.Base.{
  ℕ, suc, ◌+◌, ◌-◌, ◌<◌, ◌≡◌, refl, List, [], ◌∷◌, ◌++◌, Bool, true, false, ◌||◌, arith, any,
  length, Bool-cases, inl, inr, true→≢false, length-append, lt→ltb, sym, ◌∙◌, append_assoc,
}
use watchbound.Order.{ℕ_ord, list_ord}
use watchbound.BTreeSet
use watchbound.FilePath.{Name, FilePath, starts_with}
use watchbound.FilePath.Laws.{starts_with-longer, strip_prefix-append}
use watchbound.Exclusion.{
  ValidatedExclusionPolicy, name_hit, matches_directory_name, event_excludes, topology_excludes,
}

-- A directory below the root: every component is tested, the last one too.
pub name_hit-directory :
    (names : List Name) (last index : ℕ) (rel : FilePath)
    → name_hit names true last index rel ≡ any (λ n. BTreeSet.contains n names) rel
unfolding name_hit
name_hit-directory names last index [] = refl
name_hit-directory names last index (n ∷ rel) =
    ground (arith, name_hit-directory names last (suc index) rel)

pub any-append :
    {A : Type 0} (p : A → Bool) (xs ys : List A) → any p (xs ++ ys) ≡ (any p xs || any p ys)
any-append p [] ys = refl
any-append p (x ∷ xs) ys = ground (arith, any-append p xs ys)

no_names : (rel : FilePath) → false ≡ any (λ n. BTreeSet.contains n []) rel
unfolding BTreeSet.contains
no_names [] = refl
no_names (n ∷ rel) = no_names rel

-- Below the root, a directory matches exactly if one of its components is an excluded name.
pub matches_directory_name-below :
    (root rel : FilePath) (names : List Name)
    → matches_directory_name root (root ++ rel) true names
      ≡ any (λ n. BTreeSet.contains n names) rel
unfolding matches_directory_name
matches_directory_name-below root rel [] = no_names rel
matches_directory_name-below root rel (n ∷ names) =
    rw (strip_prefix-append root rel) (name_hit-directory (n ∷ names) (length rel - 1) 0 rel)

any-starts_with-longer :
    (p rest : FilePath) (prefixes : List FilePath)
    → any (starts_with p) prefixes ≡ true
    → any (starts_with (p ++ rest)) prefixes ≡ true
any-starts_with-longer p rest [] h = cc
any-starts_with-longer p rest (q ∷ prefixes) h =
    ground (arith, starts_with-longer p rest q, any-starts_with-longer p rest prefixes)

any-starts_with-shorter :
    (p rest : FilePath) (prefixes : List FilePath)
    → any (starts_with (p ++ rest)) prefixes ≡ false
    → any (starts_with p) prefixes ≡ false
any-starts_with-shorter p rest prefixes h = elim (Bool-cases (any (starts_with p) prefixes)) [
  | inl k ↦ absurd (true→≢false (any-starts_with-longer p rest prefixes k) h)
  | inr k ↦ k
]

-- A hit above the last component counts whatever the target is.
name_hit_inside :
    (names : List Name) (target_is_directory : Bool) (last index : ℕ) (dir : FilePath) (n : Name)
    → (rest : FilePath) → index + length (dir ++ (n ∷ rest)) ≡ suc last
    → any (λ d. BTreeSet.contains d names) dir ≡ true
    → name_hit names target_is_directory last index (dir ++ (n ∷ rest)) ≡ true
unfolding name_hit
name_hit_inside names b last index [] n rest e h = cc
name_hit_inside names b last index (d ∷ dir) n rest e h =
    let inside : index < last = omega (arith, length-append dir (n ∷ rest), e) in
    ground (arith, lt→ltb index last inside, name_hit_inside names b last (suc index) dir n rest)

matches_inside :
    (root dir : FilePath) (n : Name) (rest : FilePath) (b : Bool) (names : List Name)
    → matches_directory_name root (root ++ dir) true names ≡ true
    → matches_directory_name root (root ++ (dir ++ (n ∷ rest))) b names ≡ true
unfolding matches_directory_name
matches_inside root dir n rest b [] h = cc
matches_inside root dir n rest b (m ∷ names) h = rw (strip_prefix-append root (dir ++ (n ∷ rest))) (
    name_hit_inside (m ∷ names) b _ 0 dir n rest (omega (arith, length-append dir (n ∷ rest)))
      (sym (matches_directory_name-below root dir (m ∷ names)) ∙ h))

-- Whatever lies below an excluded directory is excluded: for the traversal, and for an event whose
-- target is a directory or not.
pub pruned_below :
    (v : ValidatedExclusionPolicy) (root dir : FilePath) (n : Name) (rest : FilePath)
    → topology_excludes v root (root ++ dir) ≡ true
    → (topology_excludes v root (root ++ (dir ++ (n ∷ rest))) ≡ true)
      × ((b : Bool) → event_excludes v root (root ++ (dir ++ (n ∷ rest))) b ≡ true)
unfolding topology_excludes event_excludes
pruned_below v root dir n rest h =
    let longer = append_assoc root dir (n ∷ rest) in
    let hit : (b : Bool) → event_excludes v root (root ++ (dir ++ (n ∷ rest))) b ≡ true = λ b.
      ground (
        arith,
        h,
        rw longer at (any-starts_with-longer (root ++ dir) (n ∷ rest) v.prefixes),
        rw longer at (any-starts_with-longer (root ++ dir) (n ∷ rest) v.observed_paths),
        matches_inside root dir n rest b v.directory_names,
      ) in
    (hit true, hit)
