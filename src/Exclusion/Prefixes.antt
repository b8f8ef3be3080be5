-- ===== src/Exclusion/Prefixes.antt =====
-- The topmost paths of a set of prefixes.
use watchbound.Base.{
  ℕ, zero, suc, ◌<◌, ◌≡◌, refl, List, Bool, true, ◌&&◌, not, arith, any, length, Bool-cases, inl,
  inr, true→≢false,
}
use watchbound.Order.{ℕ_ord, list_ord, ◌=?◌, eq_of_=?}
use watchbound.BTreeSet.{contains, any-witness, any_of-contains, contains-retain}
use watchbound.Error.{Operation}
use watchbound.Result.{ok, Result-cases}
use watchbound.FilePath.{FilePath, Spelling, starts_with}
use watchbound.FilePath.Laws.{starts_with_trans, starts_with_refl, starts_with-shorter}
use watchbound.Exclusion.{topmost, validate_relative_paths, validate_exclusion_prefixes}

abbrev is_below : List FilePath → FilePath → Bool
is_below candidates candidate =
    any (λ ancestor. not (candidate =? ancestor) && starts_with candidate ancestor) candidates

pub contains-topmost :
    (x : FilePath) (candidates : List FilePath)
    → contains x (topmost candidates) ≡ (contains x candidates && not (is_below candidates x))
unfolding topmost
contains-topmost x candidates = contains-retain (λ c. not (is_below candidates c)) x candidates

-- Above every candidate there is a topmost one.
topmost_above :
    (bound : ℕ) (candidates : List FilePath) (c : FilePath)
    → length c < bound
    → contains c candidates ≡ true
    → (a : FilePath) × (contains a (topmost candidates) ≡ true) × (starts_with c a ≡ true)
topmost_above zero candidates c h k = absurd (omega arith)
topmost_above (suc bound) candidates c h k = elim (Bool-cases (is_below candidates c)) [
  | inr top ↦ (c, ground (arith, contains-topmost c candidates, k, top), starts_with_refl c)
  | inl below ↦
      let (b, found, above) = any-witness _ candidates below in
      let prefix : starts_with c b ≡ true = ground arith in
      let shorter : length b < length c = starts_with-shorter c b prefix (ground arith) in
      let (a, top, prefix') = topmost_above bound candidates b (omega arith) found in
      (a, top, starts_with_trans c b a prefix prefix')
]

-- A path lies below a topmost candidate exactly if it lies below a candidate.
pub any-topmost :
    (candidates : List FilePath) (path : FilePath)
    → any (starts_with path) (topmost candidates) ≡ any (starts_with path) candidates
any-topmost candidates path = elim (Bool-cases (any (starts_with path) candidates)) [
  | inl h ↦
      let (c, found, below) = any-witness (starts_with path) candidates h in
      let (a, top, above) = topmost_above (suc (length c)) candidates c (omega arith) found in
      rw h (
        any_of-contains (starts_with path) a (topmost candidates) top
          (starts_with_trans path c a below above))
  | inr h ↦ elim (Bool-cases (any (starts_with path) (topmost candidates))) [
    | inr k ↦ rw (h, k) refl
    | inl k ↦
        let (a, top, below) = any-witness (starts_with path) (topmost candidates) k in
        absurd (
          true→≢false
            (any_of-contains (starts_with path) a candidates
              (ground (arith, contains-topmost a candidates, top)) below)
            h)
  ]
]

-- No topmost candidate lies below another one.
pub topmost_antichain :
    (candidates : List FilePath) (a b : FilePath)
    → contains a (topmost candidates) ≡ true
    → contains b (topmost candidates) ≡ true
    → starts_with a b ≡ true
    → a ≡ b
topmost_antichain candidates a b ha hb h = elim (Bool-cases (a =? b)) [
  | inl same ↦ eq_of_=? a b same
  | inr differ ↦
      let hit =
        any_of-contains (λ ancestor. not (a =? ancestor) && starts_with a ancestor) b candidates
          (ground (arith, contains-topmost b candidates)) (ground (arith, differ)) in
      absurd (ground (arith, contains-topmost a candidates, hit))
]

-- When prefixes are accepted, those that are kept exclude the same paths as all that were given,
-- and none of them lies below another.
pub validate_exclusion_prefixes-covers :
    (root : FilePath) (prefixes : List Spelling) (operation : Operation) (result : List FilePath)
    → validate_exclusion_prefixes root prefixes operation ≡ ok result
    → (absolute : List FilePath) × (validate_relative_paths root prefixes operation true
        ≡ ok absolute)
      × ((path : FilePath) → any (starts_with path) result ≡ any (starts_with path) absolute)
      × ((a b : FilePath)
          → contains a result ≡ true
          → contains b result ≡ true
          → starts_with a b ≡ true
          → a ≡ b)
unfolding validate_exclusion_prefixes
validate_exclusion_prefixes-covers root prefixes operation result h =
    elim (Result-cases (validate_relative_paths root prefixes operation true)) [
      | inl (absolute, e) ↦
          let same : topmost absolute ≡ result = ground (arith, e) in
          rw (← same) (absolute, e, any-topmost absolute, topmost_antichain absolute)
      | inr (x, e) ↦ absurd (ground (arith, e))
    ]
