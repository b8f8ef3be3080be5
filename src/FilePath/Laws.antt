-- ===== src/FilePath/Laws.antt =====
-- Laws of prefixes and parents.
use watchbound.Base.{
  ◌<◌, ◌+◌, ◌≤◌, ◌≡◌, refl, [], ◌∷◌, ◌++◌, true, false, some, arith, length, ap, length-append,
  true→≢false, Bool-cases, Option-cases, inl, inr,
}
use watchbound.Order.{ℕ_ord, list_ord, ◌=?◌, =?_refl, eq_of_=?}
use watchbound.FilePath.{FilePath, Name, strip_prefix, starts_with, parent}

pub starts_with-append : (p q : FilePath) → starts_with (p ++ q) p ≡ true
unfolding starts_with
starts_with-append [] q = refl
starts_with-append (n ∷ p) q = ground (arith, =?_refl n, starts_with-append p q)

pub starts_with_refl : (p : FilePath) → starts_with p p ≡ true
unfolding starts_with
starts_with_refl [] = refl
starts_with_refl (n ∷ p) = ground (arith, =?_refl n, starts_with_refl p)

-- A path that starts with another one is that one and a rest.
pub rest_of-starts_with :
    (p q : FilePath) → starts_with p q ≡ true → (rest : FilePath) × (p ≡ q ++ rest)
unfolding starts_with
rest_of-starts_with p [] h = (p, refl)
rest_of-starts_with [] (n ∷ q) h = absurd (true→≢false h refl)
rest_of-starts_with (m ∷ p) (n ∷ q) h = elim (Bool-cases (m =? n)) [
  | inl e ↦
      let (rest, r) = rest_of-starts_with p q (ground (arith, e)) in
      (rest, ground (arith, eq_of_=? m n e, r))
  | inr e ↦ absurd (true→≢false h (ground (arith, e)))
]

pub starts_with-longer :
    (p rest q : FilePath) → starts_with p q ≡ true → starts_with (p ++ rest) q ≡ true
unfolding starts_with
starts_with-longer p rest [] h = refl
starts_with-longer [] rest (n ∷ q) h = absurd (true→≢false h refl)
starts_with-longer (m ∷ p) rest (n ∷ q) h = ground (arith, starts_with-longer p rest q)

pub starts_with_trans :
    (p q r : FilePath) → starts_with p q ≡ true → starts_with q r ≡ true → starts_with p r ≡ true
starts_with_trans p q r h k =
    let (rest, e) = rest_of-starts_with p q h in rw e (starts_with-longer q rest r k)

pub starts_with-length : (p q : FilePath) → starts_with p q ≡ true → length q ≤ length p
starts_with-length p q h =
    let (rest, e) = rest_of-starts_with p q h in omega (arith, ap length e, length-append q rest)

pub starts_with_antisym : (p q : FilePath) → starts_with p q ≡ true → starts_with q p ≡ true → p ≡ q
unfolding starts_with
starts_with_antisym [] [] h k = refl
starts_with_antisym [] (n ∷ q) h k = cc
starts_with_antisym (m ∷ p) [] h k = cc
starts_with_antisym (m ∷ p) (n ∷ q) h k = ground (arith, starts_with_antisym p q, eq_of_=? m n)

-- A proper prefix is shorter.
pub starts_with-shorter :
    (p q : FilePath) → starts_with p q ≡ true → (p =? q) ≡ false → length q < length p
unfolding starts_with
starts_with-shorter [] [] h k = absurd (ground arith)
starts_with-shorter [] (n ∷ q) h k = absurd (true→≢false h refl)
starts_with-shorter (m ∷ p) [] h k = omega arith
starts_with-shorter (m ∷ p) (n ∷ q) h k = ground (arith, starts_with-shorter p q)

pub strip_prefix-append : (root rel : FilePath) → strip_prefix (root ++ rel) root ≡ some rel
unfolding strip_prefix
strip_prefix-append [] rel = refl
strip_prefix-append (n ∷ root) rel = ground (arith, =?_refl n, strip_prefix-append root rel)

-- The parent is the path without its last name.
pub parent-length :
    (p q : FilePath) → parent p ≡ some q → (length q + 1 ≡ length p) × (starts_with p q ≡ true)
unfolding parent starts_with
parent-length [] q h = absurd (ground arith)
parent-length (n ∷ []) q h = ground arith
parent-length (n ∷ m ∷ p) q h = elim (Option-cases (parent (m ∷ p))) [
  | inl e ↦ absurd (ground (arith, e))
  | inr (r, e) ↦ ground (arith, e, parent-length (m ∷ p) r e, =?_refl n)
]

-- Every path but the root directory has a parent.
pub parent-total : (n : Name) (p : FilePath) → (q : FilePath) × (parent (n ∷ p) ≡ some q)
unfolding parent
parent-total n [] = ([], refl)
parent-total n (m ∷ p) = let (q, e) = parent-total m p in (n ∷ q, ground (arith, e))

pub parent-append :
    (root rel : FilePath) (n : Name)
    → (q : FilePath) × (parent (root ++ (n ∷ rel)) ≡ some (root ++ q))
unfolding parent
parent-append [] rel n = parent-total n rel
parent-append (m ∷ []) rel n = let (q, e) = parent-total n rel in (q, ground (arith, e))
parent-append (m ∷ l ∷ root) rel n =
    let (q, e) = parent-append (l ∷ root) rel n in (q, ground (arith, e))
