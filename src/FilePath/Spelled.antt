-- ===== src/FilePath/Spelled.antt =====
-- Spelling names as bytes and reading them back.
use watchbound.Base.{
  ℕ, ◌≡◌, refl, sym, ◌∙◌, List, [], ◌∷◌, ◌++◌, Bool, true, false, arith, any, is_empty, ◌==◌, All,
  map, append_assoc, append-nil, ap, inl, inr, Bool-cases, true→≢false,
}
use watchbound.FilePath.{
  Name, Spelling, Component, normal, slash, split, is_dot, is_dot_dot, classify, components_of,
  add_byte, is_absolute, components, push, spell_from, spell,
}

abbrev pub has_slash : Name → Bool
has_slash = any (λ c. c == slash)

-- What `Component::Normal` can hold.
pub record IsNormal (name : Name) : Type 0 where
  pub non_empty : is_empty name ≡ false
  pub one_segment : has_slash name ≡ false
  pub no_dot : is_dot name ≡ false
  pub no_dot_dot : is_dot_dot name ≡ false

abbrev tails : List Name → Spelling
tails [] = []
tails (n ∷ ns) = slash ∷ (n ++ tails ns)

spell_from-tails :
    (p : Spelling) (ns : List Name) → is_empty p ≡ false → spell_from p ns ≡ p ++ tails ns
unfolding spell_from push
spell_from-tails p [] h = sym (append-nil p)
spell_from-tails [] (n ∷ ns) h = cc
spell_from-tails (c ∷ p) (n ∷ ns) h =
    spell_from-tails (c ∷ (p ++ (slash ∷ n))) ns refl ∙ append_assoc (c ∷ p) (slash ∷ n) (tails ns)

spell-tails : (n : Name) (ns : List Name) → is_empty n ≡ false → spell (n ∷ ns) ≡ n ++ tails ns
unfolding spell spell_from push
spell-tails n ns h = spell_from-tails n ns h

split-append :
    (n : Name) (rest : Spelling) (s : Name) (ss : List Name)
    → has_slash n ≡ false
    → split rest ≡ s ∷ ss
    → split (n ++ rest) ≡ (n ++ s) ∷ ss
unfolding split
split-append [] rest s ss h e = e
split-append (c ∷ n) rest s ss h e = ground (arith, split-append n rest s ss)

split-tails :
    (n : Name) (ns : List Name)
    → has_slash n ≡ false
    → All IsNormal ns
    → split (n ++ tails ns) ≡ n ∷ ns
unfolding split
split-tails n [] h a = split-append n [] [] [] h refl ∙ ap (λ x. x ∷ []) (append-nil n)
split-tails n (m ∷ ns) h a =
    split-append n (tails (m ∷ ns)) [] (m ∷ ns) h
      (ap (λ x. [] ∷ x) (split-tails m ns a.0.one_segment a.1))
    ∙ ap (λ x. x ∷ m ∷ ns) (append-nil n)

classify-normal : (first : Bool) (n : Name) → IsNormal n → classify first n ≡ normal n ∷ []
unfolding classify
classify-normal first n v = ground arith

components_of-normal :
    (first : Bool) (ns : List Name) → All IsNormal ns → components_of first ns ≡ map normal ns
unfolding components_of
components_of-normal first [] a = refl
components_of-normal first (n ∷ ns) a =
    rw (classify-normal first n a.0) (ap (◌∷◌ (normal n)) (components_of-normal false ns a.1))

relative : (n : Name) (rest : Spelling) → IsNormal n → is_absolute (n ++ rest) ≡ false
unfolding is_absolute
relative [] rest v = absurd (true→≢false refl v.non_empty)
relative (c ∷ n) rest v = let h = v.one_segment in ground arith

pub is_empty-spell :
    (names : List Name) → All IsNormal names → is_empty (spell names) ≡ is_empty names
is_empty-spell [] a = unfold spell spell_from in refl
is_empty-spell ([] ∷ names) a = absurd (true→≢false refl a.0.non_empty)
is_empty-spell ((c ∷ n) ∷ names) a = rw (spell-tails (c ∷ n) names refl)

-- Normal names, spelled and split again, come back as they were, and as a relative path.
pub components-spell :
    (ns : List Name)
    → All IsNormal ns
    → (components (spell ns) ≡ map normal ns) × (is_absolute (spell ns) ≡ false)
components-spell [] a =
    unfold components spell split components_of is_absolute classify in (refl, refl)
components-spell (n ∷ ns) a = rw (spell-tails n ns a.0.non_empty) (
  unfold components in
      rw (relative n (tails ns) a.0, split-tails n ns a.0.one_segment a.1)
        (components_of-normal true (n ∷ ns) a),
  relative n (tails ns) a.0,
)

abbrev pub IsSound : Component → Type 0
IsSound (normal name) = IsNormal name
IsSound _ = Unit {0}

add_byte-slashless :
    (c : ℕ) (segments : List Name)
    → (c == slash) ≡ false
    → All (λ n. has_slash n ≡ false) segments
    → All (λ n. has_slash n ≡ false) (add_byte c segments)
add_byte-slashless c [] h a = (ground arith, tt)
add_byte-slashless c (s ∷ ss) h a = (ground arith, a.1)

split-slashless : (p : Spelling) → All (λ n. has_slash n ≡ false) (split p)
unfolding split
split-slashless [] = (refl, tt)
split-slashless (c ∷ p) = elim (Bool-cases (c == slash)) [
  | inl h ↦ rw (h, split) (refl, split-slashless p)
  | inr h ↦ rw (h, split) (add_byte-slashless c (split p) h (split-slashless p))
]

classify-IsSound : (first : Bool) (n : Name) → has_slash n ≡ false → All IsSound (classify first n)
unfolding classify
classify-IsSound first n h = ground arith

All-append : {A : Type 0} (P : A → Type 0) (xs ys : List A) → All P xs → All P ys → All P (xs ++ ys)
All-append P [] ys a b = b
All-append P (x ∷ xs) ys a b = (a.0, All-append P xs ys a.1 b)

components_of-IsSound :
    (first : Bool) (segments : List Name)
    → All (λ n. has_slash n ≡ false) segments
    → All IsSound (components_of first segments)
unfolding components_of
components_of-IsSound first [] a = tt
components_of-IsSound first (s ∷ ss) a =
    All-append IsSound (classify first s) (components_of false ss) (classify-IsSound first s a.0)
      (components_of-IsSound false ss a.1)

-- Every normal component of a path is a name: not empty, no slash, and neither `.` nor `..`.
pub components-IsSound : (p : Spelling) → All IsSound (components p)
unfolding components
components-IsSound p = elim (Bool-cases (is_absolute p)) [
  | inl h ↦ rw h (tt, components_of-IsSound false (split p) (split-slashless p))
  | inr h ↦ rw h (components_of-IsSound true (split p) (split-slashless p))
]
