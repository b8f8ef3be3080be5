-- ===== src/Attempt/Ids.antt =====
-- Attempt ids, call after call.
use watchbound.Base.{
  ℕ, zero, suc, ◌+◌, ◌≤◌, ◌<◌, ◌≡◌, refl, List, [], ◌∷◌, ltb, ltb→lt, ltb-false→le, Bool-cases, inl,
  inr,
}
use watchbound.Result.{Result, ok, err}
use watchbound.Attempt.{allocate_establishment_attempt_id, u64_max}

-- What `n` calls in a row return.
unfoldable pub allocations : ℕ → ℕ → List (Result ℕ)
allocations next zero = []
allocations next (suc n) =
    let (next', r) = allocate_establishment_attempt_id next in r ∷ allocations next' n

-- Granted ids count up from `next` one by one; an error stands only where the counter is used up.
abbrev pub CountsUp : ℕ → List (Result ℕ) → Type 0
CountsUp next [] = Unit {0}
CountsUp next (ok id ∷ rs) = (id ≡ next) × (next < u64_max) × CountsUp (next + 1) rs
CountsUp next (err e ∷ rs) = (u64_max ≤ next) × CountsUp next rs

-- Successive calls return consecutive ids, so no id twice, and fail, without wrapping, only once
-- the counter is used up.
pub allocations-CountsUp : (next n : ℕ) → CountsUp next (allocations next n)
unfolding allocations allocate_establishment_attempt_id
allocations-CountsUp next zero = tt
allocations-CountsUp next (suc n) = elim (Bool-cases (ltb next u64_max)) [
  | inl h ↦ rw (h, allocations) (refl, ltb→lt _ _ h, allocations-CountsUp (next + 1) n)
  | inr h ↦ rw (h, allocations) (ltb-false→le _ _ h, allocations-CountsUp next n)
]
