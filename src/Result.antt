-- ===== src/Result.antt =====
-- `Result<T, E>` of the engine, and the chaining of `?`.
use watchbound.Base.{◌≡◌, refl, ◌⊎◌, inl, inr}
use watchbound.Error.{WatchboundError}

-- `ResultOf E A`: the success type first in `Result A`.
pub data ResultOf {ℓ} (E A : Type ℓ) : Type ℓ where
  ok : A → ResultOf E A
  err : E → ResultOf E A

abbrev pub Result : Type 0 → Type 0
Result A = ResultOf WatchboundError A

infixl 5 ◌>>=◌ ◌>>◌
abbrev pub ◌>>=◌ {ℓ} : {E A B : Type ℓ} → ResultOf E A → (A → ResultOf E B) → ResultOf E B
ok a >>= f = f a
err e >>= f = err e

abbrev pub ◌>>◌ {ℓ} : {E A B : Type ℓ} → ResultOf E A → ResultOf E B → ResultOf E B
m >> k = m >>= λ _. k

-- `map_err`.
abbrev pub map_err {ℓ} : {E F A : Type ℓ} → (E → F) → ResultOf E A → ResultOf F A
map_err f (ok a) = ok a
map_err f (err e) = err (f e)

pub Result-cases {ℓ} :
    {E A : Type ℓ} (r : ResultOf E A) → ((a : A) × (r ≡ ok a)) ⊎ ((e : E) × (r ≡ err e))
Result-cases (ok a) = inl (a, refl)
Result-cases (err e) = inr (e, refl)
