-- ===== src/Quantum.antt =====
-- Bounded turns: the worker's loops `while removed < MAX` (engine/src/backend/linux.rs) that empty
-- a container item by item. A step takes one item, or goes on to the next phase without one, or
-- ends the loop with a result. Fuel counts steps, and `budget` the items that the turn may take.
use watchbound.Base.{ℕ, zero, suc, ◌+◌, ◌*◌, ◌≤◌, ◌<◌, ◌≡◌, refl, arith}

pub data Step (S R : Type 0) : Type 0 where
  item moved : S → Step S R
  finished : S → R → Step S R

pub data Turn (S R : Type 0) : Type 0 where
  yielded exhausted : S → Turn S R
  done : S → R → Turn S R

module _ {S R : Type 0} (step : S → Step S R) where
  unfoldable pub quantum : ℕ → ℕ → S → Turn S R
  quantum zero budget s = exhausted s
  quantum (suc fuel) zero s = yielded s
  quantum (suc fuel) (suc budget) s = elim (step s) [
    | item t ↦ quantum fuel budget t
    | moved t ↦ quantum fuel (suc budget) t
    | finished t r ↦ done t r
  ]

  -- Turn after turn, until the loop ends.
  unfoldable pub turns : ℕ → ℕ → ℕ → S → Turn S R
  turns zero fuel budget s = yielded s
  turns (suc n) fuel budget s = elim (quantum fuel budget s) [
    | yielded t ↦ turns n fuel budget t
    | exhausted t ↦ exhausted t
    | done t r ↦ done t r
  ]

  -- `Keeps` holds at every step, `items` counts what is left, `phases` the moves that are left.
  module _ (Keeps : S → Type 0) (Ends : S → R → Type 0) (items phases : S → ℕ) where
    abbrev pub IsMeasured : S → Step S R → Type 0
    IsMeasured s (item t) = Keeps t × (suc (items t) ≡ items s) × (phases t ≤ phases s)
    IsMeasured s (moved t) = Keeps t × (items t ≡ items s) × (phases t < phases s)
    IsMeasured s (finished t r) = Ends t r

    -- A turn takes its whole budget of items, or ends the loop; it never runs out of fuel.
    abbrev pub IsTurn : S → ℕ → Turn S R → Type 0
    IsTurn s budget (yielded t) = Keeps t × (items t + budget ≡ items s) × (phases t ≤ phases s)
    IsTurn s budget (exhausted t) = ⊥
    IsTurn s budget (done t r) = Ends t r

    abbrev pub IsDone : Turn S R → Type 0
    IsDone (yielded t) = ⊥
    IsDone (exhausted t) = ⊥
    IsDone (done t r) = Ends t r

    IsTurn-from :
        (s t : S) (b c : ℕ) (r : Turn S R)
        → items t + c ≡ items s + b
        → phases t ≤ phases s
        → IsTurn t b r
        → IsTurn s c r
    IsTurn-from s t b c (yielded u) e f v = (v.0, omega (arith, v.1), omega (arith, v.2))
    IsTurn-from s t b c (exhausted u) e f v = v
    IsTurn-from s t b c (done u r) e f v = v

    pub IsDone-ends : (o : Turn S R) → IsDone o → (t : S) × (r : R) × (o ≡ done t r) × Ends t r
    IsDone-ends (yielded t) h = absurd h
    IsDone-ends (exhausted t) h = absurd h
    IsDone-ends (done t r) h = (t, r, refl, h)

    module _ (law : (s : S) → Keeps s → IsMeasured s (step s)) where
      pub quantum-IsTurn :
          (fuel budget : ℕ) (s : S)
          → Keeps s
          → budget + phases s < fuel
          → IsTurn s budget (quantum fuel budget s)
      unfolding quantum
      quantum-IsTurn zero budget s k h = absurd (omega arith)
      quantum-IsTurn (suc fuel) zero s k h = (k, omega arith, omega arith)
      quantum-IsTurn (suc fuel) (suc budget) s k h =
          elim (step s)
              as (λ r.
                IsMeasured s r
                → IsTurn s (suc budget) (elim r [
                  | item t ↦ quantum fuel budget t
                  | moved t ↦ quantum fuel (suc budget) t
                  | finished t e ↦ done t e
                ])) [
                  | item t ↦ λ m.
                      IsTurn-from s t budget (suc budget) (quantum fuel budget t)
                        (omega (arith, m.1)) m.2
                        (quantum-IsTurn fuel budget t m.0 (omega (arith, m.2)))
                  | moved t ↦ λ m.
                      IsTurn-from s t (suc budget) (suc budget) (quantum fuel (suc budget) t)
                        (omega (arith, m.1)) (omega (arith, m.2))
                        (quantum-IsTurn fuel (suc budget) t m.0 (omega (arith, m.2)))
                  | finished t e ↦ λ m. m
                ]
            (law s k)

      -- Enough turns end the loop.
      pub turns-IsDone :
          (n fuel budget : ℕ) (s : S)
          → Keeps s
          → budget + phases s < fuel
          → items s < n * budget
          → IsDone (turns n fuel budget s)
      unfolding turns
      turns-IsDone zero fuel budget s k h l = absurd (omega arith)
      turns-IsDone (suc n) fuel budget s k h l =
          elim (quantum fuel budget s)
              as (λ r.
                IsTurn s budget r
                → IsDone (elim r [
                  | yielded t ↦ turns n fuel budget t
                  | exhausted t ↦ exhausted t
                  | done t e ↦ done t e
                ])) [
                  | yielded t ↦ λ m.
                      turns-IsDone n fuel budget t m.0 (omega (arith, m.2)) (omega (arith, m.1))
                  | exhausted t ↦ λ m. m
                  | done t e ↦ λ m. m
                ]
            (quantum-IsTurn fuel budget s k h)
