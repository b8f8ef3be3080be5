-- ===== src/Commands/Busy.antt =====
-- What the commands do to a subscription with a transaction in progress.
use watchbound.Base.{
  ap, ℕ, ◌≤◌, ◌<◌, ◌≡◌, ◌≢◌, ◌⊎◌, ◌∷◌, refl, true, false, none, Option, Bool-cases, inl, inr, leb,
  arith,
}
use watchbound.Error.{WatchboundError, ErrorCode, Operation, error}
use watchbound.Result.{ResultOf, err}
use watchbound.Exclusion.{ExclusionPolicy}
use watchbound.Types.{RootIdentity, RootIdentityPolicy, RootRecoveryFailureReason}
use watchbound.State.{SubscriptionState, Reply, exclusions, reconciled, recovered}
use watchbound.State.Observe.{Host, disposal_in_progress}
use watchbound.Worker.Hub.{Hub}
use watchbound.Topology.{Answers}
use watchbound.Commands.{
  Captures, is_busy, answer, validate_replacement, after_validation, replace_exclusions, reconcile,
  recover_root,
}

-- An exclusion update, a reconciliation or a root recovery is pending.
abbrev pub InTransaction : SubscriptionState → Type 0
InTransaction s =
    (s.exclusion_update ≢ none) ⊎ ((s.reconciliation ≢ none) ⊎ (s.root_recovery ≢ none))

-- The request is answered once, by an error with this code, and that is all.
abbrev pub Refused :
    Hub
    → SubscriptionState
    → ℕ
    → ℕ
    → (WatchboundError → Reply)
    → Operation
    → ErrorCode
    → Hub × SubscriptionState
    → Type 0
Refused h s generation receiver value operation code x = x ≡ (
  h,
  record s {
    acknowledged =
        (record {
          receiver = receiver;
          generation = generation;
          value = value (error code operation);
        })
        ∷ s.acknowledged;
  },
)

-- A subscription in disposal is closed for the caller; any other has a conflict.
abbrev pub Conflicting : SubscriptionState → ErrorCode → Type 0
Conflicting s code =
    ((s.disposal ≢ none) × (code ≡ ErrorCode.subscription_closed))
    ⊎ ((s.disposal ≡ none) × (code ≡ ErrorCode.topology_transaction_conflict))

-- An exclusion update has two more errors that come first.
abbrev pub ConflictingUpdate : SubscriptionState → ℕ → ErrorCode → Type 0
ConflictingUpdate s generation code =
    ((s.disposal ≢ none) × (code ≡ ErrorCode.subscription_closed))
    ⊎ ((s.disposal ≡ none)
        × (((generation ≤ s.exclusion_generation) × (code ≡ ErrorCode.invalid_argument))
            ⊎ ((s.exclusion_generation < generation)
                × (((s.root_lost ≡ true) × (code ≡ ErrorCode.root_state_conflict))
                    ⊎ ((s.root_lost ≡ false) × (code ≡ ErrorCode.topology_transaction_conflict))))))

InTransaction-is_busy : (s : SubscriptionState) → InTransaction s → is_busy s ≡ true
unfolding is_busy
InTransaction-is_busy s (inl h) = ground arith
InTransaction-is_busy s (inr (inl h)) = ground arith
InTransaction-is_busy s (inr (inr h)) = ground arith

validate_replacement-busy :
    (s : SubscriptionState) (generation : ℕ) (policy : ExclusionPolicy)
    → is_busy s ≡ true
    → (code : ErrorCode) × ConflictingUpdate s generation code
      × (validate_replacement s generation policy ≡ err (error code Operation.replace_exclusions))
unfolding validate_replacement disposal_in_progress
validate_replacement-busy s generation policy b = elim (Bool-cases (disposal_in_progress s)) [
  | inl closed ↦ (ErrorCode.subscription_closed, ground arith, ground arith)
  | inr alive ↦ elim (Bool-cases (leb generation s.exclusion_generation)) [
    | inl old ↦ (ErrorCode.invalid_argument, ground arith, ground arith)
    | inr new ↦ elim (Bool-cases s.root_lost) [
      | inl lost ↦ (ErrorCode.root_state_conflict, ground arith, ground arith)
      | inr kept ↦ (ErrorCode.topology_transaction_conflict, ground arith, ground arith)
    ]
  ]
]

-- While an exclusion update, a reconciliation or a root recovery is pending, each of the three
-- commands that start one changes nothing and answers its caller once with an error: that the
-- subscription is closed if its disposal has begun, and a transaction conflict otherwise, except
-- that an exclusion update with a generation that is not new is an invalid argument, and one under
-- a lost root a root state conflict.
pub commands-Refused :
    (host : Host) (c : Captures) (captured : ResultOf RootRecoveryFailureReason RootIdentity)
    (again : Option RootIdentity) (a : Answers) (h : Hub) (s : SubscriptionState) (generation : ℕ)
    (policy : ExclusionPolicy) (identity_policy : RootIdentityPolicy) (receiver : ℕ)
    → InTransaction s
    → ((code : ErrorCode) × ConflictingUpdate s generation code
        × Refused h s generation receiver
            (λ e. exclusions (err e))
            Operation.replace_exclusions
            code
            (replace_exclusions host c h s generation policy receiver))
      × ((code : ErrorCode) × Conflicting s code
          × Refused h s generation receiver
              (λ e. reconciled (err e))
              Operation.reconcile
              code
              (reconcile host c h s generation receiver)
          × Refused h s generation receiver
              (λ e. recovered (err e))
              Operation.recover_root
              code
              (recover_root host captured again a h s generation identity_policy receiver))
unfolding replace_exclusions after_validation reconcile recover_root answer
commands-Refused host c captured again a h s generation policy identity_policy receiver pending =
    let b = InTransaction-is_busy s pending in
    let (update_code, conflicting, k) = validate_replacement-busy s generation policy b in
    (
      (update_code, conflicting, ap (after_validation host c h s generation receiver) k),
      elim (Bool-cases (disposal_in_progress s)) [
        | inl closed ↦ (
          ErrorCode.subscription_closed,
          unfold disposal_in_progress in ground arith,
          rw (closed, reconcile) refl,
          rw (closed, recover_root) refl,
        )
        | inr alive ↦ (
          ErrorCode.topology_transaction_conflict,
          unfold disposal_in_progress in ground arith,
          rw (alive, b, reconcile) refl,
          rw (alive, b, recover_root) refl,
        )
      ],
    )
