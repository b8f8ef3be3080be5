-- ===== src/Types/Options.antt =====
-- `SubscriptionOptions::validate` (engine/src/lib.rs).
use watchbound.Base.{◌<◌, ◌≡◌, ◌↔◌, false, arith}
use watchbound.Result.{ok}
use watchbound.Types.{SubscriptionOptions, validate, is_zero_limit}

-- Every limit that is set is positive.
pub record IsPositive (o : SubscriptionOptions) : Type 0 where
  pub watch_limit : is_zero_limit o.watch_limit ≡ false
  pub batch_window : 0 < o.batch_window
  pub max_batch_paths : 0 < o.max_batch_paths
  pub output_queue_capacity : 0 < o.output_queue_capacity

-- The options are accepted exactly when every limit that is set is positive.
pub validate_iff : (o : SubscriptionOptions) → (validate o ≡ ok tt) ↔ IsPositive o
unfolding validate
validate_iff o = (
  λ h. record {
    watch_limit = ground arith;
    batch_window = ground arith;
    max_batch_paths = ground arith;
    output_queue_capacity = ground arith;
  },
  λ p. ground (arith, p.watch_limit, p.batch_window, p.max_batch_paths, p.output_queue_capacity),
)
