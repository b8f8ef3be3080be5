-- ===== src/Error.antt =====
-- engine/src/error.rs: error codes, their retry policy, and the bound on a message. Texts are
-- lists of UTF-8 bytes. An error's message is left out of `WatchboundError`, since no code
-- branches on it; `bounded_message` is what `WatchboundError::new` makes of it.
pub mod Message
use watchbound.Base.{
  ℕ, zero, suc, Bool, true, false, ◌||◌, List, [], ◌∷◌, Option, none, some, if◌then◌else◌, leb, ltb,
  ◌==◌, length, get_elem?, is_some, ◌≡◌, arith,
}

pub data ErrorCode : Type 0 where
  invalid_argument subscription_closed topology_transaction_conflict operation_cancelled : ErrorCode
  operation_interrupted consumer_backpressure root_state_conflict root_unavailable : ErrorCode
  resource_unavailable runtime_configuration_conflict internal : ErrorCode

pub data RetryAfter : Type 0 where
  topology_transaction_settles delivery_drains root_state_changes : RetryAfter
  filesystem_state_changes resources_available runtime_disposed : RetryAfter

unfoldable pub retry_after : ErrorCode → Option RetryAfter
retry_after topology_transaction_conflict = some topology_transaction_settles
retry_after consumer_backpressure = some delivery_drains
retry_after root_state_conflict = some root_state_changes
retry_after root_unavailable = some filesystem_state_changes
retry_after resource_unavailable = some resources_available
retry_after runtime_configuration_conflict = some runtime_disposed
retry_after invalid_argument = none
retry_after subscription_closed = none
retry_after operation_cancelled = none
retry_after operation_interrupted = none
retry_after internal = none

unfoldable pub retryable : ErrorCode → Bool
unfolding retry_after
retryable code = is_some (retry_after code)

pub data Operation : Type 0 where
  create_engine subscribe replace_exclusions reconcile recover_root dispose : Operation
  deliver_batch : Operation

-- `io::ErrorKind`, as far as the engine tells kinds apart, and the raw error number of the host.
pub data IoErrorKind : Type 0 where
  not_found permission_denied would_block interrupted invalid_input other : IoErrorKind

pub record IoError : Type 0 where
  pub kind : IoErrorKind
  pub raw_os_error : Option ℕ

pub record SystemCause : Type 0 where
  pub kind : IoErrorKind
  pub raw_os_error : Option ℕ

unfoldable pub system_cause_from_io : IoError → SystemCause
system_cause_from_io e = record { kind = e.kind; raw_os_error = e.raw_os_error }

pub record WatchboundError : Type 0 where
  pub code : ErrorCode
  pub operation : Operation
  pub system_cause : Option SystemCause

abbrev pub error : ErrorCode → Operation → WatchboundError
error code operation = record { code = code; operation = operation; system_cause = none }

unfoldable pub from_io : ErrorCode → Operation → IoError → WatchboundError
unfolding system_cause_from_io
from_io code operation cause = record {
  code = code;
  operation = operation;
  system_cause = some (system_cause_from_io cause);
}

abbrev pub max_error_message_bytes : ℕ
max_error_message_bytes = 1024

-- A byte that does not continue a character.
abbrev pub starts_char : ℕ → Bool
starts_char b = ltb b 128 || leb 192 b

unfoldable pub is_char_boundary : List ℕ → ℕ → Bool
is_char_boundary message end =
    end == 0
    || end == length message
    || (elim (get_elem? message end) [ none ↦ false | some b ↦ starts_char b ])

-- The loop of `bounded_message`: down to a character boundary.
unfoldable pub boundary_below : List ℕ → ℕ → ℕ
unfolding is_char_boundary
boundary_below message zero = 0
boundary_below message (suc end) =
    let lower = boundary_below message end in
    if is_char_boundary message (suc end) then suc end else lower

-- `String::truncate`.
abbrev pub truncate : ℕ → List ℕ → List ℕ
truncate zero xs = []
truncate (suc n) [] = []
truncate (suc n) (x ∷ xs) = x ∷ truncate n xs

unfoldable pub bounded_message : List ℕ → List ℕ
unfolding boundary_below
bounded_message message =
    if leb (length message) max_error_message_bytes
    then message
    else truncate (boundary_below message max_error_message_bytes) message
