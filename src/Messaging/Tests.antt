-- ===== src/Messaging/Tests.antt =====
-- Servers that fail at first.
use geocoder_fwd.Prelude.{ℕ, ◌≡◌, refl, true, false, none, some, ltb, if◌then◌else◌, codes, arith}
use geocoder_fwd.Messaging.{
  Error, returned, Calls, ensure_stream, subscribe_to, is_transient_error, attempts,
}
use geocoder_fwd.Messaging.Endings.{ensure_stream_recovers}

abbrev timeout : Error
timeout = codes "timeout"

abbrev refused : Error
refused = codes "bad request"

-- Fails before the attempt `n`.
abbrev from_attempt : ℕ → Error → Calls
from_attempt n err attempt = if ltb attempt n then some err else none

is_transient_examples : (is_transient_error timeout ≡ true) × (is_transient_error refused ≡ false)
unfolding is_transient_error
is_transient_examples = (refl, refl)

ensure_stream_recovers_example :
    (ensure_stream (from_attempt 4 refused) (from_attempt 9 refused)).0 ≡ some returned
ensure_stream_recovers_example =
    ensure_stream_recovers (from_attempt 4 refused) (from_attempt 9 refused) 4 (omega arith) refl

found_at_once : (ensure_stream (from_attempt 0 timeout) (from_attempt 9 refused)).0 ≡ some returned
found_at_once =
    ensure_stream_recovers (from_attempt 0 timeout) (from_attempt 9 refused) 0 (omega arith) refl

subscribed :
    (subscribe_to (from_attempt 0 timeout) (from_attempt 9 refused) (from_attempt 0 timeout)).0
    ≡ some returned
unfolding subscribe_to attempts
subscribed = refl
