-- ===== src/Mobile/Transport.antt =====
-- apps/mobile/src/core/transport.ts: the retries. What each send brings is an argument, as is the draw
-- of the jitter.
pub mod Retries
use Prim.Native.Nat.{min, max}
use sdidfy.Prelude.{
  ℕ, zero, suc, ◌+◌, ◌-◌, ◌*◌, ◌^◌, Bool, true, false, ◌||◌, List, [], ◌∷◌, Result, ok, err, ◌==◌,
  if◌then◌else◌,
}
use sdidfy.Mobile.Errors.{
  LocalErrorCode, network_timeout, network_unreachable, server_unreachable, interrupted,
}

pub data TransportFailureKind : Type 0 where
  offline timeout unreachable : TransportFailureKind

pub record HttpResponse : Type 0 where
  pub status : ℕ

-- A response, a `TransportFailure`, or another error.
pub data Arrival : Type 0 where
  responded : HttpResponse → Arrival
  failed : TransportFailureKind → Arrival
  threw : Arrival

-- What the call throws: a `MobileError`, or an error that is passed on.
pub data Raised : Type 0 where
  local : LocalErrorCode → Raised
  passed_on : Raised

pub data Idempotency : Type 0 where
  safe consumes_nonce : Idempotency

pub record RetryPolicy : Type 0 where
  pub max_attempts : ℕ
  pub base_delay_ms : ℕ
  pub max_delay_ms : ℕ
  -- The attempt and the ceiling: `Math.floor(random() * ceiling)`.
  pub draw : ℕ → ℕ → ℕ

unfoldable pub backoff_delay : ℕ → RetryPolicy → ℕ
backoff_delay attempt policy =
    policy.draw attempt (min policy.max_delay_ms (policy.base_delay_ms * 2 ^ (attempt - 1)))

unfoldable pub is_retryable_status : ℕ → Bool
is_retryable_status status = status == 502 || status == 503 || status == 504

unfoldable pub transport_failure_to_error : TransportFailureKind → LocalErrorCode
transport_failure_to_error timeout = network_timeout
transport_failure_to_error offline = network_unreachable
transport_failure_to_error unreachable = server_unreachable

-- What a call comes to, with the number of requests that were sent and the waits between them.
pub record Sent : Type 0 where
  pub outcome : Result Raised HttpResponse
  pub sends : ℕ
  pub waits : List ℕ

abbrev pub finish : Result Raised HttpResponse → Sent
finish outcome = record { outcome = outcome; sends = 1; waits = [] }

abbrev pub after_wait : ℕ → Sent → Sent
after_wait delay rest = record {
  outcome = rest.outcome;
  sends = suc rest.sends;
  waits = delay ∷ rest.waits;
}

-- The loop at its last attempt.
abbrev pub last_attempt : Idempotency → Arrival → Sent
last_attempt idempotency (responded r) = finish (ok r)
last_attempt idempotency threw = finish (err passed_on)
last_attempt consumes_nonce (failed kind) = finish (err (local interrupted))
last_attempt safe (failed kind) = finish (err (local (transport_failure_to_error kind)))

-- One round of the loop before the last, `rest` being the rounds that follow.
abbrev pub one_attempt : Idempotency → ℕ → Arrival → Sent → Sent
one_attempt idempotency delay (responded r) rest =
    if is_retryable_status r.status then after_wait delay rest else finish (ok r)
one_attempt idempotency delay threw rest = finish (err passed_on)
one_attempt consumes_nonce delay (failed kind) rest = finish (err (local interrupted))
one_attempt safe delay (failed kind) rest = after_wait delay rest

unfoldable pub attempt_from : Idempotency → RetryPolicy → (ℕ → Arrival) → ℕ → ℕ → Sent
attempt_from idempotency policy send attempt zero = last_attempt idempotency (send attempt)
attempt_from idempotency policy send attempt (suc left) =
    let rest = attempt_from idempotency policy send (suc attempt) left in
    one_attempt idempotency (backoff_delay attempt policy) (send attempt) rest

abbrev pub attempts_of : Idempotency → RetryPolicy → ℕ
attempts_of safe policy = max 1 policy.max_attempts
attempts_of consumes_nonce policy = 1

unfoldable pub send_with_retry : Idempotency → RetryPolicy → (ℕ → Arrival) → Sent
unfolding attempt_from
send_with_retry idempotency policy send =
    attempt_from idempotency policy send 1 (attempts_of idempotency policy - 1)
