-- ===== src/Mobile/Errors.antt =====
-- apps/mobile/src/core/errors.ts: an error as its code, and its HTTP status where the broker sent it.
use sdidfy.Prelude.{ℕ, Bool, true, false, Option, none, some, ◌==◌}
use sdidfy.Shared.Errors.{ErrorCode, binding_not_found, binding_not_active, access_denied}

pub data LocalErrorCode : Type 0 where
  network_unreachable network_timeout server_unreachable unexpected_response : LocalErrorCode
  biometric_unavailable biometric_not_enrolled biometric_cancelled biometric_failed : LocalErrorCode
  secure_hardware_unavailable keystore_failed attestation_failed_local : LocalErrorCode
  not_enrolled interrupted unknown : LocalErrorCode

pub data MobileError : Type 0 where
  protocol : ErrorCode → Option ℕ → MobileError
  on_device : LocalErrorCode → MobileError

-- `terminalForBinding`
unfoldable pub is_terminal : MobileError → Bool
is_terminal (protocol binding_not_found http) = true
is_terminal (protocol binding_not_active http) = true
is_terminal _ = false

abbrev pub is_status : ℕ → Option ℕ → Bool
is_status http none = false
is_status http (some n) = n == http

-- `err.code === 'access_denied' && err.httpStatus === 401`
unfoldable pub is_session_refused : MobileError → Bool
is_session_refused (protocol access_denied http) = is_status 401 http
is_session_refused _ = false
