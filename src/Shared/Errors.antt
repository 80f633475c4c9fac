-- ===== src/Shared/Errors.antt =====
-- packages/shared/src/errors.ts. The message of an error is left out.
use Prim.Native.String.{String}
use sdidfy.Prelude.{ℕ}

pub data ErrorCode : Type 0 where
  invalid_request enrolment_failed attestation_rejected attestation_unavailable : ErrorCode
  binding_not_found binding_not_active challenge_invalid signature_invalid : ErrorCode
  assurance_insufficient rate_limited locked_out unauthorized_client access_denied : ErrorCode
  authorization_pending expired_token slow_down invalid_grant invalid_client : ErrorCode
  invalid_scope unknown_user_id sdid_unavailable internal_error : ErrorCode

-- What a handler throws: a `BridgeError` with its HTTP status, or an error of another class.
pub data Thrown : Type 0 where
  bridge_error : ErrorCode → ℕ → Thrown
  other_error : Thrown

abbrev pub code_text : ErrorCode → String
code_text invalid_request = "invalid_request"
code_text enrolment_failed = "enrolment_failed"
code_text attestation_rejected = "attestation_rejected"
code_text attestation_unavailable = "attestation_unavailable"
code_text binding_not_found = "binding_not_found"
code_text binding_not_active = "binding_not_active"
code_text challenge_invalid = "challenge_invalid"
code_text signature_invalid = "signature_invalid"
code_text assurance_insufficient = "assurance_insufficient"
code_text rate_limited = "rate_limited"
code_text locked_out = "locked_out"
code_text unauthorized_client = "unauthorized_client"
code_text access_denied = "access_denied"
code_text authorization_pending = "authorization_pending"
code_text expired_token = "expired_token"
code_text slow_down = "slow_down"
code_text invalid_grant = "invalid_grant"
code_text invalid_client = "invalid_client"
code_text invalid_scope = "invalid_scope"
code_text unknown_user_id = "unknown_user_id"
code_text sdid_unavailable = "sdid_unavailable"
code_text internal_error = "internal_error"
