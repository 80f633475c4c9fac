-- ===== src/Mobile/Wire.antt =====
-- apps/mobile/src/core/wire.ts and the calls of client.ts: what the app asks the broker, and the answers
-- that it accepts. The broker and the key store are functions of what they were asked so far.
use Prim.Native.String.{String}
use sdidfy.Prelude.{ℕ, Bool, List, Option, Result, ok, err}
use sdidfy.Shared.Assurance.{AssuranceLevel}
use sdidfy.Mobile.Errors.{MobileError, on_device, unexpected_response}
use sdidfy.Mobile.Pending.{PendingTransaction}
use sdidfy.Broker.World.{Jwk}
use sdidfy.Broker.Attestation.{AttestationInput}

pub data Decision : Type 0 where
  to_approve to_deny : Decision

pub record StartBody : Type 0 where
  pub nid : String
  pub device_pubkey : Jwk
  pub attestation : AttestationInput
  pub device_label : String
  pub sample : String

-- A request to the broker; the first text of an authenticated one is the session token.
pub data Call : Type 0 where
  ask_login_challenge : String → Call
  send_login : String → String → String → Call
  ask_pending : String → Call
  send_decision : String → String → String → String → Decision → String → Bool → Call
  send_revocation : String → String → Option String → Call
  ask_attestation_nonce : Call
  send_start : StartBody → Call
  send_activation : String → String → String → Call

pub record DeviceChallenge : Type 0 where
  pub challenge_id : String
  pub nonce : String
  pub payload : String

pub record Started : Type 0 where
  pub binding_id : String
  pub assurance_level : AssuranceLevel
  pub challenge : DeviceChallenge

pub data Reply : Type 0 where
  challenge_reply : DeviceChallenge → Reply
  session_reply : String → ℕ → Reply
  pending_reply : List PendingTransaction → Reply
  decision_reply : String → Reply
  revoked_reply : Reply
  nonce_reply : String → String → Reply
  started_reply : Started → Reply
  activated_reply : String → Reply

pub record Remote : Type 0 where
  pub broker : List Call → Call → Result MobileError Reply
  pub key_store : List String → String → Result MobileError String

-- `spec.parse`: another shape is refused.
abbrev pub as_challenge : Reply → Result MobileError DeviceChallenge
as_challenge (challenge_reply challenge) = ok challenge
as_challenge _ = err (on_device unexpected_response)

abbrev pub as_session : Reply → Result MobileError (String × ℕ)
as_session (session_reply token expires_in) = ok (token, expires_in)
as_session _ = err (on_device unexpected_response)

abbrev pub as_nonce : Reply → Result MobileError (String × String)
as_nonce (nonce_reply nonce_id nonce) = ok (nonce_id, nonce)
as_nonce _ = err (on_device unexpected_response)

abbrev pub as_started : Reply → Result MobileError Started
as_started (started_reply started) = ok started
as_started _ = err (on_device unexpected_response)

abbrev pub as_activated : Reply → Result MobileError String
as_activated (activated_reply id) = ok id
as_activated _ = err (on_device unexpected_response)
