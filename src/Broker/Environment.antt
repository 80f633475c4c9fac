-- ===== src/Broker/Environment.antt =====
-- What the handlers take from outside: the settings of apps/broker/src/config.ts, in seconds, and
-- the functions of node:crypto.
use Prim.Native.String.{String}
use sdidfy.Prelude.{ℕ, Bool}
use sdidfy.Broker.World.{Jwk}

pub record Environment : Type 0 where
  pub challenge_ttl : ℕ
  pub attestation_nonce_ttl : ℕ
  pub ciba_request_ttl : ℕ
  pub ciba_poll_interval : ℕ
  pub session_ttl : ℕ
  pub reverify_interval : ℕ
  pub auth_code_ttl : ℕ
  -- Key, payload and signature: ECDSA with SHA-256, false where importing the key fails.
  pub ecdsa_verifies : Jwk → String → String → Bool
  pub sha256_hex : String → String
  pub base64url_sha256 : String → String
  -- HMAC of a text under a hex-encoded key.
  pub hmac_sha256 : String → String → String
  -- Whether custody makes the signatures that are asked of it at a time.
  pub signs_at : ℕ → Bool
