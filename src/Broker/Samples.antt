-- ===== src/Broker/Samples.antt =====
-- Test data for apps/broker: one citizen with one device, one relying party, and a CIBA request.
use sdidfy.Prelude.{true, false, [], ◌∷◌, none, some, err}
use sdidfy.Shared.Assurance.{al2, al3}
use sdidfy.Shared.Errors.{other_error}
use sdidfy.Broker.World.{
  World, Citizen, citizen_active, Binding, active, RelyingParty, Transaction, approved, pending,
  AuthorizationCode, CodeFlowStash,
}
use sdidfy.Broker.Environment.{Environment}
use sdidfy.Broker.Challenge.{approve}
use sdidfy.Broker.Reverification.{Sdid}
use sdidfy.Broker.Session.{DeviceSession}
use sdidfy.Broker.Ciba.{BcAuthorizeRequest, DecisionRequest}

abbrev pub env : Environment
env = record {
  challenge_ttl = 60;
  attestation_nonce_ttl = 60;
  ciba_request_ttl = 120;
  ciba_poll_interval = 5;
  session_ttl = 300;
  reverify_interval = 1000;
  auth_code_ttl = 60;
  ecdsa_verifies = λ key payload signature. true;
  sha256_hex = λ s. s;
  base64url_sha256 = λ s. s;
  hmac_sha256 = λ k s. s;
  signs_at = λ now. true;
}

abbrev pub amina : Citizen
amina = record { id = "c1"; pseudo_nid = "p1"; sdid_subject = some "s-1"; status = citizen_active }

abbrev pub phone : Binding
phone = record {
  id = "b1";
  citizen_id = "c1";
  device_pubkey = record { kty = "EC"; crv = "P-256"; x = "x"; y = "y" };
  assurance_level = al3;
  status = active;
  device_label = "phone";
  enrolled_at = 0;
  activated_at = none;
  last_used_at = none;
  last_reasserted_at = none;
  revoked_at = none;
  revoke_reason = none;
  push_platform = none;
  push_token = none;
}

abbrev pub bank : RelyingParty
bank = record {
  id = "r1";
  client_id = "bank";
  name = "Bank";
  client_secret_hash = some "secret";
  allowed_scopes = "openid" ∷ [];
  max_assurance = al3;
  allowed_flows = "ciba" ∷ [];
  redirect_uris = [];
  is_active = true;
  pairwise_salt = "salt";
}

abbrev pub world : World
world = record {
  citizens = amina ∷ [];
  bindings = phone ∷ [];
  parties = bank ∷ [];
  subjects = record { citizen_id = "c1"; rp_id = "r1"; subject = "pairwise" } ∷ [];
  transactions = [];
  codes = [];
  grants = [];
  audit = [];
  challenges =
      record {
        key = "ch1";
        value = record { purpose = "ciba:req1"; nonce = "n1"; binding_id = "b1" };
        dies_at = some 50000;
      }
      ∷ [];
  attestation_nonces = [];
  counters = [];
  stashes = [];
  revoked_tokens = [];
}

abbrev pub request : BcAuthorizeRequest
request = record {
  scopes = "openid" ∷ [];
  login_hint = "pairwise";
  requested_al = none;
  requested_expiry = none;
  binding_message = none;
}

abbrev pub session : DeviceSession
session = record { citizen_id = "c1"; binding_id = "b1" }

abbrev pub approval : DecisionRequest
approval = record {
  auth_req_id = "req1";
  binding_id = "b1";
  challenge_id = "ch1";
  decision = approve;
  signature = "sig";
  report_suspicious = false;
}

abbrev pub no_sdid : Sdid
no_sdid subject = err other_error

-- The row that `request` opens at 1000, and as `approval` leaves it at 2000.
abbrev pub asked : Transaction
asked = record {
  id = "t1";
  auth_req_id = "req1";
  citizen_id = "c1";
  rp_id = "r1";
  flow = "ciba";
  scopes = "openid" ∷ [];
  requested_al = al2;
  binding_message = none;
  status = pending;
  device_binding_id = none;
  suspicious_report = none;
  expires_at = 121000;
  resolved_at = none;
}

abbrev pub granted : Transaction
granted = record asked { status = approved; device_binding_id = some "b1"; resolved_at = some 2000 }

abbrev pub asked_world : World
asked_world = record world { transactions = asked ∷ [] }

abbrev pub granted_world : World
granted_world = record world { transactions = granted ∷ [] }

abbrev pub code_row : AuthorizationCode
code_row = record {
  code_hash = "code";
  citizen_id = "c1";
  rp_id = "r1";
  scopes = "openid" ∷ [];
  redirect_uri = "https://bank";
  code_challenge = "verifier";
  nonce = none;
  assurance = al3;
  auth_time = 2000;
  expires_at = 60000;
  consumed_at = none;
}

abbrev pub code_world : World
code_world = record world { codes = code_row ∷ [] }

abbrev pub stash : CodeFlowStash
stash = record {
  code_challenge = "verifier";
  nonce = none;
  redirect_uri = "https://bank";
  state = none;
}
