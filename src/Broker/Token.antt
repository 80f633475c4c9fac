-- ===== src/Broker/Token.antt =====
-- The token endpoint: apps/broker/src/modules/rp/rp.service.ts and the grants of
-- apps/broker/src/modules/oidc/oidc.controller.ts. A grant is in two parts, since other requests run
-- between the rows that it reads and the statement that consumes them.
pub mod Codes
pub mod Approvals
use Prim.Native.String.{String}
use sdidfy.Prelude.{
  ℕ, ◌+◌, ◌*◌, Bool, true, false, not, ◌&&◌, ◌||◌, List, [], ◌∷◌, Option, none, some, Result, ok,
  err, leb, if◌then◌else◌, same,
}
use sdidfy.Shared.Errors.{
  invalid_client, invalid_request, invalid_grant, expired_token, authorization_pending,
  access_denied,
}
use sdidfy.Shared.Assurance.{AssuranceLevel}
use sdidfy.Broker.World.{
  World, Binding, RelyingParty, Transaction, TransactionStatus, pending, approved, denied, expired,
  consumed, AuthorizationCode,
}
use sdidfy.Broker.Table.{first, update, any}
use sdidfy.Broker.Handler.{
  Handler, ◌>>=◌, ◌>>◌, pure, throw, refuse_if, present, gets, modify, append, event,
}
use sdidfy.Broker.Environment.{Environment}
use sdidfy.Broker.Reverification.{or_else}
use sdidfy.Broker.Devices.{named}
use sdidfy.Broker.Pairwise.{Tokens, mint}
use sdidfy.Broker.Consent.{is_none, insert_grant}
use sdidfy.Broker.Ciba.{is_pending, is_approved}

-- A parameter that is empty counts as missing: `if (!body.auth_req_id)`.
abbrev pub given : Option String → Option String
given none = none
given (some s) = if same s "" then none else some s

abbrev pub load_by_client_id : String → Handler (Option RelyingParty)
load_by_client_id client_id = gets (λ w. first (λ r. same r.client_id client_id) w.parties)

-- The credentials are those that `extractCredentials` found in the request.
unfoldable pub authenticate_client : Environment → Option (String × String) → Handler RelyingParty
authenticate_client env creds = do
  given ← present creds invalid_client 401
  found ← load_by_client_id given.0
  rp ← present found invalid_client 401
  hash ← present rp.client_secret_hash invalid_client 401
  refuse_if (not (same (env.sha256_hex given.1) hash)) invalid_client 401
  refuse_if (not rp.is_active) invalid_client 401
  pure rp

-- UPDATE ... SET status WHERE id AND status, RETURNING: whether a row was changed.
abbrev pub advance : String → (TransactionStatus → Bool) → TransactionStatus → Handler Bool
advance id from to w = (
  ok (any (λ t. same t.id id && from t.status) w.transactions),
  record w {
    transactions =
        update (λ t. same t.id id && from t.status) (λ t. record t { status = to }) w.transactions;
  },
)

abbrev pub audit_expiry : Bool → String → Transaction → Handler (Unit {0})
audit_expiry false rp_id txn = pure tt
audit_expiry true rp_id txn =
    append (record (event "rp" (some rp_id) "ciba.request_expired" "failure") {
      subject_ref = some txn.citizen_id;
      rp_id = some rp_id;
      context = ("flow", txn.flow ∷ []) ∷ [];
    })

-- What the poll of a transaction in this status answers, unless it is approved.
abbrev pub refuse_status : ℕ → String → Transaction → TransactionStatus → Handler (Unit {0})
refuse_status now rp_id txn pending =
    if leb txn.expires_at now
    then (do
      marked ← advance txn.id is_pending expired
      audit_expiry marked rp_id txn
      throw expired_token 400)
    else throw authorization_pending 400
refuse_status now rp_id txn expired = throw expired_token 400
refuse_status now rp_id txn denied = throw access_denied 400
refuse_status now rp_id txn consumed = throw invalid_grant 400
refuse_status now rp_id txn approved = pure tt

abbrev pub binding_of : Option String → World → Option Binding
binding_of none w = none
binding_of (some id) w = first (named id) w.bindings

-- Everything of `cibaGrant` before the transaction is consumed.
unfoldable pub look_up_approval : ℕ → RelyingParty → Option String → Handler (Transaction × Binding)
look_up_approval now rp auth_req_id = do
  wanted ← present (given auth_req_id) invalid_request 400
  found ← gets (λ w. first (λ t. same t.auth_req_id wanted) w.transactions)
  txn ← present found invalid_grant 400
  refuse_if (not (same txn.rp_id rp.id)) invalid_grant 400
  refuse_status now rp.id txn txn.status
  held ← gets (binding_of txn.device_binding_id)
  binding ← present held invalid_grant 400
  pure (txn, binding)

-- The rest, on the rows that were read.
unfoldable pub redeem_approval :
    Environment → ℕ → RelyingParty → String → Transaction × Binding → Handler Tokens
redeem_approval env now rp grant_id (txn, binding) = do
  won ← advance txn.id is_approved consumed
  refuse_if (not won) invalid_grant 400
  response ←
      mint env now rp txn.citizen_id txn.scopes binding.assurance_level
        (or_else txn.resolved_at now) none
  insert_grant now grant_id txn.citizen_id rp.id txn.scopes "ciba-approval"
  append (record (event "citizen" (some txn.citizen_id) "consent.granted" "success") {
    subject_ref = some txn.citizen_id;
    rp_id = some rp.id;
    context = ("scopes", txn.scopes) ∷ ("source", "ciba-approval" ∷ []) ∷ [];
  })
  append (record (event "rp" (some rp.id) "ciba.tokens_issued" "success") {
    subject_ref = some txn.citizen_id;
    rp_id = some rp.id;
    device_binding_id = some binding.id;
    assurance = some binding.assurance_level;
    context = ("scopes", txn.scopes) ∷ ("flow", txn.flow ∷ []) ∷ [];
  })
  pure response

unfoldable pub ciba_grant : Environment → ℕ → RelyingParty → String → Option String → Handler Tokens
unfolding look_up_approval redeem_approval
ciba_grant env now rp grant_id auth_req_id = do
  approval ← look_up_approval now rp auth_req_id
  redeem_approval env now rp grant_id approval

pub record CodeRequest : Type 0 where
  pub code : Option String
  pub redirect_uri : Option String
  pub code_verifier : Option String

abbrev pub is_redeemable :
    Environment → ℕ → RelyingParty → String → String → AuthorizationCode → Bool
is_redeemable env now rp redirect_uri code_verifier row =
    same row.rp_id rp.id
    && is_none row.consumed_at
    && not (leb row.expires_at now)
    && same row.redirect_uri redirect_uri
    && same (env.base64url_sha256 code_verifier) row.code_challenge

-- `codeGrant` from its SELECT to the check of the row.
unfoldable pub look_up_given :
    Environment → ℕ → RelyingParty → String → String → String → Handler AuthorizationCode
look_up_given env now rp code redirect_uri code_verifier = do
  found ← gets (λ w. first (λ c. same c.code_hash (env.sha256_hex code)) w.codes)
  row ← present found invalid_grant 400
  refuse_if (not (is_redeemable env now rp redirect_uri code_verifier row)) invalid_grant 400
  pure row

unfoldable pub look_up_code :
    Environment → ℕ → RelyingParty → CodeRequest → Handler AuthorizationCode
unfolding look_up_given
look_up_code env now rp body = do
  code ← present (given body.code) invalid_request 400
  redirect_uri ← present (given body.redirect_uri) invalid_request 400
  code_verifier ← present (given body.code_verifier) invalid_request 400
  look_up_given env now rp code redirect_uri code_verifier

abbrev pub is_unused : String → AuthorizationCode → Bool
is_unused code_hash c = same c.code_hash code_hash && is_none c.consumed_at

abbrev pub use_code : ℕ → AuthorizationCode → AuthorizationCode
use_code now c = record c { consumed_at = some now }

abbrev pub consume_code : ℕ → String → Handler Bool
consume_code now code_hash w = (
  ok (any (is_unused code_hash) w.codes),
  record w { codes = update (is_unused code_hash) (use_code now) w.codes },
)

unfoldable pub redeem_code : Environment → ℕ → RelyingParty → AuthorizationCode → Handler Tokens
redeem_code env now rp row = do
  won ← consume_code now row.code_hash
  refuse_if (not won) invalid_grant 400
  response ← mint env now rp row.citizen_id row.scopes row.assurance row.auth_time row.nonce
  append (record (event "rp" (some rp.id) "oidc.tokens_issued" "success") {
    subject_ref = some row.citizen_id;
    rp_id = some rp.id;
    assurance = some row.assurance;
    context = ("scopes", row.scopes) ∷ ("flow", "code" ∷ []) ∷ [];
  })
  pure response

unfoldable pub code_grant : Environment → ℕ → RelyingParty → CodeRequest → Handler Tokens
unfolding look_up_code redeem_code
code_grant env now rp body = do row ← look_up_code env now rp body; redeem_code env now rp row

pub data GrantRequest : Type 0 where
  ciba_request : Option String → GrantRequest
  code_request : CodeRequest → GrantRequest
  other_request : GrantRequest

unfoldable pub grant : Environment → ℕ → String → RelyingParty → GrantRequest → Handler Tokens
unfolding ciba_grant code_grant
grant env now grant_id rp (ciba_request auth_req_id) = ciba_grant env now rp grant_id auth_req_id
grant env now grant_id rp (code_request body) = code_grant env now rp body
grant env now grant_id rp other_request = throw invalid_request 400

unfoldable pub token :
    Environment → ℕ → String → Option (String × String) → GrantRequest → Handler Tokens
unfolding authenticate_client grant
token env now grant_id creds body = do
  rp ← authenticate_client env creds
  grant env now grant_id rp body
