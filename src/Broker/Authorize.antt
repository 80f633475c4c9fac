-- ===== src/Broker/Authorize.antt =====
-- The code flow of apps/broker/src/modules/oidc/oidc.controller.ts: the authorize page and its poll.
-- The pages themselves are left out.
use Prim.Native.String.{String}
use sdidfy.Prelude.{
  ℕ, ◌+◌, ◌*◌, Bool, true, false, not, ◌||◌, List, [], ◌∷◌, Option, none, some, Result, ok, err,
  ltb, if◌then◌else◌, same, every, includes,
}
use sdidfy.Shared.Assurance.{AssuranceLevel, al2, al_meets, al_text}
use sdidfy.Shared.Errors.{invalid_request, invalid_client, unauthorized_client, invalid_scope}
use sdidfy.Broker.Store.{get, set, del}
use sdidfy.Broker.World.{
  Binding, RelyingParty, Transaction, TransactionStatus, pending, approved, consumed, CodeFlowStash,
}
use sdidfy.Broker.Table.{first}
use sdidfy.Broker.Handler.{
  Handler, ◌>>=◌, ◌>>◌, pure, refuse_if, present, gets, modify, append, event,
}
use sdidfy.Broker.Environment.{Environment}
use sdidfy.Broker.Reverification.{or_else}
use sdidfy.Broker.Pairwise.{citizen_for_subject}
use sdidfy.Broker.Ciba.{open_transaction, is_approved}
use sdidfy.Broker.Token.{load_by_client_id, advance, binding_of}

abbrev pub is_empty : {A : Type 0} → List A → Bool
is_empty [] = true
is_empty (x ∷ xs) = false

pub record AuthorizeRequest : Type 0 where
  pub client_id : String
  pub login_hint : Option String
  pub redirect_uri : String
  pub scopes : List String
  -- Absent, or the level that the text names; an unknown text is refused.
  pub acr_values : Option (Option AssuranceLevel)
  pub code_challenge : String
  pub nonce : Option String
  pub state : Option String

abbrev pub requested_level : RelyingParty → Option (Option AssuranceLevel) → Handler AssuranceLevel
requested_level rp none = pure al2
requested_level rp (some named_level) = do
  level ← present named_level invalid_request 400
  refuse_if (not (al_meets rp.max_assurance level)) invalid_request 400
  pure level

pub data AuthorizePage : Type 0 where
  access_denied_page : AuthorizePage
  approval_page : String → AuthorizePage

abbrev pub open_code_flow :
    Environment
    → ℕ
    → String
    → String
    → AuthorizeRequest
    → RelyingParty
    → AssuranceLevel
    → Option String
    → Handler AuthorizePage
open_code_flow env now id auth_req_id q rp level none = pure access_denied_page
open_code_flow env now id auth_req_id q rp level (some citizen_id) = do
  open_transaction (record {
    id = id;
    auth_req_id = auth_req_id;
    citizen_id = citizen_id;
    rp_id = rp.id;
    flow = "code";
    scopes = q.scopes;
    requested_al = level;
    binding_message = none;
    status = pending;
    device_binding_id = none;
    suspicious_report = none;
    expires_at = now + env.ciba_request_ttl * 1000;
    resolved_at = none;
  })
  modify (λ w. record w {
    stashes =
        set auth_req_id
          (record {
            code_challenge = q.code_challenge;
            nonce = q.nonce;
            redirect_uri = q.redirect_uri;
            state = q.state;
          })
          (some (now + env.ciba_request_ttl * 1000)) w.stashes;
  })
  append (record (event "rp" (some rp.id) "ciba.request_created" "success") {
    subject_ref = some citizen_id;
    rp_id = some rp.id;
    context =
        ("flow", "code" ∷ []) ∷ ("scopes", q.scopes) ∷ ("requestedAl", al_text level ∷ []) ∷ [];
  })
  pure (approval_page auth_req_id)

unfoldable pub authorize :
    Environment → ℕ → String → String → AuthorizeRequest → Handler AuthorizePage
authorize env now id auth_req_id q = do
  login_hint ← present q.login_hint invalid_request 400
  found ← load_by_client_id q.client_id
  rp ← present found invalid_client 401
  refuse_if (not rp.is_active) invalid_client 401
  refuse_if (not (includes rp.allowed_flows "code")) unauthorized_client 400
  refuse_if (not (includes rp.redirect_uris q.redirect_uri)) invalid_request 400
  refuse_if (is_empty q.scopes || not (every (λ s. includes rp.allowed_scopes s) q.scopes))
      invalid_scope 400
  level ← requested_level rp q.acr_values
  citizen ← citizen_for_subject rp.id login_hint
  open_code_flow env now id auth_req_id q rp level citizen

pub data PollAnswer : Type 0 where
  poll_pending poll_denied : PollAnswer
  poll_approved : String → Option String → PollAnswer

-- The stash and the binding of an approved transaction of the code flow.
pub record CodeApproval : Type 0 where
  pub txn : Transaction
  pub stash : CodeFlowStash
  pub binding : Binding

abbrev pub approval_of : Transaction → Option CodeFlowStash → Option Binding → Option CodeApproval
approval_of txn (some stash) (some binding) =
    some (record { txn = txn; stash = stash; binding = binding })
approval_of txn _ _ = none

abbrev pub ready : Option CodeApproval → Result PollAnswer CodeApproval
ready none = err poll_denied
ready (some approval) = ok approval

abbrev pub look_up_status :
    ℕ → String → Transaction → TransactionStatus → Handler (Result PollAnswer CodeApproval)
look_up_status now auth_req_id txn pending =
    pure (err (if ltb now txn.expires_at then poll_pending else poll_denied))
look_up_status now auth_req_id txn approved = do
  stash ← gets (λ w. get now auth_req_id w.stashes)
  binding ← gets (binding_of txn.device_binding_id)
  pure (ready (approval_of txn stash binding))
look_up_status now auth_req_id txn _ = pure (err poll_denied)

abbrev pub look_up_row : ℕ → String → Option Transaction → Handler (Result PollAnswer CodeApproval)
look_up_row now auth_req_id none = pure (err poll_denied)
look_up_row now auth_req_id (some txn) =
    if same txn.flow "code"
    then look_up_status now auth_req_id txn txn.status
    else pure (err poll_denied)

-- What is left of `authorizePoll` once its reads are done: an answer, or an approval to redeem.
unfoldable pub look_up_poll : ℕ → Option String → Handler (Result PollAnswer CodeApproval)
look_up_poll now none = pure (err poll_denied)
look_up_poll now (some auth_req_id) = do
  found ← gets (λ w. first (λ t. same t.auth_req_id auth_req_id) w.transactions)
  look_up_row now auth_req_id found

abbrev pub issue_code : Environment → ℕ → String → CodeApproval → Bool → Handler PollAnswer
issue_code env now code approval false = pure poll_denied
issue_code env now code approval true = do
  let txn = approval.txn
  let stash = approval.stash
  let binding = approval.binding
  modify (λ w. record w {
    codes =
        record {
          code_hash = env.sha256_hex code;
          citizen_id = txn.citizen_id;
          rp_id = txn.rp_id;
          scopes = txn.scopes;
          redirect_uri = stash.redirect_uri;
          code_challenge = stash.code_challenge;
          nonce = stash.nonce;
          assurance = binding.assurance_level;
          auth_time = or_else txn.resolved_at now;
          expires_at = now + env.auth_code_ttl * 1000;
          consumed_at = none;
        }
        ∷ w.codes;
  })
  modify (λ w. record w { stashes = del txn.auth_req_id w.stashes })
  append (record (event "citizen" (some txn.citizen_id) "oidc.code_issued" "success") {
    subject_ref = some txn.citizen_id;
    rp_id = some txn.rp_id;
    device_binding_id = some binding.id;
    assurance = some binding.assurance_level;
    context = ("flow", "code" ∷ []) ∷ ("scopes", txn.scopes) ∷ [];
  })
  pure (poll_approved code stash.state)

unfoldable pub redeem_poll :
    Environment → ℕ → String → Result PollAnswer CodeApproval → Handler PollAnswer
redeem_poll env now code (err answer) = pure answer
redeem_poll env now code (ok approval) = do
  won ← advance approval.txn.id is_approved consumed
  issue_code env now code approval won

unfoldable pub authorize_poll : Environment → ℕ → String → Option String → Handler PollAnswer
unfolding look_up_poll redeem_poll
authorize_poll env now code txn = do found ← look_up_poll now txn; redeem_poll env now code found
