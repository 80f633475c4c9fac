-- ===== src/Broker/Ciba.antt =====
-- apps/broker/src/modules/ciba: the backchannel request of the relying party, and the citizen's
-- decision on the device.
pub mod Decisions
use Prim.Native.String.{String, ◌++◌}
use sdidfy.Prelude.{
  ℕ, ◌+◌, ◌*◌, ◌-◌, Bool, true, false, not, ◌&&◌, ◌||◌, List, [], ◌∷◌, Option, none, some, Result,
  ok, err, leb, ltb, if◌then◌else◌, same, some_of, every, includes,
}
use sdidfy.Shared.Assurance.{AssuranceLevel, al2, al3, al_meets, al_text}
use sdidfy.Shared.Errors.{
  other_error, unauthorized_client, invalid_scope, invalid_request, unknown_user_id, access_denied,
  binding_not_active, assurance_insufficient,
}
use sdidfy.Broker.World.{
  World, Binding, RelyingParty, Transaction, TransactionStatus, pending, approved, denied, expired,
  consumed,
}
use sdidfy.Broker.Table.{first, rows, update, any}
use sdidfy.Broker.Handler.{
  Handler, ◌>>=◌, ◌>>◌, pure, refuse_if, present, gets, modify, append, event,
}
use sdidfy.Broker.Environment.{Environment}
use sdidfy.Broker.Challenge.{Decision, approve, deny, consume_ciba}
use sdidfy.Broker.RateLimit.{hit}
use sdidfy.Broker.Reverification.{Sdid, is_binding_active, active_of, reassert_if_due}
use sdidfy.Broker.Signature.{verify_device_signature}
use sdidfy.Broker.Devices.{named, touch}
use sdidfy.Broker.Session.{DeviceSession}
use sdidfy.Broker.Pairwise.{citizen_for_subject}

abbrev pub is_pending : TransactionStatus → Bool
is_pending pending = true
is_pending _ = false

abbrev pub is_approved : TransactionStatus → Bool
is_approved approved = true
is_approved _ = false

pub record BcAuthorizeRequest : Type 0 where
  -- `body.scope.split(' ').filter(Boolean)`
  pub scopes : List String
  pub login_hint : String
  pub requested_al : Option AssuranceLevel
  pub requested_expiry : Option ℕ
  pub binding_message : Option String

abbrev pub or_al2 : Option AssuranceLevel → AssuranceLevel
or_al2 none = al2
or_al2 (some level) = level

abbrev pub or_default : ℕ → Option ℕ → ℕ
or_default n none = n
or_default n (some m) = m

-- INSERT into `auth_transactions`, whose primary key is `id` and whose `auth_req_id` is unique.
abbrev pub is_taken : Transaction → List Transaction → Bool
is_taken t ts = any (λ u. same u.id t.id || same u.auth_req_id t.auth_req_id) ts

unfoldable pub open_transaction : Transaction → Handler (Unit {0})
open_transaction t w =
    if is_taken t w.transactions
    then (err other_error, w)
    else (ok tt, record w { transactions = t ∷ w.transactions })

-- The answer: the request's id and its lifetime. Waking the phone changes nothing here.
unfoldable pub bc_authorize :
    Environment → ℕ → RelyingParty → String → String → BcAuthorizeRequest → Handler (String × ℕ)
unfolding open_transaction
bc_authorize env now rp id auth_req_id body = do
  hit now ("ciba:rp:" ++ rp.id) 60 60
  refuse_if (not (includes rp.allowed_flows "ciba")) unauthorized_client 400
  refuse_if
      (not (includes body.scopes "openid")
        || not (every (λ s. includes rp.allowed_scopes s) body.scopes))
      invalid_scope 400
  let requested_al = or_al2 body.requested_al
  refuse_if (not (al_meets rp.max_assurance requested_al)) invalid_request 400
  found ← citizen_for_subject rp.id body.login_hint
  citizen_id ← present found unknown_user_id 400
  bindings ← gets (λ w. rows (active_of citizen_id) w.bindings)
  refuse_if (not (some_of (λ b. al_meets b.assurance_level requested_al) bindings)) unknown_user_id
      400
  let expires_in = or_default env.ciba_request_ttl body.requested_expiry
  open_transaction (record {
    id = id;
    auth_req_id = auth_req_id;
    citizen_id = citizen_id;
    rp_id = rp.id;
    flow = "ciba";
    scopes = body.scopes;
    requested_al = requested_al;
    binding_message = body.binding_message;
    status = pending;
    device_binding_id = none;
    suspicious_report = none;
    expires_at = now + expires_in * 1000;
    resolved_at = none;
  })
  append (record (event "rp" (some rp.id) "ciba.request_created" "success") {
    subject_ref = some citizen_id;
    rp_id = some rp.id;
    context = ("scopes", body.scopes) ∷ ("requestedAl", al_text requested_al ∷ []) ∷ [];
  })
  pure (auth_req_id, expires_in)

-- What the device lists: the citizen's own live requests.
abbrev pub is_listed : String → ℕ → Transaction → Bool
is_listed citizen_id now t =
    same t.citizen_id citizen_id && is_pending t.status && ltb now t.expires_at

unfoldable pub pending_transactions : ℕ → DeviceSession → Handler (List Transaction)
pending_transactions now session =
    gets (λ w. rows (is_listed session.citizen_id now) w.transactions)

pub record DecisionRequest : Type 0 where
  pub auth_req_id : String
  pub binding_id : String
  pub challenge_id : String
  pub decision : Decision
  pub signature : String
  pub report_suspicious : Bool

abbrev pub is_approval : Decision → Bool
is_approval approve = true
is_approval deny = false

abbrev pub is_al3 : AssuranceLevel → Bool
is_al3 al3 = true
is_al3 _ = false

abbrev pub status_of : Decision → TransactionStatus
status_of approve = approved
status_of deny = denied

abbrev pub resolve : ℕ → String → DecisionRequest → Transaction → Transaction
resolve now binding_id body t = record t {
  status = status_of body.decision;
  device_binding_id = some binding_id;
  resolved_at = some now;
  suspicious_report =
      if body.report_suspicious then some "citizen-reported-suspicious" else t.suspicious_report;
}

-- The row is updated only while it is still pending, and nobody asks whether it was.
unfoldable pub settle_decision :
    ℕ → Transaction → Binding → DecisionRequest → Handler TransactionStatus
settle_decision now txn binding body = do
  modify (λ w. record w {
    transactions =
        update (λ t. same t.id txn.id && is_pending t.status) (resolve now binding.id body)
          w.transactions;
  })
  append
      (record (event "citizen" (some txn.citizen_id)
        (if is_approval body.decision then "ciba.request_approved" else "ciba.request_denied")
        (if is_approval body.decision then "success" else "denied")) {
          subject_ref = some txn.citizen_id;
          rp_id = some txn.rp_id;
          device_binding_id = some binding.id;
          assurance = some binding.assurance_level;
          context =
              ("flow", txn.flow ∷ [])
              ∷ ("scopes", txn.scopes)
              ∷ (if body.report_suspicious then ("reportedSuspicious", "true" ∷ []) ∷ [] else []);
        })
  touch binding.id now
  pure (status_of body.decision)

abbrev pub reassert_for : Environment → Sdid → ℕ → Transaction → Binding → Decision → Handler Bool
reassert_for env sdid now txn binding approve =
    reassert_if_due env sdid txn.citizen_id binding (is_al3 txn.requested_al)
      (if is_al3 txn.requested_al then "al3-step-up" else "ciba-approve") now
reassert_for env sdid now txn binding deny = pure false

unfoldable pub decide :
    Environment → Sdid → ℕ → DeviceSession → DecisionRequest → Handler TransactionStatus
unfolding settle_decision
decide env sdid now session body = do
  found ← gets (λ w. first (λ t. same t.auth_req_id body.auth_req_id) w.transactions)
  txn ← present found access_denied 403
  refuse_if
      (not (is_pending txn.status)
        || leb txn.expires_at now
        || not (same txn.citizen_id session.citizen_id)
        || not (same body.binding_id session.binding_id))
      access_denied 403
  held ← gets (λ w. first (named session.binding_id) w.bindings)
  binding ← present held binding_not_active 401
  refuse_if (not (is_binding_active binding.status)) binding_not_active 401
  refuse_if (not (al_meets binding.assurance_level txn.requested_al)) assurance_insufficient 403
  reassert_for env sdid now txn binding body.decision
  payload ← consume_ciba now body.challenge_id body.auth_req_id body.binding_id body.decision
  verify_device_signature env binding.device_pubkey payload body.signature
  settle_decision now txn binding body
