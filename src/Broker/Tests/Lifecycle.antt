-- ===== src/Broker/Tests/Lifecycle.antt =====
-- Runs of the transactions and grants of apps/broker at concrete requests.
use sdidfy.Prelude.{◌≡◌, refl, true, [], ◌∷◌, map, none, some, ok, err, ◌<◌, false, ◌&&◌, same}
use sdidfy.Shared.Assurance.{al3, al_meets}
use sdidfy.Shared.Errors.{bridge_error, invalid_grant}
use sdidfy.Broker.World.{World, TransactionStatus, pending, approved, active}
use sdidfy.Broker.Table.{any}
use sdidfy.Broker.Ciba.{is_approved}
use sdidfy.Broker.Store.{get, entry, del, set, expire}
use sdidfy.Broker.Handler.{◌>>=◌}
use sdidfy.Broker.Pairwise.{Tokens, mint, subject_for, citizen_for_subject}
use sdidfy.Broker.RateLimit.{hit}
use sdidfy.Broker.Challenge.{consume_ciba}
use sdidfy.Broker.Reverification.{reassert_if_due, is_due, last_sdid_contact}
use sdidfy.Broker.Signature.{verify_device_signature}
use sdidfy.Broker.Ciba.{bc_authorize, open_transaction, decide, settle_decision}
use sdidfy.Broker.Ciba.Decisions.{decide-genuine, settle_decision-late, action_of}
use sdidfy.Broker.Token.{redeem_approval, ciba_grant, redeem_code, look_up_code, look_up_given}
use sdidfy.Broker.Token.Approvals.{ciba_grant-tokens}
use sdidfy.Broker.Token.Codes.{redeem_code-once, look_up_code-genuine}
use sdidfy.Broker.Authorize.{CodeApproval, poll_denied, poll_approved, redeem_poll}
use sdidfy.Broker.Lifecycle.{later}
use sdidfy.Broker.Lifecycle.Forward.{
  Requests, no_request, more, asks, decides, Requests-forward, status_by_id,
}
use sdidfy.Broker.Lifecycle.SingleUse.{redeem_approval-once}
use sdidfy.Broker.Samples.{
  env, phone, bank, world, request, session, approval, no_sdid, asked, granted, asked_world,
  granted_world, code_row, code_world, stash,
}

abbrev after_request : World
after_request = (bc_authorize env 1000 bank "t1" "req1" request world).1

abbrev after_approval : World
after_approval = (decide env no_sdid 2000 session approval after_request).1

run : Requests world after_approval
run =
    more (more no_request (asks env 1000 bank "t1" "req1" request))
      (decides env no_sdid 2000 session approval)

opened : after_approval.transactions ≡ granted ∷ []
unfolding bc_authorize open_transaction hit entry del set get expire citizen_for_subject al_meets
    decide settle_decision consume_ciba verify_device_signature reassert_if_due is_due
    last_sdid_contact ◌>>=◌
opened = refl

abbrev tokens : Tokens
tokens = record {
  sub = "pairwise";
  audience = "bank";
  acr = al3;
  auth_time = 2;
  nonce = none;
  scopes = "openid" ∷ [];
}

redeemed : (redeem_approval env 3000 bank "g1" (granted, phone) after_approval).0 ≡ ok tokens
unfolding bc_authorize open_transaction hit entry del set get expire citizen_for_subject al_meets
    decide settle_decision consume_ciba verify_device_signature reassert_if_due is_due
    last_sdid_contact redeem_approval mint subject_for ◌>>=◌
redeemed = refl

abbrev code_approval : CodeApproval
code_approval = record { txn = granted; stash = stash; binding = phone }

coded :
    (redeem_poll env 3000 "code" (ok code_approval) after_approval).0
    ≡ ok (poll_approved "code" none)
unfolding bc_authorize open_transaction hit entry del set get expire citizen_for_subject al_meets
    decide settle_decision consume_ciba verify_device_signature reassert_if_due is_due
    last_sdid_contact redeem_poll ◌>>=◌
coded = refl

abbrev collected : World
collected = (redeem_approval env 3000 bank "g1" (granted, phone) after_approval).1

abbrev polled : World
polled = (redeem_poll env 3000 "code" (ok code_approval) after_approval).1

redeem_approval-once_example :
    ((redeem_approval env 4000 bank "g2" (granted, phone) collected).0
      ≡ err (bridge_error invalid_grant 400))
    × ((redeem_poll env 4000 "g2" (ok code_approval) collected).0 ≡ ok poll_denied)
redeem_approval-once_example =
    redeem_approval-once world after_approval collected env env 3000 4000 bank bank "g1" "g2"
      granted granted phone phone code_approval tokens refl run redeemed no_request refl refl

asked_status : status_by_id "t1" asked_world.transactions ≡ some pending
unfolding status_by_id
asked_status = refl

Requests-forward_example :
    (s' : TransactionStatus) × (status_by_id "t1"
        (decide env no_sdid 2000 session approval asked_world).1.transactions
      ≡ some s')
    × (later pending s' ≡ true)
Requests-forward_example =
    Requests-forward asked_world (decide env no_sdid 2000 session approval asked_world).1 "t1"
      pending (more no_request (decides env no_sdid 2000 session approval)) asked_status

decided : (decide env no_sdid 2000 session approval asked_world).0 ≡ ok approved
unfolding entry del get al_meets decide settle_decision consume_ciba verify_device_signature
    reassert_if_due is_due last_sdid_contact ◌>>=◌
decided = refl

decide-genuine_example :
    (pending ≡ pending)
    × (2000 < asked.expires_at)
    × (asked.citizen_id ≡ session.citizen_id)
    × (approval.binding_id ≡ session.binding_id)
    × (phone.status ≡ active)
    × (al_meets phone.assurance_level asked.requested_al ≡ true)
decide-genuine_example =
    decide-genuine env no_sdid 2000 session approval asked phone approved asked_world refl refl
      decided

settle_decision-late_example :
    ((settle_decision 2000 asked phone approval granted_world).0 ≡ ok approved)
    × ((settle_decision 2000 asked phone approval granted_world).1.transactions ≡ granted ∷ [])
    × (map action_of (settle_decision 2000 asked phone approval granted_world).1.audit
        ≡ "ciba.request_approved" ∷ [])
settle_decision-late_example = settle_decision-late 2000 asked phone approval granted_world refl

ciba_grant-tokens_example :
    (t : Tokens) × ((ciba_grant env 3000 bank "g1" (some "req1") granted_world).0 ≡ ok t)
    × (t.acr ≡ al3)
    × (t.scopes ≡ "openid" ∷ [])
    × (t.audience ≡ "bank")
    × (t.auth_time ≡ 2)
    × (any
          (λ t. same t.id "t1" && is_approved t.status)
          (ciba_grant env 3000 bank "g1" (some "req1") granted_world).1.transactions
        ≡ false)
ciba_grant-tokens_example =
    ciba_grant-tokens env 3000 bank "g1" "req1" granted granted_world refl refl phone refl refl refl
      refl

redeem_code-once_example :
    (redeem_code env 4000 bank code_row (redeem_code env 3000 bank code_row code_world).1).0
    ≡ err (bridge_error invalid_grant 400)
redeem_code-once_example =
    redeem_code-once env bank 3000 4000 code_row code_row bank code_world refl

looked_up :
    (look_up_code env 3000 bank
      (record {
        code = some "code";
        redirect_uri = some "https://bank";
        code_verifier = some "verifier";
      })
      code_world).0
    ≡ ok code_row
unfolding look_up_code look_up_given ◌>>=◌
looked_up = refl

look_up_code-genuine_example :
    (code_row.code_hash ≡ env.sha256_hex "code")
    × (code_row.rp_id ≡ bank.id)
    × (code_row.consumed_at ≡ none)
    × (3000 < code_row.expires_at)
    × (code_row.redirect_uri ≡ "https://bank")
    × (code_row.code_challenge ≡ env.base64url_sha256 "verifier")
look_up_code-genuine_example =
    look_up_code-genuine env bank 3000 "code" "https://bank" "verifier" code_row code_world
      looked_up
