-- ===== src/Broker/Tests/Trust.antt =====
-- Runs of revocation, re-assertion, enrolment and consent of apps/broker at concrete requests.
use Prim.Native.String.{String}
use sdidfy.Prelude.{
  ◌≡◌, refl, true, false, List, [], ◌∷◌, ◌&&◌, none, some, ok, err, ◌↔◌, arith, same,
}
use sdidfy.Shared.Assurance.{al2, al3}
use sdidfy.Shared.Errors.{bridge_error, access_denied}
use sdidfy.Shared.Protocol.{activation, build_challenge_payload, purpose_string}
use sdidfy.Broker.World.{World, suspended, Binding, awaiting_activation}
use sdidfy.Broker.Table.{any}
use sdidfy.Broker.Store.{get, entry, del}
use sdidfy.Broker.Handler.{◌>>=◌}
use sdidfy.Broker.Challenge.{consume}
use sdidfy.Broker.Challenge.SingleUse.{consume_iff}
use sdidfy.Broker.Reverification.{Sdid, reassert_now, active_of, is_citizen_active, SweepReport}
use sdidfy.Broker.Reverification.Effects.{reassert_now-invalid}
use sdidfy.Broker.Devices.{LoginRequest, log_in, issue_login_challenge, revoke_binding}
use sdidfy.Broker.Session.{can_activate}
use sdidfy.Broker.Ciba.{decide}
use sdidfy.Broker.Guards.{IsRefused, revoke_binding-immediate}
use sdidfy.Broker.Enrolment.{check_cap, add_binding, StartRequest, activate, ActivateRequest}
use sdidfy.Broker.Enrolment.Cap.{held_by}
use sdidfy.Broker.Enrolment.Activation.{IsProved, Outcome, activate_iff}
use sdidfy.Broker.Consent.{record_grant, has_active_grant, revoke_grant}
use sdidfy.Broker.Consent.Registry.{has_active_grant-record_grant}
use sdidfy.Broker.Consent.History.{ConsentOp, grants, revokes, apply_all, stands, AreFresh}
use sdidfy.Broker.Consent.Refinement.{has_active_grant-stands}
use sdidfy.Broker.Samples.{env, amina, phone, world, session, approval, no_sdid}

abbrev sign_in : LoginRequest
sign_in = record { binding_id = "b1"; challenge_id = "ch2"; signature = "sig" }

abbrev without_phone : World
without_phone = (revoke_binding 10 "c1" "b1" none world).1

phone_revoked : (revoke_binding 10 "c1" "b1" none world).0 ≡ ok tt
unfolding revoke_binding ◌>>=◌
phone_revoked = refl

revoke_binding-immediate_example :
    IsRefused (issue_login_challenge env 20 "ch2" "n2" "b1" without_phone).0
    × IsRefused (log_in env no_sdid 20 sign_in without_phone).0
    × IsRefused
        (can_activate (some (record { sub = some "c1"; binding_id = some "b1" })) without_phone).0
    × IsRefused (decide env no_sdid 20 session approval without_phone).0
revoke_binding-immediate_example =
    revoke_binding-immediate env no_sdid 10 20 "c1" "b1" none world sign_in "ch2" "n2" (some "c1")
      session approval (omega arith) phone_revoked refl refl

abbrev gone : Sdid
gone subject = ok (record { valid = false; assurance = al2; txn_ref = "x" })

reassert_now-invalid_example :
    ((reassert_now gone "c1" "b1" "sweep" 5 world).0 ≡ err (bridge_error access_denied 403))
    × (any (active_of "c1") (reassert_now gone "c1" "b1" "sweep" 5 world).1.bindings ≡ false)
    × (any
          (λ c. same c.id "c1" && is_citizen_active c.status)
          (reassert_now gone "c1" "b1" "sweep" 5 world).1.citizens
        ≡ false)
reassert_now-invalid_example =
    reassert_now-invalid gone "c1" "b1" "sweep" 5 world "s-1"
      (record { valid = false; assurance = al2; txn_ref = "x" }) refl refl refl

abbrev suspended_world : World
suspended_world = record world { citizens = record amina { status = suspended } ∷ [] }

abbrev blank : SweepReport
blank = record { scanned = 2; due = 2; reasserted = 0; revocations = 0 }

abbrev start_request : StartRequest
start_request = record {
  pseudo_nid = "p1";
  ip = "ip";
  attestation = record {
    platform = "android";
    token = [];
    key_attestation = none;
    nonce_id = some "n9";
  };
  device_pubkey = record { kty = "EC"; crv = "P-256"; x = "x"; y = "y" };
  device_label = "tablet";
  is_fingerprint = false;
  sample = record { bytes = []; has_method = true; liveness = 900 };
}

abbrev with_four : World
with_four = record world { bindings = phone ∷ phone ∷ phone ∷ phone ∷ [] }

-- Two enrolments count the four devices before either of them adds its own.
abbrev both_through : World
both_through = (check_cap "c1" (check_cap "c1" with_four).1).1

abbrev overlapped : World
overlapped =
    (add_binding 6 "b6" "c1" start_request al3 "x"
      (add_binding 5 "b5" "c1" start_request al3 "x" both_through).1).1

sixth_device : held_by "c1" overlapped ≡ 6
unfolding check_cap add_binding ◌>>=◌
sixth_device = refl

abbrev new_phone : Binding
new_phone = record phone { status = awaiting_activation }

-- The citizen is suspended, and the device is activated all the same.
abbrev activation_world : World
activation_world = record suspended_world {
  bindings = new_phone ∷ [];
  challenges =
      record {
        key = "ch3";
        value = record { purpose = "activation"; nonce = "n3"; binding_id = "b1" };
        dies_at = some 50;
      }
      ∷ [];
}

abbrev proof : ActivateRequest
proof = record { binding_id = "b1"; challenge_id = "ch3"; signature = "sig" }

abbrev payload : String
payload = "sdid-bridge:v1:activation:ch3:n3"

challenge_taken : (consume 10 "ch3" activation "b1" activation_world).0 ≡ ok payload
unfolding consume get entry del purpose_string build_challenge_payload ◌>>=◌
challenge_taken = refl

activate_iff_example :
    (((activate env 10 proof activation_world).0 ≡ ok tt) ↔ IsProved env new_phone payload "sig")
    × Outcome env 10 proof new_phone activation_world
activate_iff_example =
    activate_iff env 10 proof new_phone payload activation_world refl challenge_taken

has_active_grant-record_grant_run :
    (has_active_grant "c1" "r1"
      ("openid" ∷ [])
      (record_grant 5 "g1" "c1" "r1" ("openid" ∷ []) "standing-grant" world).1).0
    ≡ ok true
has_active_grant-record_grant_run =
    has_active_grant-record_grant 5 "g1" "c1" "r1" "standing-grant" ("openid" ∷ []) world

abbrev history : List ConsentOp
history =
    grants 1 "g1" "c1" "r1" ("openid" ∷ "profile" ∷ []) "standing-grant"
    ∷ revokes 2 "c1" "g1"
    ∷ grants 3 "g2" "c1" "r1" ("openid" ∷ []) "ciba-approval"
    ∷ revokes 4 "c2" "g2"
    ∷ []

history-AreFresh : AreFresh history world
unfolding record_grant revoke_grant ◌>>=◌
history-AreFresh = (refl, (tt, (refl, (tt, tt))))

taken : stands "c1" "r1" ("profile" ∷ []) history ≡ false
taken = refl

has_active_grant-stands_example :
    (has_active_grant "c1" "r1" ("openid" ∷ []) (apply_all history world)).0
    ≡ ok (stands "c1" "r1" ("openid" ∷ []) history)
has_active_grant-stands_example =
    has_active_grant-stands "c1" "r1" ("openid" ∷ []) history world refl history-AreFresh

consume_iff_run : ((consume 10 "ch3" activation "b1" activation_world).0 ≡ ok payload) ↔ (
    (nonce : String) × (get 10 "ch3" activation_world.challenges
      ≡ some (record { purpose = purpose_string activation; nonce = nonce; binding_id = "b1" }))
    × (payload ≡ build_challenge_payload activation "ch3" nonce))
consume_iff_run = consume_iff 10 "ch3" activation "b1" payload activation_world
