-- ===== src/Mobile/Tests/Enrol.antt =====
-- A whole enrolment of apps/mobile/src/core.
use sdidfy.Prelude.{◌≡◌, refl, true, [], none, some, ok, err}
use sdidfy.Shared.Assurance.{al2}
use sdidfy.Shared.Errors.{access_denied}
use sdidfy.Shared.Protocol.{build_challenge_payload, purpose_string}
use sdidfy.Mobile.Errors.{protocol}
use sdidfy.Mobile.Wire.{
  Remote, Started, ask_attestation_nonce, send_activation, send_start, nonce_reply, started_reply,
  activated_reply,
}
use sdidfy.Mobile.Client.{Phone, expect_payload, sign, ◌>>=◌}
use sdidfy.Mobile.Client.Enrol.{
  Device, EnrolInput, tee, assert_device_can_enrol, submit_sample, activate_binding, enrol,
}
use sdidfy.Mobile.Client.Enrol.Settles.{binding_after, enrol-Settles}

abbrev started : Started
started = record {
  binding_id = "b9";
  assurance_level = al2;
  challenge = record {
    challenge_id = "ch9";
    nonce = "n9";
    payload = "sdid-bridge:v1:activation:ch9:n9";
  };
}

abbrev bridge : Remote
bridge = record {
  broker = λ sent c. elim c [
    | ask_attestation_nonce ↦ ok (nonce_reply "a1" "nonce")
    | send_start body ↦ ok (started_reply started)
    | send_activation id challenge_id signature ↦ ok (activated_reply id)
    | _ ↦ err (protocol access_denied (some 401))
  ];
  key_store = λ signed payload. ok payload;
}

abbrev device : Device
device = record {
  key_capabilities = ok (record { available = true; security_level = tee });
  biometrics = some (ok (record { available = true; enrolled = true; strong = true }));
  min_security = tee;
  generate = λ nonce. ok (record {
    public_jwk = record { kty = "EC"; crv = "P-256"; x = "x"; y = "y" };
    security_level = tee;
    key_attestation = none;
  });
  attest = λ nonce key. ok (record { platform = "android"; token = []; key_attestation = none });
  capture = ok (record { to_dto = ok "face" });
}

abbrev input : EnrolInput
input = record { nid = "1199780000000000"; device_label = "phone" }

abbrev blank : Phone
blank = record { session = none; binding = none; signed = []; sent = []; open_samples = 0 }

enrolled : (enrol bridge device input blank).0 ≡ ok ("b9", al2)
unfolding enrol assert_device_can_enrol submit_sample activate_binding expect_payload sign
    build_challenge_payload purpose_string ◌>>=◌
enrolled = refl

-- The broker fails after the sample was captured.
abbrev failing : Remote
failing = record bridge {
  broker = λ sent c. elim c [
    | ask_attestation_nonce ↦ ok (nonce_reply "a1" "nonce")
    | _ ↦ err (protocol access_denied (some 403))
  ];
}

refused : (enrol failing device input blank).0 ≡ err (protocol access_denied (some 403))
unfolding enrol assert_device_can_enrol submit_sample ◌>>=◌
refused = refl

enrol-Settles_example :
    ((enrol failing device input blank).1.open_samples ≡ 0)
    × ((enrol failing device input blank).1.binding
        ≡ binding_after (enrol failing device input blank).0 none)
enrol-Settles_example = enrol-Settles failing device input blank
