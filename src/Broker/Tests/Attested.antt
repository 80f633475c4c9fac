-- ===== src/Broker/Tests/Attested.antt =====
-- Runs of the attestation gate of apps/broker.
use sdidfy.Prelude.{ℕ, ◌≡◌, refl, true, [], ◌∷◌, none, some, ok, err}
use sdidfy.Shared.Assurance.{al2}
use sdidfy.Shared.Errors.{bridge_error, attestation_rejected}
use sdidfy.Shared.Protocol.{purpose_string}
use sdidfy.Attestation.Verdict.{derive_assurance_cap}
use sdidfy.Attestation.Tests.Android.{play_run}
use sdidfy.Attestation.Samples.{
  android_crypto, android_config, android_request, ios_config, sample_key,
}
use sdidfy.Broker.Store.{Store, get, del, entry}
use sdidfy.Broker.World.{World}
use sdidfy.Broker.Handler.{◌>>=◌}
use sdidfy.Broker.Challenge.{consume_attestation_nonce}
use sdidfy.Broker.Attestation.{
  Gate, AttestationInput, AttestationVerdict, verify_strict, verify_attestation, run_verifier,
  present_to_verifier,
}
use sdidfy.Broker.Attestation.Strict.{verify_strict-once}
use sdidfy.Broker.Samples.{world}

abbrev pub gate : Gate
gate = record {
  strict = true;
  crypto = android_crypto;
  verifiers = some (android_config, ios_config);
  read_mock_token = λ token. none;
}

abbrev pub nonce_world : World
nonce_world = record world {
  attestation_nonces =
      record {
        key = "n1";
        value = record { purpose = "attestation"; nonce = "n"; binding_id = "" };
        dies_at = some 50000;
      }
      ∷ [];
}

abbrev pub input : AttestationInput
input = record {
  platform = "android";
  token = android_request.token;
  key_attestation = android_request.key_attestation;
  nonce_id = some "n1";
}

abbrev pub hardware_verdict : AttestationVerdict
hardware_verdict = record { hardware_backed = true; platform = "android"; assurance_cap = al2 }

-- With any counters of the limits.
abbrev pub counted_world : Store ℕ → World
counted_world counters = record nonce_world { counters = counters }

accepted :
    (counters : Store ℕ)
    → verify_strict gate 5000 input sample_key (counted_world counters)
      ≡ (ok hardware_verdict, record (counted_world counters) { attestation_nonces = [] })
unfolding verify_strict present_to_verifier run_verifier consume_attestation_nonce get del entry
    derive_assurance_cap purpose_string ◌>>=◌
accepted counters = rw play_run refl

pub in_mode :
    (counters : Store ℕ)
    → verify_attestation gate 5000 input sample_key (counted_world counters)
      ≡ (ok hardware_verdict, record (counted_world counters) { attestation_nonces = [] })
unfolding verify_attestation
in_mode counters = accepted counters

verify_strict-once_example :
    (verify_strict gate 6000 input sample_key (record nonce_world { attestation_nonces = [] })).0
    ≡ err (bridge_error attestation_rejected 403)
verify_strict-once_example =
    verify_strict-once gate gate 5000 6000 input input sample_key sample_key nonce_world
      (record nonce_world { attestation_nonces = [] }) hardware_verdict (accepted []) refl
