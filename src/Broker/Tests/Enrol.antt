-- ===== src/Broker/Tests/Enrol.antt =====
-- A whole enrolment of apps/broker in strict mode.
use Prim.Native.String.{String}
use sdidfy.Prelude.{true, false, [], ◌∷◌}
use sdidfy.MatchEngine.{BiometricReference, mock}
use sdidfy.Broker.World.{World, Jwk}
use sdidfy.Broker.Challenge.{IssuedChallenge}
use sdidfy.Broker.Enrolment.{StartRequest, ReferenceAnswer, reference_found, FreshNames, start}
use sdidfy.Broker.Samples.{env}
use sdidfy.Broker.Tests.Attested.{gate, nonce_world, input}

abbrev hardware_jwk : Jwk
hardware_jwk = record {
  kty = "EC";
  crv = "P-256";
  x = "AQEBAQEBAQEBAQEBAQEBAQEBAQEBAQEBAQEBAQEBAQE";
  y = "AgICAgICAgICAgICAgICAgICAgICAgICAgICAgICAgI";
}

abbrev request : StartRequest
request = record {
  pseudo_nid = "p2";
  ip = "ip";
  attestation = input;
  device_pubkey = hardware_jwk;
  device_label = "tablet";
  is_fingerprint = false;
  sample = record { bytes = 1 ∷ 2 ∷ []; has_method = true; liveness = 900 };
}

abbrev names : FreshNames
names = record { citizen_id = "c2"; binding_id = "b2"; challenge_id = "ch7"; nonce = "n7" }

abbrev template : BiometricReference
template = record { bytes = 1 ∷ 2 ∷ []; format = mock }

abbrev answer : ReferenceAnswer
answer = reference_found template "s-2" "txn"

abbrev challenge : IssuedChallenge
challenge = record {
  challenge_id = "ch7";
  nonce = "n7";
  payload = "sdid-bridge:v1:activation:ch7:n7";
  expires_at = 65000;
}

abbrev enrolled_world : World
enrolled_world = (start env gate 5000 names request answer nonce_world).1
