-- ===== src/Attestation/Samples.antt =====
-- Concrete certificates, keys and requests for the tests of packages/attestation.
use sdidfy.Prelude.{ℕ, List, [], ◌∷◌, none, some, true, false}
use sdidfy.Prelude.Int.{pos}
use sdidfy.Attestation.Texts.{Text, codes}
use sdidfy.Attestation.Node.{PublicKey, Certificate, NodeCrypto}
use sdidfy.Attestation.Verdict.{DeviceKey, AttestationRequest, default_max_token_age_ms}
use sdidfy.Attestation.Json.{
  Json, string_json, array_json, object_json, no_items, item, no_fields, field,
}
use sdidfy.Attestation.PlayIntegrity.{AndroidVerifier}
use sdidfy.Attestation.AppAttest.{IosVerifier}
use sdidfy.Attestation.KeyAttestation.{AndroidKeyAttestationInput}

abbrev pub sample_x : Text
sample_x = codes "AQEBAQEBAQEBAQEBAQEBAQEBAQEBAQEBAQEBAQEBAQE"

abbrev pub sample_y : Text
sample_y = codes "AgICAgICAgICAgICAgICAgICAgICAgICAgICAgICAgI"

abbrev pub sample_key : DeviceKey
sample_key = record { kty = codes "EC"; crv = codes "P-256"; x = sample_x; y = sample_y }

abbrev pub sample_public_key : PublicKey
sample_public_key = record {
  key_type = codes "ec";
  kty = some (codes "EC");
  crv = some (codes "P-256");
  x = some sample_x;
  y = some sample_y;
}

abbrev pub certificate_of : List ℕ → Certificate
certificate_of raw = record {
  raw = raw;
  valid_from = some (pos 0);
  valid_to = some (pos 9000);
  ca = true;
  public_key = sample_public_key;
}

-- The hash is the identity, which has no collisions, and every certificate is the one given.
abbrev pub crypto_of : Certificate → NodeCrypto
crypto_of cert = record {
  read_certificate = λ der. some cert;
  check_issued = λ child parent. none;
  verify = λ child key. none;
  sha256 = λ bytes. bytes;
  parse_json = λ text. none;
}

-- A certificate with the nonce extension of App Attest.
abbrev pub ios_raw : List ℕ
ios_raw =
    48 ∷ 129 ∷ 221 ∷ 48 ∷ 129 ∷ 218 ∷ 163 ∷ 129 ∷ 215 ∷ 48 ∷ 129 ∷ 212 ∷ 48 ∷ 129 ∷ 209 ∷ 6 ∷ 9 ∷ 42
    ∷ 134 ∷ 72 ∷ 134 ∷ 247 ∷ 99 ∷ 100 ∷ 8 ∷ 2 ∷ 4 ∷ 129 ∷ 195 ∷ 48 ∷ 129 ∷ 192 ∷ 161 ∷ 129 ∷ 189 ∷ 4
    ∷ 129 ∷ 186 ∷ 65 ∷ 66 ∷ 67 ∷ 68 ∷ 69 ∷ 49 ∷ 50 ∷ 51 ∷ 52 ∷ 53 ∷ 46 ∷ 114 ∷ 119 ∷ 46 ∷ 103 ∷ 111
    ∷ 118 ∷ 46 ∷ 115 ∷ 100 ∷ 105 ∷ 100 ∷ 46 ∷ 105 ∷ 100 ∷ 102 ∷ 121 ∷ 46 ∷ 100 ∷ 101 ∷ 109 ∷ 111
    ∷ 64 ∷ 0 ∷ 0 ∷ 0 ∷ 0 ∷ 97 ∷ 112 ∷ 112 ∷ 97 ∷ 116 ∷ 116 ∷ 101 ∷ 115 ∷ 116 ∷ 0 ∷ 0 ∷ 0 ∷ 0 ∷ 0 ∷ 0
    ∷ 0 ∷ 0 ∷ 65 ∷ 4 ∷ 1 ∷ 1 ∷ 1 ∷ 1 ∷ 1 ∷ 1 ∷ 1 ∷ 1 ∷ 1 ∷ 1 ∷ 1 ∷ 1 ∷ 1 ∷ 1 ∷ 1 ∷ 1 ∷ 1 ∷ 1 ∷ 1 ∷ 1
    ∷ 1 ∷ 1 ∷ 1 ∷ 1 ∷ 1 ∷ 1 ∷ 1 ∷ 1 ∷ 1 ∷ 1 ∷ 1 ∷ 1 ∷ 2 ∷ 2 ∷ 2 ∷ 2 ∷ 2 ∷ 2 ∷ 2 ∷ 2 ∷ 2 ∷ 2 ∷ 2 ∷ 2
    ∷ 2 ∷ 2 ∷ 2 ∷ 2 ∷ 2 ∷ 2 ∷ 2 ∷ 2 ∷ 2 ∷ 2 ∷ 2 ∷ 2 ∷ 2 ∷ 2 ∷ 2 ∷ 2 ∷ 2 ∷ 2 ∷ 2 ∷ 2 ∷ 110 ∷ 4 ∷ 1
    ∷ 1 ∷ 1 ∷ 1 ∷ 1 ∷ 1 ∷ 1 ∷ 1 ∷ 1 ∷ 1 ∷ 1 ∷ 1 ∷ 1 ∷ 1 ∷ 1 ∷ 1 ∷ 1 ∷ 1 ∷ 1 ∷ 1 ∷ 1 ∷ 1 ∷ 1 ∷ 1 ∷ 1
    ∷ 1 ∷ 1 ∷ 1 ∷ 1 ∷ 1 ∷ 1 ∷ 1 ∷ 2 ∷ 2 ∷ 2 ∷ 2 ∷ 2 ∷ 2 ∷ 2 ∷ 2 ∷ 2 ∷ 2 ∷ 2 ∷ 2 ∷ 2 ∷ 2 ∷ 2 ∷ 2 ∷ 2
    ∷ 2 ∷ 2 ∷ 2 ∷ 2 ∷ 2 ∷ 2 ∷ 2 ∷ 2 ∷ 2 ∷ 2 ∷ 2 ∷ 2 ∷ 2 ∷ 2 ∷ 2 ∷ []

abbrev pub ios_crypto : NodeCrypto
ios_crypto = crypto_of (certificate_of ios_raw)

abbrev pub ios_config : IosVerifier
ios_config = record {
  app_id = codes "ABCDE12345.rw.gov.sdid.idfy.demo";
  production = true;
  anchors = certificate_of ios_raw ∷ [];
}

abbrev pub ios_request : AttestationRequest
ios_request = record {
  token =
      codes
        "o2NmbXRvYXBwbGUtYXBwYXR0ZXN0Z2F0dFN0bXShY3g1Y4FBB2hhdXRoRGF0YVh4QUJDREUxMjM0NS5ydy5nb3Yuc2RpZC5pZGZ5LmRlbW9AAAAAAGFwcGF0dGVzdAAAAAAAAAAAQQQBAQEBAQEBAQEBAQEBAQEBAQEBAQEBAQEBAQEBAQEBAQICAgICAgICAgICAgICAgICAgICAgICAgICAgICAgIC";
  key_attestation = none;
  expected_nonce = codes "n";
  device_key = sample_key;
  now = 5000;
}

-- A certificate with the key description of an Android key in a TEE.
abbrev pub android_raw : List ℕ
android_raw =
    48 ∷ 96 ∷ 48 ∷ 94 ∷ 163 ∷ 92 ∷ 48 ∷ 90 ∷ 48 ∷ 88 ∷ 6 ∷ 10 ∷ 43 ∷ 6 ∷ 1 ∷ 4 ∷ 1 ∷ 214 ∷ 121 ∷ 2
    ∷ 1 ∷ 17 ∷ 4 ∷ 74 ∷ 48 ∷ 72 ∷ 2 ∷ 1 ∷ 3 ∷ 10 ∷ 1 ∷ 2 ∷ 2 ∷ 1 ∷ 4 ∷ 10 ∷ 1 ∷ 1 ∷ 4 ∷ 1 ∷ 110 ∷ 4
    ∷ 0 ∷ 48 ∷ 29 ∷ 191 ∷ 133 ∷ 69 ∷ 25 ∷ 4 ∷ 23 ∷ 48 ∷ 21 ∷ 49 ∷ 14 ∷ 48 ∷ 12 ∷ 4 ∷ 7 ∷ 114 ∷ 119
    ∷ 46 ∷ 115 ∷ 100 ∷ 105 ∷ 100 ∷ 2 ∷ 1 ∷ 1 ∷ 49 ∷ 3 ∷ 4 ∷ 1 ∷ 7 ∷ 48 ∷ 22 ∷ 191 ∷ 133 ∷ 62 ∷ 3 ∷ 2
    ∷ 1 ∷ 0 ∷ 191 ∷ 133 ∷ 64 ∷ 11 ∷ 48 ∷ 9 ∷ 4 ∷ 1 ∷ 107 ∷ 1 ∷ 1 ∷ 255 ∷ 10 ∷ 1 ∷ 0 ∷ []

abbrev pub android_crypto : NodeCrypto
android_crypto = crypto_of (certificate_of android_raw)

abbrev pub android_input : AndroidKeyAttestationInput
android_input = record {
  key_attestation = codes "Bw==";
  expected_nonce = codes "n";
  device_key = sample_key;
  package_name = codes "rw.sdid";
  certificate_digests = codes "Bw==" ∷ [];
  now = 5000;
  trust_anchors = certificate_of android_raw ∷ [];
}

abbrev pub play_answer : Json
play_answer = object_json (
    field (codes "requestDetails")
      (object_json (
        field (codes "requestPackageName") (string_json (codes "rw.sdid")) (
          field (codes "nonce") (string_json (codes "n"))
            (field (codes "timestampMillis") (string_json (codes "4000")) no_fields))))
      (field (codes "appIntegrity")
        (object_json (
          field (codes "appRecognitionVerdict") (string_json (codes "PLAY_RECOGNIZED")) (
            field (codes "certificateSha256Digest")
              (array_json (item (string_json (codes "Bw==")) no_items)) no_fields)))
        (field (codes "deviceIntegrity")
          (object_json (
            field (codes "deviceRecognitionVerdict")
              (array_json (item (string_json (codes "MEETS_DEVICE_INTEGRITY")) no_items))
              no_fields))
          no_fields)))

abbrev pub android_config : AndroidVerifier
android_config = record {
  package_name = codes "rw.sdid";
  certificate_digests = codes "Bw==" ∷ [];
  decode_token = λ token. some play_answer;
  require_strong_box = false;
  max_token_age_ms = default_max_token_age_ms;
  anchors = certificate_of android_raw ∷ [];
}

abbrev pub android_request : AttestationRequest
android_request = record {
  token = codes "t";
  key_attestation = some (codes "Bw==");
  expected_nonce = codes "n";
  device_key = sample_key;
  now = 5000;
}
