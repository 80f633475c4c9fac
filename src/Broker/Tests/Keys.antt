-- ===== src/Broker/Tests/Keys.antt =====
-- Runs of the operations of keys.service.ts that call custody.
use sdidfy.Prelude.{
  length, ◌+◌, arith, ◌++◌, ◌^◌, ℕ, Bool, true, [], ◌∷◌, some, Result, ok, ◌≡◌, ◌==◌, refl,
}
use sdidfy.Broker.Custody.{
  RemoteCustodyAdapter, Rotated, key_promoted, key_retired, init, reload, load_each, cache, cached,
  to_public_jwk, list_public_jwks, custody_sign, custody_rotate, health_check,
}
use sdidfy.Broker.Custody.Published.{built, later, inits, CustodyReach-Publishes}
use sdidfy.Attestation.Digits.{be_bytes, digits}
use sdidfy.Attestation.Der.Writer.{write, write_tag, write_length, class_bits, form_bit}
use sdidfy.Broker.Jose.{
  normalize_ecdsa_signature, der_ecdsa_to_jose_signature, sequence_length, both_coordinates,
  read_integer, pad, trimmed,
}
use sdidfy.Broker.Jose.Converts.{fixed_width}
use sdidfy.Broker.Jose.RoundTrip.{signature_node, normalize_ecdsa_signature-write}
use sdidfy.Broker.Keys.{
  key_rotated, usage_summary, tally, subtract, usage_of, set_usage, delete_usage, signatures,
  signed, begin_flush, end_flush, note_health,
}
use sdidfy.Prelude.Int.{◌+ℤ◌, ◌-ℤ◌}
use sdidfy.Broker.Keys.Books.{closed_books}
use sdidfy.Broker.Keys.Boundary.{
  Boundary, TokenFormat, KeysError, ◌>>=◌, sign_compact_jws, probe_signing, drain,
  drain_lifecycle_events, flush_usage_summary, rotate,
}
use sdidfy.Broker.Keys.Ready.{IsReady, probe_signing-IsReady}
use sdidfy.Broker.Keys.Drained.{Drained, audited}
use sdidfy.Broker.Tests.Signing.{key_one, leaky, started}

abbrev format : TokenFormat
format = record {
  signing_input = λ kid claims. claims;
  verifies = λ jwks text signature. length signature == 64;
}

abbrev booted : Boundary
booted = record {
  service = record closed_books.service { usage = tally "k1" signatures [] };
  custody = started;
  public_jwks = [];
  pending_events = key_promoted "k1" ∷ key_retired "k0" ∷ [];
}

-- The probe of a service that has just booted, with a backend that answers.
abbrev probed : Result KeysError (Unit {0}) × Boundary
unfolding probe_signing ◌>>=◌ sign_compact_jws init reload load_each cache cached to_public_jwk
    list_public_jwks custody_sign normalize_ecdsa_signature der_ecdsa_to_jose_signature
    sequence_length both_coordinates read_integer pad trimmed health_check note_health signed tally
    usage_of set_usage
probed = probe_signing format (leaky (key_one ∷ [])) (leaky []) "claims" 1000 true true booted

probe_signing-IsReady_example :
    IsReady format
      (leaky [])
      "claims"
      (health_check (leaky (key_one ∷ [])) booted.custody).1
      probed.1.public_jwks
unfolding probe_signing ◌>>=◌ sign_compact_jws init reload load_each cache cached to_public_jwk
    list_public_jwks custody_sign normalize_ecdsa_signature der_ecdsa_to_jose_signature
    sequence_length both_coordinates read_integer pad trimmed health_check note_health signed tally
    usage_of set_usage
probe_signing-IsReady_example =
    probe_signing-IsReady format (leaky (key_one ∷ [])) (leaky []) "claims" 1000 true true booted
      probed.1 (CustodyReach-Publishes started (later built (inits (leaky (key_one ∷ []))))) refl

-- The append of the second event fails.
abbrev first_only : ℕ → Bool
first_only n = n == 0

second_is_lost : (drain_lifecycle_events first_only booted).1.pending_events ≡ []
unfolding drain_lifecycle_events drain
second_is_lost = refl

abbrev rotation : Rotated
rotation = record { promoted_kid = "k2"; retired_kids = "k1" ∷ [] }

abbrev rotating : RemoteCustodyAdapter
rotating = record (leaky (record key_one { kid = "k2" } ∷ [])) {
  rotate_remote = some (ok rotation);
}

abbrev rotated : Result KeysError Rotated × Boundary
unfolding rotate ◌>>=◌ flush_usage_summary begin_flush end_flush subtract usage_of set_usage
    delete_usage custody_rotate init reload load_each cache cached to_public_jwk list_public_jwks
    drain_lifecycle_events drain tally
rotated = rotate rotating true (λ n. true) true booted

-- The summary of the old key comes first, and the events that waited come before those of the rotation.
rotation_runs : rotated ≡ (
  ok rotation,
  record booted {
    service = record booted.service {
      usage = [];
      rows =
          key_rotated rotation
          ∷ audited
              (key_promoted "k1" ∷ key_retired "k0" ∷ key_retired "k1" ∷ key_promoted "k2" ∷ [])
              (usage_summary (tally "k1" signatures []) ∷ []);
    };
    custody = rotated.1.custody;
    public_jwks = list_public_jwks rotated.1.custody;
    pending_events = [];
  },
)
unfolding rotate ◌>>=◌ flush_usage_summary begin_flush end_flush subtract usage_of set_usage
    delete_usage custody_rotate init reload load_each cache cached to_public_jwk list_public_jwks
    drain_lifecycle_events drain tally ◌+ℤ◌ ◌-ℤ◌
rotation_runs = refl

abbrev r_value : ℕ
r_value = 2 ^ 255 + 7

abbrev s_value : ℕ
s_value = 2 ^ 200

-- A number with its high bit set has a zero byte in front, and a short one is padded.
encoding_length : length (write (signature_node r_value s_value)) ≡ 65
unfolding write write_tag write_length class_bits form_bit be_bytes digits
encoding_length = refl

normalize_ecdsa_signature-write_example :
    normalize_ecdsa_signature (write (signature_node r_value s_value))
    ≡ ok (fixed_width 32 r_value ++ fixed_width 32 s_value)
normalize_ecdsa_signature-write_example =
    normalize_ecdsa_signature-write r_value s_value (omega arith) (omega arith) (omega arith)
      (omega arith) (omega (arith, encoding_length))
      (λ e. absurd (omega (arith, encoding_length, e)))
