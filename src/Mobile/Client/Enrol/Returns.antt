-- ===== src/Mobile/Client/Enrol/Returns.antt =====
-- client.ts: what an `enrol` that succeeded has sent and signed.
use Prim.Native.String.{String}
use sdidfy.Prelude.{◌≤◌, ◌≡◌, true, ◌∷◌, ok}
use sdidfy.Shared.Assurance.{AssuranceLevel}
use sdidfy.Shared.Protocol.{activation, build_challenge_payload}
use sdidfy.Mobile.Wire.{
  Call, Remote, Started, ask_attestation_nonce, send_start, send_activation, nonce_reply,
  started_reply, activated_reply,
}
use sdidfy.Mobile.Client.{Phone}
use sdidfy.Mobile.Client.Enrol.{
  Device, EnrolInput, GeneratedKey, Attested, is_nid, security_rank, start_body,
}
use sdidfy.Mobile.Client.Enrol.Steps.{IsCapable}

abbrev pub activation_text : Started → String
activation_text started =
    build_challenge_payload activation started.challenge.challenge_id started.challenge.nonce

abbrev pub activation_of : Started → String → Call
activation_of started signature =
    send_activation started.binding_id started.challenge.challenge_id signature

-- The exchange of an enrolment that took the phone from `s` to `t`.
pub record IsEnrolment (remote : Remote) (device : Device) (input : EnrolInput) (s t : Phone)
    (id : String) (level : AssuranceLevel) : Type 0 where
  pub nonce_id : String
  pub nonce : String
  pub key : GeneratedKey
  pub attested : Attested
  pub dto : String
  pub started : Started
  pub signature : String
  pub well_formed : is_nid input.nid ≡ true
  pub capable : IsCapable device
  pub minted : remote.broker s.sent ask_attestation_nonce ≡ ok (nonce_reply nonce_id nonce)
  pub generated : device.generate nonce ≡ ok key
  pub secure : security_rank device.min_security ≤ security_rank key.security_level
  pub covered : device.attest nonce key ≡ ok attested
  pub answered :
      remote.broker
        (ask_attestation_nonce ∷ s.sent)
        (send_start (start_body input key attested nonce_id dto))
      ≡ ok (started_reply started)
  pub proved : remote.key_store s.signed (activation_text started) ≡ ok signature
  pub activated :
      remote.broker
        (send_start (start_body input key attested nonce_id dto) ∷ ask_attestation_nonce ∷ s.sent)
        (activation_of started signature)
      ≡ ok (activated_reply id)
  pub reported : started.assurance_level ≡ level
  pub sent_all :
      t.sent
      ≡ activation_of started signature
        ∷ send_start (start_body input key attested nonce_id dto)
        ∷ ask_attestation_nonce
        ∷ s.sent
  pub signed_one : t.signed ≡ activation_text started ∷ s.signed
