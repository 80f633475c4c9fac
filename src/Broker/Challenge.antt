-- ===== src/Broker/Challenge.antt =====
-- apps/broker/src/trust/challenge.service.ts. The random ids and nonces are arguments.
pub mod SingleUse
use Prim.Native.String.{String, ◌++◌}
use sdidfy.Prelude.{ℕ, ◌+◌, ◌*◌, Bool, not, ◌||◌, Option, some, ok, same}
use sdidfy.Shared.Errors.{ErrorCode, challenge_invalid}
use sdidfy.Shared.Protocol.{
  ChallengePurpose, attestation, ciba_approve, ciba_deny, purpose_string, build_challenge_payload,
}
use sdidfy.Broker.Store.{Store, get, set, del}
use sdidfy.Broker.World.{World, ChallengeRecord}
use sdidfy.Broker.Handler.{Handler, ◌>>=◌, ◌>>◌, pure, refuse_if, present, modify}
use sdidfy.Broker.Environment.{Environment}

pub record IssuedChallenge : Type 0 where
  pub challenge_id : String
  pub nonce : String
  pub payload : String
  pub expires_at : ℕ

-- `redis.client.set('challenge:...', record, 'EX', ttl)`
abbrev pub keep_challenge : String → ChallengeRecord → ℕ → Handler (Unit {0})
keep_challenge challenge_id kept dies =
    modify (λ w. record w { challenges = set challenge_id kept (some dies) w.challenges })

-- `redis.client.getdel('challenge:...')`
abbrev pub take_challenge : ℕ → String → Handler (Option ChallengeRecord)
take_challenge now challenge_id w = (
  ok (get now challenge_id w.challenges),
  record w { challenges = del challenge_id w.challenges },
)

abbrev pub take_attestation_nonce : ℕ → String → Handler (Option ChallengeRecord)
take_attestation_nonce now nonce_id w = (
  ok (get now nonce_id w.attestation_nonces),
  record w { attestation_nonces = del nonce_id w.attestation_nonces },
)

unfoldable pub issue :
    Environment → ℕ → String → String → ChallengePurpose → String → Handler IssuedChallenge
issue env now challenge_id nonce purpose binding_id = do
  keep_challenge challenge_id
      (record { purpose = purpose_string purpose; nonce = nonce; binding_id = binding_id })
      (now + env.challenge_ttl * 1000)
  pure (record {
    challenge_id = challenge_id;
    nonce = nonce;
    payload = build_challenge_payload purpose challenge_id nonce;
    expires_at = now + env.challenge_ttl * 1000;
  })

unfoldable pub consume : ℕ → String → ChallengePurpose → String → Handler String
consume now challenge_id expected_purpose binding_id = do
  raw ← take_challenge now challenge_id
  kept ← present raw challenge_invalid 400
  refuse_if
      (not (same kept.purpose (purpose_string expected_purpose))
        || not (same kept.binding_id binding_id))
      challenge_invalid 400
  pure (build_challenge_payload expected_purpose challenge_id kept.nonce)

unfoldable pub issue_attestation_nonce :
    Environment → ℕ → String → String → Handler (String × (String × ℕ))
issue_attestation_nonce env now nonce_id nonce = do
  modify (λ w. record w {
    attestation_nonces =
        set nonce_id
          (record { purpose = purpose_string attestation; nonce = nonce; binding_id = "" })
          (some (now + env.attestation_nonce_ttl * 1000)) w.attestation_nonces;
  })
  pure (nonce_id, (nonce, now + env.attestation_nonce_ttl * 1000))

unfoldable pub consume_attestation_nonce : ℕ → String → Handler String
consume_attestation_nonce now nonce_id = do
  raw ← take_attestation_nonce now nonce_id
  kept ← present raw challenge_invalid 400
  refuse_if (not (same kept.purpose (purpose_string attestation))) challenge_invalid 400
  pure kept.nonce

pub data Decision : Type 0 where
  approve deny : Decision

abbrev pub ciba_purpose : Decision → String → ChallengePurpose
ciba_purpose approve auth_req_id = ciba_approve auth_req_id
ciba_purpose deny auth_req_id = ciba_deny auth_req_id

-- The challenge, and the payloads of the two decisions.
unfoldable pub issue_ciba :
    Environment
    → ℕ
    → String
    → String
    → String
    → String
    → Handler (IssuedChallenge × (String × String))
issue_ciba env now challenge_id nonce auth_req_id binding_id = do
  keep_challenge challenge_id
      (record { purpose = "ciba:" ++ auth_req_id; nonce = nonce; binding_id = binding_id })
      (now + env.challenge_ttl * 1000)
  let approve_payload = build_challenge_payload (ciba_approve auth_req_id) challenge_id nonce
  let deny_payload = build_challenge_payload (ciba_deny auth_req_id) challenge_id nonce
  pure (
    record {
      challenge_id = challenge_id;
      nonce = nonce;
      payload = approve_payload;
      expires_at = now + env.challenge_ttl * 1000;
    },
    (approve_payload, deny_payload),
  )

unfoldable pub consume_ciba : ℕ → String → String → String → Decision → Handler String
consume_ciba now challenge_id auth_req_id binding_id decision = do
  raw ← take_challenge now challenge_id
  kept ← present raw challenge_invalid 400
  refuse_if
      (not (same kept.purpose ("ciba:" ++ auth_req_id)) || not (same kept.binding_id binding_id))
      challenge_invalid 400
  pure (build_challenge_payload (ciba_purpose decision auth_req_id) challenge_id kept.nonce)
