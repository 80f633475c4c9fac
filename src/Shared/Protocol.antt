-- ===== src/Shared/Protocol.antt =====
-- packages/shared/src/protocol.ts: what a device signs.
use Prim.Native.String.{String, ◌++◌}

pub data ChallengePurpose : Type 0 where
  activation login attestation : ChallengePurpose
  ciba_approve ciba_deny : String → ChallengePurpose

unfoldable pub purpose_string : ChallengePurpose → String
purpose_string activation = "activation"
purpose_string login = "login"
purpose_string attestation = "attestation"
purpose_string (ciba_approve auth_req_id) = "ciba-approve:" ++ auth_req_id
purpose_string (ciba_deny auth_req_id) = "ciba-deny:" ++ auth_req_id

unfoldable pub build_challenge_payload : ChallengePurpose → String → String → String
unfolding purpose_string
build_challenge_payload purpose challenge_id nonce =
    "sdid-bridge:v1:" ++ (purpose_string purpose ++ (":" ++ (challenge_id ++ (":" ++ nonce))))
