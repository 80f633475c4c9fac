-- ===== src/Broker/Challenge/SingleUse.antt =====
-- Challenges of apps/broker/src/trust/challenge.service.ts are used at most once.
use Prim.Native.String.{String}
use sdidfy.Prelude.{
  ℕ, ◌+◌, ◌*◌, not, ◌||◌, ◌≤◌, ◌<◌, ◌≡◌, refl, ◌↔◌, sym, ap, Bool, Option, none, some, Result, ok,
  err, arith, same, same_iff, same_refl, lt→ltb, le→ltb,
}
use sdidfy.Shared.Errors.{Thrown, bridge_error, challenge_invalid}
use sdidfy.Shared.Protocol.{ChallengePurpose, purpose_string, build_challenge_payload}
use sdidfy.Broker.Store.{get, del, get-del, get-set}
use sdidfy.Broker.World.{World, ChallengeRecord}
use sdidfy.Broker.Handler.{Handler, present, refuse_if, pure, ◌>>=◌, ◌>>◌}
use sdidfy.Broker.Environment.{Environment}
use sdidfy.Broker.Challenge.{issue, consume, consume_ciba, Decision}

-- No clock reading finds a challenge under this id.
abbrev pub IsSpent : String → World → Type 0
IsSpent challenge_id w = (now : ℕ) → get now challenge_id w.challenges ≡ none

abbrev refused : {A : Type 0} → Result Thrown A
refused = err (bridge_error challenge_invalid 400)

-- However a consumption ends, the challenge is spent.
pub consume-IsSpent :
    (now : ℕ) (challenge_id : String) (p : ChallengePurpose) (binding_id : String) (w : World)
    → IsSpent challenge_id (consume now challenge_id p binding_id w).1
unfolding consume ◌>>=◌
consume-IsSpent now challenge_id p binding_id w later =
    ground (arith, get-del later challenge_id w.challenges)

pub consume_ciba-IsSpent :
    (now : ℕ) (challenge_id auth_req_id binding_id : String) (d : Decision) (w : World)
    → IsSpent challenge_id (consume_ciba now challenge_id auth_req_id binding_id d w).1
unfolding consume_ciba ◌>>=◌
consume_ciba-IsSpent now challenge_id auth_req_id binding_id d w later =
    ground (arith, get-del later challenge_id w.challenges)

-- A spent challenge is refused by every consumption, and stays spent.
pub consume-spent :
    (now : ℕ) (challenge_id : String) (p : ChallengePurpose) (binding_id : String) (w : World)
    → IsSpent challenge_id w
    → (consume now challenge_id p binding_id w).0 ≡ err (bridge_error challenge_invalid 400)
unfolding consume ◌>>=◌
consume-spent now challenge_id p binding_id w spent = ground (arith, spent now)

pub consume_ciba-spent :
    (now : ℕ) (challenge_id auth_req_id binding_id : String) (d : Decision) (w : World)
    → IsSpent challenge_id w
    → (consume_ciba now challenge_id auth_req_id binding_id d w).0
      ≡ err (bridge_error challenge_invalid 400)
unfolding consume_ciba ◌>>=◌
consume_ciba-spent now challenge_id auth_req_id binding_id d w spent = ground (arith, spent now)

-- The two decisions on one CIBA challenge exclude each other.
pub consume_ciba-once :
    (t : ℕ) (challenge_id auth_req_id b : String) (d : Decision) (w : World) (later : ℕ)
    (p' : ChallengePurpose) (auth_req_id' b' : String) (d' : Decision)
    → ((consume later challenge_id p' b' (consume_ciba t challenge_id auth_req_id b d w).1).0
        ≡ err (bridge_error challenge_invalid 400))
      × ((consume_ciba later challenge_id auth_req_id' b' d'
            (consume_ciba t challenge_id auth_req_id b d w).1).0
          ≡ err (bridge_error challenge_invalid 400))
consume_ciba-once t challenge_id auth_req_id b d w later p' auth_req_id' b' d' =
    let spent = consume_ciba-IsSpent t challenge_id auth_req_id b d w in
    let after = (consume_ciba t challenge_id auth_req_id b d w).1 in
    (
      consume-spent later challenge_id p' b' after spent,
      consume_ciba-spent later challenge_id auth_req_id' b' d' after spent,
    )

-- Exactly a live record with this purpose and binding is accepted, and the payload that the device
-- must have signed is the one of its nonce.
pub consume_iff :
    (now : ℕ) (challenge_id : String) (p : ChallengePurpose) (binding_id payload : String)
    (w : World)
    → ((consume now challenge_id p binding_id w).0 ≡ ok payload) ↔ (
        (nonce : String) × (get now challenge_id w.challenges
          ≡ some (record { purpose = purpose_string p; nonce = nonce; binding_id = binding_id }))
        × (payload ≡ build_challenge_payload p challenge_id nonce))
unfolding consume ◌>>=◌
consume_iff now challenge_id p binding_id payload w =
    judged_iff (get now challenge_id w.challenges)
      (record w { challenges = del challenge_id w.challenges })
  where
    fits : ChallengeRecord → Bool
    fits kept = not (same kept.purpose (purpose_string p)) || not (same kept.binding_id binding_id)

    judged : Option ChallengeRecord → Handler String
    judged o = present o challenge_invalid 400 >>= λ kept.
        refuse_if (fits kept) challenge_invalid 400
        >> pure (build_challenge_payload p challenge_id kept.nonce)

    kept_path :
        (kept : ChallengeRecord)
        → kept.purpose ≡ purpose_string p
        → kept.binding_id ≡ binding_id
        → kept ≡ record { purpose = purpose_string p; nonce = kept.nonce; binding_id = binding_id }
    kept_path kept g1 g2 = cc

    judged_iff :
        (o : Option ChallengeRecord) (v : World)
        → ((judged o v).0 ≡ ok payload) ↔ (
            (nonce : String) × (o
              ≡ some
                  (record { purpose = purpose_string p; nonce = nonce; binding_id = binding_id }))
            × (payload ≡ build_challenge_payload p challenge_id nonce))
    judged_iff none v = ((λ e. cc), λ (nonce, e, q). cc)
    judged_iff (some kept) v = (
      λ e.
          let (g1, g2, g3) : (kept.purpose ≡ purpose_string p)
              × (kept.binding_id ≡ binding_id)
              × (build_challenge_payload p challenge_id kept.nonce ≡ payload) =
            ground (
              arith,
              same_iff kept.purpose (purpose_string p),
              same_iff kept.binding_id binding_id,
              e,
            ) in
          (kept.nonce, ap some (kept_path kept g1 g2), sym g3),
      λ (nonce, e, q). ground (
        arith,
        same_iff kept.purpose (purpose_string p),
        same_iff kept.binding_id binding_id,
        e,
        q,
      ),
    )

-- What was issued is accepted for its purpose and binding until it expires, with the payload that
-- was handed out, and not from that moment on.
pub consume-issue :
    (env : Environment) (t later : ℕ) (challenge_id nonce : String) (p : ChallengePurpose)
    (b : String) (w : World)
    → (later < t + env.challenge_ttl * 1000
        → (consume later challenge_id p b (issue env t challenge_id nonce p b w).1).0
          ≡ ok (build_challenge_payload p challenge_id nonce))
      × (t + env.challenge_ttl * 1000 ≤ later
          → (consume later challenge_id p b (issue env t challenge_id nonce p b w).1).0
            ≡ err (bridge_error challenge_invalid 400))
unfolding consume issue ◌>>=◌
consume-issue env t later challenge_id nonce p b w =
    let kept : ChallengeRecord = record {
      purpose = purpose_string p;
      nonce = nonce;
      binding_id = b;
    } in
    let dies : ℕ = t + env.challenge_ttl * 1000 in
    let found = get-set later challenge_id kept (some dies) w.challenges in
    (
      λ before.
          rw (found, lt→ltb later dies before, same_refl (purpose_string p), same_refl b) refl,
      λ after. rw (found, le→ltb later dies after) refl,
    )
