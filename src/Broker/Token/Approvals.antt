-- ===== src/Broker/Token/Approvals.antt =====
-- The CIBA grant of apps/broker/src/modules/oidc/oidc.controller.ts on every status.
use Prim.Native.String.{String}
use sdidfy.Prelude.{
  ℕ, ◌/◌, Bool, ◌≡◌, refl, true, false, ◌&&◌, Option, none, some, ok, err, arith, same, same_iff,
  if◌then◌else◌, leb,
}
use sdidfy.Shared.Errors.{
  Thrown, other_error, bridge_error, expired_token, authorization_pending, access_denied,
  invalid_grant,
}
use sdidfy.Broker.Reverification.{or_else}
use sdidfy.Broker.World.{
  World, PairwiseSubject, RelyingParty, Binding, Transaction, TransactionStatus, pending, approved,
  denied, expired, consumed,
}
use sdidfy.Broker.Table.{first, any, update, any-update}
use sdidfy.Broker.Handler.{◌>>=◌}
use sdidfy.Broker.Environment.{Environment}
use sdidfy.Broker.Pairwise.{Tokens, mint, subject_for, derive_subject}
use sdidfy.Broker.Ciba.{is_approved}
use sdidfy.Broker.Token.{ciba_grant, binding_of}

abbrev pub refusal : ℕ → Transaction → TransactionStatus → Option Thrown
refusal now txn pending =
    some
      (bridge_error (if leb txn.expires_at now then expired_token else authorization_pending) 400)
refusal now txn expired = some (bridge_error expired_token 400)
refusal now txn denied = some (bridge_error access_denied 400)
refusal now txn consumed = some (bridge_error invalid_grant 400)
refusal now txn approved = none

module _ (env : Environment) (now : ℕ) (rp : RelyingParty) (grant_id auth_req_id : String)
    (txn : Transaction) (w : World) (wanted : same auth_req_id "" ≡ false)
    (found : first (λ t. same t.auth_req_id auth_req_id) w.transactions ≡ some txn) where
  -- Until the citizen has approved, the client is told what became of the request and gets no token.
  pub ciba_grant-refusal :
      (e : Thrown)
      → txn.rp_id ≡ rp.id
      → refusal now txn txn.status ≡ some e
      → (ciba_grant env now rp grant_id (some auth_req_id) w).0 ≡ err e
  unfolding ciba_grant ◌>>=◌
  ciba_grant-refusal e own refused =
      ground (arith, wanted, found, own, refused, same_iff txn.rp_id rp.id)

  -- A transaction of another client is answered like one that does not exist.
  pub ciba_grant-foreign :
      same txn.rp_id rp.id ≡ false
      → ciba_grant env now rp grant_id (some auth_req_id) w
        ≡ (err (bridge_error invalid_grant 400), w)
  unfolding ciba_grant ◌>>=◌
  ciba_grant-foreign other = rw (wanted, found, other) refl

  -- In a request that no other one interrupts, an approved request is redeemed, whether or not custody
  -- signs: no row of it is approved any more.
  -- Where custody signs, the tokens carry the live assurance level of the binding that approved it,
  -- the scopes of the request, the client as audience and the time of the approval in whole seconds;
  -- where it does not, the client gets an error and no token. Neither the flow that opened the
  -- transaction nor the flows that the client may use are asked for.
  pub ciba_grant-tokens :
      (b : Binding)
      → txn.rp_id ≡ rp.id
      → txn.status ≡ approved
      → binding_of txn.device_binding_id w ≡ some b
      → any (λ t. same t.id txn.id && is_approved t.status) w.transactions ≡ true
      → (t : Tokens) × ((ciba_grant env now rp grant_id (some auth_req_id) w).0
          ≡ (if env.signs_at now then ok t else err other_error))
        × (t.acr ≡ b.assurance_level)
        × (t.scopes ≡ txn.scopes)
        × (t.audience ≡ rp.client_id)
        × (t.auth_time ≡ or_else txn.resolved_at now / 1000)
        × (any
              (λ t. same t.id txn.id && is_approved t.status)
              (ciba_grant env now rp grant_id (some auth_req_id) w).1.transactions
            ≡ false)
  ciba_grant-tokens b own ready held there = (
    record {
      sub =
          subject (first (λ s. same s.citizen_id txn.citizen_id && same s.rp_id rp.id) w.subjects);
      audience = rp.client_id;
      acr = b.assurance_level;
      auth_time = or_else txn.resolved_at now / 1000;
      nonce = none;
      scopes = txn.scopes;
    },
    unfold ciba_grant mint subject_for derive_subject ◌>>=◌ in
        ground (arith, wanted, found, own, ready, held, there, same_iff txn.rp_id rp.id),
    refl,
    refl,
    refl,
    refl,
    unfold ciba_grant mint subject_for derive_subject ◌>>=◌ in
        ground (arith, wanted, found, own, ready, held, there, spent, same_iff txn.rp_id rp.id),
  )
    where
      subject : Option PairwiseSubject → String
      subject none = env.hmac_sha256 rp.pairwise_salt txn.citizen_id
      subject (some s) = s.subject

      off : (b : Bool) → (b && false) ≡ false
      off true = refl
      off false = refl

      spent :
          any
            (λ t. same t.id txn.id && is_approved t.status)
            (update
              (λ t. same t.id txn.id && is_approved t.status)
              (λ t. record t { status = consumed })
              w.transactions)
          ≡ false
      spent =
          any-update (λ t. same t.id txn.id && is_approved t.status)
            (λ t. record t { status = consumed }) w.transactions (λ t h. off (same t.id txn.id))
