-- ===== src/Broker/Pairwise.antt =====
-- apps/broker/src/trust/pairwise.service.ts, and the minting of tokens of
-- apps/broker/src/modules/oidc/token.service.ts as the claims that are signed.
use Prim.Native.String.{String}
use sdidfy.Prelude.{
  ℕ, ◌/◌, Bool, true, false, err, ◌&&◌, List, ◌∷◌, Option, none, some, same, if◌then◌else◌,
}
use sdidfy.Shared.Assurance.{AssuranceLevel}
use sdidfy.Broker.World.{World, RelyingParty, PairwiseSubject}
use sdidfy.Broker.Table.{first, any}
use sdidfy.Broker.Handler.{Handler, ◌>>=◌, ◌>>◌, pure, gets, modify, lift}
use sdidfy.Shared.Errors.{other_error}
use sdidfy.Broker.Environment.{Environment}

unfoldable pub derive_subject : Environment → String → String → String
derive_subject env pairwise_salt citizen_id = env.hmac_sha256 pairwise_salt citizen_id

-- INSERT ... ON CONFLICT DO NOTHING, on the unique index of (rp_id, subject).
abbrev pub insert_subject : PairwiseSubject → World → World
insert_subject row w =
    if any (λ s. same s.rp_id row.rp_id && same s.subject row.subject) w.subjects
    then w
    else record w { subjects = row ∷ w.subjects }

abbrev pub keep_subject : Option PairwiseSubject → String → String → String → Handler String
keep_subject (some row) citizen_id rp_id subject = pure row.subject
keep_subject none citizen_id rp_id subject = do
  modify (insert_subject (record { citizen_id = citizen_id; rp_id = rp_id; subject = subject }))
  pure subject

unfoldable pub subject_for : Environment → String → String → String → Handler String
unfolding derive_subject
subject_for env citizen_id rp_id pairwise_salt = do
  existing ← gets (λ w. first (λ s. same s.citizen_id citizen_id && same s.rp_id rp_id) w.subjects)
  keep_subject existing citizen_id rp_id (derive_subject env pairwise_salt citizen_id)

abbrev pub citizen_of : Option PairwiseSubject → Option String
citizen_of none = none
citizen_of (some s) = some s.citizen_id

unfoldable pub citizen_for_subject : String → String → Handler (Option String)
citizen_for_subject rp_id subject =
    gets (λ w. citizen_of (first (λ s. same s.rp_id rp_id && same s.subject subject) w.subjects))

-- The claims of the id token and of the access token; `auth_time` is in seconds.
pub record Tokens : Type 0 where
  pub sub : String
  pub audience : String
  pub acr : AssuranceLevel
  pub auth_time : ℕ
  pub nonce : Option String
  pub scopes : List String

-- `keys.signJwt` of the id token and then of the access token: either throws what custody threw.
abbrev pub sign_both : Bool → Handler (Unit {0})
sign_both true = pure tt
sign_both false = lift (err other_error)

unfoldable pub mint :
    Environment
    → ℕ
    → RelyingParty
    → String
    → List String
    → AssuranceLevel
    → ℕ
    → Option String
    → Handler Tokens
mint env now rp citizen_id scopes acr auth_time nonce = do
  sub ← subject_for env citizen_id rp.id rp.pairwise_salt
  sign_both (env.signs_at now)
  pure (record {
    sub = sub;
    audience = rp.client_id;
    acr = acr;
    auth_time = auth_time / 1000;
    nonce = nonce;
    scopes = scopes;
  })
