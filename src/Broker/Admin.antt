-- ===== src/Broker/Admin.antt =====
-- apps/broker/src/modules/rp/admin.controller.ts and admin.guard.ts. What uuidv7 and randomBytes give is
-- an argument. The numbers in the audit row of a sweep are left out.
pub mod Clients
pub mod Subjects
use Prim.Native.String.{String}
use sdidfy.Prelude.{
  after_prefix, ℕ, Bool, true, false, not, ◌&&◌, ◌||◌, List, [], ◌∷◌, Option, none, some, Result,
  ok, err, ◌==◌, same, if◌then◌else◌,
}
use sdidfy.Shared.Assurance.{AssuranceLevel}
use sdidfy.Shared.Errors.{Thrown, bridge_error, access_denied, invalid_request, other_error}
use sdidfy.Broker.World.{World, Citizen, RelyingParty}
use sdidfy.Broker.Table.{first, update, any}
use sdidfy.Broker.Handler.{
  Handler, ◌>>=◌, ◌>>◌, pure, refuse_if, present, gets, modify, append, event, lift,
}
use sdidfy.Broker.Environment.{Environment}
use sdidfy.Broker.Pairwise.{subject_for}
use sdidfy.Broker.Reverification.{Sdid, SweepReport, sweep}

abbrev pub or_empty : Option String → String
or_empty none = ""
or_empty (some header) = header

abbrev pub is_token : String → Option String → Bool
is_token expected none = false
is_token expected (some token) = not (same token "") && same token expected

unfoldable pub admin_can_activate : String → Option String → Result Thrown (Unit {0})
unfolding after_prefix
admin_can_activate expected authorization =
    if is_token expected (after_prefix "Bearer " (or_empty authorization))
    then ok tt
    else err (bridge_error access_denied 401)

-- `@UseGuards(AdminGuard)`
unfoldable pub as_admin : {A : Type 0} → String → Option String → Handler A → Handler A
unfolding admin_can_activate
as_admin expected authorization m = do lift (admin_can_activate expected authorization); m

pub record RegisterRpRequest : Type 0 where
  pub name : String
  pub allowed_scopes : List String
  pub max_assurance : AssuranceLevel
  pub allowed_flows : List String
  pub redirect_uris : List String

pub record RegisterRpResponse : Type 0 where
  pub rp_id : String
  pub client_id : String
  pub client_secret : String

-- The row of a registration.
abbrev pub registered : Environment → RegisterRpRequest → RegisterRpResponse → String → RelyingParty
registered env body made pairwise_salt = record {
  id = made.rp_id;
  client_id = made.client_id;
  name = body.name;
  client_secret_hash = some (env.sha256_hex made.client_secret);
  allowed_scopes = body.allowed_scopes;
  max_assurance = body.max_assurance;
  allowed_flows = body.allowed_flows;
  redirect_uris = body.redirect_uris;
  is_active = true;
  pairwise_salt = pairwise_salt;
}

-- The identifier and the client id are each unique in the table.
abbrev pub is_taken : RelyingParty → RelyingParty → Bool
is_taken row r = same r.id row.id || same r.client_id row.client_id

abbrev pub insert_party : RelyingParty → Handler (Unit {0})
insert_party row w =
    if any (is_taken row) w.parties
    then (err other_error, w)
    else (ok tt, record w { parties = row ∷ w.parties })

unfoldable pub register_rp :
    Environment → RegisterRpRequest → RegisterRpResponse → String → Handler RegisterRpResponse
register_rp env body made pairwise_salt = do
  insert_party (registered env body made pairwise_salt)
  append (record (event "admin" none "rp.registered" "success") {
    rp_id = some made.rp_id;
    context =
        ("name", body.name ∷ [])
        ∷ ("clientId", made.client_id ∷ [])
        ∷ ("allowedScopes", body.allowed_scopes)
        ∷ ("allowedFlows", body.allowed_flows)
        ∷ [];
  })
  pure made

abbrev pub suspend_row : RelyingParty → RelyingParty
suspend_row r = record r { is_active = false }

unfoldable pub suspend_rp : String → Handler String
suspend_rp rp_id = do
  updated ← gets (λ w. any (λ r. same r.id rp_id) w.parties)
  modify (λ w. record w { parties = update (λ r. same r.id rp_id) suspend_row w.parties })
  refuse_if (not updated) invalid_request 404
  append (record (event "admin" none "rp.suspended" "success") { rp_id = some rp_id })
  pure rp_id

unfoldable pub provision_pairwise : Environment → String → String → Handler String
provision_pairwise env rp_id pseudo_nid = do
  rp_row ← gets (λ w. first (λ r. same r.id rp_id) w.parties)
  rp ← present rp_row invalid_request 404
  citizen_row ← gets (λ w. first (λ c. same c.pseudo_nid pseudo_nid) w.citizens)
  citizen ← present citizen_row invalid_request 404
  subject ← subject_for env citizen.id rp.id rp.pairwise_salt
  append (record (event "admin" none "admin.action" "success") {
    subject_ref = some citizen.id;
    rp_id = some rp.id;
    context = ("op", "provision-pairwise" ∷ []) ∷ [];
  })
  pure subject

unfoldable pub reverify_sweep : Environment → Sdid → ℕ → ℕ → Handler SweepReport
reverify_sweep env sdid now limit = do
  summary ← sweep env sdid now limit
  append (record (event "admin" none "admin.action" "success") {
    context = ("op", "reverify-sweep" ∷ []) ∷ [];
  })
  pure summary
