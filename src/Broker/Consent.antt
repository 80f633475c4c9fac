-- ===== src/Broker/Consent.antt =====
-- apps/broker/src/modules/consent/consent.service.ts.
pub mod History
pub mod Keyed
pub mod Refinement
pub mod Registry
use Prim.Native.String.{String}
use sdidfy.Prelude.{
  ℕ, Bool, true, false, ◌&&◌, List, [], ◌∷◌, Option, none, some, same, some_of, every, includes,
  if◌then◌else◌,
}
use sdidfy.Shared.Errors.{invalid_request}
use sdidfy.Broker.World.{World, ConsentGrant}
use sdidfy.Broker.Table.{first, rows, update}
use sdidfy.Broker.Handler.{Handler, ◌>>=◌, ◌>>◌, pure, present, gets, modify, append, event}

abbrev pub is_none : {A : Type 0} → Option A → Bool
is_none none = true
is_none (some a) = false

-- INSERT into `consent_grants`.
abbrev pub insert_grant : ℕ → String → String → String → List String → String → Handler (Unit {0})
insert_grant now id citizen_id rp_id scopes source = modify (λ w. record w {
  grants =
      record {
        id = id;
        citizen_id = citizen_id;
        rp_id = rp_id;
        scopes = scopes;
        source = source;
        granted_at = now;
        revoked_at = none;
      }
      ∷ w.grants;
})

unfoldable pub record_grant : ℕ → String → String → String → List String → String → Handler String
record_grant now id citizen_id rp_id scopes source = do
  insert_grant now id citizen_id rp_id scopes source
  append (record (event "citizen" (some citizen_id) "consent.granted" "success") {
    subject_ref = some citizen_id;
    rp_id = some rp_id;
    context = ("consentId", id ∷ []) ∷ ("scopes", scopes) ∷ ("source", source ∷ []) ∷ [];
  })
  pure id

-- `and(eq(citizenId), eq(rpId), isNull(revokedAt))`
abbrev pub is_live_grant : String → String → ConsentGrant → Bool
is_live_grant citizen_id rp_id g =
    same g.citizen_id citizen_id && same g.rp_id rp_id && is_none g.revoked_at

-- `rows.some((grant) => scopes.every((s) => grant.scopes.includes(s)))`
abbrev pub covered : List String → List ConsentGrant → Bool
covered scopes grants = some_of (λ g. every (λ s. includes g.scopes s) scopes) grants

unfoldable pub has_active_grant : String → String → List String → Handler Bool
has_active_grant citizen_id rp_id scopes =
    gets (λ w. covered scopes (rows (is_live_grant citizen_id rp_id) w.grants))

-- The inner join with `relying_parties` is left to the reader of the rows.
unfoldable pub list_grants : String → Handler (List ConsentGrant)
list_grants citizen_id = gets (λ w. rows (λ g. same g.citizen_id citizen_id) w.grants)

abbrev pub revoke_row : ℕ → ConsentGrant → ConsentGrant
revoke_row now g = record g { revoked_at = some now }

unfoldable pub revoke_grant : ℕ → String → String → Handler (Unit {0})
revoke_grant now citizen_id consent_id = do
  found ← gets (λ w. first (λ g. same g.id consent_id && same g.citizen_id citizen_id) w.grants)
  grant ← present found invalid_request 404
  if is_none grant.revoked_at
      then (do
        modify (λ w. record w {
          grants = update (λ g. same g.id consent_id) (revoke_row now) w.grants;
        })
        append (record (event "citizen" (some citizen_id) "consent.revoked" "success") {
          subject_ref = some citizen_id;
          rp_id = some grant.rp_id;
          context = ("consentId", consent_id ∷ []) ∷ [];
        }))
      else pure tt
