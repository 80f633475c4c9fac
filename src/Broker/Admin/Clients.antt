-- ===== src/Broker/Admin/Clients.antt =====
-- admin.controller.ts together with rp.service.ts: what a registration and a suspension mean for the
-- client's own requests.
use Prim.Native.String.{String}
use mathlib.Core.Path.{subst}
use mathlib.Core.Bool.{true≢false}
use sdidfy.Prelude.{
  ◌≡◌, ◌≢◌, refl, sym, ap, ◌∙◌, Bool, true, false, List, [], ◌∷◌, Option, none, some, ok, arith,
  same, same_iff, same_refl, Bool-cases, Option-cases, inl, inr, err-ne-ok, ok-injective,
}
use sdidfy.Broker.World.{World, RelyingParty}
use sdidfy.Broker.Table.{first, update, any}
use sdidfy.Broker.Handler.{◌>>=◌}
use sdidfy.Broker.Environment.{Environment}
use sdidfy.Broker.Token.{authenticate_client}
use sdidfy.Broker.Admin.{
  RegisterRpRequest, RegisterRpResponse, registered, register_rp, is_taken, suspend_row, suspend_rp,
}

-- A registration that succeeds answers with credentials that authenticate the new relying party.
pub authenticate_client-register_rp :
    (env : Environment) (body : RegisterRpRequest) (made answer : RegisterRpResponse)
    (salt : String) (w : World)
    → (register_rp env body made salt w).0 ≡ ok answer
    → (authenticate_client env
        (some (answer.client_id, answer.client_secret))
        (register_rp env body made salt w).1).0
      ≡ ok (registered env body made salt)
unfolding authenticate_client register_rp ◌>>=◌
authenticate_client-register_rp env body made answer salt w e =
    elim (Bool-cases (any (is_taken (registered env body made salt)) w.parties)) [
      | inl taken ↦ absurd (err-ne-ok (rw taken at e))
      | inr free ↦
          let as_made : made ≡ answer = ok-injective (rw free at e) in
          subst
            (λ (a : RegisterRpResponse).
              (authenticate_client env (some (a.client_id, a.client_secret))
                (register_rp env body made salt w).1).0
              ≡ ok (registered env body made salt))
            as_made
            (rw (free, same_refl made.client_id, same_refl (env.sha256_hex made.client_secret))
              refl)
    ]

first-update_suspended :
    (p : RelyingParty → Bool) (id : String) (rs : List RelyingParty) (r : RelyingParty)
    → first p (update (λ r. same r.id id) suspend_row rs) ≡ some r
    → r.id ≡ id
    → r.is_active ≡ false
first-update_suspended p id [] r e same_id = absurd cc
first-update_suspended p id (s ∷ rs) r e same_id = elim (Bool-cases (same s.id id)) [
  | inl hit ↦ elim (Bool-cases (p (suspend_row s))) [
    | inl here ↦
        let this : suspend_row s ≡ r = ground (arith, hit, here, e) in
        sym (ap RelyingParty.is_active this)
    | inr past ↦ first-update_suspended p id rs r (ground (arith, hit, past, e)) same_id
  ]
  | inr miss ↦ elim (Bool-cases (p s)) [
    | inl here ↦
        let this : s ≡ r = ground (arith, miss, here, e) in
        absurd (true≢false (sym ((same_iff s.id id).1 (ap RelyingParty.id this ∙ same_id)) ∙ miss))
    | inr past ↦ first-update_suspended p id rs r (ground (arith, miss, past, e)) same_id
  ]
]

authenticate_client-found :
    (env : Environment) (client_id secret : String) (w : World) (rp : RelyingParty)
    → (authenticate_client env (some (client_id, secret)) w).0 ≡ ok rp
    → (first (λ r. same r.client_id client_id) w.parties ≡ some rp) × (rp.is_active ≡ true)
unfolding authenticate_client ◌>>=◌
authenticate_client-found env client_id secret w rp e =
    elim (Option-cases (first (λ r. same r.client_id client_id) w.parties)) [
      | inl gone ↦ absurd (err-ne-ok (rw gone at e))
      | inr (r, found) ↦ elim (Option-cases r.client_secret_hash) [
        | inl unset ↦ absurd (err-ne-ok (rw (found, unset) at e))
        | inr (hash, stored) ↦ elim (Bool-cases (same (env.sha256_hex secret) hash)) [
          | inl right ↦ elim (Bool-cases r.is_active) [
            | inl on ↦
                let this : r ≡ rp = ground (arith, found, stored, right, on, e) in
                (found ∙ ap some this, ap RelyingParty.is_active (sym this) ∙ on)
            | inr off ↦ absurd (err-ne-ok (rw (found, stored, right, off) at e))
          ]
          | inr wrong ↦ absurd (err-ne-ok (rw (found, stored, wrong) at e))
        ]
      ]
    ]

suspend_rp-parties :
    (rp_id : String) (w : World)
    → (suspend_rp rp_id w).1.parties ≡ update (λ r. same r.id rp_id) suspend_row w.parties
unfolding suspend_rp ◌>>=◌
suspend_rp-parties rp_id w = elim (Bool-cases (any (λ r. same r.id rp_id) w.parties)) [
  | inl known ↦ rw known refl
  | inr unknown ↦ rw unknown refl
]

-- From the suspension of a relying party on, no request authenticates as it, whichever credentials the
-- request bears.
pub suspend_rp-bars :
    (env : Environment) (rp_id : String) (creds : Option (String × String)) (w : World)
    (rp : RelyingParty)
    → (authenticate_client env creds (suspend_rp rp_id w).1).0 ≡ ok rp
    → rp.id ≢ rp_id
unfolding authenticate_client ◌>>=◌
suspend_rp-bars env rp_id none w rp e same_id = absurd (err-ne-ok e)
suspend_rp-bars env rp_id (some (client_id, secret)) w rp e same_id =
    let f = authenticate_client-found env client_id secret (suspend_rp rp_id w).1 rp e in
    let rows : (suspend_rp rp_id w).1.parties
        ≡ update (λ r. same r.id rp_id) suspend_row w.parties =
      suspend_rp-parties rp_id w in
    let off =
      first-update_suspended (λ r. same r.client_id client_id) rp_id w.parties rp
        (ap (first (λ r. same r.client_id client_id)) (sym rows) ∙ f.0) same_id in
    true≢false (sym f.1 ∙ off)
