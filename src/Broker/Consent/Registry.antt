-- ===== src/Broker/Consent/Registry.antt =====
-- The consent registry of apps/broker/src/modules/consent/consent.service.ts.
use Prim.Native.String.{String}
use sdidfy.Prelude.{
  ℕ, ◌≡◌, refl, Bool, true, false, not, ◌&&◌, List, [], ◌∷◌, none, some, ok, arith, same, same_refl,
  every, includes, Bool-cases, inl, inr,
}
use sdidfy.Broker.World.{World, ConsentGrant}
use sdidfy.Broker.Table.{first, any, rows, update}
use sdidfy.Broker.Handler.{◌>>=◌}
use sdidfy.Broker.Consent.{record_grant, has_active_grant, revoke_grant, is_live_grant, revoke_row}

every-weaken :
    (y : String) (ys zs : List String)
    → every (λ s. includes ys s) zs ≡ true
    → every (λ s. includes (y ∷ ys) s) zs ≡ true
every-weaken y ys [] e = refl
every-weaken y ys (z ∷ zs) e =
    let rest = every-weaken y ys zs (ground (arith, e)) in ground (arith, e, rest)

every-includes : (scopes : List String) → every (λ s. includes scopes s) scopes ≡ true
every-includes [] = refl
every-includes (x ∷ xs) = rw (same_refl x) (every-weaken x xs xs (every-includes xs))

rows-none : (p : ConsentGrant → Bool) (gs : List ConsentGrant) → any p gs ≡ false → rows p gs ≡ []
rows-none p [] e = refl
rows-none p (g ∷ gs) e = elim (Bool-cases (p g)) [
  | inl hit ↦ absurd (ground (arith, hit, e))
  | inr miss ↦ rw miss (rows-none p gs (ground (arith, miss, e)))
]

-- After the update of a row, only rows under other ids are live.
none_live :
    (citizen_id rp_id consent_id : String) (now : ℕ) (gs : List ConsentGrant)
    → any (λ h. is_live_grant citizen_id rp_id h && not (same h.id consent_id)) gs ≡ false
    → any (is_live_grant citizen_id rp_id) (update (λ g. same g.id consent_id) (revoke_row now) gs)
      ≡ false
none_live citizen_id rp_id consent_id now [] only = refl
none_live citizen_id rp_id consent_id now (g ∷ gs) only =
    let rest = none_live citizen_id rp_id consent_id now gs (ground (arith, only)) in
    elim (Bool-cases (same g.id consent_id)) [
      | inl mine ↦ ground (arith, mine, rest)
      | inr other ↦ ground (arith, other, rest, only)
    ]

-- A consent that is recorded covers its scopes at once.
pub has_active_grant-record_grant :
    (now : ℕ) (id citizen_id rp_id source : String) (scopes : List String) (w : World)
    → (has_active_grant citizen_id rp_id scopes
        (record_grant now id citizen_id rp_id scopes source w).1).0
      ≡ ok true
unfolding has_active_grant record_grant ◌>>=◌
has_active_grant-record_grant now id citizen_id rp_id source scopes w =
    rw (same_refl citizen_id, same_refl rp_id, every-includes scopes) refl

-- Revoking the citizen's only live consent for a client leaves none: any scope that is asked for is
-- refused from then on.
pub has_active_grant-revoke_grant :
    (now : ℕ) (citizen_id rp_id consent_id : String) (g : ConsentGrant) (scopes : List String)
    (w : World)
    → first (λ h. same h.id consent_id && same h.citizen_id citizen_id) w.grants ≡ some g
    → g.revoked_at ≡ none
    → any (λ h. is_live_grant citizen_id rp_id h && not (same h.id consent_id)) w.grants ≡ false
    → (has_active_grant citizen_id rp_id scopes (revoke_grant now citizen_id consent_id w).1).0
      ≡ ok false
unfolding has_active_grant revoke_grant ◌>>=◌
has_active_grant-revoke_grant now citizen_id rp_id consent_id g scopes w found live only =
    rw
      (
        found,
        live,
        rows-none (is_live_grant citizen_id rp_id)
            (update (λ h. same h.id consent_id) (revoke_row now) w.grants)
            (none_live citizen_id rp_id consent_id now w.grants only),
      )
      refl
