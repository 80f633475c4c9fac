-- ===== src/Broker/Userinfo/Entitled.antt =====
-- `userinfo` of apps/broker/src/modules/oidc/oidc.controller.ts over the history of the consents: who
-- gets an answer, and what it may hold.
use Prim.Native.String.{String}
use mathlib.Core.Path.{subst}
use sdidfy.Prelude.{
  ℕ, ◌≡◌, ◌⊎◌, refl, sym, ap, ◌∙◌, Bool, true, false, not, ◌||◌, List, [], Option, none, some, ok,
  arith, same, same_iff, includes, inl, inr, Bool-cases, ok-injective, err-ne-ok, if◌then◌else◌,
}
use sdidfy.Shared.Errors.{ErrorCode, access_denied}
use sdidfy.Broker.World.{World, RelyingParty, Citizen}
use sdidfy.Broker.Table.{first, rows}
use sdidfy.Broker.Handler.{Handler, ◌>>=◌, >>=-returns, answer_of, refuse_if, present, pure}
use sdidfy.Broker.Consent.{is_live_grant, covered, has_active_grant}
use sdidfy.Broker.Consent.History.{ConsentOp, apply_all, stands, AreFresh}
use sdidfy.Broker.Consent.Refinement.{has_active_grant-stands}
use sdidfy.Broker.Pairwise.{citizen_for_subject}
use sdidfy.Broker.Userinfo.{
  userinfo, TokenClaims, Attributes, AttributeAnswer, attributes, unknown_at_sdid, sdid_down,
  is_revoked, fetched, fetch_for, released, nothing_released,
}

-- The answer holds nothing that the scopes do not ask for.
abbrev pub Only : List String → Attributes → Type 0
Only scopes a =
    ((includes scopes "profile" ≡ true) ⊎ ((a.name ≡ none) × (a.date_of_birth ≡ none)))
    × ((includes scopes "address" ≡ true) ⊎ (a.address ≡ none))

-- The token is an unrevoked access token, its client and its subject are known, and the citizen
-- behind the subject gave this very client one consent that contains the token's scopes, and has not
-- taken it back.
pub record IsEntitled (now : ℕ) (payload : TokenClaims) (ops : List ConsentOp) (w : World)
    (out : String × Attributes) : Type 0 where
  pub client_id : String
  pub rp : RelyingParty
  pub citizen_id : String
  pub citizen : Citizen
  pub is_access : payload.token_use ≡ "access"
  pub not_revoked : is_revoked now payload.jti w ≡ false
  pub client : payload.client_id ≡ some client_id
  pub subject : payload.sub ≡ some out.0
  pub party : first (λ r. same r.client_id client_id) w.parties ≡ some rp
  pub owner : (citizen_for_subject rp.id out.0 w).0 ≡ ok (some citizen_id)
  pub row : first (λ c. same c.id citizen_id) w.citizens ≡ some citizen
  pub consented : stands citizen.id rp.id payload.scopes ops ≡ true
  pub only : Only payload.scopes out.1

module _ {B : Type 0} (w v : World) (b : B) where
  refuse_then :
      (test : Bool) (code : ErrorCode) (http : ℕ) (f : Unit {0} → Handler B)
      → (refuse_if test code http >>= f) w ≡ (ok b, v)
      → (test ≡ false) × (f tt w ≡ (ok b, v))
  unfolding ◌>>=◌
  refuse_then true code http f e = absurd (err-ne-ok (answer_of _ e))
  refuse_then false code http f e = (refl, e)

  present_then :
      {A : Type 0} (o : Option A) (code : ErrorCode) (http : ℕ) (f : A → Handler B)
      → (present o code http >>= f) w ≡ (ok b, v)
      → (a : A) × (o ≡ some a) × (f a w ≡ (ok b, v))
  unfolding ◌>>=◌
  present_then none code http f e = absurd (err-ne-ok (answer_of _ e))
  present_then (some a) code http f e = (a, refl, e)

released-Only :
    (scopes : List String) (a : Attributes)
    → Only scopes (released (includes scopes "profile") (includes scopes "address") a)
released-Only scopes a = (
  elim (Bool-cases (includes scopes "profile")) [
    | inl asked ↦ inl asked
    | inr not_asked ↦ inr (rw not_asked refl, rw not_asked refl)
  ],
  elim (Bool-cases (includes scopes "address")) [
    | inl asked ↦ inl asked
    | inr not_asked ↦ inr (rw not_asked refl)
  ],
)

nothing-Only : (scopes : List String) → Only scopes nothing_released
nothing-Only scopes = (inr (refl, refl), inr refl)

fetch_for-Only :
    (sdid : String → List String → AttributeAnswer) (scopes : List String) (subject : Option String)
    (w v : World) (a : Attributes)
    → fetch_for sdid scopes subject w ≡ (ok a, v)
    → Only scopes a
fetch_for-Only sdid scopes none w v a e =
    subst (Only scopes) (ok-injective (answer_of _ e)) (nothing-Only scopes)
fetch_for-Only sdid scopes (some subject) w v a e =
    asked (includes scopes "profile" || includes scopes "address") e
  where
    got :
        (answer : AttributeAnswer)
        → fetched (includes scopes "profile") (includes scopes "address") answer w ≡ (ok a, v)
        → Only scopes a
    got (attributes x) e =
        subst (Only scopes) (ok-injective (answer_of _ e)) (released-Only scopes x)
    got unknown_at_sdid e = subst (Only scopes) (ok-injective (answer_of _ e)) (nothing-Only scopes)
    got sdid_down e = absurd (err-ne-ok (answer_of _ e))

    asked :
        (b : Bool)
        → (if b
              then fetched
                  (includes scopes "profile")
                  (includes scopes "address")
                  (sdid subject scopes)
              else pure nothing_released)
            w
          ≡ (ok a, v)
        → Only scopes a
    asked true e = got (sdid subject scopes) e
    asked false e = subst (Only scopes) (ok-injective (answer_of _ e)) (nothing-Only scopes)

-- The last two steps: the answer is the subject of the token and what was fetched for its scopes.
answered-Only :
    (sdid : String → List String → AttributeAnswer) (scopes : List String) (subject : Option String)
    (sub : String) (w v : World) (out : String × Attributes)
    → (fetch_for sdid scopes subject >>= λ claims. pure (sub, claims)) w ≡ (ok out, v)
    → (sub ≡ out.0) × Only scopes out.1
answered-Only sdid scopes subject sub w v out e =
    let (a, (u, fetched_it, last)) = >>=-returns (fetch_for sdid scopes subject) _ w v e in
    let same_answer = ok-injective (answer_of _ last) in
    (
      ap (λ (x : String × Attributes). x.0) same_answer,
      subst (Only scopes) (ap (λ (x : String × Attributes). x.1) same_answer)
          (fetch_for-Only sdid scopes subject w u a fetched_it),
    )

-- After any history of consents that starts from an empty table: userinfo answers only to one who is
-- entitled to it by that history, and with nothing that the token's scopes do not ask for.
pub userinfo-IsEntitled :
    (sdid : String → List String → AttributeAnswer) (now : ℕ) (payload : TokenClaims)
    (ops : List ConsentOp) (w : World) (out : String × Attributes)
    → w.grants ≡ []
    → AreFresh ops w
    → (userinfo sdid now (some payload) (apply_all ops w)).0 ≡ ok out
    → IsEntitled now payload ops (apply_all ops w) out
unfolding userinfo ◌>>=◌ citizen_for_subject has_active_grant
userinfo-IsEntitled sdid now payload ops w out empty fresh e =
    let u = apply_all ops w in
    let v = (userinfo sdid now (some payload) u).1 in
    let run : userinfo sdid now (some payload) u ≡ (ok out, v) = λ i. (e i, v) in
    let (access, e1) =
      refuse_then u v out (not (same payload.token_use "access")) access_denied 401 _ run in
    let (kept, e2) = refuse_then u v out (is_revoked now payload.jti u) access_denied 401 _ e1 in
    let (client_id, named, e3) = present_then u v out payload.client_id access_denied 401 _ e2 in
    let (sub, about, e4) = present_then u v out payload.sub access_denied 401 _ e3 in
    let (rp, party, e5) =
      present_then u v out (first (λ r. same r.client_id client_id) u.parties) access_denied 401 _
        e4 in
    let (citizen_id, owner, e6) = present_then u v out _ access_denied 401 _ e5 in
    let (citizen, row, e7) =
      present_then u v out (first (λ c. same c.id citizen_id) u.citizens) access_denied 401 _ e6 in
    let (full, e8) =
      refuse_then u v out
        (not (covered payload.scopes (rows (is_live_grant citizen.id rp.id) u.grants)))
        access_denied 403 _ e7 in
    let (same_sub, only) = answered-Only sdid payload.scopes citizen.sdid_subject sub u v out e8 in
    let by_history =
      ok-injective (has_active_grant-stands citizen.id rp.id payload.scopes ops w empty fresh) in
    record {
      client_id = client_id;
      rp = rp;
      citizen_id = citizen_id;
      citizen = citizen;
      is_access = ground (arith, access, same_iff payload.token_use "access");
      not_revoked = kept;
      client = named;
      subject = about ∙ ap some same_sub;
      party = party;
      owner =
          subst (λ (s : String). (citizen_for_subject rp.id s u).0 ≡ ok (some citizen_id)) same_sub
            (ap ok owner);
      row = row;
      consented = sym by_history ∙ ground (arith, full);
      only = only;
    }
