-- ===== src/Broker/Consent/Refinement.antt =====
-- The consent registry of apps/broker/src/modules/consent/consent.service.ts implements its history.
use Prim.Native.String.{String}
use sdidfy.Prelude.{
  ℕ, ◌≡◌, refl, sym, ap, ◌∙◌, Bool, false, not, ◌&&◌, ◌||◌, List, [], ◌∷◌, Option, none, some, ok,
  arith, Bool-cases, inl, inr,
}
use sdidfy.Broker.World.{World, ConsentGrant}
use sdidfy.Broker.Table.{first, any, rows}
use sdidfy.Broker.Handler.{◌>>=◌}
use sdidfy.Broker.Consent.{
  record_grant, has_active_grant, revoke_grant, is_live_grant, revoke_row, covered, is_none,
}
use sdidfy.Broker.Consent.History.{
  ConsentOp, grants, revokes, apply, apply_all, taken_back, contains, stands, AreFresh,
}
use sdidfy.Broker.Consent.Keyed.{
  owned, IsKeyed, insert-IsKeyed, count-revoke_row, left_of, none-left, dead-left, revoked-left,
}

-- A row counts for the rest of the history.
abbrev survives : String → String → List String → List ConsentOp → ConsentGrant → Bool
survives citizen_id rp_id scopes ops g =
    is_live_grant citizen_id rp_id g
    && contains g.scopes scopes
    && not (taken_back g.citizen_id g.id ops)

covered-survives :
    (citizen_id rp_id : String) (scopes : List String) (gs : List ConsentGrant)
    → covered scopes (rows (is_live_grant citizen_id rp_id) gs)
      ≡ any (survives citizen_id rp_id scopes []) gs
covered-survives citizen_id rp_id scopes [] = refl
covered-survives citizen_id rp_id scopes (g ∷ gs) =
    let rest = covered-survives citizen_id rp_id scopes gs in
    elim (Bool-cases (is_live_grant citizen_id rp_id g)) [
      | inl live ↦ rw (live, rest) (ground arith)
      | inr dead ↦ rw (dead, rest) refl
    ]

survives-left :
    (citizen_id rp_id : String) (scopes : List String) (ops : List ConsentOp) (now : ℕ)
    (owner id : String) (gs : List ConsentGrant)
    → any (left_of (survives citizen_id rp_id scopes ops) id owner) gs
      ≡ any (survives citizen_id rp_id scopes (revokes now owner id ∷ ops)) gs
survives-left citizen_id rp_id scopes ops now owner id [] = refl
survives-left citizen_id rp_id scopes ops now owner id (g ∷ gs) =
    ground (arith, survives-left citizen_id rp_id scopes ops now owner id gs)

-- The rows that count after a revocation are those that counted before it and are not the owner's
-- own under the id, whatever the revocation finds.
revoke_grant-left :
    (S : ConsentGrant → Bool) (now : ℕ) (owner id : String) (w : World)
    (found : Option ConsentGrant)
    → ((h : ConsentGrant) → is_none h.revoked_at ≡ false → S h ≡ false)
    → IsKeyed w.grants
    → first (owned id owner) w.grants ≡ found
    → any (left_of S id owner) w.grants ≡ any S (revoke_grant now owner id w).1.grants
unfolding revoke_grant ◌>>=◌
revoke_grant-left S now owner id w none off keyed e = rw e (none-left S id owner w.grants e)
revoke_grant-left S now owner id w (some g) off keyed e = elim (Bool-cases (is_none g.revoked_at)) [
  | inl live ↦
      rw (e, live)
        (revoked-left S id owner now w.grants g (λ h. off (revoke_row now h) refl) (keyed id) e)
  | inr dead ↦ rw (e, dead) (dead-left S id owner w.grants g off (keyed id) e dead)
]

revoke_grant-IsKeyed :
    (now : ℕ) (owner id : String) (w : World)
    → IsKeyed w.grants
    → IsKeyed (revoke_grant now owner id w).1.grants
unfolding revoke_grant ◌>>=◌
revoke_grant-IsKeyed now owner id w keyed i =
    ground (arith, keyed i, count-revoke_row now i id w.grants)

apply_all-survives :
    (citizen_id rp_id : String) (scopes : List String) (ops : List ConsentOp) (w : World)
    → IsKeyed w.grants
    → AreFresh ops w
    → any (survives citizen_id rp_id scopes []) (apply_all ops w).grants
      ≡ (any (survives citizen_id rp_id scopes ops) w.grants || stands citizen_id rp_id scopes ops)
unfolding record_grant ◌>>=◌
apply_all-survives citizen_id rp_id scopes [] w keyed fresh = ground arith
apply_all-survives citizen_id rp_id scopes (grants now id c r granted source ∷ ops) w keyed
      (new, fresh) =
    let row : ConsentGrant = record {
      id = id;
      citizen_id = c;
      rp_id = r;
      scopes = granted;
      source = source;
      granted_at = now;
      revoked_at = none;
    } in
    let rest =
      apply_all-survives citizen_id rp_id scopes ops (apply (grants now id c r granted source) w)
        (insert-IsKeyed row w.grants new keyed) fresh in
    rest ∙ ground arith
apply_all-survives citizen_id rp_id scopes (revokes now c i ∷ ops) w keyed (_, fresh) =
    apply_all-survives citizen_id rp_id scopes ops (apply (revokes now c i) w)
      (revoke_grant-IsKeyed now c i w keyed) fresh
    ∙ ap (λ (b : Bool). b || stands citizen_id rp_id scopes ops)
        (sym (
            revoke_grant-left (survives citizen_id rp_id scopes ops) now c i w
              (first (owned i c) w.grants) (λ h dead. ground (arith, dead)) keyed refl)
          ∙ survives-left citizen_id rp_id scopes ops now c i w.grants)

-- Starting from an empty table, after any sequence of grants under new ids and of revocations, the
-- registry answers by the history alone: a client has the scopes exactly when one single consent that
-- the citizen gave it contains them all, and the citizen did not take that consent back afterwards.
pub has_active_grant-stands :
    (citizen_id rp_id : String) (scopes : List String) (ops : List ConsentOp) (w : World)
    → w.grants ≡ []
    → AreFresh ops w
    → (has_active_grant citizen_id rp_id scopes (apply_all ops w)).0
      ≡ ok (stands citizen_id rp_id scopes ops)
unfolding has_active_grant
has_active_grant-stands citizen_id rp_id scopes ops w empty fresh =
    let answer =
      covered-survives citizen_id rp_id scopes (apply_all ops w).grants
      ∙ apply_all-survives citizen_id rp_id scopes ops w (λ id. rw empty (omega arith)) fresh in
    ap ok (answer ∙ rw empty refl)
