-- ===== src/Broker/Consent/Keyed.antt =====
-- The rows of `consent_grants` under one id, and what a revocation does to them
-- (apps/broker/src/modules/consent/consent.service.ts).
use Prim.Native.String.{String}
use sdidfy.Prelude.{
  ℕ, ◌≤◌, ◌≡◌, refl, sym, ap, ◌∙◌, Bool, true, false, not, ◌&&◌, List, [], ◌∷◌, none, some, arith,
  same, same_iff, Bool-cases, inl, inr,
}
use sdidfy.Broker.World.{ConsentGrant}
use sdidfy.Broker.Table.{first, any, update, count}
use sdidfy.Broker.Consent.{revoke_row, is_none}

abbrev pub has_id : String → ConsentGrant → Bool
has_id id g = same g.id id

abbrev pub owned : String → String → ConsentGrant → Bool
owned id citizen_id g = same g.id id && same g.citizen_id citizen_id

-- The id is a primary key.
abbrev pub IsKeyed : List ConsentGrant → Type 0
IsKeyed gs = (id : String) → count (has_id id) gs ≤ 1

any-count :
    (id : String) (gs : List ConsentGrant) → any (has_id id) gs ≡ false → count (has_id id) gs ≡ 0
any-count id [] e = refl
any-count id (g ∷ gs) e = let rest = any-count id gs (ground (arith, e)) in ground (arith, e, rest)

pub insert-IsKeyed :
    (g : ConsentGrant) (gs : List ConsentGrant)
    → any (has_id g.id) gs ≡ false
    → IsKeyed gs
    → IsKeyed (g ∷ gs)
insert-IsKeyed g gs new keyed id = elim (Bool-cases (same g.id id)) [
  | inl mine ↦
      let it : g.id ≡ id = (same_iff g.id id).0 mine in
      let zero_left : count (has_id id) gs ≡ 0 =
        ap (λ (i : String). count (has_id i) gs) (sym it) ∙ any-count g.id gs new in
      rw (mine, zero_left) (omega arith)
  | inr other ↦ rw other (keyed id)
]

pub count-revoke_row :
    (now : ℕ) (id consent_id : String) (gs : List ConsentGrant)
    → count (has_id id) (update (has_id consent_id) (revoke_row now) gs) ≡ count (has_id id) gs
count-revoke_row now id consent_id [] = refl
count-revoke_row now id consent_id (g ∷ gs) =
    let rest = count-revoke_row now id consent_id gs in ground (arith, rest)

no_id :
    (now : ℕ) (id citizen_id : String) (gs : List ConsentGrant)
    → count (has_id id) gs ≡ 0
    → (update (has_id id) (revoke_row now) gs ≡ gs) × (first (owned id citizen_id) gs ≡ none)
no_id now id citizen_id [] e = (refl, refl)
no_id now id citizen_id (g ∷ gs) e =
    let miss : same g.id id ≡ false = ground (arith, e) in
    let (kept, missing) = no_id now id citizen_id gs (ground (arith, e)) in
    (ground (arith, miss, kept), ground (arith, miss, missing))

-- The one row under an id stands further on, so the first row has another id.
other_id :
    (id citizen_id : String) (h : ConsentGrant) (gs : List ConsentGrant) (g : ConsentGrant)
    → count (has_id id) (h ∷ gs) ≤ 1
    → first (owned id citizen_id) gs ≡ some g
    → same h.id id ≡ false
other_id id citizen_id h gs g few later = elim (Bool-cases (same h.id id)) [
  | inl mine ↦
      let alone : count (has_id id) gs ≡ 0 = ground (arith, mine, few) in
      absurd (ground (arith, later, (no_id 0 id citizen_id gs alone).1))
  | inr other ↦ other
]

module _ (S : ConsentGrant → Bool) (id citizen_id : String) where
  -- The rows of `S` that are not the citizen's own under the id.
  abbrev pub left_of : ConsentGrant → Bool
  left_of g = S g && not (owned id citizen_id g)

  pub none-left :
      (gs : List ConsentGrant) → first (owned id citizen_id) gs ≡ none → any left_of gs ≡ any S gs
  none-left [] e = refl
  none-left (g ∷ gs) e = elim (Bool-cases (owned id citizen_id g)) [
    | inl hit ↦ absurd (ground (arith, hit, e))
    | inr miss ↦ rw (miss, none-left gs (ground (arith, miss, e))) ground arith
  ]

  -- The row that is found is dead already.
  pub dead-left :
      (gs : List ConsentGrant) (g : ConsentGrant)
      → ((h : ConsentGrant) → is_none h.revoked_at ≡ false → S h ≡ false)
      → count (has_id id) gs ≤ 1
      → first (owned id citizen_id) gs ≡ some g
      → is_none g.revoked_at ≡ false
      → any left_of gs ≡ any S gs
  dead-left [] g off few e dead = refl
  dead-left (h ∷ gs) g off few e dead = elim (Bool-cases (owned id citizen_id h)) [
    | inl hit ↦
        let row : h ≡ g = ground (arith, hit, e) in
        let quiet : S h ≡ false =
          off h (ap (λ (x : ConsentGrant). is_none x.revoked_at) row ∙ dead) in
        let mine : same h.id id ≡ true = ground (arith, hit) in
        let alone : count (has_id id) gs ≡ 0 = ground (arith, mine, few) in
        let rest = none-left gs (no_id 0 id citizen_id gs alone).1 in rw quiet rest
    | inr miss ↦
        let rest = dead-left gs g off (ground (arith, few)) (ground (arith, miss, e)) dead in
        rw (miss, rest) (ground arith)
  ]

  pub revoked-left :
      (now : ℕ) (gs : List ConsentGrant) (g : ConsentGrant)
      → ((h : ConsentGrant) → S (revoke_row now h) ≡ false)
      → count (has_id id) gs ≤ 1
      → first (owned id citizen_id) gs ≡ some g
      → any left_of gs ≡ any S (update (has_id id) (revoke_row now) gs)
  revoked-left now [] g off few e = refl
  revoked-left now (h ∷ gs) g off few e = elim (Bool-cases (owned id citizen_id h)) [
    | inl hit ↦
        let mine : same h.id id ≡ true = ground (arith, hit) in
        let alone : count (has_id id) gs ≡ 0 = ground (arith, mine, few) in
        let (kept, missing) = no_id now id citizen_id gs alone in
        rw (hit, mine, off h, kept, none-left gs missing) (ground arith)
    | inr miss ↦
        let later : first (owned id citizen_id) gs ≡ some g = ground (arith, miss, e) in
        let other : same h.id id ≡ false = other_id id citizen_id h gs g few later in
        let rest = revoked-left now gs g off (ground (arith, other, few)) later in
        rw (other, rest) (ground arith)
  ]
