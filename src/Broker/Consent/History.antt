-- ===== src/Broker/Consent/History.antt =====
-- What the consent registry of apps/broker/src/modules/consent/consent.service.ts promises, over the
-- history of its operations and without its table.
use Prim.Native.String.{String}
use sdidfy.Prelude.{ℕ, ◌≡◌, Bool, false, not, ◌&&◌, ◌||◌, List, [], ◌∷◌, same, every, includes}
use sdidfy.Broker.World.{World}
use sdidfy.Broker.Table.{any}
use sdidfy.Broker.Consent.{record_grant, revoke_grant}

-- The operations that write: `grants now id citizen rp scopes source` and `revokes now citizen id`.
pub data ConsentOp : Type 0 where
  grants : ℕ → String → String → String → List String → String → ConsentOp
  revokes : ℕ → String → String → ConsentOp

abbrev pub apply : ConsentOp → World → World
apply (grants now id citizen_id rp_id scopes source) w =
    (record_grant now id citizen_id rp_id scopes source w).1
apply (revokes now citizen_id consent_id) w = (revoke_grant now citizen_id consent_id w).1

abbrev pub apply_all : List ConsentOp → World → World
apply_all [] w = w
apply_all (op ∷ ops) w = apply_all ops (apply op w)

-- The owner takes the consent back at some later point of the history.
abbrev pub taken_back : String → String → List ConsentOp → Bool
taken_back citizen_id id [] = false
taken_back citizen_id id (grants now i c r scopes source ∷ later) = taken_back citizen_id id later
taken_back citizen_id id (revokes now c i ∷ later) =
    (same id i && same citizen_id c) || taken_back citizen_id id later

abbrev pub contains : List String → List String → Bool
contains granted scopes = every (λ s. includes granted s) scopes

-- One single consent of the history gives the client all the scopes, and it is not taken back.
abbrev pub stands : String → String → List String → List ConsentOp → Bool
stands citizen_id rp_id scopes [] = false
stands citizen_id rp_id scopes (grants now i c r granted source ∷ later) =
    (same c citizen_id && same r rp_id && contains granted scopes && not (taken_back c i later))
    || stands citizen_id rp_id scopes later
stands citizen_id rp_id scopes (revokes now c i ∷ later) = stands citizen_id rp_id scopes later

-- A consent is inserted under an id that the table does not have yet.
abbrev pub IsFresh : ConsentOp → World → Type 0
IsFresh (grants now id citizen_id rp_id scopes source) w = any (λ g. same g.id id) w.grants ≡ false
IsFresh (revokes now citizen_id consent_id) w = Unit {0}

abbrev pub AreFresh : List ConsentOp → World → Type 0
AreFresh [] w = Unit {0}
AreFresh (op ∷ ops) w = IsFresh op w × AreFresh ops (apply op w)
