-- ===== src/Mobile/Pending.antt =====
-- apps/mobile/src/core/pending.ts: the requests that wait for the citizen, as the screen groups them. A
-- date is its milliseconds. Scopes are compared by code points, which orders them as UTF-16 does while
-- they are ASCII.
pub mod Order
pub mod Hides
use Prim.Native.String.{String}
use sdidfy.Prelude.{
  ℕ, suc, ◌+◌, ◌-◌, ◌/◌, Bool, true, false, not, ◌&&◌, List, [], ◌∷◌, ◌++◌, Option, none, some, leb,
  ltb, ◌==◌, map, if◌then◌else◌,
}
use sdidfy.Attestation.Texts.{Text, codes, same_text}

pub record PendingTransaction : Type 0 where
  pub auth_req_id : String
  pub rp_name : String
  pub binding_message : Option String
  pub scopes : List String
  pub created_at : ℕ
  pub expires_at : ℕ
  pub challenge_id : String
  pub nonce : String
  pub approve_payload : String
  pub deny_payload : String
  pub challenge_expires_at : ℕ

unfoldable pub is_expired : PendingTransaction → ℕ → Bool
is_expired txn now = leb txn.expires_at now

-- The subtraction stops at 0, as `Math.max(0, ...)` does.
unfoldable pub seconds_remaining : PendingTransaction → ℕ → ℕ
seconds_remaining txn now = (txn.expires_at - now) / 1000

unfoldable pub is_decidable : PendingTransaction → ℕ → Bool
unfolding is_expired
is_decidable txn now = not (is_expired txn now) && ltb now txn.challenge_expires_at

pub record PendingGroup : Type 0 where
  pub primary : PendingTransaction
  pub duplicates : List PendingTransaction
  pub count : ℕ

abbrev pub duplicate_window_ms : ℕ
duplicate_window_ms = 60000

abbrev pub leb_text : Text → Text → Bool
leb_text [] bs = true
leb_text (a ∷ as') [] = false
leb_text (a ∷ as') (b ∷ bs) = let rest = leb_text as' bs in if a == b then rest else ltb a b

-- `sort()`
abbrev pub insert_text : Text → List Text → List Text
insert_text t [] = t ∷ []
insert_text t (u ∷ us) =
    let rest = insert_text t us in if leb_text t u then t ∷ u ∷ us else u ∷ rest

abbrev pub sort_texts : List Text → List Text
sort_texts [] = []
sort_texts (t ∷ ts) = insert_text t (sort_texts ts)

abbrev pub join_with : ℕ → List Text → Text
join_with separator [] = []
join_with separator (t ∷ []) = t
join_with separator (t ∷ u ∷ us) = t ++ separator ∷ join_with separator (u ∷ us)

abbrev pub or_no_text : Option String → Text
or_no_text none = []
or_no_text (some s) = codes s

-- The three parts are joined by NUL, the scopes by a comma.
unfoldable pub group_key : PendingTransaction → Text
group_key txn = join_with 0 (
    codes txn.rp_name
    ∷ or_no_text txn.binding_message
    ∷ join_with 0x2c (sort_texts (map codes txn.scopes))
    ∷ [])

abbrev pub live : ℕ → List PendingTransaction → List PendingTransaction
live now [] = []
live now (t ∷ ts) = let rest = live now ts in if not (is_expired t now) then t ∷ rest else rest

-- The sort is stable.
abbrev pub insert_by_created :
    PendingTransaction → List PendingTransaction → List PendingTransaction
insert_by_created t [] = t ∷ []
insert_by_created t (u ∷ us) =
    let rest = insert_by_created t us in
    if leb t.created_at u.created_at then t ∷ u ∷ us else u ∷ rest

unfoldable pub sort_by_created : List PendingTransaction → List PendingTransaction
sort_by_created [] = []
sort_by_created (t ∷ ts) = insert_by_created t (sort_by_created ts)

abbrev pub same_ask : PendingTransaction → PendingGroup → Bool
same_ask txn g = same_text (group_key g.primary) (group_key txn)

abbrev pub in_window : PendingTransaction → PendingGroup → Bool
in_window txn g = leb txn.created_at (g.primary.created_at + duplicate_window_ms)

abbrev pub push : PendingTransaction → PendingGroup → PendingGroup
push txn g = record g { duplicates = g.duplicates ++ txn ∷ []; count = g.count + 1 }

abbrev pub new_group : PendingTransaction → PendingGroup
new_group txn = record { primary = txn; duplicates = []; count = 1 }

-- The groups so far, the newest first: `byKey` has the newest of each key.
unfoldable pub join_group : PendingTransaction → List PendingGroup → Option (List PendingGroup)
join_group txn [] = none
join_group txn (g ∷ gs) =
    let rest = join_group txn gs in
    if same_ask txn g
    then (if in_window txn g then some (push txn g ∷ gs) else none)
    else elim rest [ none ↦ none | some hs ↦ some (g ∷ hs) ]

abbrev pub or_new :
    PendingTransaction → List PendingGroup → Option (List PendingGroup) → List PendingGroup
or_new txn gs none = new_group txn ∷ gs
or_new txn gs (some hs) = hs

unfoldable pub place : PendingTransaction → List PendingGroup → List PendingGroup
unfolding join_group
place txn gs = or_new txn gs (join_group txn gs)

unfoldable pub collapse_each : List PendingTransaction → List PendingGroup → List PendingGroup
unfolding place
collapse_each [] gs = gs
collapse_each (t ∷ ts) gs = collapse_each ts (place t gs)

abbrev pub in_order : List PendingGroup → List PendingGroup
in_order [] = []
in_order (g ∷ gs) = in_order gs ++ g ∷ []

unfoldable pub collapse_pending : List PendingTransaction → ℕ → List PendingGroup
unfolding sort_by_created collapse_each
collapse_pending txns now = in_order (collapse_each (sort_by_created (live now txns)) [])

unfoldable pub has_multiple_distinct_requests : List PendingGroup → Bool
has_multiple_distinct_requests [] = false
has_multiple_distinct_requests (g ∷ []) = false
has_multiple_distinct_requests (g ∷ h ∷ gs) = true
