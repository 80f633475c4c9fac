-- ===== src/Broker/Lifecycle/Forward.antt =====
-- The state machine of a transaction, and its primary key, over any sequence of requests.
use Prim.Native.String.{String}
use mathlib.Core.Path.{subst}
use sdidfy.Prelude.{
  ℕ, ◌≡◌, refl, sym, Bool, true, false, List, [], ◌∷◌, Option, none, some, arith, same, same_iff,
  if◌then◌else◌, Bool-cases, inl, inr,
}
use sdidfy.Broker.World.{World, RelyingParty, Transaction, TransactionStatus}
use sdidfy.Broker.Table.{update}
use sdidfy.Broker.Environment.{Environment}
use sdidfy.Broker.Reverification.{Sdid}
use sdidfy.Broker.Session.{DeviceSession}
use sdidfy.Broker.Ciba.{is_taken, bc_authorize, BcAuthorizeRequest, decide, DecisionRequest}
use sdidfy.Broker.Token.{ciba_grant}
use sdidfy.Broker.Authorize.{authorize, authorize_poll, AuthorizeRequest}
use sdidfy.Broker.Lifecycle.{later, later_trans, IsLifecycle}
use sdidfy.Broker.Lifecycle.Requests.{
  bc_authorize-Keeps, decide-Keeps, ciba_grant-Keeps, authorize-Keeps, authorize_poll-Keeps,
}

-- One request, whatever it answers; `elsewhere` stands for every request that has nothing to do with
-- transactions.
pub data Request (w : World) : World → Type 0 where
  asks :
      (env : Environment) (now : ℕ) (rp : RelyingParty) (id auth_req_id : String)
      (body : BcAuthorizeRequest)
      → Request w (bc_authorize env now rp id auth_req_id body w).1
  opens_page :
      (env : Environment) (now : ℕ) (id auth_req_id : String) (q : AuthorizeRequest)
      → Request w (authorize env now id auth_req_id q w).1
  decides :
      (env : Environment) (sdid : Sdid) (now : ℕ) (session : DeviceSession) (body : DecisionRequest)
      → Request w (decide env sdid now session body w).1
  collects :
      (env : Environment) (now : ℕ) (rp : RelyingParty) (grant_id : String)
      (auth_req_id : Option String)
      → Request w (ciba_grant env now rp grant_id auth_req_id w).1
  polls :
      (env : Environment) (now : ℕ) (code : String) (txn : Option String)
      → Request w (authorize_poll env now code txn w).1
  elsewhere : (v : World) → v.transactions ≡ w.transactions → Request w v

pub data Requests (u : World) : World → Type 0 where
  no_request : Requests u u
  more : {v w : World} → Requests u v → Request v w → Requests u w

module _ (T : List Transaction → List Transaction → Type 0) (laws : IsLifecycle T) where
  Request-keeps : {v w : World} → Request v w → T v.transactions w.transactions
  Request-keeps {v} (asks env now rp id a body) =
      (bc_authorize-Keeps T laws env now rp id a body).runs v
  Request-keeps {v} (opens_page env now id a q) = (authorize-Keeps T laws env now id a q).runs v
  Request-keeps {v} (decides env sdid now s body) = (decide-Keeps T laws env sdid now s body).runs v
  Request-keeps {v} (collects env now rp g a) = (ciba_grant-Keeps T laws env now rp g a).runs v
  Request-keeps {v} (polls env now c t) = (authorize_poll-Keeps T laws env now c t).runs v
  Request-keeps {v} (elsewhere w e) = subst (T v.transactions) (sym e) (laws.stays v.transactions)

  pub Requests-keeps : {u w : World} → Requests u w → T u.transactions w.transactions
  Requests-keeps {u} no_request = laws.stays u.transactions
  Requests-keeps {u} {w} (more {v} rs r) =
      laws.follows u.transactions v.transactions w.transactions (Requests-keeps rs)
        (Request-keeps r)

abbrev has_id : String → Transaction → Bool
has_id id t = same t.id id

unfoldable pub status_by_id : String → List Transaction → Option TransactionStatus
status_by_id id [] = none
status_by_id id (t ∷ ts) = if same t.id id then some t.status else status_by_id id ts

abbrev pub Forward : List Transaction → List Transaction → Type 0
Forward ts us =
    (id : String) (s : TransactionStatus)
    → status_by_id id ts ≡ some s
    → (s' : TransactionStatus) × (status_by_id id us ≡ some s') × (later s s' ≡ true)

later_refl : (s : TransactionStatus) → later s s ≡ true
later_refl s = ground arith

free_id :
    (t : Transaction) (ts : List Transaction) (id : String) (s : TransactionStatus)
    → is_taken t ts ≡ false
    → status_by_id id ts ≡ some s
    → same t.id id ≡ false
unfolding status_by_id
free_id t [] id s free found = absurd cc
free_id t (u ∷ us) id s free found = elim (Bool-cases (same u.id id)) [
  | inl hit ↦ ground (arith, hit, free, same_iff u.id id, same_iff u.id t.id, same_iff t.id id)
  | inr miss ↦
      let rest : is_taken t us ≡ false = ground (arith, free) in
      let further : status_by_id id us ≡ some s = ground (arith, miss, found) in
      free_id t us id s rest further
]

update-Forward :
    (p : Transaction → Bool) (f : Transaction → Transaction) (ts : List Transaction)
    → ((t : Transaction) → p t ≡ true → ((f t).id ≡ t.id) × (later t.status (f t).status ≡ true))
    → Forward ts (update p f ts)
unfolding status_by_id
update-Forward p f [] fine id s found = absurd cc
update-Forward p f (t ∷ ts) fine id s found = elim (Bool-cases (p t)) [
  | inl hit ↦
      let (kept, onward) = fine t hit in
      elim (Bool-cases (same t.id id)) [
        | inl mine ↦
            let head : t.status ≡ s = ground (arith, mine, found) in
            (
              (f t).status,
              rw (hit, kept, mine) refl,
              subst (λ (x : TransactionStatus). later x (f t).status ≡ true) head onward,
            )
        | inr other ↦
            let rest : status_by_id id ts ≡ some s = ground (arith, other, found) in
            rw (hit, kept, other) (update-Forward p f ts fine id s rest)
      ]
  | inr miss ↦ elim (Bool-cases (same t.id id)) [
    | inl mine ↦ (s, rw (miss, mine) (ground (arith, mine, found)), later_refl s)
    | inr other ↦
        let rest : status_by_id id ts ≡ some s = ground (arith, other, found) in
        rw (miss, other) (update-Forward p f ts fine id s rest)
  ]
]

opened :
    (t : Transaction) (ts : List Transaction) (id : String) (s : TransactionStatus)
    → is_taken t ts ≡ false
    → status_by_id id ts ≡ some s
    → status_by_id id (t ∷ ts) ≡ some s
unfolding status_by_id
opened t ts id s free found = rw (free_id t ts id s free found) found

Forward-IsLifecycle : IsLifecycle Forward
Forward-IsLifecycle = record {
  stays = λ ts id s found. (s, found, later_refl s);
  follows = λ ts us vs p q id s found.
      let (s1, found1, l1) = p id s found in
      let (s2, found2, l2) = q id s1 found1 in (s2, found2, later_trans s s1 s2 l1 l2);
  opens = λ t ts free id s found. (s, opened t ts id s free found, later_refl s);
  moves = λ p f ts fine. update-Forward p f ts fine;
}

-- No request removes a transaction, and whatever the requests are and in whatever order they come,
-- its status only moves forward: a pending one may become anything, an approved one may only be
-- consumed, and a denied, expired or consumed one stays as it is.
pub Requests-forward :
    (u w : World) (id : String) (s : TransactionStatus)
    → Requests u w
    → status_by_id id u.transactions ≡ some s
    → (s' : TransactionStatus) × (status_by_id id w.transactions ≡ some s') × (later s s' ≡ true)
Requests-forward u w id s rs found = Requests-keeps Forward Forward-IsLifecycle rs id s found
