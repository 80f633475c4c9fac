-- ===== src/Broker/Handler.antt =====
-- A request handler: it reads and writes the shared state, and returns or throws. What it wrote
-- before it threw stays written, as each statement of the source commits by itself.
use Prim.Native.String.{String}
use sdidfy.Prelude.{
  ℕ, Bool, true, false, Option, none, some, [], ◌∷◌, Result, ok, err, resumes, resumes-then, ◌≡◌,
  ap,
}
use sdidfy.Shared.Errors.{ErrorCode, Thrown, bridge_error}
use sdidfy.Broker.World.{World, AuditEvent}

abbrev pub Handler : Type 0 → Type 0
Handler A = World → Result Thrown A × World

abbrev pub resume :
    {A B : Type 0} → (A → Handler B) → Result Thrown A × World → Result Thrown B × World
resume f out = resumes f out

infixl 5 ◌>>=◌ ◌>>◌
unfoldable pub ◌>>=◌ : {A B : Type 0} → Handler A → (A → Handler B) → Handler B
(m >>= f) w = resume f (m w)

abbrev pub ◌>>◌ : {A B : Type 0} → Handler A → Handler B → Handler B
m >> k = m >>= λ _. k

abbrev pub pure : {A : Type 0} → A → Handler A
pure a w = (ok a, w)

abbrev pub throw : {A : Type 0} → ErrorCode → ℕ → Handler A
throw code http w = (err (bridge_error code http), w)

-- `if (test) throw ...;`
abbrev pub refuse_if : Bool → ErrorCode → ℕ → Handler (Unit {0})
refuse_if true code http w = (err (bridge_error code http), w)
refuse_if false code http w = (ok tt, w)

-- `const row = rows[0]; if (!row) throw ...;`
abbrev pub present : {A : Type 0} → Option A → ErrorCode → ℕ → Handler A
present none code http w = (err (bridge_error code http), w)
present (some a) code http w = (ok a, w)

abbrev pub gets : {A : Type 0} → (World → A) → Handler A
gets f w = (ok (f w), w)

abbrev pub modify : (World → World) → Handler (Unit {0})
modify f w = (ok tt, f w)

-- `this.audit.append(...)`, the newest event first.
abbrev pub append : AuditEvent → Handler (Unit {0})
append e w = (ok tt, record w { audit = e ∷ w.audit })

-- An event with nothing but its actor, action and result.
abbrev pub event : String → Option String → String → String → AuditEvent
event actor_type actor_id action result = record {
  actor_type = actor_type;
  actor_id = actor_id;
  action = action;
  subject_ref = none;
  rp_id = none;
  device_binding_id = none;
  assurance = none;
  sdid_txn_ref = none;
  result = result;
  context = [];
}

-- The answer of a call that leaves the state alone.
abbrev pub lift : {A : Type 0} → Result Thrown A → Handler A
lift r w = (r, w)

-- `try { ... } catch (err)`: what was thrown, as a value.
abbrev pub attempt : {A : Type 0} → Handler A → Handler (Result Thrown A)
attempt m w = (ok (m w).0, (m w).1)

-- A relation that every run of a handler keeps between the state before and the state after.
abbrev pub Within : {A : Type 0} → (World → World → Type 0) → Handler A → Type 0
Within R m = (w : World) → R w (m w).1

pub >>=-Within :
    {A B : Type 0} (R : World → World → Type 0)
    → ((u v w : World) → R u v → R v w → R u w)
    → (m : Handler A) (f : A → Handler B) → Within R m
    → ((a : A) → Within R (f a))
    → Within R (m >>= f)
unfolding ◌>>=◌
>>=-Within R trans m f first rest w = go (m w) (first w)
  where
    go : (out : Result Thrown _ × World) → R w out.1 → R w (resume f out).1
    go (ok a, v) r = trans w v (f a v).1 r (rest a v)
    go (err e, v) r = r

-- A run that returned went through both of its parts; with the two runs as variables, and as a pair.
pub >>=-then :
    {A B : Type 0} {C : Type 0} (m : Handler A) (f : A → Handler B) (u w : World) {b : B}
    → (m >>= f) u ≡ (ok b, w)
    → ((a : A) (v : World) → m u ≡ (ok a, v) → f a v ≡ (ok b, w) → C)
    → C
unfolding ◌>>=◌
>>=-then m f u w h k = resumes-then f (m u) h k

pub >>=-returns :
    {A B : Type 0} (m : Handler A) (f : A → Handler B) (u w : World) {b : B}
    → (m >>= f) u ≡ (ok b, w)
    → (a : A) × ((v : World) × (m u ≡ (ok a, v)) × (f a v ≡ (ok b, w)))
>>=-returns m f u w h = >>=-then m f u w h (λ a v ran rest. (a, (v, ran, rest)))

-- The two parts of a run.
pub answer_of :
    {A : Type 0} (out : Result Thrown A × World) {r : Result Thrown A} {w : World}
    → out ≡ (r, w)
    → out.0 ≡ r
answer_of out e = ap (λ (x : Result Thrown _ × World). x.0) e

pub state_of :
    {A : Type 0} (out : Result Thrown A × World) {r : Result Thrown A} {w : World}
    → out ≡ (r, w)
    → out.1 ≡ w
state_of out e = ap (λ (x : Result Thrown _ × World). x.1) e

pub attempt-returns :
    {A : Type 0} (m : Handler A) (u w : World) {r : Result Thrown A}
    → attempt m u ≡ (ok r, w)
    → m u ≡ (r, w)
attempt-returns m u w h = cc
