-- ===== src/Broker/Keys/Boundary.antt =====
-- apps/broker/src/keys/keys.service.ts: the operations that go through the custody boundary, over
-- adapter-custody.ts. The JSON of a token and its verification by jose are parameters, and so is
-- whether an append to the audit trail succeeds. An operation runs with no other one in between.
use Prim.Native.String.{String}
use sdidfy.Prelude.{
  ℕ, ◌+◌, Bool, true, false, not, List, [], ◌∷◌, ◌++◌, Result, ok, err, resumes, resumes-then, ◌≡◌,
  if◌then◌else◌,
}
use sdidfy.Broker.Custody.{
  CustodyError, RemoteCustodyAdapter, Custody, CustodyEvent, PublicJwk, Rotated, active_or_refuse,
  init, list_public_jwks, custody_sign, health_check, custody_rotate,
}
use sdidfy.Broker.Jose.{SignatureError, assert_jws_signature_shape}
use sdidfy.Broker.Keys.{
  Usage, KeysService, KeyRow, lifecycle, key_rotated, SigningPurpose, for_probe, signed,
  record_signing_failure, begin_flush, end_flush, fail_flush, note_health,
}

pub data KeysError : Type 0 where
  custody_failed : CustodyError → KeysError
  malformed : SignatureError → KeysError
  audit_failed custody_unhealthy empty_jwks not_verified : KeysError

pub record Boundary : Type 0 where
  pub service : KeysService
  pub custody : Custody
  pub public_jwks : List PublicJwk
  -- The events that were reported and not yet appended, the oldest first.
  pub pending_events : List CustodyEvent

pub record TokenFormat : Type 0 where
  -- The base64url texts of the header, which names the key, and of the claims.
  pub signing_input : String → String → String
  pub verifies : List PublicJwk → String → List ℕ → Bool

abbrev pub Action : Type 0 → Type 0
Action A = Boundary → Result KeysError A × Boundary

abbrev pub proceed :
    {A B : Type 0} → (A → Action B) → Result KeysError A × Boundary → Result KeysError B × Boundary
proceed f out = resumes f out

infixl 5 ◌>>=◌ ◌>>◌
unfoldable pub ◌>>=◌ : {A B : Type 0} → Action A → (A → Action B) → Action B
(m >>= f) s = proceed f (m s)

abbrev pub ◌>>◌ : {A B : Type 0} → Action A → Action B → Action B
m >> k = m >>= λ _. k

pub >>=-then :
    {A B C : Type 0} (m : Action A) (f : A → Action B) (s t : Boundary) {b : B}
    → (m >>= f) s ≡ (ok b, t)
    → ((a : A) (u : Boundary) → m s ≡ (ok a, u) → f a u ≡ (ok b, t) → C)
    → C
unfolding ◌>>=◌
>>=-then m f s t h k = resumes-then f (m s) h k

abbrev pub return : {A : Type 0} → A → Action A
return a s = (ok a, s)

abbrev pub fail : {A : Type 0} → KeysError → Action A
fail e s = (err e, s)

abbrev pub fail_if : Bool → KeysError → Action (Unit {0})
fail_if true e s = (err e, s)
fail_if false e s = (ok tt, s)

abbrev pub serve : (KeysService → KeysService) → Action (Unit {0})
serve f s = (ok tt, record s { service = f s.service })

abbrev pub in_order : List CustodyEvent → List CustodyEvent
in_order [] = []
in_order (e ∷ es) = in_order es ++ (e ∷ [])

-- The listener has pushed what custody emitted, which keeps its newest event first.
abbrev pub listened : Custody → Boundary → Boundary
listened c s = record s {
  custody = record c { events = [] };
  pending_events = s.pending_events ++ in_order c.events;
}

abbrev pub custody_answer : {A : Type 0} → Result CustodyError A → Result KeysError A
custody_answer (ok a) = ok a
custody_answer (err e) = err (custody_failed e)

abbrev pub ask_custody : {A : Type 0} → (Custody → Result CustodyError A × Custody) → Action A
ask_custody f s = (custody_answer (f s.custody).0, listened (f s.custody).1 s)

-- `this.publicJwks = await this.custody.listPublicJwks()`
abbrev pub refresh : Action (Unit {0})
refresh s = (ok tt, record s { public_jwks = list_public_jwks s.custody })

-- `signCompactJws`: the token is its signing input and the signature.
abbrev pub after_signing :
    String
    → String
    → SigningPurpose
    → ℕ
    → Bool
    → Result KeysError (List ℕ)
    → Action (String × List ℕ)
after_signing kid text purpose now appended (ok signature) =
    serve (signed kid purpose) >> return (text, signature)
after_signing kid text purpose now appended (err e) =
    serve (record_signing_failure kid now appended) >> fail e

abbrev pub attempted : {A : Type 0} → Action A → Action (Result KeysError A)
attempted m s = (ok (m s).0, (m s).1)

-- What custody answered is held to the shape of a signature once more.
abbrev pub rechecked : Result KeysError (List ℕ) → Result KeysError (List ℕ)
rechecked (err e) = err e
rechecked (ok signature) = elim (assert_jws_signature_shape signature) [
  | ok done ↦ ok signature
  | err e ↦ err (malformed e)
]

unfoldable pub sign_compact_jws :
    TokenFormat
    → RemoteCustodyAdapter
    → String
    → SigningPurpose
    → ℕ
    → Bool
    → Action (String × List ℕ)
sign_compact_jws format adapter claims purpose now appended = do
  kid ← ask_custody (λ c. (active_or_refuse c, c))
  outcome ← attempted (ask_custody (custody_sign adapter kid (format.signing_input kid claims)))
  after_signing kid (format.signing_input kid claims) purpose now appended (rechecked outcome)

abbrev pub is_empty : List PublicJwk → Bool
is_empty [] = true
is_empty (k ∷ ks) = false

abbrev pub ask_health : RemoteCustodyAdapter → Action Bool
ask_health adapter s =
    (ok (health_check adapter s.custody).0, listened (health_check adapter s.custody).1 s)

abbrev pub published : Action (List PublicJwk)
published s = (ok s.public_jwks, s)

unfoldable pub probe_signing :
    TokenFormat
    → RemoteCustodyAdapter
    → RemoteCustodyAdapter
    → String
    → ℕ
    → Bool
    → Bool
    → Action (Unit {0})
probe_signing format adapter later claims now noted recorded = do
  healthy ← ask_health adapter
  serve (note_health healthy noted)
  fail_if (not healthy) custody_unhealthy
  refresh
  keys ← published
  fail_if (is_empty keys) empty_jwks
  token ← sign_compact_jws format later claims for_probe now recorded
  jwks ← published
  fail_if (not (format.verifies jwks token.0 token.1)) not_verified

-- `audit.append`, where its failure is thrown.
abbrev pub audit : Bool → KeyRow → Action (Unit {0})
audit true row s = (ok tt, record s { service = record s.service { rows = row ∷ s.service.rows } })
audit false row s = (err audit_failed, s)

-- `flushUsageSummary` with nothing signed during its append.
abbrev pub flush_tallies : Bool → Usage → Action (Unit {0})
flush_tallies appended [] = return tt
flush_tallies true (k ∷ keys) = serve begin_flush >> serve (end_flush (k ∷ keys))
flush_tallies false (k ∷ keys) = serve begin_flush >> serve fail_flush >> fail audit_failed

unfoldable pub flush_usage_summary : Bool → Action (Unit {0})
flush_usage_summary appended s = flush_tallies appended s.service.usage s

-- Each event is shifted out of the buffer before its row is appended.
unfoldable pub drain :
    List CustodyEvent → (ℕ → Bool) → ℕ → Boundary → Result KeysError (Unit {0}) × Boundary
drain [] appends n s = (ok tt, record s { pending_events = [] })
drain (e ∷ es) appends n s =
    let rest =
      drain es appends (n + 1)
        (record s { service = record s.service { rows = lifecycle e ∷ s.service.rows } }) in
    if appends n then rest else (err audit_failed, record s { pending_events = es })

unfoldable pub drain_lifecycle_events : (ℕ → Bool) → Action (Unit {0})
unfolding drain
drain_lifecycle_events appends s = drain s.pending_events appends 0 s

unfoldable pub on_module_init : RemoteCustodyAdapter → (ℕ → Bool) → Action (Unit {0})
on_module_init adapter appends = do
  ask_custody (init adapter)
  refresh
  drain_lifecycle_events appends

-- `flushed`, `appends` and `recorded`: whether the appends of the summary, of the events and of the
-- last row succeed.
unfoldable pub rotate : RemoteCustodyAdapter → Bool → (ℕ → Bool) → Bool → Action Rotated
rotate adapter flushed appends recorded = do
  flush_usage_summary flushed
  result ← ask_custody (custody_rotate adapter)
  refresh
  drain_lifecycle_events appends
  audit recorded (key_rotated result)
  return result
