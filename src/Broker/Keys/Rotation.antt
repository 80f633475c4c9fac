-- ===== src/Broker/Keys/Rotation.antt =====
-- keys.service.ts over adapter-custody.ts: what a rotation that succeeded leaves.
use sdidfy.Prelude.{
  ok-injective, Bool-cases, inl, inr, ◌+◌, ℕ, ◌≡◌, refl, sym, ap, ◌∙◌, Bool, true, false, List, [],
  ◌∷◌, ◌++◌, Result, ok, err, err-ne-ok,
}
use sdidfy.Broker.Custody.{
  CustodyError, CustodyEvent, RemoteCustodyAdapter, Custody, Rotated, list_public_jwks,
  custody_rotate,
}
use sdidfy.Broker.Keys.{Usage, KeyRow, key_rotated}
use sdidfy.Broker.Keys.Boundary.{
  Boundary, KeysError, ◌>>=◌, >>=-then, ask_custody, custody_answer, listened, in_order, refresh,
  audit, flush_tallies, flush_usage_summary, drain, drain_lifecycle_events, rotate,
}
use sdidfy.Broker.Keys.Drained.{
  audited, Drained, all_audited, one_lost, drain_lifecycle_events-Drained,
}

-- What the flush of the tallies leaves alone.
flush_tallies-idle :
    (appended : Bool) (u : Usage) (s : Boundary)
    → ((flush_tallies appended u s).1.custody ≡ s.custody)
      × ((flush_tallies appended u s).1.pending_events ≡ s.pending_events)
unfolding ◌>>=◌
flush_tallies-idle appended [] s = (refl, refl)
flush_tallies-idle true (k ∷ keys) s = (refl, refl)
flush_tallies-idle false (k ∷ keys) s = (refl, refl)

flush_usage_summary-idle :
    (appended : Bool) (s : Boundary)
    → ((flush_usage_summary appended s).1.custody ≡ s.custody)
      × ((flush_usage_summary appended s).1.pending_events ≡ s.pending_events)
unfolding flush_usage_summary
flush_usage_summary-idle appended s = flush_tallies-idle appended s.service.usage s

ask_custody-returns :
    {A : Type 0} (f : Custody → Result CustodyError A × Custody) (s t : Boundary) (a : A)
    → ask_custody f s ≡ (ok a, t)
    → ((f s.custody).0 ≡ ok a) × (t ≡ listened (f s.custody).1 s)
ask_custody-returns {A} f s t a h = go (f s.custody).0 h
  where
    go :
        (r : Result CustodyError A)
        → ◌≡◌ {A = Result KeysError A × Boundary}
            (custody_answer r, listened (f s.custody).1 s)
            (ok a, t)
        → (r ≡ ok a) × (t ≡ listened (f s.custody).1 s)
    go (ok x) h = (cc, cc)
    go (err e) h = cc

Drained-audited :
    {pending : List CustodyEvent} {rows after : List KeyRow} {left : List CustodyEvent}
    {r : Result KeysError (Unit {0})}
    → Drained pending rows r left after
    → r ≡ ok tt
    → (left ≡ []) × (after ≡ audited pending rows)
Drained-audited (all_audited is) e = (refl, is)
Drained-audited (one_lost done lost whole is) e = absurd (err-ne-ok e)

drain-idle :
    (es : List CustodyEvent) (appends : ℕ → Bool) (n : ℕ) (s : Boundary)
    → ((drain es appends n s).1.custody ≡ s.custody)
      × ((drain es appends n s).1.public_jwks ≡ s.public_jwks)
unfolding drain
drain-idle [] appends n s = (refl, refl)
drain-idle (e ∷ es) appends n s = elim (Bool-cases (appends n)) [
  | inl fine ↦ rw fine (drain-idle es appends (n + 1) _)
  | inr failed ↦ rw failed (refl, refl)
]

audit-returns :
    (recorded : Bool) (row : KeyRow) (s t : Boundary)
    → audit recorded row s ≡ (ok tt, t)
    → t ≡ record s { service = record s.service { rows = row ∷ s.service.rows } }
audit-returns true row s t h = cc
audit-returns false row s t h = cc

refresh-returns :
    (s t : Boundary)
    → refresh s ≡ (ok tt, t)
    → t ≡ record s { public_jwks = list_public_jwks s.custody }
refresh-returns s t h = cc

-- The drain that returned.
drain-returns :
    (appends : ℕ → Bool) (s t : Boundary)
    → drain_lifecycle_events appends s ≡ (ok tt, t)
    → (t.pending_events ≡ [])
      × (t.service.rows ≡ audited s.pending_events s.service.rows)
      × (t.custody ≡ s.custody)
      × (t.public_jwks ≡ s.public_jwks)
unfolding drain_lifecycle_events
drain-returns appends s t h =
    let after : (drain s.pending_events appends 0 s).1 ≡ t =
      ap (λ (x : Result KeysError (Unit {0}) × Boundary). x.1) h in
    let (none_left, rows) =
      Drained-audited (drain_lifecycle_events-Drained appends s)
        (ap (λ (x : Result KeysError (Unit {0}) × Boundary). x.0) h) in
    let (custody, jwks) = drain-idle s.pending_events appends 0 s in
    (
      ap (λ (x : Boundary). x.pending_events) (sym after) ∙ none_left,
      ap (λ (x : Boundary). x.service.rows) (sym after) ∙ rows,
      ap (λ (x : Boundary). x.custody) (sym after) ∙ custody,
      ap (λ (x : Boundary). x.public_jwks) (sym after) ∙ jwks,
    )

-- The rotation up to the drain.
rotated-returns :
    (adapter : RemoteCustodyAdapter) (flushed : Bool) (s u1 u2 u3 : Boundary) (result : Rotated)
    → flush_usage_summary flushed s ≡ (ok tt, u1)
    → ask_custody (custody_rotate adapter) u1 ≡ (ok result, u2)
    → refresh u2 ≡ (ok tt, u3)
    → ((custody_rotate adapter s.custody).0 ≡ ok result)
      × (u3.service.rows ≡ (flush_usage_summary flushed s).1.service.rows)
      × (u3.pending_events
          ≡ s.pending_events ++ in_order (custody_rotate adapter s.custody).1.events)
      × (u3.public_jwks ≡ list_public_jwks u3.custody)
rotated-returns adapter flushed s u1 u2 u3 result ran1 ran2 ran3 =
    let before = ap (λ (x : Result KeysError (Unit {0}) × Boundary). x.1) ran1 in
    let (custody, pending) = flush_usage_summary-idle flushed s in
    let c1 : u1.custody ≡ s.custody = ap (λ (x : Boundary). x.custody) (sym before) ∙ custody in
    let (did, e2) = ask_custody-returns (custody_rotate adapter) u1 u2 result ran2 in
    let e3 = refresh-returns u2 u3 ran3 in
    let events = λ (c : Custody). in_order (custody_rotate adapter c).1.events in
    (
      ap (λ (c : Custody). (custody_rotate adapter c).0) (sym c1) ∙ did,
      ap (λ (x : Boundary). x.service.rows) e3
          ∙ ap (λ (x : Boundary). x.service.rows) e2
          ∙ ap (λ (x : Boundary). x.service.rows) (sym before),
      ap (λ (x : Boundary). x.pending_events) e3
          ∙ ap (λ (x : Boundary). x.pending_events) e2
          ∙ ap (λ (l : List CustodyEvent). l ++ events u1.custody)
              (ap (λ (x : Boundary). x.pending_events) (sym before) ∙ pending)
          ∙ ap (λ (c : Custody). s.pending_events ++ events c) c1,
      ap (λ (x : Boundary). x.public_jwks) e3
          ∙ ap list_public_jwks (sym (ap (λ (x : Boundary). x.custody) e3)),
    )

-- A rotation succeeds only where custody rotated; then every event that custody reported, in this
-- rotation or before it, has its row, in order, below the row of the rotation and above the summary of
-- the old key's tallies; none waits; and the set of keys that is served is custody's new one.
pub rotate-audited :
    (adapter : RemoteCustodyAdapter) (flushed : Bool) (appends : ℕ → Bool) (recorded : Bool)
    (s t : Boundary) (result : Rotated)
    → rotate adapter flushed appends recorded s ≡ (ok result, t)
    → ((custody_rotate adapter s.custody).0 ≡ ok result)
      × ((flush_usage_summary flushed s).0 ≡ ok tt)
      × (t.service.rows
          ≡ key_rotated result
            ∷ audited
                (s.pending_events ++ in_order (custody_rotate adapter s.custody).1.events)
                (flush_usage_summary flushed s).1.service.rows)
      × (t.pending_events ≡ [])
      × (t.public_jwks ≡ list_public_jwks t.custody)
unfolding rotate
rotate-audited adapter flushed appends recorded s t result h =
    >>=-then (flush_usage_summary flushed) _ s t h λ _ u1 ran1 h1.
      >>=-then (ask_custody (custody_rotate adapter)) _ u1 t h1 λ rotated u2 ran2 h2.
        >>=-then refresh _ u2 t h2 λ _ u3 ran3 h3.
          >>=-then (drain_lifecycle_events appends) _ u3 t h3 λ _ u4 ran4 h4.
            >>=-then (audit recorded (key_rotated rotated)) _ u4 t h4 λ _ u5 ran5 h5.
              let (did, rows3, pending3, jwks3) =
                rotated-returns adapter flushed s u1 u2 u3 rotated ran1 ran2 ran3 in
              let (none_left, rows4, c4, j4) = drain-returns appends u3 u4 ran4 in
              let last = ap (λ (x : Result KeysError Rotated × Boundary). x.1) h5 in
              let same_result : rotated ≡ result =
                ok-injective (ap (λ (x : Result KeysError Rotated × Boundary). x.0) h5) in
              let end = sym last ∙ audit-returns recorded (key_rotated rotated) u4 u5 ran5 in
              let reported =
                s.pending_events ++ in_order (custody_rotate adapter s.custody).1.events in
              (
                did ∙ ap ok same_result,
                ap (λ (x : Result KeysError (Unit {0}) × Boundary). x.0) ran1,
                ap (λ (x : Boundary). x.service.rows) end
                    ∙ ap (λ (r : Rotated). key_rotated r ∷ u4.service.rows) same_result
                    ∙ ap (λ (l : List KeyRow). key_rotated result ∷ l)
                        (rows4
                          ∙ ap (λ (es : List CustodyEvent). audited es u3.service.rows) pending3
                          ∙ ap (audited reported) rows3),
                ap (λ (x : Boundary). x.pending_events) end ∙ none_left,
                ap (λ (x : Boundary). x.public_jwks) end
                    ∙ j4
                    ∙ jwks3
                    ∙ ap list_public_jwks (sym (ap (λ (x : Boundary). x.custody) end ∙ c4)),
              )
