-- ===== src/Broker/Reverification/Effects.antt =====
-- What a re-assertion of apps/broker/src/trust/reverification.service.ts does to the citizen.
use Prim.Native.String.{String}
use sdidfy.Prelude.{
  ℕ, zero, suc, ◌+◌, ◌≡◌, refl, ap, ◌∙◌, Bool, true, false, ◌&&◌, List, [], ◌∷◌, ◌++◌, some, Result,
  ok, err, arith, same, Option-cases, inl, inr, length, All,
}
use sdidfy.Shared.Errors.{Thrown, bridge_error, access_denied}
use sdidfy.Broker.World.{World}
use sdidfy.Broker.Table.{first, any, any-update, any-update_off, first-any}
use sdidfy.Broker.Handler.{◌>>=◌}
use sdidfy.Broker.Reverification.{
  ReassertResult, Sdid, reassert_now, reassertable, is_citizen_active, active_of, suspend,
  revoke_with, sweep_each, SweepReport,
}

module _ (sdid : Sdid) (citizen_id binding_id trigger : String) (now : ℕ) (w : World) where
  -- When SDID answers that the identity is invalid, the request fails, no row of the citizen is
  -- active any more, and none of its devices is.
  pub reassert_now-invalid :
      (subject : String) (r : ReassertResult)
      → reassertable (first (λ c. same c.id citizen_id) w.citizens) ≡ some subject
      → sdid subject ≡ ok r
      → r.valid ≡ false
      → ((reassert_now sdid citizen_id binding_id trigger now w).0
          ≡ err (bridge_error access_denied 403))
        × (any
              (active_of citizen_id)
              (reassert_now sdid citizen_id binding_id trigger now w).1.bindings
            ≡ false)
        × (any
              (λ c. same c.id citizen_id && is_citizen_active c.status)
              (reassert_now sdid citizen_id binding_id trigger now w).1.citizens
            ≡ false)
  unfolding reassert_now ◌>>=◌
  reassert_now-invalid subject r found answer invalid = (
    rw (found, answer, invalid) refl,
    rw (found, answer, invalid)
        (any-update (active_of citizen_id) (revoke_with now "sdid-reassert-invalid") w.bindings
          (λ b h. off (same b.citizen_id citizen_id))),
    rw (found, answer, invalid)
        (any-update_off (λ c. same c.id citizen_id) (λ c. is_citizen_active c.status) suspend
          w.citizens (λ c. refl)),
  )
    where
      off : (b : Bool) → (b && false) ≡ false
      off true = refl
      off false = refl

  -- While the citizen is not active, a re-assertion is refused without a question to SDID, and
  -- nothing is written.
  pub reassert_now-barred :
      any (λ c. same c.id citizen_id && is_citizen_active c.status) w.citizens ≡ false
      → reassert_now sdid citizen_id binding_id trigger now w
        ≡ (err (bridge_error access_denied 403), w)
  unfolding reassert_now ◌>>=◌
  reassert_now-barred shut = elim (Option-cases (first (λ c. same c.id citizen_id) w.citizens)) [
    | inl gone ↦ rw gone refl
    | inr (c, found) ↦
        rw
          (
            found,
            first-any (λ c. same c.id citizen_id) (λ c. is_citizen_active c.status) w.citizens c
                found shut,
          )
          refl
  ]

module _ (sdid : Sdid) (now : ℕ) (w : World) where
  abbrev IsBarred : String × String → Type 0
  IsBarred p = any (λ c. same c.id p.0 && is_citizen_active c.status) w.citizens ≡ false

  abbrev swept : SweepReport → ℕ → Result Thrown SweepReport × World
  swept report n = (ok (record report { revocations = n }), w)

  -- A sweep whose first due citizens are not active spends its limit on them: nothing is written,
  -- nobody behind them is looked at, and each of them is reported as revoked.
  pub sweep_each-starves :
      (limit : ℕ) (ahead behind : List (String × String)) (report : SweepReport)
      → length ahead ≡ limit
      → All IsBarred ahead
      → sweep_each sdid now limit (ahead ++ behind) report w
        ≡ (ok (record report { revocations = report.revocations + limit }), w)
  unfolding sweep_each ◌>>=◌
  sweep_each-starves zero [] behind report full barred = ap (swept report) (omega arith)
  sweep_each-starves zero (p ∷ ps) behind report full barred = absurd (omega arith)
  sweep_each-starves (suc limit) [] behind report full barred = absurd (omega arith)
  sweep_each-starves (suc limit) ((c, b) ∷ ps) behind report full (bar, barred) =
      rw (reassert_now-barred sdid c b "sweep" now w bar) (
        sweep_each-starves limit ps behind (record report { revocations = report.revocations + 1 })
          (omega arith) barred
        ∙ ap (swept report) (omega arith))
