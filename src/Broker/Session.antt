-- ===== src/Broker/Session.antt =====
-- apps/broker/src/trust/device-session.guard.ts. The claims are those of a token that
-- `keys.verifyJwt` accepted for the audience of device sessions; none if it accepted none.
use Prim.Native.String.{String}
use sdidfy.Prelude.{not, ◌||◌, Option, same}
use sdidfy.Shared.Errors.{access_denied, binding_not_active}
use sdidfy.Broker.Table.{first}
use sdidfy.Broker.Handler.{Handler, ◌>>=◌, ◌>>◌, pure, refuse_if, present, gets}
use sdidfy.Broker.Reverification.{is_binding_active}
use sdidfy.Broker.Devices.{named}

pub record DeviceSession : Type 0 where
  pub citizen_id : String
  pub binding_id : String

-- The claims `sub` and `binding_id`, each absent unless it is a string.
pub record SessionClaims : Type 0 where
  pub sub : Option String
  pub binding_id : Option String

unfoldable pub can_activate : Option SessionClaims → Handler DeviceSession
can_activate claims = do
  payload ← present claims access_denied 401
  citizen_id ← present payload.sub access_denied 401
  binding_id ← present payload.binding_id access_denied 401
  found ← gets (λ w. first (named binding_id) w.bindings)
  binding ← present found binding_not_active 401
  refuse_if (not (is_binding_active binding.status) || not (same binding.citizen_id citizen_id))
      binding_not_active 401
  pure (record { citizen_id = citizen_id; binding_id = binding_id })
