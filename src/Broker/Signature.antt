-- ===== src/Broker/Signature.antt =====
-- apps/broker/src/trust/signature.service.ts.
use Prim.Native.String.{String}
use sdidfy.Prelude.{not, ◌||◌, same}
use sdidfy.Shared.Errors.{signature_invalid}
use sdidfy.Broker.World.{Jwk}
use sdidfy.Broker.Handler.{Handler, ◌>>◌, refuse_if}
use sdidfy.Broker.Environment.{Environment}

unfoldable pub verify_device_signature : Environment → Jwk → String → String → Handler (Unit {0})
verify_device_signature env key payload signature = do
  refuse_if (not (same key.kty "EC") || not (same key.crv "P-256")) signature_invalid 400
  refuse_if (not (env.ecdsa_verifies key payload signature)) signature_invalid 401
