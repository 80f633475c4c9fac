-- ===== src/Broker/Enrolment/Backed.antt =====
-- What stands behind a binding that `start` of
-- apps/broker/src/modules/enrolment/enrolment.service.ts creates.
use Prim.Native.String.{String}
use sdidfy.Broker.World.{World}
use sdidfy.Broker.Environment.{Environment}
