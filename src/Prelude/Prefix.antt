-- ===== src/Prelude/Prefix.antt =====
-- The prefix of a text.
use Prim.Native.Char.{code}
use Prim.Native.String.{String}
use mathlib.Core.Option.{Option, none, some}
use sdidfy.Prelude.Tests.{◌==◌, if◌then◌else◌}

-- `s.startsWith(prefix) ? s.slice(prefix.length) : null`
unfoldable pub after_prefix : String → String → Option String
after_prefix String.[] s = some s
after_prefix (String.◌∷◌ c p) String.[] = none
after_prefix (String.◌∷◌ c p) (String.◌∷◌ d s) =
    let rest = after_prefix p s in if code c == code d then rest else none
