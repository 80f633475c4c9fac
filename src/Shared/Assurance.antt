-- ===== src/Shared/Assurance.antt =====
-- packages/shared/src/assurance.ts
use Prim.Native.String.{String}
use sdidfy.Prelude.{ℕ, ◌≤◌, ◌≡◌, ◌↔◌, Bool, true, arith, leb}

pub data AssuranceLevel : Type 0 where
  al1 al2 al3 : AssuranceLevel

abbrev pub al_rank : AssuranceLevel → ℕ
al_rank al1 = 1
al_rank al2 = 2
al_rank al3 = 3

abbrev pub al_text : AssuranceLevel → String
al_text al1 = "AL1"
al_text al2 = "AL2"
al_text al3 = "AL3"

unfoldable pub al_meets : AssuranceLevel → AssuranceLevel → Bool
al_meets actual least = leb (al_rank least) (al_rank actual)

pub al_meets_iff :
    (actual least : AssuranceLevel)
    → (al_meets actual least ≡ true) ↔ (al_rank least ≤ al_rank actual)
unfolding al_meets
al_meets_iff actual least = ground arith
