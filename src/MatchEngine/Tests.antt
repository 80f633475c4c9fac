-- ===== src/MatchEngine/Tests.antt =====
-- Runs of packages/match-engine/src/index.ts at a concrete capture.
use sdidfy.Prelude.{◌≡◌, true, false, ◌*◌, ◌≤◌, ◌<◌, [], ◌∷◌, length, arith, ◌↔◌, inr}
use sdidfy.MatchEngine.{
  BiometricSample, BiometricReference, mock, no_match, match, match_iff, match-spoofed, agreements,
}

abbrev capture : BiometricSample
capture = record { bytes = 1 ∷ 2 ∷ []; has_method = true; liveness = 700 }

abbrev template : BiometricReference
template = record { bytes = 1 ∷ 2 ∷ []; format = mock }

match_iff_example : ((match capture template).0.matched ≡ true) ↔ (
    (capture.has_method ≡ true)
    × (800 ≤ capture.liveness)
    × (template.format ≡ mock)
    × (length capture.bytes ≡ length template.bytes)
    × (0 < length capture.bytes)
    × (9 * length capture.bytes ≤ 10 * agreements capture.bytes template.bytes))
match_iff_example = match_iff capture template

match-spoofed_run :
    (match capture template).0
    ≡ record { matched = false; score_band = no_match; pad_passed = false }
match-spoofed_run = match-spoofed capture template (inr (omega arith))
