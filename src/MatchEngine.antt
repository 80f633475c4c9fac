-- ===== src/MatchEngine.antt =====
-- packages/match-engine/src/index.ts. A liveness score is counted in thousandths, so `PAD_THRESHOLD`
-- is 800; the fraction `equal / a.length` is compared by multiplying out.
pub mod Tests
use sdidfy.Prelude.{
  ℕ, zero, suc, ◌+◌, ◌*◌, ◌≤◌, ◌<◌, ◌≡◌, refl, Bool, true, false, not, ◌&&◌, ◌||◌, List, [], ◌∷◌,
  map, arith, ltb, leb, ◌==◌, if◌then◌else◌, length, All, ◌↔◌, ◌⊎◌,
}

pub data BiometricFormat : Type 0 where
  iso_19794 jpeg2000 mock : BiometricFormat

pub data ScoreBand : Type 0 where
  high medium low no_match : ScoreBand

pub record BiometricSample : Type 0 where
  pub bytes : List ℕ
  -- `liveness.method.length > 0`
  pub has_method : Bool
  pub liveness : ℕ

pub record BiometricReference : Type 0 where
  pub bytes : List ℕ
  pub format : BiometricFormat

pub record MatchResult : Type 0 where
  pub matched : Bool
  pub score_band : ScoreBand
  pub pad_passed : Bool

unfoldable pub zeroize : List ℕ → List ℕ
zeroize bytes = map (λ _. 0) bytes

abbrev is_mock : BiometricFormat → Bool
is_mock mock = true
is_mock _ = false

-- The loop of `compareMockTemplates`, which always walks the whole length.
unfoldable pub equal_bytes : ℕ → List ℕ → List ℕ → ℕ
equal_bytes equal [] bs = equal
equal_bytes equal (a ∷ as') [] = equal
equal_bytes equal (a ∷ as') (b ∷ bs) = equal_bytes (equal + (if a == b then 1 else 0)) as' bs

abbrev band_of : ℕ → ℕ → ScoreBand
band_of equal total =
    if equal == total
    then high
    else if leb (9 * total) (10 * equal)
    then medium
    else if leb (3 * total) (4 * equal)
    then low
    else no_match

unfoldable pub compare_mock_templates : BiometricSample → BiometricReference → ScoreBand
compare_mock_templates sample reference =
    if not (is_mock reference.format)
    then no_match
    else if not (length sample.bytes == length reference.bytes) || length sample.bytes == 0
    then no_match
    else band_of (equal_bytes 0 sample.bytes reference.bytes) (length sample.bytes)

abbrev accepts : ScoreBand → Bool
accepts high = true
accepts medium = true
accepts _ = false

abbrev judged : Bool → BiometricSample → BiometricReference → MatchResult
judged false sample reference = record {
  matched = false;
  score_band = no_match;
  pad_passed = false;
}
judged true sample reference =
    let band = compare_mock_templates sample reference in
    record { matched = accepts band; score_band = band; pad_passed = true }

-- `sample.liveness.method.length > 0 && sample.liveness.score >= PAD_THRESHOLD`
abbrev passes_pad : BiometricSample → Bool
passes_pad sample = sample.has_method && leb 800 sample.liveness

-- The result, with the two buffers as the `finally` leaves them.
unfoldable pub match : BiometricSample → BiometricReference → MatchResult × List ℕ × List ℕ
match sample reference =
    (judged (passes_pad sample) sample reference, zeroize sample.bytes, zeroize reference.bytes)

abbrev pub IsZero : ℕ → Type 0
IsZero b = b ≡ 0

zeroize-All :
    (bytes : List ℕ) → All IsZero (zeroize bytes) × (length (zeroize bytes) ≡ length bytes)
unfolding zeroize
zeroize-All [] = (tt, refl)
zeroize-All (b ∷ bs) = let (z, l) = zeroize-All bs in ((refl, z), omega arith)

-- On every path both buffers are all zeros afterwards, at their full lengths.
pub match-zeroizes :
    (sample : BiometricSample) (reference : BiometricReference)
    → let (result, sample_after, reference_after) = match sample reference in
      All IsZero sample_after
      × (length sample_after ≡ length sample.bytes)
      × All IsZero reference_after
      × (length reference_after ≡ length reference.bytes)
unfolding match
match-zeroizes sample reference =
    let (zs, ls) = zeroize-All sample.bytes in
    let (zr, lr) = zeroize-All reference.bytes in (zs, ls, zr, lr)

-- How many positions of two lists agree.
pub agreements : List ℕ → List ℕ → ℕ
agreements [] bs = 0
agreements (a ∷ as') [] = 0
agreements (a ∷ as') (b ∷ bs) = (if a == b then 1 else 0) + agreements as' bs

equal_bytes-agreements :
    (as' bs : List ℕ) (equal : ℕ) → equal_bytes equal as' bs ≡ equal + agreements as' bs
unfolding equal_bytes agreements
equal_bytes-agreements [] bs equal = omega arith
equal_bytes-agreements (a ∷ as') [] equal = omega arith
equal_bytes-agreements (a ∷ as') (b ∷ bs) equal =
    omega (arith, equal_bytes-agreements as' bs (equal + (if a == b then 1 else 0)))

-- A capture is accepted exactly when it is live, the reference is a mock template of the same
-- length, not empty, and at least nine tenths of the bytes agree.
pub match_iff :
    (sample : BiometricSample) (reference : BiometricReference)
    → ((match sample reference).0.matched ≡ true) ↔ (
        (sample.has_method ≡ true)
        × (800 ≤ sample.liveness)
        × (reference.format ≡ mock)
        × (length sample.bytes ≡ length reference.bytes)
        × (0 < length sample.bytes)
        × (9 * length sample.bytes ≤ 10 * agreements sample.bytes reference.bytes))
unfolding match compare_mock_templates
match_iff sample reference = ground (arith, equal_bytes-agreements sample.bytes reference.bytes 0)

-- A capture that fails the liveness test learns nothing: the answer does not depend on the bytes.
pub match-spoofed :
    (sample : BiometricSample) (reference : BiometricReference)
    → ((sample.has_method ≡ false) ⊎ (sample.liveness < 800))
    → (match sample reference).0
      ≡ record { matched = false; score_band = no_match; pad_passed = false }
unfolding match
match-spoofed sample reference h = ground arith
