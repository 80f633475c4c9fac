-- ===== src/Attestation/Tests.antt =====
-- Runs of packages/attestation at concrete inputs.
pub mod Ios
pub mod Android
use sdidfy.Prelude.{ℕ, ◌≡◌, ◌≢◌, ◌↔◌, List, [], ◌∷◌, ok, arith}
use sdidfy.Attestation.Texts.{codes}
use sdidfy.Attestation.Base64.{base64_text, decode_base64_strict}
use sdidfy.Attestation.Base64.RoundTrip.{decode_base64_strict_iff}

decode_base64_strict_iff_example :
    (decode_base64_strict (codes "Bw==") ≡ ok (7 ∷ []))
    ↔ ((◌≢◌ {A = List ℕ} (7 ∷ []) []) × (base64_text (7 ∷ []) ≡ codes "Bw=="))
decode_base64_strict_iff_example =
    decode_base64_strict_iff (codes "Bw==") (7 ∷ []) (omega arith, tt)
