-- ===== src/Attestation/Points.antt =====
-- packages/attestation/src/common.ts: comparisons of bytes, and the raw point of a P-256 key.
use sdidfy.Prelude.{
  ℕ, ◌≡◌, ◌≢◌, ◌↔◌, refl, Bool, true, false, not, ◌||◌, Option, none, some, List, [], ◌∷◌, ◌++◌,
  ◌==◌, if◌then◌else◌, length, Result, ok, err, ◌>>=◌, ◌>>◌, throw_if, arith,
}
use sdidfy.Attestation.Texts.{Text, codes, same_text, utf8_bytes}
use sdidfy.Attestation.Base64.{
  MalformedInput, unsupported_key, bad_coordinate_length, decode_base64url_strict,
}
use sdidfy.Attestation.Base64.RoundTrip.{same_text_refl, same_text-eq}
use sdidfy.Attestation.Verdict.{DeviceKey}
use sdidfy.Attestation.Node.{PublicKey}

unfoldable pub bytes_equal : List ℕ → List ℕ → Bool
bytes_equal a b = if not (length a == length b) || length a == 0 then false else same_text a b

unfoldable pub strings_equal : Text → Text → Bool
unfolding bytes_equal
strings_equal a b = bytes_equal (utf8_bytes a) (utf8_bytes b)

unfoldable pub jwk_to_raw_point : DeviceKey → Result MalformedInput (List ℕ)
jwk_to_raw_point jwk = do
  throw_if (not (same_text jwk.kty (codes "EC")) || not (same_text jwk.crv (codes "P-256")))
      unsupported_key
  x ← decode_base64url_strict jwk.x
  y ← decode_base64url_strict jwk.y
  throw_if (not (length x == 32) || not (length y == 32)) bad_coordinate_length
  ok (0x04 ∷ x ++ y)

-- `try { ... } catch { return undefined; }`
abbrev pub or_undefined : {E A : Type 0} → Result E A → Option A
or_undefined (ok a) = some a
or_undefined (err e) = none

-- `!jwk.x`
abbrev pub is_missing : Option Text → Bool
is_missing none = true
is_missing (some []) = true
is_missing (some (c ∷ cs)) = false

abbrev pub or_empty : Option Text → Text
or_empty none = []
or_empty (some s) = s

abbrev pub is_exactly : Option Text → Text → Bool
is_exactly none s = false
is_exactly (some t) s = same_text t s

unfoldable pub key_object_to_raw_point : PublicKey → Option (List ℕ)
unfolding jwk_to_raw_point
key_object_to_raw_point key =
    if not (same_text key.key_type (codes "ec"))
    then none
    else if not (is_exactly key.kty (codes "EC"))
        || not (is_exactly key.crv (codes "P-256"))
        || is_missing key.x
        || is_missing key.y
    then none
    else or_undefined (
        jwk_to_raw_point (record {
          kty = or_empty key.kty;
          crv = or_empty key.crv;
          x = or_empty key.x;
          y = or_empty key.y;
        }))

pub bytes_equal_iff : (a b : List ℕ) → (bytes_equal a b ≡ true) ↔ ((a ≡ b) × (b ≢ []))
unfolding bytes_equal
bytes_equal_iff [] [] = (λ e. cc, λ (same, some_byte). absurd (some_byte refl))
bytes_equal_iff [] (y ∷ ys) = (λ e. absurd (ground (arith, e)), λ (same, some_byte). cc)
bytes_equal_iff (x ∷ xs) [] = (λ e. absurd (ground (arith, e)), λ (same, some_byte). cc)
bytes_equal_iff (x ∷ xs) (y ∷ ys) = (
  λ e. (ground (arith, e, same_text-eq xs ys), λ empty. cc),
  λ (same, some_byte). ground (arith, same, same_text_refl xs),
)
