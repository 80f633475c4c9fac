-- ===== src/Attestation/Node.antt =====
-- node:crypto and JSON.parse, as packages/attestation uses them. What the source reads of a
-- certificate is the record `Certificate`; the calls that may throw answer with an `Option`.
use sdidfy.Prelude.{ℕ, Bool, Option, List}
use sdidfy.Prelude.Int.{ℤ}
use sdidfy.Attestation.Texts.{Text}
use sdidfy.Attestation.Json.{Json}

-- `asymmetricKeyType`, and the members of `export({ format: 'jwk' })`.
pub record PublicKey : Type 0 where
  pub key_type : Text
  pub kty : Option Text
  pub crv : Option Text
  pub x : Option Text
  pub y : Option Text

-- The dates are milliseconds, or nothing where they are not finite.
pub record Certificate : Type 0 where
  pub raw : List ℕ
  pub valid_from : Option ℤ
  pub valid_to : Option ℤ
  pub ca : Bool
  pub public_key : PublicKey

pub record NodeCrypto : Type 0 where
  -- `new X509Certificate(der)`
  pub read_certificate : List ℕ → Option Certificate
  pub check_issued : Certificate → Certificate → Option Bool
  pub verify : Certificate → PublicKey → Option Bool
  pub sha256 : List ℕ → List ℕ
  pub parse_json : Text → Option Json
