-- ===== src/Attestation/KeyAttestation.antt =====
-- packages/attestation/src/key-attestation.ts: `verifyAndroidKeyAttestation`, in the order of its
-- checks. The evidence that it gathers for the audit is left out.
pub mod Genuine
use sdidfy.Prelude.{
  ℕ, Bool, true, false, not, ◌&&◌, ◌||◌, Option, none, some, List, [], ◌∷◌, leb, ◌==◌,
  if◌then◌else◌, length, Result, ok, err, ◌>>=◌, ◌>>◌, throw_if,
}
use sdidfy.Prelude.Int.{ℤ, pos, negsuc}
use sdidfy.Attestation.Texts.{Text, utf8_bytes, includes_text}
use sdidfy.Attestation.Base64.{MalformedInput, unreadable_certificate}
use sdidfy.Attestation.Node.{Certificate, NodeCrypto}
use sdidfy.Attestation.Verdict.{
  KeySecurityLevel, software, trusted_environment, strongbox, AttestationRejectionCode, malformed,
  nonce_mismatch, app_mismatch, chain_invalid, device_integrity, key_mismatch, DeviceKey, or_reject,
  is_software,
}
use sdidfy.Attestation.Points.{bytes_equal, jwk_to_raw_point, key_object_to_raw_point}
use sdidfy.Attestation.X509.{verify_certificate_chain, find_certificate_extension}
use sdidfy.Attestation.KeyDescription.{
  RootOfTrust, AndroidAuthorizationList, KeyDescription, parse_key_description,
  AttestationApplicationId, try_parse_attestation_application_id,
}
use sdidfy.Attestation.ChainInput.{parse_certificate_chain_input}

pub record AndroidKeyAttestationInput : Type 0 where
  pub key_attestation : Text
  pub expected_nonce : Text
  pub device_key : DeviceKey
  pub package_name : Text
  pub certificate_digests : List Text
  pub now : ℕ
  pub trust_anchors : List Certificate

abbrev pub Outcome : Type 0 → Type 0
Outcome A = Result AttestationRejectionCode A

abbrev pub certificate_or_throw : Option Certificate → Result MalformedInput Certificate
certificate_or_throw none = err unreadable_certificate
certificate_or_throw (some c) = ok c

-- `ders.map((der) => new X509Certificate(der))`
unfoldable pub read_certificates :
    NodeCrypto → List (List ℕ) → Result MalformedInput (List Certificate)
read_certificates crypto [] = ok []
read_certificates crypto (der ∷ ders) = do
  cert ← certificate_or_throw (crypto.read_certificate der)
  certs ← read_certificates crypto ders
  ok (cert ∷ certs)

unfoldable pub read_chain : NodeCrypto → Text → Outcome (List Certificate)
read_chain crypto value =
    or_reject malformed (parse_certificate_chain_input crypto value >>= read_certificates crypto)

abbrev pub present_extension : Option (List ℕ) → Outcome (List ℕ)
present_extension none = err malformed
present_extension (some extension) = ok extension

-- `1.3.6.1.4.1.11129.2.1.17`
abbrev pub android_key_attestation_oid : List ℕ
android_key_attestation_oid = 1 ∷ 3 ∷ 6 ∷ 1 ∷ 4 ∷ 1 ∷ 11129 ∷ 2 ∷ 1 ∷ 17 ∷ []

unfoldable pub describe_key : NodeCrypto → Certificate → Outcome KeyDescription
describe_key crypto leaf = do
  found ← or_reject malformed (find_certificate_extension leaf android_key_attestation_oid)
  extension ← present_extension found
  or_reject malformed (parse_key_description extension)

abbrev pub or_else : {A : Type 0} → Option A → Option A → Option A
or_else none fallback = fallback
or_else (some a) fallback = some a

abbrev pub present_point : Option (List ℕ) → Outcome (List ℕ)
present_point none = err key_mismatch
present_point (some point) = ok point

-- Step 5.
unfoldable pub check_key_binding : Certificate → DeviceKey → Outcome (Unit {0})
check_key_binding leaf device_key = do
  expected ← or_reject malformed (jwk_to_raw_point device_key)
  attested ← present_point (key_object_to_raw_point leaf.public_key)
  throw_if (not (bytes_equal attested expected)) key_mismatch

-- Step 6.
abbrev pub check_boot : Option RootOfTrust → Outcome (Unit {0})
check_boot none = ok tt
check_boot (some root) = do
  throw_if (not root.device_locked) device_integrity
  throw_if (not (root.verified_boot_state == 0)) device_integrity

abbrev pub some_included : List Text → List Text → Bool
some_included [] allowed = false
some_included (x ∷ xs) allowed = includes_text allowed x || some_included xs allowed

abbrev pub names_other_package : Option AttestationApplicationId → Text → Bool
names_other_package none package_name = false
names_other_package (some id) package_name =
    not (length id.package_names == 0) && not (includes_text id.package_names package_name)

abbrev pub has_other_digest : Option AttestationApplicationId → List Text → Bool
has_other_digest none digests = false
has_other_digest (some id) digests =
    not (length id.signature_digests == 0)
    && not (length digests == 0)
    && not (some_included id.signature_digests digests)

abbrev pub parsed_id : Option (List ℕ) → Option AttestationApplicationId
parsed_id none = none
parsed_id (some der) = try_parse_attestation_application_id der

-- Step 7.
unfoldable pub check_application : KeyDescription → Text → List Text → Outcome (Unit {0})
check_application d package_name digests = do
  let app_id = parsed_id (
      or_else d.software_enforced.attestation_application_id
        d.hardware_enforced.attestation_application_id)
  throw_if (names_other_package app_id package_name) app_mismatch
  throw_if (has_other_digest app_id digests) app_mismatch

abbrev pub to_key_security_level : ℕ → KeySecurityLevel
to_key_security_level level =
    if level == 2 then strongbox else if level == 1 then trusted_environment else software

-- `Math.min(a, b)`
abbrev pub least : ℕ → ℕ → ℕ
least a b = if leb a b then a else b

abbrev pub is_not_generated : Option ℤ → Bool
is_not_generated none = false
is_not_generated (some (pos n)) = not (n == 0)
is_not_generated (some (negsuc n)) = true

-- Step 8.
unfoldable pub proven_level : KeyDescription → KeySecurityLevel
proven_level d =
    let claimed =
      to_key_security_level (least d.attestation_security_level d.keymaster_security_level) in
    let backed =
      if not (is_software claimed) && not d.hardware_enforced.present then software else claimed in
    if is_not_generated (or_else d.hardware_enforced.origin d.software_enforced.origin)
    then software
    else backed

-- Steps 4 to 8, on the leaf and its description.
unfoldable pub judge_key :
    AndroidKeyAttestationInput → Certificate → KeyDescription → Outcome KeySecurityLevel
judge_key input leaf d = do
  throw_if (not (bytes_equal d.attestation_challenge (utf8_bytes input.expected_nonce)))
      nonce_mismatch
  check_key_binding leaf input.device_key
  check_boot (or_else d.hardware_enforced.root_of_trust d.software_enforced.root_of_trust)
  check_application d input.package_name input.certificate_digests
  ok (proven_level d)

-- `chain[0]!`: the chain that was verified is not empty.
abbrev pub judge_leaf :
    NodeCrypto → AndroidKeyAttestationInput → List Certificate → Outcome KeySecurityLevel
judge_leaf crypto input [] = err malformed
judge_leaf crypto input (leaf ∷ certs) = do d ← describe_key crypto leaf; judge_key input leaf d

unfoldable pub verify_android_key_attestation :
    NodeCrypto → AndroidKeyAttestationInput → Outcome KeySecurityLevel
verify_android_key_attestation crypto input = do
  chain ← read_chain crypto input.key_attestation
  or_reject chain_invalid (verify_certificate_chain crypto chain input.trust_anchors input.now)
  judge_leaf crypto input chain
