-- ===== src/Attestation/KeyAttestation/Genuine.antt =====
-- key-attestation.ts: what an accepted attestation proves.
use sdidfy.Prelude.{
  ℕ, zero, suc, ◌≤◌, ◌≡◌, ◌≢◌, ◌⊎◌, inl, inr, refl, sym, ap, ◌∙◌, Bool, true, false, not, ◌&&◌,
  Option, none, some, List, [], ◌∷◌, ◌==◌, if◌then◌else◌, length, ok, throw_if, >>=-eq-ok, >>-eq-ok,
  throw_if-eq-ok, ok-injective, arith,
}
use sdidfy.Attestation.Texts.{Text, utf8_bytes, includes_text}
use sdidfy.Attestation.Node.{Certificate, NodeCrypto}
use sdidfy.Attestation.Verdict.{
  KeySecurityLevel, software, trusted_environment, strongbox, malformed, nonce_mismatch,
  app_mismatch, chain_invalid, key_mismatch, DeviceKey, or_reject, or_reject-eq-ok, is_software,
}
use sdidfy.Attestation.Points.{
  bytes_equal, bytes_equal_iff, jwk_to_raw_point, key_object_to_raw_point,
}
use sdidfy.Attestation.X509.{verify_certificate_chain}
use sdidfy.Attestation.X509.Trust.{IsTrusted, verify_certificate_chain_iff}
use sdidfy.Attestation.KeyDescription.{RootOfTrust, KeyDescription, AttestationApplicationId}
use sdidfy.Attestation.KeyAttestation.{
  AndroidKeyAttestationInput, read_chain, describe_key, or_else, present_point, check_key_binding,
  check_boot, names_other_package, parsed_id, check_application, to_key_security_level, least,
  is_not_generated, proven_level, judge_key, judge_leaf, verify_android_key_attestation,
}

-- The root of trust, where there is one.
abbrev pub IsVerifiedBoot : Option RootOfTrust → Type 0
IsVerifiedBoot none = Unit {0}
IsVerifiedBoot (some root) = (root.device_locked ≡ true) × (root.verified_boot_state ≡ 0)

-- The packages that are named, where any are.
abbrev pub NamesPackage : Text → Option AttestationApplicationId → Type 0
NamesPackage package_name none = Unit {0}
NamesPackage package_name (some id) =
    (id.package_names ≡ []) ⊎ (includes_text id.package_names package_name ≡ true)

-- What a level above software rests on.
pub record IsHardware (d : KeyDescription) : Type 0 where
  pub attested : 1 ≤ d.attestation_security_level
  pub keymaster : 1 ≤ d.keymaster_security_level
  pub listed : d.hardware_enforced.present ≡ true
  pub generated :
      is_not_generated (or_else d.hardware_enforced.origin d.software_enforced.origin) ≡ false

pub record IsGenuine (crypto : NodeCrypto) (input : AndroidKeyAttestationInput) (leaf : Certificate)
    (certs : List Certificate) (d : KeyDescription) (level : KeySecurityLevel) : Type 0 where
  pub presented : read_chain crypto input.key_attestation ≡ ok (leaf ∷ certs)
  pub trusted : IsTrusted crypto (leaf ∷ certs) input.trust_anchors input.now
  pub described : describe_key crypto leaf ≡ ok d
  pub challenged : d.attestation_challenge ≡ utf8_bytes input.expected_nonce
  pub nonce_given : utf8_bytes input.expected_nonce ≢ []
  pub covers :
      (point : List ℕ) × (jwk_to_raw_point input.device_key ≡ ok point)
      × (key_object_to_raw_point leaf.public_key ≡ some point)
  pub booted :
      IsVerifiedBoot (or_else d.hardware_enforced.root_of_trust d.software_enforced.root_of_trust)
  pub named : NamesPackage input.package_name (
      parsed_id (
        or_else d.software_enforced.attestation_application_id
          d.hardware_enforced.attestation_application_id))
  pub hardware : level ≢ software → IsHardware d

pub present_point-eq-ok : (o : Option (List ℕ)) {p : List ℕ} → present_point o ≡ ok p → o ≡ some p
present_point-eq-ok none e = cc
present_point-eq-ok (some q) e = ap some (ok-injective e)

check_key_binding-covers :
    (leaf : Certificate) (key : DeviceKey)
    → check_key_binding leaf key ≡ ok tt
    → (point : List ℕ) × (jwk_to_raw_point key ≡ ok point)
      × (key_object_to_raw_point leaf.public_key ≡ some point)
unfolding check_key_binding
check_key_binding-covers leaf key e =
    let (expected, want, e1) = >>=-eq-ok (or_reject malformed (jwk_to_raw_point key)) _ e in
    let (attested, have, e2) =
      >>=-eq-ok (present_point (key_object_to_raw_point leaf.public_key)) _ e1 in
    let equal : bytes_equal attested expected ≡ true =
      throw_if_not (bytes_equal attested expected) e2 in
    (
      expected,
      or_reject-eq-ok malformed (jwk_to_raw_point key) want,
      present_point-eq-ok (key_object_to_raw_point leaf.public_key) have
          ∙ ap some ((bytes_equal_iff attested expected).0 equal).0,
    )
  where
    throw_if_not : (b : Bool) → throw_if (not b) key_mismatch ≡ ok tt → b ≡ true
    throw_if_not true e = refl
    throw_if_not false e = cc

claimed_above : (a k : ℕ) → ((1 ≤ a) × (1 ≤ k)) ⊎ (to_key_security_level (least a k) ≡ software)
claimed_above zero k = inr (ground arith)
claimed_above (suc a) zero = inr (ground arith)
claimed_above (suc a) (suc k) = inl (omega arith, omega arith)

-- Whatever takes the level down makes it software.
lowered : Bool → Bool → KeySecurityLevel → KeySecurityLevel
lowered imported present claimed =
    if imported
    then software
    else if not (is_software claimed) && not present
    then software
    else claimed

lowered_lem :
    (imported present : Bool) (claimed : KeySecurityLevel)
    → ((imported ≡ false) × (present ≡ true) × (lowered imported present claimed ≡ claimed))
      ⊎ (lowered imported present claimed ≡ software)
unfolding lowered
lowered_lem true present claimed = inr refl
lowered_lem false true claimed = inl (refl, refl, ground arith)
lowered_lem false false software = inr refl
lowered_lem false false trusted_environment = inr refl
lowered_lem false false strongbox = inr refl

proven_level-IsHardware : (d : KeyDescription) → proven_level d ≢ software → IsHardware d
unfolding proven_level lowered
proven_level-IsHardware d h =
    elim (lowered_lem
      (is_not_generated (or_else d.hardware_enforced.origin d.software_enforced.origin))
      d.hardware_enforced.present
      (to_key_security_level (least d.attestation_security_level d.keymaster_security_level))) [
        | inr down ↦ absurd (h down)
        | inl (generated, listed, kept) ↦
            elim (claimed_above d.attestation_security_level d.keymaster_security_level) [
              | inr down ↦ absurd (h (kept ∙ down))
              | inl (attested, keymaster) ↦ record {
                attested = attested;
                keymaster = keymaster;
                listed = listed;
                generated = generated;
              }
            ]
      ]

check_boot-IsVerifiedBoot : (r : Option RootOfTrust) → check_boot r ≡ ok tt → IsVerifiedBoot r
check_boot-IsVerifiedBoot none e = tt
check_boot-IsVerifiedBoot (some r) e = (ground (arith, e), ground (arith, e))

check_application-NamesPackage :
    (d : KeyDescription) (package_name : Text) (digests : List Text)
    → check_application d package_name digests ≡ ok tt
    → NamesPackage package_name (
        parsed_id (
          or_else d.software_enforced.attestation_application_id
            d.hardware_enforced.attestation_application_id))
unfolding check_application
check_application-NamesPackage d package_name digests e =
    names
      (parsed_id (
        or_else d.software_enforced.attestation_application_id
          d.hardware_enforced.attestation_application_id))
      (throw_if-eq-ok _ app_mismatch _ e).0
  where
    listed :
        (names : List Text)
        → (not (length names == 0) && not (includes_text names package_name)) ≡ false
        → (names ≡ []) ⊎ (includes_text names package_name ≡ true)
    listed [] e = inl refl
    listed (n ∷ ns) e = inr (ground (arith, e))

    names :
        (id : Option AttestationApplicationId)
        → names_other_package id package_name ≡ false
        → NamesPackage package_name id
    names none e = tt
    names (some id) e = listed id.package_names e

judge_key-IsGenuine :
    (crypto : NodeCrypto) (input : AndroidKeyAttestationInput) (leaf : Certificate)
    (certs : List Certificate) (d : KeyDescription) (level : KeySecurityLevel)
    → read_chain crypto input.key_attestation ≡ ok (leaf ∷ certs)
    → verify_certificate_chain crypto (leaf ∷ certs) input.trust_anchors input.now ≡ ok tt
    → describe_key crypto leaf ≡ ok d
    → judge_key input leaf d ≡ ok level
    → IsGenuine crypto input leaf certs d level
unfolding judge_key
judge_key-IsGenuine crypto input leaf certs d level presented fine described e =
    let (same, e1) =
      throw_if-eq-ok (not (bytes_equal d.attestation_challenge (utf8_bytes input.expected_nonce)))
        nonce_mismatch _ e in
    let (bound, e2) = >>-eq-ok (check_key_binding leaf input.device_key) _ e1 in
    let (boot, e3) =
      >>-eq-ok
        (check_boot (or_else d.hardware_enforced.root_of_trust d.software_enforced.root_of_trust)) _
        e2 in
    let (ours, e4) =
      >>-eq-ok (check_application d input.package_name input.certificate_digests) _ e3 in
    let (challenged, nonce_given) =
      (bytes_equal_iff d.attestation_challenge (utf8_bytes input.expected_nonce)).0
        (ground (arith, same)) in
    record {
      presented = presented;
      trusted =
          (verify_certificate_chain_iff crypto (leaf ∷ certs) input.trust_anchors input.now).0 fine;
      described = described;
      challenged = challenged;
      nonce_given = nonce_given;
      covers = check_key_binding-covers leaf input.device_key bound;
      booted =
          check_boot-IsVerifiedBoot
            (or_else d.hardware_enforced.root_of_trust d.software_enforced.root_of_trust) boot;
      named = check_application-NamesPackage d input.package_name input.certificate_digests ours;
      hardware = λ above. proven_level-IsHardware d (λ soft. above (sym (ok-injective e4) ∙ soft));
    }

pub verify_android_key_attestation-IsGenuine :
    (crypto : NodeCrypto) (input : AndroidKeyAttestationInput) (level : KeySecurityLevel)
    → verify_android_key_attestation crypto input ≡ ok level
    → (leaf : Certificate) × (certs : List Certificate) × (d : KeyDescription) × IsGenuine crypto
        input leaf certs d level
unfolding verify_android_key_attestation
verify_android_key_attestation-IsGenuine crypto input level e =
    let (chain, presented, e1) = >>=-eq-ok (read_chain crypto input.key_attestation) _ e in
    let (fine, e2) =
      >>-eq-ok
        (or_reject chain_invalid
          (verify_certificate_chain crypto chain input.trust_anchors input.now))
        _ e1 in
    on_chain chain presented
      (or_reject-eq-ok chain_invalid
        (verify_certificate_chain crypto chain input.trust_anchors input.now) fine)
      e2
  where
    on_chain :
        (chain : List Certificate)
        → read_chain crypto input.key_attestation ≡ ok chain
        → verify_certificate_chain crypto chain input.trust_anchors input.now ≡ ok tt
        → judge_leaf crypto input chain ≡ ok level
        → (leaf : Certificate) × (certs : List Certificate) × (d : KeyDescription) × IsGenuine
            crypto input leaf certs d level
    on_chain [] presented fine e = cc
    on_chain (leaf ∷ certs) presented fine e =
        let (d, described, e1) = >>=-eq-ok (describe_key crypto leaf) _ e in
        (
          leaf,
          certs,
          d,
          judge_key-IsGenuine crypto input leaf certs d level presented fine described e1,
        )
