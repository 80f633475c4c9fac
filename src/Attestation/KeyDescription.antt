-- ===== src/Attestation/KeyDescription.antt =====
-- packages/attestation/src/key-attestation.ts: the KeyDescription extension of an Android key
-- certificate, and the application id in it. What only the audit reads of it is left out.
use sdidfy.Prelude.{ℕ, Bool, true, false, Option, none, some, List, [], ◌∷◌, ok, err, ◌>>=◌}
use sdidfy.Prelude.Int.{ℤ}
use sdidfy.Attestation.Texts.{Text, utf8_text}
use sdidfy.Attestation.Base64.{base64_text}
use sdidfy.Attestation.Points.{or_undefined}
use sdidfy.Attestation.Der.{
  Der, DerNode, DerNodes, nil, cons, default_der_limits, parse_der, too_few_fields,
}
use sdidfy.Attestation.Der.Access.{
  der_sequence, der_set, der_small_integer, der_enumerated, der_boolean, der_octet_string,
  der_explicit, der_find_context,
}
use sdidfy.Attestation.X509.{first_node}

pub record RootOfTrust : Type 0 where
  pub device_locked : Bool
  pub verified_boot_state : ℕ

pub record AndroidAuthorizationList : Type 0 where
  pub present : Bool
  pub purposes : Option (List ℤ)
  pub origin : Option ℤ
  pub all_applications : Bool
  pub root_of_trust : Option RootOfTrust
  pub attestation_application_id : Option (List ℕ)
  pub os_version : Option ℤ
  pub os_patch_level : Option ℤ

pub record KeyDescription : Type 0 where
  pub attestation_version : ℤ
  pub attestation_security_level : ℕ
  pub keymaster_version : ℤ
  pub keymaster_security_level : ℕ
  pub attestation_challenge : List ℕ
  pub software_enforced : AndroidAuthorizationList
  pub hardware_enforced : AndroidAuthorizationList

-- `nodes.map(f)`, for an `f` that may throw.
unfoldable pub each_node : {A : Type 0} → (DerNode → Der A) → DerNodes → Der (List A)
each_node f nil = ok []
each_node f (cons n ns) = do a ← f n; rest ← each_node f ns; ok (a ∷ rest)

abbrev pub unwrapped : {A : Type 0} → (DerNode → Der A) → Option DerNode → Der (Option A)
unwrapped read none = ok none
unwrapped read (some tagged) = do node ← der_explicit tagged; value ← read node; ok (some value)

-- The value under an optional EXPLICIT tag.
unfoldable pub tagged : {A : Type 0} → ℕ → DerNodes → (DerNode → Der A) → Der (Option A)
tagged tag children read = do found ← der_find_context tag children; unwrapped read found

abbrev pub is_some : {A : Type 0} → Option A → Bool
is_some none = false
is_some (some a) = true

unfoldable pub root_of_trust_in : DerNodes → Der RootOfTrust
root_of_trust_in (cons key (cons locked (cons boot rest))) = do
  device_locked ← der_boolean locked
  verified_boot_state ← der_enumerated boot
  ok (record { device_locked = device_locked; verified_boot_state = verified_boot_state })
root_of_trust_in _ = err too_few_fields

abbrev pub has_nodes : DerNodes → Bool
has_nodes nil = false
has_nodes (cons n ns) = true

-- The tags are those of Keymaster.
unfoldable pub parse_authorization_list : DerNode → Der AndroidAuthorizationList
unfolding tagged root_of_trust_in each_node
parse_authorization_list node = do
  children ← der_sequence node
  purposes ← tagged 1 children (λ n. der_set n >>= each_node der_small_integer)
  origin ← tagged 702 children der_small_integer
  all_applications ← der_find_context 600 children
  root_of_trust ← tagged 704 children (λ n. der_sequence n >>= root_of_trust_in)
  application_id ← tagged 709 children der_octet_string
  os_version ← tagged 705 children der_small_integer
  os_patch_level ← tagged 706 children der_small_integer
  ok (record {
    present = has_nodes children;
    purposes = purposes;
    origin = origin;
    all_applications = is_some all_applications;
    root_of_trust = root_of_trust;
    attestation_application_id = application_id;
    os_version = os_version;
    os_patch_level = os_patch_level;
  })

-- The eight fields, the unique id among them being ignored.
unfoldable pub key_description_in : DerNodes → Der KeyDescription
unfolding parse_authorization_list
key_description_in
      (cons a (cons b (cons c (cons d (cons e (cons unique (cons f (cons g rest)))))))) =
    do
      attestation_version ← der_small_integer a
      attestation_level ← der_enumerated b
      keymaster_version ← der_small_integer c
      keymaster_level ← der_enumerated d
      challenge ← der_octet_string e
      software_enforced ← parse_authorization_list f
      hardware_enforced ← parse_authorization_list g
      ok (record {
        attestation_version = attestation_version;
        attestation_security_level = attestation_level;
        keymaster_version = keymaster_version;
        keymaster_security_level = keymaster_level;
        attestation_challenge = challenge;
        software_enforced = software_enforced;
        hardware_enforced = hardware_enforced;
      })
key_description_in _ = err too_few_fields

unfoldable pub parse_key_description : List ℕ → Der KeyDescription
unfolding key_description_in
parse_key_description der = do
  node ← parse_der der default_der_limits
  fields ← der_sequence node
  key_description_in fields

pub record AttestationApplicationId : Type 0 where
  pub package_names : List Text
  pub signature_digests : List Text

-- A missing node is a TypeError in the source.
abbrev pub octets_at : Option DerNode → Der (List ℕ)
octets_at none = err too_few_fields
octets_at (some n) = der_octet_string n

unfoldable pub package_name_in : DerNode → Der Text
package_name_in info = do
  parts ← der_sequence info
  name ← octets_at (first_node parts)
  ok (utf8_text name)

unfoldable pub digest_in : DerNode → Der Text
digest_in node = do digest ← der_octet_string node; ok (base64_text digest)

unfoldable pub application_id_in : DerNodes → Der AttestationApplicationId
unfolding package_name_in digest_in each_node
application_id_in (cons infos (cons digests rest)) = do
  info_nodes ← der_set infos
  package_names ← each_node package_name_in info_nodes
  digest_nodes ← der_set digests
  signature_digests ← each_node digest_in digest_nodes
  ok (record { package_names = package_names; signature_digests = signature_digests })
application_id_in _ = err too_few_fields

unfoldable pub try_parse_attestation_application_id : List ℕ → Option AttestationApplicationId
unfolding application_id_in
try_parse_attestation_application_id der = or_undefined (do
  node ← parse_der der default_der_limits
  fields ← der_sequence node
  application_id_in fields)
