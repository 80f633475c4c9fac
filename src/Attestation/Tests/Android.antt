-- ===== src/Attestation/Tests/Android.antt =====
-- Runs of the verifiers of Android, and the theorems at them.
use sdidfy.Prelude.{◌≡◌, refl, ok}
use sdidfy.Attestation.Digits.{big_endian}
use sdidfy.Attestation.Texts.{
  utf16_length, is_space, trim, utf8_bytes, utf8_of, utf8_text, lossy_points, lossy_byte,
}
use sdidfy.Attestation.Utf8.{utf8_byte, lead_byte}
use sdidfy.Attestation.Base64.{
  decode_base64_strict, decode_base64url_strict, sextet_of, char_of, sextets, from_sextets,
  to_sextets, padding, base64_text, base64url_text,
}
use sdidfy.Attestation.Der
use sdidfy.Attestation.Der.{
  parse_der, read_node, read_children, read_header, read_length, long_length, read_tag_number,
  tag_octets, read_bytes, tag_class_of,
}
use sdidfy.Attestation.Der.Access.{
  der_expect, der_members, der_sequence, der_set, der_explicit, der_find_context, find_context,
  der_octet_string, der_integer, der_small_integer, der_enumerated, der_boolean,
  decode_twos_complement,
}
use sdidfy.Attestation.Der.Oid.{der_oid, oid_arcs}
use sdidfy.Attestation.Json.{Json, field_of}
use sdidfy.Attestation.Points.{
  bytes_equal, strings_equal, jwk_to_raw_point, key_object_to_raw_point,
}
use sdidfy.Attestation.Verdict.{trusted_environment}
use sdidfy.Attestation.X509.{
  verify_certificate_chain, check_certificates, check_links, check_anchors, find_extension,
  find_certificate_extension,
}
use sdidfy.Attestation.KeyDescription.{
  KeyDescription, each_node, tagged, root_of_trust_in, parse_authorization_list, key_description_in,
  parse_key_description, package_name_in, digest_in, application_id_in,
  try_parse_attestation_application_id,
}
use sdidfy.Attestation.ChainInput.{
  split_from, before, words, pem_bodies, encoded_certificates, decode_certificates,
  parse_certificate_chain_input,
}
use sdidfy.Attestation.KeyAttestation.{
  read_certificates, read_chain, describe_key, check_key_binding, check_application, proven_level,
  judge_key, verify_android_key_attestation,
}
use sdidfy.Attestation.IntegrityPayload.{
  IntegrityPayload, as_object, as_string, as_strings, optional_string_array, decimal,
  as_epoch_millis, optional_string, parse_integrity_payload,
}
use sdidfy.Attestation.PlayIntegrity.{
  check_request, check_payload, verify_play_integrity, android_accepted,
}
use sdidfy.Attestation.Samples.{android_crypto, android_input, android_config, android_request}

pub key_run : verify_android_key_attestation android_crypto android_input ≡ ok trusted_environment
unfolding verify_android_key_attestation read_chain read_certificates describe_key check_key_binding
    check_application proven_level judge_key split_from before words pem_bodies encoded_certificates
    decode_certificates parse_certificate_chain_input each_node tagged root_of_trust_in
    parse_authorization_list key_description_in parse_key_description package_name_in digest_in
    application_id_in try_parse_attestation_application_id verify_certificate_chain
    check_certificates check_links check_anchors find_extension find_certificate_extension
    bytes_equal jwk_to_raw_point key_object_to_raw_point der_oid oid_arcs der_expect der_members
    der_sequence der_set der_explicit der_find_context find_context der_octet_string der_integer
    der_small_integer der_enumerated der_boolean decode_twos_complement parse_der read_node
    read_children read_header read_length long_length read_tag_number tag_octets read_bytes
    tag_class_of Der.byte decode_base64_strict decode_base64url_strict sextet_of char_of sextets
    from_sextets to_sextets padding base64_text base64url_text trim is_space utf16_length utf8_bytes
    utf8_of utf8_text lossy_points lossy_byte utf8_byte lead_byte big_endian
key_run = refl

pub play_run :
    verify_play_integrity android_crypto android_config android_request
    ≡ ok (android_accepted android_config trusted_environment)
unfolding verify_play_integrity check_request check_payload strings_equal bytes_equal as_object
    as_string as_strings optional_string_array decimal as_epoch_millis optional_string
    parse_integrity_payload field_of utf16_length utf8_bytes utf8_of
play_run = rw key_run refl
