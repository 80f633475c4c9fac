-- ===== src/Attestation/Tests/Ios.antt =====
-- A run of the verifier of iOS, and the theorems at it.
use sdidfy.Prelude.{◌≡◌, refl, ok, ◌↔◌, [], ◌∷◌}
use sdidfy.Attestation.Digits.{big_endian}
use sdidfy.Attestation.Texts.{utf16_length, utf8_bytes, utf8_of}
use sdidfy.Attestation.Base64.{
  decode_base64_strict, decode_base64url_strict, sextet_of, char_of, sextets, from_sextets,
  to_sextets, padding, base64_text, base64url_text,
}
use sdidfy.Attestation.Utf8.{decode_utf8, utf8_points, utf8_byte, lead_byte}
use sdidfy.Attestation.Cbor.{
  byte, raw_bytes, wide_argument, argument, count_argument, as_key, same_key, has_key, set_last,
  read_array, read_map, read_unsigned, read_negative, read_byte_string, read_text_string,
  read_array_item, read_map_item, by_major, read_value, decode_cbor, same_points,
}
use sdidfy.Attestation.Cbor.Access.{cbor_as_map, cbor_as_bytes, cbor_as_text, cbor_as_array}
use sdidfy.Attestation.Der
use sdidfy.Attestation.Der.{
  parse_der, read_node, read_children, read_header, read_length, long_length, read_tag_number,
  tag_octets, read_bytes, tag_class_of,
}
use sdidfy.Attestation.Der.Access.{
  der_expect, der_members, der_sequence, der_explicit, der_find_context, find_context,
  der_octet_string,
}
use sdidfy.Attestation.Der.Oid.{der_oid, oid_arcs}
use sdidfy.Attestation.Points.{bytes_equal, jwk_to_raw_point, key_object_to_raw_point}
use sdidfy.Attestation.X509.{
  verify_certificate_chain, check_certificates, check_links, check_anchors, find_extension,
  find_certificate_extension,
}
use sdidfy.Attestation.KeyAttestation.{read_certificates}
use sdidfy.Attestation.AuthData.{
  get, byte_strings, decode_attestation_object, parse_nonce_extension, parse_authenticator_data,
}
use sdidfy.Attestation.AppAttest.{
  verify_app_attest, ios_accepted, read_object, check_request, certified_nonce, check_nonce,
  check_environment, check_credential,
}
use sdidfy.Attestation.X509.Trust.{IsTrusted, verify_certificate_chain_iff}
use sdidfy.Attestation.Samples.{ios_crypto, ios_config, ios_request, ios_raw, certificate_of}

pub ios_run : verify_app_attest ios_crypto ios_config ios_request ≡ ok ios_accepted
unfolding verify_app_attest check_request read_object certified_nonce check_nonce check_environment
    check_credential get byte_strings decode_attestation_object parse_nonce_extension
    parse_authenticator_data read_certificates verify_certificate_chain check_certificates
    check_links check_anchors find_extension find_certificate_extension bytes_equal jwk_to_raw_point
    key_object_to_raw_point der_oid oid_arcs der_expect der_members der_sequence der_explicit
    der_find_context find_context der_octet_string parse_der read_node read_children read_header
    read_length long_length read_tag_number tag_octets read_bytes tag_class_of Der.byte cbor_as_map
    cbor_as_bytes cbor_as_text cbor_as_array byte raw_bytes wide_argument argument count_argument
    as_key same_key has_key set_last read_array read_map read_unsigned read_negative
    read_byte_string read_text_string read_array_item read_map_item by_major read_value decode_cbor
    same_points decode_utf8 utf8_points utf8_byte lead_byte decode_base64_strict
    decode_base64url_strict sextet_of char_of sextets from_sextets to_sextets padding base64_text
    base64url_text utf16_length utf8_bytes utf8_of big_endian
ios_run = refl

verify_certificate_chain_iff_example :
    (verify_certificate_chain ios_crypto (certificate_of ios_raw ∷ []) ios_config.anchors 5000
      ≡ ok tt)
    ↔ IsTrusted ios_crypto (certificate_of ios_raw ∷ []) ios_config.anchors 5000
verify_certificate_chain_iff_example =
    verify_certificate_chain_iff ios_crypto (certificate_of ios_raw ∷ []) ios_config.anchors 5000
