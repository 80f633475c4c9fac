-- ===== src/Attestation/Der/Tests.antt =====
-- Runs of packages/attestation/src/der.ts at concrete inputs.
use sdidfy.Prelude.{
  ℕ, ◌≡◌, refl, true, false, List, [], ◌∷◌, ◌+◌, ◌≤◌, length, All, ok, ◌↔◌, arith, if◌then◌else◌,
}
use sdidfy.Attestation.Digits.{IsByte}
use sdidfy.Attestation.Der.{
  DerNode, DerNodes, der_node, nil, cons, universal, context, default_der_limits, parse_der,
  read_node, read_children, read_header, read_length, long_length, read_tag_number, tag_octets,
  read_bytes, byte, tag_class_of,
}
use sdidfy.Attestation.Der.Writer.{write, IsDer, depth, count}
use sdidfy.Attestation.Der.Canonical.{parse_der-write}
use sdidfy.Attestation.Der.Limits.{parse_der-limits}
use sdidfy.Attestation.Der.Complete.{parse_der_iff}
use sdidfy.Attestation.Der.Access.{der_boolean, der_boolean-content, content_of, der_expect}

abbrev five : List ℕ
five = 48 ∷ 3 ∷ 2 ∷ 1 ∷ 5 ∷ []

abbrev five_node : DerNode
five_node =
    der_node universal true 16 (2 ∷ 1 ∷ 5 ∷ []) (cons (der_node universal false 2 (5 ∷ []) nil) nil)

five-IsByte : All IsByte five
five-IsByte = (omega arith, (omega arith, (omega arith, (omega arith, (omega arith, tt)))))

parse_five : parse_der five default_der_limits ≡ ok five_node
unfolding parse_der read_node read_children read_header read_length long_length read_tag_number
    tag_octets read_bytes byte tag_class_of
parse_five = refl

five_written : (write five_node ≡ five) × IsDer five_node
five_written = parse_der-write five default_der_limits five_node five-IsByte parse_five

parse_der-limits_run :
    (length five ≤ default_der_limits.max_bytes)
    × (depth five_node ≤ default_der_limits.max_depth + 1)
    × (count five_node ≤ default_der_limits.max_nodes)
parse_der-limits_run = parse_der-limits default_der_limits five five_node parse_five

parse_der_iff_example : (parse_der five default_der_limits ≡ ok five_node) ↔ (
    (write five_node ≡ five)
    × IsDer five_node
    × (length five ≤ default_der_limits.max_bytes)
    × (depth five_node ≤ default_der_limits.max_depth + 1)
    × (count five_node ≤ default_der_limits.max_nodes))
parse_der_iff_example = parse_der_iff five default_der_limits five_node five-IsByte

abbrev yes_node : DerNode
yes_node = der_node universal false 1 (0xff ∷ []) nil

yes_read : der_boolean yes_node ≡ ok true
unfolding der_boolean der_expect
yes_read = refl

der_boolean-content_run : content_of yes_node ≡ (if true then 0xff ∷ [] else 0x00 ∷ [])
der_boolean-content_run = der_boolean-content yes_node true yes_read

abbrev fields : DerNodes
fields = cons yes_node (cons (der_node context true 2 (1 ∷ 1 ∷ 0xff ∷ []) (cons yes_node nil)) nil)
