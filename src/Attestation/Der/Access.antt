-- ===== src/Attestation/Der/Access.antt =====
-- packages/attestation/src/der.ts: the typed accessors. A JS bigint is an integer of sign and size.
use sdidfy.Prelude.{
  ℕ, ◌+◌, ◌-◌, ◌^◌, Bool, true, false, not, ◌&&◌, ◌||◌, Option, none, some, List, [], ◌∷◌, ltb,
  ◌==◌, if◌then◌else◌, length, ◌≡◌, refl, inl, inr, arith, Bool-cases, ok, err, ◌>>=◌, ◌>>◌,
  throw_if,
}
use sdidfy.Prelude.Int.{ℤ, pos, negsuc, sub_ℕ}
use sdidfy.Attestation.Digits.{big_endian}
use sdidfy.Attestation.Der.{
  Der, DerNode, DerNodes, der_node, nil, cons, DerTagClass, universal, application, context,
  private_use, unexpected_tag, not_constructed, constructed_string, not_single_octet,
  not_der_boolean, empty_integer, non_minimal_integer, out_of_range, empty_bit_string, unused_bits,
  not_explicit, duplicate_tag,
}

abbrev pub same_class : DerTagClass → DerTagClass → Bool
same_class universal universal = true
same_class application application = true
same_class context context = true
same_class private_use private_use = true
same_class _ _ = false

-- `node.tagClass !== tagClass || node.tagNumber !== tagNumber`
unfoldable pub der_expect : DerNode → DerTagClass → ℕ → Der DerNode
der_expect (der_node c k n content children) tag_class tag_number =
    if not (same_class c tag_class) || not (n == tag_number)
    then err unexpected_tag
    else ok (der_node c k n content children)

abbrev pub constructed_of : DerNode → Bool
constructed_of (der_node c k n content children) = k

abbrev pub content_of : DerNode → List ℕ
content_of (der_node c k n content children) = content

abbrev pub nodes_of : DerNode → DerNodes
nodes_of (der_node c k n content children) = children

unfoldable pub der_members : ℕ → DerNode → Der DerNodes
der_members tag node = do
  checked ← der_expect node universal tag
  throw_if (not (constructed_of checked)) not_constructed
  ok (nodes_of checked)

unfoldable pub der_sequence : DerNode → Der DerNodes
unfolding der_members
der_sequence node = der_members 16 node

unfoldable pub der_set : DerNode → Der DerNodes
unfolding der_members
der_set node = der_members 17 node

-- `0x00 0x7f` and `0xff 0x80` at the front are redundant.
abbrev pub is_padded : List ℕ → Bool
is_padded (a ∷ b ∷ bs) = (a == 0 && ltb b 0x80) || (a == 0xff && not (ltb b 0x80))
is_padded _ = false

abbrev pub is_negative : List ℕ → Bool
is_negative [] = false
is_negative (a ∷ bs) = not (ltb a 0x80)

abbrev pub is_empty : List ℕ → Bool
is_empty [] = true
is_empty (b ∷ bs) = false

unfoldable pub decode_twos_complement : List ℕ → Der ℤ
decode_twos_complement content = do
  throw_if (is_empty content) empty_integer
  throw_if (is_padded content) non_minimal_integer
  ok (
      if is_negative content
      then sub_ℕ (big_endian 0 content) (256 ^ length content)
      else pos (big_endian 0 content))

unfoldable pub der_integer : DerNode → Der ℤ
der_integer node = do
  checked ← der_expect node universal 2
  decode_twos_complement (content_of checked)

-- Beyond `Number.MIN_SAFE_INTEGER` and `Number.MAX_SAFE_INTEGER`, which are ±(2^53 - 1).
abbrev pub is_unsafe : ℤ → Bool
is_unsafe (pos n) = ltb (2 ^ 53 - 1) n
is_unsafe (negsuc n) = ltb (2 ^ 53 - 1) (n + 1)

unfoldable pub der_small_integer : DerNode → Der ℤ
der_small_integer node = do
  value ← der_integer node
  throw_if (is_unsafe value) out_of_range
  ok value

abbrev pub small_enum : ℤ → Der ℕ
small_enum (pos n) = if ltb 0xffff n then err out_of_range else ok n
small_enum (negsuc n) = err out_of_range

unfoldable pub der_enumerated : DerNode → Der ℕ
der_enumerated node = do
  checked ← der_expect node universal 10
  value ← decode_twos_complement (content_of checked)
  small_enum value

abbrev pub boolean_octet : List ℕ → Der Bool
boolean_octet (b ∷ []) =
    if not (b == 0x00) && not (b == 0xff) then err not_der_boolean else ok (b == 0xff)
boolean_octet _ = err not_single_octet

unfoldable pub der_boolean : DerNode → Der Bool
der_boolean node = do checked ← der_expect node universal 1; boolean_octet (content_of checked)

unfoldable pub der_octet_string : DerNode → Der (List ℕ)
der_octet_string node = do
  checked ← der_expect node universal 4
  throw_if (constructed_of checked) constructed_string
  ok (content_of checked)

abbrev pub whole_octets : List ℕ → Der (List ℕ)
whole_octets [] = err empty_bit_string
whole_octets (unused ∷ bits) = if not (unused == 0) then err unused_bits else ok bits

unfoldable pub der_bit_string : DerNode → Der (List ℕ)
der_bit_string node = do
  checked ← der_expect node universal 3
  throw_if (constructed_of checked) constructed_string
  whole_octets (content_of checked)

abbrev pub only_child : DerNodes → Der DerNode
only_child (cons n nil) = ok n
only_child _ = err not_explicit

unfoldable pub der_explicit : DerNode → Der DerNode
der_explicit (der_node c k n content children) =
    if not (same_class c context) || not k then err not_explicit else only_child children

abbrev pub has_context_tag : ℕ → DerNode → Bool
has_context_tag tag (der_node c k n content children) = same_class c context && n == tag

-- The loop of `derFindContext`, with what it has found.
unfoldable pub find_context : ℕ → Option DerNode → DerNodes → Der (Option DerNode)
find_context tag found nil = ok found
find_context tag none (cons n ns) =
    find_context tag (if has_context_tag tag n then some n else none) ns
find_context tag (some m) (cons n ns) =
    let more = find_context tag (some m) ns in
    if has_context_tag tag n then err duplicate_tag else more

unfoldable pub der_find_context : ℕ → DerNodes → Der (Option DerNode)
unfolding find_context
der_find_context tag children = find_context tag none children

-- The children that carry the tag, in order.
pub carriers : ℕ → DerNodes → List DerNode
carriers tag nil = []
carriers tag (cons n ns) =
    let more = carriers tag ns in if has_context_tag tag n then n ∷ more else more

-- The answer, by the number of children that carry the tag.
abbrev pub sole : List DerNode → Der (Option DerNode)
sole [] = ok none
sole (n ∷ []) = ok (some n)
sole (n ∷ m ∷ ns) = err duplicate_tag

find_context_after :
    (tag : ℕ) (m : DerNode) (ns : DerNodes)
    → find_context tag (some m) ns ≡ sole (m ∷ carriers tag ns)
unfolding find_context carriers
find_context_after tag m nil = refl
find_context_after tag m (cons n ns) = elim (Bool-cases (has_context_tag tag n)) [
  | inl hit ↦ rw (hit, find_context, carriers) refl
  | inr miss ↦ rw (miss, find_context, carriers) (find_context_after tag m ns)
]

-- A tagged field is found exactly when one child carries the tag, is absent when none does, and
-- two of them are refused, wherever they stand.
pub der_find_context-sole :
    (tag : ℕ) (ns : DerNodes) → der_find_context tag ns ≡ sole (carriers tag ns)
unfolding der_find_context carriers
der_find_context-sole tag nil = refl
der_find_context-sole tag (cons n ns) = elim (Bool-cases (has_context_tag tag n)) [
  | inl hit ↦ rw (hit, find_context, carriers) (find_context_after tag n ns)
  | inr miss ↦ rw (miss, find_context, carriers) (der_find_context-sole tag ns)
]

-- A DER boolean has one encoding: the octet that is accepted is fixed by the answer.
pub der_boolean-content :
    (node : DerNode) (b : Bool)
    → der_boolean node ≡ ok b
    → content_of node ≡ (if b then 0xff ∷ [] else 0x00 ∷ [])
unfolding der_boolean der_expect
der_boolean-content (der_node c k n [] children) b e = ground arith
der_boolean-content (der_node c k n (x ∷ []) children) b e = ground arith
der_boolean-content (der_node c k n (x ∷ y ∷ xs) children) b e = ground arith
