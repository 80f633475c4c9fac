-- ===== src/Attestation/Der.antt =====
-- packages/attestation/src/der.ts: the reader. A `DerReader` is the bytes from its position on and
-- its element count. Masks and shifts on bytes are written as `/` and `%`.
pub mod Access
pub mod Oid
pub mod Writer
pub mod Tag
pub mod Length
pub mod Canonical
pub mod Header
pub mod LengthReads
pub mod Limits
pub mod Complete
pub mod Tests
use sdidfy.Prelude.{
  ℕ, zero, suc, ◌+◌, ◌*◌, ◌/◌, ◌%◌, ◌≡◌, Bool, true, false, ◌&&◌, List, [], ◌∷◌, ltb, ◌==◌, leb,
  if◌then◌else◌, length, take, drop, Result, ok, err, ◌>>=◌, ◌>>◌, throw_if,
}
use sdidfy.Attestation.Digits.{big_endian}

pub data DerError : Type 0 where
  too_big trailing_bytes unexpected_end too_deep too_many_nodes overrun : DerError
  non_minimal_tag tag_too_large tag_too_long tag_wants_short_form : DerError
  indefinite_length length_too_long length_leading_zero length_wants_short_form : DerError
  unexpected_tag not_constructed constructed_string not_single_octet not_der_boolean : DerError
  empty_integer non_minimal_integer out_of_range : DerError
  empty_bit_string unused_bits not_explicit duplicate_tag : DerError
  empty_oid truncated_oid non_minimal_arc arc_too_large too_few_fields : DerError
  -- No error of the source: the loop over the children made no progress.
  stalled : DerError

pub data DerTagClass : Type 0 where
  universal application context private_use : DerTagClass

-- tagClass, constructed, tagNumber, content, children
mutual
  pub data DerNode : Type 0 where
    der_node : DerTagClass → Bool → ℕ → List ℕ → DerNodes → DerNode

  pub data DerNodes : Type 0 where
    nil : DerNodes
    cons : DerNode → DerNodes → DerNodes

pub record DerLimits : Type 0 where
  pub max_depth : ℕ
  pub max_nodes : ℕ
  pub max_bytes : ℕ

abbrev pub default_der_limits : DerLimits
default_der_limits = record { max_depth = 24; max_nodes = 4096; max_bytes = 64 * 1024 }

pub record DerReader : Type 0 where
  pub rest : List ℕ
  pub nodes : ℕ

abbrev pub Der : Type 0 → Type 0
Der A = Result DerError A

unfoldable pub byte : List ℕ → Der (ℕ × List ℕ)
byte [] = err unexpected_end
byte (b ∷ bs) = ok (b, bs)

-- `for (let i = 0; i < count; i++) bytes.push(this.byte())`
unfoldable pub read_bytes : ℕ → List ℕ → Der (List ℕ × List ℕ)
read_bytes zero bs = ok ([], bs)
read_bytes (suc n) [] = err unexpected_end
read_bytes (suc n) (b ∷ bs) = do (read, rest) ← read_bytes n bs; ok (b ∷ read, rest)

-- The loop of `readTagNumber`, one round to a byte.
unfoldable pub tag_octets : List ℕ → ℕ → ℕ → Der (ℕ × List ℕ)
tag_octets [] value octets = err unexpected_end
tag_octets (b ∷ bs) value octets =
    let value' = value * 128 + b % 128 in
    let more = tag_octets bs value' (octets + 1) in
    if octets == 0 && b == 0x80
    then err non_minimal_tag
    else if ltb 0x0fff_ffff value'
    then err tag_too_large
    else if ltb b 0x80
    then ok (value', bs)
    else if ltb 4 (octets + 1)
    then err tag_too_long
    else more

unfoldable pub read_tag_number : ℕ → List ℕ → Der (ℕ × List ℕ)
read_tag_number first bs =
    let high = do
      (value, rest) ← tag_octets bs 0 0
      throw_if (ltb value 0x1f) tag_wants_short_form
      ok (value, rest)
    in if first % 32 == 0x1f then high else ok (first % 32, bs)

-- `bytes[0] === 0x00`
abbrev pub leads_with_zero : List ℕ → Bool
leads_with_zero [] = false
leads_with_zero (b ∷ bs) = b == 0

unfoldable pub long_length : ℕ → List ℕ → Der (ℕ × List ℕ)
long_length count bs = do
  throw_if (ltb 4 count) length_too_long
  (read, rest) ← read_bytes count bs
  throw_if (leads_with_zero read) length_leading_zero
  throw_if (ltb (big_endian 0 read) 0x80) length_wants_short_form
  ok (big_endian 0 read, rest)

unfoldable pub read_length : List ℕ → Der (ℕ × List ℕ)
read_length [] = err unexpected_end
read_length (first ∷ bs) =
    if first == 0x80
    then err indefinite_length
    else if ltb first 0x80
    then ok (first, bs)
    else long_length (first % 128) bs

-- `TAG_CLASSES[(identifier >> 6) & 0x03]`
unfoldable pub tag_class_of : ℕ → DerTagClass
tag_class_of bits =
    if bits == 0
    then universal
    else if bits == 1
    then application
    else if bits == 2
    then context
    else private_use

-- Everything of an element but its children: the header, and the content that it declares.
pub record DerHeader : Type 0 where
  pub tag_class : DerTagClass
  pub constructed : Bool
  pub tag_number : ℕ
  pub content : List ℕ
  pub after : List ℕ

unfoldable pub read_header : List ℕ → Der DerHeader
read_header bs = do
  (identifier, bs1) ← byte bs
  (tag_number, bs2) ← read_tag_number identifier bs1
  (len, bs3) ← read_length bs2
  throw_if (ltb (length bs3) len) overrun
  ok (record {
    tag_class = tag_class_of (identifier / 64 % 4);
    constructed = identifier / 32 % 2 == 1;
    tag_number = tag_number;
    content = take len bs3;
    after = drop len bs3;
  })

-- `while (inner.remaining() > 0)`, with the reader of one child and a bound on the rounds.
unfoldable pub read_children :
    (DerReader → Der (DerNode × DerReader)) → ℕ → List ℕ → ℕ → Der (DerNodes × ℕ)
read_children read_child fuel [] nodes = ok (nil, nodes)
read_children read_child zero (b ∷ bs) nodes = err stalled
read_children read_child (suc fuel) (b ∷ bs) nodes = do
  (child, inner) ← read_child (record { rest = b ∷ bs; nodes = nodes })
  (children, nodes') ← read_children read_child fuel inner.rest inner.nodes
  ok (cons child children, nodes')

-- Only a constructed element has children; they are read over its content alone.
abbrev pub children_of :
    (DerReader → Der (DerNode × DerReader)) → Bool → List ℕ → ℕ → Der (DerNodes × ℕ)
children_of read_child constructed content nodes = elim constructed [
  | true ↦ read_children read_child (length content) content nodes
  | false ↦ ok (nil, nodes)
]

-- `levels` is `maxDepth + 1 - depth`, so that none is left just where `depth > maxDepth`.
unfoldable pub read_node : ℕ → DerLimits → DerReader → Der (DerNode × DerReader)
read_node zero limits r = err too_deep
read_node (suc levels) limits r = do
  let nodes = r.nodes + 1
  throw_if (ltb limits.max_nodes nodes) too_many_nodes
  h ← read_header r.rest
  (children, nodes') ← children_of (read_node levels limits) h.constructed h.content nodes
  ok (
    der_node h.tag_class h.constructed h.tag_number h.content children,
    record { rest = h.after; nodes = nodes' },
  )

-- `requireEnd`
abbrev pub require_end : DerNode × DerReader → Der DerNode
require_end (node, r) = elim r.rest [ [] ↦ ok node | b ∷ bs ↦ err trailing_bytes ]

unfoldable pub parse_der : List ℕ → DerLimits → Der DerNode
parse_der input limits = do
  throw_if (ltb limits.max_bytes (length input)) too_big
  read ← read_node (suc limits.max_depth) limits (record { rest = input; nodes = 0 })
  require_end read
