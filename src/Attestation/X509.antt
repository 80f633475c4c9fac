-- ===== src/Attestation/X509.antt =====
-- packages/attestation/src/x509.ts: the walk along a certificate chain to a pinned root, and the
-- search for an extension. The detail of a result is a constructor.
pub mod Window
pub mod Trust
use sdidfy.Prelude.{
  ℕ, zero, suc, ◌+◌, Bool, true, false, not, ◌&&◌, ◌||◌, Option, none, some, List, [], ◌∷◌, ltb,
  ◌==◌, if◌then◌else◌, length, Result, ok, err, ◌>>=◌, ◌>>◌, throw_if,
}
use sdidfy.Prelude.Int.{ℤ, pos, negsuc}
use sdidfy.Attestation.Texts.{same_text}
use sdidfy.Attestation.Node.{Certificate, NodeCrypto}
use sdidfy.Attestation.Der.{
  Der, DerNode, DerNodes, nil, cons, der_node, DerTagClass, universal, default_der_limits,
  parse_der,
}
use sdidfy.Attestation.Der.Access.{
  der_sequence, der_find_context, der_explicit, same_class, content_of,
}
use sdidfy.Attestation.Der.Oid.{der_oid, same_oid}

abbrev pub max_chain_length : ℕ
max_chain_length = 8

pub data ChainFault : Type 0 where
  empty_chain chain_too_long no_anchors unreadable_validity not_yet_valid expired not_a_ca :
      ChainFault
  not_issued bad_signature no_pinned_root : ChainFault

-- `now < from` and `now > to`
abbrev pub is_before : ℕ → ℤ → Bool
is_before now (pos n) = ltb now n
is_before now (negsuc n) = false

abbrev pub is_after : ℕ → ℤ → Bool
is_after now (pos n) = ltb n now
is_after now (negsuc n) = true

abbrev pub check_window : ℕ → Option ℤ → Option ℤ → Result ChainFault (Unit {0})
check_window now (some from) (some to) = do
  throw_if (is_before now from) not_yet_valid
  throw_if (is_after now to) expired
  ok tt
check_window now (some from) none = err unreadable_validity
check_window now none to = err unreadable_validity

-- The first loop; `issues` is `i > 0`.
unfoldable pub check_certificates : ℕ → Bool → List Certificate → Result ChainFault (Unit {0})
check_certificates now issues [] = ok tt
check_certificates now issues (cert ∷ certs) = do
  check_window now cert.valid_from cert.valid_to
  throw_if (issues && not cert.ca) not_a_ca
  check_certificates now true certs

-- `try { ... } catch { return false; }`
abbrev pub or_false : Option Bool → Bool
or_false none = false
or_false (some b) = b

abbrev pub safe_check_issued : NodeCrypto → Certificate → Certificate → Bool
safe_check_issued crypto child parent = or_false (crypto.check_issued child parent)

abbrev pub safe_verify : NodeCrypto → Certificate → Certificate → Bool
safe_verify crypto child parent = or_false (crypto.verify child parent.public_key)

-- The second loop.
unfoldable pub check_links : NodeCrypto → List Certificate → Result ChainFault (Unit {0})
check_links crypto [] = ok tt
check_links crypto (top ∷ []) = ok tt
check_links crypto (child ∷ parent ∷ certs) = do
  throw_if (not (safe_check_issued crypto child parent)) not_issued
  throw_if (not (safe_verify crypto child parent)) bad_signature
  check_links crypto (parent ∷ certs)

-- `chain[chain.length - 1]`, for a chain that begins with `cert`.
abbrev pub top_of : Certificate → List Certificate → Certificate
top_of cert [] = cert
top_of cert (c ∷ cs) = top_of c cs

-- The third loop.
unfoldable pub check_anchors :
    NodeCrypto → Certificate → List Certificate → Result ChainFault (Unit {0})
check_anchors crypto top [] = err no_pinned_root
check_anchors crypto top (anchor ∷ anchors) =
    let more = check_anchors crypto top anchors in
    if same_text top.raw anchor.raw
    then ok tt
    else if not anchor.ca
    then more
    else if safe_check_issued crypto top anchor && safe_verify crypto top anchor
    then ok tt
    else more

unfoldable pub verify_certificate_chain :
    NodeCrypto → List Certificate → List Certificate → ℕ → Result ChainFault (Unit {0})
verify_certificate_chain crypto [] anchors now = err empty_chain
verify_certificate_chain crypto (leaf ∷ certs) anchors now = do
  throw_if (ltb max_chain_length (length (leaf ∷ certs))) chain_too_long
  throw_if (length anchors == 0) no_anchors
  check_certificates now false (leaf ∷ certs)
  check_links crypto (leaf ∷ certs)
  check_anchors crypto (top_of leaf certs) anchors

abbrev pub first_node : DerNodes → Option DerNode
first_node nil = none
first_node (cons n ns) = some n

abbrev pub last_node : DerNodes → Option DerNode
last_node nil = none
last_node (cons n nil) = some n
last_node (cons n (cons m ns)) = last_node (cons m ns)

-- The content of a universal OCTET STRING.
abbrev pub octets_of : Option DerNode → Option (List ℕ)
octets_of none = none
octets_of (some (der_node c k n content children)) =
    if not (same_class c universal) || not (n == 4) then none else some content

-- The loop over the extensions.
unfoldable pub find_extension : List ℕ → DerNodes → Der (Option (List ℕ))
find_extension oid nil = ok none
find_extension oid (cons extension extensions) = do
  parts ← der_sequence extension
  let more = find_extension oid extensions
  elim (first_node parts) [
    | none ↦ more
    | some id_node ↦ do
      found ← der_oid id_node
      if same_oid found oid then ok (octets_of (last_node parts)) else more
  ]

abbrev pub extensions_of : List ℕ → Option DerNode → Der (Option (List ℕ))
extensions_of oid none = ok none
extensions_of oid (some tag) = do
  wrapped ← der_explicit tag
  extensions ← der_sequence wrapped
  find_extension oid extensions

abbrev pub extension_in : List ℕ → Option DerNode → Der (Option (List ℕ))
extension_in oid none = ok none
extension_in oid (some tbs) = do
  children ← der_sequence tbs
  tag ← der_find_context 3 children
  extensions_of oid tag

unfoldable pub find_certificate_extension : Certificate → List ℕ → Der (Option (List ℕ))
find_certificate_extension cert oid = do
  parsed ← parse_der cert.raw default_der_limits
  certificate ← der_sequence parsed
  extension_in oid (first_node certificate)
