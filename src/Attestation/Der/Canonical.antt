-- ===== src/Attestation/Der/Canonical.antt =====
-- der.ts, whole elements: each accepted input is the one DER encoding of the node that is returned.
use mathlib.Core.List.{append_assoc, append-nil}
use mathlib.Core.Path.{subst}
use sdidfy.Prelude.{
  ℕ, zero, suc, ◌+◌, ◌/◌, ◌%◌, ◌^◌, ◌≤◌, ◌<◌, ◌≡◌, refl, sym, ap, ◌∙◌, List, [], ◌∷◌, ◌++◌, arith,
  length, All, ok, false, true, Bool, >>=-eq-ok, ok-injective, throw_if-eq-ok, All-suffix, All-take,
  All-drop, take, drop, take-append-drop, length-take, ltb, ◌==◌,
}
use sdidfy.Attestation.Digits.{IsByte}
use sdidfy.Attestation.Der.{
  DerHeader, DerReader, DerNode, DerNodes, der_node, nil, Der, DerLimits, byte, read_tag_number,
  read_length, read_header, read_children, children_of, read_node, tag_class_of, parse_der,
  require_end,
}
use sdidfy.Attestation.Der.Writer.{write_tag, write_length, write, write_all, IsDer, AreDer, Fits}
use sdidfy.Attestation.Der.Tag.{read_tag_number-write_tag}
use sdidfy.Attestation.Der.Length.{write_length-read_length}

abbrev header_bytes : DerHeader → List ℕ
header_bytes h =
    write_tag h.tag_class h.constructed h.tag_number ++ write_length (length h.content) ++ h.content

record HeaderIs (bs : List ℕ) (h : DerHeader) : Type 0 where
  split : bs ≡ header_bytes h ++ h.after
  small_tag : h.tag_number < 2 ^ 28
  small_length : length h.content < 2 ^ 32
  bytes : All IsByte h.content
  bytes_after : All IsByte h.after

-- What `read_header` took apart.
header_parts :
    (i n len : ℕ) (bs r1 r2 : List ℕ)
    → All IsByte (i ∷ bs)
    → read_tag_number i bs ≡ ok (n, r1)
    → read_length r1 ≡ ok (len, r2)
    → len ≤ length r2
    → HeaderIs (i ∷ bs) (record {
      tag_class = tag_class_of (i / 64 % 4);
      constructed = i / 32 % 2 == 1;
      tag_number = n;
      content = take len r2;
      after = drop len r2;
    })
header_parts i n len bs r1 r2 h tag lengths fits =
    let (s1, small) = read_tag_number-write_tag i bs n r1 h tag in
    let h1 : All IsByte r1 =
      All-suffix IsByte (write_tag (tag_class_of (i / 64 % 4)) (i / 32 % 2 == 1) n) r1 (i ∷ bs) s1
        h in
    let (s2, short) = write_length-read_length r1 len r2 h1 lengths in
    let h2 : All IsByte r2 = All-suffix IsByte (write_length len) r2 r1 s2 h1 in
    let exact = length-take len r2 fits in
    let t : List ℕ = write_tag (tag_class_of (i / 64 % 4)) (i / 32 % 2 == 1) n in
    record {
      split =
          s1
          ∙ ap (◌++◌ t) (s2 ∙ ap (◌++◌ (write_length len)) (sym (take-append-drop len r2)))
          ∙ simp (append_assoc, exact);
      small_tag = small;
      small_length = omega arith;
      bytes = All-take IsByte len r2 h2;
      bytes_after = All-drop IsByte len r2 h2;
    }

read_header-HeaderIs :
    (bs : List ℕ) (h : DerHeader) → All IsByte bs → read_header bs ≡ ok h → HeaderIs bs h
unfolding read_header byte
read_header-HeaderIs [] h hb e = cc
read_header-HeaderIs (i ∷ bs) h hb e =
    let ((n, r1), tag, e1) = >>=-eq-ok (read_tag_number i bs) _ e in
    let ((len, r2), lengths, e2) = >>=-eq-ok (read_length r1) _ e1 in
    let (fits, e3) = throw_if-eq-ok (ltb (length r2) len) _ _ e2 in
    subst (HeaderIs (i ∷ bs)) (ok-injective e3)
      (header_parts i n len bs r1 r2 hb tag lengths (ground arith))

-- What a reader of one element owes to the loop over the children.
abbrev Reads : DerReader → DerNode × DerReader → Type 0
Reads r (n, r') = (r.rest ≡ write n ++ r'.rest) × IsDer n × All IsByte r'.rest

abbrev IsSound : (DerReader → Der (DerNode × DerReader)) → Type 0
IsSound read =
    (r : DerReader) (n : DerNode) (r' : DerReader)
    → All IsByte r.rest
    → read r ≡ ok (n, r')
    → (r.rest ≡ write n ++ r'.rest) × IsDer n × All IsByte r'.rest

abbrev IsWritten : List ℕ → DerNodes → Type 0
IsWritten bs ns = (bs ≡ write_all ns) × AreDer ns

read_children-writes :
    (read : DerReader → Der (DerNode × DerReader)) (fuel : ℕ) (bs : List ℕ) (nodes : ℕ)
    (ns : DerNodes) (nodes' : ℕ)
    → IsSound read
    → All IsByte bs
    → read_children read fuel bs nodes ≡ ok (ns, nodes')
    → IsWritten bs ns
unfolding read_children
read_children-writes read zero [] nodes ns nodes' sound h e =
    subst (IsWritten _) (ap (λ p. p.0) (ok-injective e)) (refl, tt)
read_children-writes read (suc fuel) [] nodes ns nodes' sound h e =
    subst (IsWritten _) (ap (λ p. p.0) (ok-injective e)) (refl, tt)
read_children-writes read zero (b ∷ bs) nodes ns nodes' sound h e = cc
read_children-writes read (suc fuel) (b ∷ bs) nodes ns nodes' sound h e =
    let ((child, inner), first, e1) =
      >>=-eq-ok (read (record { rest = b ∷ bs; nodes = nodes })) _ e in
    let ((children, last), more, e2) =
      >>=-eq-ok (read_children read fuel inner.rest inner.nodes) _ e1 in
    let (s1, der, h1) = sound _ child inner h first in
    let (s2, ders) =
      read_children-writes read fuel inner.rest inner.nodes children last sound h1 more in
    subst (IsWritten _) (ap (λ p. p.0) (ok-injective e2))
      (s1 ∙ ap (◌++◌ (write child)) s2, (der, ders))

abbrev node_of : DerHeader → DerNodes → DerNode
node_of h children = der_node h.tag_class h.constructed h.tag_number h.content children

node_of_sound :
    (bs : List ℕ) (h : DerHeader) (children : DerNodes)
    → HeaderIs bs h
    → Fits h.constructed h.content children
    → AreDer children
    → (bs ≡ write (node_of h children) ++ h.after) × IsDer (node_of h children) × All IsByte h.after
unfolding write
node_of_sound bs h children v fits ders =
    (v.split, (v.small_tag, v.small_length, fits, ders), v.bytes_after)

children_of-Fits :
    (read : DerReader → Der (DerNode × DerReader)) (k : Bool) (content : List ℕ) (nodes : ℕ)
    (ns : DerNodes) (nodes' : ℕ)
    → IsSound read
    → All IsByte content
    → children_of read k content nodes ≡ ok (ns, nodes')
    → Fits k content ns × AreDer ns
children_of-Fits read true content nodes ns nodes' sound h e =
    read_children-writes read (length content) content nodes ns nodes' sound h e
children_of-Fits read false content nodes ns nodes' sound h e =
    subst (λ ns. (ns ≡ nil) × AreDer ns) (ap (λ p. p.0) (ok-injective e)) (refl, tt)

pub read_node-IsSound : (levels : ℕ) (limits : DerLimits) → IsSound (read_node levels limits)
unfolding read_node
read_node-IsSound zero limits r n r' h e = cc
read_node-IsSound (suc levels) limits r n r' hr e =
    let (few, e1) = throw_if-eq-ok (ltb limits.max_nodes (r.nodes + 1)) _ _ e in
    let (h, header, e2) = >>=-eq-ok (read_header r.rest) _ e1 in
    let ((ns, last), more, e3) =
      >>=-eq-ok (children_of (read_node levels limits) h.constructed h.content (r.nodes + 1)) _
        e2 in
    let v = read_header-HeaderIs r.rest h hr header in
    let (fits, ders) =
      children_of-Fits (read_node levels limits) h.constructed h.content (r.nodes + 1) ns last
        (read_node-IsSound levels limits) v.bytes more in
    let out = node_of_sound r.rest h ns v fits ders in subst (Reads r) (ok-injective e3) out

require_end-eq-ok :
    (m : DerNode) (r : DerReader) (n : DerNode)
    → require_end (m, r) ≡ ok n
    → (r.rest ≡ []) × (m ≡ n)
require_end-eq-ok m r n e = ground arith

-- Whatever the parser accepts is byte for byte the DER encoding of the node that it returns, and
-- that node is well formed all the way down: two parsers that agree on the node agree on the bytes.
pub parse_der-write :
    (input : List ℕ) (limits : DerLimits) (n : DerNode)
    → All IsByte input
    → parse_der input limits ≡ ok n
    → (write n ≡ input) × IsDer n
unfolding parse_der
parse_der-write input limits n h e =
    let (small, e1) = throw_if-eq-ok (ltb limits.max_bytes (length input)) _ _ e in
    let ((m, r), read, e2) =
      >>=-eq-ok (read_node (suc limits.max_depth) limits (record { rest = input; nodes = 0 })) _
        e1 in
    let (whole, same) = require_end-eq-ok m r n e2 in
    let (split, der, _) = read_node-IsSound (suc limits.max_depth) limits _ m r h read in
    (sym (split ∙ ap (◌++◌ (write m)) whole ∙ append-nil _ ∙ ap write same), subst IsDer same der)

-- No two inputs are read as one node: nothing can be smuggled past a check of the node.
pub parse_der_injective :
    (a b : List ℕ) (limits : DerLimits) (n : DerNode)
    → All IsByte a
    → All IsByte b
    → parse_der a limits ≡ ok n
    → parse_der b limits ≡ ok n
    → a ≡ b
parse_der_injective a b limits n ha hb ea eb =
    sym (parse_der-write a limits n ha ea).0 ∙ (parse_der-write b limits n hb eb).0
