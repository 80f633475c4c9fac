-- ===== src/Attestation/Der/Complete.antt =====
-- der.ts: every well-formed tree within the caps is read back from its encoding.
use mathlib.Core.List.{append_assoc, append-nil}
use sdidfy.Prelude.{
  ℕ, zero, suc, ◌+◌, ◌^◌, ◌≤◌, ◌<◌, ◌≡◌, ◌↔◌, refl, ap, ◌∙◌, List, [], ◌∷◌, ◌++◌, arith, length,
  length-append, All, ok, false, true, Bool, le→ltb, ltb, take_prefix, drop_prefix,
}
use sdidfy.Attestation.Digits.{IsByte}
use sdidfy.Attestation.Der.{
  DerTagClass, DerReader, DerNode, DerNodes, der_node, nil, cons, Der, DerLimits, byte, read_header,
  read_children, children_of, read_node, parse_der,
}
use sdidfy.Attestation.Der.Writer.{
  write_tag, write_length, write, write_all, IsDer, AreDer, Fits, depth, depth_all, count,
  count_all,
}
use sdidfy.Attestation.Der.Header.{tag_reads}
use sdidfy.Attestation.Der.LengthReads.{read_length-write_length}
use sdidfy.Attestation.Der.Canonical.{parse_der-write}
use sdidfy.Attestation.Der.Limits.{parse_der-limits}

header_reads :
    (c : DerTagClass) (k : Bool) (n : ℕ) (content rest : List ℕ)
    → n < 2 ^ 28
    → length content < 2 ^ 32
    → read_header ((write_tag c k n ++ write_length (length content) ++ content) ++ rest)
      ≡ ok (record {
        tag_class = c;
        constructed = k;
        tag_number = n;
        content = content;
        after = rest;
      })
unfolding read_header byte
header_reads c k n content rest small short =
    let body : List ℕ = write_length (length content) ++ (content ++ rest) in
    let t = tag_reads c k n body small in
    let fits : ltb (length (content ++ rest)) (length content) ≡ false =
      le→ltb _ _ (omega (arith, length-append content rest)) in
    let shape : (write_tag c k n ++ write_length (length content) ++ content) ++ rest
        ≡ t.first ∷ t.tail =
      simp append_assoc t.split in
    rw
      (
        shape,
        t.number,
        read_length-write_length (length content) (content ++ rest) short,
        fits,
        t.class_field,
        t.form_field,
        take_prefix content rest,
        drop_prefix content rest,
      )
      refl

-- An encoding is never empty.
write-ne-nil : (n : DerNode) → IsDer n → (b : ℕ) × (bs : List ℕ) × (write n ≡ b ∷ bs)
unfolding write
write-ne-nil (der_node c k n content children) (small, short, fits, ders) =
    let t = tag_reads c k n (write_length (length content) ++ content) small in
    (t.first, t.tail, simp append_assoc t.split)

children_step :
    (read : DerReader → Der (DerNode × DerReader)) (fuel nodes nodes' last : ℕ) (l rest : List ℕ)
    (n : DerNode) (ns : DerNodes)
    → ((b : ℕ) × (bs : List ℕ) × (l ≡ b ∷ bs))
    → length l ≤ fuel
    → read (record { rest = l; nodes = nodes }) ≡ ok (n, record { rest = rest; nodes = nodes' })
    → ((fuel' : ℕ) → fuel ≡ suc fuel' → read_children read fuel' rest nodes' ≡ ok (ns, last))
    → read_children read fuel l nodes ≡ ok (cons n ns, last)
unfolding read_children
children_step read zero nodes nodes' last l rest n ns (b, bs, shape) enough first more =
    absurd (omega (arith, ap length shape))
children_step read (suc fuel) nodes nodes' last l rest n ns (b, bs, shape) enough first more =
    let first' : read (record { rest = b ∷ bs; nodes = nodes })
        ≡ ok (n, record { rest = rest; nodes = nodes' }) =
      rw shape at first in
    rw (shape, read_children) (rw (first', more fuel refl) refl)

children_of-Fits :
    (read : DerReader → Der (DerNode × DerReader)) (k : Bool) (content : List ℕ) (ns : DerNodes)
    (nodes : ℕ)
    → Fits k content ns
    → read_children read (length (write_all ns)) (write_all ns) nodes
      ≡ ok (ns, nodes + count_all ns)
    → children_of read k content nodes ≡ ok (ns, nodes + count_all ns)
children_of-Fits read true content ns nodes fits e = rw fits e
children_of-Fits read false content ns nodes fits e =
    rw fits (ap (λ (m : ℕ). ok (nil, m)) (omega arith))

mutual
  unfolding read_node read_children write

  read_node-write :
      (n : DerNode) (levels : ℕ) (limits : DerLimits) (rest : List ℕ) (nodes : ℕ)
      → IsDer n
      → depth n ≤ levels
      → nodes + count n ≤ limits.max_nodes
      → read_node levels limits (record { rest = write n ++ rest; nodes = nodes })
        ≡ ok (n, record { rest = rest; nodes = nodes + count n })
  read_node-write (der_node c k n content children) zero limits rest nodes v d few =
      absurd (omega arith)
  read_node-write (der_node c k n content children) (suc levels) limits rest nodes
        (small, short, fits, ders) d few =
      let ih =
        read_children-write children levels limits (length (write_all children)) (nodes + 1) ders
          (omega arith) (omega arith) (omega arith) in
      rw
        (
          le→ltb limits.max_nodes (nodes + 1) (omega arith),
          header_reads c k n content rest small short,
          children_of-Fits (read_node levels limits) k content children (nodes + 1) fits ih,
        )
        (ap (λ (m : ℕ). ok (der_node c k n content children, record { rest = rest; nodes = m }))
          (omega arith))

  read_children-write :
      (ns : DerNodes) (levels : ℕ) (limits : DerLimits) (fuel : ℕ) (nodes : ℕ)
      → AreDer ns
      → depth_all ns ≤ levels
      → nodes + count_all ns ≤ limits.max_nodes
      → length (write_all ns) ≤ fuel
      → read_children (read_node levels limits) fuel (write_all ns) nodes
        ≡ ok (ns, nodes + count_all ns)
  read_children-write nil levels limits fuel nodes v d few enough =
      ap (λ (m : ℕ). ok (nil, m)) (omega arith)
  read_children-write (cons n ns) levels limits fuel nodes (v, vs) d few enough =
      let (b, bs, shape) = write-ne-nil n v in
      let size = length-append (write n) (write_all ns) in
      let last : nodes + count n + count_all ns ≡ nodes + (count n + count_all ns) = omega arith in
      children_step (read_node levels limits) fuel nodes (nodes + count n) _
        (write n ++ write_all ns) (write_all ns) n ns
        (b, bs ++ write_all ns, ap (λ (l : List ℕ). l ++ write_all ns) shape) enough
        (read_node-write n levels limits (write_all ns) nodes v (omega arith) (omega arith))
        (λ fuel' e.
          read_children-write ns levels limits fuel' (nodes + count n) vs (omega arith)
            (omega arith) (omega (arith, ap length shape))
          ∙ ap (λ (m : ℕ). ok (ns, m)) last)

-- What the parser returns is exactly described: the input is the encoding of a well-formed tree,
-- and the input and the tree are within the three caps.
pub parse_der_iff :
    (input : List ℕ) (limits : DerLimits) (n : DerNode)
    → All IsByte input
    → (parse_der input limits ≡ ok n) ↔ (
        (write n ≡ input)
        × IsDer n
        × (length input ≤ limits.max_bytes)
        × (depth n ≤ limits.max_depth + 1)
        × (count n ≤ limits.max_nodes))
unfolding parse_der
parse_der_iff input limits n h = (
  λ e. (
    (parse_der-write input limits n h e).0,
    (parse_der-write input limits n h e).1,
    (parse_der-limits limits input n e).0,
    (parse_der-limits limits input n e).1,
    (parse_der-limits limits input n e).2,
  ),
  λ (written, v, size, deep, few).
      let read =
        read_node-write n (suc limits.max_depth) limits [] 0 v (omega arith) (omega arith) in
      let read' : read_node (suc limits.max_depth) limits (record { rest = write n; nodes = 0 })
          ≡ ok (n, record { rest = []; nodes = 0 + count n }) =
        rw (append-nil (write n)) at read in
      rw (← written) (
        rw (le→ltb limits.max_bytes (length (write n)) (omega (arith, ap length written)), read')
          refl),
)
