-- ===== src/Attestation/Der/Limits.antt =====
-- der.ts, the caps on nesting and on the number of elements: no accepted tree exceeds them.
use mathlib.Core.Path.{subst}
use sdidfy.Prelude.{
  ℕ, zero, suc, ◌+◌, ◌≤◌, ◌≡◌, List, [], ◌∷◌, arith, length, ok, false, true, Bool, >>=-eq-ok,
  ok-injective, throw_if-eq-ok, ltb,
}
use sdidfy.Attestation.Der.{
  DerReader, DerNode, DerNodes, Der, DerLimits, read_header, read_children, children_of, read_node,
  parse_der, require_end,
}
use sdidfy.Attestation.Der.Writer.{depth, depth_all, count, count_all}

module _ (limits : DerLimits) where
  -- What one element may cost, given the levels that are left and the elements read so far.
  abbrev Costs : ℕ → ℕ → DerNode × DerReader → Type 0
  Costs levels nodes (n, r) =
      (depth n ≤ levels) × (r.nodes ≡ nodes + count n) × (r.nodes ≤ limits.max_nodes)

  abbrev CostsAll : ℕ → ℕ → DerNodes × ℕ → Type 0
  CostsAll levels nodes (ns, nodes') =
      (depth_all ns ≤ levels) × (nodes' ≡ nodes + count_all ns) × (nodes' ≤ limits.max_nodes)

  abbrev IsFrugal : ℕ → (DerReader → Der (DerNode × DerReader)) → Type 0
  IsFrugal levels read =
      (r : DerReader) (out : DerNode × DerReader) → read r ≡ ok out → Costs levels r.nodes out

  read_children-CostsAll :
      (levels : ℕ) (read : DerReader → Der (DerNode × DerReader)) (fuel : ℕ) (bs : List ℕ)
      (nodes : ℕ) (out : DerNodes × ℕ)
      → IsFrugal levels read
      → nodes ≤ limits.max_nodes
      → read_children read fuel bs nodes ≡ ok out
      → CostsAll levels nodes out
  unfolding read_children
  read_children-CostsAll levels read zero [] nodes out frugal h e =
      subst (CostsAll levels nodes) (ok-injective e) (omega arith, omega arith, h)
  read_children-CostsAll levels read (suc fuel) [] nodes out frugal h e =
      subst (CostsAll levels nodes) (ok-injective e) (omega arith, omega arith, h)
  read_children-CostsAll levels read zero (b ∷ bs) nodes out frugal h e = cc
  read_children-CostsAll levels read (suc fuel) (b ∷ bs) nodes out frugal h e =
      let ((child, inner), first, e1) =
        >>=-eq-ok (read (record { rest = b ∷ bs; nodes = nodes })) _ e in
      let ((ns, last), more, e2) =
        >>=-eq-ok (read_children read fuel inner.rest inner.nodes) _ e1 in
      let (d1, c1, m1) = frugal _ (child, inner) first in
      let (d2, c2, m2) =
        read_children-CostsAll levels read fuel inner.rest inner.nodes (ns, last) frugal m1 more in
      subst (CostsAll levels nodes) (ok-injective e2) (omega arith, omega arith, m2)

  children_of-CostsAll :
      (levels : ℕ) (read : DerReader → Der (DerNode × DerReader)) (k : Bool) (content : List ℕ)
      (nodes : ℕ) (out : DerNodes × ℕ)
      → IsFrugal levels read
      → nodes ≤ limits.max_nodes
      → children_of read k content nodes ≡ ok out
      → CostsAll levels nodes out
  children_of-CostsAll levels read true content nodes out frugal h e =
      read_children-CostsAll levels read (length content) content nodes out frugal h e
  children_of-CostsAll levels read false content nodes out frugal h e =
      subst (CostsAll levels nodes) (ok-injective e) (omega arith, omega arith, h)

  read_node-IsFrugal : (levels : ℕ) → IsFrugal levels (read_node levels limits)
  unfolding read_node
  read_node-IsFrugal zero r out e = cc
  read_node-IsFrugal (suc levels) r out e =
      let (few, e1) = throw_if-eq-ok (ltb limits.max_nodes (r.nodes + 1)) _ _ e in
      let (h, header, e2) = >>=-eq-ok (read_header r.rest) _ e1 in
      let ((ns, last), more, e3) =
        >>=-eq-ok (children_of (read_node levels limits) h.constructed h.content (r.nodes + 1)) _
          e2 in
      let small : r.nodes + 1 ≤ limits.max_nodes = ground arith in
      let (d, c, m) =
        children_of-CostsAll levels (read_node levels limits) h.constructed h.content (r.nodes + 1)
          (ns, last) (read_node-IsFrugal levels) small more in
      subst (Costs (suc levels) r.nodes) (ok-injective e3) (omega arith, omega arith, m)

  -- An accepted input fits the cap on its size, and its tree those on nesting and on elements.
  pub parse_der-limits :
      (input : List ℕ) (n : DerNode)
      → parse_der input limits ≡ ok n
      → (length input ≤ limits.max_bytes)
        × (depth n ≤ limits.max_depth + 1)
        × (count n ≤ limits.max_nodes)
  unfolding parse_der
  parse_der-limits input n e =
      let (small, e1) = throw_if-eq-ok (ltb limits.max_bytes (length input)) _ _ e in
      let ((m, r), read, e2) =
        >>=-eq-ok (read_node (suc limits.max_depth) limits (record { rest = input; nodes = 0 })) _
          e1 in
      let (d, c, few) = read_node-IsFrugal (suc limits.max_depth) _ (m, r) read in
      let same = require_end-node m r n e2 in
      subst
        (λ (n : DerNode).
          (length input ≤ limits.max_bytes)
          × (depth n ≤ limits.max_depth + 1)
          × (count n ≤ limits.max_nodes))
        same (ground arith, omega arith, omega arith)
    where
      require_end-node :
          (m : DerNode) (r : DerReader) (n : DerNode) → require_end (m, r) ≡ ok n → m ≡ n
      require_end-node m r n e = ground arith
