-- ===== src/Attestation/Der/Oid.antt =====
-- packages/attestation/src/der.ts: `derOid`. An OID is its arcs. The arcs of the first octets go
-- through a double: what that makes of a value beyond 2^53 is not computed but kept as `rounded_arc`.
use sdidfy.Prelude.{
  ℕ, ◌-◌, ◌*◌, ◌/◌, ◌%◌, ◌^◌, ◌+◌, Bool, true, false, not, ◌&&◌, List, [], ◌∷◌, ◌++◌, ltb, leb,
  ◌==◌, if◌then◌else◌, ok, err, ◌>>=◌, ◌>>◌, throw_if,
}
use sdidfy.Attestation.Der.{
  Der, DerNode, universal, empty_oid, truncated_oid, non_minimal_arc, arc_too_large,
}
use sdidfy.Attestation.Der.Access.{der_expect, content_of, is_empty}

pub data OidArc : Type 0 where
  arc : ℕ → OidArc
  rounded_arc : ℕ → OidArc

abbrev pub two_arcs : ℕ → List OidArc
two_arcs v =
    if ltb (2 ^ 53) v
    then arc 2 ∷ rounded_arc v ∷ []
    else if leb 80 v
    then arc 2 ∷ arc (v - 80) ∷ []
    else arc (v / 40) ∷ arc (v - v / 40 * 40) ∷ []

abbrev pub last_continues : List ℕ → Bool
last_continues [] = false
last_continues (b ∷ []) = leb 0x80 b
last_continues (b ∷ c ∷ bs) = last_continues (c ∷ bs)

-- The loop over the octets, with `value`, `started` and `first`.
unfoldable pub oid_arcs : List ℕ → ℕ → Bool → Bool → Der (List OidArc)
oid_arcs [] value started first = ok []
oid_arcs (b ∷ bs) value started first =
    let value' = value * 128 + b % 128 in
    let more = oid_arcs bs value' true first in
    let done = do
      rest ← oid_arcs bs 0 false false
      ok (elim first [ true ↦ two_arcs value' | false ↦ arc value' ∷ [] ] ++ rest)
    in if not started && b == 0x80
      then err non_minimal_arc
      else if ltb (2 ^ 128) value'
      then err arc_too_large
      else if ltb b 0x80
      then done
      else more

unfoldable pub der_oid : DerNode → Der (List OidArc)
unfolding oid_arcs der_expect
der_oid node = do
  checked ← der_expect node universal 6
  throw_if (is_empty (content_of checked)) empty_oid
  throw_if (last_continues (content_of checked)) truncated_oid
  oid_arcs (content_of checked) 0 false true

-- `derOid(...) === oid`, for an `oid` that does not begin with 2.
abbrev pub same_oid : List OidArc → List ℕ → Bool
same_oid [] [] = true
same_oid (arc a ∷ arcs) (b ∷ bs) = a == b && same_oid arcs bs
same_oid _ _ = false
