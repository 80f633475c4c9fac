-- ===== src/Attestation/Cbor/Tame.antt =====
-- cbor.ts: no accepted value exceeds the caps or repeats a map key.
use mathlib.Core.Path.{subst}
use sdidfy.Prelude.{
  ℕ, zero, suc, ◌+◌, ◌/◌, ◌%◌, ◌≤◌, ◌≡◌, refl, sym, ◌∙◌, List, arith, length, ok, false, true, Bool,
  Option, none, some, ltb, ◌==◌, >>=-eq-ok, ok-injective, err-ne-ok, throw_if-eq-ok, Bool-cases,
  inl, inr,
}
use sdidfy.Prelude.Int.{ℤ, pos, negsuc}
use sdidfy.Attestation.Utf8.{decode_utf8}
use sdidfy.Attestation.Cbor.{
  CborReader, CborLimits, CborKey, CborValue, number, text, bytes, boolean, null_value,
  undefined_value, CborValues, CborMap, empty, ReadItem, is_safe, integer, argument, count_argument,
  raw_bytes, decoded, as_key, has_key, set_last, simple, read_array, read_map, read_unsigned,
  read_negative, read_byte_string, read_text_string, read_array_item, read_map_item, by_major,
  read_value, byte, require_end, decode_cbor,
}
use sdidfy.Attestation.Cbor.Bounds.{
  depth, depth_all, depth_map, weight, weight_all, weight_map, IsDistinct, AreDistinct,
  HasDistinctKeys, set_last-HasDistinctKeys, depth-set_last, weight-set_last,
}

as_key-weight : (v : CborValue) (k : CborKey) → as_key v ≡ ok k → weight v ≡ 1
unfolding as_key
as_key-weight (text points) k e = refl
as_key-weight (number z) k e = refl
as_key-weight _ k e = absurd (err-ne-ok e)

-- A value with no members.
abbrev IsLeaf : CborValue → Type 0
IsLeaf v = (depth v ≡ 1) × (weight v ≡ 1) × IsDistinct v

integer-IsLeaf : (safe : Bool) (z : ℤ) → IsLeaf (integer safe z)
integer-IsLeaf true z = (refl, refl, tt)
integer-IsLeaf false z = (refl, refl, tt)

module _ (limits : CborLimits) where
  -- What one item may cost, given the levels that are left and the items counted before it.
  abbrev Tame : ℕ → ℕ → CborValue × CborReader → Type 0
  Tame levels items (v, r) =
      (depth v ≤ levels)
      × (r.items ≡ items + weight v)
      × (r.items ≤ limits.max_items)
      × IsDistinct v

  abbrev IsTame : ℕ → ReadItem → Type 0
  IsTame levels read =
      (r : CborReader) (out : CborValue × CborReader) → read r ≡ ok out → Tame levels r.items out

  module _ (levels : ℕ) (read : ReadItem) (tame : IsTame levels read) where
    abbrev TameAll : ℕ → CborValues × CborReader → Type 0
    TameAll items (vs, r) =
        (depth_all vs ≤ levels)
        × (r.items ≡ items + weight_all vs)
        × (r.items ≤ limits.max_items)
        × AreDistinct vs

    read_array-TameAll :
        (n : ℕ) (r : CborReader) (out : CborValues × CborReader)
        → r.items ≤ limits.max_items
        → read_array read n r ≡ ok out
        → TameAll r.items out
    unfolding read_array
    read_array-TameAll zero r out few e =
        subst (TameAll r.items) (ok-injective e) (omega arith, omega arith, few, tt)
    read_array-TameAll (suc n) r out few e =
        let ((v, r1), first, e1) = >>=-eq-ok (read r) _ e in
        let ((vs, r2), more, e2) = >>=-eq-ok (read_array read n r1) _ e1 in
        let (d, c, m, u) = tame r (v, r1) first in
        let (ds, cs, ms, us) = read_array-TameAll n r1 (vs, r2) m more in
        subst (TameAll r.items) (ok-injective e2) (omega arith, omega arith, ms, (u, us))

    abbrev TameMap : CborMap → ℕ → CborMap × CborReader → Type 0
    TameMap out items (m, r) =
        (depth_map m ≤ levels)
        × (r.items + weight_map out ≡ items + weight_map m)
        × (r.items ≤ limits.max_items)
        × HasDistinctKeys m

    read_map-TameMap :
        (n : ℕ) (out : CborMap) (r : CborReader) (res : CborMap × CborReader)
        → r.items ≤ limits.max_items
        → depth_map out ≤ levels
        → HasDistinctKeys out
        → read_map read n out r ≡ ok res
        → TameMap out r.items res
    unfolding read_map
    read_map-TameMap zero out r res few deep u e =
        subst (TameMap out r.items) (ok-injective e) (deep, refl, few, u)
    read_map-TameMap (suc n) out r res few deep u e =
        let ((kv, r1), first, e1) = >>=-eq-ok (read r) _ e in
        let (k, key, e2) = >>=-eq-ok (as_key kv) _ e1 in
        let (new, e3) = throw_if-eq-ok (has_key k out) _ _ e2 in
        let ((v, r2), second, e4) = >>=-eq-ok (read r1) _ e3 in
        let (dk, ck, mk, uk) = tame r (kv, r1) first in
        let (dv, cv, mv, uv) = tame r1 (v, r2) second in
        let (d, c, m, us) =
          read_map-TameMap n (set_last k v out) r2 res mv
            (omega (arith, depth-set_last k v out new)) (set_last-HasDistinctKeys k v out new uv u)
            e4 in
        (d, omega (arith, weight-set_last k v out new, as_key-weight kv k key), m, us)

    -- The item has been counted when its head is looked at.
    abbrev TameItem : CborReader → CborValue × CborReader → Type 0
    TameItem r (v, r') =
        (depth v ≤ suc levels)
        × (suc r'.items ≡ r.items + weight v)
        × (r'.items ≤ limits.max_items)
        × IsDistinct v

    leaf-TameItem :
        (v : CborValue) (r : CborReader) (bs : List ℕ)
        → IsLeaf v
        → r.items ≤ limits.max_items
        → TameItem r (v, record { rest = bs; items = r.items })
    leaf-TameItem v r bs (d, w, u) few = (omega arith, omega arith, few, u)

    module _ (ai : ℕ) (r : CborReader) (out : CborValue × CborReader)
        (few : r.items ≤ limits.max_items) where
      read_unsigned-TameItem : read_unsigned read ai r ≡ ok out → TameItem r out
      unfolding read_unsigned
      read_unsigned-TameItem e =
          let ((n, bs), first, e1) = >>=-eq-ok (argument ai r.rest) _ e in
          subst (TameItem r) (ok-injective e1)
            (leaf-TameItem _ r bs (integer-IsLeaf (is_safe n) (pos n)) few)

      read_negative-TameItem : read_negative read ai r ≡ ok out → TameItem r out
      unfolding read_negative
      read_negative-TameItem e =
          let ((n, bs), first, e1) = >>=-eq-ok (argument ai r.rest) _ e in
          subst (TameItem r) (ok-injective e1)
            (leaf-TameItem _ r bs (integer-IsLeaf (is_safe n) (negsuc n)) few)

      read_byte_string-TameItem : read_byte_string read ai r ≡ ok out → TameItem r out
      unfolding read_byte_string
      read_byte_string-TameItem e =
          let ((n, bs), counted, e1) = >>=-eq-ok (count_argument ai r.rest) _ e in
          let ((raw, rest), cut, e2) = >>=-eq-ok (raw_bytes n bs) _ e1 in
          subst (TameItem r) (ok-injective e2)
            (leaf-TameItem (bytes raw) r rest (refl, refl, tt) few)

      decoded-IsLeaf : (o : Option (List ℕ)) (v : CborValue) → decoded o ≡ ok v → IsLeaf v
      decoded-IsLeaf none v e = absurd (err-ne-ok e)
      decoded-IsLeaf (some points) v e = subst IsLeaf (ok-injective e) (refl, refl, tt)

      read_text_string-TameItem : read_text_string read ai r ≡ ok out → TameItem r out
      unfolding read_text_string
      read_text_string-TameItem e =
          let ((n, bs), counted, e1) = >>=-eq-ok (count_argument ai r.rest) _ e in
          let ((raw, rest), cut, e2) = >>=-eq-ok (raw_bytes n bs) _ e1 in
          let (v, valid, e3) = >>=-eq-ok (decoded (decode_utf8 raw)) _ e2 in
          subst (TameItem r) (ok-injective e3)
            (leaf-TameItem v r rest (decoded-IsLeaf _ v valid) few)

      read_array_item-TameItem : read_array_item read ai r ≡ ok out → TameItem r out
      unfolding read_array_item
      read_array_item-TameItem e =
          let ((n, bs), counted, e1) = >>=-eq-ok (count_argument ai r.rest) _ e in
          let ((vs, r'), more, e2) =
            >>=-eq-ok (read_array read n (record { rest = bs; items = r.items })) _ e1 in
          let (d, c, m, u) =
            read_array-TameAll n (record { rest = bs; items = r.items }) (vs, r') few more in
          subst (TameItem r) (ok-injective e2) (omega arith, omega arith, m, u)

      read_map_item-TameItem : read_map_item read ai r ≡ ok out → TameItem r out
      unfolding read_map_item
      read_map_item-TameItem e =
          let ((n, bs), counted, e1) = >>=-eq-ok (count_argument ai r.rest) _ e in
          let ((m, r'), more, e2) =
            >>=-eq-ok (read_map read n empty (record { rest = bs; items = r.items })) _ e1 in
          let (d, c, mx, u) =
            read_map-TameMap n empty (record { rest = bs; items = r.items }) (m, r') few
              (omega arith) tt more in
          subst (TameItem r) (ok-injective e2) (omega arith, omega arith, mx, u)

      simple-TameItem : simple ai r ≡ ok out → TameItem r out
      simple-TameItem e = elim (Bool-cases (ai == 20)) [
        | inl hit ↦
            subst (TameItem r) (ok-injective (rw hit at e))
              (leaf-TameItem (boolean false) r r.rest (refl, refl, tt) few)
        | inr n20 ↦ elim (Bool-cases (ai == 21)) [
          | inl hit ↦
              subst (TameItem r) (ok-injective (rw (n20, hit) at e))
                (leaf-TameItem (boolean true) r r.rest (refl, refl, tt) few)
          | inr n21 ↦ elim (Bool-cases (ai == 22)) [
            | inl hit ↦
                subst (TameItem r) (ok-injective (rw (n20, n21, hit) at e))
                  (leaf-TameItem null_value r r.rest (refl, refl, tt) few)
            | inr n22 ↦ elim (Bool-cases (ai == 23)) [
              | inl hit ↦
                  subst (TameItem r) (ok-injective (rw (n20, n21, n22, hit) at e))
                    (leaf-TameItem undefined_value r r.rest (refl, refl, tt) few)
              | inr n23 ↦ absurd (err-ne-ok (rw (n20, n21, n22, n23) at e))
            ]
          ]
        ]
      ]

    by_major-TameItem :
        (major ai : ℕ) (r : CborReader) (out : CborValue × CborReader)
        → r.items ≤ limits.max_items
        → by_major read major ai r ≡ ok out
        → TameItem r out
    unfolding by_major
    by_major-TameItem zero ai r out few e = read_unsigned-TameItem ai r out few e
    by_major-TameItem (suc zero) ai r out few e = read_negative-TameItem ai r out few e
    by_major-TameItem (suc (suc zero)) ai r out few e = read_byte_string-TameItem ai r out few e
    by_major-TameItem (suc (suc (suc zero))) ai r out few e =
        read_text_string-TameItem ai r out few e
    by_major-TameItem (suc (suc (suc (suc zero)))) ai r out few e =
        read_array_item-TameItem ai r out few e
    by_major-TameItem (suc (suc (suc (suc (suc zero))))) ai r out few e =
        read_map_item-TameItem ai r out few e
    by_major-TameItem (suc (suc (suc (suc (suc (suc zero)))))) ai r out few e = absurd (err-ne-ok e)
    by_major-TameItem (suc (suc (suc (suc (suc (suc (suc n))))))) ai r out few e =
        let rest : by_major read (suc (suc (suc (suc (suc (suc (suc n))))))) ai r ≡ simple ai r =
          ground arith in
        simple-TameItem ai r out few (sym rest ∙ e)

  read_value-IsTame : (levels : ℕ) → IsTame levels (read_value levels limits)
  unfolding read_value
  read_value-IsTame zero r out e = absurd (err-ne-ok e)
  read_value-IsTame (suc levels) r out e =
      let (few, e1) = throw_if-eq-ok (ltb limits.max_items (r.items + 1)) _ _ e in
      let ((head, bs), first, e2) = >>=-eq-ok (byte r.rest) _ e1 in
      let small : r.items + 1 ≤ limits.max_items = ground arith in
      let (d, c, m, u) =
        by_major-TameItem levels (read_value levels limits) (read_value-IsTame levels) (head / 32)
          (head % 32) (record { rest = bs; items = r.items + 1 }) out small e2 in
      (d, omega arith, m, u)

  -- Every accepted value is within the three caps, and no map in it, at any depth, has one key
  -- twice.
  pub decode_cbor-limits :
      (input : List ℕ) (v : CborValue)
      → decode_cbor input limits ≡ ok v
      → (length input ≤ limits.max_bytes)
        × (depth v ≤ limits.max_depth + 1)
        × (weight v ≤ limits.max_items)
        × IsDistinct v
  unfolding decode_cbor
  decode_cbor-limits input v e =
      let (small, e1) = throw_if-eq-ok (ltb limits.max_bytes (length input)) _ _ e in
      let ((w, r), read, e2) =
        >>=-eq-ok (read_value (suc limits.max_depth) limits (record { rest = input; items = 0 })) _
          e1 in
      let (d, c, m, u) = read_value-IsTame (suc limits.max_depth) _ (w, r) read in
      let same : w ≡ v = whole w r v e2 in
      let size : length input ≤ limits.max_bytes = ground arith in
      subst
        (λ v.
          (length input ≤ limits.max_bytes)
          × (depth v ≤ limits.max_depth + 1)
          × (weight v ≤ limits.max_items)
          × IsDistinct v)
        same (size, omega arith, omega arith, u)
    where
      whole : (w : CborValue) (r : CborReader) (v : CborValue) → require_end (w, r) ≡ ok v → w ≡ v
      whole w r v e = ground arith
