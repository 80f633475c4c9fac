-- ===== src/Attestation/Cbor/Items.antt =====
-- cbor.ts, `readValue` by major type: each item with its head byte.
use mathlib.Core.List.{append_assoc}
use mathlib.Core.Path.{subst}
use sdidfy.Prelude.{
  ℕ, zero, suc, ◌+◌, ◌*◌, ◌<◌, ◌≡◌, refl, sym, ap, ◌∙◌, List, [], ◌∷◌, ◌++◌, arith, length, All, ok,
  false, true, Option, none, some, ◌==◌, >>=-eq-ok, ok-injective, err-ne-ok, Bool-cases, inl, inr,
  ==_iff,
}
use sdidfy.Attestation.Digits.{IsByte}
use sdidfy.Attestation.Utf8.{decode_utf8}
use sdidfy.Attestation.Cbor.{
  Cbor, CborReader, CborValue, text, boolean, null_value, undefined_value, empty, ReadItem, is_safe,
  argument, count_argument, raw_bytes, decoded, simple, read_array, read_map, read_unsigned,
  read_negative, read_byte_string, read_text_string, read_array_item, read_map_item, by_major,
}
use sdidfy.Attestation.Cbor.Encoding.{write_head, size, Encodes}
use sdidfy.Attestation.Cbor.Heads.{
  raw_bytes-append, argument-write_head, count_argument-argument, HeadSplits,
}
use sdidfy.Attestation.Cbor.Members.{
  ReadsFrom, IsSound, unsigned-Encodes, negative-Encodes, read_array-ReadsAll, read_map-ReadsMap,
}

module _ (read : ReadItem) (sound : IsSound read) where
  -- What is read together with the head byte before it.
  abbrev pub ReadsItem : ℕ → ℕ → List ℕ → CborValue × CborReader → Type 0
  ReadsItem major ai bs out = ReadsFrom ((major * 32 + ai) ∷ bs) out

  headed :
      (major ai n : ℕ) (bs after : List ℕ)
      → All IsByte bs
      → argument ai bs ≡ ok (n, after)
      → HeadSplits major ai bs (n, after)
  headed major ai n bs after h e = argument-write_head major ai n bs after h e

  read_unsigned-ReadsItem :
      (ai : ℕ) (r : CborReader) (out : CborValue × CborReader)
      → All IsByte r.rest
      → read_unsigned read ai r ≡ ok out
      → ReadsItem 0 ai r.rest out
  unfolding read_unsigned
  read_unsigned-ReadsItem ai r out h e =
      let ((n, after), first, e1) = >>=-eq-ok (argument ai r.rest) _ e in
      let (split, h1) = headed 0 ai n r.rest after h first in
      subst (ReadsItem 0 ai r.rest) (ok-injective e1)
        (write_head 0 n, split, unsigned-Encodes (is_safe n) n refl, h1)

  read_negative-ReadsItem :
      (ai : ℕ) (r : CborReader) (out : CborValue × CborReader)
      → All IsByte r.rest
      → read_negative read ai r ≡ ok out
      → ReadsItem 1 ai r.rest out
  unfolding read_negative
  read_negative-ReadsItem ai r out h e =
      let ((n, after), first, e1) = >>=-eq-ok (argument ai r.rest) _ e in
      let (split, h1) = headed 1 ai n r.rest after h first in
      subst (ReadsItem 1 ai r.rest) (ok-injective e1)
        (write_head 1 n, split, negative-Encodes (is_safe n) n refl, h1)

  -- A string: the head, and as many bytes as it says.
  string_parts :
      (major ai n : ℕ) (bs after raw rest : List ℕ)
      → All IsByte bs
      → count_argument ai bs ≡ ok (n, after)
      → raw_bytes n after ≡ ok (raw, rest)
      → ((major * 32 + ai) ∷ bs ≡ (write_head major (length raw) ++ raw) ++ rest) × All IsByte rest
  string_parts major ai n bs after raw rest h counted cut =
      let (first, safe, fits) = count_argument-argument ai n bs after counted in
      let (split, h1) = headed major ai n bs after h first in
      let (split', len, hraw, hrest) = raw_bytes-append n after raw rest h1 cut in
      (
        split
            ∙ ap (◌++◌ (write_head major n)) split'
            ∙ ap (λ (m : ℕ). write_head major m ++ (raw ++ rest)) (sym len)
            ∙ sym (append_assoc (write_head major (length raw)) raw rest),
        hrest,
      )

  read_byte_string-ReadsItem :
      (ai : ℕ) (r : CborReader) (out : CborValue × CborReader)
      → All IsByte r.rest
      → read_byte_string read ai r ≡ ok out
      → ReadsItem 2 ai r.rest out
  unfolding read_byte_string
  read_byte_string-ReadsItem ai r out h e =
      let ((n, after), counted, e1) = >>=-eq-ok (count_argument ai r.rest) _ e in
      let ((raw, rest), cut, e2) = >>=-eq-ok (raw_bytes n after) _ e1 in
      let (split, h1) = string_parts 2 ai n r.rest after raw rest h counted cut in
      subst (ReadsItem 2 ai r.rest) (ok-injective e2)
        (write_head 2 (length raw) ++ raw, split, refl, h1)

  decoded-text :
      (o : Option (List ℕ)) (v : CborValue)
      → decoded o ≡ ok v
      → (points : List ℕ) × (o ≡ some points) × (text points ≡ v)
  decoded-text none v e = absurd (err-ne-ok e)
  decoded-text (some points) v e = (points, refl, ok-injective e)

  read_text_string-ReadsItem :
      (ai : ℕ) (r : CborReader) (out : CborValue × CborReader)
      → All IsByte r.rest
      → read_text_string read ai r ≡ ok out
      → ReadsItem 3 ai r.rest out
  unfolding read_text_string
  read_text_string-ReadsItem ai r out h e =
      let ((n, after), counted, e1) = >>=-eq-ok (count_argument ai r.rest) _ e in
      let ((raw, rest), cut, e2) = >>=-eq-ok (raw_bytes n after) _ e1 in
      let (v, valid, e3) = >>=-eq-ok (decoded (decode_utf8 raw)) _ e2 in
      let (split, h1) = string_parts 3 ai n r.rest after raw rest h counted cut in
      let (points, decodes, same) = decoded-text (decode_utf8 raw) v valid in
      subst (ReadsItem 3 ai r.rest) (ok-injective e3) (
        write_head 3 (length raw) ++ raw,
        split,
        subst (λ v. Encodes v (write_head 3 (length raw) ++ raw)) same (raw, decodes, refl),
        h1,
      )

  read_array_item-ReadsItem :
      (ai : ℕ) (r : CborReader) (out : CborValue × CborReader)
      → All IsByte r.rest
      → read_array_item read ai r ≡ ok out
      → ReadsItem 4 ai r.rest out
  unfolding read_array_item
  read_array_item-ReadsItem ai r out h e =
      let ((n, after), counted, e1) = >>=-eq-ok (count_argument ai r.rest) _ e in
      let ((vs, r'), more, e2) =
        >>=-eq-ok (read_array read n (record { rest = after; items = r.items })) _ e1 in
      let (first, safe, fits) = count_argument-argument ai n r.rest after counted in
      let (split, h1) = headed 4 ai n r.rest after h first in
      let (body, split', encs, len, h2) =
        read_array-ReadsAll read sound n (record { rest = after; items = r.items }) (vs, r') h1
          more in
      subst (ReadsItem 4 ai r.rest) (ok-injective e2) (
        write_head 4 n ++ body,
        split
            ∙ ap (◌++◌ (write_head 4 n)) split'
            ∙ sym (append_assoc (write_head 4 n) body r'.rest),
        (body, encs, ap (λ (m : ℕ). write_head 4 m ++ body) (sym len)),
        h2,
      )

  read_map_item-ReadsItem :
      (ai : ℕ) (r : CborReader) (out : CborValue × CborReader)
      → All IsByte r.rest
      → read_map_item read ai r ≡ ok out
      → ReadsItem 5 ai r.rest out
  unfolding read_map_item
  read_map_item-ReadsItem ai r out h e =
      let ((n, after), counted, e1) = >>=-eq-ok (count_argument ai r.rest) _ e in
      let ((m, r'), more, e2) =
        >>=-eq-ok (read_map read n empty (record { rest = after; items = r.items })) _ e1 in
      let (first, safe, fits) = count_argument-argument ai n r.rest after counted in
      let (split, h1) = headed 5 ai n r.rest after h first in
      let (body, split', encs, len, h2) =
        read_map-ReadsMap read sound n empty [] (record { rest = after; items = r.items }) (m, r')
          h1 refl more in
      let len' : n ≡ size m = omega arith in
      subst (ReadsItem 5 ai r.rest) (ok-injective e2) (
        write_head 5 n ++ body,
        split
            ∙ ap (◌++◌ (write_head 5 n)) split'
            ∙ sym (append_assoc (write_head 5 n) body r'.rest),
        (body, encs, ap (λ (k : ℕ). write_head 5 k ++ body) len'),
        h2,
      )

  simple_hit :
      (ai code : ℕ) (v : CborValue) (r : CborReader) (out : CborValue × CborReader)
      → All IsByte r.rest
      → (ai == code) ≡ true
      → Encodes v ((7 * 32 + code) ∷ [])
      → ◌≡◌ {A = Cbor (CborValue × CborReader)} (ok (v, r)) (ok out)
      → ReadsItem 7 ai r.rest out
  simple_hit ai code v r out h hit enc e =
      subst (ReadsItem 7 ai r.rest) (ok-injective e) (
        (7 * 32 + code) ∷ [],
        ap (λ (a : ℕ). (7 * 32 + a) ∷ r.rest) ((==_iff ai code).0 hit),
        enc,
        h,
      )

  simple-ReadsItem :
      (ai : ℕ) (r : CborReader) (out : CborValue × CborReader)
      → All IsByte r.rest
      → simple ai r ≡ ok out
      → ReadsItem 7 ai r.rest out
  simple-ReadsItem ai r out h e = elim (Bool-cases (ai == 20)) [
    | inl hit ↦ simple_hit ai 20 (boolean false) r out h hit refl (rw hit at e)
    | inr not20 ↦ elim (Bool-cases (ai == 21)) [
      | inl hit ↦ simple_hit ai 21 (boolean true) r out h hit refl (rw (not20, hit) at e)
      | inr not21 ↦ elim (Bool-cases (ai == 22)) [
        | inl hit ↦ simple_hit ai 22 null_value r out h hit refl (rw (not20, not21, hit) at e)
        | inr not22 ↦ elim (Bool-cases (ai == 23)) [
          | inl hit ↦
              simple_hit ai 23 undefined_value r out h hit refl (rw (not20, not21, not22, hit) at e)
          | inr not23 ↦ absurd (err-ne-ok (rw (not20, not21, not22, not23) at e))
        ]
      ]
    ]
  ]

  pub by_major-ReadsItem :
      (major ai : ℕ) (r : CborReader) (out : CborValue × CborReader)
      → All IsByte r.rest
      → major < 8
      → by_major read major ai r ≡ ok out
      → ReadsItem major ai r.rest out
  unfolding by_major
  by_major-ReadsItem zero ai r out h m e = read_unsigned-ReadsItem ai r out h e
  by_major-ReadsItem (suc zero) ai r out h m e = read_negative-ReadsItem ai r out h e
  by_major-ReadsItem (suc (suc zero)) ai r out h m e = read_byte_string-ReadsItem ai r out h e
  by_major-ReadsItem (suc (suc (suc zero))) ai r out h m e = read_text_string-ReadsItem ai r out h e
  by_major-ReadsItem (suc (suc (suc (suc zero)))) ai r out h m e =
      read_array_item-ReadsItem ai r out h e
  by_major-ReadsItem (suc (suc (suc (suc (suc zero))))) ai r out h m e =
      read_map_item-ReadsItem ai r out h e
  by_major-ReadsItem (suc (suc (suc (suc (suc (suc zero)))))) ai r out h m e = absurd (err-ne-ok e)
  by_major-ReadsItem (suc (suc (suc (suc (suc (suc (suc zero))))))) ai r out h m e =
      simple-ReadsItem ai r out h e
  by_major-ReadsItem (suc (suc (suc (suc (suc (suc (suc (suc n)))))))) ai r out h m e =
      absurd (omega arith)
