-- ===== src/Attestation/Cbor/Sound.antt =====
-- cbor.ts: what the decoder accepts, against the encoding of the value that it returns.
use mathlib.Core.List.{append-nil}
use mathlib.Core.Path.{subst}
use sdidfy.Prelude.{
  ℕ, zero, suc, ◌+◌, ◌*◌, ◌/◌, ◌%◌, ◌≡◌, sym, ap, ◌∙◌, List, [], ◌∷◌, ◌++◌, arith, length, All, ok,
  ◌≤◌, ltb, >>=-eq-ok, ok-injective, err-ne-ok, throw_if-eq-ok,
}
use sdidfy.Attestation.Digits.{IsByte}
use sdidfy.Attestation.Cbor.{
  CborReader, CborLimits, CborValue, read_value, byte, require_end, decode_cbor,
}
use sdidfy.Attestation.Cbor.Encoding.{Encodes}
use sdidfy.Attestation.Cbor.Members.{ReadsFrom, IsSound}
use sdidfy.Attestation.Cbor.Bounds.{depth, weight, IsDistinct}
use sdidfy.Attestation.Cbor.Tame.{decode_cbor-limits}
use sdidfy.Attestation.Cbor.Items.{by_major-ReadsItem}

byte-eq-ok : (bs : List ℕ) (b : ℕ) (r : List ℕ) → byte bs ≡ ok (b, r) → bs ≡ b ∷ r
unfolding byte
byte-eq-ok [] b r e = absurd (err-ne-ok e)
byte-eq-ok (c ∷ cs) b r e = ap (λ p. p.0 ∷ p.1) (ok-injective e)

pub read_value-IsSound : (levels : ℕ) (limits : CborLimits) → IsSound (read_value levels limits)
unfolding read_value
read_value-IsSound zero limits r out h e = absurd (err-ne-ok e)
read_value-IsSound (suc levels) limits r out h e =
    let (few, e1) = throw_if-eq-ok (ltb limits.max_items (r.items + 1)) _ _ e in
    let ((head, bs), first, e2) = >>=-eq-ok (byte r.rest) _ e1 in
    let shape = byte-eq-ok r.rest head bs first in
    let (hhead, hbs) : IsByte head × All IsByte bs = subst (All IsByte) shape h in
    let whole : head / 32 * 32 + head % 32 ≡ head = omega arith in
    rw shape (
      subst (λ (b : ℕ). ReadsFrom (b ∷ bs) out) whole
        (by_major-ReadsItem (read_value levels limits) (read_value-IsSound levels limits)
          (head / 32) (head % 32) (record { rest = bs; items = r.items + 1 }) out hbs (omega arith)
          e2))

decode_cbor-encoded :
    (input : List ℕ) (limits : CborLimits) (v : CborValue)
    → All IsByte input
    → decode_cbor input limits ≡ ok v
    → Encodes v input
unfolding decode_cbor
decode_cbor-encoded input limits v h e =
    let (small, e1) = throw_if-eq-ok (ltb limits.max_bytes (length input)) _ _ e in
    let ((w, r), read, e2) =
      >>=-eq-ok (read_value (suc limits.max_depth) limits (record { rest = input; items = 0 })) _
        e1 in
    let (body, split, enc, _) = read_value-IsSound (suc limits.max_depth) limits _ (w, r) h read in
    let (whole, same) = at_end w r v e2 in
    let exact : body ≡ input = sym (split ∙ ap (◌++◌ body) whole ∙ append-nil body) in
    subst (Encodes v) exact (subst (λ v. Encodes v body) same enc)
  where
    at_end :
        (w : CborValue) (r : CborReader) (v : CborValue)
        → require_end (w, r) ≡ ok v
        → (r.rest ≡ []) × (w ≡ v)
    at_end w r v e = ground arith

-- Whatever the decoder accepts is an encoding of the value that it returns: every head is the shortest,
-- every count is the number of members, no map at any depth has a key twice, and nothing follows the
-- item; the bytes of a text are some that decode to it, where a byte order mark in front is dropped.
-- The input, the nesting and the number of items are within the limits.
pub decode_cbor-Encodes :
    (input : List ℕ) (limits : CborLimits) (v : CborValue)
    → All IsByte input
    → decode_cbor input limits ≡ ok v
    → Encodes v input
      × IsDistinct v
      × (length input ≤ limits.max_bytes)
      × (depth v ≤ limits.max_depth + 1)
      × (weight v ≤ limits.max_items)
decode_cbor-Encodes input limits v h e =
    let (bytes_fit, levels_fit, items_fit, distinct) = decode_cbor-limits limits input v e in
    (decode_cbor-encoded input limits v h e, distinct, bytes_fit, levels_fit, items_fit)
