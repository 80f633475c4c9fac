-- ===== src/Attestation/Base64/RoundTrip.antt =====
-- common.ts: the strict decoders accept exactly the encodings, one text for each sequence of bytes.
use mathlib.Core.List.{append-nil}
use sdidfy.Prelude.{
  ℕ, ◌%◌, ◌<◌, ◌≡◌, ◌≢◌, ◌↔◌, refl, sym, ap, ◌∙◌, true, false, some, List, [], ◌∷◌, ◌++◌, map, ◌==◌,
  length, ok, arith, All,
}
use sdidfy.Attestation.Digits.{IsByte}
use sdidfy.Attestation.Texts.{Text, same_text}
use sdidfy.Attestation.Base64.{
  Alphabet, standard, url_safe, sextet_of, char_of, sextets, from_sextets, to_sextets, padding,
  base64_text, base64url_text, decode_base64_strict, decode_base64url_strict, is_blank, is_padding,
}

abbrev IsSextet : ℕ → Type 0
IsSextet d = d < 64

pub same_text_refl : (s : Text) → same_text s s ≡ true
same_text_refl [] = refl
same_text_refl (p ∷ ps) = ground (arith, same_text_refl ps)

pub same_text-eq : (s t : Text) → same_text s t ≡ true → s ≡ t
same_text-eq [] [] e = refl
same_text-eq [] (q ∷ t) e = absurd (cc)
same_text-eq (p ∷ s) [] e = absurd (cc)
same_text-eq (p ∷ s) (q ∷ t) e = ground (arith, same_text-eq s t)

to_sextets-All : (bs : List ℕ) → All IsByte bs → All IsSextet (to_sextets bs)
unfolding to_sextets
to_sextets-All [] h = tt
to_sextets-All (x ∷ []) (hx, h) = (omega arith, (omega arith, tt))
to_sextets-All (x ∷ y ∷ []) (hx, (hy, h)) = (omega arith, (omega arith, (omega arith, tt)))
to_sextets-All (x ∷ y ∷ z ∷ bs) (hx, (hy, (hz, h))) =
    (omega arith, (omega arith, (omega arith, (omega arith, to_sextets-All bs h))))

from_sextets-to : (bs : List ℕ) → All IsByte bs → from_sextets (to_sextets bs) ≡ bs
unfolding from_sextets to_sextets
from_sextets-to [] h = refl
from_sextets-to (x ∷ []) (hx, h) = ground arith
from_sextets-to (x ∷ y ∷ []) (hx, (hy, h)) = ground arith
from_sextets-to (x ∷ y ∷ z ∷ bs) (hx, (hy, (hz, h))) = ground (arith, from_sextets-to bs h)

sextet_of-char_standard : (d : ℕ) → d < 64 → sextet_of standard (char_of standard d) ≡ some d
unfolding sextet_of char_of
sextet_of-char_standard d h = ground arith

sextet_of-char_url : (d : ℕ) → d < 64 → sextet_of url_safe (char_of url_safe d) ≡ some d
unfolding sextet_of char_of
sextet_of-char_url d h = ground arith

-- What is encoded in an alphabet is split off whole, if no character of the rest belongs to it.
module _ (a : Alphabet) (reads : (d : ℕ) → d < 64 → sextet_of a (char_of a d) ≡ some d) where
  sextets-map :
      (ds : List ℕ) (rest : Text)
      → All IsSextet ds
      → sextets a rest ≡ ([], rest)
      → sextets a (map (char_of a) ds ++ rest) ≡ (ds, rest)
  unfolding sextets
  sextets-map [] rest h e = e
  sextets-map (d ∷ ds) rest (hd, h) e = rw (reads d hd, sextets, sextets-map ds rest h e) refl

sextets-padding : (bs : List ℕ) → sextets standard (padding bs) ≡ ([], padding bs)
unfolding sextets sextet_of padding
sextets-padding [] = refl
sextets-padding (x ∷ []) = refl
sextets-padding (x ∷ y ∷ []) = refl
sextets-padding (x ∷ y ∷ z ∷ bs) = sextets-padding bs

padding-is_padding : (bs : List ℕ) → is_padding (padding bs) ≡ true
unfolding padding
padding-is_padding [] = refl
padding-is_padding (x ∷ []) = refl
padding-is_padding (x ∷ y ∷ []) = refl
padding-is_padding (x ∷ y ∷ z ∷ bs) = padding-is_padding bs

-- A base64 text has whole groups of four characters.
length-base64_text : (bs : List ℕ) → length (base64_text bs) % 4 ≡ 0
unfolding base64_text to_sextets padding
length-base64_text [] = refl
length-base64_text (x ∷ []) = refl
length-base64_text (x ∷ y ∷ []) = refl
length-base64_text (x ∷ y ∷ z ∷ bs) = omega (arith, length-base64_text bs)

length-base64url_text : (bs : List ℕ) → (length (base64url_text bs) % 4 == 1) ≡ false
unfolding base64url_text to_sextets
length-base64url_text [] = refl
length-base64url_text (x ∷ []) = refl
length-base64url_text (x ∷ y ∷ []) = refl
length-base64url_text (x ∷ y ∷ z ∷ bs) = ground (arith, length-base64url_text bs)

is_blank-to_sextets : (bs : List ℕ) → bs ≢ [] → is_blank (to_sextets bs) ≡ false
unfolding to_sextets
is_blank-to_sextets [] h = absurd (h refl)
is_blank-to_sextets (x ∷ []) h = refl
is_blank-to_sextets (x ∷ y ∷ []) h = refl
is_blank-to_sextets (x ∷ y ∷ z ∷ bs) h = refl

sextets-base64_text :
    (bs : List ℕ) → All IsByte bs → sextets standard (base64_text bs) ≡ (to_sextets bs, padding bs)
unfolding base64_text
sextets-base64_text bs h =
    sextets-map standard sextet_of-char_standard (to_sextets bs) (padding bs) (to_sextets-All bs h)
      (sextets-padding bs)

sextets-base64url_text :
    (bs : List ℕ) → All IsByte bs → sextets url_safe (base64url_text bs) ≡ (to_sextets bs, [])
unfolding base64url_text
sextets-base64url_text bs h =
    ap (sextets url_safe) (sym (append-nil (map (char_of url_safe) (to_sextets bs))))
    ∙ sextets-map url_safe sextet_of-char_url (to_sextets bs) [] (to_sextets-All bs h)
        (unfold sextets in refl)

base64_text-ne-nil : (bs : List ℕ) → bs ≢ [] → (length (base64_text bs) == 0) ≡ false
unfolding base64_text to_sextets
base64_text-ne-nil [] h = absurd (h refl)
base64_text-ne-nil (x ∷ []) h = refl
base64_text-ne-nil (x ∷ y ∷ []) h = refl
base64_text-ne-nil (x ∷ y ∷ z ∷ bs) h = ground arith

base64url_text-ne-nil : (bs : List ℕ) → bs ≢ [] → (length (base64url_text bs) == 0) ≡ false
unfolding base64url_text to_sextets
base64url_text-ne-nil [] h = absurd (h refl)
base64url_text-ne-nil (x ∷ []) h = refl
base64url_text-ne-nil (x ∷ y ∷ []) h = refl
base64url_text-ne-nil (x ∷ y ∷ z ∷ bs) h = ground arith

decode_base64_strict-text :
    (bs : List ℕ) → All IsByte bs → bs ≢ [] → decode_base64_strict (base64_text bs) ≡ ok bs
unfolding decode_base64_strict
decode_base64_strict-text bs h some_byte =
    rw
      (
        sextets-base64_text bs h,
        base64_text-ne-nil bs some_byte,
        length-base64_text bs,
        is_blank-to_sextets bs some_byte,
        padding-is_padding bs,
        from_sextets-to bs h,
        same_text_refl (base64_text bs),
      )
      refl

decode_base64url_strict-text :
    (bs : List ℕ) → All IsByte bs → bs ≢ [] → decode_base64url_strict (base64url_text bs) ≡ ok bs
unfolding decode_base64url_strict
decode_base64url_strict-text bs h some_byte =
    rw
      (
        sextets-base64url_text bs h,
        base64url_text-ne-nil bs some_byte,
        length-base64url_text bs,
        is_blank-to_sextets bs some_byte,
        from_sextets-to bs h,
        same_text_refl (base64url_text bs),
      )
      refl

decode_base64_strict_sound :
    (input : Text) (bs : List ℕ)
    → decode_base64_strict input ≡ ok bs
    → (base64_text bs ≡ input) × ((length input == 0) ≡ false)
unfolding decode_base64_strict
decode_base64_strict_sound input bs e =
    let decoded = from_sextets (sextets standard input).0 in
    ground (arith, e, same_text-eq (base64_text decoded) input)

decode_base64url_strict_sound :
    (input : Text) (bs : List ℕ)
    → decode_base64url_strict input ≡ ok bs
    → (base64url_text bs ≡ input) × ((length input == 0) ≡ false)
unfolding decode_base64url_strict
decode_base64url_strict_sound input bs e =
    let decoded = from_sextets (sextets url_safe input).0 in
    ground (arith, e, same_text-eq (base64url_text decoded) input)

base64_text-nil : base64_text [] ≡ []
unfolding base64_text to_sextets padding
base64_text-nil = refl

base64url_text-nil : base64url_text [] ≡ []
unfolding base64url_text to_sextets
base64url_text-nil = refl

-- The strict decoder answers with some bytes exactly when the input is their base64 text, with its
-- padding, and there is at least one byte.
pub decode_base64_strict_iff :
    (input : Text) (bs : List ℕ)
    → All IsByte bs
    → (decode_base64_strict input ≡ ok bs) ↔ ((bs ≢ []) × (base64_text bs ≡ input))
decode_base64_strict_iff input bs h = (
  λ e. (
    λ empty.
        let (same, long) = decode_base64_strict_sound input bs e in
        let blank : input ≡ [] = sym same ∙ ap base64_text empty ∙ base64_text-nil in
        absurd (ground (arith, long, ap {B = ℕ} (length {A = ℕ}) blank)),
    (decode_base64_strict_sound input bs e).0,
  ),
  λ (some_byte, same).
      ap decode_base64_strict (sym same) ∙ decode_base64_strict-text bs h some_byte,
)

-- The same of base64url, which has no padding.
pub decode_base64url_strict_iff :
    (input : Text) (bs : List ℕ)
    → All IsByte bs
    → (decode_base64url_strict input ≡ ok bs) ↔ ((bs ≢ []) × (base64url_text bs ≡ input))
decode_base64url_strict_iff input bs h = (
  λ e. (
    λ empty.
        let (same, long) = decode_base64url_strict_sound input bs e in
        let blank : input ≡ [] = sym same ∙ ap base64url_text empty ∙ base64url_text-nil in
        absurd (ground (arith, long, ap {B = ℕ} (length {A = ℕ}) blank)),
    (decode_base64url_strict_sound input bs e).0,
  ),
  λ (some_byte, same).
      ap decode_base64url_strict (sym same) ∙ decode_base64url_strict-text bs h some_byte,
)
