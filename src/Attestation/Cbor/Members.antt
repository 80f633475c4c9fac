-- ===== src/Attestation/Cbor/Members.antt =====
-- cbor.ts, the loops over the members of arrays and maps.
use mathlib.Core.List.{append_assoc, append-nil}
use mathlib.Core.Path.{subst}
use sdidfy.Prelude.{
  ℕ, zero, suc, ◌+◌, ◌≡◌, refl, sym, ap, ◌∙◌, List, [], ◌++◌, arith, All, ok, false, true, Bool,
  >>=-eq-ok, ok-injective, err-ne-ok, throw_if-eq-ok,
}
use sdidfy.Prelude.Int.{pos, negsuc}
use sdidfy.Attestation.Digits.{IsByte}
use sdidfy.Attestation.Cbor.{
  CborReader, CborKey, CborValue, number, text, CborValues, CborMap, empty, entry, ReadItem,
  is_safe, integer, as_key, has_key, set_last, read_array, read_map,
}
use sdidfy.Attestation.Cbor.Bounds.{has_key-entry}
use sdidfy.Attestation.Cbor.Encoding.{
  write_head, count, size, EncodesKey, Encodes, EncodesAll, EncodesMap,
}

-- `body` is what was read, and the bytes after it are left.
abbrev pub ReadsFrom : List ℕ → CborValue × CborReader → Type 0
ReadsFrom bs (v, r') =
    (body : List ℕ) × (bs ≡ body ++ r'.rest) × Encodes v body × All IsByte r'.rest

abbrev pub IsSound : ReadItem → Type 0
IsSound read =
    (r : CborReader) (out : CborValue × CborReader)
    → All IsByte r.rest
    → read r ≡ ok out
    → ReadsFrom r.rest out

pub unsigned-Encodes :
    (safe : Bool) (n : ℕ) → is_safe n ≡ safe → Encodes (integer safe (pos n)) (write_head 0 n)
unsigned-Encodes true n e = (e, refl)
unsigned-Encodes false n e = (e, refl)

pub negative-Encodes :
    (safe : Bool) (n : ℕ) → is_safe n ≡ safe → Encodes (integer safe (negsuc n)) (write_head 1 n)
negative-Encodes true n e = (e, refl)
negative-Encodes false n e = (e, refl)

as_key-EncodesKey :
    (v : CborValue) (k : CborKey) (bs : List ℕ) → as_key v ≡ ok k → Encodes v bs → EncodesKey k bs
unfolding as_key
as_key-EncodesKey (text points) k bs e v = subst (λ k. EncodesKey k bs) (ok-injective e) v
as_key-EncodesKey (number (pos n)) k bs e v = subst (λ k. EncodesKey k bs) (ok-injective e) v
as_key-EncodesKey (number (negsuc n)) k bs e v = subst (λ k. EncodesKey k bs) (ok-injective e) v
as_key-EncodesKey _ k bs e v = absurd (err-ne-ok e)

set_last-EncodesMap :
    (m : CborMap) (k : CborKey) (v : CborValue) (before first second : List ℕ)
    → has_key k m ≡ false
    → EncodesMap m before
    → EncodesKey k first
    → Encodes v second
    → EncodesMap (set_last k v m) (before ++ (first ++ second))
unfolding set_last
set_last-EncodesMap empty k v before first second new e ek ev = (
  first,
  second,
  [],
  ek,
  ev,
  refl,
  ap (λ (l : List ℕ). l ++ (first ++ second)) e ∙ ap (◌++◌ first) (sym (append-nil second)),
)
set_last-EncodesMap (entry j w m) k v before first second new (a, b, rest, ej, ew, em, split) ek
      ev =
    let (other, new') = has_key-entry k j w m new in
    rw other (
      a,
      b,
      rest ++ (first ++ second),
      ej,
      ew,
      set_last-EncodesMap m k v rest first second new' em ek ev,
      ap (λ (l : List ℕ). l ++ (first ++ second)) split ∙ simp append_assoc,
    )

size-set_last :
    (m : CborMap) (k : CborKey) (v : CborValue)
    → has_key k m ≡ false
    → size (set_last k v m) ≡ suc (size m)
unfolding set_last
size-set_last empty k v new = refl
size-set_last (entry j w m) k v new =
    let (other, new') = has_key-entry k j w m new in rw other (ap suc (size-set_last m k v new'))

module _ (read : ReadItem) (sound : IsSound read) where
  abbrev pub ReadsAll : ℕ → List ℕ → CborValues × CborReader → Type 0
  ReadsAll n bs (vs, r') =
      (body : List ℕ) × (bs ≡ body ++ r'.rest)
      × EncodesAll vs body
      × (count vs ≡ n)
      × All IsByte r'.rest

  pub read_array-ReadsAll :
      (n : ℕ) (r : CborReader) (out : CborValues × CborReader)
      → All IsByte r.rest
      → read_array read n r ≡ ok out
      → ReadsAll n r.rest out
  unfolding read_array
  read_array-ReadsAll zero r out h e =
      subst (ReadsAll 0 r.rest) (ok-injective e) ([], refl, refl, refl, h)
  read_array-ReadsAll (suc n) r out h e =
      let ((v, r1), first, e1) = >>=-eq-ok (read r) _ e in
      let ((vs, r2), more, e2) = >>=-eq-ok (read_array read n r1) _ e1 in
      let (a, split, enc, h1) = sound r (v, r1) h first in
      let (b, split', encs, len, h2) = read_array-ReadsAll n r1 (vs, r2) h1 more in
      subst (ReadsAll (suc n) r.rest) (ok-injective e2) (
        a ++ b,
        split ∙ ap (◌++◌ a) split' ∙ sym (append_assoc a b r2.rest),
        (a, b, enc, encs, refl),
        ap suc len,
        h2,
      )

  abbrev pub ReadsMap : CborMap → List ℕ → ℕ → List ℕ → CborMap × CborReader → Type 0
  ReadsMap out before n bs (m, r') =
      (body : List ℕ) × (bs ≡ body ++ r'.rest)
      × EncodesMap m (before ++ body)
      × (size m ≡ size out + n)
      × All IsByte r'.rest

  pub read_map-ReadsMap :
      (n : ℕ) (out : CborMap) (before : List ℕ) (r : CborReader) (res : CborMap × CborReader)
      → All IsByte r.rest
      → EncodesMap out before
      → read_map read n out r ≡ ok res
      → ReadsMap out before n r.rest res
  unfolding read_map
  read_map-ReadsMap zero out before r res h enc e =
      subst (ReadsMap out before 0 r.rest) (ok-injective e)
        ([], refl, rw (append-nil before) enc, omega arith, h)
  read_map-ReadsMap (suc n) out before r res h enc e =
      let ((kv, r1), first, e1) = >>=-eq-ok (read r) _ e in
      let (k, key, e2) = >>=-eq-ok (as_key kv) _ e1 in
      let (new, e3) = throw_if-eq-ok (has_key k out) _ _ e2 in
      let ((v, r2), second, e4) = >>=-eq-ok (read r1) _ e3 in
      let (a, split_a, enc_k, h1) = sound r (kv, r1) h first in
      let (b, split_b, enc_v, h2) = sound r1 (v, r2) h1 second in
      let enc' =
        set_last-EncodesMap out k v before a b new enc (as_key-EncodesKey kv k a key enc_k) enc_v in
      let (body, split, encs, len, h3) =
        read_map-ReadsMap n (set_last k v out) (before ++ (a ++ b)) r2 res h2 enc' e4 in
      (
        (a ++ b) ++ body,
        split_a
            ∙ ap (◌++◌ a) split_b
            ∙ ap (λ (l : List ℕ). a ++ (b ++ l)) split
            ∙ simp append_assoc,
        subst (EncodesMap res.0) (append_assoc before (a ++ b) body) encs,
        omega (arith, size-set_last out k v new),
        h3,
      )
