-- ===== src/Attestation/Cbor/Encoding.antt =====
-- The preferred encoding of RFC 8949, written from the RFC and not from cbor.ts.
use sdidfy.Prelude.{
  ℕ, zero, suc, ◌+◌, ◌*◌, ◌/◌, ◌%◌, ◌^◌, ◌≡◌, Bool, true, false, some, List, [], ◌∷◌, ◌++◌, ltb,
  if◌then◌else◌, length,
}
use sdidfy.Prelude.Int.{pos, negsuc}
use sdidfy.Attestation.Utf8.{decode_utf8}
use sdidfy.Attestation.Cbor.{
  CborKey, text_key, number_key, CborValue, number, bigint, text, bytes, boolean, null_value,
  undefined_value, array, map_value, CborValues, nil, cons, CborMap, empty, entry, is_safe,
}

-- `n` in `width` bytes.
unfoldable pub be_fixed : ℕ → ℕ → List ℕ
be_fixed zero n = []
be_fixed (suc width) n = be_fixed width (n / 256) ++ (n % 256) ∷ []

-- The initial byte and the argument, in the shortest of the five forms.
unfoldable pub write_head : ℕ → ℕ → List ℕ
write_head major n =
    if ltb n 24
    then (major * 32 + n) ∷ []
    else if ltb n (2 ^ 8)
    then (major * 32 + 24) ∷ be_fixed 1 n
    else if ltb n (2 ^ 16)
    then (major * 32 + 25) ∷ be_fixed 2 n
    else if ltb n (2 ^ 32)
    then (major * 32 + 26) ∷ be_fixed 4 n
    else (major * 32 + 27) ∷ be_fixed 8 n

abbrev pub count : CborValues → ℕ
count nil = 0
count (cons v vs) = suc (count vs)

abbrev pub size : CborMap → ℕ
size empty = 0
size (entry k v m) = suc (size m)

-- A number that a JS number holds exactly, by its argument.
abbrev pub HeadedBy : Bool → ℕ → ℕ → List ℕ → Type 0
HeadedBy safe major n bs = (is_safe n ≡ safe) × (bs ≡ write_head major n)

-- The bytes of a text are any that decode to it.
abbrev pub TextBytes : List ℕ → List ℕ → Type 0
TextBytes points bs =
    (raw : List ℕ) × (decode_utf8 raw ≡ some points) × (bs ≡ write_head 3 (length raw) ++ raw)

abbrev pub EncodesKey : CborKey → List ℕ → Type 0
EncodesKey (text_key points) bs = TextBytes points bs
EncodesKey (number_key (pos n)) bs = HeadedBy true 0 n bs
EncodesKey (number_key (negsuc n)) bs = HeadedBy true 1 n bs

abbrev mutual
  pub Encodes : CborValue → List ℕ → Type 0
  Encodes (number (pos n)) bs = HeadedBy true 0 n bs
  Encodes (number (negsuc n)) bs = HeadedBy true 1 n bs
  Encodes (bigint (pos n)) bs = HeadedBy false 0 n bs
  Encodes (bigint (negsuc n)) bs = HeadedBy false 1 n bs
  Encodes (text points) bs = TextBytes points bs
  Encodes (bytes raw) bs = bs ≡ write_head 2 (length raw) ++ raw
  Encodes (boolean false) bs = bs ≡ 0xf4 ∷ []
  Encodes (boolean true) bs = bs ≡ 0xf5 ∷ []
  Encodes null_value bs = bs ≡ 0xf6 ∷ []
  Encodes undefined_value bs = bs ≡ 0xf7 ∷ []
  Encodes (array vs) bs =
      (body : List ℕ) × EncodesAll vs body × (bs ≡ write_head 4 (count vs) ++ body)
  Encodes (map_value m) bs =
      (body : List ℕ) × EncodesMap m body × (bs ≡ write_head 5 (size m) ++ body)

  pub EncodesAll : CborValues → List ℕ → Type 0
  EncodesAll nil bs = bs ≡ []
  EncodesAll (cons v vs) bs =
      (first : List ℕ) × (more : List ℕ) × Encodes v first
      × EncodesAll vs more
      × (bs ≡ first ++ more)

  pub EncodesMap : CborMap → List ℕ → Type 0
  EncodesMap empty bs = bs ≡ []
  EncodesMap (entry k v m) bs =
      (first : List ℕ) × (second : List ℕ) × (more : List ℕ) × EncodesKey k first
      × Encodes v second
      × EncodesMap m more
      × (bs ≡ first ++ (second ++ more))
