-- ===== src/Attestation/Cbor.antt =====
-- packages/attestation/src/cbor.ts: the decoder. A `CborReader` is the bytes from its position on
-- and its item count. A text is its code points.
pub mod Access
pub mod Heads
pub mod Encoding
pub mod Members
pub mod Items
pub mod Sound
pub mod Bounds
pub mod Tame
pub mod Tests
use sdidfy.Prelude.{
  ℕ, zero, suc, ◌+◌, ◌-◌, ◌*◌, ◌/◌, ◌%◌, ◌^◌, Bool, true, false, not, ◌&&◌, ◌||◌, Option, none,
  some, List, [], ◌∷◌, ◌++◌, ltb, ◌==◌, leb, if◌then◌else◌, length, take, drop, Result, ok, err,
  ◌>>=◌, ◌>>◌, throw_if,
}
use sdidfy.Prelude.Int.{ℤ, pos, negsuc}
use sdidfy.Attestation.Digits.{big_endian}
use sdidfy.Attestation.Utf8.{decode_utf8}

pub data CborError : Type 0 where
  too_big trailing_bytes unexpected_end too_deep too_many_items overrun : CborError
  indefinite_length reserved_info non_canonical_integer absurd_count count_overrun : CborError
  invalid_utf8 bad_key duplicate_key tagged unsupported_simple : CborError
  not_a_map not_bytes not_text not_an_array not_an_integer : CborError

-- Keys are text strings and integers that are JS numbers.
pub data CborKey : Type 0 where
  text_key : List ℕ → CborKey
  number_key : ℤ → CborKey

-- `null`, `undefined` and the booleans carry a suffix where the word is taken.
mutual
  pub data CborValue : Type 0 where
    number : ℤ → CborValue
    bigint : ℤ → CborValue
    text : List ℕ → CborValue
    bytes : List ℕ → CborValue
    boolean : Bool → CborValue
    null_value : CborValue
    undefined_value : CborValue
    array : CborValues → CborValue
    map_value : CborMap → CborValue

  pub data CborValues : Type 0 where
    nil : CborValues
    cons : CborValue → CborValues → CborValues

  pub data CborMap : Type 0 where
    empty : CborMap
    entry : CborKey → CborValue → CborMap → CborMap

pub record CborLimits : Type 0 where
  pub max_depth : ℕ
  pub max_items : ℕ
  pub max_bytes : ℕ

abbrev pub default_cbor_limits : CborLimits
default_cbor_limits = record { max_depth = 8; max_items = 1024; max_bytes = 128 * 1024 }

pub record CborReader : Type 0 where
  pub rest : List ℕ
  pub items : ℕ

abbrev pub Cbor : Type 0 → Type 0
Cbor A = Result CborError A

unfoldable pub byte : List ℕ → Cbor (ℕ × List ℕ)
byte [] = err unexpected_end
byte (b ∷ bs) = ok (b, bs)

-- `bytes(n)`: checked against what remains before it is cut.
unfoldable pub raw_bytes : ℕ → List ℕ → Cbor (List ℕ × List ℕ)
raw_bytes n bs = if ltb (length bs) n then err overrun else ok (take n bs, drop n bs)

-- `1 << (ai - 24)`, and the least number that needs that width
abbrev pub width_of : ℕ → ℕ
width_of ai = if ai == 24 then 1 else if ai == 25 then 2 else if ai == 26 then 4 else 8

abbrev pub minimum_of : ℕ → ℕ
minimum_of ai =
    if ai == 24 then 24 else if ai == 25 then 2 ^ 8 else if ai == 26 then 2 ^ 16 else 2 ^ 32

unfoldable pub wide_argument : ℕ → List ℕ → Cbor (ℕ × List ℕ)
wide_argument ai bs = do
  (raw, rest) ← raw_bytes (width_of ai) bs
  throw_if (ltb (big_endian 0 raw) (minimum_of ai)) non_canonical_integer
  ok (big_endian 0 raw, rest)

unfoldable pub argument : ℕ → List ℕ → Cbor (ℕ × List ℕ)
argument ai bs =
    if ltb ai 24
    then ok (ai, bs)
    else if ai == 31
    then err indefinite_length
    else if ltb 27 ai
    then err reserved_info
    else wide_argument ai bs

-- `Number.isSafeInteger(value)`: above `MAX_SAFE_INTEGER` the value is NaN.
abbrev pub is_safe : ℕ → Bool
is_safe n = leb n (2 ^ 53 - 1)

unfoldable pub count_argument : ℕ → List ℕ → Cbor (ℕ × List ℕ)
count_argument ai bs = do
  (value, rest) ← argument ai bs
  throw_if (not (is_safe value)) absurd_count
  throw_if (ltb (length rest) value) count_overrun
  ok (value, rest)

abbrev pub integer : Bool → ℤ → CborValue
integer true z = number z
integer false z = bigint z

abbrev pub decoded : Option (List ℕ) → Cbor CborValue
decoded none = err invalid_utf8
decoded (some points) = ok (text points)

-- `typeof key !== 'string' && typeof key !== 'number'`
unfoldable pub as_key : CborValue → Cbor CborKey
as_key (text points) = ok (text_key points)
as_key (number z) = ok (number_key z)
as_key _ = err bad_key

unfoldable pub same_points : List ℕ → List ℕ → Bool
same_points [] [] = true
same_points (a ∷ as') (b ∷ bs) = a == b && same_points as' bs
same_points _ _ = false

unfoldable pub same_key : CborKey → CborKey → Bool
unfolding same_points
same_key (text_key a) (text_key b) = same_points a b
same_key (number_key (pos a)) (number_key (pos b)) = a == b
same_key (number_key (negsuc a)) (number_key (negsuc b)) = a == b
same_key _ _ = false

unfoldable pub has_key : CborKey → CborMap → Bool
has_key k empty = false
has_key k (entry j v m) = same_key j k || has_key k m

-- `out.set(key, value)`: a `Map` keeps the order of insertion.
unfoldable pub set_last : CborKey → CborValue → CborMap → CborMap
unfolding same_key
set_last k v empty = entry k v empty
set_last k v (entry j w m) =
    let rest = set_last k v m in if same_key j k then entry j v m else entry j w rest

abbrev pub ReadItem : Type 0
ReadItem = CborReader → Cbor (CborValue × CborReader)

-- `for (let i = 0; i < n; i++) out.push(this.readValue(depth + 1))`
unfoldable pub read_array : ReadItem → ℕ → CborReader → Cbor (CborValues × CborReader)
read_array read zero r = ok (nil, r)
read_array read (suc n) r = do
  (value, r1) ← read r
  (values, r2) ← read_array read n r1
  ok (cons value values, r2)

unfoldable pub read_map : ReadItem → ℕ → CborMap → CborReader → Cbor (CborMap × CborReader)
read_map read zero out r = ok (out, r)
read_map read (suc n) out r = do
  (value, r1) ← read r
  key ← as_key value
  throw_if (has_key key out) duplicate_key
  (held, r2) ← read r1
  read_map read n (set_last key held out) r2

abbrev pub simple : ℕ → CborReader → Cbor (CborValue × CborReader)
simple ai r =
    if ai == 20
    then ok (boolean false, r)
    else if ai == 21
    then ok (boolean true, r)
    else if ai == 22
    then ok (null_value, r)
    else if ai == 23
    then ok (undefined_value, r)
    else err unsupported_simple

module _ (read : ReadItem) (ai : ℕ) (r : CborReader) where
  abbrev pub at_rest : List ℕ → CborReader
  at_rest bs = record { rest = bs; items = r.items }

  unfoldable pub read_unsigned : Cbor (CborValue × CborReader)
  read_unsigned = do (n, bs) ← argument ai r.rest; ok (integer (is_safe n) (pos n), at_rest bs)

  unfoldable pub read_negative : Cbor (CborValue × CborReader)
  read_negative = do (n, bs) ← argument ai r.rest; ok (integer (is_safe n) (negsuc n), at_rest bs)

  unfoldable pub read_byte_string : Cbor (CborValue × CborReader)
  read_byte_string = do
    (n, bs) ← count_argument ai r.rest
    (raw, after) ← raw_bytes n bs
    ok (bytes raw, at_rest after)

  unfoldable pub read_text_string : Cbor (CborValue × CborReader)
  read_text_string = do
    (n, bs) ← count_argument ai r.rest
    (raw, after) ← raw_bytes n bs
    value ← decoded (decode_utf8 raw)
    ok (value, at_rest after)

  unfoldable pub read_array_item : Cbor (CborValue × CborReader)
  read_array_item = do
    (n, bs) ← count_argument ai r.rest
    (values, r') ← read_array read n (at_rest bs)
    ok (array values, r')

  unfoldable pub read_map_item : Cbor (CborValue × CborReader)
  read_map_item = do
    (n, bs) ← count_argument ai r.rest
    (m, r') ← read_map read n empty (at_rest bs)
    ok (map_value m, r')

-- The `switch (major)` of `readValue`; `read` is `readValue(depth + 1)`.
unfoldable pub by_major : ReadItem → ℕ → ℕ → CborReader → Cbor (CborValue × CborReader)
by_major read major ai r =
    if major == 0
    then read_unsigned read ai r
    else if major == 1
    then read_negative read ai r
    else if major == 2
    then read_byte_string read ai r
    else if major == 3
    then read_text_string read ai r
    else if major == 4
    then read_array_item read ai r
    else if major == 5
    then read_map_item read ai r
    else if major == 6
    then err tagged
    else simple ai r

-- `levels` is `maxDepth + 1 - depth`, so that none is left just where `depth > maxDepth`.
unfoldable pub read_value : ℕ → CborLimits → CborReader → Cbor (CborValue × CborReader)
read_value zero limits r = err too_deep
read_value (suc levels) limits r = do
  throw_if (ltb limits.max_items (r.items + 1)) too_many_items
  (head, bs) ← byte r.rest
  by_major (read_value levels limits) (head / 32) (head % 32)
      (record { rest = bs; items = r.items + 1 })

abbrev pub require_end : CborValue × CborReader → Cbor CborValue
require_end (value, r) = elim r.rest [ [] ↦ ok value | b ∷ bs ↦ err trailing_bytes ]

unfoldable pub decode_cbor : List ℕ → CborLimits → Cbor CborValue
decode_cbor input limits = do
  throw_if (ltb limits.max_bytes (length input)) too_big
  read ← read_value (suc limits.max_depth) limits (record { rest = input; items = 0 })
  require_end read
