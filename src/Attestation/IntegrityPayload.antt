-- ===== src/Attestation/IntegrityPayload.antt =====
-- packages/attestation/src/play-integrity.ts: the shape check on what Google's decoder answers. All
-- that it throws is one error. `versionCode` and `appLicensingVerdict` reach only the evidence; the
-- latter is checked all the same.
use sdidfy.Prelude.{
  ℕ, suc, ◌+◌, ◌-◌, ◌*◌, ◌^◌, Bool, true, not, ◌&&◌, ◌||◌, Option, none, some, List, [], ◌∷◌, ltb,
  leb, ◌==◌, if◌then◌else◌, length, Result, ok, err, ◌>>=◌, ◌>>◌, throw_if,
}
use sdidfy.Prelude.Int.{pos}
use sdidfy.Attestation.Texts.{Text, codes}
use sdidfy.Attestation.Json.{
  Json, undefined_json, null_json, integer_json, string_json, array_json, object_json, Items,
  no_items, item, Fields, field_of,
}

pub data ShapeError : Type 0 where
  bad_shape : ShapeError

abbrev pub Shape : Type 0 → Type 0
Shape A = Result ShapeError A

pub record IntegrityPayload : Type 0 where
  pub request_package_name : Text
  pub nonce : Text
  pub timestamp_millis : ℕ
  pub app_recognition_verdict : Text
  pub app_package_name : Option Text
  pub certificate_digests : List Text
  pub device_verdicts : List Text

unfoldable pub as_object : Json → Shape Fields
as_object (object_json fs) = ok fs
as_object _ = err bad_shape

abbrev pub as_non_empty : Text → Shape Text
as_non_empty [] = err bad_shape
as_non_empty (c ∷ cs) = ok (c ∷ cs)

unfoldable pub as_string : Json → Shape Text
as_string (string_json s) = as_non_empty s
as_string _ = err bad_shape

unfoldable pub as_strings : Items → Shape (List Text)
unfolding as_string
as_strings no_items = ok []
as_strings (item v vs) = do s ← as_string v; rest ← as_strings vs; ok (s ∷ rest)

abbrev pub items_length : Items → ℕ
items_length no_items = 0
items_length (item v vs) = suc (items_length vs)

-- Absent, the list is empty, as the caller makes it.
unfoldable pub optional_string_array : Json → Shape (List Text)
unfolding as_strings
optional_string_array undefined_json = ok []
optional_string_array null_json = ok []
optional_string_array (array_json items) = do
  throw_if (ltb 64 (items_length items)) bad_shape
  as_strings items
optional_string_array _ = err bad_shape

abbrev pub is_digit : ℕ → Bool
is_digit c = leb b'0' c && leb c b'9'

-- `/^[0-9]+$/` and `Number(value)`; fifteen digits are below 2^53.
abbrev pub all_digits : Text → Bool
all_digits [] = true
all_digits (c ∷ cs) = is_digit c && all_digits cs

unfoldable pub decimal : ℕ → Text → ℕ
decimal acc [] = acc
decimal acc (c ∷ cs) = decimal (acc * 10 + (c - b'0')) cs

unfoldable pub as_epoch_millis : Json → Shape ℕ
unfolding decimal
as_epoch_millis (integer_json (pos n)) =
    if ltb (2 ^ 53 - 1) n || n == 0 then err bad_shape else ok n
as_epoch_millis (string_json s) =
    if length s == 0 || ltb 15 (length s) || not (all_digits s)
    then err bad_shape
    else if decimal 0 s == 0
    then err bad_shape
    else ok (decimal 0 s)
as_epoch_millis _ = err bad_shape

unfoldable pub optional_string : Json → Shape (Option Text)
unfolding as_string
optional_string undefined_json = ok none
optional_string v = do s ← as_string v; ok (some s)

abbrev pub check_account : Json → Shape (Unit {0})
check_account undefined_json = ok tt
check_account v = do
  details ← as_object v
  verdict ← optional_string (field_of (codes "appLicensingVerdict") details)
  ok tt

-- `'tokenPayloadExternal' in root`: JSON has no member that is undefined.
abbrev pub body_in : Fields → Json → Shape Fields
body_in root undefined_json = ok root
body_in root v = as_object v

unfoldable pub parse_integrity_payload : Json → Shape IntegrityPayload
unfolding as_object as_string optional_string optional_string_array as_epoch_millis field_of
parse_integrity_payload decoded = do
  root ← as_object decoded
  body ← body_in root (field_of (codes "tokenPayloadExternal") root)
  request ← as_object (field_of (codes "requestDetails") body)
  app ← as_object (field_of (codes "appIntegrity") body)
  device ← as_object (field_of (codes "deviceIntegrity") body)
  digests ← optional_string_array (field_of (codes "certificateSha256Digest") app)
  device_verdicts ← optional_string_array (field_of (codes "deviceRecognitionVerdict") device)
  request_package_name ← as_string (field_of (codes "requestPackageName") request)
  nonce ← as_string (field_of (codes "nonce") request)
  timestamp_millis ← as_epoch_millis (field_of (codes "timestampMillis") request)
  app_recognition_verdict ← as_string (field_of (codes "appRecognitionVerdict") app)
  app_package_name ← optional_string (field_of (codes "packageName") app)
  check_account (field_of (codes "accountDetails") body)
  ok (record {
    request_package_name = request_package_name;
    nonce = nonce;
    timestamp_millis = timestamp_millis;
    app_recognition_verdict = app_recognition_verdict;
    app_package_name = app_package_name;
    certificate_digests = digests;
    device_verdicts = device_verdicts;
  })
