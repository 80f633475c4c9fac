-- ===== src/Attestation/Json.antt =====
-- Values of JSON.parse, and of the `unknown` that Google's decoder answers with.
use sdidfy.Prelude.{Bool, if◌then◌else◌}
use sdidfy.Prelude.Int.{ℤ}
use sdidfy.Attestation.Texts.{Text, same_text}

-- `other_number` is a number that is not an integer.
mutual
  pub data Json : Type 0 where
    undefined_json : Json
    null_json : Json
    boolean_json : Bool → Json
    other_number : Json
    integer_json : ℤ → Json
    string_json : Text → Json
    array_json : Items → Json
    object_json : Fields → Json

  pub data Items : Type 0 where
    no_items : Items
    item : Json → Items → Items

  pub data Fields : Type 0 where
    no_fields : Fields
    field : Text → Json → Fields → Fields

-- `object[key]`
unfoldable pub field_of : Text → Fields → Json
field_of key no_fields = undefined_json
field_of key (field k v fs) = let rest = field_of key fs in if same_text k key then v else rest
