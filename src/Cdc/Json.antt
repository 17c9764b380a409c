-- ===== src/Cdc/Json.antt =====
-- A value of encoding/json, and internal/infrastructure/elasticsearch/mapper_helpers.go. A number is
-- kept as the integer that a conversion to int64 makes of it.
use portal_backend.Prelude.{ℤ, Bool, [], Option, none, some, if◌then◌else◌}
use portal_backend.Text.{Text, text_eq, is_empty}

mutual
  pub data JsonValue : Type 0 where
    json_null : JsonValue
    json_flag : Bool → JsonValue
    json_number : ℤ → JsonValue
    json_text : Text → JsonValue
    json_array : JsonItems → JsonValue
    json_object : Fields → JsonValue

  pub data JsonItems : Type 0 where
    no_items : JsonItems
    item : JsonValue → JsonItems → JsonItems

  -- map[string]any, whose keys are distinct
  pub data Fields : Type 0 where
    no_fields : Fields
    field : Text → JsonValue → Fields → Fields

-- m[key], which is nil for a key that is not there
unfoldable pub at_key : Fields → Text → JsonValue
at_key no_fields key = json_null
at_key (field name v rest) key =
    let later = at_key rest key in if text_eq name key then v else later

unfoldable pub map_of : JsonValue → Option Fields
map_of (json_object fs) = some fs
map_of _ = none

unfoldable pub map_from_map : Fields → Text → Option Fields
unfolding map_of
map_from_map m key = map_of (at_key m key)

abbrev pub text_of : JsonValue → Text
text_of (json_text s) = s
text_of _ = []

unfoldable pub string_from_map : Fields → Text → Text
string_from_map m key = text_of (at_key m key)

abbrev pub not_empty : Text → Option Text
not_empty s = if is_empty s then none else some s

unfoldable pub string_ptr_from_map : Fields → Text → Option Text
string_ptr_from_map m key = not_empty (text_of (at_key m key))

-- Debezium's date, the days since 1970: no date, or an error where it is no number. `format_days` is
-- the date so many days after the epoch, in the layout 2006-01-02.
unfoldable pub date_from_debezium_days : (ℤ → Text) → JsonValue → Option (Option Text)
date_from_debezium_days format_days json_null = some none
date_from_debezium_days format_days (json_number n) = some (some (format_days n))
date_from_debezium_days format_days _ = none
