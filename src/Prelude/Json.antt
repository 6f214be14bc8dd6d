-- ===== src/Prelude/Json.antt =====
-- JSON values as `encoding/json` decodes them into `any`, and the readings of them that the program
-- shares. Numbers are integers: the counts, times and indices that the program reads.
use Prim.Native.String.{String}
use mathlib.Core.Bool.{Bool}
use mathlib.Core.Option.{Option, none, some}
use mathlib.Core.List.{List, [], ◌∷◌}
use text.Mathlib.Text.{◌==◌}
use grokcli2api_go.Prelude.Tests.{if◌then◌else◌}
use grokcli2api_go.Prelude.Int.{ℤ}

-- The fields of an object in some order; of two with one name the first counts.
mutual
  pub data Json : Type 0 where
    null : Json
    boolean : Bool → Json
    number : ℤ → Json
    string : String → Json
    array : Items → Json
    object : Fields → Json

  pub data Items : Type 0 where
    no_items : Items
    one_item : Json → Items → Items

  pub data Fields : Type 0 where
    no_fields : Fields
    one_field : String → Json → Fields → Fields

-- value, exists := fields[name]
unfoldable pub find_field : String → Fields → Option Json
find_field name no_fields = none
find_field name (one_field n v rest) =
    let later = find_field name rest in if n == name then some v else later

-- fields[name], which is nil where the name is absent
unfoldable pub get_field : String → Fields → Json
unfolding find_field
get_field name fields = elim (find_field name fields) [ none ↦ null | some v ↦ v ]

-- value.(string)
abbrev pub as_text : Json → Option String
as_text (string s) = some s
as_text v = none

-- s, _ := value.(string)
abbrev pub text_of : Json → String
text_of (string s) = s
text_of v = ""

-- m, ok := value.(map[string]any)
abbrev pub as_object : Json → Option Fields
as_object (object fields) = some fields
as_object v = none

-- m, _ := value.(map[string]any): a nil map is read as one without fields
abbrev pub fields_of : Json → Fields
fields_of (object fields) = fields
fields_of v = no_fields

abbrev pub members : Items → List Json
members no_items = []
members (one_item v rest) = v ∷ members rest

-- The same items as a JSON array.
abbrev pub items_of : List Json → Items
items_of [] = no_items
items_of (v ∷ vs) = one_item v (items_of vs)

-- xs, ok := value.([]any)
abbrev pub as_array : Json → Option (List Json)
as_array (array items) = some (members items)
as_array v = none

-- xs, _ := value.([]any)
abbrev pub array_of : Json → List Json
array_of (array items) = members items
array_of v = []

-- number(value)
abbrev pub as_number : Json → Option ℤ
as_number (number n) = some n
as_number v = none
