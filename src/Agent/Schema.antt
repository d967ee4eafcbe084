-- ===== src/Agent/Schema.antt =====
-- JSON values, the schemas of tools, and `_validate_schema` of src/eiraos/application/agent_runtime.py.
-- A schema is what the code reads of the mapping; the path of an error is left out.
use eiraos_chat_backend.Prelude.{
  String, Option, none, some, Bool, true, false, List, [], ◌∷◌, ◌&&◌, ◌||◌, not, str_eq, opt_str_eq,
  if◌then◌else◌,
}
use eiraos_chat_backend.Prelude.Text.{one_of}
use eiraos_chat_backend.Prelude.Int.{ℤ}
use eiraos_chat_backend.Prelude.Result.{Result, ok, ◌>>◌, raise_if}

mutual
  pub data Value : Type 0 where
    null : Value
    boolean : Bool → Value
    integer : ℤ → Value
    fraction : String → Value
    str : String → Value
    array : Items → Value
    object : Entries → Value

  pub data Items : Type 0 where
    nil : Items
    cons : Value → Items → Items

  pub data Entries : Type 0 where
    end : Entries
    entry : String → Value → Entries → Entries

-- `any_value` is the empty mapping.
mutual
  pub data Schema : Type 0 where
    any_value : Schema
    typed : Option String → List String → Bool → Properties → ItemSchema → Schema

  pub data Properties : Type 0 where
    no_more : Properties
    property : String → Schema → Properties → Properties

  pub data ItemSchema : Type 0 where
    no_items : ItemSchema
    items_of : Schema → ItemSchema

-- `ToolSchemaError`
pub data SchemaError : Type 0 where
  type_mismatch missing_property undeclared_property : SchemaError

abbrev pub Checked : Type 0
Checked = Result SchemaError (Unit {0})

-- the table of checks; a type that it does not have is not checked
unfoldable pub has_type : String → Value → Bool
has_type type (object entries) =
    not (one_of type ("array" ∷ "string" ∷ "integer" ∷ "number" ∷ "boolean" ∷ "null" ∷ []))
has_type type (array items) =
    not (one_of type ("object" ∷ "string" ∷ "integer" ∷ "number" ∷ "boolean" ∷ "null" ∷ []))
has_type type (str s) =
    not (one_of type ("object" ∷ "array" ∷ "integer" ∷ "number" ∷ "boolean" ∷ "null" ∷ []))
has_type type (integer n) =
    not (one_of type ("object" ∷ "array" ∷ "string" ∷ "boolean" ∷ "null" ∷ []))
has_type type (fraction x) =
    not (one_of type ("object" ∷ "array" ∷ "string" ∷ "integer" ∷ "boolean" ∷ "null" ∷ []))
has_type type (boolean b) =
    not (one_of type ("object" ∷ "array" ∷ "string" ∷ "integer" ∷ "number" ∷ "null" ∷ []))
has_type type null =
    not (one_of type ("object" ∷ "array" ∷ "string" ∷ "integer" ∷ "number" ∷ "boolean" ∷ []))

abbrev pub is_typed : Option String → Value → Bool
is_typed none value = true
is_typed (some type) value = has_type type value

unfoldable pub lookup : String → Entries → Option Value
lookup key end = none
lookup key (entry k v entries) = if str_eq k key then some v else lookup key entries

abbrev pub field : String → Value → Option Value
field key (object entries) = lookup key entries
field key _ = none

abbrev pub is_missing : Option Value → Bool
is_missing none = true
is_missing (some v) = false

unfoldable pub has_required : List String → Value → Bool
has_required [] value = true
has_required (key ∷ keys) value = not (is_missing (field key value)) && has_required keys value

unfoldable pub declares : Properties → String → Bool
declares no_more key = false
declares (property k schema properties) key = str_eq k key || declares properties key

unfoldable pub all_declared : Properties → Entries → Bool
all_declared properties end = true
all_declared properties (entry k v entries) =
    declares properties k && all_declared properties entries

abbrev pub is_closed_by : Properties → Value → Bool
is_closed_by properties (object entries) = all_declared properties entries
is_closed_by properties _ = true

unfoldable pub check_items : (Value → Checked) → Items → Checked
check_items check nil = ok tt
check_items check (cons v items) = check v >> check_items check items

abbrev pub check_elements : (Value → Checked) → Value → Checked
check_elements check (array items) = check_items check items
check_elements check _ = ok tt

abbrev pub check_field : (Value → Checked) → Option Value → Checked
check_field check none = ok tt
check_field check (some v) = check v

-- `if condition:` around checks
abbrev pub only_if : Bool → Checked → Checked
only_if true checks = checks
only_if false checks = ok tt

-- the checks of an object before those of its properties
abbrev pub check_shape : List String → Bool → Properties → Value → Checked
check_shape required closed properties value = do
  raise_if (not (has_required required value)) missing_property
  raise_if (closed && not (is_closed_by properties value)) undeclared_property

unfoldable mutual
  -- `_validate_schema`
  pub validate_schema : Schema → Value → Checked
  validate_schema any_value value = ok tt
  validate_schema (typed type required closed properties items) value = do
    raise_if (not (is_typed type value)) type_mismatch
    only_if (opt_str_eq type (some "object"))
        (check_shape required closed properties value >> validate_properties properties value)
    only_if (opt_str_eq type (some "array")) (validate_items items value)

  pub validate_properties : Properties → Value → Checked
  validate_properties no_more value = ok tt
  validate_properties (property key schema properties) value = do
    check_field (validate_schema schema) (field key value)
    validate_properties properties value

  pub validate_items : ItemSchema → Value → Checked
  validate_items no_items value = ok tt
  validate_items (items_of schema) value = check_elements (validate_schema schema) value
