-- ===== src/Schema.antt =====
-- `_check_schema` of src/gateway/validators/deterministic.py. `raised` is an exception; a path is the list of
-- the fields and indices on the way to a value, in place of the text that joins them.
pub mod Accepted
use Prim.Native.String
use llm_token_balancing_gate.Prelude.{
  ℕ, ◌+◌, String, Bool, true, false, ◌&&◌, ◌||◌, not, Option, none, some, List, [], ◌∷◌, ◌++◌,
  str_eq, if◌then◌else◌, ℤ, is_some,
}
use package.text.Mathlib.Text.{find?}
use llm_token_balancing_gate.Json.{
  Json, null, boolean, integer, float, text, array, object, Items, nil, cons, Fields, end, field,
  get, in_items, is_truthy,
}

pub data PathStep : Type 0 where
  key : String → PathStep
  index : ℕ → PathStep

abbrev pub JsonPath : Type 0
JsonPath = List PathStep

-- The violation codes.
pub data Code : Type 0 where
  type_mismatch : JsonPath → Code
  missing_required : JsonPath → Json → Code
  not_in_enum : JsonPath → Code

pub data Checked : Type 0 where
  codes : List Code → Checked
  raised : Checked

-- `codes.extend(...)`, after which the code goes on.
abbrev pub extend : Checked → Checked → Checked
extend (codes xs) (codes ys) = codes (xs ++ ys)
extend (codes xs) raised = raised
extend raised c = raised

-- The check of a value at a path, by a schema that is known.
abbrev pub Checker : Type 0
Checker = Json → JsonPath → Checked

abbrev pub is_object : Json → Bool
is_object (object fs) = true
is_object _ = false

abbrev pub is_array : Json → Bool
is_array (array xs) = true
is_array _ = false

abbrev pub is_text : Json → Bool
is_text (text s) = true
is_text _ = false

abbrev pub is_boolean : Json → Bool
is_boolean (boolean b) = true
is_boolean _ = false

abbrev pub is_integer : Json → Bool
is_integer (integer n) = true
is_integer _ = false

abbrev pub is_number : Json → Bool
is_number (integer n) = true
is_number (float m k) = true
is_number _ = false

-- The table of checkers, with a Boolean no integer; a type that it does not name is not checked.
unfoldable pub is_instance : String → Json → Bool
is_instance name v =
    if str_eq name "object"
    then is_object v
    else if str_eq name "array"
    then is_array v
    else if str_eq name "string"
    then is_text v
    else if str_eq name "boolean"
    then is_boolean v
    else if str_eq name "number"
    then is_number v
    else if str_eq name "integer"
    then is_integer v
    else true

-- A list or an object is not hashable, and looking it up in the table raises.
abbrev pub check_type : Option Json → Json → JsonPath → Checked → Checked
check_type none v p rest = rest
check_type (some (text name)) v p rest =
    if is_instance name v then rest else codes (type_mismatch p ∷ [])
check_type (some (array xs)) v p rest = raised
check_type (some (object fs)) v p rest = raised
check_type (some _) v p rest = rest

-- `expected == name`
abbrev pub is_type : String → Option Json → Bool
is_type name (some (text s)) = str_eq s name
is_type name _ = false

abbrev pub one_missing : Bool → JsonPath → Json → Checked
one_missing present p name = codes (if present then [] else missing_required p name ∷ [])

abbrev pub check_name : Json → Fields → JsonPath → Checked
check_name (text s) vs p = one_missing (is_some (get s vs)) p (text s)
check_name (array xs) vs p = raised
check_name (object fs) vs p = raised
check_name name vs p = one_missing false p name

unfoldable pub check_names : Items → Fields → JsonPath → Checked
check_names nil vs p = codes []
check_names (cons n ns) vs p = extend (check_name n vs p) (check_names ns vs p)

abbrev pub letters : String → Items
letters String.[] = nil
letters (String.◌∷◌ c s) = cons (text (String.◌∷◌ c String.[])) (letters s)

abbrev pub keys : Fields → Items
keys end = nil
keys (field k v fs) = cons (text k) (keys fs)

-- `for name in schema.get("required", [])`
abbrev pub check_required : Option Json → Fields → JsonPath → Checked
check_required none vs p = codes []
check_required (some (array ns)) vs p = check_names ns vs p
check_required (some (text s)) vs p = check_names (letters s) vs p
check_required (some (object fs)) vs p = check_names (keys fs) vs p
check_required (some _) vs p = raised

abbrev pub check_present : Option Json → Checker → JsonPath → Checked
check_present none c p = codes []
check_present (some v) c p = c v p

unfoldable pub check_each : List (String × Checker) → Fields → JsonPath → Checked
check_each [] vs p = codes []
check_each ((name, c) ∷ cs) vs p =
    extend (check_present (get name vs) c (p ++ key name ∷ [])) (check_each cs vs p)

-- `(schema.get("properties") or {}).items()`
abbrev pub check_properties : Option Json → List (String × Checker) → Fields → JsonPath → Checked
check_properties none cs vs p = codes []
check_properties (some (object fs)) cs vs p = check_each cs vs p
check_properties (some other) cs vs p = if is_truthy other then raised else codes []

unfoldable pub check_items : Checker → ℕ → Items → JsonPath → Checked
check_items c i nil p = codes []
check_items c i (cons v vs) p = extend (c v (p ++ index i ∷ [])) (check_items c (i + 1) vs p)

abbrev pub check_array : Option Json → Option Checker → Items → JsonPath → Checked
check_array (some (object fs)) (some c) vs p = check_items c 0 vs p
check_array _ _ vs p = codes []

abbrev pub enum_code : Bool → JsonPath → Checked
enum_code allowed p = codes (if allowed then [] else not_in_enum p ∷ [])

-- `value not in allowed`: in a list by equality, in a text as a part, in an object as a key.
abbrev pub check_enum : Option Json → Json → JsonPath → Checked
check_enum none v p = codes []
check_enum (some null) v p = codes []
check_enum (some (array xs)) v p = enum_code (in_items v xs) p
check_enum (some (text s)) (text t) p = enum_code (is_some (find? s t)) p
check_enum (some (object fs)) (text t) p = enum_code (is_some (get t fs)) p
check_enum (some (object fs)) (array xs) p = raised
check_enum (some (object fs)) (object gs) p = raised
check_enum (some (object fs)) v p = enum_code false p
check_enum (some _) v p = raised

abbrev pub check_parts :
    Fields → List (String × Checker) → Option Checker → Json → JsonPath → Checked
check_parts fs props items (object vs) p =
    if is_type "object" (get "type" fs)
    then extend (check_required (get "required" fs) vs p)
        (check_properties (get "properties" fs) props vs p)
    else codes []
check_parts fs props items (array vs) p =
    if is_type "array" (get "type" fs) then check_array (get "items" fs) items vs p else codes []
check_parts fs props items v p = codes []

-- The body, with the checkers of the properties and of the items.
unfoldable pub check_dict : Fields → List (String × Checker) → Option Checker → Checker
unfolding is_instance check_names check_each check_items in_items get
check_dict fs props items v p =
    check_type (get "type" fs) v p
      (extend (check_parts fs props items v p) (check_enum (get "enum" fs) v p))

abbrev pub find_checker : String → List (String × Checker) → Option Checker
find_checker k [] = none
find_checker k ((j, c) ∷ cs) = if str_eq j k then some c else find_checker k cs

abbrev pub find_checkers :
    String → List (String × List (String × Checker)) → List (String × Checker)
find_checkers k [] = []
find_checkers k ((j, c) ∷ cs) = if str_eq j k then c else find_checkers k cs

-- The recursion: each field of a schema is also read as a schema, and as a table of schemas. One that is
-- no object raises as soon as it is asked.
unfoldable mutual
  unfolding check_dict

  pub check_schema : Json → Json → JsonPath → Checked
  check_schema (object fs) v p =
      check_dict fs (find_checkers "properties" (tables_of fs))
        (find_checker "items" (checkers_of fs)) v p
  check_schema _ v p = raised

  pub checkers_of : Fields → List (String × Checker)
  checkers_of end = []
  checkers_of (field k s fs) = (k, check_schema s) ∷ checkers_of fs

  pub table_of : Json → List (String × Checker)
  table_of (object fs) = checkers_of fs
  table_of _ = []

  pub tables_of : Fields → List (String × List (String × Checker))
  tables_of end = []
  tables_of (field k s fs) = (k, table_of s) ∷ tables_of fs
