-- ===== src/Examples/Schemas.antt =====
-- A schema for an object with a required name, and texts that are parsed by a table.
use llm_token_balancing_gate.Prelude.{
  String, ◌∷◌, true, false, none, some, [], ◌≡◌, refl, ◌↔◌, str_eq, if◌then◌else◌, pos,
}
use llm_token_balancing_gate.Json.{
  boolean, integer, text, array, object, Items, nil, cons, Fields, end, field, get,
}
use llm_token_balancing_gate.Schema.{codes, check_schema}
use llm_token_balancing_gate.Schema.Accepted.{
  IsClean, HasKeys, HasProperties, check_schema-object_iff,
}
use llm_token_balancing_gate.Deterministic.{
  TextTools, Checkable, extract_json, schema_check, default_registry,
}
use llm_token_balancing_gate.Deterministic.Verdicts.{
  Passes, IsBody, IsAccepted, schema_check-object_iff,
}
use llm_token_balancing_gate.Validators.{run_plan}

abbrev names : Items
names = cons (text "name") nil

abbrev properties : Fields
properties = field "name" (object (field "type" (text "string") end)) end

abbrev person : Fields
person =
    field "type" (text "object")
      (field "required" (array names) (field "properties" (object properties) end))

abbrev bob : Fields
bob = field "name" (text "bob") end

abbrev tools : TextTools
tools = record {
  strip = λ s. s;
  strip_quotes = λ s. s;
  fenced = λ s. none;
  loads = λ s. if str_eq s "bob" then some (object bob) else none;
  has_word = λ w s. false;
  has_write = λ s. false;
  has_unbounded_write = λ s. false;
  has_citation = λ s. false;
  parses = λ s. true;
  show_path = λ p. "$";
  show_code = λ c. "violation";
}

abbrev checkable : Fields → Checkable
checkable fs = record { json_schema = some (object fs); max_output_tokens = none; output = "bob" }

-- A person is accepted, and one without a name is not.
bob_accepted : check_schema (object person) (object bob) [] ≡ codes []
unfolding check_schema
bob_accepted = refl

-- A Boolean is accepted where the numbers 0 and 1 are allowed.
true_in_numbers :
    check_schema (object (field "enum" (array (cons (integer (pos 1)) nil)) end)) (boolean true) []
    ≡ codes []
unfolding check_schema
true_in_numbers = refl

check_schema-object_iff_example :
    IsClean (check_schema (object person) (object bob) [])
    ↔ (HasKeys names bob × HasProperties properties bob [])
unfolding get
check_schema-object_iff_example =
    check_schema-object_iff person properties bob names [] refl refl refl refl

schema_check-object_iff_example :
    Passes (schema_check tools (checkable person))
    ↔ ((body : String) × IsBody tools "bob" body × IsAccepted names properties (tools.loads body))
unfolding get
schema_check-object_iff_example =
    schema_check-object_iff tools person properties names refl refl refl refl (checkable person)
      refl

abbrev nullable : Fields
nullable = field "type" (array (cons (text "object") (cons (text "null") nil))) end

-- A schema whose type is a list of types makes the validation run raise.
nullable_raises :
    run_plan (default_registry tools) (checkable nullable) ("schema_check" ∷ []) ≡ none
unfolding run_plan default_registry schema_check extract_json check_schema
nullable_raises = refl
