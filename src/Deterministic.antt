-- ===== src/Deterministic.antt =====
-- The validators of src/gateway/validators/deterministic.py. What the standard library does to texts
-- (stripping, regular expressions, `json.loads`, `ast.parse`, the printing of paths) is a parameter;
-- `none` is a raise.
pub mod Verdicts
use Prim.Native.Char.{code}
use Prim.Native.String
use Prim.Native.String.{count}
use llm_token_balancing_gate.Prelude.{
  ℕ, ◌+◌, ◌*◌, String, Bool, true, false, not, ◌||◌, Option, none, some, List, [], ◌∷◌, ◌++◌, map,
  any, ltb, ◌==◌, str_eq, if◌then◌else◌, is_some,
}
use llm_token_balancing_gate.Domain.Enums.{ValidationResult}
use llm_token_balancing_gate.Validators.{ValidationOutcome, ValidatorRegistry}
use llm_token_balancing_gate.Json.{
  Json, null, text, array, object, Items, nil, cons, Fields, get, in_items, is_truthy,
}
use llm_token_balancing_gate.Schema.{
  JsonPath, Code, type_mismatch, missing_required, not_in_enum, Checked, codes, raised,
  check_schema, check_enum,
}

pub record TextTools : Type 0 where
  pub strip : String → String
  pub strip_quotes : String → String
  -- `_CODE_FENCE.search(text).group(1)`
  pub fenced : String → Option String
  pub loads : String → Option Json
  pub has_word : String → String → Bool
  pub has_write : String → Bool
  pub has_unbounded_write : String → Bool
  pub has_citation : String → Bool
  pub parses : String → Bool
  pub show_path : JsonPath → String
  pub show_code : Code → String

-- What a validator reads of the request and of the candidate.
pub record Checkable : Type 0 where
  pub json_schema : Option Json
  pub max_output_tokens : Option ℕ
  pub output : String

abbrev pub verdict : String → ValidationResult → List String → Option String → ValidationOutcome
verdict name result detail hint = record {
  validator = name;
  result = result;
  detail_codes = detail;
  required = true;
  duration_ms = none;
  repair_hint = hint;
}

abbrev pub passes : String → List String → ValidationOutcome
passes name detail = verdict name ValidationResult.pass detail none

abbrev pub repairable : String → String → String → ValidationOutcome
repairable name detail hint =
    verdict name ValidationResult.fail_repairable (detail ∷ []) (some hint)

abbrev pub or_text : Option String → String → String
or_text none s = s
or_text (some t) s = t

-- `text.count(c)`
unfoldable pub occurrences : ℕ → String → ℕ
occurrences c String.[] = 0
occurrences c (String.◌∷◌ d s) = (if code d == c then 1 else 0) + occurrences c s

abbrev pub sql_keywords : List String
sql_keywords = "SELECT" ∷ "WITH" ∷ "INSERT" ∷ "UPDATE" ∷ "DELETE" ∷ "CREATE" ∷ "EXPLAIN" ∷ []

abbrev pub too_long : Option ℕ → ℕ → Bool
too_long none length = false
too_long (some n) length = if n == 0 then false else ltb (n * 4) length

module _ (tools : TextTools) where
  open tools use {
    strip, strip_quotes, fenced, loads, has_word, has_write, has_unbounded_write, has_citation,
    parses, show_code,
  }

  -- `_extract_json`
  unfoldable pub extract_json : String → Option Json
  extract_json s = loads (elim (fenced (strip s)) [ none ↦ strip s | some inner ↦ strip inner ])

  -- `(fence.group(1) if fence else text).strip()`
  abbrev pub unfenced : String → String
  unfenced s = strip (or_text (fenced s) s)

  abbrev pub json_parsed : Option Json → ValidationOutcome
  json_parsed none =
      repairable "json_parse" "invalid_json"
        "Return only valid JSON, with no surrounding prose or code fence."
  json_parsed (some v) = passes "json_parse" []

  unfoldable pub json_parse : Checkable → Option ValidationOutcome
  unfolding extract_json
  json_parse c = some (json_parsed (extract_json c.output))

  abbrev pub schema_checked : Checked → Option ValidationOutcome
  schema_checked (codes []) = some (passes "schema_check" [])
  schema_checked (codes (x ∷ xs)) = some (
      verdict "schema_check" ValidationResult.fail_repairable (map show_code (x ∷ xs)) (
        some
          "The JSON did not match the requested schema; correct the listed fields and return only JSON."))
  schema_checked raised = none

  abbrev pub schema_parsed : Json → Option Json → Option ValidationOutcome
  schema_parsed schema none = some (
      repairable "schema_check" "invalid_json"
        "Return only valid JSON matching the requested schema.")
  schema_parsed schema (some v) = schema_checked (check_schema schema v [])

  abbrev pub schema_demanded : Option Json → Option Json → Option ValidationOutcome
  schema_demanded none parsed = some (passes "schema_check" ("no_schema" ∷ []))
  schema_demanded (some schema) parsed = schema_parsed schema parsed

  unfoldable pub schema_check : Checkable → Option ValidationOutcome
  unfolding extract_json
  schema_check c = schema_demanded c.json_schema (extract_json c.output)

  unfoldable pub sql_parser : Checkable → Option ValidationOutcome
  unfolding occurrences
  sql_parser c =
      let sql = unfenced c.output in
      some (
        if str_eq sql ""
        then repairable "sql_parser" "empty_output" "Return a SQL statement."
        else if not (any (λ word. has_word word sql) sql_keywords)
        then repairable "sql_parser" "no_sql_statement" "Return a SQL statement, not prose."
        else if occurrences b'(' sql == occurrences b')' sql
        then passes "sql_parser" []
        else repairable "sql_parser" "unbalanced_parentheses" "Return syntactically complete SQL.")

  abbrev pub unsafe_codes : Bool → Bool → List String
  unsafe_codes writes unbounded =
      (if writes then "write_statement_present" ∷ [] else [])
      ++ (if unbounded then "unbounded_write" ∷ [] else [])

  abbrev pub safety_verdict : List String → ValidationOutcome
  safety_verdict [] = passes "sql_safety" []
  safety_verdict (x ∷ xs) = verdict "sql_safety" ValidationResult.fail_capability (x ∷ xs) none

  unfoldable pub sql_safety : Checkable → Option ValidationOutcome
  sql_safety c = some (
      safety_verdict
        (unsafe_codes (has_write (unfenced c.output)) (has_unbounded_write (unfenced c.output))))

  unfoldable pub length_check : Checkable → Option ValidationOutcome
  length_check c =
      let length = count (strip c.output) in
      some (
        if ltb length 1
        then repairable "length_check" "output_too_short" "Return a non-empty response."
        else if too_long c.max_output_tokens length
        then repairable "length_check" "output_too_long"
            "Return a shorter response within the requested limit."
        else passes "length_check" [])

  abbrev pub label_verdict : Checked → Option ValidationOutcome
  label_verdict (codes []) = some (passes "label_check" [])
  label_verdict (codes (x ∷ xs)) = some (
      repairable "label_check" "label_not_allowed"
        "Answer with exactly one of the permitted labels.")
  label_verdict raised = none

  -- An empty set of labels enforces nothing.
  abbrev pub label_among : Option Json → String → Option ValidationOutcome
  label_among none answer = some (passes "label_check" ("no_label_set" ∷ []))
  label_among (some allowed) answer =
      if is_truthy allowed
      then label_verdict (check_enum (some allowed) (text answer) [])
      else some (passes "label_check" ("no_label_set" ∷ []))

  -- `(json_schema or {}).get("enum")`; a schema that is no object has no `get`.
  abbrev pub label_by : Option Json → String → Option ValidationOutcome
  label_by none answer = label_among none answer
  label_by (some (object fs)) answer = label_among (get "enum" fs) answer
  label_by (some other) answer = if is_truthy other then none else label_among none answer

  unfoldable pub label_check : Checkable → Option ValidationOutcome
  label_check c = label_by c.json_schema (strip_quotes (strip c.output))

  unfoldable pub citation_check : Checkable → Option ValidationOutcome
  citation_check c = some (
      if has_citation c.output
      then passes "citation_check" []
      else verdict "citation_check" ValidationResult.fail_grounding ("no_citations" ∷ []) none)

  unfoldable pub code_compile : Checkable → Option ValidationOutcome
  code_compile c =
      let source = unfenced c.output in
      some (
        if str_eq source ""
        then repairable "code_compile" "empty_output" "Return the requested code."
        else if parses source
        then passes "code_compile" []
        else repairable "code_compile" "syntax_error" "Return syntactically valid code.")

  -- `FakeJudgeValidator.validate`
  unfoldable pub fake_judge : String → Checkable → Option ValidationOutcome
  fake_judge name c = some (
      if str_eq (strip c.output) ""
      then verdict name ValidationResult.fail_quality ("empty_output" ∷ []) none
      else passes name ("stand_in_judge" ∷ []))

  unfoldable pub default_registry : ValidatorRegistry Checkable
  default_registry =
      ("json_parse", json_parse)
      ∷ ("schema_check", schema_check)
      ∷ ("sql_parser", sql_parser)
      ∷ ("sql_safety", sql_safety)
      ∷ ("length_check", length_check)
      ∷ ("label_check", label_check)
      ∷ ("citation_check", citation_check)
      ∷ ("code_compile", code_compile)
      ∷ ("independent_review", fake_judge "independent_review")
      ∷ ("rubric_judge", fake_judge "rubric_judge")
      ∷ []
