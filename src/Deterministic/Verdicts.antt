-- ===== src/Deterministic/Verdicts.antt =====
-- The schema gate of src/gateway/validators/deterministic.py.
use llm_token_balancing_gate.Prelude.{
  String, true, false, Option, none, some, some_eq, [], ◌∷◌, ◌≡◌, refl, sym, ap, ◌∙◌, subst, ◌⊎◌,
  inl, inr, ◌↔◌, arith,
}
use llm_token_balancing_gate.Domain.Enums.{ValidationResult}
use llm_token_balancing_gate.Validators.{ValidationOutcome}
use llm_token_balancing_gate.Json.{
  Json, null, boolean, integer, float, text, array, object, Items, Fields, end, get,
}
use llm_token_balancing_gate.Schema.{Checked, codes, raised, type_mismatch, is_object, check_schema}
use llm_token_balancing_gate.Schema.Accepted.{
  IsClean, HasKeys, HasProperties, check_schema-object_iff, check_schema-mismatch,
}
use llm_token_balancing_gate.Deterministic.{
  TextTools, Checkable, extract_json, schema_checked, schema_demanded, schema_check,
}

-- The validator returns, and its verdict is a pass.
abbrev pub Passes : Option ValidationOutcome → Type 0
Passes none = ⊥
Passes (some o) = o.result ≡ ValidationResult.pass

-- What is parsed of an output: it, or what a fence around it holds, without the spaces around.
abbrev pub IsBody : TextTools → String → String → Type 0
IsBody tools output body =
    ((tools.fenced (tools.strip output) ≡ none) × (body ≡ tools.strip output))
    ⊎ ((inner : String) × (tools.fenced (tools.strip output) ≡ some inner)
        × (body ≡ tools.strip inner))

-- A value is an object with the names as keys, and the properties that it has are accepted.
abbrev pub IsAccepted : Items → Fields → Option Json → Type 0
IsAccepted names properties v =
    (vs : Fields) × (v ≡ some (object vs)) × HasKeys names vs × HasProperties properties vs []

abbrev fields_of : Option Json → Fields
fields_of (some (object fs)) = fs
fields_of _ = end

module _ (tools : TextTools) where
  schema_checked_iff : (c : Checked) → Passes (schema_checked tools c) ↔ IsClean c
  schema_checked_iff (codes []) = ((λ _. refl), λ _. refl)
  schema_checked_iff (codes (x ∷ xs)) = ((λ e. absurd (ground arith)), λ e. absurd (ground arith))
  schema_checked_iff raised = ((λ e. absurd e), λ e. absurd (ground arith))

  module _ (fs ps : Fields) (ns : Items) (an_object : get "type" fs ≡ some (text "object"))
      (required : get "required" fs ≡ some (array ns))
      (properties : get "properties" fs ≡ some (object ps)) (no_enum : get "enum" fs ≡ none) where
    object_iff :
        (vs : Fields)
        → Passes (schema_checked tools (check_schema (object fs) (object vs) []))
          ↔ IsAccepted ns ps (some (object vs))
    object_iff vs =
        let checked = schema_checked_iff (check_schema (object fs) (object vs) []) in
        let accepted =
          check_schema-object_iff fs ps vs ns [] an_object required properties no_enum in
        (
          λ h. let (k, q) = accepted.0 (checked.0 h) in (vs, refl, k, q),
          λ (vs', e, k, q). checked.1 (
              accepted.1
                (subst (λ x. HasKeys ns x × HasProperties ps x []) (sym (ap fields_of e)) (k, q))),
        )

    other_iff :
        (v : Json)
        → is_object v ≡ false
        → Passes (schema_checked tools (check_schema (object fs) v [])) ↔ IsAccepted ns ps (some v)
    other_iff v h = (
      λ e.
          let q : codes (type_mismatch [] ∷ []) ≡ codes [] =
            sym (check_schema-mismatch fs v [] an_object h)
            ∙ (schema_checked_iff (check_schema (object fs) v [])).0 e in
          absurd (ground arith),
      λ (vs, e, k, p).
          let q : false ≡ true = sym h ∙ ap is_object (some_eq e) in absurd (ground arith),
    )

    parsed_iff :
        (o : Option Json) → Passes (schema_demanded tools (some (object fs)) o) ↔ IsAccepted ns ps o
    parsed_iff none = (λ e. absurd (ground arith), λ (vs, e, k, p). absurd (ground arith))
    parsed_iff (some (object vs)) = object_iff vs
    parsed_iff (some (array xs)) = other_iff (array xs) refl
    parsed_iff (some (text s)) = other_iff (text s) refl
    parsed_iff (some (integer n)) = other_iff (integer n) refl
    parsed_iff (some (float n d)) = other_iff (float n d) refl
    parsed_iff (some (boolean b)) = other_iff (boolean b) refl
    parsed_iff (some null) = other_iff null refl

    -- What is parsed is determined by the output.
    fence_iff :
        (output : String) (found : Option String)
        → tools.fenced (tools.strip output) ≡ found
        → IsAccepted ns ps (
            tools.loads (elim found [ none ↦ tools.strip output | some inner ↦ tools.strip inner ]))
          ↔ ((body : String) × IsBody tools output body × IsAccepted ns ps (tools.loads body))
    fence_iff output none e =
        (λ h. (tools.strip output, inl (e, refl), h), λ (body, b, h). by_body body b h)
      where
        by_body :
            (body : String)
            → IsBody tools output body
            → IsAccepted ns ps (tools.loads body)
            → IsAccepted ns ps (tools.loads (tools.strip output))
        by_body body (inl (f, q)) h = subst (λ x. IsAccepted ns ps (tools.loads x)) q h
        by_body body (inr (inner, f, q)) h = absurd (ground (arith, e, f))
    fence_iff output (some inner) e =
        (λ h. (tools.strip inner, inr (inner, e, refl), h), λ (body, b, h). by_body body b h)
      where
        by_body :
            (body : String)
            → IsBody tools output body
            → IsAccepted ns ps (tools.loads body)
            → IsAccepted ns ps (tools.loads (tools.strip inner))
        by_body body (inl (f, q)) h = absurd (ground (arith, e, f))
        by_body body (inr (other, f, q)) h =
            subst (λ x. IsAccepted ns ps (tools.loads x)) (q ∙ ap tools.strip (some_eq (sym f ∙ e)))
              h

    -- By a schema for objects that lists its required names and its properties, and no enumeration, the
    -- gate passes exactly if the output, or what a fence around it holds, without the spaces around,
    -- parses to an object that has every required name as a key, and of which every property that it has
    -- is accepted by its own schema.
    pub schema_check-object_iff :
        (c : Checkable)
        → c.json_schema ≡ some (object fs)
        → Passes (schema_check tools c)
          ↔ ((body : String) × IsBody tools c.output body × IsAccepted ns ps (tools.loads body))
    unfolding schema_check extract_json
    schema_check-object_iff c demanded =
        let parsed = parsed_iff (extract_json tools c.output) in
        let body = fence_iff c.output (tools.fenced (tools.strip c.output)) refl in
        rw demanded (λ h. body.0 (parsed.0 h), λ h. parsed.1 (body.1 h))
