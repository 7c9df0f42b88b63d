-- ===== src/Domain/Requests.antt =====
-- src/gateway/domain/requests.py: the resolved controls and the canonical request. The JSON of tools and
-- schemas and the sampling parameters are passed through to the provider, and are not represented.
use llm_token_balancing_gate.Prelude.{
  ℕ, String, Bool, true, false, ◌&&◌, not, Option, some, List, [], ◌∷◌, if◌then◌else◌, str_elem,
  str_eq, ℤ,
}
use llm_token_balancing_gate.Domain.Enums.{Quality, Privacy, Risk, TaskClass, Capability, Endpoint}

-- `ValidationMode`
pub data ValidationMode : Type 0 where
  auto none deterministic independent : ValidationMode

pub record GatewayControls : Type 0 where
  pub quality : Quality
  pub privacy : Privacy
  pub max_cost : Option ℤ
  pub max_latency_ms : Option ℕ
  pub provider_allow : List String
  pub provider_deny : List String
  pub required_capabilities : List Capability
  pub allow_fallback : Bool
  pub max_attempts : ℕ
  pub validation : ValidationMode
  pub task_class : Option TaskClass
  pub risk : Option Risk
  pub dry_run : Bool
  pub metadata : List (String × String)
  pub debug : Bool

abbrev pub non_empty {ℓ} : {A : Type ℓ} → List A → Bool
non_empty [] = false
non_empty (_ ∷ _) = true

-- `GatewayControls.provider_allowed`
unfoldable pub provider_allowed : GatewayControls → String → Bool
provider_allowed c provider =
    if str_elem provider c.provider_deny
    then false
    else if non_empty c.provider_allow && not (str_elem provider c.provider_allow)
    then false
    else true

pub record Message : Type 0 where
  pub role : String
  pub content : String

pub record OutputFormat : Type 0 where
  pub kind : String
  pub has_json_schema : Bool
  pub strict : Bool

-- `OutputFormat.requires_schema_validation`
abbrev pub requires_schema_validation : OutputFormat → Bool
requires_schema_validation f = str_eq f.kind "json_schema" && f.has_json_schema

pub record CanonicalRequest : Type 0 where
  pub request_id : String
  pub endpoint : Endpoint
  pub requested_model : String
  pub conversation : List Message
  pub controls : GatewayControls
  pub client_id : String
  pub system_instructions : Option String
  pub tool_count : ℕ
  pub output_format : OutputFormat
  pub max_output_tokens : Option ℕ
  pub stream : Bool
  pub input_hash : String
  pub estimated_input_tokens : ℕ
  pub idempotency_key : Option String
  pub ignored_fields : List String

-- SELECTORS
abbrev pub selectors : List String
selectors = "auto" ∷ "auto-cheap" ∷ "auto-fast" ∷ "auto-quality" ∷ "auto-private" ∷ []

-- `CanonicalRequest.is_selector`
unfoldable pub is_selector : CanonicalRequest → Bool
is_selector r = str_elem r.requested_model selectors

-- SELECTOR_FORCED_PRIVACY
unfoldable pub selector_forced_privacy : String → Option Privacy
selector_forced_privacy model =
    if str_eq model "auto-private" then some Privacy.confidential else Option.none
