-- ===== src/Examples/Bodies.antt =====
-- Two chat bodies of a client, with the canonical requests that they become.
use llm_token_balancing_gate.Prelude.{
  ℕ, String, true, false, Option, none, some, List, [], ◌∷◌, ◌≡◌, refl, All, Elem,
}
use llm_token_balancing_gate.Domain.Enums.{Capability, Endpoint}
use llm_token_balancing_gate.Domain.Requests.{GatewayControls, CanonicalRequest}
use llm_token_balancing_gate.Json.{boolean, text, Fields, end, field}
use llm_token_balancing_gate.Prelude.Sort.{sort}
use llm_token_balancing_gate.Normalizer.{
  detect_capabilities, output_format_from_chat, ignored_fields, Envelope,
}
use llm_token_balancing_gate.Normalizer.Endpoints.{
  canonical, invalid_request, ChatMessage, ChatPayload, has_image, normalize_chat_request,
  normalize_responses_request,
}
use llm_token_balancing_gate.Normalizer.Implied.{Implies, normalize_chat_request-Implies}
use llm_token_balancing_gate.Normalizer.Digest.{normalize_chat_request-hash}
use llm_token_balancing_gate.Examples.Routes.{controls}

abbrev same : String → String
same s = s

abbrev requiring : List Capability → GatewayControls
requiring cs = record (controls) { required_capabilities = cs }

abbrev envelope : String → Envelope
envelope id = record {
  request_id = id;
  client_id = "alice";
  controls = requiring (Capability.tools ∷ []);
  idempotency_key = some "k1";
  raw_fields = "model" ∷ "messages" ∷ "zebra" ∷ "logit_bias" ∷ [];
}

abbrev hello : List ChatMessage
hello =
    record { role = "system"; content = text "Be brief." }
    ∷ record { role = "user"; content = text "Hello there" }
    ∷ []

abbrev payload : ℕ → Option ℕ → ChatPayload
payload tools limit = record {
  model = "auto";
  messages = hello;
  tool_count = tools;
  response_format = none;
  max_completion_tokens = limit;
  max_tokens = some 50;
  stream = true;
}

abbrev parsed : String → ℕ → ℕ → List Capability → CanonicalRequest
parsed id tools limit cs = record {
  request_id = id;
  endpoint = Endpoint.chat_completions;
  requested_model = "auto";
  conversation = record { role = "user"; content = "Hello there" } ∷ [];
  controls = requiring cs;
  client_id = "alice";
  system_instructions = some "Be brief.";
  tool_count = tools;
  output_format = record { kind = "text"; has_json_schema = false; strict = false };
  max_output_tokens = some limit;
  stream = true;
  input_hash = "chat_completions|auto|Be brief.|text|user:Hello there";
  estimated_input_tokens = 9;
  idempotency_key = some "k1";
  ignored_fields = "logit_bias" ∷ "zebra" ∷ [];
}

with_tools :
    normalize_chat_request same "|" (envelope "r1") (payload 2 none)
    ≡ canonical (parsed "r1" 2 50 (Capability.tools ∷ Capability.streaming ∷ []))
unfolding normalize_chat_request detect_capabilities output_format_from_chat ignored_fields sort
with_tools = refl

without_tools :
    normalize_chat_request same "|" (envelope "r2") (payload 0 (some 9))
    ≡ canonical (parsed "r2" 0 9 (Capability.tools ∷ Capability.streaming ∷ []))
unfolding normalize_chat_request detect_capabilities output_format_from_chat ignored_fields sort
without_tools = refl

abbrev stored : Fields
stored = field "store" (boolean true) (field "input" (text "Hello") end)

-- A body that asks for the answer to be stored is refused.
store_refused :
    normalize_responses_request same "|" (envelope "r3") stored (record {
      model = "auto";
      instructions = none;
      input = some "Hello";
      input_items = [];
      max_output_tokens = none;
      stream = false;
      tool_count = 0;
      text_format = none;
      reasons = false;
    })
    ≡ invalid_request "store"
unfolding normalize_responses_request
store_refused = refl

normalize_chat_request-Implies_example :
    All (λ c. Elem c (Capability.tools ∷ Capability.streaming ∷ [])) (Capability.tools ∷ [])
    × Implies 2
        (output_format_from_chat none)
        true
        (has_image hello)
        (Capability.tools ∷ Capability.streaming ∷ [])
normalize_chat_request-Implies_example =
    normalize_chat_request-Implies same "|" (envelope "r1") (payload 2 none)
      (parsed "r1" 2 50 (Capability.tools ∷ Capability.streaming ∷ [])) with_tools

normalize_chat_request-hash_example :
    (parsed "r1" 2 50 (Capability.tools ∷ Capability.streaming ∷ [])).input_hash
    ≡ (parsed "r2" 0 9 (Capability.tools ∷ Capability.streaming ∷ [])).input_hash
normalize_chat_request-hash_example =
    normalize_chat_request-hash same "|" (envelope "r1") (envelope "r2") (payload 2 none)
      (payload 0 (some 9)) (parsed "r1" 2 50 (Capability.tools ∷ Capability.streaming ∷ []))
      (parsed "r2" 0 9 (Capability.tools ∷ Capability.streaming ∷ [])) refl refl refl with_tools
      without_tools
