-- ===== src/Normalizer.antt =====
-- src/gateway/services/normalizer.py: both bodies to one canonical request, after their schemas were
-- checked. The keyed digest is a parameter. Sampling, tools and tool calls are passed through and not
-- represented but for the number of the tools. A content is a text, a list of parts or absent, and roles
-- and types are texts.
pub mod Endpoints
pub mod Implied
pub mod Digest
use Prim.Native.String.{count, ◌++◌ as str_append}
use llm_token_balancing_gate.Prelude.{
  ℕ, zero, suc, ◌+◌, ◌*◌, ◌/◌, String, Bool, true, false, not, ◌||◌, ◌&&◌, Option, none, some, List,
  [], ◌∷◌, ◌++◌, keep, any, ltb, str_eq, str_elem, str_leb, if◌then◌else◌, length, map,
}
use llm_token_balancing_gate.Prelude.Sort.{sort}
use llm_token_balancing_gate.Domain.Enums.{Capability, Endpoint}
use llm_token_balancing_gate.Domain.Requests.{
  Message, OutputFormat, GatewayControls, CanonicalRequest,
}
use llm_token_balancing_gate.Domain.Strictest.{or_default}
use llm_token_balancing_gate.Policy.{has_capability}
use llm_token_balancing_gate.Json.{
  Json, null, boolean, integer, float, text, array, object, Items, nil, cons, Fields, end, field,
  get, is_truthy,
}

abbrev pub chars_per_token : ℕ
chars_per_token = 4

abbrev pub per_message_token_overhead : ℕ
per_message_token_overhead = 4

unfoldable pub estimate_tokens : String → ℕ
estimate_tokens s =
    if str_eq s ""
    then 0
    else if ltb (count s / chars_per_token) 1
    then 1
    else count s / chars_per_token

-- `separator.join(parts)`
abbrev pub join_rest : String → List String → String
join_rest sep [] = ""
join_rest sep (s ∷ ss) = str_append sep (str_append s (join_rest sep ss))

abbrev pub join : String → List String → String
join sep [] = ""
join sep (s ∷ ss) = str_append s (join_rest sep ss)

abbrev pub text_of_part : Option Json → List String → List String
text_of_part (some (text s)) rest = s ∷ rest
text_of_part _ rest = rest

abbrev pub text_parts : Items → List String
text_parts nil = []
text_parts (cons (object fs) ps) = text_of_part (get "text" fs) (text_parts ps)
text_parts (cons _ ps) = text_parts ps

unfoldable pub flatten_content : Json → String
unfolding get
flatten_content (text s) = s
flatten_content (array ps) = join "\n" (text_parts ps)
flatten_content _ = ""

abbrev pub is_image_type : Option Json → Bool
is_image_type (some (text s)) = str_elem s ("image_url" ∷ "input_image" ∷ "image" ∷ [])
is_image_type _ = false

abbrev pub has_image_part : Items → Bool
has_image_part nil = false
has_image_part (cons (object fs) ps) = is_image_type (get "type" fs) || has_image_part ps
has_image_part (cons _ ps) = has_image_part ps

unfoldable pub content_has_image : Json → Bool
unfolding get
content_has_image (array ps) = has_image_part ps
content_has_image _ = false

abbrev pub capability_if : Bool → Capability → List Capability → List Capability
capability_if t c cs = if t then c ∷ cs else cs

-- `_detect_capabilities`, with the reasoning that a Responses body may ask for.
unfoldable pub detect_capabilities : ℕ → OutputFormat → Bool → Bool → Bool → List Capability
detect_capabilities tool_count output_format stream has_image reasons =
    capability_if (ltb 0 tool_count) Capability.tools (
      capability_if (str_eq output_format.kind "json_schema") Capability.json_schema (
        capability_if stream Capability.streaming (
          capability_if has_image Capability.vision
            (capability_if reasons Capability.reasoning []))))

abbrev pub plain_format : String → OutputFormat
plain_format kind = record { kind = kind; has_json_schema = false; strict = false }

abbrev pub is_given : Option Json → Bool
is_given none = false
is_given (some null) = false
is_given (some v) = true

abbrev pub truthy_or_false : Option Json → Bool
truthy_or_false none = false
truthy_or_false (some v) = is_truthy v

abbrev pub schema_format : Fields → OutputFormat
schema_format block = record {
  kind = "json_schema";
  has_json_schema = is_given (get "schema" block);
  strict = truthy_or_false (get "strict" block);
}

-- `response_format`: its type, and the block of a schema or an empty one.
unfoldable pub output_format_from_chat : Option (String × Fields) → OutputFormat
unfolding get
output_format_from_chat none = plain_format "text"
output_format_from_chat (some (kind, block)) =
    if str_eq kind "json_schema" then schema_format block else plain_format kind

-- `text.format`, whose type is a text.
abbrev pub kind_in : Option Json → String
kind_in (some (text s)) = s
kind_in _ = "text"

unfoldable pub output_format_from_responses : Option Fields → OutputFormat
unfolding get
output_format_from_responses none = plain_format "text"
output_format_from_responses (some block) =
    if str_eq (kind_in (get "type" block)) "json_schema"
    then schema_format block
    else plain_format (kind_in (get "type" block))

unfoldable pub ignored_fields : List String → List String → List String
ignored_fields raw known = sort str_leb (keep (λ k. not (str_elem k known)) raw)

abbrev pub known_chat_fields : List String
known_chat_fields =
    "model" ∷ "messages" ∷ "temperature" ∷ "top_p" ∷ "max_tokens" ∷ "max_completion_tokens" ∷ "stop"
    ∷ "n" ∷ "stream" ∷ "stream_options" ∷ "frequency_penalty" ∷ "presence_penalty" ∷ "seed"
    ∷ "response_format" ∷ "tools" ∷ "tool_choice" ∷ "parallel_tool_calls" ∷ "user" ∷ "metadata"
    ∷ "gateway" ∷ []

abbrev pub known_responses_fields : List String
known_responses_fields =
    "model" ∷ "instructions" ∷ "input" ∷ "max_output_tokens" ∷ "temperature" ∷ "top_p" ∷ "stream"
    ∷ "tools" ∷ "tool_choice" ∷ "parallel_tool_calls" ∷ "text" ∷ "reasoning" ∷ "metadata" ∷ "user"
    ∷ "gateway" ∷ []

abbrev pub endpoint_value : Endpoint → String
endpoint_value Endpoint.chat_completions = "chat_completions"
endpoint_value Endpoint.responses = "responses"

abbrev pub digest_parts : List Message → List String
digest_parts [] = []
digest_parts (m ∷ ms) = str_append m.role (str_append ":" m.content) ∷ digest_parts ms

-- `_canonical_digest_source`; the separator is the code point 31.
unfoldable pub canonical_digest_source :
    String → Endpoint → String → Option String → List Message → OutputFormat → String
canonical_digest_source separator endpoint model system conversation output_format =
    join separator (
      endpoint_value endpoint
      ∷ model
      ∷ or_default system ""
      ∷ output_format.kind
      ∷ digest_parts conversation)

-- The union of two sets, each capability once.
abbrev pub union : List Capability → List Capability → List Capability
union cs [] = cs
union cs (d ∷ ds) = if has_capability d cs then union cs ds else union (cs ++ d ∷ []) ds

abbrev pub total_chars : List Message → ℕ
total_chars [] = 0
total_chars (m ∷ ms) = count m.content + total_chars ms

abbrev pub at_least_one : ℕ → ℕ
at_least_one n = if ltb n 1 then 1 else n

-- The arguments that both endpoints pass on as they are.
pub record Envelope : Type 0 where
  pub request_id : String
  pub client_id : String
  pub controls : GatewayControls
  pub idempotency_key : Option String
  pub raw_fields : List String

-- What `_build` is given of a body.
pub record Parts : Type 0 where
  pub endpoint : Endpoint
  pub requested_model : String
  pub conversation : List Message
  pub system_instructions : Option String
  pub tool_count : ℕ
  pub output_format : OutputFormat
  pub max_output_tokens : Option ℕ
  pub stream : Bool
  pub inferred : List Capability
  pub ignored : List String

-- `digest` is the keyed digest, and `separator` the text between the parts of its source.
module _ (digest : String → String) (separator : String) where
  unfoldable pub build : Envelope → Parts → CanonicalRequest
  unfolding canonical_digest_source
  build e p =
      let controls = record (e.controls) {
        required_capabilities = union e.controls.required_capabilities p.inferred;
      } in
      let chars = total_chars p.conversation + count (or_default p.system_instructions "") in
      record {
        request_id = e.request_id;
        endpoint = p.endpoint;
        requested_model = p.requested_model;
        conversation = p.conversation;
        controls = controls;
        client_id = e.client_id;
        system_instructions = p.system_instructions;
        tool_count = p.tool_count;
        output_format = p.output_format;
        max_output_tokens = p.max_output_tokens;
        stream = p.stream;
        input_hash = digest (
            canonical_digest_source separator p.endpoint p.requested_model p.system_instructions
              p.conversation p.output_format);
        estimated_input_tokens =
            at_least_one
              (chars / chars_per_token + per_message_token_overhead * length p.conversation);
        idempotency_key = e.idempotency_key;
        ignored_fields = p.ignored;
      }
