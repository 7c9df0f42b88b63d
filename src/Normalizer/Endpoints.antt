-- ===== src/Normalizer/Endpoints.antt =====
-- `normalize_chat_request` and `normalize_responses_request` of src/gateway/services/normalizer.py.
use llm_token_balancing_gate.Prelude.{
  ℕ, zero, suc, String, Bool, false, not, ◌||◌, Option, none, some, List, [], ◌∷◌, keep, str_eq,
  str_elem, if◌then◌else◌,
}
use llm_token_balancing_gate.Domain.Enums.{Endpoint}
use llm_token_balancing_gate.Domain.Requests.{Message, CanonicalRequest}
use llm_token_balancing_gate.Json.{Json, null, boolean, text, Fields, get, same_number, number_of}
use llm_token_balancing_gate.Normalizer.{
  join, flatten_content, content_has_image, detect_capabilities, output_format_from_chat,
  output_format_from_responses, ignored_fields, known_chat_fields, known_responses_fields, Envelope,
  build,
}

-- Why a body is refused: the InvalidRequestError names a parameter.
pub data Normalized : Type 0 where
  canonical : CanonicalRequest → Normalized
  invalid_request : String → Normalized

pub record ChatMessage : Type 0 where
  pub role : String
  pub content : Json

-- ChatCompletionRequest
pub record ChatPayload : Type 0 where
  pub model : String
  pub messages : List ChatMessage
  pub tool_count : ℕ
  pub response_format : Option (String × Fields)
  pub max_completion_tokens : Option ℕ
  pub max_tokens : Option ℕ
  pub stream : Bool

abbrev pub is_system : ChatMessage → Bool
is_system m = str_elem m.role ("system" ∷ "developer" ∷ [])

abbrev pub turns : List ChatMessage → List Message
turns [] = []
turns (m ∷ ms) =
    let rest = turns ms in
    if is_system m
    then rest
    else record { role = m.role; content = flatten_content m.content } ∷ rest

abbrev pub system_parts : List ChatMessage → List String
system_parts [] = []
system_parts (m ∷ ms) =
    let rest = system_parts ms in if is_system m then flatten_content m.content ∷ rest else rest

abbrev pub has_image : List ChatMessage → Bool
has_image [] = false
has_image (m ∷ ms) = content_has_image m.content || has_image ms

-- `text or None`
abbrev pub or_none : String → Option String
or_none s = if str_eq s "" then none else some s

abbrev pub not_empty : String → Bool
not_empty s = not (str_eq s "")

-- `max_completion_tokens or max_tokens`
abbrev pub first_tokens : Option ℕ → Option ℕ → Option ℕ
first_tokens none other = other
first_tokens (some zero) other = other
first_tokens (some (suc n)) other = some (suc n)

-- A body without a turn is refused.
abbrev pub unless_empty : String → List Message → CanonicalRequest → Normalized
unless_empty param [] r = invalid_request param
unless_empty param (m ∷ ms) r = canonical r

-- ResponsesRequest; the items of the input are objects, and a text is one turn of the user.
pub record ResponsesPayload : Type 0 where
  pub model : String
  pub instructions : Option String
  pub input : Option String
  pub input_items : List Fields
  pub max_output_tokens : Option ℕ
  pub stream : Bool
  pub tool_count : ℕ
  pub text_format : Option Fields
  pub reasons : Bool

abbrev pub role_of : Option Json → String
role_of (some (text s)) = s
role_of _ = "user"

abbrev pub content_of : Option Json → Json
content_of none = null
content_of (some v) = v

abbrev pub item_turns : List Fields → List Message
item_turns [] = []
item_turns (fs ∷ items) =
    record {
      role = role_of (get "role" fs);
      content = flatten_content (content_of (get "content" fs));
    }
    ∷ item_turns items

abbrev pub item_image : List Fields → Bool
item_image [] = false
item_image (fs ∷ items) = content_has_image (content_of (get "content" fs)) || item_image items

abbrev pub input_turns : Option String → List Fields → List Message
input_turns (some s) items = record { role = "user"; content = s } ∷ []
input_turns none items = item_turns items

abbrev pub input_image : Option String → List Fields → Bool
input_image (some s) items = false
input_image none items = item_image items

-- `value not in (None, False)`: zero is equal to False.
abbrev pub is_set : Option Json → Bool
is_set none = false
is_set (some null) = false
is_set (some v) = not (same_number (number_of v) (number_of (boolean false)))

-- The first field of REJECTED_RESPONSES_FIELDS that the body sets.
unfoldable pub rejected_field : List String → Fields → Option String
rejected_field [] body = none
rejected_field (k ∷ ks) body =
    let rest = rejected_field ks body in if is_set (get k body) then some k else rest

abbrev pub rejected_responses_fields : List String
rejected_responses_fields = "background" ∷ "previous_response_id" ∷ "store" ∷ []

abbrev pub or_refused : Option String → Normalized → Normalized
or_refused none n = n
or_refused (some param) n = invalid_request param

module _ (digest : String → String) (separator : String) where
  unfoldable pub normalize_chat_request : Envelope → ChatPayload → Normalized
  unfolding flatten_content content_has_image build
  normalize_chat_request e p =
      let output_format = output_format_from_chat p.response_format in
      unless_empty "messages" (turns p.messages) (
        build digest separator e (record {
          endpoint = Endpoint.chat_completions;
          requested_model = p.model;
          conversation = turns p.messages;
          system_instructions = or_none (join "\n\n" (keep not_empty (system_parts p.messages)));
          tool_count = p.tool_count;
          output_format = output_format;
          max_output_tokens = first_tokens p.max_completion_tokens p.max_tokens;
          stream = p.stream;
          inferred =
              detect_capabilities p.tool_count output_format p.stream (has_image p.messages) false;
          ignored = ignored_fields e.raw_fields known_chat_fields;
        }))

  unfoldable pub normalize_responses_request : Envelope → Fields → ResponsesPayload → Normalized
  unfolding flatten_content content_has_image rejected_field build get
  normalize_responses_request e body p =
      let output_format = output_format_from_responses p.text_format in
      let conversation = input_turns p.input p.input_items in
      or_refused (rejected_field rejected_responses_fields body) (
        unless_empty "input" conversation (
          build digest separator e (record {
            endpoint = Endpoint.responses;
            requested_model = p.model;
            conversation = conversation;
            system_instructions = p.instructions;
            tool_count = p.tool_count;
            output_format = output_format;
            max_output_tokens = p.max_output_tokens;
            stream = p.stream;
            inferred =
                detect_capabilities p.tool_count output_format p.stream
                  (input_image p.input p.input_items) p.reasons;
            ignored = ignored_fields e.raw_fields known_responses_fields;
          })))
