-- ===== src/Normalizer/Implied.antt =====
-- The capabilities that src/gateway/services/normalizer.py requires of a model.
use llm_token_balancing_gate.Prelude.{
  ℕ, ◌<◌, String, Bool, true, false, List, [], ◌∷◌, ◌++◌, ◌≡◌, refl, sym, subst, inl, inr, All,
  All-mono, All-Elem, Elem, arith, ltb, str_eq, eq_iff, if◌then◌else◌,
}
use llm_token_balancing_gate.Domain.Enums.{Capability}
use llm_token_balancing_gate.Domain.Requests.{Message, OutputFormat, CanonicalRequest}
use llm_token_balancing_gate.Policy.{has_capability}
use llm_token_balancing_gate.Policy.Membership.{has_capability→Elem}
use llm_token_balancing_gate.Normalizer.{
  union, capability_if, detect_capabilities, output_format_from_chat, Envelope, build,
}
use llm_token_balancing_gate.Normalizer.Endpoints.{
  canonical, unless_empty, ChatPayload, turns, has_image, normalize_chat_request,
}

Elem-append_left : (c : Capability) (cs ds : List Capability) → Elem c cs → Elem c (cs ++ ds)
Elem-append_left c [] ds h = absurd h
Elem-append_left c (x ∷ cs) ds (inl q) = inl q
Elem-append_left c (x ∷ cs) ds (inr h) = inr (Elem-append_left c cs ds h)

Elem-append_last : (c d : Capability) (cs : List Capability) → c ≡ d → Elem c (cs ++ d ∷ [])
Elem-append_last c d [] q = inl q
Elem-append_last c d (x ∷ cs) q = inr (Elem-append_last c d cs q)

-- A set stays in its union with another.
union-left : (c : Capability) (cs ds : List Capability) → Elem c cs → Elem c (union cs ds)
union-left c cs [] h = h
union-left c cs (d ∷ ds) h =
    by_test (has_capability d cs) (union-left c cs ds h)
      (union-left c (cs ++ d ∷ []) ds (Elem-append_left c cs (d ∷ []) h))
  where
    by_test :
        (t : Bool)
        → Elem c (union cs ds)
        → Elem c (union (cs ++ d ∷ []) ds)
        → Elem c (if t then union cs ds else union (cs ++ d ∷ []) ds)
    by_test true a b = a
    by_test false a b = b

union-right : (c : Capability) (cs ds : List Capability) → Elem c ds → Elem c (union cs ds)
union-right c cs [] h = absurd h
union-right c cs (d ∷ ds) (inl q) =
    by_test (has_capability d cs) refl (λ m. union-left c cs ds m)
      (union-left c (cs ++ d ∷ []) ds (Elem-append_last c d cs q))
  where
    by_test :
        (t : Bool)
        → has_capability d cs ≡ t
        → (Elem c cs → Elem c (union cs ds))
        → Elem c (union (cs ++ d ∷ []) ds)
        → Elem c (if t then union cs ds else union (cs ++ d ∷ []) ds)
    by_test true e f b = f (subst (λ x. Elem x cs) (sym q) (has_capability→Elem d cs e))
    by_test false e f b = b
union-right c cs (d ∷ ds) (inr h) =
    by_test (has_capability d cs) (union-right c cs ds h) (union-right c (cs ++ d ∷ []) ds h)
  where
    by_test :
        (t : Bool)
        → Elem c (union cs ds)
        → Elem c (union (cs ++ d ∷ []) ds)
        → Elem c (if t then union cs ds else union (cs ++ d ∷ []) ds)
    by_test true a b = a
    by_test false a b = b

capability_if-head :
    (t : Bool) (c : Capability) (cs : List Capability) → t ≡ true → Elem c (capability_if t c cs)
capability_if-head true c cs e = inl refl
capability_if-head false c cs e = absurd (ground arith)

capability_if-tail :
    (t : Bool) (c d : Capability) (cs : List Capability) → Elem d cs → Elem d (capability_if t c cs)
capability_if-tail true c d cs h = inr h
capability_if-tail false c d cs h = h

-- What a body implies of the capabilities of a model.
pub record Implies (tool_count : ℕ) (format : OutputFormat) (stream images : Bool)
    (cs : List Capability) : Type 0 where
  pub for_tools : 0 < tool_count → Elem Capability.tools cs
  pub for_schema : format.kind ≡ "json_schema" → Elem Capability.json_schema cs
  pub for_stream : stream ≡ true → Elem Capability.streaming cs
  pub for_images : images ≡ true → Elem Capability.vision cs

lt_ltb : (n : ℕ) → 0 < n → ltb 0 n ≡ true
lt_ltb n h = ground arith

detect_capabilities-Implies :
    (n : ℕ) (f : OutputFormat) (s i r : Bool) → Implies n f s i (detect_capabilities n f s i r)
unfolding detect_capabilities
detect_capabilities-Implies n f s i r =
    let t = ltb 0 n in
    let j = str_eq f.kind "json_schema" in
    let last = capability_if r Capability.reasoning [] in
    let vis = capability_if i Capability.vision last in
    let str = capability_if s Capability.streaming vis in
    let sch = capability_if j Capability.json_schema str in
    record {
      for_tools = λ h. capability_if-head t Capability.tools sch (lt_ltb n h);
      for_schema = λ h.
          capability_if-tail t Capability.tools Capability.json_schema sch
            (capability_if-head j Capability.json_schema str ((eq_iff f.kind "json_schema").1 h));
      for_stream = λ h. capability_if-tail t Capability.tools Capability.streaming sch (
          capability_if-tail j Capability.json_schema Capability.streaming str
            (capability_if-head s Capability.streaming vis h));
      for_images = λ h. capability_if-tail t Capability.tools Capability.vision sch (
          capability_if-tail j Capability.json_schema Capability.vision str (
            capability_if-tail s Capability.streaming Capability.vision vis
              (capability_if-head i Capability.vision last h)));
    }

module _ (digest : String → String) (separator : String) where
  pub unless_empty-canonical :
      (param : String) (ms : List Message) (x r : CanonicalRequest)
      → unless_empty param ms x ≡ canonical r
      → x ≡ r
  unless_empty-canonical param [] x r e = absurd (ground arith)
  unless_empty-canonical param (m ∷ ms) x r e = cc

  -- A canonical chat request requires every capability that the caller declared, and each one that its body
  -- implies: tools, a JSON schema, streaming and images.
  pub normalize_chat_request-Implies :
      (e : Envelope) (p : ChatPayload) (r : CanonicalRequest)
      → normalize_chat_request digest separator e p ≡ canonical r
      → All (λ c. Elem c r.controls.required_capabilities) e.controls.required_capabilities
        × Implies p.tool_count
            (output_format_from_chat p.response_format)
            p.stream
            (has_image p.messages)
            r.controls.required_capabilities
  unfolding normalize_chat_request build
  normalize_chat_request-Implies e p r h =
      let f = output_format_from_chat p.response_format in
      let inferred = detect_capabilities p.tool_count f p.stream (has_image p.messages) false in
      let all = union e.controls.required_capabilities inferred in
      let i = detect_capabilities-Implies p.tool_count f p.stream (has_image p.messages) false in
      let into = λ (c : Capability) (m : Elem c inferred).
        union-right c e.controls.required_capabilities inferred m in
      subst
        (λ (x : CanonicalRequest).
          All (λ c. Elem c x.controls.required_capabilities) e.controls.required_capabilities
          × Implies p.tool_count f p.stream (has_image p.messages) x.controls.required_capabilities)
        (unless_empty-canonical "messages" (turns p.messages) _ r h)
        (
          All-mono _ (λ c. Elem c all) e.controls.required_capabilities
              (λ c m. union-left c e.controls.required_capabilities inferred m)
              (All-Elem e.controls.required_capabilities),
          record {
            for_tools = λ k. into Capability.tools (i.for_tools k);
            for_schema = λ k. into Capability.json_schema (i.for_schema k);
            for_stream = λ k. into Capability.streaming (i.for_stream k);
            for_images = λ k. into Capability.vision (i.for_images k);
          },
        )
