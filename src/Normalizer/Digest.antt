-- ===== src/Normalizer/Digest.antt =====
-- What the digest of src/gateway/services/normalizer.py does not depend on.
use llm_token_balancing_gate.Prelude.{String, ◌≡◌, refl, sym, ap, ◌∙◌}
use llm_token_balancing_gate.Domain.Requests.{CanonicalRequest}
use llm_token_balancing_gate.Normalizer.{
  canonical_digest_source, output_format_from_chat, Envelope, build,
}
use llm_token_balancing_gate.Normalizer.Endpoints.{
  canonical, ChatPayload, turns, normalize_chat_request,
}
use llm_token_balancing_gate.Normalizer.Implied.{unless_empty-canonical}

module _ (digest : String → String) (separator : String) where
  -- Chat requests for one model with the same messages and the same kind of output have the same input hash,
  -- whatever else differs: the ids, the controls, the tools, the schema, the limit of tokens and streaming.
  pub normalize_chat_request-hash :
      (e e' : Envelope) (p p' : ChatPayload) (r r' : CanonicalRequest)
      → p.model ≡ p'.model
      → p.messages ≡ p'.messages
      → (output_format_from_chat p.response_format).kind
        ≡ (output_format_from_chat p'.response_format).kind
      → normalize_chat_request digest separator e p ≡ canonical r
      → normalize_chat_request digest separator e' p' ≡ canonical r'
      → r.input_hash ≡ r'.input_hash
  unfolding normalize_chat_request build canonical_digest_source
  normalize_chat_request-hash e e' p p' r r' same_model same_messages same_kind h h' =
      let x =
        ap (λ (q : CanonicalRequest). q.input_hash)
          (unless_empty-canonical digest separator "messages" (turns p.messages) _ r h) in
      let x' =
        ap (λ (q : CanonicalRequest). q.input_hash)
          (unless_empty-canonical digest separator "messages" (turns p'.messages) _ r' h') in
      sym x ∙ rw (same_model, same_messages, same_kind) refl ∙ x'
