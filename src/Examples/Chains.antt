-- ===== src/Examples/Chains.antt =====
-- A chain of layers: a client and a body that each allow one provider, the same one or not.
use llm_token_balancing_gate.Prelude.{
  String, ◌≡◌, ◌⊎◌, refl, false, not, none, some, List, [], ◌∷◌, pos, All, str_elem,
}
use llm_token_balancing_gate.Domain.Enums.{Quality, Risk}
use llm_token_balancing_gate.Domain.Requests.{provider_allowed}
use llm_token_balancing_gate.Controls.{
  ControlLayer, Chain, ordered, get_or, insert_name, sorted_set, allow_from, deny_of,
  resolve_controls,
}
use llm_token_balancing_gate.Controls.Layers.{Respects, resolve_controls-Respects}
use llm_token_balancing_gate.Controls.Providers.{IsListed, allowed-by_layers, disjoint_allow}
use llm_token_balancing_gate.Examples.Routes.{controls}

abbrev unset : ControlLayer
unset = record {
  quality = none;
  privacy = none;
  max_cost = none;
  max_latency_ms = none;
  provider_allow = none;
  provider_deny = none;
  required_capabilities = none;
  allow_fallback = none;
  max_attempts = none;
  validation = none;
  task_class = none;
  risk = none;
  dry_run = none;
  metadata = none;
  debug = none;
}

abbrev chain_of : List String → List String → Chain
chain_of client body = record {
  deployment = record unset { max_cost = some (pos 500); provider_deny = some ("blocked" ∷ []) };
  client = record unset { provider_allow = some client; max_attempts = some 2 };
  headers = record unset { quality = some Quality.critical };
  body = record unset {
    provider_allow = some body;
    max_cost = some (pos 900);
    risk = some Risk.high;
  };
  alias_defaults = unset;
  system_defaults = controls;
  requested_model = "auto-private";
}

resolve_controls-Respects_example :
    All
      (λ l. Respects l (resolve_controls (chain_of ("openai" ∷ []) ("openai" ∷ "fake" ∷ []))))
      (ordered (chain_of ("openai" ∷ []) ("openai" ∷ "fake" ∷ [])))
resolve_controls-Respects_example =
    resolve_controls-Respects (chain_of ("openai" ∷ []) ("openai" ∷ "fake" ∷ []))

allowed-by_layers_example :
    All
      (λ l. str_elem "openai" (get_or l.provider_deny []) ≡ false)
      (ordered (chain_of ("openai" ∷ []) ("openai" ∷ "fake" ∷ [])))
    × (((resolve_controls (chain_of ("openai" ∷ []) ("openai" ∷ "fake" ∷ []))).provider_allow ≡ [])
        ⊎ All
            (λ l. IsListed "openai" l.provider_allow)
            (ordered (chain_of ("openai" ∷ []) ("openai" ∷ "fake" ∷ []))))
unfolding resolve_controls allow_from sorted_set insert_name deny_of provider_allowed
allowed-by_layers_example =
    allowed-by_layers (chain_of ("openai" ∷ []) ("openai" ∷ "fake" ∷ [])) "openai" refl

disjoint_allow_example :
    provider_allowed (resolve_controls (chain_of ("openai" ∷ []) ("fake" ∷ []))) "other"
    ≡ not (str_elem "other" (deny_of (ordered (chain_of ("openai" ∷ []) ("fake" ∷ [])))))
unfolding allow_from sorted_set
disjoint_allow_example = disjoint_allow (chain_of ("openai" ∷ []) ("fake" ∷ [])) "other" refl
