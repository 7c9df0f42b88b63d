-- ===== src/Controls/Layers.antt =====
-- The resolved controls of src/gateway/services/controls.py against each layer.
use llm_token_balancing_gate.Prelude.{◌≤◌, some, List, [], ◌∷◌, ◌++◌, map, ltb, ◌≤ℤ◌, All, All-mono}
use llm_token_balancing_gate.Domain.Enums.{
  Quality, Privacy, quality_index, privacy_index, risk_index,
}
use llm_token_balancing_gate.Domain.Strictest.{
  resolve_strictest_privacy, resolve_strictest_quality, resolve_strictest_risk,
}
use llm_token_balancing_gate.Domain.Requests.{GatewayControls, selector_forced_privacy}
use llm_token_balancing_gate.Controls.{ControlLayer, Chain, ordered, lowest, resolve_controls}
use llm_token_balancing_gate.Controls.Limits.{
  AtLeast, Limits, All-map, All-map-append, cost-Limits, count-Limits, strictest-AtLeast,
  strictest-Limits, get_or-Limits, with_forced-AtLeast,
}

-- What the resolved controls owe to a layer.
pub record Respects (l : ControlLayer) (r : GatewayControls) : Type 0 where
  pub quality : AtLeast quality_index l.quality r.quality
  pub privacy : AtLeast privacy_index l.privacy r.privacy
  pub risk : Limits (λ m x. risk_index x ≤ risk_index m) l.risk r.risk
  pub max_cost : Limits ◌≤ℤ◌ l.max_cost r.max_cost
  pub max_latency_ms : Limits ◌≤◌ l.max_latency_ms r.max_latency_ms
  pub max_attempts : Limits ◌≤◌ l.max_attempts (some r.max_attempts)

module _ (c : Chain) where
  abbrev resolved : GatewayControls
  resolved = resolve_controls c

  qualities : All (λ l. AtLeast quality_index l.quality resolved.quality) (ordered c)
  unfolding resolve_controls resolve_strictest_quality
  qualities =
      All-map-append (λ o. AtLeast quality_index o resolved.quality)
        (λ (l : ControlLayer). l.quality) (ordered c) (some c.system_defaults.quality ∷ [])
        (strictest-AtLeast quality_index
          (map (λ (l : ControlLayer). l.quality) (ordered c) ++ some c.system_defaults.quality ∷ [])
          Quality.standard)

  privacies : All (λ l. AtLeast privacy_index l.privacy resolved.privacy) (ordered c)
  unfolding resolve_controls resolve_strictest_privacy
  privacies =
      let values =
        map (λ (l : ControlLayer). l.privacy) (ordered c) ++ some c.system_defaults.privacy ∷ [] in
      All-mono _ _ (ordered c)
        (λ (l : ControlLayer) h.
          with_forced-AtLeast (selector_forced_privacy c.requested_model)
            (resolve_strictest_privacy values) l.privacy h)
        (All-map-append (λ o. AtLeast privacy_index o (resolve_strictest_privacy values))
          (λ (l : ControlLayer). l.privacy) (ordered c) (some c.system_defaults.privacy ∷ [])
          (strictest-AtLeast privacy_index values Privacy.confidential))

  risks : All (λ l. Limits (λ m x. risk_index x ≤ risk_index m) l.risk resolved.risk) (ordered c)
  unfolding resolve_controls resolve_strictest_risk
  risks =
      All-map (λ o. Limits (λ m x. risk_index x ≤ risk_index m) o resolved.risk)
        (λ (l : ControlLayer). l.risk) (ordered c)
        (strictest-Limits risk_index (map (λ (l : ControlLayer). l.risk) (ordered c)))

  costs : All (λ l. Limits ◌≤ℤ◌ l.max_cost resolved.max_cost) (ordered c)
  unfolding resolve_controls
  costs =
      All-map-append (λ o. Limits ◌≤ℤ◌ o resolved.max_cost) (λ (l : ControlLayer). l.max_cost)
        (ordered c) (c.system_defaults.max_cost ∷ [])
        (cost-Limits
          (map (λ (l : ControlLayer). l.max_cost) (ordered c) ++ c.system_defaults.max_cost ∷ []))

  latencies : All (λ l. Limits ◌≤◌ l.max_latency_ms resolved.max_latency_ms) (ordered c)
  unfolding resolve_controls
  latencies =
      All-map-append (λ o. Limits ◌≤◌ o resolved.max_latency_ms)
        (λ (l : ControlLayer). l.max_latency_ms) (ordered c) (c.system_defaults.max_latency_ms ∷ [])
        (count-Limits (
          map (λ (l : ControlLayer). l.max_latency_ms) (ordered c)
          ++ c.system_defaults.max_latency_ms ∷ []))

  attempts : All (λ l. Limits ◌≤◌ l.max_attempts (some resolved.max_attempts)) (ordered c)
  unfolding resolve_controls
  attempts =
      let values = map (λ (l : ControlLayer). l.max_attempts) (ordered c) in
      All-mono _ _ (ordered c)
        (λ (l : ControlLayer) h.
          get_or-Limits ◌≤◌ (lowest ltb values) c.system_defaults.max_attempts l.max_attempts h)
        (All-map (λ o. Limits ◌≤◌ o (lowest ltb values)) (λ (l : ControlLayer). l.max_attempts)
          (ordered c) (count-Limits values))

collect :
    (r : GatewayControls) (ls : List ControlLayer)
    → All (λ l. AtLeast quality_index l.quality r.quality) ls
    → All (λ l. AtLeast privacy_index l.privacy r.privacy) ls
    → All (λ l. Limits (λ m x. risk_index x ≤ risk_index m) l.risk r.risk) ls
    → All (λ l. Limits ◌≤ℤ◌ l.max_cost r.max_cost) ls
    → All (λ l. Limits ◌≤◌ l.max_latency_ms r.max_latency_ms) ls
    → All (λ l. Limits ◌≤◌ l.max_attempts (some r.max_attempts)) ls
    → All (λ l. Respects l r) ls
collect r [] a b c d e f = tt
collect r (l ∷ ls) a b c d e f = (
  record {
    quality = a.0;
    privacy = b.0;
    risk = c.0;
    max_cost = d.0;
    max_latency_ms = e.0;
    max_attempts = f.0;
  },
  collect r ls a.1 b.1 c.1 d.1 e.1 f.1,
)

-- The resolved controls are at least as strict as every layer of the chain: quality, privacy and risk
-- are no lower than what a layer set, and the limits on cost, latency and attempts are there and no
-- higher than what a layer set.
pub resolve_controls-Respects : (c : Chain) → All (λ l. Respects l (resolve_controls c)) (ordered c)
resolve_controls-Respects c =
    collect (resolve_controls c) (ordered c) (qualities c) (privacies c) (risks c) (costs c)
      (latencies c) (attempts c)
