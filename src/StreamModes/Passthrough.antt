-- ===== src/StreamModes/Passthrough.antt =====
-- The pass-through mode of src/gateway/services/streaming.py.
use llm_token_balancing_gate.Prelude.{
  String, ◌≡◌, refl, ◌↔◌, Bool, false, ◌||◌, List, [], ◌∷◌, All, keep, any, str_elem, arith,
}
use llm_token_balancing_gate.Domain.Requests.{non_empty}
use llm_token_balancing_gate.Domain.Routing.{RequestFeatures}
use llm_token_balancing_gate.StreamModes.{
  full_output_validators, judge_validators, StreamDecision, is_high, decide,
}

-- Every name of the plan passes the test of no gate that needs the whole output.
abbrev pub NeedsNoOutput : String → Type 0
NeedsNoOutput v =
    (str_elem v judge_validators ≡ false) × (str_elem v full_output_validators ≡ false)

no_match :
    (p q : String → Bool) (plan : List String)
    → any p plan ≡ false
    → non_empty (keep q plan) ≡ false
    → All (λ v. (p v ≡ false) × (q v ≡ false)) plan
no_match p q [] h k = tt
no_match p q (v ∷ vs) h k =
    let judged : (p v || any p vs) ≡ false = h in
    ((ground arith, ground arith), no_match p q vs (ground arith) (ground arith))

all_match :
    (p q : String → Bool) (plan : List String)
    → All (λ v. (p v ≡ false) × (q v ≡ false)) plan
    → (any p plan ≡ false) × (non_empty (keep q plan) ≡ false)
all_match p q [] h = (refl, refl)
all_match p q (v ∷ vs) h = let ih = all_match p q vs h.1 in (ground arith, ground arith)

decided :
    (features : RequestFeatures) (plan : List String)
    → decide features plan ≡ StreamDecision.passthrough_mode
    → (any (λ v. str_elem v judge_validators) plan ≡ false)
      × (non_empty (keep (λ v. str_elem v full_output_validators) plan) ≡ false)
      × (is_high features.risk ≡ false)
unfolding decide
decided features plan h = (ground arith, ground arith, ground arith)

-- Deltas are forwarded as they come exactly if no validator of the plan needs the whole output, as a
-- judge or as a check of it, and the risk is neither high nor critical.
pub decide_passthrough_iff :
    (features : RequestFeatures) (plan : List String)
    → (decide features plan ≡ StreamDecision.passthrough_mode)
      ↔ (All NeedsNoOutput plan × (is_high features.risk ≡ false))
unfolding decide
decide_passthrough_iff features plan = (
  λ h. let (judged, full, risk) = decided features plan h in (no_match _ _ plan judged full, risk),
  λ h. let d = all_match _ _ plan h.0 in rw (d.0, d.1, h.1) refl,
)
