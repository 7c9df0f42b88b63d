-- ===== src/Providers.antt =====
-- src/gateway/providers/base.py: what an adapter is asked and what it answers. An adapter itself is a
-- parameter of the models that call it. Tool calls and vendor metadata are not represented, and the
-- provider's own name of a model is the part of `gateway_model_id` after the slash.
use Prim.Native.Nat.{◌+◌}
use llm_token_balancing_gate.Prelude.{ℕ, String, Bool, Option, none, some, ℤ}
use llm_token_balancing_gate.Domain.Requests.{CanonicalRequest}
use llm_token_balancing_gate.Resilience.{ProviderFailure}

pub record ProviderUsage : Type 0 where
  pub prompt_tokens : Option ℕ
  pub completion_tokens : Option ℕ

abbrev add_counts : Option ℕ → Option ℕ → Option ℕ
add_counts (some p) (some c) = some (p + c)
add_counts _ _ = none

-- `ProviderUsage.total_tokens`: unknown when either count is.
unfoldable pub total_tokens : ProviderUsage → Option ℕ
total_tokens u = add_counts u.prompt_tokens u.completion_tokens

pub record ProviderResult : Type 0 where
  pub text : String
  pub finish_reason : String
  pub usage : ProviderUsage
  pub model_id : String
  pub latency_ms : ℕ
  pub emitted_output : Bool

-- The timeout is in microseconds.
pub record ProviderInvocation : Type 0 where
  pub request : CanonicalRequest
  pub gateway_model_id : String
  pub max_output_tokens : Option ℕ
  pub timeout : ℕ
  pub estimated_cost : ℤ

-- How `await adapter.generate(invocation)` ends: it returns, raises a `ProviderFailure`, raises any
-- other `Exception`, or is cancelled from outside.
pub data Reply : Type 0 where
  completed : ProviderResult → Reply
  failed : ProviderFailure → Reply
  crashed interrupted : Reply
