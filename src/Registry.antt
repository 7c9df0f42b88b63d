-- ===== src/Registry.antt =====
-- src/gateway/services/registry.py with the queries of `ModelRepository` in
-- src/gateway/persistence/repositories.py over the tables `models` and `model_prices`: the registry frozen at
-- a time. Times are microseconds, prices nanodollars. The priors that are floats are not represented.
pub mod Prices
pub mod Frozen
use llm_token_balancing_gate.Prelude.{
  ℕ, String, Bool, true, false, ◌&&◌, Option, none, some, List, [], ◌∷◌, ltb, leb, str_eq,
  if◌then◌else◌, keep, str_leb,
}
use llm_token_balancing_gate.Prelude.Sort.{sort}
use llm_token_balancing_gate.Domain.Enums.{Quality, Capability, Endpoint, DataHandlingTier}
use llm_token_balancing_gate.Domain.Routing.{ModelSnapshot, RegistrySnapshot}

-- A row of `models`.
pub record Model : Type 0 where
  pub id : String
  pub provider : String
  pub provider_model_id : String
  pub display_name : String
  pub data_handling_tier : DataHandlingTier
  pub quality_tier : Quality
  pub capabilities : List Capability
  pub supported_endpoints : List Endpoint
  pub context_window_tokens : ℕ
  pub max_output_tokens : ℕ
  pub enabled : Bool
  pub latency_prior_ms : ℕ

-- A row of `model_prices`.
pub record ModelPrice : Type 0 where
  pub model_id : String
  pub currency : String
  pub input_per_1k_tokens : ℕ
  pub output_per_1k_tokens : ℕ
  pub request_fee : ℕ
  pub effective_from : ℕ
  pub effective_to : Option ℕ

pub record Tables : Type 0 where
  pub models : List Model
  pub prices : List ModelPrice

-- `ModelRepository.list_enabled`
abbrev pub id_leb : Model → Model → Bool
id_leb a b = str_leb a.id b.id

unfoldable pub list_enabled : Tables → List Model
list_enabled t = sort id_leb (keep (λ m. m.enabled) t.models)

-- The conditions of the query for a price.
abbrev pub ends_after : Option ℕ → ℕ → Bool
ends_after none at = true
ends_after (some end) at = ltb at end

abbrev pub is_effective : String → ℕ → ModelPrice → Bool
is_effective model_id at p =
    str_eq p.model_id model_id && (leb p.effective_from at && ends_after p.effective_to at)

-- The first row of a descending order by the start.
abbrev pub later_start : ModelPrice → Option ModelPrice → ModelPrice
later_start p none = p
later_start p (some q) = if ltb p.effective_from q.effective_from then q else p

unfoldable pub latest_start : List ModelPrice → Option ModelPrice
latest_start [] = none
latest_start (p ∷ ps) = some (later_start p (latest_start ps))

-- `ModelRepository.price_at`
unfoldable pub price_at : Tables → String → ℕ → Option ModelPrice
unfolding latest_start
price_at t model_id at = latest_start (keep (is_effective model_id at) t.prices)

abbrev pub priced : Model → ModelPrice → ModelSnapshot
priced m p = record {
  model_id = m.id;
  provider = m.provider;
  data_handling_tier = m.data_handling_tier;
  quality_tier = m.quality_tier;
  capabilities = m.capabilities;
  supported_endpoints = m.supported_endpoints;
  context_window_tokens = m.context_window_tokens;
  max_output_tokens = m.max_output_tokens;
  input_per_1k = p.input_per_1k_tokens;
  output_per_1k = p.output_per_1k_tokens;
  request_fee = p.request_fee;
  latency_prior_ms = m.latency_prior_ms;
}

-- A model without a price is dropped.
abbrev pub add_priced : Model → Option ModelPrice → List ModelSnapshot → List ModelSnapshot
add_priced m none rest = rest
add_priced m (some p) rest = priced m p ∷ rest

unfoldable pub snapshot_each : Tables → ℕ → List Model → List ModelSnapshot
unfolding price_at
snapshot_each t at [] = []
snapshot_each t at (m ∷ ms) = add_priced m (price_at t m.id at) (snapshot_each t at ms)

abbrev pub model_id_leb : ModelSnapshot → ModelSnapshot → Bool
model_id_leb a b = str_leb a.model_id b.model_id

unfoldable pub snapshot : Tables → ℕ → RegistrySnapshot
unfolding list_enabled snapshot_each
snapshot t at = record {
  taken_at = at;
  models = sort model_id_leb (snapshot_each t at (list_enabled t));
}
