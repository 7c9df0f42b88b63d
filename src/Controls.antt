-- ===== src/Controls.antt =====
-- `resolve_controls` of src/gateway/services/controls.py: the layers of the precedence chain collapse into
-- one set of controls. A set of names is a sorted list without repetition, as the code leaves it, and a
-- set of capabilities is a list of which only the members count. The parsing of headers and of the body
-- into layers is not represented.
pub mod Limits
pub mod Layers
pub mod Providers
use Prim.Native.Nat.{Ordering}
use Prim.Native.String.{compare}
use llm_token_balancing_gate.Prelude.{
  ℕ, ◌+◌, ◌≤◌, String, Bool, true, false, not, ◌&&◌, ◌||◌, Option, none, some, List, [], ◌∷◌, ◌++◌,
  map, ltb, if◌then◌else◌, keep, str_elem, ℤ, ltb_ℤ,
}
use llm_token_balancing_gate.Domain.Enums.{Quality, Privacy, Risk, TaskClass, Capability}
use llm_token_balancing_gate.Domain.Strictest.{
  present, resolve_strictest_privacy, resolve_strictest_quality, resolve_strictest_risk,
}
use llm_token_balancing_gate.Domain.Requests.{
  ValidationMode, GatewayControls, selector_forced_privacy,
}

-- `none` is "not set here".
pub record ControlLayer : Type 0 where
  pub quality : Option Quality
  pub privacy : Option Privacy
  pub max_cost : Option ℤ
  pub max_latency_ms : Option ℕ
  pub provider_allow : Option (List String)
  pub provider_deny : Option (List String)
  pub required_capabilities : Option (List Capability)
  pub allow_fallback : Option Bool
  pub max_attempts : Option ℕ
  pub validation : Option ValidationMode
  pub task_class : Option TaskClass
  pub risk : Option Risk
  pub dry_run : Option Bool
  pub metadata : Option (List (String × String))
  pub debug : Option Bool

-- The arguments of `resolve_controls`.
pub record Chain : Type 0 where
  pub deployment : ControlLayer
  pub client : ControlLayer
  pub headers : ControlLayer
  pub body : ControlLayer
  pub alias_defaults : ControlLayer
  pub system_defaults : GatewayControls
  pub requested_model : String

-- The layers, the highest precedence first.
abbrev pub ordered : Chain → List ControlLayer
ordered c = c.deployment ∷ c.client ∷ c.headers ∷ c.body ∷ c.alias_defaults ∷ []

-- `_first_set`
unfoldable pub first_set {ℓ} : {A : Type ℓ} → List (Option A) → Option A
first_set [] = none
first_set (none ∷ xs) = first_set xs
first_set (some x ∷ xs) = some x

module _ {A : Type 0} (less : A → A → Bool) where
  -- `min` keeps the first of the least.
  unfoldable pub lowest_from : A → List A → A
  lowest_from best [] = best
  lowest_from best (x ∷ xs) = lowest_from (if less x best then x else best) xs

  abbrev pub lowest_of : List A → Option A
  lowest_of [] = none
  lowest_of (x ∷ xs) = some (lowest_from x xs)

  -- `_lowest`
  unfoldable pub lowest : List (Option A) → Option A
  unfolding lowest_from
  lowest values = lowest_of (present values)

abbrev pub get_or {ℓ} : {A : Type ℓ} → Option A → A → A
get_or none d = d
get_or (some x) d = x

-- `tuple(sorted(set(names)))`, one name at a time.
unfoldable pub insert_name : String → List String → List String
insert_name k [] = k ∷ []
insert_name k (x ∷ xs) =
    let rest = insert_name k xs in
    elim (compare k x) [ Ordering.lt ↦ k ∷ x ∷ xs | Ordering.eq ↦ x ∷ xs | Ordering.gt ↦ x ∷ rest ]

unfoldable pub sorted_set : List String → List String
unfolding insert_name
sorted_set [] = []
sorted_set (x ∷ xs) = insert_name x (sorted_set xs)

-- One round of the loop over the allow lists, and the loop.
abbrev pub narrow : Option (List String) → Option (List String) → Option (List String)
narrow allow none = allow
narrow none (some names) = some names
narrow (some allow) (some names) = some (sorted_set (keep (λ k. str_elem k names) allow))

unfoldable pub allow_from : Option (List String) → List ControlLayer → Option (List String)
unfolding sorted_set
allow_from allow [] = allow
allow_from allow (l ∷ ls) = allow_from (narrow allow l.provider_allow) ls

unfoldable pub deny_of : List ControlLayer → List String
deny_of [] = []
deny_of (l ∷ ls) = get_or l.provider_deny [] ++ deny_of ls

unfoldable pub capabilities_of : List ControlLayer → List Capability
capabilities_of [] = []
capabilities_of (l ∷ ls) = get_or l.required_capabilities [] ++ capabilities_of ls

abbrev pub with_forced : Option Privacy → Privacy → Privacy
with_forced none p = p
with_forced (some forced) p = resolve_strictest_privacy (some p ∷ some forced ∷ [])

unfoldable pub resolve_controls : Chain → GatewayControls
unfolding selector_forced_privacy resolve_strictest_privacy resolve_strictest_quality
    resolve_strictest_risk first_set lowest allow_from deny_of capabilities_of sorted_set
resolve_controls c =
    let ls = ordered c in
    let d = c.system_defaults in
    record {
      quality =
          resolve_strictest_quality
            (map (λ (l : ControlLayer). l.quality) ls ++ some d.quality ∷ []);
      privacy = with_forced (selector_forced_privacy c.requested_model) (
          resolve_strictest_privacy
            (map (λ (l : ControlLayer). l.privacy) ls ++ some d.privacy ∷ []));
      max_cost = lowest ltb_ℤ (map (λ (l : ControlLayer). l.max_cost) ls ++ d.max_cost ∷ []);
      max_latency_ms =
          lowest ltb (map (λ (l : ControlLayer). l.max_latency_ms) ls ++ d.max_latency_ms ∷ []);
      provider_allow = get_or (allow_from none ls) [];
      provider_deny = sorted_set (deny_of ls);
      required_capabilities = capabilities_of ls;
      allow_fallback =
          get_or (first_set (map (λ (l : ControlLayer). l.allow_fallback) ls)) d.allow_fallback;
      max_attempts =
          get_or (lowest ltb (map (λ (l : ControlLayer). l.max_attempts) ls)) d.max_attempts;
      validation = get_or (first_set (map (λ (l : ControlLayer). l.validation) ls)) d.validation;
      task_class = first_set (map (λ (l : ControlLayer). l.task_class) ls);
      risk = resolve_strictest_risk (map (λ (l : ControlLayer). l.risk) ls);
      dry_run = get_or (first_set (map (λ (l : ControlLayer). l.dry_run) ls)) d.dry_run;
      metadata = get_or (first_set (map (λ (l : ControlLayer). l.metadata) ls)) [];
      debug = get_or (first_set (map (λ (l : ControlLayer). l.debug) ls)) d.debug;
    }
