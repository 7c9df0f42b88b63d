-- ===== src/Domain/Enums.antt =====
-- src/gateway/domain/enums.py: the value sets, one constructor for each member, and the tables over them.
use llm_token_balancing_gate.Prelude.{ℕ, Bool, true, false}

pub data RequestState : Type 0 where
  received authenticating normalizing classifying planning ready : RequestState
  reserving invoking retry_wait validating repair_planning escalation_planning : RequestState
  succeeded rejected rejected_no_route rejected_budget : RequestState
  failed failed_partial failed_exhausted cancelled expired : RequestState

-- TERMINAL_STATES and `is_terminal`
unfoldable pub is_terminal : RequestState → Bool
is_terminal RequestState.succeeded = true
is_terminal RequestState.rejected = true
is_terminal RequestState.rejected_no_route = true
is_terminal RequestState.rejected_budget = true
is_terminal RequestState.failed = true
is_terminal RequestState.failed_partial = true
is_terminal RequestState.failed_exhausted = true
is_terminal RequestState.cancelled = true
is_terminal RequestState.expired = true
is_terminal _ = false

pub data AttemptKind : Type 0 where
  generation repair escalation validator : AttemptKind

pub data AttemptOutcome : Type 0 where
  success timeout rate_limited provider_error auth_error : AttemptOutcome
  capability_rejected context_rejected invalid_response cancelled partial : AttemptOutcome

pub data ValidationResult : Type 0 where
  pass indeterminate fail_repairable fail_quality fail_capability fail_grounding : ValidationResult

-- VALIDATION_SEVERITY.index: the most severe verdict has the index 0.
unfoldable pub severity_index : ValidationResult → ℕ
severity_index ValidationResult.fail_grounding = 0
severity_index ValidationResult.fail_capability = 1
severity_index ValidationResult.fail_quality = 2
severity_index ValidationResult.fail_repairable = 3
severity_index ValidationResult.indeterminate = 4
severity_index ValidationResult.pass = 5

pub data Quality : Type 0 where
  economy standard high critical : Quality

-- QUALITY_ORDER.index
unfoldable pub quality_index : Quality → ℕ
quality_index Quality.economy = 0
quality_index Quality.standard = 1
quality_index Quality.high = 2
quality_index Quality.critical = 3

pub data Privacy : Type 0 where
  public confidential deployment_strict : Privacy

-- PRIVACY_ORDER.index
unfoldable pub privacy_index : Privacy → ℕ
privacy_index Privacy.public = 0
privacy_index Privacy.confidential = 1
privacy_index Privacy.deployment_strict = 2

pub data DataHandlingTier : Type 0 where
  public_only standard zdr : DataHandlingTier

-- `tier in PRIVACY_ELIGIBLE_TIERS[privacy]`
unfoldable pub tier_eligible : Privacy → DataHandlingTier → Bool
tier_eligible Privacy.public _ = true
tier_eligible Privacy.confidential DataHandlingTier.public_only = false
tier_eligible Privacy.confidential _ = true
tier_eligible Privacy.deployment_strict DataHandlingTier.zdr = true
tier_eligible Privacy.deployment_strict _ = false

pub data Risk : Type 0 where
  low medium high critical : Risk

-- RISK_ORDER.index
unfoldable pub risk_index : Risk → ℕ
risk_index Risk.low = 0
risk_index Risk.medium = 1
risk_index Risk.high = 2
risk_index Risk.critical = 3

pub data TaskClass : Type 0 where
  classification extraction transformation summarization rewriting creative_writing : TaskClass
  factual_qa general_reasoning code_generation code_review sql_review : TaskClass
  structured_data tool_selection grounded_qa : TaskClass

pub data Capability : Type 0 where
  tools json_schema vision streaming reasoning : Capability

pub data Endpoint : Type 0 where
  chat_completions responses : Endpoint

pub data ReservationStatus : Type 0 where
  active settled released expired : ReservationStatus

pub data IdempotencyState : Type 0 where
  in_progress completed failed : IdempotencyState
