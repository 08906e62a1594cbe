-- ===== src/Tools/Spec.antt =====
-- `ToolSpec` of runtime/tools.py, over the types of argument values `A`, results `V`, exceptions `X`
-- and the world `W` that handlers change.
use agent_roi.Base.{ℕ, String, Bool, false, Option, none, some, List, ltb, not, ◌||◌, if◌then◌else◌}
use agent_roi.Base.Text.{strip, is_blank, is_empty}
use agent_roi.Result.{Result, ok, Exec, ◌>>◌, raise_if}
use agent_roi.Float.{Float}
use agent_roi.Resilience.Retry.{RetryPolicy}
use agent_roi.Resilience.Breaker.{CallError}

-- A Python callable: `ref` is the object that `is` compares.
pub record Handler (A V X W : Type 0) : Type 0 where
  pub ref : ℕ
  pub identity : String
  pub is_async : Bool
  pub run : List A → List (String × A) → Exec X W V

-- The policy's store is the table that the runtime keeps for the tool.
pub record IdempotencyPolicy (A : Type 0) : Type 0 where
  pub namespace : String
  pub key_factory : List A → List (String × A) → String
  pub ttl_seconds : ℕ

pub record ToolSpec (F A V X W : Type 0) : Type 0 where
  pub name : String
  pub handler : Handler A V X W
  pub description : String
  pub risk : String
  pub requires_approval : Bool
  pub default_cost : F
  pub version : String
  pub approval_ttl_seconds : ℕ
  -- `none` where the estimate is not a number
  pub cost_estimator : Option (List A → List (String × A) → Option F)
  pub timeout_seconds : Option F
  pub retry_policy : Option (RetryPolicy F (CallError X))
  pub circuit_breaker : Bool
  pub idempotency_policy : Option (IdempotencyPolicy A)

pub data ToolRegistrationError : Type 0 where
  blank_name bad_cost blank_version bad_ttl bad_timeout frozen_registry duplicate_tool :
      ToolRegistrationError

module _ (fl : Float) where
  open fl use {F, nought, lt, is_finite}

  abbrev bad_timeout? : Option F → Bool
  bad_timeout? none = false
  bad_timeout? (some t) = not (is_finite t) || not (lt nought t)

  -- `__post_init__`; `lower` is `str.lower`
  unfoldable pub check_spec :
      {A V X W : Type 0}
      → (String → String)
      → ToolSpec F A V X W
      → Result ToolRegistrationError (ToolSpec F A V X W)
  check_spec lower s = do
    raise_if (is_blank s.name) blank_name
    raise_if (not (is_finite s.default_cost) || lt s.default_cost nought) bad_cost
    raise_if (is_blank s.version) blank_version
    raise_if (ltb s.approval_ttl_seconds 1) bad_ttl
    raise_if (bad_timeout? s.timeout_seconds) bad_timeout
    ok (record s {
      name = strip s.name;
      risk = lower (strip (if is_empty s.risk then "unknown" else s.risk));
      version = strip s.version;
    })
