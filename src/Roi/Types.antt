-- ===== src/Roi/Types.antt =====
-- The enumerations, the rows and the money of roi/ledger.py. The metadata, the notes and the other
-- columns that nothing reads are left out of the rows.
use agent_roi.Base.{
  ℕ, ◌+◌, ◌*◌, ◌/◌, ◌^◌, String, Bool, true, false, Option, none, some, List, ◌&&◌, leb, ltb,
  nat_eq, if◌then◌else◌,
}
use agent_roi.Result.{Result, ok, err}

pub data ValueType : Type 0 where
  cost_savings cost_avoidance revenue productivity risk_reduction : ValueType

pub data ValuePeriod : Type 0 where
  one_time monthly annual : ValuePeriod

pub data OpportunityStatus : Type 0 where
  proposed approved in_progress realizing validated rejected closed : OpportunityStatus

-- `confirmed` stands for `VALIDATED`, a name that a status has too.
pub data ValueStage : Type 0 where
  potential forecast realized confirmed : ValueStage

pub data CostType : Type 0 where
  model infrastructure human_review implementation support other : CostType

-- The place of a status in the enumeration, by which statuses are compared.
abbrev pub ordinal : OpportunityStatus → ℕ
ordinal proposed = 0
ordinal approved = 1
ordinal in_progress = 2
ordinal realizing = 3
ordinal validated = 4
ordinal rejected = 5
ordinal closed = 6

abbrev pub status_eq : OpportunityStatus → OpportunityStatus → Bool
status_eq s t = nat_eq (ordinal s) (ordinal t)

-- `_ALLOWED_TRANSITIONS`
abbrev pub allowed : OpportunityStatus → OpportunityStatus → Bool
allowed proposed approved = true
allowed proposed rejected = true
allowed approved in_progress = true
allowed approved rejected = true
allowed in_progress realizing = true
allowed in_progress closed = true
allowed realizing validated = true
allowed realizing closed = true
allowed validated closed = true
allowed rejected closed = true
allowed _ _ = false

-- The exceptions of the ledger.
pub data LedgerError : Type 0 where
  money_not_numeric money_not_valid : LedgerError
  blank_field bad_confidence bad_currency duplicate_source not_found : LedgerError
  invalid_transition revision_conflict history_conflict : LedgerError
  not_in_progress evidence_required already_counted cost_mismatch mixed_currencies : LedgerError

-- A `Decimal`: `coefficient / 10 ^ scale` with a sign, or a value that is not finite.
pub data Decimal : Type 0 where
  decimal : Bool → ℕ → ℕ → Decimal
  not_finite : Decimal

-- `quantize(Decimal("0.01"), ROUND_HALF_UP)` of a number that is not negative, in hundredths
abbrev pub half_up : ℕ → ℕ → ℕ
half_up coefficient scale = (200 * coefficient + 10 ^ scale) / (2 * 10 ^ scale)

-- `_money_to_cents`; `Decimal(str(value))` is `none` where it raises. More than 28 digits are refused
-- by `quantize`.
unfoldable pub money_to_cents : Option Decimal → Result LedgerError ℕ
money_to_cents none = err money_not_numeric
money_to_cents (some not_finite) = err money_not_valid
money_to_cents (some (decimal negative coefficient scale)) =
    if negative && ltb 0 coefficient
    then err money_not_valid
    else if leb (10 ^ 28) (half_up coefficient scale)
    then err money_not_numeric
    else ok (half_up coefficient scale)

pub record ValueOpportunity : Type 0 where
  pub opportunity_id : String
  pub organization_id : String
  pub agent_id : String
  pub business_unit : String
  pub business_owner : String
  pub title : String
  pub value_type : ValueType
  pub value_period : ValuePeriod
  pub status : OpportunityStatus
  pub currency_code : String
  pub baseline_cents : ℕ
  pub forecast_cents : ℕ
  pub source_key : String
  pub created_at : ℕ
  pub created_by : String
  pub revision : ℕ

pub record ValueRow : Type 0 where
  pub measurement_id : String
  pub organization_id : String
  pub opportunity_id : String
  pub stage : ValueStage
  pub amount_cents : ℕ
  pub currency_code : String
  pub evidence_key : String
  pub recorded_by : String

pub record CostRow : Type 0 where
  pub cost_id : String
  pub organization_id : String
  pub agent_id : String
  -- `opportunity_id or None`
  pub opportunity_id : String
  pub cost_type : CostType
  pub amount_cents : ℕ
  pub currency_code : String
  pub evidence_key : String
  pub recorded_by : String

pub record HistoryRow : Type 0 where
  pub history_id : String
  pub opportunity_id : String
  pub old_status : OpportunityStatus
  pub new_status : OpportunityStatus
  pub changed_at : ℕ
  pub changed_by : String

-- The four tables.
pub record Tables : Type 0 where
  pub opportunities : List ValueOpportunity
  pub values : List ValueRow
  pub costs : List CostRow
  pub history : List HistoryRow
