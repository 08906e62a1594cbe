-- ===== src/Roi/Ledger.antt =====
-- The operations of `RealizedROILedger`. Identifiers that the code draws with `uuid4` and readings of
-- the clock are arguments; a transaction that raises leaves the tables as they were.
use agent_roi.Base.{
  ℕ, ◌+◌, String, Bool, false, Option, none, some, [], ◌∷◌, ◌==◌, any, is_some, nat_eq, not, ◌&&◌,
  ◌||◌, if◌then◌else◌,
}
use agent_roi.Base.Text.{strip, is_blank, is_empty, text_length}
use agent_roi.Result.{Result, ok, err, Exec}
use agent_roi.Exec.{pure, raise_if, lift, ◌>>=◌, ◌>>◌}
use agent_roi.Table.{insert, update, select_one}
use agent_roi.Roi.Types.{
  ValueType, ValuePeriod, OpportunityStatus, proposed, in_progress, realizing, validated,
  ValueStage, realized, confirmed, CostType, status_eq, allowed, LedgerError, blank_field,
  bad_confidence, bad_currency, duplicate_source, not_found, invalid_transition, revision_conflict,
  history_conflict, not_in_progress, evidence_required, already_counted, cost_mismatch, Decimal,
  money_to_cents, ValueOpportunity, ValueRow, CostRow, HistoryRow, Tables,
}

abbrev pub Ledger : Type 0 → Type 0
Ledger A = Exec LedgerError Tables A

-- The conditions of the SQL statements.
abbrev pub has_id : String → ValueOpportunity → Bool
has_id id o = o.opportunity_id == id

abbrev pub has_source : String → String → ValueOpportunity → Bool
has_source organization source o = o.organization_id == organization && o.source_key == source

abbrev pub value_evidence : String → String → ValueRow → Bool
value_evidence organization evidence v =
    v.organization_id == organization && v.evidence_key == evidence

abbrev pub cost_evidence : String → String → CostRow → Bool
cost_evidence organization evidence c =
    c.organization_id == organization && c.evidence_key == evidence

-- the arguments of `create_opportunity`
pub record NewOpportunity : Type 0 where
  pub organization_id : String
  pub agent_id : String
  pub business_unit : String
  pub business_owner : String
  pub title : String
  pub value_type : ValueType
  pub value_period : ValuePeriod
  pub baseline_usd : Option Decimal
  pub forecast_value_usd : Option Decimal
  -- `0.0 <= float(confidence) <= 1.0`
  pub confidence_fits : Bool
  pub source_key : String
  pub created_by : String
  pub currency_code : String
  pub opportunity_id : String

-- a required text is blank
abbrev pub some_blank : NewOpportunity → Bool
some_blank n = any is_blank (
    n.organization_id ∷ n.agent_id ∷ n.business_unit ∷ n.business_owner ∷ n.title ∷ n.source_key
    ∷ n.created_by ∷ [])

-- `str.upper` and `str.isalpha`
pub record Letters : Type 0 where
  pub upper : String → String
  pub is_alpha : String → Bool

abbrev pub opportunity_row : NewOpportunity → String → String → ℕ → ℕ → ℕ → ValueOpportunity
opportunity_row n id currency baseline forecast now = record {
  opportunity_id = id;
  organization_id = strip n.organization_id;
  agent_id = strip n.agent_id;
  business_unit = strip n.business_unit;
  business_owner = strip n.business_owner;
  title = strip n.title;
  value_type = n.value_type;
  value_period = n.value_period;
  status = proposed;
  currency_code = currency;
  baseline_cents = baseline;
  forecast_cents = forecast;
  source_key = strip n.source_key;
  created_at = now;
  created_by = strip n.created_by;
  revision = 1;
}

-- `INSERT INTO roi_opportunities`, with the primary key and the unique source of the table
unfoldable pub insert_opportunity : ValueOpportunity → Ledger (Unit {0})
insert_opportunity o t =
    if is_some (select_one (has_id o.opportunity_id) t.opportunities)
      || is_some (select_one (has_source o.organization_id o.source_key) t.opportunities)
    then (err duplicate_source, t)
    else (ok tt, record t { opportunities = insert o t.opportunities })

-- `get_opportunity`
unfoldable pub get_opportunity : String → Ledger ValueOpportunity
get_opportunity id t = elim (select_one (has_id id) t.opportunities) [
  | none ↦ (err not_found, t)
  | some o ↦ (ok o, t)
]

-- what `create_opportunity` inserts, if its arguments are valid
unfoldable pub new_row : Letters → NewOpportunity → String → ℕ → Result LedgerError ValueOpportunity
new_row letters n fresh now =
    let currency = letters.upper (strip n.currency_code) in
    let id = if is_empty n.opportunity_id then fresh else n.opportunity_id in
    if some_blank n
    then err blank_field
    else if not n.confidence_fits
    then err bad_confidence
    else if not (nat_eq (text_length currency) 3) || not (letters.is_alpha currency)
    then err bad_currency
    else elim (money_to_cents n.baseline_usd) [
      | err e ↦ err e
      | ok baseline ↦ elim (money_to_cents n.forecast_value_usd) [
        | err e ↦ err e
        | ok forecast ↦ ok (opportunity_row n id currency baseline forecast now)
      ]
    ]

unfoldable pub create_opportunity : Letters → NewOpportunity → String → ℕ → Ledger ValueOpportunity
unfolding new_row insert_opportunity get_opportunity
create_opportunity letters n fresh now = do
  o ← lift (λ e. e) (new_row letters n fresh now)
  insert_opportunity o
  get_opportunity o.opportunity_id

-- the condition of the UPDATE of `transition`
abbrev pub still_current : String → OpportunityStatus → Option ℕ → ValueOpportunity → Bool
still_current id status none o = has_id id o && status_eq o.status status
still_current id status (some revision) o =
    has_id id o && status_eq o.status status && nat_eq o.revision revision

abbrev pub moved : OpportunityStatus → ValueOpportunity → ValueOpportunity
moved new o = record o { status = new; revision = o.revision + 1 }

-- the transaction of `transition`, for the status as it was read before
unfoldable pub write_transition :
    String → OpportunityStatus → OpportunityStatus → Option ℕ → HistoryRow → Ledger (Unit {0})
write_transition id status new expected h t =
    let matches = still_current id status expected in
    if not (is_some (select_one matches t.opportunities))
    then (err revision_conflict, t)
    else if any (λ r. r.history_id == h.history_id) t.history
    then (err history_conflict, t)
    else (
      ok tt,
      record t {
        opportunities = update matches (moved new) t.opportunities;
        history = insert h t.history;
      },
    )

abbrev pub history_row :
    String → String → OpportunityStatus → OpportunityStatus → ℕ → String → HistoryRow
history_row fresh id status new now by = record {
  history_id = fresh;
  opportunity_id = id;
  old_status = status;
  new_status = new;
  changed_at = now;
  changed_by = by;
}

unfoldable pub transition :
    String → OpportunityStatus → String → Option ℕ → String → ℕ → Ledger ValueOpportunity
unfolding get_opportunity write_transition
transition id new changed_by expected fresh now = do
  current ← get_opportunity id
  raise_if (not (allowed current.status new)) invalid_transition
  write_transition id current.status new expected
      (history_row fresh id current.status new now changed_by)
  get_opportunity id

-- value counts as realized only while work is done
abbrev pub too_early : ValueStage → OpportunityStatus → Bool
too_early realized s =
    not (status_eq s in_progress || status_eq s realizing || status_eq s validated)
too_early confirmed s =
    not (status_eq s in_progress || status_eq s realizing || status_eq s validated)
too_early _ s = false

-- the arguments of `record_value`
pub record NewValue : Type 0 where
  pub stage : ValueStage
  pub amount_usd : Option Decimal
  pub evidence_key : String
  pub recorded_by : String

unfoldable pub insert_value : ValueRow → Ledger (Unit {0})
insert_value v t =
    if any (λ r. r.measurement_id == v.measurement_id) t.values
      || is_some (select_one (value_evidence v.organization_id v.evidence_key) t.values)
    then (err already_counted, t)
    else (ok tt, record t { values = insert v t.values })

abbrev pub value_row : ValueOpportunity → NewValue → String → ℕ → ValueRow
value_row o n fresh cents = record {
  measurement_id = fresh;
  organization_id = o.organization_id;
  opportunity_id = o.opportunity_id;
  stage = n.stage;
  amount_cents = cents;
  currency_code = o.currency_code;
  evidence_key = strip n.evidence_key;
  recorded_by = strip n.recorded_by;
}

unfoldable pub record_value : String → NewValue → String → Ledger (Unit {0})
unfolding get_opportunity insert_value
record_value id n fresh = do
  o ← get_opportunity id
  raise_if (too_early n.stage o.status) not_in_progress
  raise_if (is_blank n.evidence_key || is_blank n.recorded_by) evidence_required
  cents ← lift (λ e. e) (money_to_cents n.amount_usd)
  insert_value (value_row o n fresh cents)

-- the arguments of `record_cost`
pub record NewCost : Type 0 where
  pub organization_id : String
  pub agent_id : String
  pub cost_type : CostType
  pub amount_usd : Option Decimal
  pub currency_code : String
  pub evidence_key : String
  pub recorded_by : String
  pub opportunity_id : String

-- the opportunity that a cost names, if any, is one of the organization and the agent
unfoldable pub check_opportunity : NewCost → Ledger (Unit {0})
unfolding get_opportunity
check_opportunity n = if is_empty n.opportunity_id then pure tt else (do
  o ← get_opportunity n.opportunity_id
  raise_if (not (o.organization_id == n.organization_id) || not (o.agent_id == n.agent_id))
      cost_mismatch)

unfoldable pub insert_cost : CostRow → Ledger (Unit {0})
insert_cost c t =
    if any (λ r. r.cost_id == c.cost_id) t.costs
      || is_some (select_one (cost_evidence c.organization_id c.evidence_key) t.costs)
    then (err already_counted, t)
    else (ok tt, record t { costs = insert c t.costs })

abbrev pub cost_row : Letters → NewCost → String → ℕ → CostRow
cost_row letters n fresh cents = record {
  cost_id = fresh;
  organization_id = n.organization_id;
  agent_id = n.agent_id;
  opportunity_id = n.opportunity_id;
  cost_type = n.cost_type;
  amount_cents = cents;
  currency_code = letters.upper (strip n.currency_code);
  evidence_key = strip n.evidence_key;
  recorded_by = strip n.recorded_by;
}

unfoldable pub record_cost : Letters → NewCost → String → Ledger (Unit {0})
unfolding check_opportunity insert_cost
record_cost letters n fresh = do
  check_opportunity n
  raise_if (is_blank n.evidence_key || is_blank n.recorded_by) evidence_required
  cents ← lift (λ e. e) (money_to_cents n.amount_usd)
  insert_cost (cost_row letters n fresh cents)
