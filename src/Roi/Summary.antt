-- ===== src/Roi/Summary.antt =====
-- `list_opportunities` and `portfolio_summary` of roi/ledger.py.
use agent_roi.Base
use agent_roi.Base.{
  ℕ, ◌+◌, String, Bool, true, false, Option, none, some, List, [], ◌∷◌, ◌==◌, any, filter, count,
  sum_by, take, drop, leb, nat_eq, min, max, not, ◌&&◌, ◌||◌, if◌then◌else◌,
}
use agent_roi.Base.Text.{is_empty}
use agent_roi.Sort.{sort_by}
use agent_roi.Result.{Result, ok, err, ◌>>=◌}
use agent_roi.Roi.Types.{
  OpportunityStatus, ValueStage, realized, confirmed, status_eq, LedgerError, mixed_currencies,
  Decimal, money_to_cents, ValueOpportunity, ValueRow, CostRow, Tables,
}

-- the WHERE clause of `list_opportunities`
abbrev pub selects : String → String → Option OpportunityStatus → ValueOpportunity → Bool
selects organization agent none o =
    o.organization_id == organization && (is_empty agent || o.agent_id == agent)
selects organization agent (some status) o =
    o.organization_id == organization
    && (is_empty agent || o.agent_id == agent)
    && status_eq o.status status

-- `list_opportunities`; a negative limit or offset is 0 here, and is treated as 0 there
unfoldable pub list_opportunities :
    String → String → Option OpportunityStatus → ℕ → ℕ → Tables → List ValueOpportunity
list_opportunities organization agent status limit offset t = take (max 1 (min limit 500)) (
    drop offset
      (sort_by (λ o. o.created_at) (filter (selects organization agent status) t.opportunities)))

-- all rows have the currency of the first
abbrev pub one_currency : List ValueOpportunity → Bool
one_currency [] = true
one_currency (o ∷ l) = not (any (λ p. not (p.currency_code == o.currency_code)) l)

-- the currency of the summary
abbrev pub selected_currency :
    (String → String) → String → List ValueOpportunity → Result LedgerError String
selected_currency upper currency l =
    if not (is_empty currency)
    then ok (upper currency)
    else if one_currency l
    then ok (elim l [ [] ↦ "USD" | o ∷ rest ↦ o.currency_code ])
    else err mixed_currencies

-- `id in opportunity_ids`
abbrev pub listed : List ValueOpportunity → String → Bool
listed l id = any (λ o. o.opportunity_id == id) l

abbrev pub stage_eq : ValueStage → ValueStage → Bool
stage_eq realized realized = true
stage_eq confirmed confirmed = true
stage_eq _ _ = false

-- a measurement that the sum of a stage counts
abbrev pub counts_value : String → String → List ValueOpportunity → ValueStage → ValueRow → Bool
counts_value organization currency l stage v =
    v.organization_id == organization
    && v.currency_code == currency
    && listed l v.opportunity_id
    && stage_eq v.stage stage

-- a cost that the sum of the costs counts
abbrev pub counts_cost : String → String → String → List ValueOpportunity → CostRow → Bool
counts_cost organization agent currency l c =
    c.organization_id == organization
    && c.currency_code == currency
    && (is_empty agent || c.agent_id == agent)
    && (is_empty c.opportunity_id || listed l c.opportunity_id)

-- The sums in cents. `net_validated_value_usd` and `validated_roi_multiple` are the difference and the
-- rounded quotient of two of them.
pub record PortfolioSummary : Type 0 where
  pub currency_code : String
  pub opportunity_count : ℕ
  pub baseline_cents : ℕ
  pub forecast_cents : ℕ
  pub realized_cents : ℕ
  pub validated_cents : ℕ
  pub cost_cents : ℕ
  pub status_counts : OpportunityStatus → ℕ

-- the sum of amounts that were turned into floats and back
unfoldable pub sum_money : (ℕ → Option Decimal) → List ℕ → Result LedgerError ℕ
sum_money reprint [] = ok 0
sum_money reprint (cents ∷ l) = do
  one ← money_to_cents (reprint cents)
  rest ← sum_money reprint l
  ok (one + rest)

-- the summary of the opportunities `l` in one currency
unfoldable pub summarize :
    (ℕ → Option Decimal)
    → String
    → String
    → String
    → List ValueOpportunity
    → Tables
    → Result LedgerError PortfolioSummary
unfolding sum_money
summarize reprint organization agent currency l t = do
  forecast ← sum_money reprint (Base.map (λ o. o.forecast_cents) l)
  baseline ← sum_money reprint (Base.map (λ o. o.baseline_cents) l)
  ok (record {
    currency_code = currency;
    opportunity_count = Base.length l;
    baseline_cents = baseline;
    forecast_cents = forecast;
    realized_cents =
        sum_by (λ v. v.amount_cents)
          (filter (counts_value organization currency l realized) t.values);
    validated_cents =
        sum_by (λ v. v.amount_cents)
          (filter (counts_value organization currency l confirmed) t.values);
    cost_cents =
        sum_by (λ c. c.amount_cents) (filter (counts_cost organization agent currency l) t.costs);
    status_counts = λ s. count (λ o. status_eq o.status s) l;
  })

-- `portfolio_summary`; `reprint` is `Decimal(str(…))` of the float that `_cents_to_money` returns
unfoldable pub portfolio_summary :
    (String → String)
    → (ℕ → Option Decimal)
    → String
    → String
    → String
    → Tables
    → Result LedgerError PortfolioSummary
unfolding list_opportunities summarize
portfolio_summary upper reprint organization currency agent t =
    let l = list_opportunities organization agent none 100 0 t in
    (do
      selected ← selected_currency upper currency l
      summarize reprint organization agent selected (filter (λ o. o.currency_code == selected) l) t)
