-- ===== src/Roi/Tests.antt =====
-- A ledger with one opportunity, and the theorems of the ledger at it.
use agent_roi.Base.{◌≤◌, ◌≡◌, refl, true, false, none, some, [], ◌∷◌, arith}
use agent_roi.Result.{ok}
use agent_roi.Sort.{sort_by}
use agent_roi.Roi.Types.{
  proposed, approved, in_progress, realizing, validated, closed, revenue, annual, realized, model,
  decimal, money_to_cents, ValueOpportunity, ValueRow, Tables,
}
use agent_roi.Roi.Ledger.{
  NewOpportunity, NewValue, NewCost, Letters, transition, create_opportunity, record_value,
  record_cost,
}
use agent_roi.Roi.Summary.{
  PortfolioSummary, list_opportunities, sum_money, summarize, portfolio_summary,
}
use agent_roi.Roi.Lifecycle.{Steps, done, step, Moves, transition_moves}
use agent_roi.Roi.Evidence.{IsKeyed, ledger-IsKeyed}
use agent_roi.Roi.Page.{summary_bound}

abbrev opportunity : ValueOpportunity
opportunity = record {
  opportunity_id = "o1";
  organization_id = "acme";
  agent_id = "bot";
  business_unit = "it";
  business_owner = "ann";
  title = "t";
  value_type = revenue;
  value_period = annual;
  status = in_progress;
  currency_code = "USD";
  baseline_cents = 100;
  forecast_cents = 900;
  source_key = "s1";
  created_at = 5;
  created_by = "ann";
  revision = 3;
}

abbrev counted : ValueRow
counted = record {
  measurement_id = "m1";
  organization_id = "acme";
  opportunity_id = "o1";
  stage = realized;
  amount_cents = 250;
  currency_code = "USD";
  evidence_key = "e1";
  recorded_by = "ann";
}

abbrev tables : Tables
tables = record {
  opportunities = opportunity ∷ [];
  values = counted ∷ [];
  costs = [];
  history = [];
}

abbrev letters : Letters
letters = record { upper = λ s. s; is_alpha = λ s. true }

abbrev new_value : NewValue
new_value = record {
  stage = realized;
  amount_usd = some (decimal false 125 2);
  evidence_key = "e1";
  recorded_by = "bob";
}

abbrev new_cost : NewCost
new_cost = record {
  organization_id = "acme";
  agent_id = "bot";
  cost_type = model;
  amount_usd = some (decimal false 125 2);
  currency_code = "USD";
  evidence_key = "c1";
  recorded_by = "bob";
  opportunity_id = "o1";
}

abbrev new_opportunity : NewOpportunity
new_opportunity = record {
  organization_id = "acme";
  agent_id = "bot";
  business_unit = "it";
  business_owner = "ann";
  title = "t";
  value_type = revenue;
  value_period = annual;
  baseline_usd = some (decimal false 1 0);
  forecast_value_usd = some (decimal false 1 0);
  confidence_fits = true;
  source_key = "s1";
  created_by = "ann";
  currency_code = "USD";
  opportunity_id = "";
}

-- half a cent is rounded up
cents_test : money_to_cents (some (decimal false 1005 3)) ≡ ok 101
unfolding money_to_cents
cents_test = refl

tables-IsKeyed : IsKeyed tables
tables-IsKeyed = record {
  ids = λ id. ground arith;
  sources = λ org source. ground arith;
  values = λ org key. ground arith;
  costs = λ org key. omega arith;
}

ledger-IsKeyed_example :
    IsKeyed (create_opportunity letters new_opportunity "x" 9 tables).1
    × IsKeyed (transition "o1" realizing "ann" none "x" 9 tables).1
    × IsKeyed (record_value "o1" new_value "x" tables).1
    × IsKeyed (record_cost letters new_cost "x" tables).1
ledger-IsKeyed_example =
    ledger-IsKeyed letters new_opportunity "o1" "ann" "x" realizing none new_value new_cost 9 tables
      tables-IsKeyed

way : Steps proposed closed 5
way =
    step approved refl
      (step in_progress refl (step realizing refl (step validated refl (step closed refl done))))

transition_moves_example :
    (after : ValueOpportunity) × ((transition "o1" realizing "ann" (some 3) "h1" 9 tables).0
      ≡ ok after)
    × Moves "o1" "ann" "h1" realizing
        (some 3)
        9
        tables
        opportunity
        after
        (transition "o1" realizing "ann" (some 3) "h1" 9 tables).1
transition_moves_example =
    transition_moves "o1" "ann" "h1" realizing (some 3) 9 tables opportunity refl refl refl refl

abbrev empty : Tables
empty = record { opportunities = []; values = []; costs = []; history = [] }

abbrev nothing : PortfolioSummary
nothing = record {
  currency_code = "EUR";
  opportunity_count = 0;
  baseline_cents = 0;
  forecast_cents = 0;
  realized_cents = 0;
  validated_cents = 0;
  cost_cents = 0;
  status_counts = λ s. 0;
}

summary_bound_example : nothing.opportunity_count ≤ 100
unfolding portfolio_summary list_opportunities summarize sort_by sum_money
summary_bound_example =
    summary_bound (λ s. s) (λ n. some (decimal false n 2)) "acme" "EUR" "" empty nothing refl
