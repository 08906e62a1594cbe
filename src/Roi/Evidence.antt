-- ===== src/Roi/Evidence.antt =====
-- The keys of the tables: no operation of the ledger lets a source or a piece of evidence count twice.
use agent_roi.Base.{
  ℕ, ◌≤◌, String, ◌≡◌, refl, false, Option, some, arith, count, eq_iff, ◌⊎◌, inl, inr, sym,
  Option-cases,
}
use mathlib.Core.Path.{subst}
use agent_roi.Base.Text.{strip}
use agent_roi.Result.{Result, ok, err, is_ok}
use agent_roi.Exec.{lift, ◌>>=◌, ◌>>◌}
use agent_roi.Table.{count-insert, count-none, count-update, select_one}
use agent_roi.Roi.Types.{
  OpportunityStatus, LedgerError, ValueOpportunity, ValueRow, CostRow, HistoryRow, Tables,
  money_to_cents,
}
use agent_roi.Roi.Ledger.{
  has_id, has_source, value_evidence, cost_evidence, NewOpportunity, Letters, NewValue, NewCost,
  insert_opportunity, get_opportunity, new_row, create_opportunity, still_current, moved,
  write_transition, history_row, transition, insert_value, record_value, value_row, cost_row,
  check_opportunity, insert_cost, record_cost,
}

-- At most one opportunity for each identifier and for each source of an organization, and at most one
-- value and one cost for each piece of evidence of an organization.
pub record IsKeyed (t : Tables) : Type 0 where
  pub ids : (id : String) → count (has_id id) t.opportunities ≤ 1
  pub sources : (org source : String) → count (has_source org source) t.opportunities ≤ 1
  pub values : (org key : String) → count (value_evidence org key) t.values ≤ 1
  pub costs : (org key : String) → count (cost_evidence org key) t.costs ≤ 1

insert_opportunity-IsKeyed :
    (o : ValueOpportunity) (t : Tables) → IsKeyed t → IsKeyed (insert_opportunity o t).1
unfolding insert_opportunity
insert_opportunity-IsKeyed o t k = record {
  ids = λ id. ground (
    arith,
    k.ids id,
    count-insert (has_id id) o t.opportunities,
    count-none (has_id o.opportunity_id) t.opportunities,
    eq_iff o.opportunity_id id,
  );
  sources = λ org source. ground (
    arith,
    k.sources org source,
    count-insert (has_source org source) o t.opportunities,
    count-none (has_source o.organization_id o.source_key) t.opportunities,
    eq_iff o.organization_id org,
    eq_iff o.source_key source,
  );
  values = λ org key. ground (arith, k.values org key);
  costs = λ org key. ground (arith, k.costs org key);
}

insert_value-IsKeyed : (v : ValueRow) (t : Tables) → IsKeyed t → IsKeyed (insert_value v t).1
unfolding insert_value
insert_value-IsKeyed v t k = record {
  ids = λ id. ground (arith, k.ids id);
  sources = λ org source. ground (arith, k.sources org source);
  values = λ org key. ground (
    arith,
    k.values org key,
    count-insert (value_evidence org key) v t.values,
    count-none (value_evidence v.organization_id v.evidence_key) t.values,
    eq_iff v.organization_id org,
    eq_iff v.evidence_key key,
  );
  costs = λ org key. ground (arith, k.costs org key);
}

insert_cost-IsKeyed : (c : CostRow) (t : Tables) → IsKeyed t → IsKeyed (insert_cost c t).1
unfolding insert_cost
insert_cost-IsKeyed c t k = record {
  ids = λ id. ground (arith, k.ids id);
  sources = λ org source. ground (arith, k.sources org source);
  values = λ org key. ground (arith, k.values org key);
  costs = λ org key. ground (
    arith,
    k.costs org key,
    count-insert (cost_evidence org key) c t.costs,
    count-none (cost_evidence c.organization_id c.evidence_key) t.costs,
    eq_iff c.organization_id org,
    eq_iff c.evidence_key key,
  );
}

write_transition-IsKeyed :
    (id : String) (status new : OpportunityStatus) (expected : Option ℕ) (h : HistoryRow)
    (t : Tables)
    → IsKeyed t
    → IsKeyed (write_transition id status new expected h t).1
unfolding write_transition
write_transition-IsKeyed id status new expected h t k = record {
  ids = λ i. ground (
    arith,
    k.ids i,
    count-update (still_current id status expected) (has_id i) (moved new) t.opportunities
        (λ r p. refl),
  );
  sources = λ org source. ground (
    arith,
    k.sources org source,
    count-update (still_current id status expected) (has_source org source) (moved new)
        t.opportunities (λ r p. refl),
  );
  values = λ org key. ground (arith, k.values org key);
  costs = λ org key. ground (arith, k.costs org key);
}

get_opportunity-same : (id : String) (t : Tables) → (get_opportunity id t).1 ≡ t
unfolding get_opportunity
get_opportunity-same id t = ground arith

check_opportunity-same : (n : NewCost) (t : Tables) → (check_opportunity n t).1 ≡ t
unfolding check_opportunity get_opportunity
check_opportunity-same n t = ground arith

-- a method that leaves the tables, or leaves them as another one does, keeps their keys
IsKeyed-either : (t u v : Tables) → (v ≡ t) ⊎ (v ≡ u) → IsKeyed t → IsKeyed u → IsKeyed v
IsKeyed-either t u v (inl e) k l = subst IsKeyed (sym e) k
IsKeyed-either t u v (inr e) k l = subst IsKeyed (sym e) l

then_insert-IsKeyed :
    (x : Result LedgerError ValueOpportunity) (t : Tables)
    → IsKeyed t
    → IsKeyed ((do o ← lift (λ e. e) x; insert_opportunity o; get_opportunity o.opportunity_id) t).1
then_insert-IsKeyed (err e) t k = k
then_insert-IsKeyed (ok o) t k =
    IsKeyed-either t (insert_opportunity o t).1 _
      (ground (arith, get_opportunity-same o.opportunity_id (insert_opportunity o t).1)) k
      (insert_opportunity-IsKeyed o t k)

create-IsKeyed :
    (letters : Letters) (n : NewOpportunity) (fresh : String) (now : ℕ) (t : Tables)
    → IsKeyed t
    → IsKeyed (create_opportunity letters n fresh now t).1
unfolding create_opportunity
create-IsKeyed letters n fresh now t k = then_insert-IsKeyed (new_row letters n fresh now) t k

transition-IsKeyed :
    (id : String) (new : OpportunityStatus) (by : String) (expected : Option ℕ) (fresh : String)
    (now : ℕ) (t : Tables)
    → IsKeyed t
    → IsKeyed (transition id new by expected fresh now t).1
unfolding transition get_opportunity
transition-IsKeyed id new by expected fresh now t k =
    elim (Option-cases (select_one (has_id id) t.opportunities)) [
      | inl missing ↦ IsKeyed-either t t _ (inl (ground (arith, missing))) k k
      | inr (o, found) ↦
          let h = history_row fresh id o.status new now by in
          IsKeyed-either t (write_transition id o.status new expected h t).1 _
            (ground (arith, found)) k (write_transition-IsKeyed id o.status new expected h t k)
    ]

then_value-IsKeyed :
    (v : ℕ → ValueRow) (x : Result LedgerError ℕ) (t : Tables)
    → IsKeyed t
    → IsKeyed ((do cents ← lift (λ e. e) x; insert_value (v cents)) t).1
then_value-IsKeyed v (err e) t k = k
then_value-IsKeyed v (ok cents) t k = insert_value-IsKeyed (v cents) t k

record_value-IsKeyed :
    (id : String) (n : NewValue) (fresh : String) (t : Tables)
    → IsKeyed t
    → IsKeyed (record_value id n fresh t).1
unfolding record_value get_opportunity
record_value-IsKeyed id n fresh t k = elim (Option-cases (select_one (has_id id) t.opportunities)) [
  | inl missing ↦ IsKeyed-either t t _ (inl (ground (arith, missing))) k k
  | inr (o, found) ↦
      IsKeyed-either t
        ((do
          cents ← lift (λ e. e) (money_to_cents n.amount_usd)
          insert_value (value_row o n fresh cents))
          t).1
        _ (ground (arith, found)) k
        (then_value-IsKeyed (value_row o n fresh) (money_to_cents n.amount_usd) t k)
]

then_cost-IsKeyed :
    (c : ℕ → CostRow) (x : Result LedgerError ℕ) (t : Tables)
    → IsKeyed t
    → IsKeyed ((do cents ← lift (λ e. e) x; insert_cost (c cents)) t).1
then_cost-IsKeyed c (err e) t k = k
then_cost-IsKeyed c (ok cents) t k = insert_cost-IsKeyed (c cents) t k

record_cost-IsKeyed :
    (letters : Letters) (n : NewCost) (fresh : String) (t : Tables)
    → IsKeyed t
    → IsKeyed (record_cost letters n fresh t).1
unfolding record_cost
record_cost-IsKeyed letters n fresh t k =
    IsKeyed-either t
      ((do
        cents ← lift (λ e. e) (money_to_cents n.amount_usd)
        insert_cost (cost_row letters n fresh cents))
        t).1
      _ (ground (arith, check_opportunity-same n t)) k
      (then_cost-IsKeyed (cost_row letters n fresh) (money_to_cents n.amount_usd) t k)

-- Every operation of the ledger, whether it returns or raises, keeps at most one opportunity for each
-- identifier and each source, and at most one value and one cost for each piece of evidence of an
-- organization.
pub ledger-IsKeyed :
    (letters : Letters) (n : NewOpportunity) (id by fresh : String) (new : OpportunityStatus)
    (expected : Option ℕ) (v : NewValue) (c : NewCost) (now : ℕ) (t : Tables)
    → IsKeyed t
    → IsKeyed (create_opportunity letters n fresh now t).1
      × IsKeyed (transition id new by expected fresh now t).1
      × IsKeyed (record_value id v fresh t).1
      × IsKeyed (record_cost letters c fresh t).1
ledger-IsKeyed letters n id by fresh new expected v c now t k = (
  create-IsKeyed letters n fresh now t k,
  transition-IsKeyed id new by expected fresh now t k,
  record_value-IsKeyed id v fresh t k,
  record_cost-IsKeyed letters c fresh t k,
)

-- Evidence that has been counted for an organization is refused for every later value of it, and the
-- tables stay as they were.
pub record_value_again :
    (id : String) (n : NewValue) (fresh : String) (o : ValueOpportunity) (old : ValueRow)
    (t : Tables)
    → select_one (has_id id) t.opportunities ≡ some o
    → select_one (value_evidence o.organization_id (strip n.evidence_key)) t.values ≡ some old
    → (is_ok (record_value id n fresh t).0 ≡ false) × ((record_value id n fresh t).1 ≡ t)
unfolding record_value get_opportunity insert_value
record_value_again id n fresh o old t found counted =
    (ground (arith, found, counted), ground (arith, found, counted))
