-- ===== src/Roi/Page.antt =====
-- What the page of `list_opportunities` lets `portfolio_summary` see.
use agent_roi.Base.{
  ℕ, ◌≤◌, String, ◌≡◌, Bool, Option, none, List, [], ◌∷◌, arith, count, length, filter, take-all,
  length-take-le, ◌==◌, inl, inr, ap, ◌∙◌,
}
use agent_roi.Sort.{sort_by, count-sort_by, length-sort_by}
use agent_roi.Result.{ok, Result-cases}
use agent_roi.Roi.Types.{Decimal, OpportunityStatus, ValueOpportunity, Tables}
use agent_roi.Roi.Summary.{
  list_opportunities, selected_currency, summarize, portfolio_summary, PortfolioSummary, selects,
}

length-filter-le : {A : Type 0} (p : A → Bool) (l : List A) → length (filter p l) ≤ length l
length-filter-le p [] = omega arith
length-filter-le p (x ∷ l) = ground (arith, length-filter-le p l)

summarize-count :
    (reprint : ℕ → Option Decimal) (organization agent currency : String)
    (l : List ValueOpportunity) (t : Tables) (s : PortfolioSummary)
    → summarize reprint organization agent currency l t ≡ ok s
    → s.opportunity_count ≡ length l
unfolding summarize
summarize-count reprint organization agent currency l t s e = ground arith

-- A summary counts a hundred opportunities at most, however many the organization has.
pub summary_bound :
    (upper : String → String) (reprint : ℕ → Option Decimal) (organization currency agent : String)
    (t : Tables) (s : PortfolioSummary)
    → portfolio_summary upper reprint organization currency agent t ≡ ok s
    → s.opportunity_count ≤ 100
unfolding portfolio_summary list_opportunities
summary_bound upper reprint organization currency agent t s e =
    let page = list_opportunities organization agent none 100 0 t in
    elim (Result-cases (selected_currency upper currency page)) [
      | inr (x, failed) ↦ ground (arith, failed, e)
      | inl (c, found) ↦
          let kept = filter (λ o. o.currency_code == c) page in
          let counted =
            summarize-count reprint organization agent c kept t s (ground (arith, found, e)) in
          omega (
            arith,
            counted,
            length-filter-le (λ o. o.currency_code == c) page,
            length-take-le 100 (
                sort_by (λ o. o.created_at)
                  (filter (selects organization agent none) t.opportunities)),
          )
    ]

-- If at most a hundred opportunities of the organization and the agent are selected, the page of a
-- hundred that the summary reads has all of them, each as often as the table has it.
pub page_complete :
    (organization agent : String) (status : Option OpportunityStatus) (t : Tables)
    (p : ValueOpportunity → Bool)
    → length (filter (selects organization agent status) t.opportunities) ≤ 100
    → count p (list_opportunities organization agent status 100 0 t)
      ≡ count p (filter (selects organization agent status) t.opportunities)
unfolding list_opportunities
page_complete organization agent status t p fits =
    let l = filter (selects organization agent status) t.opportunities in
    let sorted = sort_by (λ o. o.created_at) l in
    let short : length sorted ≤ 100 = omega (arith, length-sort_by (λ o. o.created_at) l, fits) in
    ap (count p) (take-all sorted 100 short) ∙ count-sort_by (λ o. o.created_at) p l
