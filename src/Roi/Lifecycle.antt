-- ===== src/Roi/Lifecycle.antt =====
-- The lifecycle of an opportunity: what `transition` does on every branch, and how far a chain of
-- transitions can go.
use agent_roi.Base.{
  eq_iff, List, [], ◌∷◌, ℕ, suc, ◌+◌, ◌≤◌, String, ◌≡◌, refl, Bool, true, false, Option, none, some,
  arith, any, ◌==◌, nat_eq, count,
}
use agent_roi.Result.{ok, err}
use agent_roi.Table.{find-only, is_some-find_of, find-update, insert, update, select_one, find_hit}
use agent_roi.Roi.Types.{
  OpportunityStatus, proposed, approved, in_progress, realizing, validated, rejected, closed,
  allowed, not_found, invalid_transition, revision_conflict, ValueOpportunity, HistoryRow, Tables,
}
use agent_roi.Roi.Ledger.{
  has_id, get_opportunity, still_current, moved, write_transition, transition,
}

-- One allowed transition after the other.
pub data Steps : OpportunityStatus → OpportunityStatus → ℕ → Type 0 where
  done : {s : OpportunityStatus} → Steps s s 0
  step :
      {s u : OpportunityStatus} (t : OpportunityStatus) {n : ℕ}
      → allowed s t ≡ true
      → Steps t u n
      → Steps s u (suc n)

-- how many transitions a status allows at most
abbrev pub remaining : OpportunityStatus → ℕ
remaining proposed = 5
remaining approved = 4
remaining in_progress = 3
remaining realizing = 2
remaining validated = 1
remaining rejected = 1
remaining closed = 0

allowed-remaining : (s t : OpportunityStatus) → allowed s t ≡ true → suc (remaining t) ≤ remaining s
allowed-remaining s t h = ground arith

-- A chain of transitions has at most as many steps as remain at its first status, less those that remain
-- at its last: at most five, from a proposal.
pub Steps-bound : {s t : OpportunityStatus} {n : ℕ} → Steps s t n → n + remaining t ≤ remaining s
Steps-bound done = omega arith
Steps-bound (step {s = s} t h rest) = omega (arith, allowed-remaining s t h, Steps-bound rest)

-- the way from a proposal to a validated value
abbrev on_track : OpportunityStatus → Bool
on_track rejected = false
on_track closed = false
on_track _ = true

track_back :
    (s t : OpportunityStatus)
    → allowed s t ≡ true
    → on_track t ≡ true
    → (on_track s ≡ true) × (remaining s ≡ suc (remaining t))
track_back s t h k = ground arith

Steps-track :
    {s t : OpportunityStatus} {n : ℕ}
    → Steps s t n
    → on_track t ≡ true
    → (on_track s ≡ true) × (n + remaining t ≡ remaining s)
Steps-track done k = (k, omega arith)
Steps-track (step {s = s} t h rest) k =
    let back = Steps-track rest k in
    let here = track_back s t h back.0 in (here.0, omega (arith, back.1, here.1))

-- A proposal is validated by a chain of exactly four transitions.
pub Steps-validated : {n : ℕ} → Steps proposed validated n → n ≡ 4
Steps-validated p = omega (arith, (Steps-track p refl).1)

-- the revision that the caller expects, if any, is the present one
abbrev pub expects : Option ℕ → ℕ → Bool
expects none n = true
expects (some m) n = nat_eq n m

current-expects :
    (id : String) (o : ValueOpportunity) (expected : Option ℕ)
    → has_id id o ≡ true
    → still_current id o.status expected o ≡ expects expected o.revision
current-expects id o none h = ground arith
current-expects id o (some m) h = ground arith

current-narrow :
    (id : String) (status : OpportunityStatus) (expected : Option ℕ) (x : ValueOpportunity)
    → still_current id status expected x ≡ true
    → has_id id x ≡ true
current-narrow id status none x h = ground arith
current-narrow id status (some m) x h = ground arith

module _ (id by fresh : String) (new : OpportunityStatus) (expected : Option ℕ) (now : ℕ)
    (t : Tables) where
  abbrev known : HistoryRow → Bool
  known r = r.history_id == fresh

  -- `transition` refuses an unknown opportunity, a move that the table of transitions does not list, and
  -- a revision that is not the present one, each with its error and with all tables as they were, if
  -- the identifier is a key of the table of opportunities.
  pub transition_refused :
      count (has_id id) t.opportunities ≤ 1
      → (select_one (has_id id) t.opportunities ≡ none
          → transition id new by expected fresh now t ≡ (err not_found, t))
        × ((o : ValueOpportunity)
            → select_one (has_id id) t.opportunities ≡ some o
            → allowed o.status new ≡ false
            → transition id new by expected fresh now t ≡ (err invalid_transition, t))
        × ((o : ValueOpportunity)
            → select_one (has_id id) t.opportunities ≡ some o
            → allowed o.status new ≡ true
            → expects expected o.revision ≡ false
            → transition id new by expected fresh now t ≡ (err revision_conflict, t))
  unfolding transition get_opportunity write_transition
  transition_refused key = (
    λ missing. ground (arith, missing),
    λ o found no. ground (arith, found, no),
    λ o found listed stale. ground (
      arith,
      found,
      find-only (has_id id) (still_current id o.status expected) t.opportunities o
          (current-narrow id o.status expected) key found
          (ground
            (arith, current-expects id o expected (find_hit (has_id id) t.opportunities o found))),
    ),
  )

  -- What a transition of `o` is to do: the opportunity has the new status and the next revision and is the
  -- same in all else, no other opportunity changes, and the history ends with the change.
  pub record Moves (o after : ValueOpportunity) (t' : Tables) : Type 0 where
    pub status : after.status ≡ new
    pub revision : after.revision ≡ o.revision + 1
    pub same : record after { status = o.status; revision = o.revision } ≡ o
    pub stored : select_one (has_id id) t'.opportunities ≡ some after
    pub others :
        (other : String)
        → (other == id) ≡ false
        → select_one (has_id other) t'.opportunities ≡ select_one (has_id other) t.opportunities
    pub noted :
        t'.history
        ≡ insert
            (record {
              history_id = fresh;
              opportunity_id = id;
              old_status = o.status;
              new_status = new;
              changed_at = now;
              changed_by = by;
            })
            t.history

  moved-others :
      (o : ValueOpportunity) (l : List ValueOpportunity) (other : String)
      → (other == id) ≡ false
      → select_one (has_id other) (update (still_current id o.status expected) (moved new) l)
        ≡ select_one (has_id other) l
  moved-others o [] other apart = refl
  moved-others o (x ∷ l) other apart = ground (
    arith,
    apart,
    moved-others o l other apart,
    current-narrow id o.status expected x,
    eq_iff x.opportunity_id id,
    eq_iff x.opportunity_id other,
    eq_iff other id,
  )

  -- An allowed move of an opportunity at the expected revision returns the opportunity in its new status
  -- with the revision one up and the rest as it was, and stores it; no other opportunity changes, and the
  -- history gets one more row, with the old status, the new one, the time and who made the change.
  pub transition_moves :
      (o : ValueOpportunity)
      → select_one (has_id id) t.opportunities ≡ some o
      → allowed o.status new ≡ true
      → expects expected o.revision ≡ true
      → any known t.history ≡ false
      → (after : ValueOpportunity) × ((transition id new by expected fresh now t).0 ≡ ok after)
        × Moves o after (transition id new by expected fresh now t).1
  unfolding transition get_opportunity write_transition
  transition_moves o found listed current unused =
      let here = find_hit (has_id id) t.opportunities o found in
      let hit = current-expects id o expected here in
      let some_row =
        is_some-find_of (has_id id) (still_current id o.status expected) t.opportunities o found
          (ground (arith, hit)) in
      let kept =
        find-update (still_current id o.status expected) (has_id id) (moved new) t.opportunities
          (λ r p. refl) in
      (
        record o { status = new; revision = o.revision + 1 },
        ground (arith, some_row, kept, hit),
        record {
          status = refl;
          revision = refl;
          same = refl;
          stored = ground (arith, some_row, kept, hit);
          others = λ other apart.
              ground (arith, some_row, hit, moved-others o t.opportunities other apart);
          noted = ground (arith, some_row, hit);
        },
      )
