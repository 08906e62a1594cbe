-- ===== src/Runtime/Executor/Endings.antt =====
-- How a run ends, when the sinks cannot stop it.
use mathlib.Core.List.{append_assoc, append-nil}
use mathlib.Core.Path.{subst}
use agent_roi.Base.{
  ◌+◌, ◌≡◌, refl, sym, ap, ◌∙◌, arith, String, Bool, true, false, Option, List, [], ◌∷◌, ◌++◌, map,
  count, inl, inr,
}
use agent_roi.Float.{Float}
use agent_roi.Result.{Result, ok, err, Exec}
use agent_roi.Control.Decision.{ConfidenceInputs, DecisionError, Numbers}
use agent_roi.Context.Types.{Controls, Run, Event, ToolError, human_approval_required}
use agent_roi.Runtime.Executor.{
  Status, status_ok, status_pending, status_error, RunError, from_tool, from_score, RunEvent,
  run_started, from_context, agent_output, decision_made, approval_pending, run_failed,
  run_completed, returned, approval_checkpoint, SentinelResult, Session, Runner, start, handle,
  call_agent, answered, attend, run,
}
use agent_roi.Runtime.Executor.Logs.{log_ok, failure_ok, success_ok, approval_ok}

abbrev pub is_completed : {F X : Type 0} → RunEvent F X → Bool
is_completed (run_completed _) = true
is_completed _ = false

abbrev pub status_of : {F V X : Type 0} → Result (RunError F X) (SentinelResult F V) → Status
status_of (err x) = status_error
status_of (ok r) = elim r.output [
  | returned v ↦ status_ok
  | approval_checkpoint point ↦ status_pending
]

count-append :
    {A : Type 0} (q : A → Bool) (xs ys : List A) → count q (xs ++ ys) ≡ count q xs + count q ys
count-append q [] ys = ground arith
count-append q (x ∷ xs) ys = ground (arith, count-append q xs ys)

module _ (fl : Float) {A V W X : Type 0} (m : Numbers fl.F) (k : Runner fl.F X)
    (c : Controls fl.F A V X W) (calm : k.fail_on_event_sink_error ≡ false) where
  open fl use {F, nought}

  -- The events after those of `before`: some that complete nothing, and the completion, whose status
  -- says what the run returned.
  pub record Ends (r : Result (RunError F X) (SentinelResult F V))
      (before after : List (RunEvent F X)) : Type 0 where
    pub middle : List (RunEvent F X)
    pub trail : after ≡ before ++ (middle ++ run_completed (status_of r) ∷ [])
    pub quiet : count is_completed middle ≡ 0

  -- an exception that is no request for an approval
  raised-Ends :
      (x : RunError F X) (s : Session F V W X) (before middle : List (RunEvent F X))
      → s.logged ≡ before ++ middle
      → count is_completed middle ≡ 0
      → (noted : List String)
      → handle fl m k c (err x) s ≡ (
        err x,
        record s {
          logged = s.logged ++ run_failed x ∷ run_completed status_error ∷ [];
          sink_errors = noted;
        },
      )
      → Ends (handle fl m k c (err x) s).0 before (handle fl m k c (err x) s).1.logged
  raised-Ends x s before middle logged quiet noted h =
      subst (λ r. Ends r.0 before r.1.logged) (sym h)
        (record {
          middle = middle ++ run_failed x ∷ [];
          trail =
              ap (λ l. l ++ run_failed x ∷ run_completed status_error ∷ []) logged
              ∙ append_assoc before middle (run_failed x ∷ run_completed status_error ∷ [])
              ∙ ap (λ l. before ++ l)
                  (sym (append_assoc middle (run_failed x ∷ []) (run_completed status_error ∷ [])));
          quiet = count-append is_completed middle (run_failed x ∷ []) ∙ ground (arith, quiet);
        })

  -- what `run` does with an exception of the agent
  agent_raised-Ends :
      (x : RunError F X) (s : Session F V W X)
      → k.is_exception x ≡ true
      → Ends (handle fl m k c (err x) s).0 s.logged (handle fl m k c (err x) s).1.logged
  unfolding handle
  agent_raised-Ends (from_tool (human_approval_required point)) s exception =
      let (n, e) = approval_ok fl m k c calm point s in
      subst (λ r. Ends r.0 s.logged r.1.logged) (sym e)
        (record { middle = approval_pending point.action_digest ∷ []; trail = refl; quiet = refl })
  agent_raised-Ends x s exception =
      let (n, e) = failure_ok fl m k c calm x s in
      raised-Ends x s s.logged [] (sym (append-nil s.logged)) refl n (ground (arith, exception, e))

  -- the outcome of the agent, and what follows
  answered-Ends :
      (given : Option (ConfidenceInputs F))
      (r : Result (RunError F X) (V × Option (ConfidenceInputs F))) (s : Session F V W X)
      → ((x : DecisionError) → k.is_exception (from_score x) ≡ true)
      → ((x : RunError F X) → r ≡ err x → k.is_exception x ≡ true)
      → let (r', s') = answered fl m k c given r s in
        Ends (handle fl m k c r' s').0 s.logged (handle fl m k c r' s').1.logged
  unfolding handle answered
  answered-Ends given (err x) s value_error exception = agent_raised-Ends x s (exception x refl)
  answered-Ends given (ok (v, own)) s value_error exception =
      elim (success_ok fl m k c calm given v own s) [
        | inl (n, confidence, outcome, e) ↦
            subst
              (λ r. Ends (handle fl m k c r.0 r.1).0 s.logged (handle fl m k c r.0 r.1).1.logged)
              (sym e)
              (record {
                middle = agent_output ∷ decision_made confidence outcome ∷ [];
                trail = refl;
                quiet = refl;
              })
        | inr (n, x, e) ↦
            let s1 : Session F V W X = record s {
              logged = s.logged ++ agent_output ∷ [];
              sink_errors = n;
            } in
            let (n', f) = failure_ok fl m k c calm (from_score x) s1 in
            subst
              (λ r. Ends (handle fl m k c r.0 r.1).0 s.logged (handle fl m k c r.0 r.1).1.logged)
              (sym e)
              (raised-Ends (from_score x) s1 s.logged (agent_output ∷ []) refl refl n'
                (ground (arith, value_error x, f)))
      ]

  -- the events before the ending
  abbrev pub opening : List (Event F) → List (RunEvent F X)
  opening events = run_started k.policy_digest ∷ map from_context events

  context-quiet : (events : List (Event F)) → count is_completed (opening events) ≡ 0
  context-quiet [] = refl
  context-quiet (e ∷ events) = context-quiet events

  start-logged :
      (s : Session F V W X)
      → (start fl m k c s).1.logged ≡ s.logged ++ run_started k.policy_digest ∷ []
  unfolding start
  start-logged s =
      let (n, e) = log_ok fl m k c calm (run_started k.policy_digest) s in ground (arith, e)

  attend-Ends :
      (agent : Exec (ToolError F X) (Run F V W) (V × Option (ConfidenceInputs F)))
      (given : Option (ConfidenceInputs F)) (s : Session F V W X) (before : List (RunEvent F X))
      → (call_agent fl m k c agent s).1.logged ≡ before
      → ((x : DecisionError) → k.is_exception (from_score x) ≡ true)
      → ((x : RunError F X) → (call_agent fl m k c agent s).0 ≡ err x → k.is_exception x ≡ true)
      → Ends (attend fl m k c agent given s).0 before (attend fl m k c agent given s).1.logged
  unfolding attend
  attend-Ends agent given s before logged value_error exception =
      let (r, s1) = call_agent fl m k c agent s in
      let (r', s2) = answered fl m k c given r s1 in
      subst (λ l. Ends (handle fl m k c r' s2).0 l (handle fl m k c r' s2).1.logged) logged
        (answered-Ends given r s1 value_error exception)

  run-started :
      (agent : Exec (ToolError F X) (Run F V W) (V × Option (ConfidenceInputs F)))
      (given : Option (ConfidenceInputs F)) (s : Session F V W X)
      → (start fl m k c s).0 ≡ ok tt
      → run fl m k c agent given s ≡ attend fl m k c agent given (start fl m k c s).1
  unfolding run
  run-started agent given s started = ground (arith, started)

  call_agent-logged :
      (agent : Exec (ToolError F X) (Run F V W) (V × Option (ConfidenceInputs F)))
      (s : Session F V W X)
      → (call_agent fl m k c agent s).1.logged ≡ s.logged ++ map from_context (agent s.ctx).1.events
  unfolding call_agent
  call_agent-logged agent s = refl

  -- one completion in a trail that ends
  once :
      (r : Result (RunError F X) (SentinelResult F V)) (events : List (Event F))
      (after : List (RunEvent F X))
      → Ends r (opening events) after
      → count is_completed after ≡ 1
  once r events after e =
      let last : List (RunEvent F X) = run_completed (status_of r) ∷ [] in
      ap (count is_completed) e.trail
      ∙ omega (
        arith,
        count-append is_completed (opening events) (e.middle ++ last),
        count-append is_completed e.middle last,
        context-quiet events,
        e.quiet,
      )

  -- If the sinks are not allowed to stop a run, the first step is within the limits, and what the agent
  -- raises, if it raises, is an `Exception`, as the errors of the score are, then a run in a new session
  -- logs, in this order, its start, what the agent made the context emit, and its ending. Its last
  -- event, and no other, is a completion, whose status says if it returned an output, asked for an
  -- approval or raised.
  pub run-Ends :
      (agent : Exec (ToolError F X) (Run F V W) (V × Option (ConfidenceInputs F)))
      (given : Option (ConfidenceInputs F)) (s : Session F V W X)
      → s.logged ≡ []
      → (start fl m k c s).0 ≡ ok tt
      → ((x : DecisionError) → k.is_exception (from_score x) ≡ true)
      → ((x : RunError F X)
          → (call_agent fl m k c agent (start fl m k c s).1).0 ≡ err x
          → k.is_exception x ≡ true)
      → Ends
          (run fl m k c agent given s).0
          (opening (agent (start fl m k c s).1.ctx).1.events)
          (run fl m k c agent given s).1.logged
        × (count is_completed (run fl m k c agent given s).1.logged ≡ 1)
  run-Ends agent given s new started value_error exception =
      let s0 = (start fl m k c s).1 in
      let events : List (Event F) = (agent s0.ctx).1.events in
      let same : run fl m k c agent given s ≡ attend fl m k c agent given s0 =
        run-started agent given s started in
      let begun : s0.logged ≡ run_started k.policy_digest ∷ [] =
        start-logged s ∙ ap (λ l. l ++ run_started k.policy_digest ∷ []) new in
      let opened = call_agent-logged agent s0 ∙ ap (λ l. l ++ map from_context events) begun in
      let ends = attend-Ends agent given s0 (opening events) opened value_error exception in
      let ends' = subst (λ r. Ends r.0 (opening events) r.1.logged) (sym same) ends in
      (
        ends',
        once (run fl m k c agent given s).0 events (run fl m k c agent given s).1.logged ends',
      )
