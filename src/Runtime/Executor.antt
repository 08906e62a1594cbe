-- ===== src/Runtime/Executor.antt =====
-- `SentinelRunner` of runtime/executor.py: `_log`, `_start`, `_success`, `_approval_result`, `_failure` and
-- `run`. The agent is a function on the context; the hard time limit and the previews are left out,
-- and the audit store's `record` does not raise.
pub mod Logs
pub mod Endings
use agent_roi.Base.{
  ℕ, String, Bool, true, false, Option, none, some, List, [], ◌∷◌, ◌++◌, map, if◌then◌else◌,
}
use agent_roi.Float.{Float}
use agent_roi.Result.{Result, ok, err, Exec}
use agent_roi.Exec.{pure, raise, modify, ◌>>=◌, ◌>>◌}
use agent_roi.Control.Decision.{
  DecisionOutcome, human_review, DecisionPolicy, ConfidenceInputs, no_inputs, DecisionError,
  Numbers, score, decide,
}
use agent_roi.Context.Types.{Controls, Run, Event, Checkpoint, ToolError, human_approval_required}
use agent_roi.Context.Counters.{bump_step}

-- The last event says how a run ended.
pub data Status : Type 0 where
  status_ok status_pending status_error : Status

-- What a run raises.
pub data RunError (F X : Type 0) : Type 0 where
  from_tool : ToolError F X → RunError F X
  from_score : DecisionError → RunError F X
  sink_failed : String → RunError F X

-- What `_log` records: the runner's own events, and those that the context emits.
pub data RunEvent (F X : Type 0) : Type 0 where
  run_started : String → RunEvent F X
  from_context : Event F → RunEvent F X
  agent_output : RunEvent F X
  decision_made : F → DecisionOutcome → RunEvent F X
  approval_pending : String → RunEvent F X
  run_failed : RunError F X → RunEvent F X
  run_completed : Status → RunEvent F X

pub data Output (F V : Type 0) : Type 0 where
  returned : V → Output F V
  approval_checkpoint : Checkpoint F → Output F V

pub record SentinelResult (F V : Type 0) : Type 0 where
  pub outcome : DecisionOutcome
  pub confidence : F
  pub output : Output F V

-- The context, what was logged, and `event_sink_errors`.
pub record Session (F V W X : Type 0) : Type 0 where
  pub ctx : Run F V W
  pub logged : List (RunEvent F X)
  pub sink_errors : List String

-- What a sink does with an event: nothing to report, or the text of an exception.
pub record Runner (F X : Type 0) : Type 0 where
  pub policy : DecisionPolicy F
  pub policy_digest : String
  pub sinks : List (RunEvent F X → Option String)
  pub fail_on_event_sink_error : Bool
  -- the error is an `Exception`
  pub is_exception : RunError F X → Bool

module _ (fl : Float) {A V W X : Type 0} (m : Numbers fl.F) (k : Runner fl.F X)
    (c : Controls fl.F A V X W) where
  open fl use {F, nought}

  abbrev pub Running : Type 0 → Type 0
  Running B = Exec (RunError F X) (Session F V W X) B

  -- `for sink in self.event_sinks`
  abbrev pub emit_all : List (RunEvent F X → Option String) → RunEvent F X → Running (Unit {0})
  emit_all [] e s = (ok tt, s)
  emit_all (sink ∷ sinks) e s = elim (sink e) [
    | none ↦ emit_all sinks e s
    | some text ↦
        let noted = record s { sink_errors = s.sink_errors ++ text ∷ [] } in
        if k.fail_on_event_sink_error
        then (err (sink_failed text), noted)
        else emit_all sinks e noted
  ]

  -- `_log`: the event is recorded before the sinks see it
  unfoldable pub log : RunEvent F X → Running (Unit {0})
  log e s = emit_all k.sinks e (record s { logged = s.logged ++ e ∷ [] })

  -- a method of the context
  abbrev pub on_context : {B : Type 0} → Exec (ToolError F X) (Run F V W) B → Running B
  on_context method s =
      let (r, ctx) = method s.ctx in
      (elim r [ ok b ↦ ok b | err x ↦ err (from_tool x) ], record s { ctx = ctx })

  -- `_start`
  unfoldable pub start : Running (Unit {0})
  unfolding log bump_step
  start = do log (run_started k.policy_digest); on_context (bump_step fl c)

  -- `confidence_inputs or confidence_from_agent or ConfidenceInputs()`
  abbrev pub choose : Option (ConfidenceInputs F) → Option (ConfidenceInputs F) → ConfidenceInputs F
  choose (some given) own = given
  choose none (some own) = own
  choose none none = no_inputs

  abbrev pub scored : {B : Type 0} → Result DecisionError B → Running B
  scored (ok b) s = (ok b, s)
  scored (err x) s = (err (from_score x), s)

  -- `_success`
  unfoldable pub success :
      Option (ConfidenceInputs F) → V × Option (ConfidenceInputs F) → Running (SentinelResult F V)
  unfolding log
  success given (output, own) = do
    log agent_output
    confidence ← scored (score fl m k.policy (choose given own))
    outcome ← scored (decide fl m k.policy (choose given own))
    log (decision_made confidence outcome)
    log (run_completed status_ok)
    pure (record { outcome = outcome; confidence = confidence; output = returned output })

  -- `_approval_result`
  unfoldable pub approval_result : Checkpoint F → Running (SentinelResult F V)
  unfolding log
  approval_result point = do
    log (approval_pending point.action_digest)
    log (run_completed status_pending)
    pure
        (record { outcome = human_review; confidence = nought; output = approval_checkpoint point })

  -- `_failure`
  unfoldable pub failure : RunError F X → Running (Unit {0})
  unfolding log
  failure x = do log (run_failed x); log (run_completed status_error)

  -- the handlers of `run`
  unfoldable pub handle : Result (RunError F X) (SentinelResult F V) → Running (SentinelResult F V)
  unfolding approval_result failure
  handle (ok result) s = (ok result, s)
  handle (err (from_tool (human_approval_required point))) s = approval_result point s
  handle (err x) s = if k.is_exception x then (do failure x; raise x) s else (err x, s)

  -- what the sinks raise at an event, up to the first error if it ends the round of the sinks
  abbrev noted : List (RunEvent F X → Option String) → RunEvent F X → List String
  noted [] e = []
  noted (sink ∷ sinks) e = elim (sink e) [
    | none ↦ noted sinks e
    | some text ↦ if k.fail_on_event_sink_error then text ∷ [] else text ∷ noted sinks e
  ]

  abbrev noted_all : List (RunEvent F X) → List String
  noted_all [] = []
  noted_all (e ∷ events) = noted k.sinks e ++ noted_all events

  -- the agent, and what it made the context emit, which the sinks see too; that a sink stops the agent is
  -- an error of the agent
  unfoldable pub call_agent :
      Exec (ToolError F X) (Run F V W) (V × Option (ConfidenceInputs F))
      → Running (V × Option (ConfidenceInputs F))
  call_agent agent s =
      let (r, s') = on_context agent s in
      let emitted = map from_context s'.ctx.events in
      (
        r,
        record s' {
          logged = s'.logged ++ emitted;
          sink_errors = s'.sink_errors ++ noted_all emitted;
        },
      )

  -- the rest of the `try` block
  unfoldable pub answered :
      Option (ConfidenceInputs F)
      → Result (RunError F X) (V × Option (ConfidenceInputs F))
      → Running (SentinelResult F V)
  unfolding success
  answered given (err x) s = (err x, s)
  answered given (ok answer) s = success given answer s

  -- the `try` statement of `run`
  unfoldable pub attend :
      Exec (ToolError F X) (Run F V W) (V × Option (ConfidenceInputs F))
      → Option (ConfidenceInputs F)
      → Running (SentinelResult F V)
  unfolding answered handle call_agent
  attend agent given s =
      let (r, s1) = call_agent agent s in let (r', s2) = answered given r s1 in handle r' s2

  -- `run`, with the context that `_new_context` makes
  unfoldable pub run :
      Exec (ToolError F X) (Run F V W) (V × Option (ConfidenceInputs F))
      → Option (ConfidenceInputs F)
      → Running (SentinelResult F V)
  unfolding start attend
  run agent given = do start; attend agent given
