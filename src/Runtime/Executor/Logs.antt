-- ===== src/Runtime/Executor/Logs.antt =====
-- The methods of the runner when the sinks cannot stop a run: what they log and return.
use mathlib.Core.List.{append_assoc}
use agent_roi.Base.{
  ◌≡◌, ◌⊎◌, refl, arith, String, false, Option, List, [], ◌∷◌, ◌++◌, inl, inr, Option-cases,
  if◌then◌else◌,
}
use agent_roi.Float.{Float}
use agent_roi.Result.{ok, err, Result-cases}
use agent_roi.Control.Decision.{
  DecisionOutcome, human_review, accept, ConfidenceInputs, DecisionError, Numbers, score, decide,
}
use agent_roi.Context.Types.{Controls, Checkpoint}
use agent_roi.Runtime.Executor.{
  status_ok, status_pending, status_error, RunError, from_score, RunEvent, agent_output,
  decision_made, approval_pending, run_failed, run_completed, returned, approval_checkpoint,
  Session, Runner, emit_all, log, choose, success, approval_result, failure,
}

module _ (fl : Float) {A V W X : Type 0} (m : Numbers fl.F) (k : Runner fl.F X)
    (c : Controls fl.F A V X W) (calm : k.fail_on_event_sink_error ≡ false) where
  open fl use {F, nought}

  emit_all_ok :
      (sinks : List (RunEvent F X → Option String)) (e : RunEvent F X) (s : Session F V W X)
      → (noted : List String) × (emit_all fl m k c sinks e s
          ≡ (ok tt, record s { sink_errors = noted }))
  emit_all_ok [] e s = (s.sink_errors, refl)
  emit_all_ok (sink ∷ sinks) e s = elim (Option-cases (sink e)) [
    | inl silent ↦ let (n, h) = emit_all_ok sinks e s in (n, ground (arith, silent, h))
    | inr (text, failed) ↦
        let (n, h) = emit_all_ok sinks e (record s { sink_errors = s.sink_errors ++ text ∷ [] }) in
        (n, ground (arith, failed, calm, h))
  ]

  pub log_ok :
      (e : RunEvent F X) (s : Session F V W X)
      → (noted : List String) × (log fl m k c e s
          ≡ (ok tt, record s { logged = s.logged ++ e ∷ []; sink_errors = noted }))
  unfolding log
  log_ok e s = emit_all_ok k.sinks e (record s { logged = s.logged ++ e ∷ [] })

  pub failure_ok :
      (x : RunError F X) (s : Session F V W X)
      → (noted : List String) × (failure fl m k c x s ≡ (
        ok tt,
        record s {
          logged = s.logged ++ run_failed x ∷ run_completed status_error ∷ [];
          sink_errors = noted;
        },
      ))
  unfolding failure
  failure_ok x s =
      let (n1, e1) = log_ok (run_failed x) s in
      let s1 : Session F V W X = record s {
        logged = s.logged ++ run_failed x ∷ [];
        sink_errors = n1;
      } in
      let (n2, e2) = log_ok (run_completed status_error) s1 in
      (
        n2,
        ground (
          arith,
          e1,
          e2,
          append_assoc s.logged (run_failed x ∷ []) (run_completed status_error ∷ []),
        ),
      )

  -- What `success` does: it completes the run, or a signal is not finite.
  pub success_ok :
      (given : Option (ConfidenceInputs F)) (v : V) (own : Option (ConfidenceInputs F))
      (s : Session F V W X)
      → ((noted : List String) × (confidence : F) × (outcome : DecisionOutcome) × (success fl m k c
              given
              (v, own)
              s
            ≡ (
              ok (record { outcome = outcome; confidence = confidence; output = returned v }),
              record s {
                logged =
                    s.logged
                    ++ agent_output
                      ∷ decision_made confidence outcome
                      ∷ run_completed status_ok
                      ∷ [];
                sink_errors = noted;
              },
            )))
        ⊎ ((noted : List String) × (x : DecisionError) × (success fl m k c given (v, own) s ≡ (
          err (from_score x),
          record s { logged = s.logged ++ agent_output ∷ []; sink_errors = noted },
        )))
  unfolding success decide
  success_ok given v own s =
      let (n1, e1) = log_ok agent_output s in
      let s1 : Session F V W X = record s {
        logged = s.logged ++ agent_output ∷ [];
        sink_errors = n1;
      } in
      elim (Result-cases (score fl m k.policy (choose fl m k c given own))) [
        | inl (v1, scored) ↦
            let outcome : DecisionOutcome =
              if fl.lt v1 k.policy.min_confidence then k.policy.abstain_action else accept in
            let (n2, e2) = log_ok (decision_made v1 outcome) s1 in
            let s2 : Session F V W X = record s1 {
              logged = s1.logged ++ decision_made v1 outcome ∷ [];
              sink_errors = n2;
            } in
            let (n3, e3) = log_ok (run_completed status_ok) s2 in
            inl (
              n3,
              v1,
              outcome,
              ground (
                arith,
                e1,
                scored,
                e2,
                e3,
                append_assoc s.logged (agent_output ∷ []) (decision_made v1 outcome ∷ []),
                append_assoc s.logged (agent_output ∷ decision_made v1 outcome ∷ [])
                    (run_completed status_ok ∷ []),
              ),
            )
        | inr (x, refused) ↦ inr (n1, x, ground (arith, e1, refused))
      ]

  pub approval_ok :
      (point : Checkpoint F) (s : Session F V W X)
      → (noted : List String) × (approval_result fl m k c point s ≡ (
        ok (record {
          outcome = human_review;
          confidence = nought;
          output = approval_checkpoint point;
        }),
        record s {
          logged =
              s.logged ++ approval_pending point.action_digest ∷ run_completed status_pending ∷ [];
          sink_errors = noted;
        },
      ))
  unfolding approval_result
  approval_ok point s =
      let e = approval_pending point.action_digest in
      let (n1, e1) = log_ok e s in
      let s1 : Session F V W X = record s { logged = s.logged ++ e ∷ []; sink_errors = n1 } in
      let (n2, e2) = log_ok (run_completed status_pending) s1 in
      (
        n2,
        ground (arith, e1, e2, append_assoc s.logged (e ∷ []) (run_completed status_pending ∷ [])),
      )
