-- ===== src/Context/Call.antt =====
-- `call_tool` of runtime/context.py.
use agent_roi.Base.{String, false, Option, List, if◌then◌else◌}
use agent_roi.Result.{Result, ok, err}
use agent_roi.Float.{Float}
use agent_roi.Exec.{pure, raise, ◌>>=◌, ◌>>◌}
use agent_roi.Context.Types.{
  Digests, Controls, Env, EventBase, tool, failed, completed, ToolError, FirstArg, Prepared, Method,
  emit,
}
use agent_roi.Context.Prepare.{prepare_call}
use agent_roi.Context.Execute.{Values, is_exception, execute_sync}

module _ (fl : Float) {A V X W : Type 0} (digests : Digests fl.F A) (env : Env fl.F W)
    (values : Values fl.F V X) (c : Controls fl.F A V X W) where
  open fl use {F}

  -- after the handler: `except Exception` reports a failure and raises it again
  unfoldable pub conclude : EventBase F → Result (ToolError F X) V → Method F X V W V
  conclude base (ok v) = do emit c (tool completed base); pure v
  conclude base (err e) =
      if is_exception values e then (do emit c (tool failed base); raise e) else raise e

  unfoldable pub execute_prepared : List (String × A) → Prepared F A V X W → Method F X V W V
  unfolding conclude
  execute_prepared kwargs p r =
      let (result, r') = execute_sync fl digests env values p kwargs r in conclude p.base result r'

  unfoldable pub call_tool :
      String → FirstArg A V X W → List A → List (String × A) → Option (Option F) → Method F X V W V
  unfolding execute_prepared
  call_tool name first rest kwargs cost_usd = do
    p ← prepare_call fl digests env c name first rest kwargs cost_usd false
    execute_prepared kwargs p
