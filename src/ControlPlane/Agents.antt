-- ===== src/ControlPlane/Agents.antt =====
-- The agents of `SqliteControlPlaneStore` of enterprise/control_plane.py.
use agent_roi.Base.{ℕ, String, Option, none, some, is_some, if◌then◌else◌}
use agent_roi.Result.{ok, err}
use agent_roi.Exec.{◌>>◌}
use agent_roi.Table.{update, select_one}
use agent_roi.ControlPlane.Rows.{
  Agent, Storing, agent_at, upsert, reregistered, new_agent, beaten, agent_as, agent_not_found,
  agent_conflict,
}

module _ {P : Type 0} where
  -- `get_agent`
  unfoldable pub get_agent : String → String → String → Storing P Agent
  get_agent organization agent environment t =
      elim (select_one (agent_at organization agent environment) t.agents) [
        | none ↦ (err agent_not_found, t)
        | some a ↦ (ok a, t)
      ]

  -- the writes of `register_agent`
  unfoldable pub write_agent :
      String
      → String
      → String
      → String
      → String
      → String
      → String
      → Option ℕ
      → ℕ
      → Storing P (Unit {0})
  write_agent organization agent environment owner purpose status version none now t = (
    ok tt,
    record t {
      agents =
          upsert (agent_at organization agent environment)
            (new_agent organization agent environment owner purpose status version now)
            (reregistered owner purpose status version) t.agents;
    },
  )
  write_agent organization agent environment owner purpose status version (some expected) now t =
      let matches = agent_as organization agent environment (some expected) in
      if is_some (select_one matches t.agents)
      then (
        ok tt,
        record t { agents = update matches (reregistered owner purpose status version) t.agents },
      )
      else (err agent_conflict, t)

  -- `register_agent`
  unfoldable pub register_agent :
      String → String → String → String → String → String → String → Option ℕ → ℕ → Storing P Agent
  unfolding write_agent get_agent
  register_agent organization agent environment owner purpose status version expected now = do
    write_agent organization agent environment owner purpose status version expected now
    get_agent organization agent environment

  -- `heartbeat`
  unfoldable pub heartbeat :
      String → String → String → String → String → String → Option ℕ → ℕ → Storing P Agent
  unfolding get_agent
  heartbeat organization agent environment digest version status expected now t =
      let matches = agent_as organization agent environment expected in
      if is_some (select_one matches t.agents)
      then get_agent organization agent environment
          (record t { agents = update matches (beaten digest version status now) t.agents })
      else (err (if is_some expected then agent_conflict else agent_not_found), t)
