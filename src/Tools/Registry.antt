-- ===== src/Tools/Registry.antt =====
-- `ToolRegistry` of runtime/tools.py: a dictionary of checked specifications that can be frozen.
pub mod Laws
use agent_roi.Base.{String, Bool, true, false, Option, none, some, not, ◌&&◌, if◌then◌else◌}
use agent_roi.Result.{Result, ok, err, Exec}
use agent_roi.Float.{Float}
use agent_roi.Dict
use agent_roi.Dict.{Dict}
use agent_roi.Exec.{pure, raise, modify, raise_if, lift, gets, ◌>>=◌, ◌>>◌}
use agent_roi.Tools.Spec.{
  ToolSpec, ToolRegistrationError, check_spec, frozen_registry, duplicate_tool,
}

-- `S` stands for the type of the specifications.
pub record ToolRegistry (S : Type 0) : Type 0 where
  pub tools : Dict S
  pub frozen : Bool

abbrev pub Registering : Type 0 → Type 0 → Type 0
Registering S A = Exec ToolRegistrationError (ToolRegistry S) A

module _ {F A V X W : Type 0} where
  -- `register`; without `replace` a known name is refused
  unfoldable pub register :
      ToolSpec F A V X W → Bool → Registering (ToolSpec F A V X W) (ToolSpec F A V X W)
  register spec replace = do
    frozen ← gets (λ r. r.frozen)
    raise_if frozen frozen_registry
    known ← gets (λ r. Dict.contains r.tools spec.name)
    raise_if (known && not replace) duplicate_tool
    modify (λ r. record r { tools = Dict.put r.tools spec.name spec })
    pure spec

  -- `freeze`
  unfoldable pub freeze : ToolRegistry (ToolSpec F A V X W) → ToolRegistry (ToolSpec F A V X W)
  freeze r = record r { frozen = true }

  -- `get`
  abbrev pub get_tool : ToolRegistry (ToolSpec F A V X W) → String → Option (ToolSpec F A V X W)
  get_tool r name = Dict.get r.tools name

-- `add`: the specification is built, and so checked, before it is registered
unfoldable pub add :
    (fl : Float) {A V X W : Type 0}
    → (String → String)
    → ToolSpec fl.F A V X W
    → Bool
    → Registering (ToolSpec fl.F A V X W) (ToolSpec fl.F A V X W)
unfolding register
add fl lower spec replace = do
  checked ← lift (λ e. e) (check_spec fl lower spec)
  register checked replace
