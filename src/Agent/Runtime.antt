-- ===== src/Agent/Runtime.antt =====
-- The registry of src/eiraos/application/tool_registry.py, and the governed runtime of
-- src/eiraos/application/agent_runtime.py: the binding of executors, the policy and the dispatch that
-- the loop is run with. The order in which a registry lists its tools has no effect here. A permit is
-- taken by the one dispatch that follows the decision on its step, so it is that decision.
use eiraos_chat_backend.Prelude.{
  String, Option, none, some, Bool, false, List, [], ◌∷◌, ◌++◌, ◌||◌, not, str_eq, is_some, is_none,
  all, any, if◌then◌else◌,
}
use eiraos_chat_backend.Prelude.Text.{is_empty}
use eiraos_chat_backend.Prelude.Int.{ℤ, pos, eq_ℤ, leb_ℤ}
use eiraos_chat_backend.Prelude.Rows.{select}
use eiraos_chat_backend.Prelude.Result.{Result, ok, err, ◌>>◌, raise_if}
use eiraos_chat_backend.Agent.Schema.{Value, Checked, validate_schema}
use eiraos_chat_backend.Agent.Tool.{Tool, AuthorizationDecision, authorize_tool, decision}
use eiraos_chat_backend.Agent.Run.{
  LoopStep, Call, returned, timed_out, raised, cancelled, Environment,
}

pub data RegistryError : Type 0 where
  duplicate_tool tool_not_found : String → RegistryError

abbrev pub is_named : String → Tool → Bool
is_named name tool = str_eq tool.name name

-- `ToolRegistry.register` and `get`
unfoldable pub register : Tool → List Tool → Result RegistryError (List Tool)
register tool tools =
    if is_some (select (is_named tool.name) tools)
    then err (duplicate_tool tool.name)
    else ok (tools ++ tool ∷ [])

unfoldable pub get : String → List Tool → Option Tool
get name tools = select (is_named name) tools

-- `ToolBindingError`
pub data BindingError : Type 0 where
  no_registered_tool not_async : String → BindingError
  no_executor : BindingError

-- the name of an executor, and whether it is a coroutine function
abbrev pub Executor : Type 0
Executor = String × Bool

abbrev pub has_executor : List Executor → Tool → Bool
has_executor executors tool = any (λ (e : Executor). str_eq e.0 tool.name) executors

unfoldable pub bind_all : List Tool → List Executor → Result BindingError (Unit {0})
unfolding get
bind_all tools [] = ok tt
bind_all tools ((name, is_async) ∷ executors) = do
  raise_if (is_none (get name tools)) (no_registered_tool name)
  raise_if (not is_async) (not_async name)
  bind_all tools executors

-- `GovernedAgentRuntime.__init__`
unfoldable pub bind : List Tool → List Executor → Result BindingError (List Tool)
unfolding bind_all
bind tools executors = do
  bind_all tools executors
  raise_if (not (all (has_executor executors) tools)) no_executor
  ok tools

pub record AgentAuthority : Type 0 where
  pub actor : String
  pub organization_id : ℤ
  pub resource_organization_id : ℤ
  pub allowed_capabilities : List String

-- `__post_init__`; `none` is the `ValueError`
unfoldable pub authority_of : AgentAuthority → Option AgentAuthority
authority_of a =
    if is_empty a.actor
      || leb_ℤ a.organization_id (pos 0)
      || leb_ℤ a.resource_organization_id (pos 0)
      || any is_empty a.allowed_capabilities
    then none
    else some a

pub record ToolExecutionContext : Type 0 where
  pub actor : String
  pub organization_id : ℤ
  pub capability : String

-- A call of an executor.
pub record Invocation : Type 0 where
  pub name : String
  pub arguments : String
  pub context : ToolExecutionContext

-- An executor, on its arguments in their JSON text.
abbrev pub Execute : Type 0
Execute = String → String → ToolExecutionContext → Call String

module _ (decode : String → Value) (tools : List Tool) (execute : Execute)
    (a : AgentAuthority) where
  abbrev pub decide_found : LoopStep → Option Tool → AuthorizationDecision
  decide_found step none = decision false "UNKNOWN_TOOL"
  decide_found step (some tool) = authorize_tool (record {
    actor = a.actor;
    tool = tool;
    capability = step.capability;
    allowed_capabilities = a.allowed_capabilities;
  })

  unfoldable pub policy : LoopStep → AuthorizationDecision
  unfolding get authorize_tool
  policy step =
      if not (eq_ℤ a.organization_id a.resource_organization_id)
      then decision false "TENANT_MISMATCH"
      else decide_found step (get step.tool tools)

  -- the permit that the policy left for the step
  abbrev pub permit_of : LoopStep → Option Tool
  permit_of step = if (policy step).allowed then get step.tool tools else none

  abbrev pub raised_unless : {A : Type 0} → Checked → Call A → Call A
  raised_unless (ok u) next = next
  raised_unless (err e) next = raised

  abbrev pub checked_result : Tool → Call String → Call String
  checked_result tool (returned result) =
      raised_unless (validate_schema tool.output_schema (decode result)) (returned result)
  checked_result tool timed_out = timed_out
  checked_result tool raised = raised
  checked_result tool cancelled = cancelled

  abbrev pub invocation : LoopStep → Tool → Invocation
  invocation step tool = record {
    name = tool.name;
    arguments = step.arguments;
    context = record {
      actor = a.actor;
      organization_id = a.organization_id;
      capability = step.capability;
    };
  }

  -- after the check of the arguments
  abbrev pub invoke : LoopStep → Tool → Checked → List Invocation × Call String
  invoke step tool (err e) = ([], raised)
  invoke step tool (ok u) =
      let i = invocation step tool in
      (i ∷ [], checked_result tool (execute i.name i.arguments i.context))

  abbrev pub with_permit : LoopStep → Option Tool → List Invocation × Call String
  with_permit step none = ([], raised)
  with_permit step (some tool) =
      invoke step tool (validate_schema tool.input_schema (decode step.arguments))

  -- the executors that are called, and the answer
  unfoldable pub dispatch : LoopStep → List Invocation × Call String
  unfolding policy get
  dispatch step = with_permit step (permit_of step)

  -- `run`: the loop with this policy and this dispatch
  abbrev pub governed : Environment → Environment
  governed env = record env {
    authorize = λ depth step. returned (policy step);
    execute = λ depth step. (dispatch step).1;
  }
