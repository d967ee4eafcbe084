-- ===== src/Agent/Entitled.antt =====
-- What the governed runtime lets through to a tool, in any run of its loop.
use eiraos_chat_backend.Prelude.{
  All, all, ◌≡◌, refl, ◌∙◌, ap, String, Option, none, some, Bool, true, false, List, [], ◌∷◌, arith,
}
use eiraos_chat_backend.Prelude.Text.{one_of}
use eiraos_chat_backend.Prelude.Rows.{select}
use eiraos_chat_backend.Prelude.Int.{eq_ℤ}
use eiraos_chat_backend.Prelude.Result.{ok, err}
use eiraos_chat_backend.Agent.Schema.{Value, Checked, validate_schema}
use eiraos_chat_backend.Agent.Tool.{
  Tool, AuthorizationRequest, AuthorizationDecision, authorize_tool, ExecutionBudget,
}
use eiraos_chat_backend.Agent.Run.{
  LoopStep, AgentRunLimits, Entry, audited, executed, Call, returned, timed_out, raised, cancelled,
  Environment,
}
use eiraos_chat_backend.Agent.Loop.{run_agent_loop_async}
use eiraos_chat_backend.Agent.Trace.{Governed}
use eiraos_chat_backend.Agent.Governed.{run-Governed}
use eiraos_chat_backend.Agent.Runtime.{
  is_named, Executor, has_executor, bind, get, AgentAuthority, Invocation, Execute, decide_found,
  policy, invocation, invoke, raised_unless, checked_result, dispatch, governed,
}

authorize_tool-allowed :
    (r : AuthorizationRequest)
    → (authorize_tool r).allowed ≡ true
    → (one_of r.capability r.tool.capabilities ≡ true)
      × (one_of r.capability r.allowed_capabilities ≡ true)
unfolding authorize_tool
authorize_tool-allowed r h = ground arith

abbrev allows : Call AuthorizationDecision → Bool
allows (returned d) = d.allowed
allows _ = false

all-select :
    {A : Type 0} (p q : A → Bool) (xs : List A) {x : A}
    → all p xs ≡ true
    → select q xs ≡ some x
    → p x ≡ true
unfolding select
all-select p q [] h e = absurd (ground arith)
all-select p q (y ∷ xs) {x} h e = ground (arith, all-select p q xs {x = x})

bind-all :
    (registry : List Tool) (executors : List Executor) {tools : List Tool}
    → bind registry executors ≡ ok tools
    → all (has_executor executors) tools ≡ true
unfolding bind
bind-all registry executors h = ground arith

module _ (decode : String → Value) (registry tools : List Tool) (executors : List Executor)
    (execute : Execute) (a : AgentAuthority) (binding : bind registry executors ≡ ok tools) where
  -- The executor of the tool is called for the authority, on arguments that fit.
  abbrev pub IsChecked : Tool → LoopStep → Invocation → Type 0
  IsChecked tool step i =
      (i ≡ invocation decode tools execute a step tool)
      × (validate_schema tool.input_schema (decode i.arguments) ≡ ok tt)

  -- A result is that of one call, and fits.
  abbrev pub FitsResult : Tool → LoopStep → List Invocation → Call String → Type 0
  FitsResult tool step calls (returned result) =
      (calls ≡ invocation decode tools execute a step tool ∷ [])
      × (validate_schema tool.output_schema (decode result) ≡ ok tt)
  FitsResult tool step calls _ = Unit

  abbrev pub Fits : Tool → LoopStep → List Invocation × Call String → Type 0
  Fits tool step (calls, answer) =
      All (IsChecked tool step) calls × FitsResult tool step calls answer

  pub record Entitled (step : LoopStep) : Type 0 where
    pub tenant : eq_ℤ a.organization_id a.resource_organization_id ≡ true
    pub tool : Tool
    pub registered : get step.tool tools ≡ some tool
    pub bound : has_executor executors tool ≡ true
    pub declared : one_of step.capability tool.capabilities ≡ true
    pub granted : one_of step.capability a.allowed_capabilities ≡ true
    pub fits : Fits tool step (dispatch decode tools execute a step)

  abbrev pub AllEntitled : List Entry → Type 0
  AllEntitled [] = Unit
  AllEntitled (audited e ∷ trace) = AllEntitled trace
  AllEntitled (executed depth step ∷ trace) = Entitled step × AllEntitled trace

  checked_result-FitsResult :
      (tool : Tool) (step : LoopStep) (c : Call String)
      → FitsResult tool step
          (invocation decode tools execute a step tool ∷ [])
          (checked_result decode tools execute a tool c)
  checked_result-FitsResult tool step (returned result) =
      fits (validate_schema tool.output_schema (decode result)) refl
    where
      fits :
          (v : Checked)
          → validate_schema tool.output_schema (decode result) ≡ v
          → FitsResult tool step
              (invocation decode tools execute a step tool ∷ [])
              (raised_unless decode tools execute a v (returned result))
      fits (ok u) e = (refl, e)
      fits (err x) e = tt
  checked_result-FitsResult tool step timed_out = tt
  checked_result-FitsResult tool step raised = tt
  checked_result-FitsResult tool step cancelled = tt

  invoke-Fits :
      (tool : Tool) (step : LoopStep) (v : Checked)
      → validate_schema tool.input_schema (decode step.arguments) ≡ v
      → Fits tool step (invoke decode tools execute a step tool v)
  invoke-Fits tool step (ok u) e = (((refl, e), tt), checked_result-FitsResult tool step _)
  invoke-Fits tool step (err x) e = (tt, tt)

  dispatch-Fits :
      (tool : Tool) (step : LoopStep)
      → (policy decode tools execute a step).allowed ≡ true
      → get step.tool tools ≡ some tool
      → Fits tool step (dispatch decode tools execute a step)
  unfolding dispatch
  dispatch-Fits tool step h e =
      rw (h, e)
        (invoke-Fits tool step (validate_schema tool.input_schema (decode step.arguments)) refl)

  decide_found-Entitled :
      (step : LoopStep)
      → eq_ℤ a.organization_id a.resource_organization_id ≡ true
      → (policy decode tools execute a step).allowed ≡ true
      → (found : Option Tool) → get step.tool tools ≡ found
      → (decide_found decode tools execute a step found).allowed ≡ true
      → Entitled step
  unfolding get
  decide_found-Entitled step same h none e bad = absurd (ground arith)
  decide_found-Entitled step same h (some tool) e allowed =
      let both = authorize_tool-allowed _ allowed in
      record {
        tenant = same;
        tool = tool;
        registered = e;
        bound =
            all-select (has_executor executors) (is_named step.tool) tools
              (bind-all registry executors binding) e;
        declared = both.0;
        granted = both.1;
        fits = dispatch-Fits tool step h e;
      }

  policy-decide_found :
      (step : LoopStep)
      → (policy decode tools execute a step).allowed ≡ true
      → (eq_ℤ a.organization_id a.resource_organization_id ≡ true)
        × ((decide_found decode tools execute a step (get step.tool tools)).allowed ≡ true)
  unfolding policy
  policy-decide_found step h = ground arith

  policy-Entitled :
      (step : LoopStep) → (policy decode tools execute a step).allowed ≡ true → Entitled step
  policy-Entitled step h =
      let both = policy-decide_found step h in
      decide_found-Entitled step both.0 h (get step.tool tools) refl both.1

  all_entitled :
      (env : Environment) (trace : List Entry)
      → Governed (governed decode tools execute a env) trace
      → AllEntitled trace
  all_entitled env [] g = tt
  all_entitled env (audited e ∷ trace) g = all_entitled env trace g
  all_entitled env (executed depth step ∷ trace) (l, g) =
      (policy-Entitled step (ap allows l.authorized ∙ l.allowed), all_entitled env trace g)

  -- Whatever the planner, the executors, the clock and the audit writer do, every tool that a run of
  -- the governed runtime dispatches is dispatched for the authority's own organization, is registered
  -- under the name that the step gives, and declares the step's capability, which the authority has;
  -- its executor is called only for that tool and authority, with the step's arguments, and only
  -- where these fit the tool's input schema; and a result that is given comes from one such call and
  -- fits the output schema. A call whose result does not fit gives no result.
  pub run-AllEntitled :
      (env : Environment) (limits : AgentRunLimits) (budget : ExecutionBudget)
      → AllEntitled
          (run_agent_loop_async
            (governed decode tools execute a env)
            limits
            (record { trace = []; budget = budget })).1.trace
  run-AllEntitled env limits budget =
      all_entitled env
        (run_agent_loop_async (governed decode tools execute a env) limits
          (record { trace = []; budget = budget })).1.trace
        (run-Governed (governed decode tools execute a env) limits budget).0
